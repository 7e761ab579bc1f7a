-- ===== src/Client/FromChain.antt =====
-- src/bitcoin_core_rpc/client.py: `from_chain`, and `assert_chain` of a client that calls. A path is
-- what `Platform` joins.
pub mod Local
use bitcoin_core_rpc.Chains.{rpc_port_from_chain}
use bitcoin_core_rpc.Chains.Datadir.{Platform, cookie_path_from_chain, default_datadir}
use bitcoin_core_rpc.Chains.Signet.{Challenge}
use bitcoin_core_rpc.Client.Call.{Site, call}
use bitcoin_core_rpc.Client.ChainCheck.{assert_chain}
use bitcoin_core_rpc.Client.Credentials.{
  CookieArgument, RpcClient, TransportArgument, cookie_path_at, has_no_cookie_path, is_absent,
  rpc_client,
}
use bitcoin_core_rpc.Client.Rest.{default_max_body_size, loopback_url}
use bitcoin_core_rpc.Errors.{
  Result, btc_value_error, challenge_without_verify, no_datadir_for_cookie, ok, raise, refuse,
  ◌>>=◌, ◌>>◌,
}
use bitcoin_core_rpc.Params.{absent}
use bitcoin_core_rpc.Prelude.{
  Bool, Bytes, Option, Text, [], codes, false, if◌then◌else◌, is_some, none, not, pos, some, true,
  ◌&&◌,
}
use bitcoin_core_rpc.Value.{Scalar, int, none_value, str}

-- `assert_chain`, over `call`
unfoldable pub client_assert_chain :
    {P S : Type 0}
    → Site P S
    → (Bytes → Bytes)
    → (request_id : Text) → RpcClient P
    → Text
    → Option Challenge
    → Result (Unit {0})
unfolding assert_chain call
client_assert_chain site sha256 request_id client chain challenge =
    assert_chain sha256
      (call site client request_id (str (codes "getblockchaininfo")) absent none_value
        (int (pos default_max_body_size)))
      chain challenge

-- the text of a chain that a table has
unfoldable pub chain_text : Scalar → Text
chain_text (str t) = t
chain_text _ = []

-- user is None and password is None and cookie_path is None
unfoldable pub names_nobody : {P : Type 0} → Scalar → Scalar → CookieArgument P → Bool
unfolding is_absent has_no_cookie_path
names_nobody user password cookie =
    is_absent user && is_absent password && has_no_cookie_path cookie

-- the cookie file of the chain, under the default datadir
unfoldable pub derived_cookie : {P : Type 0} → Platform P → Scalar → Result P
unfolding default_datadir cookie_path_from_chain
derived_cookie platform chain = elim (default_datadir platform) [
  | none ↦ raise (btc_value_error no_datadir_for_cookie)
  | some d ↦ cookie_path_from_chain platform chain (some d)
]

-- the cookie path that the constructor is given
unfoldable pub cookie_or_derived :
    {P : Type 0}
    → Platform P
    → (chain user password : Scalar) → CookieArgument P
    → Result (CookieArgument P)
unfolding names_nobody derived_cookie
cookie_or_derived platform chain user password cookie =
    if names_nobody user password cookie
    then (derived_cookie platform chain >>= λ path. ok (cookie_path_at path))
    else ok cookie

-- if verify_chain: client.assert_chain(...)
unfoldable pub verified : Bool → Result (Unit {0}) → Result (Unit {0})
verified true check = check
verified false check = ok tt

-- `from_chain`
unfoldable pub from_chain :
    {P S : Type 0}
    → Site P S
    → Platform P
    → (Bytes → Bytes)
    → (request_id : Text) (chain user password : Scalar) → CookieArgument P
    → (timeout : Scalar) → TransportArgument
    → (verify_chain : Bool) → Option Challenge
    → Result (RpcClient P)
unfolding rpc_client cookie_or_derived client_assert_chain verified
from_chain site platform sha256 request_id chain user password cookie timeout transport verify_chain
      challenge =
    do
      number ← rpc_port_from_chain chain
      refuse (is_some challenge && not verify_chain) (btc_value_error challenge_without_verify)
      identity ← cookie_or_derived platform chain user password cookie
      client ←
          rpc_client site.around.unicode site.around.urlsplit (loopback_url number) user password
            identity timeout transport
      verified verify_chain
          (client_assert_chain site sha256 request_id client (chain_text chain) challenge)
      ok client
