-- ===== src/Client/FromChain/Local.antt =====
-- What `from_chain` of src/bitcoin_core_rpc/client.py builds.
use mathlib.Core.Path.{subst}
use bitcoin_core_rpc.Chains.{rpc_port_from_chain}
use bitcoin_core_rpc.Chains.Datadir.{Platform, cookie_path_from_chain, default_datadir}
use bitcoin_core_rpc.Chains.Signet.{Challenge}
use bitcoin_core_rpc.Client.Call.{Site, call}
use bitcoin_core_rpc.Client.ChainCheck.Agreement.{Agrees, Means, assert_chain-ok_iff}
use bitcoin_core_rpc.Client.Credentials.{
  CookieArgument, RpcClient, TransportArgument, cookie_path_at, cookie_path_of, rpc_client,
}
use bitcoin_core_rpc.Client.Credentials.Sent.{
  IsIdentified, rpc_client-IsIdentified, rpc_client-fields,
}
use bitcoin_core_rpc.Client.FromChain.{
  chain_text, client_assert_chain, cookie_or_derived, derived_cookie, from_chain, names_nobody,
  verified,
}
use bitcoin_core_rpc.Client.Rest.{default_max_body_size, loopback_url}
use bitcoin_core_rpc.Client.Url.{checked_url-split_url}
use bitcoin_core_rpc.Errors.{
  >>=-eq-ok, Exception, btc_value_error, challenge_without_verify, ok, refuse,
}
use bitcoin_core_rpc.Params.{absent}
use bitcoin_core_rpc.Prelude.{
  Bool, Bytes, Option, Option-cases, Text, arith, codes, false, inl, inr, is_some, not, pos, refl,
  some, true, ℕ, ◌&&◌, ◌≡◌,
}
use bitcoin_core_rpc.Value.{Json, Scalar, int, none_value, str}

-- What a client of a local node is: it calls the loopback address at the port of the chain, as a
-- user with a password or with a cookie file, which is the chain's own under the default datadir
-- where the caller said nothing; and if the caller asked for it, the node has named this chain.
pub record IsLocal {P S : Type 0} (site : Site P S) (platform : Platform P) (sha256 : Bytes → Bytes)
    (request_id : Text) (chain user password : Scalar) (cookie : CookieArgument P)
    (verify_chain : Bool) (challenge : Option Challenge) (client : RpcClient P) : Type 0 where
  pub number : ℕ
  pub known_chain : rpc_port_from_chain chain ≡ ok number
  pub endpoint : client.url ≡ loopback_url number
  pub identified : IsIdentified client
  pub own_cookie :
      names_nobody user password cookie ≡ true
      → (d : P) × (path : P) × (default_datadir platform ≡ some d)
        × (cookie_path_from_chain platform chain (some d) ≡ ok path)
        × (client.cookie_path ≡ some path)
  pub compared : is_some challenge ≡ true → verify_chain ≡ true
  pub agreed :
      verify_chain ≡ true
      → (expected : Option Bytes) × (reply : Json) × Means sha256
          (chain_text chain)
          challenge
          expected
        × (call site client request_id
              (str (codes "getblockchaininfo"))
              absent
              none_value
              (int (pos default_max_body_size))
            ≡ ok reply)
        × Agrees sha256 reply (chain_text chain) expected

derived_cookie-ok :
    {P : Type 0} (platform : Platform P) (chain : Scalar) (path : P)
    → derived_cookie platform chain ≡ ok path
    → (d : P) × (default_datadir platform ≡ some d)
      × (cookie_path_from_chain platform chain (some d) ≡ ok path)
unfolding derived_cookie
derived_cookie-ok platform chain path h = elim (Option-cases (default_datadir platform)) [
  | inl q ↦ let h' = rw (derived_cookie, q) at h in absurd (ground arith)
  | inr (d, q) ↦ (d, q, (rw (derived_cookie, q) at h))
]

cookie_or_derived-ok :
    {P : Type 0} (platform : Platform P) (chain user password : Scalar)
    (cookie identity : CookieArgument P)
    → cookie_or_derived platform chain user password cookie ≡ ok identity
    → names_nobody user password cookie ≡ true
    → (d : P) × (path : P) × (default_datadir platform ≡ some d)
      × (cookie_path_from_chain platform chain (some d) ≡ ok path)
      × (identity ≡ cookie_path_at path)
unfolding cookie_or_derived
cookie_or_derived-ok platform chain user password cookie identity h nobody =
    let h' = rw (cookie_or_derived, nobody) at h in
    let (path, q, r) = >>=-eq-ok (derived_cookie platform chain) _ h' in
    let (d, e, f) = derived_cookie-ok platform chain path q in (d, path, e, f, ground arith)

verified-agreed :
    {P S : Type 0} (site : Site P S) (sha256 : Bytes → Bytes) (request_id : Text)
    (client : RpcClient P) (chain : Text) (challenge : Option Challenge) (verify_chain : Bool)
    → verified verify_chain (client_assert_chain site sha256 request_id client chain challenge)
      ≡ ok tt
    → verify_chain ≡ true
    → (expected : Option Bytes) × (reply : Json) × Means sha256 chain challenge expected
      × (call site client request_id
            (str (codes "getblockchaininfo"))
            absent
            none_value
            (int (pos default_max_body_size))
          ≡ ok reply)
      × Agrees sha256 reply chain expected
unfolding verified client_assert_chain
verified-agreed site sha256 request_id client chain challenge false h asked_for =
    absurd (ground arith)
verified-agreed site sha256 request_id client chain challenge true h asked_for =
    (assert_chain-ok_iff sha256
        (call site client request_id (str (codes "getblockchaininfo")) absent none_value
          (int (pos default_max_body_size)))
        chain challenge).0
      h

refuse-passed : (b : Bool) (e : Exception) → refuse b e ≡ ok tt → b ≡ false
refuse-passed false e h = refl
refuse-passed true e h = absurd (ground arith)

comparing : (given checked : Bool) → (given && not checked) ≡ false → given ≡ true → checked ≡ true
comparing given checked h k = ground arith

-- A client that `from_chain` returns is for a chain that Core knows, at the loopback address and the
-- port of that chain; it identifies itself in one way, which is the chain's cookie file under the
-- default datadir where the caller names no user, password or file; and with `verify_chain` the node
-- has answered the client's own call with this chain, and with the signet that is meant. A
-- challenge is never taken without being compared.
pub from_chain-IsLocal :
    {P S : Type 0} (site : Site P S) (platform : Platform P) (sha256 : Bytes → Bytes)
    (request_id : Text) (chain user password : Scalar) (cookie : CookieArgument P)
    (timeout : Scalar) (transport : TransportArgument) (verify_chain : Bool)
    (challenge : Option Challenge) (client : RpcClient P)
    → from_chain site platform sha256 request_id chain user password cookie timeout transport
        verify_chain challenge
      ≡ ok client
    → IsLocal site platform sha256 request_id chain user password cookie verify_chain challenge
        client
unfolding from_chain cookie_path_of
from_chain-IsLocal site platform sha256 request_id chain user password cookie timeout transport
      verify_chain challenge client h =
    let unicode = site.around.unicode in
    let urlsplit = site.around.urlsplit in
    let (number, n, h1) = >>=-eq-ok (rpc_port_from_chain chain) _ h in
    let (_, asked, h2) =
      >>=-eq-ok
        (refuse (is_some challenge && not verify_chain) (btc_value_error challenge_without_verify))
        _ h1 in
    let (identity, i, h3) =
      >>=-eq-ok (cookie_or_derived platform chain user password cookie) _ h2 in
    let (built, b, h4) =
      >>=-eq-ok
        (rpc_client unicode urlsplit (loopback_url number) user password identity timeout transport)
        _ h3 in
    let (_, v, h5) =
      >>=-eq-ok
        (verified verify_chain
          (client_assert_chain site sha256 request_id built (chain_text chain) challenge))
        _ h4 in
    let same : built ≡ client = ground arith in
    let (at, one, two, path_there, four) =
      rpc_client-fields unicode urlsplit (loopback_url number) user password identity timeout
        transport built b in
    let (kept, w1, w2, w3, w4) =
      checked_url-split_url unicode urlsplit (loopback_url number) built.url at in
    let (u1, u2, u3, identified) =
      rpc_client-IsIdentified unicode urlsplit (loopback_url number) user password identity timeout
        transport built b in
    subst
      (IsLocal site platform sha256 request_id chain user password cookie verify_chain challenge)
      same
      (record {
        number = number;
        known_chain = n;
        endpoint = kept;
        identified = identified;
        own_cookie = λ nobody.
            let (d, file, e, f, g) =
              cookie_or_derived-ok platform chain user password cookie identity i nobody in
            let given : ok (some file) ≡ ok built.cookie_path = rw g at path_there in
            (d, file, e, f, ground (arith, given));
        compared = comparing (is_some challenge) verify_chain (refuse-passed _ _ asked);
        agreed =
            verified-agreed site sha256 request_id built (chain_text chain) challenge verify_chain
              v;
      })
