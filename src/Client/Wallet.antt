-- ===== src/Client/Wallet.antt =====
-- src/bitcoin_core_rpc/client.py: `for_wallet`.
pub mod Segments
pub mod Endpoint
use bitcoin_core_rpc.Client.Credentials.{
  CookieArgument, RpcClient, callable_transport, cookie_path_at, no_cookie_path, rpc_client,
}
use bitcoin_core_rpc.Client.Quote.{quote}
use bitcoin_core_rpc.Client.Slashes.{rstrip_slash, split_slash}
use bitcoin_core_rpc.Errors.{
  Result, btc_type_error, btc_value_error, failure, library, ok, raise, refuse, wallet_no_string,
  wallet_not_encodable, wallet_of_wallet, ◌>>=◌, ◌>>◌,
}
use bitcoin_core_rpc.Errors.Classes.{value_error}
use bitcoin_core_rpc.Prelude.{
  Bool, List, Option, Text, any, codes, drop, length, none, some, text_eq, ◌++◌, ◌-◌,
}
use bitcoin_core_rpc.Transport.Checks.{Parts, Unicode}
use bitcoin_core_rpc.Value.{Scalar, none_value, scalar_type_name, str}

-- xs[-2:]
abbrev pub last_two : List Text → List Text
last_two xs = drop (length xs - 2) xs

-- "wallet" in path.rstrip("/").split("/")[-2:]
unfoldable pub is_wallet_path : Text → Bool
unfolding rstrip_slash split_slash
is_wallet_path path = any (text_eq (codes "wallet")) (last_two (split_slash (rstrip_slash path)))

-- the test on the client's own url; `urlsplit` answers `none` where it raises `ValueError`
unfoldable pub assert_no_wallet : Option Parts → Result (Unit {0})
unfolding is_wallet_path
assert_no_wallet none = raise (failure value_error library)
assert_no_wallet (some parts) =
    refuse (is_wallet_path parts.path) (btc_value_error wallet_of_wallet)

-- the attributes of a client, as arguments of another
abbrev pub text_argument : Option Text → Scalar
text_argument none = none_value
text_argument (some t) = str t

abbrev pub path_argument : {P : Type 0} → Option P → CookieArgument P
path_argument none = no_cookie_path
path_argument (some p) = cookie_path_at p

-- f"{self.url.rstrip('/')}/wallet/{quoted}"
abbrev pub wallet_url : Text → Text → Text
wallet_url url quoted_name = rstrip_slash url ++ (codes "/wallet/" ++ quoted_name)

unfoldable pub quoted_name : Text → Result Text
unfolding quote
quoted_name name = elim (quote name) [
  | none ↦ raise (btc_value_error wallet_not_encodable)
  | some t ↦ ok t
]

-- `for_wallet`
unfoldable pub for_wallet :
    {P : Type 0} → Unicode → (Text → Option Parts) → RpcClient P → Scalar → Result (RpcClient P)
unfolding assert_no_wallet quoted_name rpc_client
for_wallet unicode urlsplit client (str name) = do
  assert_no_wallet (urlsplit client.url)
  escaped ← quoted_name name
  rpc_client unicode urlsplit (wallet_url client.url escaped) (text_argument client.user)
      (text_argument client.password) (path_argument client.cookie_path) client.timeout
      callable_transport
for_wallet unicode urlsplit client name =
    raise (btc_type_error (wallet_no_string (scalar_type_name name)))
