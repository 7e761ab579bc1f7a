-- ===== src/Client/Credentials.antt =====
-- src/bitcoin_core_rpc/client.py: the arguments of a client (`BitcoinCoreRpcClient.__init__`) and
-- the credential that it sends (`auth_header`).
pub mod Sent
pub mod Header
use bitcoin_core_rpc.Chains.Cookie.{CookieFile, cookie_auth}
use bitcoin_core_rpc.Client.Encoding.{b64encode, encode}
use bitcoin_core_rpc.Client.Url.{checked_url}
use bitcoin_core_rpc.Errors.{
  Result, btc_type_error, btc_value_error, colon_in_user, cookie_path_no_path, credential_no_string,
  credential_not_encodable, half_a_login, login_and_cookie, no_credentials, ok, raise, refuse,
  transport_not_callable, ◌>>=◌, ◌>>◌,
}
use bitcoin_core_rpc.Prelude.{
  Bool, Option, Text, codes, false, has_char, none, not, some, true, ◌&&◌, ◌++◌, ◌∷◌,
}
use bitcoin_core_rpc.Transport.Checks.{Parts, Unicode, assert_valid_timeout}
use bitcoin_core_rpc.Value.{Scalar, none_value, scalar_type_name, str}

-- What a caller passes as `cookie_path`, over the paths of the platform, and as `transport`.
pub data CookieArgument (P : Type 0) : Type 0 where
  no_cookie_path : CookieArgument P
  cookie_path_at : P → CookieArgument P
  other_cookie_path : (kind : Text) → CookieArgument P

pub data TransportArgument : Type 0 where
  callable_transport : TransportArgument
  other_transport : (kind : Text) → TransportArgument

-- The attributes of a client. Its transport is what `Transport.Exchange` takes.
pub record RpcClient (P : Type 0) : Type 0 where
  pub url : Text
  pub user : Option Text
  pub password : Option Text
  pub cookie_path : Option P
  pub timeout : Scalar

-- value is None
unfoldable pub is_absent : Scalar → Bool
is_absent none_value = true
is_absent _ = false

unfoldable pub has_no_cookie_path : {P : Type 0} → CookieArgument P → Bool
has_no_cookie_path no_cookie_path = true
has_no_cookie_path _ = false

abbrev same_test : Bool → Bool → Bool
same_test true b = b
same_test false b = not b

-- the test of one half of the login, with what it is bound to then
unfoldable pub login_half : Text → Scalar → Result (Option Text)
login_half what none_value = ok none
login_half what (str s) = ok (some s)
login_half what s = raise (btc_type_error (credential_no_string what (scalar_type_name s)))

-- user is not None and ":" in user
unfoldable pub has_colon : Option Text → Bool
has_colon none = false
has_colon (some user) = has_char b':' user

unfoldable pub cookie_path_of : {P : Type 0} → CookieArgument P → Result (Option P)
cookie_path_of no_cookie_path = ok none
cookie_path_of (cookie_path_at p) = ok (some p)
cookie_path_of (other_cookie_path kind) = raise (btc_type_error (cookie_path_no_path kind))

unfoldable pub assert_callable : TransportArgument → Result (Unit {0})
assert_callable callable_transport = ok tt
assert_callable (other_transport kind) = raise (btc_type_error (transport_not_callable kind))

-- the tests of `__init__` on which of the credentials are there
unfoldable pub assert_one_identity :
    {P : Type 0} → Scalar → Scalar → CookieArgument P → Result (Unit {0})
unfolding is_absent has_no_cookie_path
assert_one_identity user password cookie_path =
    refuse (not (same_test (is_absent user) (is_absent password))) (btc_value_error half_a_login)
    >> (refuse (not (is_absent user) && not (has_no_cookie_path cookie_path))
          (btc_value_error login_and_cookie)
        >> refuse (is_absent user && has_no_cookie_path cookie_path)
            (btc_value_error no_credentials))

-- `BitcoinCoreRpcClient.__init__`
unfoldable pub rpc_client :
    {P : Type 0}
    → Unicode
    → (Text → Option Parts)
    → (url : Text) (user password : Scalar) → CookieArgument P
    → (timeout : Scalar) → TransportArgument
    → Result (RpcClient P)
unfolding login_half has_colon cookie_path_of assert_callable assert_one_identity
rpc_client unicode urlsplit url user password cookie_path timeout transport = do
  endpoint ← checked_url unicode urlsplit url
  assert_one_identity user password cookie_path
  name ← login_half (codes "user") user
  secret ← login_half (codes "password") password
  refuse (has_colon name) (btc_value_error colon_in_user)
  duration ← assert_valid_timeout (codes "rpc timeout") timeout
  path_there ← cookie_path_of cookie_path
  assert_callable transport
  ok (record {
    url = endpoint;
    user = name;
    password = secret;
    cookie_path = path_there;
    timeout = timeout;
  })

-- f"{value}" of an optional text
abbrev formatted : Option Text → Text
formatted none = codes "None"
formatted (some t) = t

-- the credential, from the cookie file at a path or from the arguments
unfoldable pub credential : {P : Type 0} → (P → CookieFile) → RpcClient P → Result Text
unfolding cookie_auth
credential file client = elim client.cookie_path [
  | some p ↦ (cookie_auth (file p)).0
  | none ↦ ok (formatted client.user ++ b':' ∷ formatted client.password)
]

-- the header of a credential
unfoldable pub basic : Text → Result Text
unfolding encode b64encode
basic text = elim (encode text) [
  | none ↦ raise (btc_value_error credential_not_encodable)
  | some octets ↦ ok (codes "Basic " ++ b64encode octets)
]

-- `auth_header`
unfoldable pub auth_header : {P : Type 0} → (P → CookieFile) → RpcClient P → Result Text
unfolding credential basic
auth_header file client = credential file client >>= basic
