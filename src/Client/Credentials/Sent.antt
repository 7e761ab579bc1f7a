-- ===== src/Client/Credentials/Sent.antt =====
-- Who a client of src/bitcoin_core_rpc/client.py calls as, and what the node reads of it.
use mathlib.Core.Path.{subst}
use bitcoin_core_rpc.Client.Credentials.{
  CookieArgument, RpcClient, TransportArgument, assert_callable, assert_one_identity,
  cookie_path_at, cookie_path_of, has_colon, has_no_cookie_path, is_absent, login_half,
  no_cookie_path, other_cookie_path, rpc_client,
}
use bitcoin_core_rpc.Client.Url.{checked_url}
use bitcoin_core_rpc.Errors.{>>=-eq-ok, Exception, btc_value_error, colon_in_user, ok, refuse}
use bitcoin_core_rpc.Prelude.{
  Bool, Option, Text, arith, codes, false, has_char, inl, inr, none, refl, some, true, ℕ, ◌≡◌, ◌⊎◌,
}
use bitcoin_core_rpc.Transport.Checks.{Parts, Unicode, assert_valid_timeout}
use bitcoin_core_rpc.Value.{Scalar, none_value, str}
-- The client calls as a user with a password, or with a cookie file, and never as both.
use bitcoin_core_rpc.Client.Credentials.{RpcClient}
use bitcoin_core_rpc.Prelude.{Text, false, has_char, none, some, ◌≡◌}

pub data IsIdentified {P : Type 0} (client : RpcClient P) : Type 0 where
  by_login :
      (user password : Text)
      → client.user ≡ some user
      → client.password ≡ some password
      → client.cookie_path ≡ none
      → has_char b':' user ≡ false
      → IsIdentified client
  by_cookie :
      (p : P)
      → client.user ≡ none
      → client.password ≡ none
      → client.cookie_path ≡ some p
      → IsIdentified client

refuse-ok : (b : Bool) (e : Exception) → refuse b e ≡ ok tt → b ≡ false
refuse-ok true e h = absurd (ground arith)
refuse-ok false e h = refl

login_half-absent :
    (what : Text) (s : Scalar) (half : Option Text)
    → login_half what s ≡ ok half
    → is_absent s ≡ true
    → half ≡ none
unfolding login_half is_absent
login_half-absent what none_value half h a = ground arith
login_half-absent what s half h a = absurd (ground arith)

login_half-present :
    (what : Text) (s : Scalar) (half : Option Text)
    → login_half what s ≡ ok half
    → is_absent s ≡ false
    → (t : Text) × (half ≡ some t)
unfolding login_half is_absent
login_half-present what none_value half h a = absurd (ground arith)
login_half-present what (str t) half h a = (t, ground arith)
login_half-present what s half h a = absurd (ground arith)

cookie_path_of-absent :
    {P : Type 0} (c : CookieArgument P) (there : Option P)
    → cookie_path_of c ≡ ok there
    → has_no_cookie_path c ≡ true
    → there ≡ none
unfolding cookie_path_of has_no_cookie_path
cookie_path_of-absent no_cookie_path q h a = ground arith
cookie_path_of-absent (cookie_path_at p) q h a = absurd (ground arith)
cookie_path_of-absent (other_cookie_path kind) q h a = absurd (ground arith)

cookie_path_of-present :
    {P : Type 0} (c : CookieArgument P) (there : Option P)
    → cookie_path_of c ≡ ok there
    → has_no_cookie_path c ≡ false
    → (p : P) × (there ≡ some p)
unfolding cookie_path_of has_no_cookie_path
cookie_path_of-present no_cookie_path q h a = absurd (ground arith)
cookie_path_of-present (cookie_path_at p) q h a = (p, ground arith)
cookie_path_of-present (other_cookie_path kind) q h a = absurd (ground arith)

-- the tests of the constructor leave two ways
one_identity :
    {P : Type 0} (user password : Scalar) (cookie : CookieArgument P)
    → assert_one_identity user password cookie ≡ ok tt
    → ((is_absent user ≡ true) × (is_absent password ≡ true) × (has_no_cookie_path cookie ≡ false))
      ⊎ ((is_absent user ≡ false)
          × (is_absent password ≡ false)
          × (has_no_cookie_path cookie ≡ true))
unfolding assert_one_identity
one_identity user password cookie h = ground arith

built-IsIdentified :
    {P : Type 0} (user password : Scalar) (cookie : CookieArgument P) (client : RpcClient P)
    → assert_one_identity user password cookie ≡ ok tt
    → login_half (codes "user") user ≡ ok client.user
    → login_half (codes "password") password ≡ ok client.password
    → cookie_path_of cookie ≡ ok client.cookie_path
    → has_colon client.user ≡ false
    → IsIdentified client
unfolding has_colon
built-IsIdentified user password cookie client i u p c colon =
    elim (one_identity user password cookie i) [
      | inl (a, b, d) ↦
          let (x, q) = cookie_path_of-present cookie client.cookie_path c d in
          by_cookie x (login_half-absent _ user client.user u a)
            (login_half-absent _ password client.password p b) q
      | inr (a, b, d) ↦
          let (name, n) = login_half-present _ user client.user u a in
          let (secret, s) = login_half-present _ password client.password p b in
          by_login name secret n s (cookie_path_of-absent cookie client.cookie_path c d)
            (rw n at colon)
    ]

-- what each attribute of a client was made from
pub rpc_client-fields :
    {P : Type 0} (unicode : Unicode) (urlsplit : Text → Option Parts) (url : Text)
    (user password : Scalar) (cookie : CookieArgument P) (timeout : Scalar)
    (transport : TransportArgument) (client : RpcClient P)
    → rpc_client unicode urlsplit url user password cookie timeout transport ≡ ok client
    → (checked_url unicode urlsplit url ≡ ok client.url)
      × (login_half (codes "user") user ≡ ok client.user)
      × (login_half (codes "password") password ≡ ok client.password)
      × (cookie_path_of cookie ≡ ok client.cookie_path)
      × (client.timeout ≡ timeout)
unfolding rpc_client
rpc_client-fields unicode urlsplit url user password cookie timeout transport client h =
    let (endpoint, at, h1) = >>=-eq-ok (checked_url unicode urlsplit url) _ h in
    let (_, one, h2) = >>=-eq-ok (assert_one_identity user password cookie) _ h1 in
    let (name, n, h3) = >>=-eq-ok (login_half (codes "user") user) _ h2 in
    let (secret, s, h4) = >>=-eq-ok (login_half (codes "password") password) _ h3 in
    let (_, colon, h5) = >>=-eq-ok (refuse (has_colon name) (btc_value_error colon_in_user)) _ h4 in
    let (duration, d, h6) = >>=-eq-ok (assert_valid_timeout (codes "rpc timeout") timeout) _ h5 in
    let (path_there, q, h7) = >>=-eq-ok (cookie_path_of cookie) _ h6 in
    let (_, k, h8) = >>=-eq-ok (assert_callable transport) _ h7 in
    let built : record {
      url = endpoint;
      user = name;
      password = secret;
      cookie_path = path_there;
      timeout = timeout;
    }
        ≡ client =
      ground arith in
    subst
      (λ c.
        (checked_url unicode urlsplit url ≡ ok c.url)
        × (login_half (codes "user") user ≡ ok c.user)
        × (login_half (codes "password") password ≡ ok c.password)
        × (cookie_path_of cookie ≡ ok c.cookie_path)
        × (c.timeout ≡ timeout))
      built (at, n, s, q, refl)

-- A client that was built keeps the url and the timeout that it was given, which were checked, and
-- calls either as a user, whose name has no colon, with a password, or with a cookie file.
pub rpc_client-IsIdentified :
    {P : Type 0} (unicode : Unicode) (urlsplit : Text → Option Parts) (url : Text)
    (user password : Scalar) (cookie : CookieArgument P) (timeout : Scalar)
    (transport : TransportArgument) (client : RpcClient P)
    → rpc_client unicode urlsplit url user password cookie timeout transport ≡ ok client
    → (checked_url unicode urlsplit url ≡ ok client.url)
      × (client.timeout ≡ timeout)
      × ((duration : ℕ) × (assert_valid_timeout (codes "rpc timeout") timeout ≡ ok duration))
      × IsIdentified client
unfolding rpc_client
rpc_client-IsIdentified unicode urlsplit url user password cookie timeout transport client h =
    let (endpoint, at, h1) = >>=-eq-ok (checked_url unicode urlsplit url) _ h in
    let (_, one, h2) = >>=-eq-ok (assert_one_identity user password cookie) _ h1 in
    let (name, n, h3) = >>=-eq-ok (login_half (codes "user") user) _ h2 in
    let (secret, s, h4) = >>=-eq-ok (login_half (codes "password") password) _ h3 in
    let (_, colon, h5) = >>=-eq-ok (refuse (has_colon name) (btc_value_error colon_in_user)) _ h4 in
    let (duration, d, h6) = >>=-eq-ok (assert_valid_timeout (codes "rpc timeout") timeout) _ h5 in
    let (path_there, q, h7) = >>=-eq-ok (cookie_path_of cookie) _ h6 in
    let (_, k, h8) = >>=-eq-ok (assert_callable transport) _ h7 in
    let built : record {
      url = endpoint;
      user = name;
      password = secret;
      cookie_path = path_there;
      timeout = timeout;
    }
        ≡ client =
      ground arith in
    subst
      (λ c.
        (checked_url unicode urlsplit url ≡ ok c.url)
        × (c.timeout ≡ timeout)
        × ((duration : ℕ) × (assert_valid_timeout (codes "rpc timeout") timeout ≡ ok duration))
        × IsIdentified c)
      built
      (
        at,
        refl,
        (duration, d),
        built-IsIdentified user password cookie _ one n s q (refuse-ok _ _ colon),
      )
