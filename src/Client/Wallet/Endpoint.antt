-- ===== src/Client/Wallet/Endpoint.antt =====
-- What `for_wallet` of src/bitcoin_core_rpc/client.py builds, and what it refuses.

use bitcoin_core_rpc.Client.Credentials.{
  RpcClient, callable_transport, cookie_path_of, login_half, rpc_client,
}
use bitcoin_core_rpc.Client.Credentials.Header.{IsText, encode-octets}
use bitcoin_core_rpc.Client.Credentials.Sent.{rpc_client-fields}
use bitcoin_core_rpc.Client.Encoding.{encode}
use bitcoin_core_rpc.Client.Quote.{
  IsPathChar, is_unreserved, quote, quote_octets, quote_octets-path, unquote-quote_octets,
  unquote_octets,
}
use bitcoin_core_rpc.Client.Slashes.{rstrip_slash, starts_with_slash}
use bitcoin_core_rpc.Client.Url.{checked_url, checked_url-split_url, has_no_host}
use bitcoin_core_rpc.Client.Wallet.{
  assert_no_wallet, for_wallet, is_wallet_path, path_argument, quoted_name, text_argument,
  wallet_url,
}
use bitcoin_core_rpc.Client.Wallet.Segments.{IsSegment, wallet-is_wallet_path}
use bitcoin_core_rpc.Errors.{>>=-eq-ok, btc_value_error, ok, raise, wallet_of_wallet}
use bitcoin_core_rpc.Prelude.{
  All, All-append, Bytes, Option, Option-cases, Text, [], ap, arith, codes, false, inl, inr, none,
  refl, some, true, ◌++◌, ◌∙◌, ◌≡◌,
}
use bitcoin_core_rpc.Transport.Checks.{Parts, Unicode}
use bitcoin_core_rpc.Value.{str}

-- What `urlsplit` documents of the path: where a url names a host, what is put behind it (and
-- behind its last slashes) ends the path, unless it begins a query or a fragment.
abbrev pub SplitsPath : (Text → Option Parts) → Type 0
SplitsPath urlsplit =
    (url suffix : Text) (parts longer : Parts)
    → urlsplit url ≡ some parts
    → has_no_host parts.hostname ≡ false
    → starts_with_slash suffix ≡ true
    → All IsPathChar suffix
    → urlsplit (rstrip_slash url ++ suffix) ≡ some longer
    → longer.query ≡ []
    → longer.fragment ≡ []
    → (front : Text) × (longer.path ≡ front ++ suffix)

-- A client for the wallet of this name, of the node that the other client calls.
pub record IsWalletOf {P : Type 0} (client : RpcClient P) (name : Text) (wallet : RpcClient P)
    : Type 0 where
  pub octets : Bytes
  pub encoded : encode name ≡ some octets
  pub endpoint : wallet.url ≡ wallet_url client.url (quote_octets octets)
  pub name_read : unquote_octets (quote_octets octets) ≡ octets
  pub one_segment : All IsPathChar (quote_octets octets) × IsSegment (quote_octets octets)
  pub same_user : wallet.user ≡ client.user
  pub same_password : wallet.password ≡ client.password
  pub same_cookie : wallet.cookie_path ≡ client.cookie_path
  pub same_timeout : wallet.timeout ≡ client.timeout

quoted_name-octets :
    (name escaped : Text)
    → quoted_name name ≡ ok escaped
    → (b : Bytes) × (encode name ≡ some b) × (escaped ≡ quote_octets b)
unfolding quoted_name quote
quoted_name-octets name escaped h = elim (Option-cases (encode name)) [
  | inl q ↦ let h' = rw (quoted_name, quote, q) at h in absurd (ground arith)
  | inr (b, q) ↦ let h' = rw (quoted_name, quote, q) at h in (b, q, ground arith)
]

login_half-argument :
    (what : Text) (t u : Option Text) → login_half what (text_argument t) ≡ ok u → u ≡ t
unfolding login_half
login_half-argument what none u h = ground arith
login_half-argument what (some t) u h = ground arith

cookie_path_of-argument :
    {P : Type 0} (p q : Option P) → cookie_path_of (path_argument p) ≡ ok q → q ≡ p
unfolding cookie_path_of
cookie_path_of-argument none q h = ground arith
cookie_path_of-argument (some p) q h = ground arith

-- the client that `__init__` builds from the attributes of another
rpc_client-again :
    {P : Type 0} (unicode : Unicode) (urlsplit : Text → Option Parts) (url : Text)
    (client wallet : RpcClient P)
    → rpc_client unicode urlsplit url
        (text_argument client.user)
        (text_argument client.password)
        (path_argument client.cookie_path)
        client.timeout
        callable_transport
      ≡ ok wallet
    → (checked_url unicode urlsplit url ≡ ok wallet.url)
      × (wallet.user ≡ client.user)
      × (wallet.password ≡ client.password)
      × (wallet.cookie_path ≡ client.cookie_path)
      × (wallet.timeout ≡ client.timeout)
rpc_client-again unicode urlsplit url client wallet h =
    let user = text_argument client.user in
    let password = text_argument client.password in
    let cookie = path_argument client.cookie_path in
    let (at, n, s, q, same) =
      rpc_client-fields unicode urlsplit url user password cookie client.timeout callable_transport
        wallet h in
    (
      at,
      login_half-argument (codes "user") client.user wallet.user n,
      login_half-argument (codes "password") client.password wallet.password s,
      cookie_path_of-argument client.cookie_path wallet.cookie_path q,
      same,
    )

-- What `for_wallet` returns is a client of the same login and timeout for the wallet's endpoint: the
-- client's url, and behind it the marker and the name as one segment, from which the octets of the
-- name are read back. The condition is that the name is a text of code points.
pub for_wallet-IsWalletOf :
    {P : Type 0} (unicode : Unicode) (urlsplit : Text → Option Parts) (client wallet : RpcClient P)
    (name : Text)
    → IsText name
    → for_wallet unicode urlsplit client (str name) ≡ ok wallet
    → IsWalletOf client name wallet
unfolding for_wallet
for_wallet-IsWalletOf unicode urlsplit client wallet name is_text h =
    let (u, t, h1) = >>=-eq-ok (assert_no_wallet (urlsplit client.url)) _ h in
    let (escaped, q, h2) = >>=-eq-ok (quoted_name name) _ h1 in
    let (octets, e, same) = quoted_name-octets name escaped q in
    let whole = encode-octets name octets is_text e in
    let (at, one, two, three, four) =
      rpc_client-again unicode urlsplit (wallet_url client.url escaped) client wallet h2 in
    let (kept, u1, u2, u3, u4) =
      checked_url-split_url unicode urlsplit (wallet_url client.url escaped) wallet.url at in
    record {
      octets = octets;
      encoded = e;
      endpoint = kept ∙ ap (wallet_url client.url) same;
      name_read = unquote-quote_octets octets whole;
      one_segment = quote_octets-path octets whole;
      same_user = one;
      same_password = two;
      same_cookie = three;
      same_timeout = four;
    }

marker-path : All IsPathChar (codes "/wallet/")
unfolding is_unreserved
marker-path = (refl, (refl, (refl, (refl, (refl, (refl, (refl, (refl, tt))))))))

-- A client for a wallet is refused a second one, whatever its name is, with the message that says
-- so. The conditions are that the first client's url was accepted, that the wallet's name is a text
-- of code points, and what `urlsplit` documents of the path.
pub for_wallet-wallet_of_wallet :
    {P : Type 0} (unicode : Unicode) (urlsplit : Text → Option Parts) (client wallet : RpcClient P)
    (name second : Text)
    → SplitsPath urlsplit
    → checked_url unicode urlsplit client.url ≡ ok client.url
    → IsText name
    → for_wallet unicode urlsplit client (str name) ≡ ok wallet
    → for_wallet unicode urlsplit wallet (str second) ≡ raise (btc_value_error wallet_of_wallet)
unfolding for_wallet
for_wallet-wallet_of_wallet unicode urlsplit client wallet name second splits accepted is_text h =
    let (u, t, h1) = >>=-eq-ok (assert_no_wallet (urlsplit client.url)) _ h in
    let (escaped, q, h2) = >>=-eq-ok (quoted_name name) _ h1 in
    let (octets, e, same) = quoted_name-octets name escaped q in
    let (chars, segment) = quote_octets-path octets (encode-octets name octets is_text e) in
    let longer_url = wallet_url client.url escaped in
    let (at, u1, u2, u3, u4) = rpc_client-again unicode urlsplit longer_url client wallet h2 in
    let (k1, k2, k3, (parts, p, good), k5) =
      checked_url-split_url unicode urlsplit client.url client.url accepted in
    let (kept, m2, m3, (longer, l, fine), m5) =
      checked_url-split_url unicode urlsplit longer_url wallet.url at in
    let (front, path_ends) =
      splits client.url (codes "/wallet/" ++ escaped) parts longer p good.named_host
        (unfold starts_with_slash in refl)
        (All-append IsPathChar (codes "/wallet/") escaped marker-path (rw same chars)) l
        fine.no_query fine.no_fragment in
    let is_wallet : is_wallet_path longer.path ≡ true =
      rw path_ends (wallet-is_wallet_path front escaped (rw same segment)) in
    rw (kept, l, assert_no_wallet, is_wallet) refl
