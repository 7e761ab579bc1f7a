-- ===== src/Client/Url.antt =====
-- src/bitcoin_core_rpc/client.py: the url of a client (`_checked_url`), beside the transport's own
-- reading of it (`_split_url` of src/bitcoin_core_rpc/transport.py).
use bitcoin_core_rpc.Errors.{
  Result, btc_value_error, ok, raise, url_does_not_parse, url_invalid_port, url_invalid_scheme,
  url_login, url_no_host, url_not_ascii, url_query_or_fragment, url_whitespace,
}
use bitcoin_core_rpc.Prelude.{
  Bool, Bool-cases, Option, Option-cases, Text, [], arith, false, if◌then◌else◌, inl, inr, is_some,
  none, not, some, true, ◌||◌, ◌∷◌, ◌≡◌,
}
use bitcoin_core_rpc.Transport.Checks.{
  Endpoint, Parts, Unicode, checked_parts, has_unprintable, is_ascii, is_bad_port, is_http,
  port_number_of, split_url,
}

-- `not split.hostname`
unfoldable pub has_no_host : Option Text → Bool
has_no_host none = true
has_no_host (some []) = true
has_no_host (some (c ∷ cs)) = false

-- split.query or split.fragment
abbrev is_empty : Text → Bool
is_empty [] = true
is_empty (c ∷ cs) = false

-- `_checked_url` of a url that parses into these parts
unfoldable pub checked_endpoint : Parts → Text → Result Text
unfolding is_bad_port has_no_host
checked_endpoint parts url =
    if not (is_http parts.scheme)
    then raise (btc_value_error url_invalid_scheme)
    else if is_some parts.username || is_some parts.password
    then raise (btc_value_error url_login)
    else if has_no_host parts.hostname
    then raise (btc_value_error url_no_host)
    else if not (is_empty parts.query) || not (is_empty parts.fragment)
    then raise (btc_value_error url_query_or_fragment)
    else if is_bad_port parts.port_part
    then raise (btc_value_error url_invalid_port)
    else ok url

-- `_checked_url`; `urlsplit` answers `none` where it raises `ValueError`
unfoldable pub checked_url : Unicode → (Text → Option Parts) → Text → Result Text
unfolding checked_endpoint
checked_url unicode urlsplit url =
    if has_unprintable unicode url
    then raise (btc_value_error url_whitespace)
    else if not (is_ascii url)
    then raise (btc_value_error url_not_ascii)
    else elim (urlsplit url) [
      | none ↦ raise (btc_value_error url_does_not_parse)
      | some parts ↦ checked_endpoint parts url
    ]

-- The parts of a url that a client keeps.
pub record IsEndpoint (parts : Parts) : Type 0 where
  pub http : is_http parts.scheme ≡ true
  pub named_host : has_no_host parts.hostname ≡ false
  pub no_username : parts.username ≡ none
  pub no_password : parts.password ≡ none
  pub no_query : parts.query ≡ []
  pub no_fragment : parts.fragment ≡ []
  pub good_port : is_bad_port parts.port_part ≡ false

checked_endpoint-IsEndpoint :
    (parts : Parts) (url r : Text)
    → checked_endpoint parts url ≡ ok r
    → IsEndpoint parts × (r ≡ url)
unfolding checked_endpoint
checked_endpoint-IsEndpoint parts url r h = (
  record {
    http = ground arith;
    named_host = ground arith;
    no_username = ground arith;
    no_password = ground arith;
    no_query = ground arith;
    no_fragment = ground arith;
    good_port = ground arith;
  },
  ground arith,
)

checked_parts-ok :
    (parts : Parts) → IsEndpoint parts → (e : Endpoint) × (checked_parts parts ≡ ok e)
unfolding checked_parts has_no_host
checked_parts-ok parts p = elim (Option-cases (parts.hostname)) [
  | inl q ↦ let n = rw q at (p.named_host) in absurd (ground arith)
  | inr (host, q) ↦ (
    record { scheme = parts.scheme; host = host; port_number = port_number_of parts.port_part },
    rw (p.http, q, p.no_username, p.no_password, p.good_port),
  )
]

-- A url that a client accepts is kept as it is, and every transport's check of it passes, so a
-- call is never refused for its url. Such a url is printable ASCII without whitespace, and names
-- no login, no query and no fragment.
pub checked_url-split_url :
    (unicode : Unicode) (urlsplit : Text → Option Parts) (url r : Text)
    → checked_url unicode urlsplit url ≡ ok r
    → (r ≡ url)
      × (has_unprintable unicode url ≡ false)
      × (is_ascii url ≡ true)
      × ((parts : Parts) × (urlsplit url ≡ some parts) × IsEndpoint parts)
      × ((e : Endpoint) × (split_url unicode urlsplit url ≡ ok e))
unfolding checked_url split_url
checked_url-split_url unicode urlsplit url r h = elim (Bool-cases (has_unprintable unicode url)) [
  | inl u ↦ let h' = rw (checked_url, u) at h in cc
  | inr u ↦ elim (Bool-cases (is_ascii url)) [
    | inr a ↦ let h' = rw (checked_url, u, a) at h in cc
    | inl a ↦ elim (Option-cases (urlsplit url)) [
      | inl p ↦ let h' = rw (checked_url, u, a, p) at h in cc
      | inr (parts, p) ↦
          let (is, same) =
            checked_endpoint-IsEndpoint parts url r (rw (checked_url, u, a, p) at h) in
          let (e, q) = checked_parts-ok parts is in
          (same, u, a, (parts, p, is), (e, rw (split_url, u, a, p) q))
    ]
  ]
]
