-- ===== src/Transport/Checks.antt =====
-- src/bitcoin_core_rpc/transport.py: the arguments of an exchange
-- (`_assert_valid_timeout`, `_assert_valid_headers`, `_split_url`, `_assert_valid_max_body_size`).
-- The unit of time is 2^-1074 s, of which every finite float is a whole number.
use bitcoin_core_rpc.Errors.{
  Result, btc_type_error, btc_value_error, invalid_header_name, invalid_header_value,
  negative_limit, non_integer_limit, non_numeric, non_string_header, not_positive_seconds, ok,
  raise, refuse, url_does_not_parse, url_invalid_port, url_invalid_scheme, url_login, url_no_host,
  url_not_ascii, url_whitespace, ◌>>◌,
}
use bitcoin_core_rpc.Prelude.{
  Bool, List, Option, Text, [], all, any, codes, false, has_char, if◌then◌else◌, is_some, leb, ltb,
  negsuc, none, not, pos, some, text_eq, true, ℕ, ℤ, ◌&&◌, ◌*◌, ◌^◌, ◌||◌, ◌∷◌,
}
use bitcoin_core_rpc.Value.{Scalar, finite, float, int, str}

abbrev pub units_per_second : ℕ
units_per_second = 2 ^ 1074

-- `_MAX_TIMEOUT`: the double nearest to 2147483.647, which is 144115188008747 / 2^26
abbrev pub max_timeout : ℕ
max_timeout = 144115188008747 * 2 ^ 1048

-- the number of units that a number of seconds is, if it is positive and within the limit
unfoldable pub timeout_units : ℤ → ℕ → Option ℕ
timeout_units (pos n) unit = if ltb 0 n && leb (n * unit) max_timeout then some (n * unit) else none
timeout_units (negsuc n) unit = none

-- `_assert_valid_timeout`, with the duration in units as its answer
unfoldable pub assert_valid_timeout : Text → Scalar → Result ℕ
unfolding timeout_units
assert_valid_timeout what (int n) = elim (timeout_units n units_per_second) [
  | some d ↦ ok d
  | none ↦ raise (btc_value_error (not_positive_seconds what))
]
assert_valid_timeout what (float (finite u)) = elim (timeout_units u 1) [
  | some d ↦ ok d
  | none ↦ raise (btc_value_error (not_positive_seconds what))
]
assert_valid_timeout what (float _) = raise (btc_value_error (not_positive_seconds what))
assert_valid_timeout what s = raise (btc_type_error (non_numeric what))

-- `_assert_valid_max_body_size`, with the size as its answer
unfoldable pub assert_valid_max_body_size : Scalar → Result ℕ
assert_valid_max_body_size (int (pos n)) = ok n
assert_valid_max_body_size (int (negsuc n)) = raise (btc_value_error negative_limit)
assert_valid_max_body_size _ = raise (btc_type_error non_integer_limit)

-- `_HEADER_NAME`: a character of a token
unfoldable pub is_token_char : ℕ → Bool
is_token_char c =
    leb b'0' c && leb c b'9'
    || leb b'A' c && leb c b'Z'
    || leb b'a' c && leb c b'z'
    || has_char c (codes "!#$%&'*+-.^_`|~")

-- `_HEADER_NAME.fullmatch`: one character or more
unfoldable pub is_header_name : Text → Bool
unfolding is_token_char
is_header_name [] = false
is_header_name (c ∷ cs) = all is_token_char (c ∷ cs)

-- `_is_latin_1`
unfoldable pub is_latin_1 : Text → Bool
is_latin_1 = all (λ c. ltb c 256)

-- any(c in value for c in "\r\n\0")
abbrev splits_line : Text → Bool
splits_line value = has_char 13 value || has_char 10 value || has_char 0 value

unfoldable pub check_header : Scalar → Scalar → Result (Unit {0})
unfolding is_header_name is_latin_1
check_header (str name) (str value) =
    refuse (not (is_header_name name)) (btc_value_error invalid_header_name)
    >> refuse (splits_line value || not (is_latin_1 value)) (btc_value_error invalid_header_value)
check_header name value = raise (btc_type_error non_string_header)

-- `_assert_valid_headers`, over the items of the mapping
unfoldable pub assert_valid_headers : List (Scalar × Scalar) → Result (Unit {0})
unfolding check_header
assert_valid_headers [] = ok tt
assert_valid_headers ((name, value) ∷ rest) = check_header name value >> assert_valid_headers rest

-- The tests of a character that the interpreter's tables answer.
pub record Unicode : Type 0 where
  pub is_space : ℕ → Bool
  pub is_printable : ℕ → Bool

-- `SplitResult.port`: no port, a port, or a text that is none, which raises once it is asked for
pub data Port : Type 0 where
  no_port : Port
  port : ℕ → Port
  bad_port : Port

-- What `urlsplit` makes of a url.
pub record Parts : Type 0 where
  pub scheme : Text
  pub hostname : Option Text
  pub username : Option Text
  pub password : Option Text
  pub port_part : Port
  pub path : Text
  pub query : Text
  pub fragment : Text

abbrev pub is_http : Text → Bool
is_http scheme = text_eq scheme (codes "http") || text_eq scheme (codes "https")

-- any(c.isspace() or not c.isprintable() for c in url)
abbrev pub has_unprintable : Unicode → Text → Bool
has_unprintable unicode = any (λ c. unicode.is_space c || not (unicode.is_printable c))

-- url.isascii()
abbrev pub is_ascii : Text → Bool
is_ascii = all (λ c. ltb c 128)

-- The scheme, the host and the port of a url that was checked.
pub record Endpoint : Type 0 where
  pub scheme : Text
  pub host : Text
  pub port_number : Option ℕ

unfoldable pub is_bad_port : Port → Bool
is_bad_port bad_port = true
is_bad_port _ = false

unfoldable pub port_number_of : Port → Option ℕ
port_number_of (port n) = some n
port_number_of _ = none

-- the `else` of `_split_url`: a later problem is the one that is reported
unfoldable pub checked_parts : Parts → Result Endpoint
unfolding is_bad_port port_number_of
checked_parts parts =
    if not (is_http parts.scheme)
    then raise (btc_value_error url_invalid_scheme)
    else elim parts.hostname [
      | none ↦ raise (btc_value_error url_no_host)
      | some host ↦
          if is_some parts.username || is_some parts.password
          then raise (btc_value_error url_login)
          else if is_bad_port parts.port_part
          then raise (btc_value_error url_invalid_port)
          else ok (record {
            scheme = parts.scheme;
            host = host;
            port_number = port_number_of parts.port_part;
          })
    ]

-- `_split_url`; `urlsplit` answers `none` where it raises `ValueError`
unfoldable pub split_url : Unicode → (Text → Option Parts) → Text → Result Endpoint
unfolding checked_parts
split_url unicode urlsplit url =
    if has_unprintable unicode url
    then raise (btc_value_error url_whitespace)
    else if not (is_ascii url)
    then raise (btc_value_error url_not_ascii)
    else elim (urlsplit url) [
      | none ↦ raise (btc_value_error url_does_not_parse)
      | some parts ↦ checked_parts parts
    ]
