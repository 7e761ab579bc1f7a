-- ===== src/Params/Scalars.antt =====
-- src/bitcoin_core_rpc/client.py: the scalars of a request (`_json_scalar`, `_decimal_json`, and
-- what `json.dumps` writes for one value that is no container).
use bitcoin_core_rpc.Errors.{
  Result, btc_type_error, btc_value_error, decimal_exponent, decimal_not_finite, failure, library,
  ok, params_no_finite_number, params_no_json_value, raise,
}
use bitcoin_core_rpc.Errors.Classes.{value_error}
use bitcoin_core_rpc.Prelude.{
  Bool, Text, [], abs, codes, drop, false, if◌then◌else◌, leb, length, ltb, negsuc, not, pos,
  show_ℕ, show_ℤ, suc, take, true, zero, ℕ, ℤ, ◌%◌, ◌&&◌, ◌++◌, ◌+ℤ◌, ◌+◌, ◌-◌, ◌/◌, ◌==◌, ◌∷◌,
}
use bitcoin_core_rpc.Value.{
  Decimal, Float, Scalar, bool, bytearray, bytes, decimal, decimal_number, finite, float, infinity,
  int, nan, none_value, not_finite, other, str,
}

-- math.isfinite, Decimal.is_finite
abbrev pub is_finite_float : Float → Bool
is_finite_float (finite _) = true
is_finite_float _ = false

abbrev pub is_finite_decimal : Decimal → Bool
is_finite_decimal (decimal _ _ _) = true
is_finite_decimal (not_finite _) = false

-- `_json_scalar`: whether the value is a scalar that json carries
unfoldable pub json_scalar : Scalar → Result Bool
json_scalar (decimal_number d) =
    if is_finite_decimal d then ok true else raise (btc_value_error params_no_finite_number)
json_scalar (float f) =
    if is_finite_float f then ok true else raise (btc_value_error params_no_finite_number)
json_scalar (bytes b) = raise (btc_type_error params_no_json_value)
json_scalar (bytearray b) = raise (btc_type_error params_no_json_value)
json_scalar (other name) = ok false
json_scalar _ = ok true

-- Decimal.adjusted(): the exponent of the first digit
unfoldable pub adjusted : ℕ → ℤ → ℤ
adjusted coefficient exponent = exponent +ℤ pos (length (show_ℕ coefficient) - 1)

abbrev zeros : ℕ → Text
zeros zero = []
zeros (suc n) = b'0' ∷ zeros n

-- format(number, "f"), the sign apart: all digits of the coefficient, moved by the exponent. A zero
-- with a positive exponent is one "0".
unfoldable pub format_f : ℕ → ℤ → Text
format_f coefficient (pos e) = if coefficient == 0 then b'0' ∷ [] else show_ℕ coefficient ++ zeros e
format_f coefficient (negsuc e) =
    let digits = show_ℕ coefficient in
    let padded = zeros (suc (suc e) - length digits) ++ digits in
    let whole = length padded - suc e in take whole padded ++ b'.' ∷ drop whole padded

-- `_decimal_json`; a limit of zero is none
unfoldable pub decimal_json : ℕ → Decimal → Result Text
unfolding adjusted format_f
decimal_json max_str_digits (not_finite name) = raise (failure value_error decimal_not_finite)
decimal_json max_str_digits (decimal negative coefficient exponent) =
    if not (max_str_digits == 0) && ltb max_str_digits (abs (adjusted coefficient exponent))
    then raise (failure value_error decimal_exponent)
    else ok (let text = format_f coefficient exponent in if negative then b'-' ∷ text else text)

-- four hexadecimal digits, in lower case
abbrev hex_digit : ℕ → ℕ
hex_digit n = if ltb n 10 then 48 + n else 87 + n

abbrev hex4 : ℕ → Text
hex4 n =
    hex_digit (n / 4096 % 16)
    ∷ hex_digit (n / 256 % 16)
    ∷ hex_digit (n / 16 % 16)
    ∷ hex_digit (n % 16)
    ∷ []

abbrev unicode_escape : ℕ → Text
unicode_escape n = b'\\' ∷ b'u' ∷ hex4 n

-- one character of a json string, as `json.dumps` writes it with `ensure_ascii`
unfoldable pub escape_char : ℕ → Text
escape_char c =
    if c == b'"'
    then b'\\' ∷ b'"' ∷ []
    else if c == b'\\'
    then b'\\' ∷ b'\\' ∷ []
    else if c == 10
    then b'\\' ∷ b'n' ∷ []
    else if c == 13
    then b'\\' ∷ b'r' ∷ []
    else if c == 9
    then b'\\' ∷ b't' ∷ []
    else if c == 12
    then b'\\' ∷ b'f' ∷ []
    else if c == 8
    then b'\\' ∷ b'b' ∷ []
    else if leb 32 c && leb c 126
    then c ∷ []
    else if ltb c 65536
    then unicode_escape c
    else (unicode_escape (55296 + (c - 65536) / 1024)
        ++ unicode_escape (56320 + (c - 65536) % 1024))

unfoldable pub escape_text : Text → Text
unfolding escape_char
escape_text [] = []
escape_text (c ∷ cs) = escape_char c ++ escape_text cs

abbrev pub dumps_str : Text → Text
dumps_str s = b'"' ∷ (escape_text s ++ b'"' ∷ [])

-- int.__repr__, which refuses more digits than the interpreter's limit
unfoldable pub dumps_int : ℕ → ℤ → Result Text
dumps_int max_str_digits n =
    if not (max_str_digits == 0) && ltb max_str_digits (length (show_ℕ (abs n)))
    then raise (failure value_error library)
    else ok (show_ℤ n)

-- json.dumps(value, allow_nan=False, default=_refuse_param), of a value that is no container;
-- `float_repr` is what the interpreter writes for a finite float.
unfoldable pub dumps : (ℤ → Text) → ℕ → Scalar → Result Text
unfolding dumps_int escape_text
dumps float_repr limit none_value = ok (codes "null")
dumps float_repr limit (bool b) = ok (if b then codes "true" else codes "false")
dumps float_repr limit (int n) = dumps_int limit n
dumps float_repr limit (float (finite units)) = ok (float_repr units)
dumps float_repr limit (float nan) = raise (failure value_error library)
dumps float_repr limit (float (infinity s)) = raise (failure value_error library)
dumps float_repr limit (decimal_number d) = raise (btc_type_error params_no_json_value)
dumps float_repr limit (str s) = ok (dumps_str s)
dumps float_repr limit (bytes b) = raise (btc_type_error params_no_json_value)
dumps float_repr limit (bytearray b) = raise (btc_type_error params_no_json_value)
dumps float_repr limit (other name) = raise (btc_type_error params_no_json_value)
