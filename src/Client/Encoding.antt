-- ===== src/Client/Encoding.antt =====
-- The two encodings that `auth_header` of src/bitcoin_core_rpc/client.py calls: `str.encode`, which
-- is UTF-8, and `base64.b64encode`.
pub mod RoundTrip
use bitcoin_core_rpc.Prelude.{
  Bytes, Option, Text, [], if◌then◌else◌, leb, ltb, none, some, ℕ, ◌%◌, ◌&&◌, ◌*◌, ◌++◌, ◌+◌, ◌-◌,
  ◌/◌, ◌==◌, ◌∷◌,
}

-- the octets of a code point, `none` for a surrogate, which raises `UnicodeEncodeError`
unfoldable pub encode_point : ℕ → Option Bytes
encode_point c =
    if ltb c 128
    then some (c ∷ [])
    else if ltb c 2048
    then some ((192 + c / 64) ∷ (128 + c % 64) ∷ [])
    else if leb 55296 c && leb c 57343
    then none
    else if ltb c 65536
    then some ((224 + c / 4096) ∷ (128 + (c / 64) % 64) ∷ (128 + c % 64) ∷ [])
    else some
        ((240 + c / 262144) ∷ (128 + (c / 4096) % 64) ∷ (128 + (c / 64) % 64) ∷ (128 + c % 64) ∷ [])

-- the octets of the first code point before those of the others
unfoldable pub joined_points : Option Bytes → Option Bytes → Option Bytes
joined_points (some point) (some rest) = some (point ++ rest)
joined_points _ _ = none

-- text.encode()
unfoldable pub encode : Text → Option Bytes
unfolding encode_point joined_points
encode [] = some []
encode (c ∷ cs) = joined_points (encode_point c) (encode cs)

-- the character of a digit below 64
unfoldable pub base64_char : ℕ → ℕ
base64_char d =
    if ltb d 26
    then d + 65
    else if ltb d 52
    then d + 71
    else if ltb d 62
    then d - 4
    else if d == 62
    then 43
    else 47

-- b64encode(octets).decode("ascii")
unfoldable pub b64encode : Bytes → Text
unfolding base64_char
b64encode [] = []
b64encode (a ∷ []) = base64_char (a / 4) ∷ base64_char ((a % 4) * 16) ∷ b'=' ∷ b'=' ∷ []
b64encode (a ∷ b ∷ []) =
    base64_char (a / 4)
    ∷ base64_char ((a % 4) * 16 + b / 16)
    ∷ base64_char ((b % 16) * 4)
    ∷ b'='
    ∷ []
b64encode (a ∷ b ∷ c ∷ rest) =
    base64_char (a / 4)
    ∷ base64_char ((a % 4) * 16 + b / 16)
    ∷ base64_char ((b % 16) * 4 + c / 64)
    ∷ base64_char (c % 64)
    ∷ b64encode rest
