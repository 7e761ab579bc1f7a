-- ===== src/Client/Encoding/RoundTrip.antt =====
-- What base64 text stands for, and that `b64encode` is read back.
use bitcoin_core_rpc.Client.Encoding.{b64encode, base64_char}
use bitcoin_core_rpc.Prelude.{
  All, Bytes, Text, [], arith, false, if◌then◌else◌, ltb, refl, ℕ, ◌%◌, ◌*◌, ◌+◌, ◌-◌, ◌/◌, ◌<◌,
  ◌==◌, ◌∷◌, ◌≡◌,
}

-- the digit of a character
unfoldable pub base64_digit : ℕ → ℕ
base64_digit c =
    if c == 43
    then 62
    else if c == 47
    then 63
    else if ltb c 58
    then c + 4
    else if ltb c 91
    then c - 65
    else c - 71

-- the octets of four digits, where `=` stands for none
octets_of : (digits : ℕ → ℕ) (p q r s : ℕ) → Bytes → Bytes
octets_of digit p q r s others =
    if r == b'='
    then (digit p * 4 + digit q / 16) ∷ []
    else if s == b'='
    then (digit p * 4 + digit q / 16) ∷ ((digit q % 16) * 16 + digit r / 4) ∷ []
    else (digit p * 4 + digit q / 16)
      ∷ ((digit q % 16) * 16 + digit r / 4)
      ∷ ((digit r % 4) * 64 + digit s)
      ∷ others

-- the octets of base64 text, four characters at a time
unfoldable pub b64decode : Text → Bytes
unfolding base64_digit octets_of
b64decode (p ∷ q ∷ r ∷ s ∷ rest) = octets_of base64_digit p q r s (b64decode rest)
b64decode _ = []

base64_digit-base64_char : (d : ℕ) → d < 64 → base64_digit (base64_char d) ≡ d
unfolding base64_digit base64_char
base64_digit-base64_char d h = ground arith

base64_char-no_padding : (d : ℕ) → d < 64 → (base64_char d == b'=') ≡ false
unfolding base64_char
base64_char-no_padding d h = ground arith

-- Base64 text is read back to the octets it was written of.
pub b64decode-b64encode :
    (octets : Bytes) → All (λ n. n < 256) octets → b64decode (b64encode octets) ≡ octets
unfolding b64decode b64encode
b64decode-b64encode [] h = refl
b64decode-b64encode (a ∷ []) (ha, h) =
    let p = base64_digit-base64_char (a / 4) (omega arith) in
    let q = base64_digit-base64_char ((a % 4) * 16) (omega arith) in
    let e : a / 4 * 4 + (a % 4) * 16 / 16 ≡ a = omega arith in rw (p, q, e)
b64decode-b64encode (a ∷ b ∷ []) (ha, (hb, h)) =
    let p = base64_digit-base64_char (a / 4) (omega arith) in
    let q = base64_digit-base64_char ((a % 4) * 16 + b / 16) (omega arith) in
    let r = base64_digit-base64_char ((b % 16) * 4) (omega arith) in
    let n = base64_char-no_padding ((b % 16) * 4) (omega arith) in
    let e : a / 4 * 4 + ((a % 4) * 16 + b / 16) / 16 ≡ a = omega arith in
    let e' : (((a % 4) * 16 + b / 16) % 16) * 16 + (b % 16) * 4 / 4 ≡ b = omega arith in
    rw (p, q, r, n, e, e')
b64decode-b64encode (a ∷ b ∷ c ∷ rest) (ha, (hb, (hc, h))) =
    let p = base64_digit-base64_char (a / 4) (omega arith) in
    let q = base64_digit-base64_char ((a % 4) * 16 + b / 16) (omega arith) in
    let r = base64_digit-base64_char ((b % 16) * 4 + c / 64) (omega arith) in
    let s = base64_digit-base64_char (c % 64) (omega arith) in
    let n = base64_char-no_padding ((b % 16) * 4 + c / 64) (omega arith) in
    let m = base64_char-no_padding (c % 64) (omega arith) in
    let e : a / 4 * 4 + ((a % 4) * 16 + b / 16) / 16 ≡ a = omega arith in
    let e' : (((a % 4) * 16 + b / 16) % 16) * 16 + ((b % 16) * 4 + c / 64) / 4 ≡ b = omega arith in
    let e'' : (((b % 16) * 4 + c / 64) % 4) * 64 + c % 64 ≡ c = omega arith in
    rw (p, q, r, s, n, m, e, e', e'', b64decode-b64encode rest h)
