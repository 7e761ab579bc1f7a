-- ===== src/Client/Quote.antt =====
-- `urllib.parse.quote(text, safe="")`, which `for_wallet` of src/bitcoin_core_rpc/client.py calls, and
-- what reads it back.
use bitcoin_core_rpc.Client.Credentials.Header.{AreOctets}
use bitcoin_core_rpc.Client.Encoding.{encode}
use bitcoin_core_rpc.Prelude.{
  All, Bool, Bool-cases, Bytes, Option, Text, [], ap, arith, false, has_char, if◌then◌else◌, inl,
  inr, leb, ltb, none, refl, some, true, ℕ, ◌%◌, ◌&&◌, ◌*◌, ◌+◌, ◌-◌, ◌/◌, ◌<◌, ◌==◌, ◌||◌, ◌∙◌,
  ◌∷◌, ◌≡◌,
}

-- letters, digits, and `_.-~`
unfoldable pub is_unreserved : ℕ → Bool
is_unreserved c =
    leb 65 c && leb c 90
    || leb 97 c && leb c 122
    || leb 48 c && leb c 57
    || c == b'_'
    || c == b'.'
    || c == b'-'
    || c == b'~'

-- a digit of `%02X`
unfoldable pub upper_digit : ℕ → ℕ
upper_digit d = if ltb d 10 then d + 48 else d + 55

-- what stands for an octet, in front of what stands for the others
unfoldable pub quoted_octet : ℕ → Text → Text
unfolding is_unreserved upper_digit
quoted_octet c rest =
    if is_unreserved c then c ∷ rest else b'%' ∷ upper_digit (c / 16) ∷ upper_digit (c % 16) ∷ rest

-- quote_from_bytes
unfoldable pub quote_octets : Bytes → Text
unfolding quoted_octet
quote_octets [] = []
quote_octets (c ∷ cs) = quoted_octet c (quote_octets cs)

-- quote(text, safe=""), `none` where it raises `UnicodeEncodeError`
unfoldable pub quote : Text → Option Text
unfolding encode quote_octets
quote text = elim (encode text) [ none ↦ none | some octets ↦ some (quote_octets octets) ]

-- the value of a digit of `%02X`
unfoldable pub digit_value : ℕ → ℕ
digit_value d = if ltb d 58 then d - 48 else d - 55

-- urllib.parse.unquote_to_bytes, of what `quote` writes
unfoldable pub unquote_octets : Text → Bytes
unfolding digit_value
unquote_octets [] = []
unquote_octets (c ∷ []) = c ∷ []
unquote_octets (c ∷ d ∷ []) = c ∷ d ∷ []
unquote_octets (c ∷ h ∷ l ∷ rest) =
    let after_escape = unquote_octets rest in
    let after_octet = unquote_octets (h ∷ l ∷ rest) in
    if c == b'%' then (digit_value h * 16 + digit_value l) ∷ after_escape else c ∷ after_octet

digit_value-upper_digit : (d : ℕ) → d < 16 → digit_value (upper_digit d) ≡ d
unfolding digit_value upper_digit
digit_value-upper_digit d h = ground arith

-- an octet that stands for itself comes back, also in front of less than two others
unquote-plain :
    (c : ℕ) (rest : Text)
    → (c == b'%') ≡ false
    → unquote_octets (c ∷ rest) ≡ c ∷ unquote_octets rest
unfolding unquote_octets
unquote-plain c [] h = refl
unquote-plain c (d ∷ []) h = refl
unquote-plain c (d ∷ e ∷ rest) h = rw h refl

unreserved-no_percent : (c : ℕ) → is_unreserved c ≡ true → (c == b'%') ≡ false
unfolding is_unreserved
unreserved-no_percent c h = ground arith

unquote-quoted :
    (c : ℕ) (rest : Text) → c < 256 → unquote_octets (quoted_octet c rest) ≡ c ∷ unquote_octets rest
unfolding quoted_octet unquote_octets
unquote-quoted c rest h = elim (Bool-cases (is_unreserved c)) [
  | inl t ↦ rw t (unquote-plain c rest (unreserved-no_percent c t))
  | inr f ↦
      let high = digit_value-upper_digit (c / 16) (omega arith) in
      let low = digit_value-upper_digit (c % 16) (omega arith) in
      rw (f, high, low) (ap (λ x. x ∷ unquote_octets rest) (omega arith))
]

-- The octets come back.
pub unquote-quote_octets : (b : Bytes) → AreOctets b → unquote_octets (quote_octets b) ≡ b
unfolding quote_octets unquote_octets
unquote-quote_octets [] h = refl
unquote-quote_octets (c ∷ cs) (h, t) =
    unquote-quoted c (quote_octets cs) h ∙ ap (λ x. c ∷ x) (unquote-quote_octets cs t)

-- What stands in a path: unreserved characters, `%` and `/`.
abbrev pub IsPathChar : ℕ → Type 0
IsPathChar c = (is_unreserved c || c == b'%' || c == b'/') ≡ true

upper_digit-unreserved : (d : ℕ) → d < 16 → is_unreserved (upper_digit d) ≡ true
unfolding is_unreserved upper_digit
upper_digit-unreserved d h = ground arith

unreserved-IsPathChar : (c : ℕ) → is_unreserved c ≡ true → IsPathChar c
unreserved-IsPathChar c h = rw h refl

unreserved-no_slash : (c : ℕ) → is_unreserved c ≡ true → (c == b'/') ≡ false
unfolding is_unreserved
unreserved-no_slash c h = ground arith

percent-IsPathChar : IsPathChar b'%'
unfolding is_unreserved
percent-IsPathChar = refl

-- What is quoted is one segment of a path.
pub quote_octets-path :
    (b : Bytes)
    → AreOctets b
    → All IsPathChar (quote_octets b) × (has_char b'/' (quote_octets b) ≡ false)
unfolding quote_octets quoted_octet
quote_octets-path [] h = (tt, refl)
quote_octets-path (c ∷ cs) (h, t) =
    let (rest, no_slash) = quote_octets-path cs t in
    elim (Bool-cases (is_unreserved c)) [
      | inl u ↦ rw u ((unreserved-IsPathChar c u, rest), rw (unreserved-no_slash c u) no_slash)
      | inr f ↦
          let high = upper_digit-unreserved (c / 16) (omega arith) in
          let low = upper_digit-unreserved (c % 16) (omega arith) in
          let tail : All IsPathChar (upper_digit (c % 16) ∷ quote_octets cs) =
            (unreserved-IsPathChar (upper_digit (c % 16)) low, rest) in
          let escape : All IsPathChar
              (b'%' ∷ upper_digit (c / 16) ∷ upper_digit (c % 16) ∷ quote_octets cs) =
            (percent-IsPathChar, (unreserved-IsPathChar (upper_digit (c / 16)) high, tail)) in
          rw f (
            escape,
            rw
                (
                  unreserved-no_slash (upper_digit (c / 16)) high,
                  unreserved-no_slash (upper_digit (c % 16)) low,
                )
                no_slash,
          )
    ]
