-- ===== src/Errors/Shown.antt =====
-- src/bitcoin_core_rpc/errors.py: `str()` of an `RpcError`. Which characters are printable is an
-- argument, the interpreter's table.
use bitcoin_core_rpc.Prelude.{
  All, All-append, Bool, Bool-cases, IsDigit, Text, [], all, arith, codes, false, if◌then◌else◌,
  inl, inr, leb, ltb, refl, show_ℤ, show_ℤ-IsDigit, suc, true, zero, ℕ, ℤ, ◌%◌, ◌&&◌, ◌++◌, ◌+◌,
  ◌/◌, ◌<◌, ◌==◌, ◌∷◌, ◌≡◌, ◌≤◌,
}

-- a digit of `unicode_escape`
unfoldable pub lower_digit : ℕ → ℕ
lower_digit d = if ltb d 10 then d + 48 else d + 87

-- the last digits of a code point, this many of them
unfoldable pub lower_digits : ℕ → ℕ → Text
unfolding lower_digit
lower_digits zero c = []
lower_digits (suc n) c = lower_digits n (c / 16) ++ (lower_digit (c % 16) ∷ [])

-- c.encode("unicode_escape").decode(), of a character that is not printable
unfoldable pub escaped : ℕ → Text
unfolding lower_digits
escaped c =
    if c == 9
    then codes "\\t"
    else if c == 10
    then codes "\\n"
    else if c == 13
    then codes "\\r"
    else if ltb c 256
    then codes "\\x" ++ lower_digits 2 c
    else if ltb c 65536
    then codes "\\u" ++ lower_digits 4 c
    else codes "\\U" ++ lower_digits 8 c

module _ (is_printable : ℕ → Bool) where
  -- one character of the message
  unfoldable pub shown_char : ℕ → Text
  unfolding escaped
  shown_char c = if is_printable c then c ∷ [] else escaped c

  -- the message
  unfoldable pub shown_message : Text → Text
  unfolding shown_char
  shown_message [] = []
  shown_message (c ∷ cs) = shown_char c ++ shown_message cs

  -- `RpcError.__str__`
  unfoldable pub rpc_error_text : Text → ℤ → Text
  unfolding shown_message
  rpc_error_text message code =
      shown_message message ++ (codes " (rpc error code " ++ (show_ℤ code ++ codes ")"))

-- Every character is printable.
abbrev pub ArePrintable : (ℕ → Bool) → Text → Type 0
ArePrintable is_printable = All (λ c. is_printable c ≡ true)

-- what Python documents: of ASCII, the space and what follows it up to `~`
abbrev pub PrintsAscii : (ℕ → Bool) → Type 0
PrintsAscii is_printable = (c : ℕ) → 32 ≤ c → c ≤ 126 → is_printable c ≡ true

abbrev InAscii : ℕ → Type 0
InAscii c = (32 ≤ c) × (c ≤ 126)

lower_digit-InAscii : (d : ℕ) → d < 16 → InAscii (lower_digit d)
unfolding lower_digit
lower_digit-InAscii d h = ground arith

lower_digits-InAscii : (n c : ℕ) → All InAscii (lower_digits n c)
unfolding lower_digits
lower_digits-InAscii zero c = tt
lower_digits-InAscii (suc n) c =
    All-append InAscii (lower_digits n (c / 16)) (lower_digit (c % 16) ∷ [])
      (lower_digits-InAscii n (c / 16)) (lower_digit-InAscii (c % 16) (omega arith), tt)

-- by a test of each character
all-InAscii : (t : Text) → all (λ c. leb 32 c && leb c 126) t ≡ true → All InAscii t
all-InAscii [] h = tt
all-InAscii (c ∷ cs) h = ((ground arith, ground arith), all-InAscii cs (ground arith))

if-InAscii :
    (b : Bool) (s t : Text) → All InAscii s → All InAscii t → All InAscii (if b then s else t)
if-InAscii true s t h k = h
if-InAscii false s t h k = k

-- a backslash and another character, and digits
marked-InAscii : (m n c : ℕ) → InAscii m → All InAscii ((92 ∷ m ∷ []) ++ lower_digits n c)
marked-InAscii m n c h = ((omega arith, omega arith), (h, lower_digits-InAscii n c))

two-InAscii : (m : ℕ) → InAscii m → All InAscii (92 ∷ m ∷ [])
two-InAscii m h = ((omega arith, omega arith), (h, tt))

escaped-InAscii : (c : ℕ) → All InAscii (escaped c)
unfolding escaped
escaped-InAscii c = if-InAscii (c == 9) _ _ (two-InAscii b't' (omega arith, omega arith)) (
    if-InAscii (c == 10) _ _ (two-InAscii b'n' (omega arith, omega arith)) (
      if-InAscii (c == 13) _ _ (two-InAscii b'r' (omega arith, omega arith)) (
        if-InAscii (ltb c 256) _ _ (marked-InAscii b'x' 2 c (omega arith, omega arith)) (
          if-InAscii (ltb c 65536) _ _ (marked-InAscii b'u' 4 c (omega arith, omega arith))
            (marked-InAscii b'U' 8 c (omega arith, omega arith))))))

module _ (is_printable : ℕ → Bool) (ascii : PrintsAscii is_printable) where
  InAscii-ArePrintable : (t : Text) → All InAscii t → ArePrintable is_printable t
  InAscii-ArePrintable [] h = tt
  InAscii-ArePrintable (c ∷ cs) ((l, u), h) = (ascii c l u, InAscii-ArePrintable cs h)

  digits-InAscii : (t : Text) → All IsDigit t → All InAscii t
  digits-InAscii [] h = tt
  digits-InAscii (c ∷ cs) ((l, u), h) = ((omega (arith, l), omega (arith, u)), digits-InAscii cs h)

  shown_char-ArePrintable : (c : ℕ) → ArePrintable is_printable (shown_char is_printable c)
  unfolding shown_char
  shown_char-ArePrintable c = elim (Bool-cases (is_printable c)) [
    | inl t ↦ let one : ArePrintable is_printable (c ∷ []) = (t, tt) in rw t one
    | inr f ↦ rw f (InAscii-ArePrintable (escaped c) (escaped-InAscii c))
  ]

  shown_message-ArePrintable : (m : Text) → ArePrintable is_printable (shown_message is_printable m)
  unfolding shown_message
  shown_message-ArePrintable [] = tt
  shown_message-ArePrintable (c ∷ cs) =
      All-append (λ x. is_printable x ≡ true) (shown_char is_printable c)
        (shown_message is_printable cs) (shown_char-ArePrintable c) (shown_message-ArePrintable cs)

  frame-InAscii : (z : ℤ) → All InAscii (codes " (rpc error code " ++ (show_ℤ z ++ codes ")"))
  frame-InAscii z =
      All-append InAscii (codes " (rpc error code ") (show_ℤ z ++ codes ")")
        (all-InAscii (codes " (rpc error code ") refl)
        (All-append InAscii (show_ℤ z) (codes ")") (digits-InAscii (show_ℤ z) (show_ℤ-IsDigit z))
          ((omega arith, omega arith), tt))

  -- Every character of `str()` of an `RpcError` is printable, whatever the node's message is, so it
  -- begins no line and controls no terminal. The condition is that the interpreter counts ASCII from
  -- the space on as printable.
  pub rpc_error_text-ArePrintable :
      (message : Text) (code : ℤ)
      → ArePrintable is_printable (rpc_error_text is_printable message code)
  unfolding rpc_error_text
  rpc_error_text-ArePrintable message code =
      All-append (λ x. is_printable x ≡ true) (shown_message is_printable message)
        (codes " (rpc error code " ++ (show_ℤ code ++ codes ")"))
        (shown_message-ArePrintable message)
        (InAscii-ArePrintable (codes " (rpc error code " ++ (show_ℤ code ++ codes ")"))
          (frame-InAscii code))
