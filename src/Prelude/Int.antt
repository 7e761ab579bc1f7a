-- ===== src/Prelude/Int.antt =====
-- Python's `int`: signed integers over the native numbers, and their decimal text.
use Prim.Native.Nat.{ℕ, zero, suc, ◌+◌, ◌-◌, ◌/◌, ◌%◌, ◌≤◌}
use mathlib.Core.Logic.{inl, inr}
use native.Mathlib.Omega.{arith}
use bitcoin_core_rpc.Prelude.Lists.{All}
use mathlib.Core.Bool.{Bool, false}
use mathlib.Core.List.{[], ◌∷◌}
use bitcoin_core_rpc.Prelude.Tests.{Bool-cases, ltb, leb, ◌==◌, if◌then◌else◌}
use bitcoin_core_rpc.Prelude.Str.{Text}

-- `negsuc n` is -(n + 1).
pub data ℤ : Type 0 where
  pos : ℕ → ℤ
  negsuc : ℕ → ℤ

abbrev pub pos_part : ℤ → ℕ
pos_part (pos n) = n
pos_part (negsuc n) = 0

abbrev pub neg_part : ℤ → ℕ
neg_part (pos n) = 0
neg_part (negsuc n) = suc n

abbrev pub ltb_ℤ : ℤ → ℤ → Bool
ltb_ℤ a b = ltb (pos_part a + neg_part b) (pos_part b + neg_part a)

abbrev pub leb_ℤ : ℤ → ℤ → Bool
leb_ℤ a b = leb (pos_part a + neg_part b) (pos_part b + neg_part a)

abbrev pub eq_ℤ : ℤ → ℤ → Bool
eq_ℤ (pos a) (pos b) = a == b
eq_ℤ (negsuc a) (negsuc b) = a == b
eq_ℤ _ _ = false

-- the decimal digits of `n` in front of `acc`; one digit is left for each unit of fuel at most
digits_onto : ℕ → ℕ → Text → Text
digits_onto zero n acc = acc
digits_onto (suc f) n acc =
    let here = (48 + n % 10) ∷ acc in
    let rest = digits_onto f (n / 10) here in if n / 10 == 0 then here else rest

-- str(n)
unfoldable pub show_ℕ : ℕ → Text
unfolding digits_onto
show_ℕ n = digits_onto (suc n) n []

-- str(n), of a signed integer
unfoldable pub show_ℤ : ℤ → Text
unfolding show_ℕ
show_ℤ (pos n) = show_ℕ n
show_ℤ (negsuc n) = b'-' ∷ show_ℕ (suc n)

-- a digit or the sign
abbrev pub IsDigit : ℕ → Type 0
IsDigit c = (45 ≤ c) × (c ≤ 57)

digits_onto-IsDigit : (f n : ℕ) (acc : Text) → All IsDigit acc → All IsDigit (digits_onto f n acc)
unfolding digits_onto
digits_onto-IsDigit zero n acc h = h
digits_onto-IsDigit (suc f) n acc h =
    let here : All IsDigit ((48 + n % 10) ∷ acc) = ((omega arith, omega arith), h) in
    elim (Bool-cases (n / 10 == 0)) [
      | inl e ↦ rw e here
      | inr e ↦ rw e (digits_onto-IsDigit f (n / 10) ((48 + n % 10) ∷ acc) here)
    ]

-- What is shown of an integer is digits and its sign.
pub show_ℤ-IsDigit : (a : ℤ) → All IsDigit (show_ℤ a)
unfolding show_ℤ
show_ℤ-IsDigit (pos n) = digits_onto-IsDigit (suc n) n [] tt
show_ℤ-IsDigit (negsuc n) =
    ((omega arith, omega arith), digits_onto-IsDigit (suc (suc n)) (suc n) [] tt)

-- abs(a)
abbrev pub abs : ℤ → ℕ
abs a = pos_part a + neg_part a

-- a - b of two numbers, as an integer
abbrev pub sub_ℕ : ℕ → ℕ → ℤ
sub_ℕ a b = if leb b a then pos (a - b) else negsuc (b - a - 1)

infixl 65 ◌+ℤ◌
unfoldable pub ◌+ℤ◌ : ℤ → ℤ → ℤ
◌+ℤ◌ a b = sub_ℕ (pos_part a + pos_part b) (neg_part a + neg_part b)
