-- ===== src/Reply/Numbers.antt =====
-- src/bitcoin_core_rpc/client.py: the hooks of `json.loads` that read the numbers of a reply
-- (`_json_number`, `_refuse_constant`). `Decimal(token)` is an argument.
use bitcoin_core_rpc.Errors.{
  Result, fetch_error, ok, raise, reply_constant, reply_number_exponent, reply_number_not_finite,
}
use bitcoin_core_rpc.Params.Scalars.{adjusted, decimal_json, format_f}
use bitcoin_core_rpc.Prelude.{
  Bool-cases, Text, abs, arith, if◌then◌else◌, inl, inr, ltb, not, refl, ℕ, ◌&&◌, ◌==◌, ◌↔◌, ◌∷◌,
  ◌≡◌,
}
use bitcoin_core_rpc.Value.{Decimal, decimal, not_finite}

-- `_json_number`, of the number that the token is; a limit of zero is none
unfoldable pub json_number : ℕ → Decimal → Result Decimal
unfolding adjusted
json_number max_str_digits (not_finite name) = raise (fetch_error reply_number_not_finite)
json_number max_str_digits (decimal negative coefficient exponent) =
    if not (max_str_digits == 0) && ltb max_str_digits (abs (adjusted coefficient exponent))
    then raise (fetch_error reply_number_exponent)
    else ok (decimal negative coefficient exponent)

-- `_refuse_constant`
unfoldable pub refuse_constant : Text → Result Decimal
refuse_constant name = raise (fetch_error reply_constant)

-- A number that a reply may hold is one that a call may send, under the same setting of the
-- interpreter.
json_number-decimal_json :
    (max_str_digits : ℕ) (number : Decimal)
    → (json_number max_str_digits number ≡ ok number)
      ↔ ((text : Text) × (decimal_json max_str_digits number ≡ ok text))
unfolding json_number decimal_json
json_number-decimal_json limit (not_finite name) =
    (λ h. absurd (ground arith), λ (text, h). absurd (ground arith))
json_number-decimal_json limit (decimal negative coefficient exponent) =
    elim (Bool-cases (not (limit == 0) && ltb limit (abs (adjusted coefficient exponent)))) [
      | inl t ↦ (
        λ h. let h' = rw (json_number, t) at h in absurd (ground arith),
        λ (text, h). let h' = rw (decimal_json, t) at h in absurd (ground arith),
      )
      | inr f ↦ (
        λ h. (
          (let text = format_f coefficient exponent in if negative then b'-' ∷ text else text),
          rw (decimal_json, f) refl,
        ),
        λ (text, h). rw (json_number, f) refl,
      )
    ]
