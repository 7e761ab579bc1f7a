-- ===== src/Chains/Signet/RoundTrip.antt =====
-- `_compact_size` against a reader of the format that Bitcoin's protocol describes.
use native.Mathlib.Nat.{pow-suc}
use bitcoin_core_rpc.Chains.Signet.{compact_size, to_bytes}
use bitcoin_core_rpc.Prelude.{
  Bool-cases, Bytes, Option, [], arith, if◌then◌else◌, inl, inr, leb, ltb, none, some, suc, zero, ℕ,
  ◌*◌, ◌++◌, ◌+◌, ◌/◌, ◌<◌, ◌==◌, ◌^◌, ◌∷◌, ◌≡◌,
}

-- the number that `n` octets stand for, least first, and the octets behind them
abbrev read_le : ℕ → Bytes → Option (ℕ × Bytes)
read_le zero bs = some (0, bs)
read_le (suc n) [] = none
read_le (suc n) (b ∷ bs) = elim (read_le n bs) [
  | none ↦ none
  | some (x, rest) ↦ some (b + 256 * x, rest)
]

-- A CompactSize: one octet below 0xfd, or a mark and two, four or eight octets.
pub read_compact_size : Bytes → Option (ℕ × Bytes)
read_compact_size [] = none
read_compact_size (b ∷ bs) =
    if ltb b 0xfd
    then some (b, bs)
    else if b == 0xfd
    then read_le 2 bs
    else if b == 0xfe
    then read_le 4 bs
    else read_le 8 bs

read_le-to_bytes :
    (n x : ℕ) (rest : Bytes) → x < 256 ^ n → read_le n (to_bytes n x ++ rest) ≡ some (x, rest)
unfolding to_bytes
read_le-to_bytes zero x rest h = ground arith
read_le-to_bytes (suc n) x rest h =
    let lt : x / 256 < 256 ^ n = omega (arith, pow-suc 256 n) in
    let ih = read_le-to_bytes n (x / 256) rest lt in rw ih (ground arith)

-- Every length that fits eight octets is read back, whatever follows.
pub read_compact_size-compact_size :
    (size : ℕ) (rest : Bytes)
    → size < 2 ^ 64
    → read_compact_size (compact_size size ++ rest) ≡ some (size, rest)
unfolding read_compact_size compact_size
read_compact_size-compact_size size rest h = elim (Bool-cases (ltb size 0xfd)) [
  | inl a ↦ rw (compact_size, a) (rw (read_compact_size, a))
  | inr a ↦ elim (Bool-cases (leb size 0xffff)) [
    | inl b ↦ rw (compact_size, a, b) (read_le-to_bytes 2 size rest (ground arith))
    | inr b ↦ elim (Bool-cases (leb size 0xffffffff)) [
      | inl c ↦ rw (compact_size, a, b, c) (read_le-to_bytes 4 size rest (ground arith))
      | inr c ↦ rw (compact_size, a, b, c) (read_le-to_bytes 8 size rest (ground arith))
    ]
  ]
]
