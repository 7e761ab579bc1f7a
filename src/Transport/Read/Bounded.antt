-- ===== src/Transport/Read/Bounded.antt =====
-- What `_read_bounded` answers with, against the octets that the peer sends.
use native.Mathlib.Numerals.{add-one}
use bitcoin_core_rpc.Errors.{>>=-eq-ok, Result, Result-cases, ok, raise}
use bitcoin_core_rpc.Prelude.{
  Bool, Bool-cases, Bytes, Option, [], ap, append-nil, append_assoc, arith, inl, inr, length,
  length-take, ltb, ltb→lt, min, pos, refl, suc, sym, take, true, zero, ℕ, ℤ, ◌++◌, ◌+◌, ◌-◌, ◌<◌,
  ◌==◌, ◌∙◌, ◌∷◌, ◌≡◌, ◌≤◌,
}
use bitcoin_core_rpc.Transport.Checks.{assert_valid_max_body_size}
use bitcoin_core_rpc.Transport.Read.{
  Delivers, Source, after_read, announced_too_much, bounded, read_bounded, read_chunk, read_loop,
}
use bitcoin_core_rpc.Value.{Scalar, int}

take-append-le :
    (n : ℕ) (xs ys : Bytes) → length xs ≤ n → take n (xs ++ ys) ≡ xs ++ take (n - length xs) ys
take-append-le n [] ys h = let e : n - 0 ≡ n = omega arith in rw e refl
take-append-le zero (x ∷ xs) ys h = absurd (omega arith)
take-append-le (suc n) (x ∷ xs) ys h =
    let e : suc n - suc (length xs) ≡ n - length xs = omega arith in
    rw (e, take-append-le n xs ys (omega arith))

take-nil : (n : ℕ) → take {A = ℕ} n [] ≡ []
take-nil zero = refl
take-nil (suc n) = refl

module _ {S : Type 0} (source : Source S) (contents : S → Bytes)
    (law : Delivers source contents) where
  -- one turn, for any loop that goes on as this one does
  after_read-prefix :
      (loop : Bytes → ℕ → S → Result Bytes × S) (remaining : ℕ) (buffer : Bytes) (s : S) (b : Bytes)
      (r : Result Bytes) (s' : S)
      → source.read1 (min remaining read_chunk) s ≡ (r, s')
      → 0 < remaining
      → ((buffer' : Bytes) (remaining' : ℕ)
          → remaining' < remaining
          → (loop buffer' remaining' s').0 ≡ ok b
          → b ≡ buffer' ++ take remaining' (contents s'))
      → (after_read loop buffer remaining r s').0 ≡ ok b
      → b ≡ buffer ++ take remaining (contents s)
  unfolding after_read
  after_read-prefix loop remaining buffer s b (raise e) s' q lt ih h = absurd (ground arith)
  after_read-prefix loop remaining buffer s b (ok []) s' q lt ih h =
      let e = law.read1_end (min remaining read_chunk) s (ground arith) (ap (λ p. p.0) q) in
      rw (e, take-nil, append-nil) (ground arith)
  after_read-prefix loop remaining buffer s b (ok (c ∷ cs)) s' q lt ih h =
      let (e, le) = law.read1_next (min remaining read_chunk) s (c ∷ cs) (ap (λ p. p.0) q) in
      let b' = ih (buffer ++ c ∷ cs) (remaining - suc (length cs)) (omega arith) h in
      let e' : contents s ≡ (c ∷ cs) ++ contents s' = rw (ap (λ p. p.1) q) at e in
      rw (e', take-append-le remaining (c ∷ cs) (contents s') (omega arith), ← append_assoc) b'

  -- The loop holds no more than it may, and ends with the first octets of what was to come: all of
  -- them, or as many as were asked for.
  read_loop-prefix :
      (turns deadline remaining : ℕ) (buffer : Bytes) (s : S) (b : Bytes)
      → remaining ≤ turns
      → (read_loop source turns deadline buffer remaining s).0 ≡ ok b
      → b ≡ buffer ++ take remaining (contents s)
  unfolding read_loop
  read_loop-prefix zero deadline remaining buffer s b le h =
      let e : remaining ≡ 0 = omega arith in rw (e, append-nil) (ground arith)
  read_loop-prefix (suc turns) deadline remaining buffer s b le h =
      elim (Bool-cases (remaining == 0)) [
        | inl z ↦ let e : remaining ≡ 0 = ground arith in rw (e, append-nil) (ground arith)
        | inr z ↦ elim (Bool-cases (ltb deadline (source.now s))) [
          | inl late ↦ let q = rw (read_loop, z, late) at h in cc
          | inr early ↦
              after_read-prefix (read_loop source turns deadline) remaining buffer s b _ _ refl
                (ground arith)
                (λ buffer' remaining' lt.
                  read_loop-prefix turns deadline remaining' buffer' _ b (omega arith))
                (rw (read_loop, z, early) at h)
        ]
      ]

length-take-le : (n : ℕ) (xs : Bytes) → length (take n xs) ≤ n
length-take-le n xs = omega (arith, length-take n xs)

take-all : (n : ℕ) (xs : Bytes) → length xs ≤ n → take n xs ≡ xs
take-all zero [] h = refl
take-all zero (x ∷ xs) h = absurd (omega arith)
take-all (suc n) [] h = refl
take-all (suc n) (x ∷ xs) h = rw (take-all n xs (omega arith))

take-take-suc : (n : ℕ) (xs : Bytes) → take n (take (suc n) xs) ≡ take n xs
take-take-suc zero xs = refl
take-take-suc (suc n) [] = refl
take-take-suc (suc n) (x ∷ xs) = rw (take-take-suc n xs)

-- `b` is what a bounded read of the body may answer with: all of the body where it fits, and the
-- first `limit` octets of it where it does not and may be cut.
pub data IsBounded (truncate : Bool) (limit : ℕ) (body b : Bytes) : Type 0 where
  whole : length body ≤ limit → b ≡ body → IsBounded truncate limit body b
  cut :
      truncate ≡ true → limit < length body → b ≡ take limit body → IsBounded truncate limit body b

bounded-IsBounded :
    (truncate : Bool) (limit : ℕ) (body b : Bytes)
    → bounded truncate limit (take (limit + 1) body) ≡ ok b
    → IsBounded truncate limit body b
unfolding bounded
bounded-IsBounded truncate limit body b h =
    let n = length-take (limit + 1) body in
    elim (Bool-cases (ltb limit (length (take (limit + 1) body)))) [
      | inl long ↦
          let lt = ltb→lt _ _ long in
          let cut_ok : (truncate ≡ true) × (take limit (take (limit + 1) body) ≡ b) =
            ground arith in
          cut cut_ok.0 (omega arith) (sym cut_ok.1 ∙ rw add-one (take-take-suc limit body))
      | inr short ↦
          let all_of = take-all (limit + 1) body (ground arith) in
          whole (ground arith) (ground arith)
    ]

-- The size that the read answers with never passes the limit.
pub IsBounded-length :
    {truncate : Bool} {limit : ℕ} {body b : Bytes}
    → IsBounded truncate limit body b
    → length b ≤ limit
IsBounded-length (whole le e) = rw e le
IsBounded-length {limit} {body} (cut t lt e) = rw e (length-take-le limit body)

pub assert_valid_max_body_size-ok :
    (s : Scalar) (n : ℕ) → assert_valid_max_body_size s ≡ ok n → s ≡ int (pos n)
unfolding assert_valid_max_body_size
assert_valid_max_body_size-ok (int (pos k)) n h = ground arith
assert_valid_max_body_size-ok s n h = absurd (ground arith)

-- When `_read_bounded` returns, the limit is a size, and what it returns is the whole body that the
-- peer sends, which fits the limit, or with `truncate` the first octets of a larger one, as many as
-- the limit. The condition is what `read1` documents.
pub read_bounded-IsBounded :
    {S : Type 0} (source : Source S) (contents : S → Bytes) (law : Delivers source contents)
    (max_body_size : Scalar) (deadline : ℕ) (truncate : Bool) (announced : Option ℤ) (s : S)
    {b : Bytes}
    → (read_bounded source max_body_size deadline truncate announced s).0 ≡ ok b
    → (limit : ℕ) × (max_body_size ≡ int (pos limit)) × IsBounded truncate limit (contents s) b
unfolding read_bounded
read_bounded-IsBounded source contents law max_body_size deadline truncate announced s {b} h =
    elim (Result-cases (assert_valid_max_body_size max_body_size)) [
      | inr (e, p) ↦ let q = rw (read_bounded, p) at h in cc
      | inl (limit, p) ↦ elim (Bool-cases (announced_too_much truncate announced limit)) [
        | inl y ↦ let q = rw (read_bounded, p, y) at h in cc
        | inr y ↦
            let loop = (read_loop source (limit + 1) deadline [] (limit + 1) s).0 in
            let (body, o, q) =
              >>=-eq-ok loop (bounded truncate limit) (rw (read_bounded, p, y) at h) in
            let prefix_ =
              read_loop-prefix source contents law (limit + 1) deadline (limit + 1) [] s body
                (omega arith) o in
            (
              limit,
              assert_valid_max_body_size-ok max_body_size limit p,
              bounded-IsBounded truncate limit (contents s) b (rw prefix_ at q),
            )
      ]
    ]
