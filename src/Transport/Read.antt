-- ===== src/Transport/Read.antt =====
-- src/bitcoin_core_rpc/transport.py: `_read_bounded`.
pub mod Bounded
use bitcoin_core_rpc.Errors.{
  Result, announced_too_large, fetch_error, ok, raise, response_too_large, still_arriving, ◌>>=◌,
}
use bitcoin_core_rpc.Prelude.{
  Bool, Bytes, Option, [], false, if◌then◌else◌, length, ltb, ltb_ℤ, min, none, not, pos, some, suc,
  take, zero, ℕ, ℤ, ◌&&◌, ◌*◌, ◌++◌, ◌+◌, ◌-◌, ◌<◌, ◌==◌, ◌∷◌, ◌≡◌, ◌≤◌,
}
use bitcoin_core_rpc.Transport.Checks.{assert_valid_max_body_size}
use bitcoin_core_rpc.Value.{Scalar}

-- The octets that one read asks for at most.
abbrev pub read_chunk : ℕ
read_chunk = 64 * 1024

-- A response and the clock, over the states of the connection. `read1` is the buffered reader's:
-- one underlying read, which may raise. `now` is what `monotonic` reads in a state.
pub record Source (S : Type 0) : Type 0 where
  pub read1 : ℕ → S → Result Bytes × S
  pub now : S → ℕ

-- What `io.BufferedReader.read1` documents, of the octets that are still to come: a read answers
-- with the next ones and no more than it was asked for, and with none only at the end.
pub record Delivers {S : Type 0} (source : Source S) (contents : S → Bytes) : Type 0 where
  pub read1_next :
      (n : ℕ) (s : S) (chunk : Bytes)
      → (source.read1 n s).0 ≡ ok chunk
      → (contents s ≡ chunk ++ contents (source.read1 n s).1) × (length chunk ≤ n)
  pub read1_end : (n : ℕ) (s : S) → 0 < n → (source.read1 n s).0 ≡ ok [] → contents s ≡ []

-- the test on the announced size
unfoldable pub announced_too_much : Bool → Option ℤ → ℕ → Bool
announced_too_much truncate none limit = false
announced_too_much truncate (some announced) limit = not truncate && ltb_ℤ (pos limit) announced

-- what is answered once the loop is left with this buffer
unfoldable pub bounded : Bool → ℕ → Bytes → Result Bytes
bounded truncate limit buffer =
    if ltb limit (length buffer)
    then (if truncate then ok (take limit buffer) else raise (fetch_error response_too_large))
    else ok buffer

-- the rest of a turn of the loop, once `read1` has returned
unfoldable pub after_read {ℓ} :
    {S : Type ℓ}
    → (Bytes → ℕ → S → Result Bytes × S)
    → Bytes
    → ℕ
    → Result Bytes
    → S
    → Result Bytes × S
after_read loop buffer remaining (raise e) s = (raise e, s)
after_read loop buffer remaining (ok []) s = (ok buffer, s)
after_read loop buffer remaining (ok (c ∷ cs)) s =
    loop (buffer ++ c ∷ cs) (remaining - suc (length cs)) s

module _ {S : Type 0} (source : Source S) where
  -- The loop of `_read_bounded`. A turn that goes on has read an octet, so `remaining` turns are
  -- enough, and the first argument counts them.
  unfoldable pub read_loop : ℕ → ℕ → Bytes → ℕ → S → Result Bytes × S
  unfolding after_read
  read_loop zero deadline buffer remaining s = (ok buffer, s)
  read_loop (suc turns) deadline buffer remaining s =
      if remaining == 0
      then (ok buffer, s)
      else if ltb deadline (source.now s)
      then (raise (fetch_error still_arriving), s)
      else (let (r, s') = source.read1 (min remaining read_chunk) s in
          after_read (read_loop turns deadline) buffer remaining r s')

  -- `_read_bounded`; `announced` is the `Content-Length` as `int` reads it, and `none` where there
  -- is none or it is no number
  unfoldable pub read_bounded : Scalar → ℕ → Bool → Option ℤ → S → Result Bytes × S
  unfolding read_loop announced_too_much bounded
  read_bounded max_body_size deadline truncate announced s =
      elim (assert_valid_max_body_size max_body_size) [
        | raise e ↦ (raise e, s)
        | ok limit ↦
            if announced_too_much truncate announced limit
            then (raise (fetch_error announced_too_large), s)
            else (let (r, s') = read_loop (limit + 1) deadline [] (limit + 1) s in
                (r >>= bounded truncate limit, s'))
      ]
