-- ===== src/Transport/Exchange/Bounds.antt =====
-- What `http_request` returns and raises, over any transport.
use mathlib.Core.Path.{subst}
use bitcoin_core_rpc.Errors.{
  >>=-eq-raise, Exception, Result, announced_too_large, class_of, fetch_error, is_instance, ok,
  raise, still_arriving,
}
use bitcoin_core_rpc.Errors.Classes.{
  btc_rpc_type_error, btc_rpc_value_error, fetch_error_class, http_exception, os_error,
}
use bitcoin_core_rpc.Prelude.{
  Bool, Bool-cases, Bytes, List, Option, Text, [], arith, inl, inr, length, ltb, pos, refl, suc,
  true, zero, ℕ, ℤ, ◌+◌, ◌<◌, ◌==◌, ◌||◌, ◌∷◌, ◌≡◌, ◌≤◌, ◌⊎◌,
}
use bitcoin_core_rpc.Transport.Checks.{
  Parts, Unicode, assert_valid_headers, assert_valid_max_body_size, assert_valid_timeout,
  check_header, checked_parts, split_url, timeout_units,
}
use bitcoin_core_rpc.Transport.Exchange.{client_error, max_error_body_size}
use bitcoin_core_rpc.Transport.Read.{
  Source, after_read, announced_too_much, bounded, read_bounded, read_loop,
}
use bitcoin_core_rpc.Value.{Scalar, finite, float, int, str}

-- an error of the connection, which the standard library raises
abbrev pub IsIoError : Exception → Type 0
IsIoError e = (is_instance e os_error || is_instance e http_exception) ≡ true

-- one of the classes that the package declares
abbrev pub IsPackageError : Exception → Type 0
IsPackageError e =
    (is_instance e fetch_error_class
      || is_instance e btc_rpc_value_error
      || is_instance e btc_rpc_type_error)
    ≡ true

-- a body that was cut, or one below 400 that fits the limit
abbrev pub HttpOutcome : Scalar → Result (ℕ × Bytes) → Type 0
HttpOutcome max_body_size (raise e) = IsPackageError e
HttpOutcome max_body_size (ok (status, body)) =
    (limit : ℕ) × (max_body_size ≡ int (pos limit))
    × ((length body ≤ max_error_body_size) ⊎ ((status < client_error) × (length body ≤ limit)))

-- the same outcome, where other exceptions may also be raised
abbrev pub HttpOutcomeOr : (Exception → Type 0) → Scalar → Result (ℕ × Bytes) → Type 0
HttpOutcomeOr Other max_body_size (raise e) = IsPackageError e ⊎ Other e
HttpOutcomeOr Other max_body_size (ok given) = HttpOutcome max_body_size (ok given)

pub fetch_error-IsPackageError :
    (e : Exception) → is_instance e fetch_error_class ≡ true → IsPackageError e
fetch_error-IsPackageError e h = rw h

-- the checks raise the package's own errors
pub timeout-IsPackageError :
    (what : Text) (s : Scalar) (e : Exception)
    → assert_valid_timeout what s ≡ raise e
    → IsPackageError e
unfolding assert_valid_timeout timeout_units is_instance class_of
timeout-IsPackageError what (float (finite u)) e h = ground arith
timeout-IsPackageError what s e h = ground arith

pub limit-IsPackageError :
    (s : Scalar) (e : Exception) → assert_valid_max_body_size s ≡ raise e → IsPackageError e
unfolding assert_valid_max_body_size is_instance class_of
limit-IsPackageError (int (pos n)) e h = ground arith
limit-IsPackageError s e h = ground arith

pub url-IsPackageError :
    (unicode : Unicode) (urlsplit : Text → Option Parts) (url : Text) (e : Exception)
    → split_url unicode urlsplit url ≡ raise e
    → IsPackageError e
unfolding split_url checked_parts is_instance class_of
url-IsPackageError unicode urlsplit url e h = ground arith

header-IsPackageError :
    (name value : Scalar) (e : Exception) → check_header name value ≡ raise e → IsPackageError e
unfolding check_header is_instance class_of
header-IsPackageError (str name) (str value) e h = ground arith
header-IsPackageError _ _ e h = ground arith

pub headers-IsPackageError :
    (headers : List (Scalar × Scalar)) (e : Exception)
    → assert_valid_headers headers ≡ raise e
    → IsPackageError e
unfolding assert_valid_headers
headers-IsPackageError [] e h = absurd (ground arith)
headers-IsPackageError ((name, value) ∷ rest) e h =
    elim (>>=-eq-raise (check_header name value) (λ _. assert_valid_headers rest) h) [
      | inl q ↦ header-IsPackageError name value e q
      | inr (_, q, r) ↦ headers-IsPackageError rest e r
    ]

-- the connection's reads raise errors of the connection only
abbrev pub ReadsRaiseIo : {S : Type 0} → Source S → Type 0
ReadsRaiseIo {S} source =
    (n : ℕ) (t : S) (x : Exception) → (source.read1 n t).0 ≡ raise x → IsIoError x

module _ {S : Type 0} (source : Source S) (law : ReadsRaiseIo source) where
  after_read-raise :
      (loop : Bytes → ℕ → S → Result Bytes × S) (buffer : Bytes) (remaining : ℕ) (r : Result Bytes)
      (s : S) (e : Exception)
      → ((buffer' : Bytes) (remaining' : ℕ)
          → (loop buffer' remaining' s).0 ≡ raise e
          → (is_instance e fetch_error_class ≡ true) ⊎ IsIoError e)
      → ((x : Exception) → r ≡ raise x → IsIoError x)
      → (after_read loop buffer remaining r s).0 ≡ raise e
      → (is_instance e fetch_error_class ≡ true) ⊎ IsIoError e
  unfolding after_read
  after_read-raise loop buffer remaining (raise x) s e ih io h = inr (io e (ground arith))
  after_read-raise loop buffer remaining (ok []) s e ih io h = absurd (ground arith)
  after_read-raise loop buffer remaining (ok (c ∷ cs)) s e ih io h = ih _ _ h

  read_loop-raise :
      (turns deadline : ℕ) (buffer : Bytes) (remaining : ℕ) (s : S) (e : Exception)
      → (read_loop source turns deadline buffer remaining s).0 ≡ raise e
      → (is_instance e fetch_error_class ≡ true) ⊎ IsIoError e
  unfolding read_loop
  read_loop-raise zero deadline buffer remaining s e h = absurd (ground arith)
  read_loop-raise (suc turns) deadline buffer remaining s e h = elim (Bool-cases (remaining == 0)) [
    | inl z ↦ let h' = rw (read_loop, z) at h in cc
    | inr z ↦ elim (Bool-cases (ltb deadline (source.now s))) [
      | inl late ↦
          let h' = rw (read_loop, z, late) at h in
          let same : fetch_error still_arriving ≡ e = cc in
          inl (
            subst (λ x. is_instance x fetch_error_class ≡ true) same
              (unfold is_instance class_of in refl))
      | inr early ↦
          after_read-raise (read_loop source turns deadline) buffer remaining _ _ e
            (λ b' r'. read_loop-raise turns deadline b' r' _ e) (law _ s)
            (rw (read_loop, z, early) at h)
    ]
  ]

  bounded-raise :
      (truncate : Bool) (limit : ℕ) (buffer : Bytes) (e : Exception)
      → bounded truncate limit buffer ≡ raise e
      → is_instance e fetch_error_class ≡ true
  unfolding bounded is_instance class_of
  bounded-raise truncate limit buffer e h = ground arith

  -- a bounded read raises a `FetchError`, an error of the connection, or refuses its limit
  pub read_bounded-raise :
      (limit deadline : ℕ) (truncate : Bool) (announced : Option ℤ) (s : S) (e : Exception)
      → (read_bounded source (int (pos limit)) deadline truncate announced s).0 ≡ raise e
      → (is_instance e fetch_error_class ≡ true) ⊎ IsIoError e
  unfolding read_bounded assert_valid_max_body_size
  read_bounded-raise limit deadline truncate announced s e h =
      elim (Bool-cases (announced_too_much truncate announced limit)) [
        | inl y ↦
            let h' = rw (read_bounded, y) at h in
            let same : fetch_error announced_too_large ≡ e = cc in
            inl (
              subst (λ x. is_instance x fetch_error_class ≡ true) same
                (unfold is_instance class_of in refl))
        | inr y ↦
            elim (>>=-eq-raise (read_loop source (limit + 1) deadline [] (limit + 1) s).0
              (bounded truncate limit) (rw (read_bounded, y) at h)) [
                | inl q ↦ read_loop-raise (limit + 1) deadline [] (limit + 1) s e q
                | inr (b, q, r) ↦ inl (bounded-raise truncate limit b e r)
              ]
      ]
