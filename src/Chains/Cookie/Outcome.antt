-- ===== src/Chains/Cookie/Outcome.antt =====
-- What `cookie_auth` answers with, whatever the operating system does.
use mathlib.Core.Path.{subst}
use bitcoin_core_rpc.Chains.Cookie.{
  CookieFile, cookie_auth, cookie_exception, cookie_line, max_cookie_size, read_cookie,
}
use bitcoin_core_rpc.Chains.Cookie.Line.{IsCookie, cookie_line-ok_iff}
use bitcoin_core_rpc.Errors.{Exception, Result, Result-cases, class_of, is_instance, ok, raise}
use bitcoin_core_rpc.Errors.Classes.{fetch_error_class, os_error}
use bitcoin_core_rpc.Prelude.{
  Bool-cases, Bytes, Text, ap, arith, false, if◌then◌else◌, inl, inr, refl, sym, true, ℕ, ◌+◌, ◌∙◌,
  ◌≡◌,
}

-- The operating system's calls raise `OSError`, or a class below it.
pub record RaisesOsErrors (file : CookieFile) : Type 0 where
  pub by_open : (e : Exception) → file.opened ≡ raise e → is_instance e os_error ≡ true
  pub by_status : (e : Exception) → file.regular ≡ raise e → is_instance e os_error ≡ true
  pub by_read : (n : ℕ) (e : Exception) → file.read n ≡ raise e → is_instance e os_error ≡ true

-- A credential comes from a regular file, by one bounded read.
abbrev pub CookieOutcome : CookieFile → Result Text → Type 0
CookieOutcome file (raise e) = is_instance e fetch_error_class ≡ true
CookieOutcome file (ok line) =
    (raw : Bytes) × (file.regular ≡ ok true)
    × (file.read (max_cookie_size + 1) ≡ ok raw)
    × IsCookie raw line

cookie_exception-fetch_error :
    (file : CookieFile) (e : Exception)
    → is_instance e os_error ≡ true
    → CookieOutcome file (raise (cookie_exception e))
unfolding cookie_exception is_instance class_of
cookie_exception-fetch_error file e h = ground arith

cookie_line-fetch_error :
    (raw : Bytes) (e : Exception)
    → cookie_line raw ≡ raise e
    → is_instance e fetch_error_class ≡ true
unfolding cookie_line is_instance class_of
cookie_line-fetch_error raw e h = ground arith

cookie_line-CookieOutcome :
    (file : CookieFile) (raw : Bytes)
    → file.regular ≡ ok true
    → file.read (max_cookie_size + 1) ≡ ok raw
    → CookieOutcome file (cookie_line raw)
cookie_line-CookieOutcome file raw r q = elim (Result-cases (cookie_line raw)) [
  | inl (line, e) ↦ rw e (raw, r, q, (cookie_line-ok_iff raw line).0 e)
  | inr (x, e) ↦ rw e (cookie_line-fetch_error raw x e)
]

at_outcome :
    (file : CookieFile) (r : Result Text)
    → cookie_auth file ≡ (r, 0)
    → CookieOutcome file r
    → ((cookie_auth file).1 ≡ 0) × CookieOutcome file (cookie_auth file).0
at_outcome file r e o = subst (λ p. (p.1 ≡ 0) × CookieOutcome file p.0) (sym e) (refl, o)

-- Whatever the operating system answers, no descriptor is left open, what is raised is a
-- `FetchError`, and a credential that is returned is the line of a regular file's octets, read by one
-- read of at most 4097 of them. The condition is that the operating system raises `OSError` only.
pub cookie_auth-CookieOutcome :
    (file : CookieFile)
    → RaisesOsErrors file
    → ((cookie_auth file).1 ≡ 0) × CookieOutcome file (cookie_auth file).0
unfolding cookie_auth read_cookie
cookie_auth-CookieOutcome file law = elim (Bool-cases file.encodable) [
  | inr e ↦ rw (cookie_auth, e) (refl, refl)
  | inl e ↦ elim (Result-cases file.opened) [
    | inr (x, o) ↦
        rw (cookie_auth, e, o) (refl, cookie_exception-fetch_error file x (law.by_open x o))
    | inl (_, o) ↦ elim (Result-cases file.regular) [
      | inr (x, r) ↦
          let raised : cookie_auth file
              ≡ (raise (cookie_exception x), if is_instance x os_error then 0 else 1) =
            rw (cookie_auth, e, o, read_cookie, r) in
          at_outcome file (raise (cookie_exception x))
            (raised
              ∙ ap (λ b. (raise (cookie_exception x), if b then 0 else 1)) (law.by_status x r))
            (cookie_exception-fetch_error file x (law.by_status x r))
      | inl (false, r) ↦ rw (cookie_auth, e, o, read_cookie, r) (refl, refl)
      | inl (true, r) ↦ elim (Result-cases (file.read (max_cookie_size + 1))) [
        | inr (x, q) ↦
            rw (cookie_auth, e, o, read_cookie, r, q)
              (refl, cookie_exception-fetch_error file x (law.by_read _ x q))
        | inl (raw, q) ↦
            let read_whole : cookie_auth file ≡ (cookie_line raw, 0) =
              rw (cookie_auth, e, o, read_cookie, r, q) in
            at_outcome file (cookie_line raw) read_whole (cookie_line-CookieOutcome file raw r q)
      ]
    ]
  ]
]
