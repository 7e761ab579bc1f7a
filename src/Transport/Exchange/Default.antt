-- ===== src/Transport/Exchange/Default.antt =====
-- `urlopen_transport` of src/bitcoin_core_rpc/transport.py as the transport of `http_request`.
use mathlib.Core.Path.{subst}
use bitcoin_core_rpc.Errors.{Exception, Result, is_instance, ok, raise}
use bitcoin_core_rpc.Errors.Classes.{http_exception, os_error}
use bitcoin_core_rpc.Prelude.{
  Bool-cases, Bytes, List, Text, ap, arith, codes, false, inl, inr, pos, refl, ℕ, ◌+◌, ◌||◌, ◌∙◌,
  ◌≡◌, ◌⊎◌,
}
use bitcoin_core_rpc.Transport.Checks.{assert_valid_max_body_size, assert_valid_timeout, split_url}
use bitcoin_core_rpc.Transport.Exchange.{
  Attempt, Opened, Surroundings, answered, http_request, open_failed, open_raised, raised,
  read_response, response, tried, urlopen_transport,
}
use bitcoin_core_rpc.Transport.Exchange.Bounds.{
  HttpOutcomeOr, IsIoError, IsPackageError, ReadsRaiseIo, fetch_error-IsPackageError,
  limit-IsPackageError, read_bounded-raise, timeout-IsPackageError, url-IsPackageError,
}
use bitcoin_core_rpc.Transport.Exchange.Outcome.{http_request-HttpOutcomeOr}
use bitcoin_core_rpc.Transport.Read.{Delivers, Source, read_bounded}
use bitcoin_core_rpc.Transport.Read.Bounded.{assert_valid_max_body_size-ok}
use bitcoin_core_rpc.Value.{Scalar, int}

-- The opener raised this, and it is no error of the connection.
abbrev pub OpenPassed : {S : Type 0} → (ℕ → Opened S) → Exception → Type 0
OpenPassed opener e =
    (d : ℕ) × (opener d ≡ open_raised e)
    × ((is_instance e os_error || is_instance e http_exception) ≡ false)

-- what a transport over the opener raises
IsAllowed : {S : Type 0} → (ℕ → Opened S) → Exception → Type 0
IsAllowed opener e = IsIoError e ⊎ (IsPackageError e ⊎ OpenPassed opener e)

tried-raised :
    {A S : Type 0} (opener : ℕ → Opened S) (m : Result A) (next : A → Attempt S) (e : Exception)
    → tried m next ≡ raised e
    → ((x : Exception) → m ≡ raise x → IsAllowed opener x)
    → ((a : A) → m ≡ ok a → next a ≡ raised e → IsAllowed opener e)
    → IsAllowed opener e
unfolding tried
tried-raised opener (raise x) next e h refused goes_on =
    let same : x ≡ e = ground arith in refused e (ap raise same)
tried-raised opener (ok a) next e h refused goes_on = goes_on a refl h

read_response-raised :
    {S : Type 0} (source : Source S) (around : Surroundings)
    → ReadsRaiseIo source
    → (opener : ℕ → Opened S) (limit deadline d : ℕ) (e : Exception)
    → read_response source around (int (pos limit)) deadline (opener d) ≡ raised e
    → IsAllowed opener e
unfolding read_response IsAllowed
read_response-raised {S} source around io opener limit deadline d e = go (opener d) refl
  where
    go :
        (opened : Opened S)
        → opener d ≡ opened
        → read_response source around (int (pos limit)) deadline opened ≡ raised e
        → IsIoError e ⊎ (IsPackageError e ⊎ OpenPassed opener e)
    go (open_raised x) q h =
        let same : x ≡ e = ground arith in
        elim (Bool-cases (is_instance e os_error || is_instance e http_exception)) [
          | inl y ↦ inl y
          | inr y ↦ inr (inr (d, q ∙ ap open_raised same, y))
        ]
    go (open_failed code announced s) q h = absurd (ground arith)
    go (response status announced s) q h =
        tried-raised opener (read_bounded source (int (pos limit)) deadline false announced s).0
          (answered status) e h
          (λ x r. elim (read_bounded-raise source io limit deadline false announced s x r) [
            | inl f ↦ inr (inl (fetch_error-IsPackageError x f))
            | inr i ↦ inl i
          ])
          (λ body r k. absurd (ground arith))

urlopen_transport-raised :
    {S : Type 0} (source : Source S) (around : Surroundings) (opener : ℕ → Opened S)
    → ReadsRaiseIo source
    → (url : Text) (timeout max_body_size : Scalar) (e : Exception)
    → urlopen_transport source around opener url timeout max_body_size ≡ raised e
    → IsAllowed opener e
unfolding urlopen_transport IsAllowed
urlopen_transport-raised source around opener io url t m e h =
    tried-raised opener (assert_valid_timeout (codes "http timeout") t) _ e h
      (λ x q. inr (inl (timeout-IsPackageError (codes "http timeout") t x q)))
      (λ duration q h'.
        tried-raised opener (assert_valid_max_body_size m) _ e h'
          (λ x r. inr (inl (limit-IsPackageError m x r)))
          (λ limit r h''.
            tried-raised opener (split_url around.unicode around.urlsplit url) _ e h''
              (λ x u. inr (inl (url-IsPackageError around.unicode around.urlsplit url x u)))
              (λ endpoint u k.
                let sized = assert_valid_max_body_size-ok m limit r in
                read_response-raised source around io opener limit (around.started + duration)
                  duration e
                  (subst
                    (λ size.
                      read_response source around size (around.started + duration) (opener duration)
                      ≡ raised e)
                    sized k))))

-- `http_request` over the default transport returns a status and a body within the bounds, or it
-- raises the package's own exceptions, or what the opener raised that is no `OSError` and no
-- `HTTPException`, as the `UnicodeError` of a host that cannot be looked up is. The conditions are
-- what `read1` documents, and that the reads raise errors of the connection.
pub urlopen_request-HttpOutcomeOr :
    {S : Type 0} (source : Source S) (around : Surroundings) (contents : S → Bytes)
    → Delivers source contents
    → ReadsRaiseIo source
    → (opener : ℕ → Opened S) (url : Text) (headers : List (Scalar × Scalar))
      (timeout max_body_size : Scalar)
    → HttpOutcomeOr (OpenPassed opener) max_body_size (
        http_request source around
          (λ d l. urlopen_transport source around opener url timeout max_body_size)
          url
          headers
          timeout
          max_body_size)
unfolding IsAllowed
urlopen_request-HttpOutcomeOr source around contents delivers io opener url headers t m =
    http_request-HttpOutcomeOr (OpenPassed opener) source around contents delivers io
      (λ d l. urlopen_transport source around opener url t m)
      (λ d l e q. urlopen_transport-raised source around opener io url t m e q) url headers t m
