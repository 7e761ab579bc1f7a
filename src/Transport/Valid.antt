-- ===== src/Transport/Valid.antt =====
-- What the checks of an exchange's arguments let through.
use bitcoin_core_rpc.Errors.{>>-eq-ok, ok}
use bitcoin_core_rpc.Prelude.{
  List, Text, [], all, ap, arith, codes, false, has_char, if◌then◌else◌, length, negsuc, pos, refl,
  some, sym, true, ℕ, ℤ, ◌*◌, ◌++◌, ◌+◌, ◌<◌, ◌==◌, ◌↔◌, ◌∙◌, ◌∷◌, ◌≡◌, ◌≤◌,
}
use bitcoin_core_rpc.Transport.Checks.{
  assert_valid_headers, assert_valid_timeout, check_header, is_header_name, is_token_char,
  max_timeout, timeout_units, units_per_second,
}
use bitcoin_core_rpc.Value.{Scalar, finite, float, infinity, int, nan, str}

-- A duration that the socket layer is given: a positive number of seconds within the limit, in
-- units of 2^-1074 s.
pub data IsDuration : Scalar → ℕ → Type 0 where
  seconds :
      {s : Scalar} {units : ℕ} (n : ℕ)
      → s ≡ int (pos n)
      → units ≡ n * units_per_second
      → 0 < n
      → units ≤ max_timeout
      → IsDuration s units
  exact :
      {s : Scalar} {units : ℕ}
      → s ≡ float (finite (pos units))
      → 0 < units
      → units ≤ max_timeout
      → IsDuration s units

timeout_units-some :
    (n : ℤ) (unit d : ℕ)
    → timeout_units n unit ≡ some d
    → (k : ℕ) × (n ≡ pos k) × (d ≡ k * unit) × (0 < k) × (d ≤ max_timeout)
unfolding timeout_units
timeout_units-some (pos k) unit d h = (k, refl, ground arith, ground arith, ground arith)
timeout_units-some (negsuc k) unit d h = absurd (ground arith)

assert_valid_timeout-IsDuration :
    (what : Text) (s : Scalar) (d : ℕ) → assert_valid_timeout what s ≡ ok d → IsDuration s d
unfolding assert_valid_timeout
assert_valid_timeout-IsDuration what (int n) d h =
    let (k, e, m, lo, hi) = timeout_units-some n units_per_second d (ground arith) in
    seconds k (ap int e) m lo hi
assert_valid_timeout-IsDuration what (float (finite u)) d h =
    let (k, e, m, lo, hi) = timeout_units-some u 1 d (ground arith) in
    let same : d ≡ k = omega arith in
    exact (ap (λ x. float (finite x)) (e ∙ ap pos (sym same))) (omega arith) hi
assert_valid_timeout-IsDuration what (float nan) d h = absurd (ground arith)
assert_valid_timeout-IsDuration what (float (infinity s)) d h = absurd (ground arith)
assert_valid_timeout-IsDuration what s d h = absurd (ground arith)

-- how `http.client` writes the headers: a line each
abbrev pub header_line : Text → Text → Text
header_line name value = name ++ (codes ": " ++ (value ++ (13 ∷ 10 ∷ [])))

pub header_block : List (Scalar × Scalar) → Text
header_block [] = []
header_block ((str name, str value) ∷ rest) = header_line name value ++ header_block rest
header_block ((_, _) ∷ rest) = header_block rest

unfoldable pub count : ℕ → Text → ℕ
count c [] = 0
count c (x ∷ xs) = (if x == c then 1 else 0) + count c xs

count-append : (c : ℕ) (xs ys : Text) → count c (xs ++ ys) ≡ count c xs + count c ys
unfolding count
count-append c [] ys = omega arith
count-append c (x ∷ xs) ys = omega (arith, count-append c xs ys)

count-token : (cs : Text) → all is_token_char cs ≡ true → (count 10 cs ≡ 0) × (count 13 cs ≡ 0)
unfolding count is_token_char
count-token [] h = (refl, refl)
count-token (c ∷ cs) h = ground (arith, count-token cs)

count-value : (c : ℕ) (cs : Text) → has_char c cs ≡ false → count c cs ≡ 0
unfolding count
count-value c [] h = refl
count-value c (x ∷ xs) h = ground (arith, count-value c xs)

count-line :
    (c : ℕ) (name value : Text)
    → count c name ≡ 0
    → count c value ≡ 0
    → count c (header_line name value) ≡ count c (codes ": ") + count c (13 ∷ 10 ∷ [])
count-line c name value n v =
    rw (count-append c name _, count-append c (codes ": ") _, count-append c value _, n, v)
      (omega arith)

accepted_header :
    (name value : Text)
    → check_header (str name) (str value) ≡ ok tt
    → (all is_token_char name ≡ true) × (has_char 13 value ≡ false) × (has_char 10 value ≡ false)
unfolding check_header is_header_name
accepted_header [] value h = absurd (ground arith)
accepted_header (c ∷ cs) value h = ground arith

check_header-count :
    (name value : Text)
    → check_header (str name) (str value) ≡ ok tt
    → (count 10 (header_line name value) ≡ 1) × (count 13 (header_line name value) ≡ 1)
unfolding count
check_header-count name value h =
    let (t, r, n) = accepted_header name value h in
    let (a, b) = count-token name t in
    (
      count-line 10 name value a (count-value 10 value n),
      count-line 13 name value b (count-value 13 value r),
    )

-- Headers that were accepted are as many lines as there are headers: no name or value ends a line
-- or begins another.
pub assert_valid_headers-count :
    (headers : List (Scalar × Scalar))
    → assert_valid_headers headers ≡ ok tt
    → (count 10 (header_block headers) ≡ length headers)
      × (count 13 (header_block headers) ≡ length headers)
unfolding assert_valid_headers header_block count
assert_valid_headers-count [] h = (refl, refl)
assert_valid_headers-count ((str name, str value) ∷ rest) h =
    let (c, r) = >>-eq-ok (check_header (str name) (str value)) (assert_valid_headers rest) h in
    let (x, y) = check_header-count name value c in
    let (a, b) = assert_valid_headers-count rest r in
    (
      rw (count-append 10 (header_line name value) (header_block rest)) (omega arith),
      rw (count-append 13 (header_line name value) (header_block rest)) (omega arith),
    )
assert_valid_headers-count ((name, value) ∷ rest) h =
    let (c, r) = >>-eq-ok (check_header name value) (assert_valid_headers rest) h in
    absurd (ground (arith, check_header))

IsDuration-assert_valid_timeout :
    (what : Text) {s : Scalar} {d : ℕ} → IsDuration s d → assert_valid_timeout what s ≡ ok d
unfolding assert_valid_timeout timeout_units
IsDuration-assert_valid_timeout what (seconds n e m lo hi) = rw e (ground arith)
IsDuration-assert_valid_timeout what (exact e lo hi) = rw e (ground arith)

-- A timeout is accepted, as `d` units of time, exactly when it is an `int` or a finite `float`,
-- positive and at most `_MAX_TIMEOUT`: a `bool`, a nan and an infinity are not.
pub assert_valid_timeout-ok_iff :
    (what : Text) (s : Scalar) (d : ℕ) → (assert_valid_timeout what s ≡ ok d) ↔ IsDuration s d
assert_valid_timeout-ok_iff what s d =
    (assert_valid_timeout-IsDuration what s d, IsDuration-assert_valid_timeout what)
