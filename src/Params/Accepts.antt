-- ===== src/Params/Accepts.antt =====
-- What `_assert_json_params` accepts, said of the graph of objects.
use mathlib.Core.Path.{subst}
use bitcoin_core_rpc.Errors.{>>-eq-ok, Result, Result-cases, ok}
use bitcoin_core_rpc.Params.{
  Heap, Object, Param, assert_json_params, assert_json_params_at, assert_no_cycle, contains,
  dict_object, for_items, for_members, for_object, is_str, list_object, max_params_depth, plain,
  ref, tuple_object,
}
use bitcoin_core_rpc.Params.Reach.{
  FitsWithin, HasNames, IsJsonNode, IsJsonScalar, NamesAreText, Reaches, held, values,
}
use bitcoin_core_rpc.Params.Scalars.{json_scalar}
use bitcoin_core_rpc.Prelude.{
  ==_iff, Bool-cases, In, List, Text, [], arith, false, inl, inr, refl, suc, sym, true, zero, ℕ,
  ◌+◌, ◌<◌, ◌==◌, ◌↔◌, ◌∷◌, ◌≡◌, ◌≤◌,
}
use bitcoin_core_rpc.Value.{Scalar, decimal, decimal_number, finite, float, str}

json_scalar-IsJsonScalar : (s : Scalar) → json_scalar s ≡ ok true → IsJsonScalar s
unfolding json_scalar
json_scalar-IsJsonScalar (float (finite u)) h = (u, refl)
json_scalar-IsJsonScalar (decimal_number (decimal n c e)) h = (n, c, e, refl)
json_scalar-IsJsonScalar _ h = ground arith

IsJsonScalar-json_scalar : (s : Scalar) → IsJsonScalar s → json_scalar s ≡ ok true
unfolding json_scalar
IsJsonScalar-json_scalar (float f) (u, e) = rw (e, json_scalar)
IsJsonScalar-json_scalar (decimal_number d) (n, c, x, e) = rw (e, json_scalar)
IsJsonScalar-json_scalar _ h = ground arith

is_str-text : (p : Param) → is_str p ≡ true → (s : Text) × (p ≡ plain (str s))
is_str-text (plain (str s)) h = (s, refl)
is_str-text _ h = absurd (ground arith)

module _ (check : Param → Result (Unit {0})) where
  for_items-ok :
      (items : List Param) (c : Param)
      → for_items check items ≡ ok tt
      → In c items
      → check c ≡ ok tt
  unfolding for_items
  for_items-ok [] c h i = elim i [ ]
  for_items-ok (x ∷ xs) c h i =
      let (a, b) = >>-eq-ok (check x) (for_items check xs) h in
      elim i [ inl e ↦ rw e a | inr j ↦ for_items-ok xs c b j ]

  for_items_all :
      (items : List Param)
      → ((c : Param) → In c items → check c ≡ ok tt)
      → for_items check items ≡ ok tt
  unfolding for_items
  for_items_all [] all_ok = refl
  for_items_all (x ∷ xs) all_ok =
      rw (all_ok x (inl refl)) (for_items_all xs (λ c i. all_ok c (inr i)))

  for_members-ok :
      (members : List (Param × Param))
      → for_members check members ≡ ok tt
      → NamesAreText members × (for_items check (values members) ≡ ok tt)
  unfolding for_members for_items
  for_members-ok [] h = (tt, refl)
  for_members-ok ((plain (str s), item) ∷ rest) h =
      let (a, b) = >>-eq-ok (check item) (for_members check rest) h in
      let (n, i) = for_members-ok rest b in (((s, refl), n), rw a i)
  for_members-ok ((_, item) ∷ rest) h = absurd (ground arith)

  for_members_all :
      (members : List (Param × Param))
      → NamesAreText members
      → for_items check (values members) ≡ ok tt
      → for_members check members ≡ ok tt
  unfolding for_members for_items
  for_members_all [] n h = refl
  for_members_all ((name, item) ∷ rest) ((s, e), n) h =
      let (a, b) = >>-eq-ok (check item) (for_items check (values rest)) h in
      rw (e, a) (for_members_all rest n b)

module _ (check : Param → Result (Unit {0})) where
  -- an object is accepted exactly when its names are text and all that it holds is accepted
  for_object-ok :
      (o : Object)
      → for_object check o ≡ ok tt
      → HasNames o × ((c : Param) → In c (held o) → check c ≡ ok tt)
  unfolding for_object
  for_object-ok (list_object items) h = (tt, λ c. for_items-ok check items c h)
  for_object-ok (tuple_object items) h = (tt, λ c. for_items-ok check items c h)
  for_object-ok (dict_object members) h =
      let (n, i) = for_members-ok check members h in
      (n, λ c. for_items-ok check (values members) c i)

  for_object_all :
      (o : Object)
      → HasNames o
      → ((c : Param) → In c (held o) → check c ≡ ok tt)
      → for_object check o ≡ ok tt
  unfolding for_object
  for_object_all (list_object items) n f = for_items_all check items f
  for_object_all (tuple_object items) n f = for_items_all check items f
  for_object_all (dict_object members) n f =
      for_members_all check members n (for_items_all check (values members) f)

module _ (heap : Heap) where
  accepted_scalar :
      (left : ℕ) (enclosing : List ℕ) (s : Scalar)
      → assert_json_params_at heap (suc left) enclosing (plain s) ≡ ok tt
      → json_scalar s ≡ ok true
  unfolding assert_json_params_at
  accepted_scalar left enclosing s h = elim (Result-cases (json_scalar s)) [
    | inl (true, e) ↦ e
    | inl (false, e) ↦ let q = rw (e, assert_json_params_at) at h in cc
    | inr (x, e) ↦ let q = rw (e, assert_json_params_at) at h in cc
  ]

  accepted_object :
      (left : ℕ) (enclosing : List ℕ) (a : ℕ)
      → assert_json_params_at heap (suc left) enclosing (ref a) ≡ ok tt
      → for_object (assert_json_params_at heap left (a ∷ enclosing)) (heap a) ≡ ok tt
  unfolding assert_json_params_at assert_no_cycle
  accepted_object left enclosing a h =
      (>>-eq-ok (assert_no_cycle a enclosing)
        (for_object (assert_json_params_at heap left (a ∷ enclosing)) (heap a)) h).1

  assert_json_params_at-Fits :
      (left : ℕ) (enclosing : List ℕ) (v : Param)
      → assert_json_params_at heap left enclosing v ≡ ok tt
      → (k : ℕ) (w : Param) → Reaches heap v k w
      → (k < left) × IsJsonNode heap w
  unfolding assert_json_params_at
  assert_json_params_at-Fits zero enc v h k w r = absurd (ground arith)
  assert_json_params_at-Fits (suc left) enc (plain s) h zero w r = (
    omega arith,
    subst (IsJsonNode heap) r (json_scalar-IsJsonScalar s (accepted_scalar left enc s h)),
  )
  assert_json_params_at-Fits (suc left) enc (plain s) h (suc k) w r = elim r [ ]
  assert_json_params_at-Fits (suc left) enc (ref a) h zero w r = (
    omega arith,
    subst (IsJsonNode heap) r (for_object-ok _ (heap a) (accepted_object left enc a h)).0,
  )
  assert_json_params_at-Fits (suc left) enc (ref a) h (suc k) w (c, i, r) =
      let ok_c = (for_object-ok _ (heap a) (accepted_object left enc a h)).1 c i in
      let (lt, node) = assert_json_params_at-Fits left (a ∷ enc) c ok_c k w r in (omega arith, node)

  Reaches-trans :
      (j : ℕ) (v u w : Param) (k : ℕ)
      → Reaches heap v j u
      → Reaches heap u k w
      → (m : ℕ) × (m ≡ j + k) × Reaches heap v m w
  Reaches-trans zero v u w k p q = (k, omega arith, subst (λ x. Reaches heap x k w) (sym p) q)
  Reaches-trans (suc j) (plain s) u w k p q = elim p [ ]
  Reaches-trans (suc j) (ref a) u w k (c, i, r) q =
      let (m, e, t) = Reaches-trans j c u w k r q in (suc m, omega arith, (c, i, t))

  -- what holds itself is reached at any depth
  cycle_unbounded :
      (v : Param) (k n : ℕ) → Reaches heap v (suc k) v → (m : ℕ) × (n ≤ m) × Reaches heap v m v
  cycle_unbounded v k zero r = (0, omega arith, refl)
  cycle_unbounded v k (suc n) r =
      let (m, le, q) = cycle_unbounded v k n r in
      let (l, e, t) = Reaches-trans (suc k) v v v m r q in (l, omega arith, t)

  above_child :
      (enclosing : List ℕ) (a : ℕ) (c : Param)
      → In c (held (heap a))
      → ((b : ℕ) → contains enclosing b ≡ true → (k : ℕ) × Reaches heap (ref b) (suc k) (ref a))
      → (b : ℕ) → contains (a ∷ enclosing) b ≡ true
      → (k : ℕ) × Reaches heap (ref b) (suc k) c
  above_child enc a c i above b h = elim (Bool-cases (a == b)) [
    | inl e ↦
        subst (λ x. (k : ℕ) × Reaches heap (ref x) (suc k) c) ((==_iff a b).0 e) (0, (c, i, refl))
    | inr e ↦
        let (k, r) = above b (ground arith) in
        let (m, q, t) = Reaches-trans (suc k) (ref b) (ref a) c 1 r (c, i, refl) in
        let e' : m ≡ suc (suc k) = omega arith in
        (suc k, subst (λ x. Reaches heap (ref b) x c) e' t)
  ]

  Fits-assert_json_params_at :
      (left : ℕ) (enclosing : List ℕ) (v : Param)
      → ((k : ℕ) (w : Param) → Reaches heap v k w → (k < left) × IsJsonNode heap w)
      → ((b : ℕ) → contains enclosing b ≡ true → (k : ℕ) × Reaches heap (ref b) (suc k) v)
      → assert_json_params_at heap left enclosing v ≡ ok tt
  unfolding assert_json_params_at assert_no_cycle
  Fits-assert_json_params_at zero enc v fits above = absurd (omega (arith, (fits 0 v refl).0))
  Fits-assert_json_params_at (suc left) enc (plain s) fits above =
      rw (assert_json_params_at, IsJsonScalar-json_scalar s (fits 0 (plain s) refl).1)
  Fits-assert_json_params_at (suc left) enc (ref a) fits above =
      elim (Bool-cases (contains enc a)) [
        | inl e ↦
            let (k, r) = above a e in
            let (m, le, q) = cycle_unbounded (ref a) k (suc left) r in
            absurd (omega (arith, (fits m (ref a) q).0))
        | inr e ↦
            let inside = λ (c : Param) (i : In c (held (heap a))).
              Fits-assert_json_params_at left (a ∷ enc) c
                (λ k w r. let (lt, node) = fits (suc k) w (c, i, r) in (omega arith, node))
                (above_child enc a c i above) in
            rw (assert_no_cycle, e) (for_object_all _ (heap a) (fits 0 (ref a) refl).1 inside)
      ]

-- The parameters are accepted exactly when all that they hold, at any depth, is json, and nothing in
-- them stands more than 100 containers deep: a value that holds itself is refused, and one that is
-- held twice is not.
pub assert_json_params-ok_iff :
    (heap : Heap) (v : Param)
    → (assert_json_params heap v ≡ ok tt) ↔ FitsWithin max_params_depth heap v
unfolding assert_json_params
assert_json_params-ok_iff heap v = (
  λ h k w r.
      let (lt, node) = assert_json_params_at-Fits heap 101 [] v h k w r in (omega arith, node),
  λ fits.
      Fits-assert_json_params_at heap 101 [] v
        (λ k w r. let (le, node) = fits k w r in (omega arith, node))
        (λ b h. absurd (ground arith)),
)
