-- ===== src/Params/Reach.antt =====
-- What parameters hold, and what json can carry of it: the description that the walk of
-- src/bitcoin_core_rpc/client.py is held to.
use bitcoin_core_rpc.Params.{
  Heap, Object, Param, dict_object, list_object, plain, ref, tuple_object,
}
use bitcoin_core_rpc.Prelude.{Bool, In, List, Text, [], suc, zero, ℕ, ℤ, ◌∷◌, ◌≡◌, ◌≤◌}
use bitcoin_core_rpc.Value.{
  Scalar, bool, decimal, decimal_number, finite, float, int, none_value, str,
}

-- the values that an object holds
abbrev pub values : List (Param × Param) → List Param
values [] = []
values ((name, item) ∷ rest) = item ∷ values rest

abbrev pub held : Object → List Param
held (list_object items) = items
held (tuple_object items) = items
held (dict_object members) = values members

-- `w` stands `k` containers inside `v`
abbrev pub Reaches : Heap → Param → ℕ → Param → Type 0
Reaches heap v zero w = v ≡ w
Reaches heap (plain s) (suc k) w = ⊥
Reaches heap (ref a) (suc k) w = (c : Param) × In c (held (heap a)) × Reaches heap c k w

-- json has a text for the scalar
abbrev pub IsJsonScalar : Scalar → Type 0
IsJsonScalar none_value = Unit
IsJsonScalar (bool b) = Unit
IsJsonScalar (int n) = Unit
IsJsonScalar (str s) = Unit
IsJsonScalar (float f) = (units : ℤ) × (f ≡ finite units)
IsJsonScalar (decimal_number d) =
    (negative : Bool) × (coefficient : ℕ) × (exponent : ℤ) × (d
      ≡ decimal negative coefficient exponent)
IsJsonScalar _ = ⊥

abbrev pub NamesAreText : List (Param × Param) → Type 0
NamesAreText [] = Unit
NamesAreText ((name, item) ∷ rest) = ((s : Text) × (name ≡ plain (str s))) × NamesAreText rest

abbrev pub HasNames : Object → Type 0
HasNames (list_object items) = Unit
HasNames (tuple_object items) = Unit
HasNames (dict_object members) = NamesAreText members

-- what json asks of one value, whatever it holds
abbrev pub IsJsonNode : Heap → Param → Type 0
IsJsonNode heap (plain s) = IsJsonScalar s
IsJsonNode heap (ref a) = HasNames (heap a)

-- All that a value holds, at any depth, is json, and nothing stands more than `n` containers inside.
abbrev pub FitsWithin : ℕ → Heap → Param → Type 0
FitsWithin n heap v = (k : ℕ) (w : Param) → Reaches heap v k w → (k ≤ n) × IsJsonNode heap w
