-- ===== src/Value.antt =====
-- The Python values that the package handles: scalars, finite and non-finite numbers, and the
-- trees of them that `json.loads` answers with.
use bitcoin_core_rpc.Prelude.{
  Bool, Bytes, List, Option, Text, [], codes, false, if◌then◌else◌, none, some, text_eq, true, ℕ, ℤ,
  ◌∷◌,
}

-- A finite double is a whole number of units of 2^-1074 (negative zero is zero here).
pub data Float : Type 0 where
  nan : Float
  infinity : (negative : Bool) → Float
  finite : (units : ℤ) → Float

-- A finite `Decimal` is a sign, a coefficient and an exponent of ten.
pub data Decimal : Type 0 where
  not_finite : Text → Decimal
  decimal : (negative : Bool) → (coefficient : ℕ) → (exponent : ℤ) → Decimal

-- Every value that is no container; `other` is an instance of some other class, by its name.
pub data Scalar : Type 0 where
  none_value : Scalar
  bool : Bool → Scalar
  int : ℤ → Scalar
  float : Float → Scalar
  decimal_number : Decimal → Scalar
  str : Text → Scalar
  bytes : Bytes → Scalar
  bytearray : Bytes → Scalar
  other : Text → Scalar

-- What `json.loads` returns: a `dict` is its members in order, the first of a name being the one
-- that a lookup finds.
mutual
  pub data Json : Type 0 where
    scalar : Scalar → Json
    list : Items → Json
    dict : Members → Json

  pub data Items : Type 0 where
    nil : Items
    cons : Json → Items → Items

  pub data Members : Type 0 where
    end : Members
    member : Text → Json → Members → Members

-- reply.get(name)
unfoldable pub get : Text → Members → Option Json
get name end = none
get name (member n v rest) = if text_eq n name then some v else get name rest

-- reply.get(name), `None` where the name is absent
abbrev pub get_or_none : Text → Members → Json
get_or_none name m = elim (get name m) [ none ↦ scalar none_value | some v ↦ v ]

abbrev pub items_list : Items → List Json
items_list nil = []
items_list (cons v rest) = v ∷ items_list rest

-- value == text, for a value of any type and a `str`
abbrev pub equals_text : Json → Text → Bool
equals_text (scalar (str s)) t = text_eq s t
equals_text _ t = false

-- `is None`
abbrev pub is_none_value : Json → Bool
is_none_value (scalar none_value) = true
is_none_value _ = false

-- type(value).__name__
abbrev pub scalar_type_name : Scalar → Text
scalar_type_name none_value = codes "NoneType"
scalar_type_name (bool _) = codes "bool"
scalar_type_name (int _) = codes "int"
scalar_type_name (float _) = codes "float"
scalar_type_name (decimal_number _) = codes "Decimal"
scalar_type_name (str _) = codes "str"
scalar_type_name (bytes _) = codes "bytes"
scalar_type_name (bytearray _) = codes "bytearray"
scalar_type_name (other name) = name

abbrev pub type_name : Json → Text
type_name (scalar s) = scalar_type_name s
type_name (list _) = codes "list"
type_name (dict _) = codes "dict"
