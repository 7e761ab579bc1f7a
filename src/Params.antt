-- ===== src/Params.antt =====
-- src/bitcoin_core_rpc/client.py: the parameters of a call, from what the caller passes to the text
-- of the request (`_params_member` to `_decimal_json`). Lists, tuples and dicts are objects at
-- addresses, which is what `id` answers with, so a value may hold itself. The `path` that the
-- source carries along is for messages only, and is left out.
pub mod Scalars
pub mod Reach
pub mod Accepts
pub mod Written
unfoldable pub use Scalars.{json_scalar, dumps, decimal_json, format_f, adjusted}
use bitcoin_core_rpc.Errors.{
  Result, btc_type_error, btc_value_error, failure, library, ok, params_cycle,
  params_name_not_string, params_neither, params_no_json_value, params_no_sequence, params_too_deep,
  raise, refuse, ◌>>=◌, ◌>>◌,
}
use bitcoin_core_rpc.Errors.Classes.{recursion_error}
use bitcoin_core_rpc.Params.Scalars.{dumps_str}
use bitcoin_core_rpc.Prelude.{
  Bool, List, Text, [], codes, false, if◌then◌else◌, not, suc, true, zero, ℕ, ℤ, ◌++◌, ◌+◌, ◌==◌,
  ◌||◌, ◌∷◌,
}
use bitcoin_core_rpc.Transport.Session.{write}
use bitcoin_core_rpc.Value.{Scalar, decimal_number, str}

pub data Param : Type 0 where
  plain : Scalar → Param
  ref : (address : ℕ) → Param

pub data Object : Type 0 where
  list_object : List Param → Object
  tuple_object : List Param → Object
  dict_object : List (Param × Param) → Object

abbrev pub Heap : Type 0
Heap = ℕ → Object

-- the heap after `object` is made at a fresh address
abbrev pub store : Heap → ℕ → Object → Heap
store heap address object a = if a == address then object else heap a

-- What a caller passes as `params`, by the tests of `_params_member`. A `Mapping` and a `Sequence`
-- show what iterating over them gives.
pub data ParamsArgument : Type 0 where
  absent : ParamsArgument
  mapping : List (Param × Param) → ParamsArgument
  text_like : (kind : Text) → ParamsArgument
  sequence : List Param → ParamsArgument
  neither : (kind : Text) → ParamsArgument

-- `_params_member`: a new list or dict
unfoldable pub params_member : ParamsArgument → Result Object
params_member absent = ok (list_object [])
params_member (mapping members) = ok (dict_object members)
params_member (text_like kind) = raise (btc_type_error params_no_sequence)
params_member (sequence items) = ok (list_object items)
params_member (neither kind) = raise (btc_type_error params_neither)

abbrev pub max_params_depth : ℕ
max_params_depth = 100

-- isinstance(name, str)
abbrev pub is_str : Param → Bool
is_str (plain (str s)) = true
is_str _ = false

abbrev pub contains : List ℕ → ℕ → Bool
contains [] a = false
contains (x ∷ xs) a = x == a || contains xs a

-- the loop over the items of a list or tuple
unfoldable pub for_items : (Param → Result (Unit {0})) → List Param → Result (Unit {0})
for_items check [] = ok tt
for_items check (item ∷ rest) = check item >> for_items check rest

-- the loop over the members of a dict, whose names have to be strings
unfoldable pub for_members : (Param → Result (Unit {0})) → List (Param × Param) → Result (Unit {0})
for_members check [] = ok tt
for_members check ((name, item) ∷ rest) =
    refuse (not (is_str name)) (btc_type_error params_name_not_string)
    >> (check item >> for_members check rest)

unfoldable pub for_object : (Param → Result (Unit {0})) → Object → Result (Unit {0})
unfolding for_items for_members
for_object check (list_object items) = for_items check items
for_object check (tuple_object items) = for_items check items
for_object check (dict_object members) = for_members check members

-- `_assert_no_cycle`
unfoldable pub assert_no_cycle : ℕ → List ℕ → Result (Unit {0})
assert_no_cycle address enclosing =
    refuse (contains enclosing address) (btc_value_error params_cycle)

-- `_assert_json_params` at depth `max_params_depth + 1 - left`: the test on the depth is whether
-- `left` is zero.
unfoldable pub assert_json_params_at : Heap → ℕ → List ℕ → Param → Result (Unit {0})
unfolding json_scalar assert_no_cycle for_object
assert_json_params_at heap zero enclosing value = raise (btc_value_error params_too_deep)
assert_json_params_at heap (suc left) enclosing (plain s) = do
  is_scalar ← json_scalar s
  refuse (not is_scalar) (btc_type_error params_no_json_value)
assert_json_params_at heap (suc left) enclosing (ref address) =
    assert_no_cycle address enclosing
    >> for_object (assert_json_params_at heap left (address ∷ enclosing)) (heap address)

-- `_assert_json_params`, at its defaults
unfoldable pub assert_json_params : Heap → Param → Result (Unit {0})
unfolding assert_json_params_at
assert_json_params heap = assert_json_params_at heap (max_params_depth + 1) []

-- ", ".join(texts)
abbrev pub join : List Text → Text
join [] = []
join (t ∷ []) = t
join (t ∷ u ∷ rest) = t ++ (codes ", " ++ join (u ∷ rest))

-- the loops of `_request_json`
unfoldable pub write_items : (Param → Result Text) → List Param → Result (List Text)
write_items write [] = ok []
write_items write (item ∷ rest) = do
  text ← write item
  texts ← write_items write rest
  ok (text ∷ texts)

unfoldable pub write_members : (Param → Result Text) → List (Param × Param) → Result (List Text)
write_members write [] = ok []
write_members write ((plain (str name), item) ∷ rest) = do
  text ← write item
  texts ← write_members write rest
  ok ((dumps_str name ++ (codes ": " ++ text)) ∷ texts)
write_members write ((_, item) ∷ rest) = raise (btc_type_error params_name_not_string)

abbrev pub bracketed : ℕ → ℕ → Result (List Text) → Result Text
bracketed open_ close_ texts = texts >>= λ ts. ok (open_ ∷ (join ts ++ close_ ∷ []))

unfoldable pub write_object : (Param → Result Text) → Object → Result Text
unfolding write_items write_members
write_object write (list_object items) = bracketed b'[' b']' (write_items write items)
write_object write (tuple_object items) = bracketed b'[' b']' (write_items write items)
write_object write (dict_object members) = bracketed b'{' b'}' (write_members write members)

-- What the interpreter is set to: how many levels of nested values its stack still has room to
-- write, with the frames that json.dumps takes for itself, and whether it has room for the walk over
-- a value; the digits that it converts between text and `int` (zero for no limit), and how it
-- writes a finite float.
pub record Interpreter : Type 0 where
  pub levels : ℕ
  pub has_room : Heap → Param → Bool
  pub max_str_digits : ℕ
  pub float_repr : ℤ → Text

unfoldable pub write_scalar : Interpreter → Scalar → Result Text
unfolding decimal_json dumps
write_scalar python (decimal_number d) = decimal_json python.max_str_digits d
write_scalar python s = dumps python.float_repr python.max_str_digits s

-- `_assert_json_params` on the stack that there is, where Python raises `RecursionError` for want
-- of room
unfoldable pub walked : Interpreter → Heap → Param → Result (Unit {0})
unfolding assert_json_params
walked python heap value =
    if python.has_room heap value
    then assert_json_params heap value
    else raise (failure recursion_error library)

-- `_request_json`; where the stack has no room for one more level Python raises
unfoldable pub request_json_at : Interpreter → Heap → ℕ → Param → Result Text
unfolding write_scalar write_object
request_json_at python heap zero value = raise (failure recursion_error library)
request_json_at python heap (suc levels) (plain s) = write_scalar python s
request_json_at python heap (suc levels) (ref address) =
    write_object (request_json_at python heap levels) (heap address)

abbrev pub request_json : Interpreter → Heap → Param → Result Text
request_json python heap = request_json_at python heap python.levels
