-- ===== src/Tests/Params.antt =====
-- Runs of the checks and the writing of parameters of src/bitcoin_core_rpc/client.py.
use bitcoin_core_rpc.Errors.{btc_value_error, ok, params_cycle, raise}
use bitcoin_core_rpc.Params.{
  Heap, Interpreter, assert_json_params, assert_json_params_at, assert_no_cycle, for_items,
  for_object, list_object, max_params_depth, plain, ref, request_json, request_json_at, write_items,
  write_object, write_scalar,
}
use bitcoin_core_rpc.Params.Accepts.{assert_json_params-ok_iff}
use bitcoin_core_rpc.Params.Reach.{FitsWithin}
use bitcoin_core_rpc.Params.Scalars.{dumps, dumps_int, json_scalar}
use bitcoin_core_rpc.Prelude.{
  [], codes, if◌then◌else◌, pos, refl, show_ℕ, show_ℤ, true, ◌==◌, ◌↔◌, ◌∷◌, ◌≡◌,
}
use bitcoin_core_rpc.Value.{int}

-- a list that holds one list twice
abbrev pub shared_heap : Heap
shared_heap a =
    if a == 0 then list_object (ref 1 ∷ ref 1 ∷ []) else list_object (plain (int (pos 5)) ∷ [])

-- a list that holds itself
abbrev cyclic_heap : Heap
cyclic_heap a = list_object (ref 0 ∷ [])

abbrev pub cpython : Interpreter
cpython = record {
  levels = 1000;
  has_room = λ heap v. true;
  max_str_digits = 4300;
  float_repr = λ u. codes "0.1";
}

cycle_refused : assert_json_params cyclic_heap (ref 0) ≡ raise (btc_value_error params_cycle)
unfolding assert_json_params assert_json_params_at assert_no_cycle for_object for_items json_scalar
cycle_refused = refl

assert_json_params-ok_iff_example :
    (assert_json_params shared_heap (ref 0) ≡ ok tt)
    ↔ FitsWithin max_params_depth shared_heap (ref 0)
assert_json_params-ok_iff_example = assert_json_params-ok_iff shared_heap (ref 0)

written_run : request_json cpython shared_heap (ref 0) ≡ ok (codes "[[5], [5]]")
unfolding request_json_at write_object write_items write_scalar dumps dumps_int show_ℕ show_ℤ
written_run = refl
