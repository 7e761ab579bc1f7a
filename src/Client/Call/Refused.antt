-- ===== src/Client/Call/Refused.antt =====
-- What `_request` of src/bitcoin_core_rpc/client.py raises.
use mathlib.Core.Path.{subst}
use bitcoin_core_rpc.Client.Call.{
  Fresh, method_text, request, request_body, request_members, timeout_of,
}
use bitcoin_core_rpc.Client.Encoding.{encode}
use bitcoin_core_rpc.Errors.{
  Exception, Result, btc_type_error, btc_value_error, class_of, is_instance, ok, params_cycle,
  params_name_not_string, params_no_json_value, params_not_carried, raise, refuse, ◌>>=◌,
}
use bitcoin_core_rpc.Errors.Classes.{
  btc_rpc_type_error, btc_rpc_value_error, recursion_error, value_error,
}
use bitcoin_core_rpc.Params.{
  Heap, Interpreter, Object, Param, ParamsArgument, absent, assert_json_params,
  assert_json_params_at, assert_no_cycle, bracketed, contains, dict_object, for_items, for_members,
  for_object, is_str, list_object, mapping, max_params_depth, neither, params_member, plain, ref,
  request_json, request_json_at, sequence, store, text_like, tuple_object, walked, write_items,
  write_members, write_object, write_scalar,
}
use bitcoin_core_rpc.Params.Scalars.{decimal_json, dumps, dumps_int, dumps_str, json_scalar}
use bitcoin_core_rpc.Prelude.{
  Bool, Bool-cases, List, Option-cases, Text, [], arith, codes, false, if◌then◌else◌, inl, inr, not,
  refl, suc, true, zero, ℕ, ◌++◌, ◌+◌, ◌||◌, ◌∷◌, ◌≡◌,
}
use bitcoin_core_rpc.Transport.Checks.{assert_valid_timeout, timeout_units}
use bitcoin_core_rpc.Transport.Session.{write}
use bitcoin_core_rpc.Value.{
  Scalar, bool, bytearray, bytes, decimal, decimal_number, finite, float, infinity, int, nan,
  none_value, not_finite, other, str,
}

-- the caller's argument is refused
abbrev pub IsRefusal : Exception → Type 0
IsRefusal e = (is_instance e btc_rpc_value_error || is_instance e btc_rpc_type_error) ≡ true

-- what writing a request raises before `_request` handles it
abbrev IsWriteError : Exception → Type 0
IsWriteError e =
    (is_instance e value_error || is_instance e recursion_error || is_instance e btc_rpc_type_error)
    ≡ true

-- Everything that a computation may raise is of this kind.
abbrev pub Raises : {A : Type 0} → (Exception → Type 0) → Result A → Type 0
Raises K r = (e : Exception) → r ≡ raise e → K e

pub Raises-bind :
    {A B : Type 0} (K : Exception → Type 0) (m : Result A) (f : A → Result B)
    → Raises K m
    → ((a : A) → Raises K (f a))
    → Raises K (m >>= f)
Raises-bind K (ok a) f h k e q = k a e q
Raises-bind K (raise x) f h k e q = h e (ground arith)

pub Raises-ok : {A : Type 0} (K : Exception → Type 0) (a : A) → Raises K (ok a)
Raises-ok K a e q = absurd (ground arith)

pub Raises-raise :
    {A : Type 0} (K : Exception → Type 0) (x : Exception) → K x → Raises {A = A} K (raise x)
Raises-raise K x k e q = let same : x ≡ e = ground arith in subst K same k

if-Raises :
    {A : Type 0} (K : Exception → Type 0) (b : Bool) (x y : Result A)
    → Raises K x
    → Raises K y
    → Raises K (if b then x else y)
if-Raises K true x y h k = h
if-Raises K false x y h k = k

pub refuse-Raises :
    (K : Exception → Type 0) (b : Bool) (x : Exception) → K x → Raises K (refuse b x)
refuse-Raises K true x k = Raises-raise K x k
refuse-Raises K false x k = Raises-ok K tt

module _ (K : Exception → Type 0) (name : K (btc_type_error params_name_not_string)) where
  for_items-Raises :
      (check : Param → Result (Unit {0})) (items : List Param)
      → ((v : Param) → Raises K (check v))
      → Raises K (for_items check items)
  unfolding for_items
  for_items-Raises check [] h = Raises-ok K tt
  for_items-Raises check (v ∷ vs) h =
      Raises-bind K (check v) _ (h v) (λ _. for_items-Raises check vs h)

  for_members-Raises :
      (check : Param → Result (Unit {0})) (members : List (Param × Param))
      → ((v : Param) → Raises K (check v))
      → Raises K (for_members check members)
  unfolding for_members
  for_members-Raises check [] h = Raises-ok K tt
  for_members-Raises check ((n, v) ∷ vs) h =
      Raises-bind K (refuse (not (is_str n)) (btc_type_error params_name_not_string)) _
        (refuse-Raises K (not (is_str n)) (btc_type_error params_name_not_string) name)
        (λ _. Raises-bind K (check v) _ (h v) (λ _. for_members-Raises check vs h))

  for_object-Raises :
      (check : Param → Result (Unit {0})) (o : Object)
      → ((v : Param) → Raises K (check v))
      → Raises K (for_object check o)
  unfolding for_object
  for_object-Raises check (list_object items) h = for_items-Raises check items h
  for_object-Raises check (tuple_object items) h = for_items-Raises check items h
  for_object-Raises check (dict_object members) h = for_members-Raises check members h

  write_items-Raises :
      (write : Param → Result Text) (items : List Param)
      → ((v : Param) → Raises K (write v))
      → Raises K (write_items write items)
  unfolding write_items
  write_items-Raises write [] h = Raises-ok K []
  write_items-Raises write (v ∷ vs) h = Raises-bind K (write v) _ (h v) (λ t.
      Raises-bind K (write_items write vs) _ (write_items-Raises write vs h)
        (λ ts. Raises-ok K (t ∷ ts)))

  write_members-Raises :
      (write : Param → Result Text) (members : List (Param × Param))
      → ((v : Param) → Raises K (write v))
      → Raises K (write_members write members)
  unfolding write_members
  write_members-Raises write [] h = Raises-ok K []
  write_members-Raises write ((plain (str n), v) ∷ vs) h = Raises-bind K (write v) _ (h v) (λ t.
      Raises-bind K (write_members write vs) _ (write_members-Raises write vs h)
        (λ ts. Raises-ok K ((dumps_str n ++ (codes ": " ++ t)) ∷ ts)))
  write_members-Raises write ((_, v) ∷ vs) h = Raises-raise K _ name

  bracketed-Raises :
      (a b : ℕ) (texts : Result (List Text)) → Raises K texts → Raises K (bracketed a b texts)
  bracketed-Raises a b texts h = Raises-bind K texts _ h (λ ts. Raises-ok K _)

  write_object-Raises :
      (write : Param → Result Text) (o : Object)
      → ((v : Param) → Raises K (write v))
      → Raises K (write_object write o)
  unfolding write_object
  write_object-Raises write (list_object items) h =
      bracketed-Raises _ _ _ (write_items-Raises write items h)
  write_object-Raises write (tuple_object items) h =
      bracketed-Raises _ _ _ (write_items-Raises write items h)
  write_object-Raises write (dict_object members) h =
      bracketed-Raises _ _ _ (write_members-Raises write members h)

json_scalar-IsRefusal : (s : Scalar) → Raises IsRefusal (json_scalar s)
unfolding json_scalar is_instance class_of
json_scalar-IsRefusal (decimal_number d) =
    if-Raises IsRefusal _ _ _ (Raises-ok IsRefusal true) (Raises-raise IsRefusal _ refl)
json_scalar-IsRefusal (float f) =
    if-Raises IsRefusal _ _ _ (Raises-ok IsRefusal true) (Raises-raise IsRefusal _ refl)
json_scalar-IsRefusal (bytes b) = Raises-raise IsRefusal _ refl
json_scalar-IsRefusal (bytearray b) = Raises-raise IsRefusal _ refl
json_scalar-IsRefusal (other name) = Raises-ok IsRefusal false
json_scalar-IsRefusal _ = Raises-ok IsRefusal true

assert_json_params_at-IsRefusal :
    (heap : Heap) (left : ℕ) (enclosing : List ℕ) (v : Param)
    → Raises IsRefusal (assert_json_params_at heap left enclosing v)
unfolding assert_json_params_at assert_no_cycle is_instance class_of
assert_json_params_at-IsRefusal heap zero enclosing v = Raises-raise IsRefusal _ refl
assert_json_params_at-IsRefusal heap (suc left) enclosing (plain s) =
    Raises-bind IsRefusal (json_scalar s) _ (json_scalar-IsRefusal s)
      (λ b. refuse-Raises IsRefusal (not b) (btc_type_error params_no_json_value) refl)
assert_json_params_at-IsRefusal heap (suc left) enclosing (ref a) =
    Raises-bind IsRefusal (assert_no_cycle a enclosing) _
      (refuse-Raises IsRefusal (contains enclosing a) (btc_value_error params_cycle) refl)
      (λ _.
        for_object-Raises IsRefusal refl _ (heap a)
          (assert_json_params_at-IsRefusal heap left (a ∷ enclosing)))

write_scalar-IsWriteError :
    (python : Interpreter) (s : Scalar) → Raises IsWriteError (write_scalar python s)
unfolding write_scalar decimal_json dumps dumps_int is_instance class_of
write_scalar-IsWriteError python (decimal_number (not_finite t)) = Raises-raise IsWriteError _ refl
write_scalar-IsWriteError python (decimal_number (decimal n c x)) =
    if-Raises IsWriteError _ _ _ (Raises-raise IsWriteError _ refl) (Raises-ok IsWriteError _)
write_scalar-IsWriteError python (int n) =
    if-Raises IsWriteError _ _ _ (Raises-raise IsWriteError _ refl) (Raises-ok IsWriteError _)
write_scalar-IsWriteError python none_value = Raises-ok IsWriteError _
write_scalar-IsWriteError python (bool b) = Raises-ok IsWriteError _
write_scalar-IsWriteError python (str t) = Raises-ok IsWriteError _
write_scalar-IsWriteError python (float (finite u)) = Raises-ok IsWriteError _
write_scalar-IsWriteError python (float nan) = Raises-raise IsWriteError _ refl
write_scalar-IsWriteError python (float (infinity n)) = Raises-raise IsWriteError _ refl
write_scalar-IsWriteError python _ = Raises-raise IsWriteError _ refl

request_json_at-IsWriteError :
    (python : Interpreter) (heap : Heap) (levels : ℕ) (v : Param)
    → Raises IsWriteError (request_json_at python heap levels v)
unfolding request_json_at is_instance class_of
request_json_at-IsWriteError python heap zero v = Raises-raise IsWriteError _ refl
request_json_at-IsWriteError python heap (suc levels) (plain s) = write_scalar-IsWriteError python s
request_json_at-IsWriteError python heap (suc levels) (ref a) =
    write_object-Raises IsWriteError refl _ (heap a)
      (request_json_at-IsWriteError python heap levels)

last_of : (a b c d : Bool) → (a || b) ≡ false → (a || b || c) ≡ true → (d || c) ≡ true
last_of a b c d h k = ground arith

request_body-IsRefusal :
    (written : Result Text) → Raises IsWriteError written → Raises IsRefusal (request_body written)
unfolding request_body
request_body-IsRefusal (ok text) law e h = elim (Option-cases (encode text)) [
  | inl q ↦
      let h' = rw (request_body, q) at h in
      Raises-raise IsRefusal (btc_value_error params_not_carried)
        (unfold is_instance class_of in refl) e h'
  | inr (b, q) ↦ let h' = rw (request_body, q) at h in absurd (ground arith)
]
request_body-IsRefusal (raise x) law e h =
    elim (Bool-cases (is_instance x value_error || is_instance x recursion_error)) [
      | inl q ↦
          let h' = rw (request_body, q) at h in
          Raises-raise IsRefusal (btc_value_error params_not_carried)
            (unfold is_instance class_of in refl) e h'
      | inr q ↦
          let h' = rw (request_body, q) at h in
          Raises-raise IsRefusal x
            (last_of (is_instance x value_error) (is_instance x recursion_error)
              (is_instance x btc_rpc_type_error) (is_instance x btc_rpc_value_error) q (law x refl))
            e h'
    ]

pub method_text-IsRefusal : (s : Scalar) → Raises IsRefusal (method_text s)
unfolding method_text is_instance class_of
method_text-IsRefusal (str m) = Raises-ok IsRefusal m
method_text-IsRefusal s = Raises-raise IsRefusal _ refl

pub timeout-IsRefusal : (what : Text) (s : Scalar) → Raises IsRefusal (assert_valid_timeout what s)
unfolding assert_valid_timeout timeout_units is_instance class_of
timeout-IsRefusal what (float (finite u)) e h = ground arith
timeout-IsRefusal what s e h = ground arith

pub params_member-IsRefusal : (p : ParamsArgument) → Raises IsRefusal (params_member p)
unfolding params_member is_instance class_of
params_member-IsRefusal absent = Raises-ok IsRefusal _
params_member-IsRefusal (mapping members) = Raises-ok IsRefusal _
params_member-IsRefusal (sequence items) = Raises-ok IsRefusal _
params_member-IsRefusal (text_like kind) = Raises-raise IsRefusal _ refl
params_member-IsRefusal (neither kind) = Raises-raise IsRefusal _ refl

pub assert_json_params-IsRefusal :
    (heap : Heap) (v : Param) → Raises IsRefusal (assert_json_params heap v)
unfolding assert_json_params
assert_json_params-IsRefusal heap v =
    assert_json_params_at-IsRefusal heap (max_params_depth + 1) [] v

-- the stack has room for every walk
abbrev pub HasRoom : Interpreter → Type 0
HasRoom python = (heap : Heap) (v : Param) → python.has_room heap v ≡ true

pub walked-IsRefusal :
    (python : Interpreter) (heap : Heap) (v : Param)
    → HasRoom python
    → Raises IsRefusal (walked python heap v)
unfolding walked
walked-IsRefusal python heap v room = rw (room heap v) (assert_json_params-IsRefusal heap v)

-- so does the writing of a request, with its handler
pub request_json-IsRefusal :
    (python : Interpreter) (heap : Heap) (v : Param)
    → Raises IsRefusal (request_body (request_json python heap v))
request_json-IsRefusal python heap v =
    request_body-IsRefusal (request_json python heap v)
      (request_json_at-IsWriteError python heap python.levels v)

-- `_request` raises `BtcRpcValueError` and `BtcRpcTypeError` only, whatever the method, the
-- parameters and the timeout are, and however little the stack has room to write and few digits the
-- interpreter converts: the `ValueError` and the `RecursionError` of the writing are handled. The
-- condition is that the stack has room for the walk over the parameters.
pub request-IsRefusal :
    (python : Interpreter) (heap : Heap) (fresh : Fresh) (request_id : Text) (method : Scalar)
    (params : ParamsArgument) (client_timeout request_timeout : Scalar)
    → HasRoom python
    → (e : Exception)
    → request python heap fresh request_id method params client_timeout request_timeout ≡ raise e
    → IsRefusal e
unfolding request
request-IsRefusal python heap fresh request_id method params client_timeout request_timeout room =
    Raises-bind IsRefusal (method_text method) _ (method_text-IsRefusal method) (λ m.
      Raises-bind IsRefusal
        (assert_valid_timeout (codes "rpc request_timeout")
          (timeout_of client_timeout request_timeout))
        _ (timeout-IsRefusal _ (timeout_of client_timeout request_timeout))
        (λ d. Raises-bind IsRefusal (params_member params) _ (params_member-IsRefusal params) (λ o.
          Raises-bind IsRefusal (walked python _ _) _ (walked-IsRefusal python _ _ room) (λ _.
            let made =
              store (store heap fresh.params_address o) fresh.request_address
                (dict_object (request_members request_id m fresh.params_address)) in
            Raises-bind IsRefusal
              (request_body (request_json python made (ref fresh.request_address))) _
              (request_json-IsRefusal python made (ref fresh.request_address))
              (λ b. Raises-ok IsRefusal (record {
                request_id = request_id;
                body = b;
                request_timeout = timeout_of client_timeout request_timeout;
              }))))))
