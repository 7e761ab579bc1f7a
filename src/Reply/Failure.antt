-- ===== src/Reply/Failure.antt =====
-- What a caller is told of a reply that is no result, by the HTTP status.
use bitcoin_core_rpc.Errors.{
  Exception, Reason, Result, Result-cases, failure, fetch_error, http_error, ok, raise, rpc_error,
  unreadable_rpc_error, ◌>>=◌,
}
use bitcoin_core_rpc.Errors.Classes.{
  Class, decimal_exception, fetch_error_class, is_subclass, recursion_error, value_error,
}
use bitcoin_core_rpc.Prelude.{
  Bytes, Option, Text, [], any, arith, codes, inl, inr, none, refl, some, true, ℕ, ℤ, ◌∷◌, ◌≡◌, ◌≢◌,
  ◌⊎◌,
}
use bitcoin_core_rpc.Reply.{
  answer_of, as_object, discriminate, legacy_result, parse_failure, parsed_json_body, reply_object,
  result, rpc_error_fields, rpc_error_from, v2_result,
}
use bitcoin_core_rpc.Value.{Json, Members, dict, get, get_or_none, int, scalar, str}

-- What `json.loads` with the two hooks may raise: the hooks' `FetchError`, and the classes that the
-- documentation of `json`, `int` and `decimal` names.
abbrev pub IsDocumented : Exception → Type 0
IsDocumented (failure c r) =
    any (is_subclass c) (fetch_error_class ∷ value_error ∷ recursion_error ∷ decimal_exception ∷ [])
    ≡ true
IsDocumented (http_error s) = ⊥
IsDocumented (rpc_error m c d) = ⊥

-- An exception that reports a reply that arrived with this status.
abbrev pub Reports : ℕ → Exception → Type 0
Reports status (http_error s) = (s ≡ status) × (status ≢ 200)
Reports status (rpc_error m c d) = Unit
Reports status (failure c r) = (status ≡ 200) × (is_subclass c fetch_error_class ≡ true)

-- A result comes with status 200 only.
abbrev pub Outcome {ℓ} : {A : Type ℓ} → ℕ → Result A → Type 0
Outcome status (ok v) = status ≡ 200
Outcome status (raise e) = Reports status e

-- an `error` member is either the node's error object, or one that cannot be read
rpc_error_fields-cases :
    (place : Text) (e : Members) (code message : Json)
    → ((m : Text) × (c : ℤ) × (d : Json) × (rpc_error_fields place e code message
          ≡ rpc_error m c d))
      ⊎ (rpc_error_fields place e code message ≡ fetch_error (unreadable_rpc_error (dict e)))
unfolding rpc_error_fields
rpc_error_fields-cases place e (scalar (int c)) (scalar (str m)) = inl (_, c, _, refl)
rpc_error_fields-cases place e _ _ = inr refl

rpc_error_from-cases :
    (place : Text) (error : Json)
    → ((m : Text) × (c : ℤ) × (d : Json) × (rpc_error_from place error ≡ rpc_error m c d))
      ⊎ (rpc_error_from place error ≡ fetch_error (unreadable_rpc_error error))
unfolding rpc_error_from
rpc_error_from-cases place (dict e) = rpc_error_fields-cases place e _ _
rpc_error_from-cases place _ = inr refl

answer_of-Outcome : (place : Text) (r e : Option Json) → Outcome 200 (answer_of place r e)
unfolding answer_of
answer_of-Outcome place none (some error) = elim (rpc_error_from-cases place error) [
  | inl (m, c, d, e) ↦ rw (answer_of, e) tt
  | inr e ↦ rw (answer_of, e) (refl, refl)
]
answer_of-Outcome place _ _ = ground arith

module _ (place request_id : Text) (status : ℕ) (reply : Members) where
  legacy_result-Outcome : Outcome status (legacy_result place request_id status reply)
  unfolding legacy_result
  legacy_result-Outcome = elim (rpc_error_from-cases place (get_or_none (codes "error") reply)) [
    | inl (m, c, d, e) ↦ rw (legacy_result, e) (ground arith)
    | inr e ↦ rw (legacy_result, e) (ground arith)
  ]

  v2_result-Outcome : Outcome status (v2_result place request_id status reply)
  unfolding v2_result
  v2_result-Outcome =
      ground
        (arith, answer_of-Outcome place (get (codes "result") reply) (get (codes "error") reply))

  pub discriminate-Outcome : Outcome status (discriminate place request_id status reply)
  unfolding discriminate
  discriminate-Outcome = ground (arith, legacy_result-Outcome, v2_result-Outcome)

parse_failure-Reports :
    (status : ℕ) (c : Class) (r : Reason)
    → IsDocumented (failure c r)
    → Reports status (parse_failure status (failure c r))
unfolding parse_failure
parse_failure-Reports status fetch_error_class r h = ground arith
parse_failure-Reports status _ r h = ground arith

pub documented-Reports :
    (status : ℕ) (e : Exception) → IsDocumented e → Reports status (parse_failure status e)
documented-Reports status (failure c r) h = parse_failure-Reports status c r h
documented-Reports status (http_error s) h = elim h [ ]
documented-Reports status (rpc_error m c d) h = elim h [ ]

discriminate_object-Outcome :
    (place request_id : Text) (status : ℕ) (value : Json)
    → Outcome status (as_object status value >>= discriminate place request_id status)
unfolding as_object
discriminate_object-Outcome place request_id status (dict m) =
    discriminate-Outcome place request_id status m
discriminate_object-Outcome place request_id status _ = ground arith

-- Whatever the bytes and the status, `_result` answers with a value only under status 200, and what
-- it raises reports the status: `HttpError` carries it and it is not 200, a plain `FetchError` is
-- for status 200 alone, and what is left is the node's own `RpcError`. The condition is that
-- `json.loads` raises only what its documentation and the two hooks name.
pub result-Outcome :
    (loads : Bytes → Result Json) (place request_id : Text) (status : ℕ) (payload : Bytes)
    → ((e : Exception) → loads payload ≡ raise e → IsDocumented e)
    → Outcome status (result loads place request_id status payload)
unfolding result reply_object parsed_json_body
result-Outcome loads place request_id status payload d = elim (Result-cases (loads payload)) [
  | inl (v, e) ↦
      rw (result, reply_object, parsed_json_body, e)
        (discriminate_object-Outcome place request_id status v)
  | inr (x, e) ↦
      rw (result, reply_object, parsed_json_body, e) (documented-Reports status x (d x e))
]
