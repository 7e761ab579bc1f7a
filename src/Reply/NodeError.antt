-- ===== src/Reply/NodeError.antt =====
-- When a reply is an `RpcError`.
use bitcoin_core_rpc.Errors.{raise, rpc_error}
use bitcoin_core_rpc.Prelude.{
  Option-cases, Text, ap, arith, codes, inl, inr, none, refl, some, text_eq_refl, ℕ, ℤ, ◌↔◌, ◌∙◌,
  ◌≡◌, ◌⊎◌,
}
use bitcoin_core_rpc.Reply.{
  answer_of, discriminate, error_message, legacy_result, rpc_error_fields, rpc_error_from,
  v2_result,
}
use bitcoin_core_rpc.Reply.Success.{equals_text_iff, get-of-text}
use bitcoin_core_rpc.Value.{Json, Members, dict, get, get_or_none, int, scalar, str}

-- The value is an error object with this message, code and `data`.
pub record IsErrorObject (place : Text) (error : Json) (m : Text) (c : ℤ) (d : Json) : Type 0 where
  pub members : Members
  pub text : Text
  pub is_dict : error ≡ dict members
  pub code_is : get_or_none (codes "code") members ≡ scalar (int c)
  pub message_is : get_or_none (codes "message") members ≡ scalar (str text)
  pub message_shown : m ≡ error_message place text
  pub data_is : d ≡ get_or_none (codes "data") members

module _ (place : Text) (m : Text) (c : ℤ) (d : Json) where
  rpc_error_fields-inv :
      (e : Members) (code message : Json)
      → rpc_error_fields place e code message ≡ rpc_error m c d
      → (text : Text) × (code ≡ scalar (int c))
        × (message ≡ scalar (str text))
        × (m ≡ error_message place text)
        × (d ≡ get_or_none (codes "data") e)
  unfolding rpc_error_fields
  rpc_error_fields-inv e (scalar (int k)) (scalar (str t)) h =
      (t, ground arith, refl, ground arith, ground arith)
  rpc_error_fields-inv e _ _ h = absurd (ground arith)

  rpc_error_from-IsErrorObject :
      (error : Json)
      → rpc_error_from place error ≡ rpc_error m c d
      → IsErrorObject place error m c d
  unfolding rpc_error_from
  rpc_error_from-IsErrorObject (dict e) h =
      let (t, a, b, x, y) = rpc_error_fields-inv e _ _ h in
      record {
        members = e;
        text = t;
        is_dict = refl;
        code_is = a;
        message_is = b;
        message_shown = x;
        data_is = y;
      }
  rpc_error_from-IsErrorObject _ h = absurd (ground arith)

  IsErrorObject-rpc_error_from :
      {error : Json}
      → IsErrorObject place error m c d
      → rpc_error_from place error ≡ rpc_error m c d
  unfolding rpc_error_from
  IsErrorObject-rpc_error_from o =
      rw (o.is_dict, rpc_error_from, o.code_is, o.message_is, o.message_shown, o.data_is)

-- A reply that carries the node's own error for the request.
pub record IsErrorAnswer (place request_id : Text) (status : ℕ) (reply : Members) (m : Text) (c : ℤ)
    (d : Json) : Type 0 where
  pub ours : get (codes "id") reply ≡ some (scalar (str request_id))
  pub error : Json
  pub has_error : get (codes "error") reply ≡ some error
  pub is_object : IsErrorObject place error m c d
  pub version :
      (get (codes "jsonrpc") reply ≡ none)
      ⊎ ((get (codes "jsonrpc") reply ≡ some (scalar (str (codes "2.0"))))
          × (status ≡ 200)
          × (get (codes "result") reply ≡ none))

module _ (place request_id : Text) (status : ℕ) (reply : Members) (m : Text) (c : ℤ)
    (d : Json) where
  legacy_result-error :
      get (codes "jsonrpc") reply ≡ none
      → legacy_result place request_id status reply ≡ raise (rpc_error m c d)
      → IsErrorAnswer place request_id status reply m c d
  unfolding legacy_result
  legacy_result-error j h = record {
    ours = get-of-text _ _ _ ((equals_text_iff _ request_id).0 (ground arith));
    error = get_or_none (codes "error") reply;
    has_error = ground arith;
    is_object = rpc_error_from-IsErrorObject place m c d _ (ground arith);
    version = inl j;
  }

  v2_result-error :
      get (codes "jsonrpc") reply ≡ some (scalar (str (codes "2.0")))
      → v2_result place request_id status reply ≡ raise (rpc_error m c d)
      → IsErrorAnswer place request_id status reply m c d
  unfolding v2_result
  v2_result-error j h = record {
    ours = get-of-text _ _ _ ((equals_text_iff _ request_id).0 (ground arith));
    error = get_or_none (codes "error") reply;
    has_error = ground arith;
    is_object = rpc_error_from-IsErrorObject place m c d _ (ground arith);
    version = inr (j, ground arith, ground arith);
  }

  discriminate-IsErrorAnswer :
      discriminate place request_id status reply ≡ raise (rpc_error m c d)
      → IsErrorAnswer place request_id status reply m c d
  unfolding discriminate
  discriminate-IsErrorAnswer h = elim (Option-cases (get (codes "jsonrpc") reply)) [
    | inl e ↦ legacy_result-error e (rw (e, discriminate) at h)
    | inr (marker, e) ↦
        let h' = rw (e, discriminate) at h in
        let m = (equals_text_iff marker (codes "2.0")).0 (ground arith) in
        v2_result-error (e ∙ ap some m) (ground arith)
  ]

  IsErrorAnswer-discriminate :
      IsErrorAnswer place request_id status reply m c d
      → discriminate place request_id status reply ≡ raise (rpc_error m c d)
  unfolding discriminate legacy_result v2_result answer_of
  IsErrorAnswer-discriminate a =
      let e = IsErrorObject-rpc_error_from place m c d a.is_object in
      let o = a.is_object.is_dict in
      elim a.version [
        | inl j ↦ rw (j, discriminate) (ground (arith, text_eq_refl request_id))
        | inr (j, s, r) ↦
            rw (j, discriminate)
              (ground (arith, text_eq_refl request_id, text_eq_refl (codes "2.0")))
      ]

-- `RpcError` with this message, code and data is raised exactly when the reply has the request's id
-- and an error object of that content, and either carries no version, whatever the status, or is
-- marked 2.0, has status 200 and no `result`.
pub discriminate-rpc_error_iff :
    (place request_id : Text) (status : ℕ) (reply : Members) (m : Text) (c : ℤ) (d : Json)
    → (discriminate place request_id status reply ≡ raise (rpc_error m c d))
      ↔ IsErrorAnswer place request_id status reply m c d
discriminate-rpc_error_iff place request_id status reply m c d = (
  discriminate-IsErrorAnswer place request_id status reply m c d,
  IsErrorAnswer-discriminate place request_id status reply m c d,
)
