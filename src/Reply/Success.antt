-- ===== src/Reply/Success.antt =====
-- When a reply is a result, and when it is an `RpcError`.
use bitcoin_core_rpc.Prelude.{
  ℕ, true, Text, codes, none, some, ◌≡◌, ◌⊎◌, ◌↔◌, inl, inr, text_eq_iff, text_eq_refl, arith, ap,
  Option-cases, ◌∙◌,
}
use bitcoin_core_rpc.Value.{
  Json, Members, scalar, str, none_value, get, get_or_none, equals_text, is_none_value,
}
use bitcoin_core_rpc.Errors.{ok}
use bitcoin_core_rpc.Reply.{legacy_result, v2_result, discriminate}

-- the value is the text
pub equals_text_iff : (v : Json) (t : Text) → (equals_text v t ≡ true) ↔ (v ≡ scalar (str t))
equals_text_iff (scalar (str s)) t = ground (arith, text_eq_iff s t)
equals_text_iff _ t = ground arith

pub get-of-text :
    (name : Text) (m : Members) (t : Text)
    → get_or_none name m ≡ scalar (str t)
    → get name m ≡ some (scalar (str t))
get-of-text name m t h = ground arith

-- A reply that answers the request with `v`.
pub record IsAnswer (request_id : Text) (status : ℕ) (reply : Members) (v : Json) : Type 0 where
  pub status_ok : status ≡ 200
  pub ours : get (codes "id") reply ≡ some (scalar (str request_id))
  pub has_result : get (codes "result") reply ≡ some v
  pub no_error :
      ((get (codes "jsonrpc") reply ≡ none)
        × (get_or_none (codes "error") reply ≡ scalar none_value))
      ⊎ ((get (codes "jsonrpc") reply ≡ some (scalar (str (codes "2.0"))))
          × (get (codes "error") reply ≡ none))

is_none_value_iff : (v : Json) → (is_none_value v ≡ true) ↔ (v ≡ scalar none_value)
is_none_value_iff (scalar none_value) = ground arith
is_none_value_iff _ = ground arith

module _ (place request_id : Text) (status : ℕ) (reply : Members) (v : Json) where
  legacy_result-ok :
      get (codes "jsonrpc") reply ≡ none
      → legacy_result place request_id status reply ≡ ok v
      → IsAnswer request_id status reply v
  unfolding legacy_result
  legacy_result-ok j h = record {
    status_ok = ground arith;
    ours = get-of-text _ _ _ ((equals_text_iff _ request_id).0 (ground arith));
    has_result = ground arith;
    no_error = inl (j, (is_none_value_iff _).0 (ground arith));
  }

  v2_result-ok :
      get (codes "jsonrpc") reply ≡ some (scalar (str (codes "2.0")))
      → v2_result place request_id status reply ≡ ok v
      → IsAnswer request_id status reply v
  unfolding v2_result
  v2_result-ok j h = record {
    status_ok = ground arith;
    ours = get-of-text _ _ _ ((equals_text_iff _ request_id).0 (ground arith));
    has_result = ground arith;
    no_error = inr (j, ground arith);
  }

  discriminate-IsAnswer :
      discriminate place request_id status reply ≡ ok v → IsAnswer request_id status reply v
  unfolding discriminate
  discriminate-IsAnswer h = elim (Option-cases (get (codes "jsonrpc") reply)) [
    | inl e ↦ legacy_result-ok e (rw (e, discriminate) at h)
    | inr (marker, e) ↦
        let h' = rw (e, discriminate) at h in
        let m = (equals_text_iff marker (codes "2.0")).0 (ground arith) in
        v2_result-ok (e ∙ ap some m) (ground arith)
  ]

  IsAnswer-discriminate :
      IsAnswer request_id status reply v → discriminate place request_id status reply ≡ ok v
  unfolding discriminate legacy_result v2_result
  IsAnswer-discriminate a = elim a.no_error [
    | inl (j, e) ↦ rw (j, discriminate) (ground (arith, text_eq_refl request_id))
    | inr (j, e) ↦
        rw (j, discriminate) (ground (arith, text_eq_refl request_id, text_eq_refl (codes "2.0")))
  ]

-- A reply is the result `v` exactly when the status is 200, the id is the request's, `result` is
-- there with `v`, and there is no error: in a reply that carries no version `error` is absent or
-- null, and in one that is marked 2.0 it is absent.
pub discriminate-ok_iff :
    (place request_id : Text) (status : ℕ) (reply : Members) (v : Json)
    → (discriminate place request_id status reply ≡ ok v) ↔ IsAnswer request_id status reply v
discriminate-ok_iff place request_id status reply v = (
  discriminate-IsAnswer place request_id status reply v,
  IsAnswer-discriminate place request_id status reply v,
)
