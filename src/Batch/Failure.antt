-- ===== src/Batch/Failure.antt =====
-- What a batch raises before the results of its members are read.
use mathlib.Core.Path.{subst}
use bitcoin_core_rpc.Batch.{
  contains_text, correlate, correlate_reply, correlated_batch_replies, names,
}
use bitcoin_core_rpc.Errors.{
  Exception, Result, Result-cases, class_of, failure, http_error, is_instance, raise, rpc_error,
}
use bitcoin_core_rpc.Errors.Classes.{fetch_error_class}
use bitcoin_core_rpc.Prelude.{
  Bool-cases, Bytes, List, Text, [], arith, codes, inl, inr, length, refl, true, ◌==◌, ◌∷◌, ◌≡◌,
}
use bitcoin_core_rpc.Reply.{as_array, batch_reply_array, parse_failure, parsed_json_body}
use bitcoin_core_rpc.Reply.Failure.{IsDocumented, Reports, documented-Reports}
use bitcoin_core_rpc.Value.{Json, Members, dict, get_or_none, list, scalar, str}

pub Outcome-fetch_error : (x : Exception) → Reports 200 x → is_instance x fetch_error_class ≡ true
unfolding is_instance class_of
Outcome-fetch_error (failure c r) o = o.1
Outcome-fetch_error (http_error s) o = refl
Outcome-fetch_error (rpc_error m c d) o = refl

correlate_reply-fetch_error :
    (next : List (Text × Members) → Result (List (Text × Members))) (ids : List Text)
    (acc : List (Text × Members)) (reply : Members) (reply_id : Json) (e : Exception)
    → ((acc' : List (Text × Members))
        → next acc' ≡ raise e
        → is_instance e fetch_error_class ≡ true)
    → correlate_reply next ids acc reply reply_id ≡ raise e
    → is_instance e fetch_error_class ≡ true
unfolding correlate_reply is_instance class_of
correlate_reply-fetch_error next ids acc reply (scalar (str i)) e ih h =
    elim (Bool-cases (contains_text ids i)) [
      | inr n ↦ let h' = rw (correlate_reply, n) at h in ground arith
      | inl y ↦ elim (Bool-cases (contains_text (names acc) i)) [
        | inl z ↦ let h' = rw (correlate_reply, y, z) at h in ground arith
        | inr z ↦ ih ((i, reply) ∷ acc) (rw (correlate_reply, y, z) at h)
      ]
    ]
correlate_reply-fetch_error next ids acc reply _ e ih h = ground arith

correlate-fetch_error :
    (ids : List Text) (replies : List Json) (acc : List (Text × Members)) (e : Exception)
    → correlate ids replies acc ≡ raise e
    → is_instance e fetch_error_class ≡ true
unfolding correlate is_instance class_of
correlate-fetch_error ids [] acc e h = absurd (ground arith)
correlate-fetch_error ids (dict m ∷ rest) acc e h =
    correlate_reply-fetch_error (correlate ids rest) ids acc m (get_or_none (codes "id") m) e
      (λ acc' h'. correlate-fetch_error ids rest acc' e h') h
correlate-fetch_error ids (_ ∷ rest) acc e h = ground arith

pub correlated-fetch_error :
    (ids : List Text) (replies : List Json) (e : Exception)
    → correlated_batch_replies ids replies ≡ raise e
    → is_instance e fetch_error_class ≡ true
unfolding correlated_batch_replies is_instance class_of
correlated-fetch_error ids replies e h = elim (Bool-cases (length replies == length ids)) [
  | inl y ↦ correlate-fetch_error ids replies [] e (rw (correlated_batch_replies, y) at h)
  | inr n ↦ let h' = rw (correlated_batch_replies, n) at h in ground arith
]

as_array-fetch_error :
    (v : Json) (e : Exception) → as_array v ≡ raise e → is_instance e fetch_error_class ≡ true
unfolding as_array is_instance class_of
as_array-fetch_error (list items) e h = absurd (ground arith)
as_array-fetch_error _ e h = ground arith

pub batch_reply_array-fetch_error :
    (loads : Bytes → Result Json) (payload : Bytes) (e : Exception)
    → ((x : Exception) → loads payload ≡ raise x → IsDocumented x)
    → batch_reply_array loads 200 payload ≡ raise e
    → is_instance e fetch_error_class ≡ true
unfolding batch_reply_array parsed_json_body
batch_reply_array-fetch_error loads payload e d h = elim (Result-cases (loads payload)) [
  | inl (v, q) ↦ as_array-fetch_error v e (rw (batch_reply_array, parsed_json_body, q) at h)
  | inr (x, q) ↦
      let same : parse_failure 200 x ≡ e =
        let h' = rw (batch_reply_array, parsed_json_body, q) at h in cc in
      subst (λ y. is_instance y fetch_error_class ≡ true) same
        (Outcome-fetch_error (parse_failure 200 x) (documented-Reports 200 x (d x q)))
]
