-- ===== src/Batch/Results.antt =====
-- What a batch comes to: a result for each request, in the order of the requests.
use mathlib.Core.Path.{subst}
use bitcoin_core_rpc.Batch.{
  MemberResult, batch_results, contains_text, correlated_batch_replies, member_result,
  member_results, request_ids,
}
use bitcoin_core_rpc.Batch.Correlation.{IsReplyTo, correlated_batch_replies-IsReplyTo}
use bitcoin_core_rpc.Batch.Failure.{
  Outcome-fetch_error, batch_reply_array-fetch_error, correlated-fetch_error,
}
use bitcoin_core_rpc.Errors.{
  >>=-eq-ok, Exception, Result, Result-cases, class_of, is_instance, ok, raise,
}
use bitcoin_core_rpc.Errors.Classes.{fetch_error_class, rpc_error_class}
use bitcoin_core_rpc.Prelude.{
  ==_iff, Bool, Bool-cases, Bytes, List, Text, [], ap, arith, false, inl, inr, lookup, refl, some,
  sym, text_eq, text_eq_refl, true, ℕ, ◌==◌, ◌||◌, ◌∙◌, ◌∷◌, ◌≡◌,
}
use bitcoin_core_rpc.Reply.{batch_reply_array, discriminate}
use bitcoin_core_rpc.Reply.Failure.{IsDocumented, Outcome, discriminate-Outcome}
use bitcoin_core_rpc.Value.{Json, Members}

-- Each request has the result of the reply that carries its id.
pub data Answered (place : Text → Text) (status : ℕ) (replies : List Json)
    : List (Text × Text) → List MemberResult → Type 0 where
  all_answered : Answered place status replies [] []
  next_answered :
      {method i : Text} {r : MemberResult} {rest : List (Text × Text)} {rs : List MemberResult}
      (reply : Members)
      → IsReplyTo replies i reply
      → member_result (discriminate (place method) i status reply) ≡ ok r
      → Answered place status replies rest rs
      → Answered place status replies ((method, i) ∷ rest) (r ∷ rs)

-- the ids of the requests all have replies
abbrev HasReplies : List Json → List (Text × Members) → List Text → Type 0
HasReplies replies by_id [] = Unit
HasReplies replies by_id (i ∷ is) =
    ((reply : Members) × (lookup i by_id ≡ some reply) × IsReplyTo replies i reply)
    × HasReplies replies by_id is

or-true : (b : Bool) → (b || true) ≡ true
or-true true = refl
or-true false = refl

HasReplies-of :
    (ids : List Text) (replies : List Json) (by_id : List (Text × Members)) (some_ids : List Text)
    → correlated_batch_replies ids replies ≡ ok by_id
    → ((i : Text) → contains_text some_ids i ≡ true → contains_text ids i ≡ true)
    → HasReplies replies by_id some_ids
unfolding contains_text
HasReplies-of ids replies by_id [] h sub = tt
HasReplies-of ids replies by_id (i ∷ is) h sub = (
  correlated_batch_replies-IsReplyTo ids replies i h (sub i (rw (text_eq_refl i) refl)),
  HasReplies-of ids replies by_id is h (λ j k. sub j (rw k (or-true (text_eq i j)))),
)

member_result-raised : (x e : Exception) → member_result (raise x) ≡ raise e → x ≡ e
unfolding member_result
member_result-raised x e h = elim (Bool-cases (is_instance x rpc_error_class)) [
  | inl t ↦ let h' = rw (member_result, t) at h in cc
  | inr t ↦ let h' = rw (member_result, t) at h in cc
]

member_result-fetch_error :
    (m : Result Json) (e : Exception)
    → Outcome 200 m
    → member_result m ≡ raise e
    → is_instance e fetch_error_class ≡ true
unfolding member_result
member_result-fetch_error (ok v) e o h = absurd (ground arith)
member_result-fetch_error (raise x) e o h =
    subst (λ y. is_instance y fetch_error_class ≡ true) (member_result-raised x e h)
      (Outcome-fetch_error x o)

module _ (place : Text → Text) (status : ℕ) (replies : List Json)
    (by_id : List (Text × Members)) where
  member_results-Answered :
      (requests : List (Text × Text)) (results : List MemberResult)
      → HasReplies replies by_id (request_ids requests)
      → member_results place status requests by_id ≡ ok results
      → Answered place status replies requests results
  unfolding member_results
  member_results-Answered [] results a h =
      subst (Answered place status replies []) (ground arith) all_answered
  member_results-Answered ((method, i) ∷ rest) results ((reply, l, is_reply), a) h =
      let h' = rw (member_results, l) at h in
      let (r, e, h'') =
        >>=-eq-ok (member_result (discriminate (place method) i status reply)) _ h' in
      let (rs, e', h3) = >>=-eq-ok (member_results place status rest by_id) _ h'' in
      let same : r ∷ rs ≡ results = cc in
      subst (Answered place status replies ((method, i) ∷ rest)) same
        (next_answered reply is_reply e (member_results-Answered rest rs a e'))

  member_results-fetch_error :
      (requests : List (Text × Text)) (e : Exception)
      → status ≡ 200
      → HasReplies replies by_id (request_ids requests)
      → member_results place status requests by_id ≡ raise e
      → is_instance e fetch_error_class ≡ true
  unfolding member_results
  member_results-fetch_error [] e s a h = absurd (ground arith)
  member_results-fetch_error ((method, i) ∷ rest) e s ((reply, l, is_reply), a) h =
      elim (Result-cases (member_result (discriminate (place method) i status reply))) [
        | inr (x, q) ↦
            let same : x ≡ e = let h' = rw (member_results, l, q) at h in cc in
            member_result-fetch_error (discriminate (place method) i status reply) e
              (subst (λ n. Outcome n (discriminate (place method) i status reply)) s
                (discriminate-Outcome (place method) i status reply))
              (q ∙ ap raise same)
        | inl (r, q) ↦ elim (Result-cases (member_results place status rest by_id)) [
          | inr (x, p) ↦
              let same : x ≡ e = let h' = rw (member_results, l, q, p) at h in cc in
              member_results-fetch_error rest e s a (p ∙ ap raise same)
          | inl (rs, p) ↦ let h' = rw (member_results, l, q, p) at h in cc
        ]
      ]

-- what a batch may come to
abbrev pub BatchOutcome :
    (Bytes → Result Json)
    → (Text → Text)
    → List (Text × Text)
    → ℕ
    → Bytes
    → Result (List MemberResult)
    → Type 0
BatchOutcome loads place requests status payload (raise e) = is_instance e fetch_error_class ≡ true
BatchOutcome loads place requests status payload (ok results) =
    (replies : List Json) × (status ≡ 200)
    × (batch_reply_array loads status payload ≡ ok replies)
    × Answered place status replies requests results

-- A batch's results are those of its requests, in their order, each from a reply that arrived with
-- status 200 and carries the id of its request. What is raised is a `FetchError`, so no `KeyError`
-- of the lookup by id. The condition is that `json.loads` raises only what its documentation and the
-- two hooks name.
pub batch_results-BatchOutcome :
    (loads : Bytes → Result Json) (place : Text → Text) (requests : List (Text × Text)) (status : ℕ)
    (payload : Bytes)
    → ((e : Exception) → loads payload ≡ raise e → IsDocumented e)
    → BatchOutcome loads place requests status payload
        (batch_results loads place requests status payload)
unfolding batch_results
batch_results-BatchOutcome loads place requests status payload d =
    elim (Bool-cases (status == 200)) [
      | inr n ↦ rw (batch_results, n) (unfold is_instance class_of in refl)
      | inl y ↦
          let s = (==_iff status 200).0 y in
          let P = BatchOutcome loads place requests status payload in
          let ids = request_ids requests in
          elim (Result-cases (batch_reply_array loads status payload)) [
            | inr (x, q) ↦
                let e : batch_results loads place requests status payload ≡ raise x =
                  rw (batch_results, y, q) in
                subst P (sym e) (
                  batch_reply_array-fetch_error loads payload x d
                    (subst (λ n. batch_reply_array loads n payload ≡ raise x) s q))
            | inl (replies, q) ↦ elim (Result-cases (correlated_batch_replies ids replies)) [
              | inr (x, r) ↦
                  let e : batch_results loads place requests status payload ≡ raise x =
                    rw (batch_results, y, q, r) in
                  subst P (sym e) (correlated-fetch_error ids replies x r)
              | inl (by_id, r) ↦
                  let has = HasReplies-of ids replies by_id ids r (λ i h. h) in
                  let e : batch_results loads place requests status payload
                      ≡ member_results place status requests by_id =
                    rw (batch_results, y, q, r) in
                  subst P (sym e)
                    (elim (Result-cases (member_results place status requests by_id)) [
                      | inr (x, m) ↦
                          subst P (sym m) (
                            member_results-fetch_error place status replies by_id requests x s has
                              m)
                      | inl (results, m) ↦ subst P (sym m) (
                        replies,
                        s,
                        q,
                        member_results-Answered place status replies by_id requests results has m,
                      )
                    ])
            ]
          ]
    ]
