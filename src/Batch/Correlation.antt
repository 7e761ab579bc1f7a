-- ===== src/Batch/Correlation.antt =====
-- Every id that was sent has its reply: the lookup in `by_id` cannot fail.
use mathlib.Core.Path.{subst}
use bitcoin_core_rpc.Batch.{
  contains_text, correlate, correlate_reply, correlated_batch_replies, names,
}
use bitcoin_core_rpc.Errors.{Result, ok}
use bitcoin_core_rpc.Prelude.{
  All, All-In, Bool-cases, In, List, Text, [], arith, codes, false, if◌then◌else◌, inl, inr, length,
  lookup, refl, some, suc, text_eq, text_eq_iff, true, ◌+◌, ◌∷◌, ◌≡◌, ◌≤◌,
}
use bitcoin_core_rpc.Reply.Success.{get-of-text}
use bitcoin_core_rpc.Value.{Json, Members, dict, get, get_or_none, scalar, str}

-- no text stands twice
abbrev pub Nodup : List Text → Type 0
Nodup [] = Unit
Nodup (x ∷ xs) = (contains_text xs x ≡ false) × Nodup xs

-- every text of the first stands in the second
abbrev pub Within : List Text → List Text → Type 0
Within [] ys = Unit
Within (x ∷ xs) ys = (contains_text ys x ≡ true) × Within xs ys

-- without the first that is the text
erase : Text → List Text → List Text
erase t [] = []
erase t (x ∷ xs) = if text_eq x t then xs else x ∷ erase t xs

length-erase :
    (t : Text) (xs : List Text) → contains_text xs t ≡ true → length xs ≡ suc (length (erase t xs))
unfolding contains_text erase
length-erase t [] h = absurd (ground arith)
length-erase t (x ∷ xs) h = elim (Bool-cases (text_eq x t)) [
  | inl e ↦ rw (erase, e)
  | inr e ↦ rw (erase, e) (ground (arith, length-erase t xs))
]

contains_text-erase :
    (t u : Text) (xs : List Text)
    → text_eq t u ≡ false
    → contains_text xs u ≡ true
    → contains_text (erase t xs) u ≡ true
unfolding contains_text erase
contains_text-erase t u [] n h = h
contains_text-erase t u (x ∷ xs) n h =
    ground (arith, contains_text-erase t u xs n, text_eq_iff x t, text_eq_iff x u, text_eq_iff t u)

Within-erase :
    (t : Text) (xs ys : List Text)
    → contains_text xs t ≡ false
    → Within xs ys
    → Within xs (erase t ys)
unfolding contains_text
Within-erase t [] ys n w = tt
Within-erase t (x ∷ xs) ys n (h, w) = (
  contains_text-erase t x ys (ground (arith, text_eq_iff x t, text_eq_iff t x)) h,
  Within-erase t xs ys (ground arith) w,
)

-- texts that differ from one another and stand in a list are no more than it is long
length-le : (xs ys : List Text) → Nodup xs → Within xs ys → length xs ≤ length ys
length-le [] ys n w = omega arith
length-le (x ∷ xs) ys (new, n) (h, w) =
    omega (arith, length-erase x ys h, length-le xs (erase x ys) n (Within-erase x xs ys new w))

-- as many as the list is long are all of it
pigeonhole :
    (xs ys : List Text) (t : Text)
    → Nodup xs
    → Within xs ys
    → length ys ≡ length xs
    → contains_text ys t ≡ true
    → contains_text xs t ≡ true
pigeonhole xs ys t n w e h = elim (Bool-cases (contains_text xs t)) [
  | inl yes_ ↦ yes_
  | inr no_ ↦
      absurd (
        omega
          (arith, length-erase t ys h, length-le xs (erase t ys) n (Within-erase t xs ys no_ w)))
]

-- The reply is one of those that arrived, and its `id` is this one.
pub record IsReplyTo (replies : List Json) (i : Text) (reply : Members) : Type 0 where
  pub arrived : In (dict reply) replies
  pub id_is : get (codes "id") reply ≡ some (scalar (str i))

-- what the loop keeps of the replies that it has seen
record Correlated (ids : List Text) (replies : List Json) (by_id : List (Text × Members))
    : Type 0 where
  nodup : Nodup (names by_id)
  within : Within (names by_id) ids
  replied : All (λ (e : Text × Members). IsReplyTo replies e.0 e.1) by_id

module _ (ids : List Text) (replies : List Json) where
  correlate_reply-inv :
      (next : List (Text × Members) → Result (List (Text × Members)))
      (acc by_id : List (Text × Members)) (reply : Members) (reply_id : Json)
      → correlate_reply next ids acc reply reply_id ≡ ok by_id
      → (i : Text) × (reply_id ≡ scalar (str i))
        × (contains_text ids i ≡ true)
        × (contains_text (names acc) i ≡ false)
        × (next ((i, reply) ∷ acc) ≡ ok by_id)
  unfolding correlate_reply
  correlate_reply-inv next acc by_id reply (scalar (str i)) h =
      (i, refl, ground arith, ground arith, ground arith)
  correlate_reply-inv next acc by_id reply _ h = absurd (ground arith)

  correlate-Correlated :
      (rest : List Json) (acc by_id : List (Text × Members))
      → ((r : Json) → In r rest → In r replies)
      → Correlated ids replies acc
      → correlate ids rest acc ≡ ok by_id
      → Correlated ids replies by_id × (length (names by_id) ≡ length (names acc) + length rest)
  unfolding correlate
  correlate-Correlated [] acc by_id sub c h =
      let e : acc ≡ by_id = ground arith in
      (
        subst (Correlated ids replies) e c,
        subst (λ b. length (names b) ≡ length (names acc) + 0) e (omega arith),
      )
  correlate-Correlated (dict m ∷ rest) acc by_id sub c h =
      let (i, e, sent, new, more) =
        correlate_reply-inv (correlate ids rest) acc by_id m (get_or_none (codes "id") m) h in
      let c' : Correlated ids replies ((i, m) ∷ acc) = record {
        nodup = (new, c.nodup);
        within = (sent, c.within);
        replied =
            (record { arrived = sub (dict m) (inl refl); id_is = get-of-text _ m i e }, c.replied);
      } in
      let (d, n) = correlate-Correlated rest ((i, m) ∷ acc) by_id (λ r j. sub r (inr j)) c' more in
      (d, omega arith)
  correlate-Correlated (_ ∷ rest) acc by_id sub c h = absurd (ground arith)

lookup-names :
    (by_id : List (Text × Members)) (i : Text)
    → contains_text (names by_id) i ≡ true
    → (m : Members) × (lookup i by_id ≡ some m) × In (i, m) by_id
unfolding contains_text lookup
lookup-names [] i h = absurd (ground arith)
lookup-names ((j, m) ∷ rest) i h = elim (Bool-cases (text_eq j i)) [
  | inl e ↦ (m, rw (lookup, e), inl (rw ((text_eq_iff j i).0 e)))
  | inr e ↦ let (n, l, r) = lookup-names rest i (ground arith) in (n, rw (lookup, e) l, inr r)
]

-- When `_correlated_batch_replies` returns, it has a reply under every id that was sent, one of those
-- that arrived and carrying that id; so the lookup of a request's id in it never fails.
pub correlated_batch_replies-IsReplyTo :
    (ids : List Text) (replies : List Json) {by_id : List (Text × Members)} (i : Text)
    → correlated_batch_replies ids replies ≡ ok by_id
    → contains_text ids i ≡ true
    → (reply : Members) × (lookup i by_id ≡ some reply) × IsReplyTo replies i reply
unfolding correlated_batch_replies
correlated_batch_replies-IsReplyTo ids replies {by_id} i h sent =
    let start : Correlated ids replies [] = record { nodup = tt; within = tt; replied = tt } in
    let counted : length replies ≡ length ids = ground arith in
    let (c, n) =
      correlate-Correlated ids replies replies [] by_id (λ r j. j) start (ground arith) in
    let (m, l, j) =
      lookup-names by_id i (pigeonhole (names by_id) ids i c.nodup c.within (omega arith) sent) in
    (m, l, All-In (λ (e : Text × Members). IsReplyTo replies e.0 e.1) by_id (i, m) c.replied j)
