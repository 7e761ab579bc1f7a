-- ===== src/Transport/Pool.antt =====
-- src/bitcoin_core_rpc/transport.py: the connections that `SessionTransport` keeps, a `dict` from
use mathlib.Core.Path.{subst}
use bitcoin_core_rpc.Prelude.{
  Bool, Bool-cases, List, Option, Text, [], arith, false, if◌then◌else◌, inl, inr, none, refl, some,
  text_eq, text_eq_iff, text_eq_refl, true, ℕ, ◌&&◌, ◌==◌, ◌||◌, ◌∷◌, ◌≡◌,
}

-- scheme, host and port. A connection is a number.

-- `(scheme, host, port)`
pub record Key : Type 0 where
  pub scheme : Text
  pub host : Text
  pub port_number : ℕ

unfoldable pub key_eq : Key → Key → Bool
key_eq a b = text_eq a.scheme b.scheme && text_eq a.host b.host && (a.port_number == b.port_number)

abbrev pub Pool : Type 0
Pool = List (Key × ℕ)

-- self._connections.get(key)
unfoldable pub find : Key → Pool → Option ℕ
find k [] = none
find k ((j, c) ∷ rest) = if key_eq j k then some c else find k rest

-- self._connections.pop(key, None)
unfoldable pub forget : Key → Pool → Pool
forget k [] = []
forget k ((j, c) ∷ rest) = if key_eq j k then forget k rest else (j, c) ∷ forget k rest

-- is this connection kept?
unfoldable pub is_kept : Pool → ℕ → Bool
is_kept [] d = false
is_kept ((k, c) ∷ rest) d = c == d || is_kept rest d

-- no key twice, and no connection under two keys
abbrev pub IsApart : Pool → Type 0
IsApart [] = Unit {0}
IsApart ((k, c) ∷ rest) = (find k rest ≡ none) × (is_kept rest c ≡ false) × IsApart rest

key_eq-eq : (j k : Key) → key_eq j k ≡ true → j ≡ k
unfolding key_eq
key_eq-eq j k h =
    let same_scheme = (text_eq_iff j.scheme k.scheme).0 (ground arith) in
    let same_host = (text_eq_iff j.host k.host).0 (ground arith) in
    let same_port : j.port_number ≡ k.port_number = ground arith in cc

pub key_eq_refl : (k : Key) → key_eq k k ≡ true
unfolding key_eq
key_eq_refl k =
    let same_scheme = text_eq_refl k.scheme in let same_host = text_eq_refl k.host in ground arith

-- The key that was popped is not in the pool.
pub find-forget : (k : Key) (p : Pool) → find k (forget k p) ≡ none
unfolding find forget
find-forget k [] = refl
find-forget k ((j, c) ∷ rest) = ground (arith, find-forget k rest)

-- Popping a key that is not in the pool changes nothing.
pub forget-absent : (k : Key) (p : Pool) → find k p ≡ none → forget k p ≡ p
unfolding find forget
forget-absent k [] h = refl
forget-absent k ((j, c) ∷ rest) h = ground (arith, forget-absent k rest)

find-forget-none : (i k : Key) (p : Pool) → find i p ≡ none → find i (forget k p) ≡ none
unfolding find forget
find-forget-none i k [] h = refl
find-forget-none i k ((j, c) ∷ rest) h = ground (arith, find-forget-none i k rest)

is_kept-forget : (k : Key) (p : Pool) (d : ℕ) → is_kept p d ≡ false → is_kept (forget k p) d ≡ false
unfolding is_kept forget
is_kept-forget k [] d h = refl
is_kept-forget k ((j, c) ∷ rest) d h = ground (arith, is_kept-forget k rest d)

pub forget-IsApart : (k : Key) (p : Pool) → IsApart p → IsApart (forget k p)
unfolding forget
forget-IsApart k [] h = tt
forget-IsApart k ((j, c) ∷ rest) (h1, h2, h3) = elim (Bool-cases (key_eq j k)) [
  | inl e ↦ rw e (forget-IsApart k rest h3)
  | inr e ↦
      rw e (find-forget-none j k rest h1, is_kept-forget k rest c h2, forget-IsApart k rest h3)
]

-- The connection that was popped stood under its key only.
pub is_kept-popped :
    (k : Key) (p : Pool) (c : ℕ)
    → IsApart p
    → find k p ≡ some c
    → (is_kept (forget k p) c ≡ false)
      × ((d : ℕ) → is_kept p d ≡ (c == d || is_kept (forget k p) d))
unfolding find forget is_kept
is_kept-popped k [] c h e = absurd (ground arith)
is_kept-popped k ((j, b) ∷ rest) c (h1, h2, h3) e = elim (Bool-cases (key_eq j k)) [
  | inl t ↦
      let same = key_eq-eq j k t in
      let b_eq : b ≡ c = (let e' = rw t at e in ground arith) in
      let gone : forget k rest ≡ rest =
        forget-absent k rest (subst (λ x. find x rest ≡ none) same h1) in
      rw (t, gone) (subst (λ x. is_kept rest x ≡ false) b_eq h2, λ d. rw b_eq refl)
  | inr f ↦
      let e' : find k rest ≡ some c = (let e2 = rw f at e in e2) in
      let (i, ii) = is_kept-popped k rest c h3 e' in
      rw f (ground (arith, i, ii c), λ d. ground (arith, ii d))
]
