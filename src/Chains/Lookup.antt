-- ===== src/Chains/Lookup.antt =====
-- The tables of the chains against one another.
use bitcoin_core_rpc.Chains.{
  chain_from_network, chain_from_network_table, datadir_subdir_from_chain, datadir_subdir_table,
  from_table, magic_from_chain, magic_table, network_from_chain, network_from_chain_table, quoted,
  rpc_port_from_chain, rpc_port_table, swapped,
}
use bitcoin_core_rpc.Errors.{
  Exception, Reason, Result, ok, raise, unknown_core_chain, unknown_network,
}
use bitcoin_core_rpc.Prelude.{
  Bool, Bool-cases, Bytes, List, Option, Text, [], arith, if◌then◌else◌, inl, inr, is_some, length,
  lookup, none, refl, some, sym, text_eq, text_eq_iff, ℕ, ◌==◌, ◌↔◌, ◌∷◌, ◌≡◌, ◌≤◌, ◌⊎◌,
}
use bitcoin_core_rpc.Value.{Scalar, str}

-- the table has this value under this name
abbrev pub Entry : {V : Type 0} → Text → V → List (Text × V) → Type 0
Entry k v [] = ⊥
Entry k v ((j, w) ∷ m) = ((k ≡ j) × (v ≡ w)) ⊎ Entry k v m

abbrev keys {ℓ} : {V : Type ℓ} → List (Text × V) → List Text
keys [] = []
keys ((j, w) ∷ m) = j ∷ keys m

abbrev pub Entries : {V : Type 0} → (Text → V → Type 0) → List (Text × V) → Type 0
Entries P [] = Unit
Entries P ((j, w) ∷ m) = P j w × Entries P m

module _ {V : Type 0} where
  lookup-Entry : (k : Text) (v : V) (m : List (Text × V)) → lookup k m ≡ some v → Entry k v m
  unfolding lookup
  lookup-Entry k v [] h = absurd (ground arith)
  lookup-Entry k v ((j, w) ∷ m) h = elim (Bool-cases (text_eq j k)) [
    | inl e ↦ inl (sym ((text_eq_iff j k).0 e), ground arith)
    | inr e ↦ inr (lookup-Entry k v m (rw (lookup, e) at h))
  ]

  -- what holds of each row holds of what is found
  pub Entry-all :
      (P : Text → V → Type 0) (m : List (Text × V)) (k : Text) (v : V)
      → Entries P m
      → Entry k v m
      → P k v
  Entry-all P [] k v all_ e = elim e [ ]
  Entry-all P ((j, w) ∷ m) k v (h, t) e = elim e [
    | inl (a, b) ↦ rw (a, b) h
    | inr r ↦ Entry-all P m k v t r
  ]

  pub from_table-Entry :
      (m : List (Text × V)) (reason : Text → Reason) (x : Scalar) (v : V)
      → from_table m reason x ≡ ok v
      → (k : Text) × (x ≡ str k) × Entry k v m
  unfolding from_table
  from_table-Entry m reason (str k) v h = (k, refl, lookup-Entry k v m (ground arith))
  from_table-Entry m reason x v h = absurd (ground arith)

  -- what holds of each row holds of what a lookup answers with
  found :
      (P : Text → V → Type 0) (m : List (Text × V)) (reason : Text → Reason) (k : Text) (v : V)
      → Entries P m
      → from_table m reason (str k) ≡ ok v
      → P k v
  unfolding from_table
  found P m reason k v all_ h = Entry-all P m k v all_ (lookup-Entry k v m (ground arith))

-- two tables with the same names find the same names
lookup-keys :
    {V W : Type 0} (k : Text) (m : List (Text × V)) (n : List (Text × W))
    → keys m ≡ keys n
    → is_some (lookup k m) ≡ is_some (lookup k n)
unfolding lookup
lookup-keys k [] [] h = refl
lookup-keys k [] (x ∷ n) h = absurd (ground arith)
lookup-keys k (x ∷ m) [] h = absurd (ground arith)
lookup-keys k ((i, v) ∷ m) ((j, w) ∷ n) h =
    let e : i ≡ j = ground arith in let r = lookup-keys k m n (ground arith) in rw e (ground arith)

-- the exception, if any
abbrev pub exception_of {ℓ} : {A : Type ℓ} → Result A → Option Exception
exception_of (ok a) = none
exception_of (raise e) = some e

from_table-keys :
    {V W : Type 0} (m : List (Text × V)) (n : List (Text × W)) (reason : Text → Reason) (x : Scalar)
    → keys m ≡ keys n
    → exception_of (from_table m reason x) ≡ exception_of (from_table n reason x)
unfolding from_table
from_table-keys m n reason (str k) h = ground (arith, lookup-keys k m n h)
from_table-keys m n reason _ h = refl

-- The four lookups by a chain's name know the same chains: for any value they all answer, or all
-- raise the same exception.
pub chains_known_alike :
    (x : Scalar)
    → (exception_of (rpc_port_from_chain x) ≡ exception_of (datadir_subdir_from_chain x))
      × (exception_of (rpc_port_from_chain x) ≡ exception_of (network_from_chain x))
      × (exception_of (rpc_port_from_chain x) ≡ exception_of (magic_from_chain x))
unfolding rpc_port_from_chain datadir_subdir_from_chain network_from_chain magic_from_chain swapped
chains_known_alike x =
    let same = λ (V : Type 0) (m : List (Text × V)) (h : keys rpc_port_table ≡ keys m).
      from_table-keys rpc_port_table m unknown_core_chain x h in
    (
      same Text datadir_subdir_table refl,
      same Text network_from_chain_table refl,
      same Bytes magic_table refl,
    )

-- `chain_from_network` and `network_from_chain` are inverse to one another.
pub chain_from_network-network_from_chain :
    (network chain : Text)
    → (chain_from_network (str network) ≡ ok chain) ↔ (network_from_chain (str chain) ≡ ok network)
unfolding chain_from_network network_from_chain swapped text_eq
chain_from_network-network_from_chain network chain = (
  λ h.
      found {V = Text} (λ n c. network_from_chain (str c) ≡ ok n) chain_from_network_table
        unknown_network network chain (refl, (refl, (refl, (refl, (refl, tt))))) h,
  λ h.
      found {V = Text} (λ c n. chain_from_network (str n) ≡ ok c) network_from_chain_table
        unknown_core_chain chain network (refl, (refl, (refl, (refl, (refl, tt))))) h,
)

-- the name of a row by its value
reverse_lookup : {V : Type 0} → (V → V → Bool) → List (Text × V) → V → Option Text
reverse_lookup eq [] v = none
reverse_lookup eq ((j, w) ∷ m) v = if eq w v then some j else reverse_lookup eq m v

-- where each row is found by its value, two names of one value are the same
from_table-injective :
    {V : Type 0} (eq : V → V → Bool) (m : List (Text × V)) (x y : Scalar) (v : V)
    → Entries (λ k w. reverse_lookup eq m w ≡ some k) m
    → from_table m unknown_core_chain x ≡ ok v
    → from_table m unknown_core_chain y ≡ ok v
    → x ≡ y
from_table-injective eq m x y v rows h k =
    let (a, p, s) = from_table-Entry m unknown_core_chain x v h in
    let (b, q, t) = from_table-Entry m unknown_core_chain y v k in
    let f = Entry-all (λ k w. reverse_lookup eq m w ≡ some k) m a v rows s in
    let g = Entry-all (λ k w. reverse_lookup eq m w ≡ some k) m b v rows t in
    let same : a ≡ b = ground arith in cc

-- the two names share a port, a data directory or a network magic
abbrev pub ShareEntry : Scalar → Scalar → Type 0
ShareEntry x y =
    ((p : ℕ) × (rpc_port_from_chain x ≡ ok p) × (rpc_port_from_chain y ≡ ok p))
    ⊎ (((d : Text) × (datadir_subdir_from_chain x ≡ ok d) × (datadir_subdir_from_chain y ≡ ok d))
        ⊎ ((m : Bytes) × (magic_from_chain x ≡ ok m) × (magic_from_chain y ≡ ok m)))

-- Two chains share no rpc port, no data directory and no network magic.
pub chains_apart : (x y : Scalar) → ShareEntry x y → x ≡ y
unfolding rpc_port_from_chain datadir_subdir_from_chain magic_from_chain text_eq reverse_lookup
chains_apart x y (inl (p, h, k)) =
    from_table-injective ◌==◌ rpc_port_table x y p (refl, (refl, (refl, (refl, (refl, tt))))) h k
chains_apart x y (inr (inl (d, h, k))) =
    from_table-injective text_eq datadir_subdir_table x y d
      (refl, (refl, (refl, (refl, (refl, tt))))) h k
chains_apart x y (inr (inr (m, h, k))) =
    from_table-injective text_eq magic_table x y m (refl, (refl, (refl, (refl, (refl, tt))))) h k

-- A message shows at most nineteen characters of a text that it quotes.
length-quoted : (name : Text) → length (quoted (str name)) ≤ 19
unfolding quoted
length-quoted name = ground arith
