-- ===== src/Client/ChainCheck/Agreement.antt =====
-- Which nodes `assert_chain` of src/bitcoin_core_rpc/client.py lets pass.
use bitcoin_core_rpc.Chains.{from_table, magic_from_chain}
use bitcoin_core_rpc.Chains.Signet.{Challenge, hex_text, magic_from_signet_challenge}
use bitcoin_core_rpc.Client.ChainCheck.{
  assert_chain, assert_chain_info, assert_chain_name, assert_same_signet, assert_signet,
  expected_magic, info_of, is_signet,
}
use bitcoin_core_rpc.Errors.{>>-eq-ok, >>=-eq-ok, Result, is_instance, ok, raise}
use bitcoin_core_rpc.Errors.Classes.{value_error}
use bitcoin_core_rpc.Prelude.{
  Bool-cases, Bytes, Option, Text, [], arith, codes, inl, inr, lookup, none, refl, some, sym,
  text_eq, text_eq_iff, ◌↔◌, ◌∙◌, ◌∷◌, ◌≡◌, ◌≢◌, ◌⊎◌,
}
use bitcoin_core_rpc.Value.{Json, get_or_none, scalar, str}

-- the magic of the default signet, as the tables of Bitcoin Core have it
abbrev pub default_signet : Bytes
default_signet = 10 ∷ 3 ∷ 207 ∷ 64 ∷ []

signet_magic : magic_from_chain (str (codes "signet")) ≡ ok default_signet
unfolding magic_from_chain from_table lookup text_eq
signet_magic = refl

-- What the node's member has to be for the signet that is meant; no magic is for a chain that is no
-- signet, or for no comparison.
abbrev pub SameSignet : (Bytes → Bytes) → Option Bytes → Json → Type 0
SameSignet sha256 none challenge = Unit
SameSignet sha256 (some expected) challenge =
    (t : Text) × (challenge ≡ scalar (str t))
    × (magic_from_signet_challenge sha256 (hex_text t) ≡ ok expected)

-- The reply that agrees with the caller: it names the chain, and the signet where one is expected.
abbrev pub Agrees : (Bytes → Bytes) → Json → Text → Option Bytes → Type 0
Agrees sha256 reply chain expected =
    (get_or_none (codes "chain") (info_of reply) ≡ scalar (str chain))
    × SameSignet sha256 expected (get_or_none (codes "signet_challenge") (info_of reply))

-- What the caller means: off signet no challenge and no magic; on signet the magic that the challenge
-- derives, and without a challenge the magic of the default signet.
abbrev pub Means : (Bytes → Bytes) → Text → Option Challenge → Option Bytes → Type 0
Means sha256 chain none expected =
    ((chain ≡ codes "signet") × (expected ≡ some default_signet))
    ⊎ ((chain ≢ codes "signet") × (expected ≡ none))
Means sha256 chain (some challenge) expected =
    (chain ≡ codes "signet")
    × ((magic : Bytes) × (magic_from_signet_challenge sha256 challenge ≡ ok magic)
        × (expected ≡ some magic))

expected_magic-ok_iff :
    (sha256 : Bytes → Bytes) (chain : Text) (challenge : Option Challenge) (expected : Option Bytes)
    → (expected_magic sha256 chain challenge ≡ ok expected) ↔ Means sha256 chain challenge expected
unfolding expected_magic
expected_magic-ok_iff sha256 chain none expected = elim (Bool-cases (is_signet chain)) [
  | inl t ↦
      let here : chain ≡ codes "signet" = (text_eq_iff chain (codes "signet")).0 t in
      let found : magic_from_chain (str chain) ≡ ok default_signet = rw here signet_magic in
      rw (t, found)
        (
          λ h. inl (here, ground arith),
          λ h. elim h [ inl (_, e) ↦ ground arith | inr (n, _) ↦ absurd (n here) ],
        )
  | inr f ↦
      let away : chain ≢ codes "signet" =
        λ e. (let t = (text_eq_iff chain (codes "signet")).1 e in absurd cc) in
      rw f (
        λ h. inr (away, ground arith),
        λ h. elim h [ inl (e, _) ↦ absurd (away e) | inr (_, e) ↦ ground arith ],
      )
]
expected_magic-ok_iff sha256 chain (some challenge) expected = elim (Bool-cases (is_signet chain)) [
  | inl t ↦
      let here : chain ≡ codes "signet" = (text_eq_iff chain (codes "signet")).0 t in
      rw t (
        λ h.
            let (m, q, e) = >>=-eq-ok (magic_from_signet_challenge sha256 challenge) _ h in
            (here, (m, q, ground arith)),
        λ (_, (m, q, e)). rw (q, e) refl,
      )
  | inr f ↦ rw f (
    λ h. absurd (ground arith),
    λ (e, _). (let t = (text_eq_iff chain (codes "signet")).1 e in absurd cc),
  )
]

assert_chain_name-ok_iff :
    (chain : Text) (reply reported : Json)
    → (assert_chain_name chain reply reported ≡ ok tt) ↔ (reported ≡ scalar (str chain))
unfolding assert_chain_name
assert_chain_name-ok_iff chain reply (scalar (str r)) = ground (arith, text_eq_iff r chain)
assert_chain_name-ok_iff chain reply _ = ground arith

assert_same_signet-ok_iff :
    (expected : Bytes) (r : Result Bytes)
    → (assert_same_signet expected r ≡ ok tt) ↔ (r ≡ ok expected)
unfolding assert_same_signet
assert_same_signet-ok_iff expected (ok magic) = ground (arith, text_eq_iff magic expected)
assert_same_signet-ok_iff expected (raise e) = (
  λ h. elim (Bool-cases (is_instance e value_error)) [
    | inl b ↦ let h' = rw (assert_same_signet, b) at h in absurd (ground arith)
    | inr b ↦ let h' = rw (assert_same_signet, b) at h in absurd (ground arith)
  ],
  λ h. absurd (ground arith),
)

assert_signet-ok_iff :
    (sha256 : Bytes → Bytes) (expected : Option Bytes) (challenge : Json)
    → (assert_signet sha256 expected challenge ≡ ok tt) ↔ SameSignet sha256 expected challenge
unfolding assert_signet
assert_signet-ok_iff sha256 none challenge = (λ h. tt, λ h. refl)
assert_signet-ok_iff sha256 (some expected) (scalar (str t)) =
    let i = assert_same_signet-ok_iff expected (magic_from_signet_challenge sha256 (hex_text t)) in
    (λ h. (t, refl, i.0 h), λ (u, e, q). let same : t ≡ u = ground arith in i.1 (rw same q))
assert_signet-ok_iff sha256 (some expected) _ =
    (λ h. absurd (ground arith), λ (u, e, q). absurd (ground arith))

-- `_assert_chain_info` passes exactly when the reply's `chain` is the caller's and, where a magic is
-- expected, its `signet_challenge` is hex text that derives that magic.
assert_chain_info-ok_iff :
    (sha256 : Bytes → Bytes) (reply : Json) (chain : Text) (expected : Option Bytes)
    → (assert_chain_info sha256 reply chain expected ≡ ok tt) ↔ Agrees sha256 reply chain expected
unfolding assert_chain_info
assert_chain_info-ok_iff sha256 reply chain expected =
    let reported = get_or_none (codes "chain") (info_of reply) in
    let challenge = get_or_none (codes "signet_challenge") (info_of reply) in
    let name = assert_chain_name-ok_iff chain reply reported in
    let signet = assert_signet-ok_iff sha256 expected challenge in
    (
      λ h.
          let (p, q) =
            >>-eq-ok (assert_chain_name chain reply reported)
              (assert_signet sha256 expected challenge) h in
          (name.0 p, signet.0 q),
      λ (p, q). rw (name.1 p, signet.1 q),
    )

-- `assert_chain` passes exactly when the call returned a reply that names the chain, and either the
-- chain is not signet and no challenge was given, or it is signet and the challenge of the reply
-- derives the magic of the caller's challenge, or without one that of the default signet.
pub assert_chain-ok_iff :
    (sha256 : Bytes → Bytes) (called : Result Json) (chain : Text) (challenge : Option Challenge)
    → (assert_chain sha256 called chain challenge ≡ ok tt) ↔ (
        (expected : Option Bytes) × (reply : Json) × Means sha256 chain challenge expected
        × (called ≡ ok reply)
        × Agrees sha256 reply chain expected)
unfolding assert_chain
assert_chain-ok_iff sha256 called chain challenge = (
  λ h.
      let (expected, p, h') = >>=-eq-ok (expected_magic sha256 chain challenge) _ h in
      let (reply, q, h'') = >>=-eq-ok called _ h' in
      (
        expected,
        reply,
        (expected_magic-ok_iff sha256 chain challenge expected).0 p,
        q,
        (assert_chain_info-ok_iff sha256 reply chain expected).0 h'',
      ),
  λ (expected, reply, p, q, agrees).
      rw ((expected_magic-ok_iff sha256 chain challenge expected).1 p, q)
        ((assert_chain_info-ok_iff sha256 reply chain expected).1 agrees),
)

-- a challenge that passes derives the magic of the node's own
assert_chain-magic :
    (sha256 : Bytes → Bytes) (reply : Json) (challenge : Challenge)
    → assert_chain sha256 (ok reply) (codes "signet") (some challenge) ≡ ok tt
    → (t : Text) × (get_or_none (codes "signet_challenge") (info_of reply) ≡ scalar (str t))
      × (magic_from_signet_challenge sha256 challenge
          ≡ magic_from_signet_challenge sha256 (hex_text t))
unfolding assert_chain expected_magic text_eq
assert_chain-magic sha256 reply challenge h =
    let (expected, p, h') =
      >>=-eq-ok (expected_magic sha256 (codes "signet") (some challenge)) _ h in
    let (m, e, s) = >>=-eq-ok (magic_from_signet_challenge sha256 challenge) _ p in
    let same : some m ≡ expected = ground arith in
    let agrees = (assert_chain_info-ok_iff sha256 reply (codes "signet") expected).0 h' in
    let (t, c, d) = rw (sym same) at agrees.1 in (t, c, e ∙ sym d)

-- Two signets that one node passes for have the same magic, however their challenges are written.
pub assert_chain-one_signet :
    (sha256 : Bytes → Bytes) (reply : Json) (mine yours : Challenge)
    → assert_chain sha256 (ok reply) (codes "signet") (some mine) ≡ ok tt
    → assert_chain sha256 (ok reply) (codes "signet") (some yours) ≡ ok tt
    → magic_from_signet_challenge sha256 mine ≡ magic_from_signet_challenge sha256 yours
assert_chain-one_signet sha256 reply mine yours h k =
    let (t, c, d) = assert_chain-magic sha256 reply mine h in
    let (u, c', d') = assert_chain-magic sha256 reply yours k in
    let same : t ≡ u = let e = sym c ∙ c' in ground arith in d ∙ rw same (sym d')
