-- ===== src/Chains/Datadir/Absolute.antt =====
-- Where a derived cookie path of src/bitcoin_core_rpc/chains.py points.
use mathlib.Core.Path.{subst}
use bitcoin_core_rpc.Chains.{datadir_subdir_from_chain, datadir_subdir_table}
use bitcoin_core_rpc.Chains.Datadir.{
  Platform, cookie_path_from_chain, datadir_base, datadir_row, default_datadir, joinpath,
}
use bitcoin_core_rpc.Chains.Lookup.{Entry-all, from_table-Entry}
use bitcoin_core_rpc.Errors.{>>=-eq-ok, ok, unknown_core_chain}
use bitcoin_core_rpc.Errors.Classes.{base}
use bitcoin_core_rpc.Params.{contains}
use bitcoin_core_rpc.Prelude.{
  Bool, Bool-cases, List, Option-cases, Text, [], arith, codes, inl, inr, lookup, none, not, refl,
  some, text_eq, true, ◌||◌, ◌∷◌, ◌≡◌,
}
use bitcoin_core_rpc.Value.{Scalar}

-- a part that names no drive and no root: it has no separator and no colon
abbrev pub is_plain : Text → Bool
is_plain part = not (contains part b':' || contains part b'/' || contains part 92)

-- what pathlib documents: an absolute path stays absolute when a part without drive and root is
-- joined to it
abbrev pub KeepsAbsolute : {P : Type 0} → Platform P → Type 0
KeepsAbsolute {P} platform =
    (base : P) (part : Text)
    → is_plain part ≡ true
    → platform.is_absolute base ≡ true
    → platform.is_absolute (platform.joined base part) ≡ true

abbrev ArePlain : List Text → Type 0
ArePlain [] = Unit
ArePlain (part ∷ rest) = (is_plain part ≡ true) × ArePlain rest

-- the parts that the source joins
datadir_row-ArePlain : (name : Text) → ArePlain (datadir_row name).1
unfolding datadir_row lookup
datadir_row-ArePlain name = elim (Bool-cases (text_eq (codes "darwin") name)) [
  | inl t ↦ rw (ArePlain, t) (refl, (refl, (refl, tt)))
  | inr f ↦ elim (Bool-cases (text_eq (codes "win32") name)) [
    | inl t ↦ rw (ArePlain, f, t) (refl, tt)
    | inr g ↦ rw (ArePlain, f, g) (refl, tt)
  ]
]

joinpath-absolute :
    {P : Type 0} (platform : Platform P) (base : P) (parts : List Text)
    → KeepsAbsolute platform
    → ArePlain parts
    → platform.is_absolute base ≡ true
    → platform.is_absolute (joinpath platform base parts) ≡ true
unfolding joinpath
joinpath-absolute platform base [] law all_plain h = h
joinpath-absolute platform base (part ∷ rest) law (p, ps) h =
    joinpath-absolute platform (platform.joined base part) rest law ps (law base part p h)

subdir-is_plain :
    (chain : Scalar) (subdir : Text)
    → datadir_subdir_from_chain chain ≡ ok subdir
    → is_plain subdir ≡ true
unfolding datadir_subdir_from_chain
subdir-is_plain chain subdir h =
    let (k, e, row) = from_table-Entry datadir_subdir_table unknown_core_chain chain subdir h in
    Entry-all (λ k v. is_plain v ≡ true) datadir_subdir_table k subdir
      (refl, (refl, (refl, (refl, (refl, tt))))) row

default_datadir-absolute :
    {P : Type 0} (platform : Platform P) (d : P)
    → KeepsAbsolute platform
    → default_datadir platform ≡ some d
    → platform.is_absolute d ≡ true
unfolding default_datadir
default_datadir-absolute platform d law h =
    let row = datadir_row platform.name in
    elim (Option-cases (datadir_base platform row.0)) [
      | inl q ↦ let h' = rw (default_datadir, q) at h in absurd (ground arith)
      | inr (root, q) ↦ elim (Bool-cases (platform.is_absolute root)) [
        | inl a ↦
            let h' = rw (default_datadir, q, a) at h in
            let same : joinpath platform root row.1 ≡ d = ground arith in
            subst (λ x. platform.is_absolute x ≡ true) same
              (joinpath-absolute platform root row.1 law (datadir_row-ArePlain platform.name) a)
        | inr a ↦ let h' = rw (default_datadir, q, a) at h in absurd (ground arith)
      ]
    ]

-- A cookie path that is derived without a data directory is absolute, so it does not depend on the
-- working directory. The condition is that joining a part
-- without drive and root keeps a path absolute.
pub cookie_path_from_chain-absolute :
    {P : Type 0} (platform : Platform P) (chain : Scalar) (p : P)
    → KeepsAbsolute platform
    → cookie_path_from_chain platform chain none ≡ ok p
    → platform.is_absolute p ≡ true
unfolding cookie_path_from_chain
cookie_path_from_chain-absolute platform chain p law h =
    elim (Option-cases (default_datadir platform)) [
      | inl q ↦ let h' = rw (cookie_path_from_chain, q) at h in absurd (ground arith)
      | inr (d, q) ↦
          let (subdir, r, e) =
            >>=-eq-ok (datadir_subdir_from_chain chain) _ (rw (cookie_path_from_chain, q) at h) in
          let same : platform.joined (platform.joined d subdir) (codes ".cookie") ≡ p =
            ground arith in
          subst (λ x. platform.is_absolute x ≡ true) same
            (law _ _ refl (
              law d subdir (subdir-is_plain chain subdir r)
                (default_datadir-absolute platform d law q)))
    ]
