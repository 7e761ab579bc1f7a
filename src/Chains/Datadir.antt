-- ===== src/Chains/Datadir.antt =====
-- src/bitcoin_core_rpc/chains.py: where a node keeps its files (`default_datadir`,
-- `cookie_path_from_chain`).
pub mod Absolute
use bitcoin_core_rpc.Chains.{datadir_subdir_from_chain}
use bitcoin_core_rpc.Errors.{Result, btc_value_error, no_default_datadir, ok, raise, ◌>>=◌, ◌>>◌}
use bitcoin_core_rpc.Errors.Classes.{base}
use bitcoin_core_rpc.Prelude.{
  Bool, List, Option, Text, [], codes, if◌then◌else◌, lookup, none, some, ◌∷◌,
}
use bitcoin_core_rpc.Value.{Scalar}

-- `pathlib` and the process environment, over the paths of the platform.
pub record Platform (P : Type 0) : Type 0 where
  pub name : Text
  pub home : Option P
  pub environ : Text → Option Text
  pub path : Text → P
  pub is_absolute : P → Bool
  pub joined : P → Text → P

-- base.joinpath(*subdirs)
unfoldable pub joinpath : {P : Type 0} → Platform P → P → List Text → P
joinpath platform base [] = base
joinpath platform base (d ∷ ds) = joinpath platform (platform.joined base d) ds

-- `_DATADIR_FROM_PLATFORM`
abbrev pub datadir_from_platform : List (Text × (Option Text × List Text))
datadir_from_platform =
    (codes "darwin", (none, codes "Library" ∷ codes "Application Support" ∷ codes "Bitcoin" ∷ []))
    ∷ (codes "win32", (some (codes "APPDATA"), codes "Bitcoin" ∷ []))
    ∷ []

-- `_DATADIR_ELSEWHERE`
abbrev pub datadir_elsewhere : Option Text × List Text
datadir_elsewhere = (none, codes ".bitcoin" ∷ [])

-- the base directory: the home, or what the variable names
unfoldable pub datadir_base : {P : Type 0} → Platform P → Option Text → Option P
datadir_base platform none = platform.home
datadir_base platform (some var) = elim (platform.environ var) [
  | none ↦ none
  | some named ↦ some (platform.path named)
]

-- `_DATADIR_FROM_PLATFORM.get(sys.platform, _DATADIR_ELSEWHERE)`
unfoldable pub datadir_row : Text → Option Text × List Text
unfolding lookup
datadir_row platform_name = elim (lookup platform_name datadir_from_platform) [
  | none ↦ datadir_elsewhere
  | some row ↦ row
]

-- `default_datadir`
unfoldable pub default_datadir : {P : Type 0} → Platform P → Option P
unfolding datadir_row joinpath datadir_base
default_datadir platform = elim (datadir_base platform (datadir_row platform.name).0) [
  | none ↦ none
  | some root ↦
      if platform.is_absolute root
      then some (joinpath platform root (datadir_row platform.name).1)
      else none
]

-- the datadir that was passed, or the platform's
abbrev pub datadir_or_default : {P : Type 0} → Platform P → Option P → Option P
datadir_or_default platform none = default_datadir platform
datadir_or_default platform (some d) = some d

-- `cookie_path_from_chain`
unfoldable pub cookie_path_from_chain : {P : Type 0} → Platform P → Scalar → Option P → Result P
unfolding default_datadir
cookie_path_from_chain platform chain datadir = elim (datadir_or_default platform datadir) [
  | none ↦ raise (btc_value_error no_default_datadir)
  | some d ↦ do
    subdir ← datadir_subdir_from_chain chain
    ok (platform.joined (platform.joined d subdir) (codes ".cookie"))
]
