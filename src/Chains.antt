-- ===== src/Chains.antt =====
-- src/bitcoin_core_rpc/chains.py: what is known of each chain by its name.
pub mod Signet
pub mod Lookup
pub mod Cookie
pub mod Datadir
use bitcoin_core_rpc.Errors.{
  Reason, Result, btc_value_error, failure, library, ok, raise, unknown_core_chain, unknown_network,
}
use bitcoin_core_rpc.Errors.Classes.{type_error}
use bitcoin_core_rpc.Prelude.{
  Bytes, List, Text, [], codes, if◌then◌else◌, length, lookup, ltb, none, some, ℕ, ◌++◌, ◌∷◌,
}
use bitcoin_core_rpc.Value.{Scalar, bytearray, scalar_type_name, str}

-- `_RPC_PORT_FROM_CHAIN`
abbrev pub rpc_port_table : List (Text × ℕ)
rpc_port_table =
    (codes "main", 8332)
    ∷ (codes "test", 18332)
    ∷ (codes "testnet4", 48332)
    ∷ (codes "signet", 38332)
    ∷ (codes "regtest", 18443)
    ∷ []

-- `_DATADIR_SUBDIR_FROM_CHAIN`
abbrev pub datadir_subdir_table : List (Text × Text)
datadir_subdir_table =
    (codes "main", codes "")
    ∷ (codes "test", codes "testnet3")
    ∷ (codes "testnet4", codes "testnet4")
    ∷ (codes "signet", codes "signet")
    ∷ (codes "regtest", codes "regtest")
    ∷ []

-- `_NETWORK_CHAIN_PAIRS`
abbrev pub network_chain_pairs : List (Text × Text)
network_chain_pairs =
    (codes "mainnet", codes "main")
    ∷ (codes "testnet", codes "test")
    ∷ (codes "testnet4", codes "testnet4")
    ∷ (codes "signet", codes "signet")
    ∷ (codes "regtest", codes "regtest")
    ∷ []

-- `_CHAIN_FROM_NETWORK`
abbrev pub chain_from_network_table : List (Text × Text)
chain_from_network_table = network_chain_pairs

swapped : List (Text × Text) → List (Text × Text)
swapped [] = []
swapped ((network, chain) ∷ rest) = (chain, network) ∷ swapped rest

-- `_NETWORK_FROM_CHAIN`
abbrev pub network_from_chain_table : List (Text × Text)
unfolding swapped
network_from_chain_table = swapped network_chain_pairs

-- `_MAGIC_FROM_CHAIN`
abbrev pub magic_table : List (Text × Bytes)
magic_table =
    (codes "main", 0xf9 ∷ 0xbe ∷ 0xb4 ∷ 0xd9 ∷ [])
    ∷ (codes "test", 0x0b ∷ 0x11 ∷ 0x09 ∷ 0x07 ∷ [])
    ∷ (codes "testnet4", 0x1c ∷ 0x16 ∷ 0x3f ∷ 0x28 ∷ [])
    ∷ (codes "signet", 0x0a ∷ 0x03 ∷ 0xcf ∷ 0x40 ∷ [])
    ∷ (codes "regtest", 0xfa ∷ 0xbf ∷ 0xb5 ∷ 0xda ∷ [])
    ∷ []

abbrev pub max_name_shown : ℕ
max_name_shown = 16

-- `_quoted`: what a message shows of a name
unfoldable pub quoted : Scalar → Text
quoted (str name) = if ltb max_name_shown (length name) then codes "(too long to quote)" else name
quoted value = codes "a " ++ scalar_type_name value

-- `if name not in table: raise ...`, then `table[name]`; a value of another type is in no table,
-- and a `bytearray` cannot be looked up at all
unfoldable pub from_table {ℓ} : {V : Type ℓ} → List (Text × V) → (Text → Reason) → Scalar → Result V
from_table table reason (str name) = elim (lookup name table) [
  | none ↦ raise (btc_value_error (reason (quoted (str name))))
  | some v ↦ ok v
]
from_table table reason (bytearray b) = raise (failure type_error library)
from_table table reason value = raise (btc_value_error (reason (quoted value)))

unfoldable pub rpc_port_from_chain : Scalar → Result ℕ
unfolding from_table lookup
rpc_port_from_chain = from_table rpc_port_table unknown_core_chain

unfoldable pub datadir_subdir_from_chain : Scalar → Result Text
unfolding from_table lookup
datadir_subdir_from_chain = from_table datadir_subdir_table unknown_core_chain

unfoldable pub chain_from_network : Scalar → Result Text
unfolding from_table lookup
chain_from_network = from_table chain_from_network_table unknown_network

unfoldable pub network_from_chain : Scalar → Result Text
unfolding from_table lookup
network_from_chain = from_table network_from_chain_table unknown_core_chain

unfoldable pub magic_from_chain : Scalar → Result Bytes
unfolding from_table lookup
magic_from_chain = from_table magic_table unknown_core_chain
