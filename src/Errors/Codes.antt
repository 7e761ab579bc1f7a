-- ===== src/Errors/Codes.antt =====
-- src/bitcoin_core_rpc/errors.py: `RPCErrorCode`, an `IntEnum`.
use bitcoin_core_rpc.Prelude.{
  List, Option, Text, [], codes, eq_ℤ, if◌then◌else◌, lookup, negsuc, none, some, ℤ, ◌∷◌,
}

-- the names and their codes, in the order of the class body
abbrev pub rpc_error_codes : List (Text × ℤ)
rpc_error_codes =
    (codes "PARSE_ERROR", negsuc 32699)
    ∷ (codes "INVALID_REQUEST", negsuc 32599)
    ∷ (codes "METHOD_NOT_FOUND", negsuc 32600)
    ∷ (codes "INVALID_PARAMS", negsuc 32601)
    ∷ (codes "INTERNAL_ERROR", negsuc 32602)
    ∷ (codes "MISC_ERROR", negsuc 0)
    ∷ (codes "TYPE_ERROR", negsuc 2)
    ∷ (codes "INVALID_ADDRESS_OR_KEY", negsuc 4)
    ∷ (codes "OUT_OF_MEMORY", negsuc 6)
    ∷ (codes "INVALID_PARAMETER", negsuc 7)
    ∷ (codes "DATABASE_ERROR", negsuc 19)
    ∷ (codes "DESERIALIZATION_ERROR", negsuc 21)
    ∷ (codes "VERIFY_ERROR", negsuc 24)
    ∷ (codes "VERIFY_REJECTED", negsuc 25)
    ∷ (codes "VERIFY_ALREADY_IN_UTXO_SET", negsuc 26)
    ∷ (codes "IN_WARMUP", negsuc 27)
    ∷ (codes "METHOD_DEPRECATED", negsuc 31)
    ∷ (codes "TRANSACTION_ERROR", negsuc 24)
    ∷ (codes "TRANSACTION_REJECTED", negsuc 25)
    ∷ (codes "CLIENT_NOT_CONNECTED", negsuc 8)
    ∷ (codes "CLIENT_IN_INITIAL_DOWNLOAD", negsuc 9)
    ∷ (codes "CLIENT_NODE_ALREADY_ADDED", negsuc 22)
    ∷ (codes "CLIENT_NODE_NOT_ADDED", negsuc 23)
    ∷ (codes "CLIENT_NODE_NOT_CONNECTED", negsuc 28)
    ∷ (codes "CLIENT_INVALID_IP_OR_SUBNET", negsuc 29)
    ∷ (codes "CLIENT_P2P_DISABLED", negsuc 30)
    ∷ (codes "CLIENT_NODE_CAPACITY_REACHED", negsuc 33)
    ∷ (codes "CLIENT_MEMPOOL_DISABLED", negsuc 32)
    ∷ (codes "WALLET_ERROR", negsuc 3)
    ∷ (codes "WALLET_INSUFFICIENT_FUNDS", negsuc 5)
    ∷ (codes "WALLET_INVALID_LABEL_NAME", negsuc 10)
    ∷ (codes "WALLET_KEYPOOL_RAN_OUT", negsuc 11)
    ∷ (codes "WALLET_UNLOCK_NEEDED", negsuc 12)
    ∷ (codes "WALLET_PASSPHRASE_INCORRECT", negsuc 13)
    ∷ (codes "WALLET_WRONG_ENC_STATE", negsuc 14)
    ∷ (codes "WALLET_ENCRYPTION_FAILED", negsuc 15)
    ∷ (codes "WALLET_ALREADY_UNLOCKED", negsuc 16)
    ∷ (codes "WALLET_NOT_FOUND", negsuc 17)
    ∷ (codes "WALLET_NOT_SPECIFIED", negsuc 18)
    ∷ (codes "WALLET_ALREADY_LOADED", negsuc 34)
    ∷ (codes "WALLET_ALREADY_EXISTS", negsuc 35)
    ∷ (codes "WALLET_INVALID_ACCOUNT_NAME", negsuc 10)
    ∷ (codes "FORBIDDEN_BY_SAFE_MODE", negsuc 1)
    ∷ []

-- RPCErrorCode[name]
unfoldable pub code_named : Text → Option ℤ
unfolding lookup
code_named name = lookup name rpc_error_codes

-- the name of the first member with a code, of which later ones are aliases
unfoldable pub first_name : ℤ → List (Text × ℤ) → Option Text
first_name code [] = none
first_name code ((name, c) ∷ rest) = if eq_ℤ c code then some name else first_name code rest

-- RPCErrorCode(code).name, `none` where it raises `ValueError`
unfoldable pub name_of_code : ℤ → Option Text
unfolding first_name
name_of_code code = first_name code rpc_error_codes
