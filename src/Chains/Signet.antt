-- ===== src/Chains/Signet.antt =====
-- src/bitcoin_core_rpc/chains.py: the magic of a signet (`magic_from_signet_challenge`,
-- `_compact_size`).
pub mod RoundTrip
use bitcoin_core_rpc.Errors.{
  Result, btc_type_error, btc_value_error, challenge_no_hex, challenge_no_script, ok, raise, ◌>>=◌,
  ◌>>◌,
}
use bitcoin_core_rpc.Prelude.{
  Bool, Bytes, Option, Text, [], false, if◌then◌else◌, leb, length, ltb, none, some, suc, take,
  true, zero, ℕ, ◌%◌, ◌&&◌, ◌*◌, ◌++◌, ◌+◌, ◌-◌, ◌/◌, ◌==◌, ◌||◌, ◌∷◌,
}
-- length.to_bytes(n, "little")
use bitcoin_core_rpc.Errors.{
  Result, btc_type_error, btc_value_error, challenge_no_hex, challenge_no_script, ok, raise, ◌>>=◌,
}
use bitcoin_core_rpc.Prelude.{
  Bool, Bytes, Option, Text, [], false, if◌then◌else◌, leb, length, ltb, none, some, suc, take,
  true, zero, ℕ, ◌%◌, ◌&&◌, ◌*◌, ◌++◌, ◌+◌, ◌-◌, ◌/◌, ◌==◌, ◌||◌, ◌∷◌,
}

unfoldable pub to_bytes : ℕ → ℕ → Bytes
to_bytes zero x = []
to_bytes (suc n) x = (x % 256) ∷ to_bytes n (x / 256)

-- `_compact_size`
unfoldable pub compact_size : ℕ → Bytes
unfolding to_bytes
compact_size size =
    if ltb size 0xfd
    then size ∷ []
    else if leb size 0xffff
    then 0xfd ∷ to_bytes 2 size
    else if leb size 0xffffffff
    then 0xfe ∷ to_bytes 4 size
    else 0xff ∷ to_bytes 8 size

-- What a caller passes as a challenge: a script as text or as octets, or something else.
pub data Challenge : Type 0 where
  hex_text : Text → Challenge
  script : Bytes → Challenge
  no_challenge_type : (kind : Text) → Challenge

-- the value of a hexadecimal digit
unfoldable pub hex_value : ℕ → Option ℕ
hex_value c =
    if leb b'0' c && leb c b'9'
    then some (c - 48)
    else if leb b'a' c && leb c b'f'
    then some (c - 87)
    else if leb b'A' c && leb c b'F'
    then some (c - 55)
    else none

-- the ASCII whitespace that `bytes.fromhex` passes over between two octets
abbrev pub is_hex_space : ℕ → Bool
is_hex_space c = c == 32 || leb 9 c && leb c 13

-- the octet of two digits in front of the rest
unfoldable pub octet : Option ℕ → Option ℕ → Option Bytes → Option Bytes
octet (some h) (some l) (some rest) = some ((16 * h + l) ∷ rest)
octet _ _ _ = none

-- bytes.fromhex(text), `none` where it raises `ValueError`
unfoldable pub fromhex : Text → Option Bytes
unfolding hex_value octet
fromhex [] = some []
fromhex (c ∷ []) = if is_hex_space c then some [] else none
fromhex (c ∷ d ∷ rest) = elim (is_hex_space c) [
  | true ↦ fromhex (d ∷ rest)
  | false ↦ octet (hex_value c) (hex_value d) (fromhex rest)
]

-- the script of a challenge
unfoldable pub challenge_script : Challenge → Result Bytes
unfolding fromhex
challenge_script (hex_text t) = elim (fromhex t) [
  | none ↦ raise (btc_value_error challenge_no_hex)
  | some s ↦ ok s
]
challenge_script (script s) = ok s
challenge_script (no_challenge_type kind) = raise (btc_type_error (challenge_no_script kind))

-- `magic_from_signet_challenge`; `sha256` is the hash of the standard library.
unfoldable pub magic_from_signet_challenge : (Bytes → Bytes) → Challenge → Result Bytes
unfolding challenge_script compact_size
magic_from_signet_challenge sha256 challenge = do
  s ← challenge_script challenge
  let serialized = compact_size (length s) ++ s
  ok (take 4 (sha256 (sha256 serialized)))
