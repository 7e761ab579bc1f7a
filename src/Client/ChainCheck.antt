-- ===== src/Client/ChainCheck.antt =====
-- src/bitcoin_core_rpc/client.py: holding a node to a chain (`_expected_magic`,
-- `_assert_chain_info`, `assert_chain`).
pub mod Agreement
use bitcoin_core_rpc.Chains.{magic_from_chain, quoted}
use bitcoin_core_rpc.Chains.Signet.{Challenge, hex_text, magic_from_signet_challenge}
use bitcoin_core_rpc.Errors.{
  Result, btc_value_error, challenge_unreadable, challenge_without_signet, fetch_error, is_instance,
  no_chain_reported, no_challenge_reported, ok, other_chain, other_signet, raise, refuse, ◌>>=◌,
  ◌>>◌,
}
use bitcoin_core_rpc.Errors.Classes.{value_error}
use bitcoin_core_rpc.Prelude.{
  Bool, Bytes, Option, Text, codes, if◌then◌else◌, none, not, some, text_eq,
}
use bitcoin_core_rpc.Value.{Json, Members, dict, end, get_or_none, scalar, str, type_name}

-- chain == "signet"
abbrev pub is_signet : Text → Bool
is_signet chain = text_eq chain (codes "signet")

-- `_expected_magic`
unfoldable pub expected_magic : (Bytes → Bytes) → Text → Option Challenge → Result (Option Bytes)
unfolding magic_from_chain magic_from_signet_challenge
expected_magic sha256 chain none =
    if is_signet chain then magic_from_chain (str chain) >>= (λ m. ok (some m)) else ok none
expected_magic sha256 chain (some challenge) =
    if not (is_signet chain)
    then raise (btc_value_error (challenge_without_signet (quoted (str chain))))
    else magic_from_signet_challenge sha256 challenge >>= (λ m. ok (some m))

-- reply if isinstance(reply, Mapping) else {}
abbrev pub info_of : Json → Members
info_of (dict m) = m
info_of _ = end

-- The end of `_assert_chain_info`, of what the node's challenge derives.
unfoldable pub assert_same_signet : Bytes → Result Bytes → Result (Unit {0})
unfolding is_instance
assert_same_signet expected (ok magic) =
    refuse (not (text_eq magic expected)) (btc_value_error other_signet)
assert_same_signet expected (raise e) =
    if is_instance e value_error then raise (fetch_error challenge_unreadable) else raise e

unfoldable pub assert_signet : (Bytes → Bytes) → Option Bytes → Json → Result (Unit {0})
unfolding assert_same_signet magic_from_signet_challenge
assert_signet sha256 none challenge = ok tt
assert_signet sha256 (some expected) (scalar (str t)) =
    assert_same_signet expected (magic_from_signet_challenge sha256 (hex_text t))
assert_signet sha256 (some expected) _ = raise (fetch_error no_challenge_reported)

unfoldable pub assert_chain_name : Text → Json → Json → Result (Unit {0})
assert_chain_name chain reply (scalar (str reported)) =
    refuse (not (text_eq reported chain))
      (btc_value_error (other_chain reported (quoted (str chain))))
assert_chain_name chain reply _ = raise (fetch_error (no_chain_reported (type_name reply)))

-- `_assert_chain_info`
unfoldable pub assert_chain_info : (Bytes → Bytes) → Json → Text → Option Bytes → Result (Unit {0})
unfolding assert_chain_name assert_signet
assert_chain_info sha256 reply chain expected =
    assert_chain_name chain reply (get_or_none (codes "chain") (info_of reply))
    >> assert_signet sha256 expected (get_or_none (codes "signet_challenge") (info_of reply))

-- `assert_chain`, of what `call("getblockchaininfo")` does
unfoldable pub assert_chain :
    (Bytes → Bytes) → Result Json → Text → Option Challenge → Result (Unit {0})
unfolding expected_magic assert_chain_info
assert_chain sha256 called chain challenge = do
  expected ← expected_magic sha256 chain challenge
  reply ← called
  assert_chain_info sha256 reply chain expected
