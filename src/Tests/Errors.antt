-- ===== src/Tests/Errors.antt =====
-- Runs of src/bitcoin_core_rpc/errors.py.
use bitcoin_core_rpc.Errors.Codes.{code_named, name_of_code}
use bitcoin_core_rpc.Errors.Shown.{
  ArePrintable, PrintsAscii, rpc_error_text, rpc_error_text-ArePrintable,
}
use bitcoin_core_rpc.Prelude.{
  Bool, [], arith, codes, leb, negsuc, refl, show_ℤ, some, text_eq, ℕ, ◌&&◌, ◌∷◌, ◌≡◌,
}

abbrev ascii_only : ℕ → Bool
ascii_only c = leb 32 c && leb c 126

ascii_only-PrintsAscii : PrintsAscii ascii_only
ascii_only-PrintsAscii c h k = ground arith

-- a line end and an escape character in the node's message
forged_text :
    rpc_error_text ascii_only (10 ∷ 27 ∷ []) (negsuc 4) ≡ codes "\\n\\x1b (rpc error code -5)"
unfolding rpc_error_text show_ℤ
forged_text = refl

rpc_error_text-ArePrintable_example :
    ArePrintable ascii_only (rpc_error_text ascii_only (10 ∷ 27 ∷ []) (negsuc 4))
rpc_error_text-ArePrintable_example =
    rpc_error_text-ArePrintable ascii_only ascii_only-PrintsAscii (10 ∷ 27 ∷ []) (negsuc 4)

-- an alias has the code of the first name
alias_run :
    (code_named (codes "TRANSACTION_ERROR") ≡ some (negsuc 24))
    × (name_of_code (negsuc 24) ≡ some (codes "VERIFY_ERROR"))
unfolding code_named text_eq name_of_code
alias_run = (refl, refl)
