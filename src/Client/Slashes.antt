-- ===== src/Client/Slashes.antt =====
-- `str.rstrip("/")`, `str.startswith("/")` and `str.split("/")`, which the urls of
-- src/bitcoin_core_rpc/client.py are composed and read with.
use bitcoin_core_rpc.Prelude.{Bool, List, Text, [], false, if◌then◌else◌, ℕ, ◌==◌, ◌∷◌}

-- a character in front of what `rstrip` left of the rest
abbrev pub keep_slash : ℕ → Text → Text
keep_slash c [] = if c == b'/' then [] else c ∷ []
keep_slash c (d ∷ ds) = c ∷ d ∷ ds

-- text.rstrip("/")
unfoldable pub rstrip_slash : Text → Text
rstrip_slash [] = []
rstrip_slash (c ∷ cs) = keep_slash c (rstrip_slash cs)

-- text.startswith("/")
unfoldable pub starts_with_slash : Text → Bool
starts_with_slash [] = false
starts_with_slash (c ∷ cs) = c == b'/'

-- a character in front of the first segment
abbrev pub grown : ℕ → List Text → List Text
grown c [] = (c ∷ []) ∷ []
grown c (first ∷ rest) = (c ∷ first) ∷ rest

-- text.split("/")
unfoldable pub split_slash : Text → List Text
split_slash [] = [] ∷ []
split_slash (c ∷ cs) = let rest = split_slash cs in if c == b'/' then [] ∷ rest else grown c rest
