-- ===== src/Chains/Cookie.antt =====
-- src/bitcoin_core_rpc/chains.py: the file that a node leaves its credential in (`_encodable`,
-- `cookie_auth`).
pub mod Line
pub mod Outcome
use bitcoin_core_rpc.Errors.{
  Exception, Result, cookie_absent, cookie_no_colon, cookie_not_ascii, cookie_not_found_error,
  cookie_not_regular, cookie_oversized, cookie_path_not_encodable, cookie_several_lines,
  cookie_unreadable, fetch_error, is_instance, ok, raise,
}
use bitcoin_core_rpc.Errors.Classes.{file_not_found_error, os_error}
use bitcoin_core_rpc.Prelude.{
  Bool, Bytes, Text, [], all, false, has_char, if◌then◌else◌, leb, length, ltb, not, true, ℕ, ◌&&◌,
  ◌+◌, ◌==◌, ◌||◌, ◌∷◌,
}

abbrev pub max_cookie_size : ℕ
max_cookie_size = 4096

-- the ASCII characters for which `str.isspace` holds
unfoldable pub is_space : ℕ → Bool
is_space c = c == 32 || leb 9 c && leb c 13 || leb 28 c && leb c 31

-- str.lstrip
unfoldable pub lstrip : Text → Text
unfolding is_space
lstrip [] = []
lstrip (c ∷ cs) = if is_space c then lstrip cs else c ∷ cs

-- a character in front of what `str.rstrip` left of the rest
unfoldable pub keep : ℕ → Text → Text
unfolding is_space
keep c [] = if is_space c then [] else c ∷ []
keep c (d ∷ ds) = c ∷ d ∷ ds

-- str.rstrip
unfoldable pub rstrip : Text → Text
unfolding keep
rstrip [] = []
rstrip (c ∷ cs) = keep c (rstrip cs)

-- str.strip
unfoldable pub strip : Text → Text
unfolding lstrip rstrip
strip text = rstrip (lstrip text)

-- `cookie_auth` past the read: the line that the octets hold
unfoldable pub cookie_line : Bytes → Result Text
unfolding strip
cookie_line raw =
    if ltb max_cookie_size (length raw)
    then raise (fetch_error cookie_oversized)
    else if not (all (λ c. ltb c 128) raw)
    then raise (fetch_error cookie_not_ascii)
    else (let line = strip raw in
        if has_char 10 line || has_char 13 line
        then raise (fetch_error cookie_several_lines)
        else if not (has_char b':' line)
        then raise (fetch_error cookie_no_colon)
        else ok line)

-- What the operating system answers for a path: whether the path can be passed to it, and then the
-- opening, the status and a read of at most so many octets, each of which may raise.
pub record CookieFile : Type 0 where
  pub encodable : Bool
  pub opened : Result (Unit {0})
  pub regular : Result Bool
  pub read : ℕ → Result Bytes

-- the two `except` clauses around the operations
unfoldable pub cookie_exception : Exception → Exception
unfolding is_instance
cookie_exception e =
    if is_instance e file_not_found_error
    then cookie_not_found_error cookie_absent
    else if is_instance e os_error
    then fetch_error cookie_unreadable
    else e

-- `cookie_auth`, from an open descriptor on; the number is how many descriptors are left open
unfoldable pub read_cookie : CookieFile → Result Bytes × ℕ
unfolding is_instance
read_cookie file = elim file.regular [
  | raise e ↦ (raise e, if is_instance e os_error then 0 else 1)
  | ok false ↦ (raise (fetch_error cookie_not_regular), 0)
  | ok true ↦ (file.read (max_cookie_size + 1), 0)
]

-- `cookie_auth`: the credential, and how many descriptors are left open
unfoldable pub cookie_auth : CookieFile → Result Text × ℕ
unfolding read_cookie cookie_exception cookie_line
cookie_auth file =
    if not file.encodable
    then (raise (fetch_error cookie_path_not_encodable), 0)
    else elim file.opened [
      | raise e ↦ (raise (cookie_exception e), 0)
      | ok _ ↦
          let (r, left_open) = read_cookie file in
          (elim r [ raise e ↦ raise (cookie_exception e) | ok raw ↦ cookie_line raw ], left_open)
    ]
