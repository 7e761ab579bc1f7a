-- ===== src/Client/Credentials/Header.antt =====
-- What a node reads of the `Authorization` header of src/bitcoin_core_rpc/client.py.
use bitcoin_core_rpc.Chains.Cookie.{CookieFile}
use bitcoin_core_rpc.Client.Credentials.{
  CookieArgument, RpcClient, TransportArgument, auth_header, basic, credential, rpc_client,
}
use bitcoin_core_rpc.Client.Credentials.Sent.{
  IsIdentified, by_cookie, by_login, rpc_client-IsIdentified,
}
use bitcoin_core_rpc.Client.Encoding.{b64encode, encode, encode_point, joined_points}
use bitcoin_core_rpc.Client.Encoding.RoundTrip.{b64decode, b64decode-b64encode}
use bitcoin_core_rpc.Errors.{ok}
use bitcoin_core_rpc.Prelude.{
  All, All-append, Bytes, Option, Option-cases, Text, [], append_assoc, arith, codes, false,
  has_char, if◌then◌else◌, inl, inr, none, refl, some, sym, ℕ, ◌++◌, ◌<◌, ◌==◌, ◌∙◌, ◌∷◌, ◌≡◌,
}
use bitcoin_core_rpc.Transport.Checks.{Parts, Unicode}
use bitcoin_core_rpc.Value.{Scalar}

behind : ℕ → Option (Bytes × Bytes) → Option (Bytes × Bytes)
behind c (some (before, after)) = some (c ∷ before, after)
behind c none = none

-- the octets before the first colon, and those after it
unfoldable pub split_colon : Bytes → Option (Bytes × Bytes)
unfolding behind
split_colon [] = none
split_colon (c ∷ cs) = if c == b':' then some ([], cs) else behind c (split_colon cs)

-- The code points of Python's texts.
abbrev pub IsText : Text → Type 0
IsText = All (λ c. c < 1114112)

abbrev pub AreOctets : Bytes → Type 0
AreOctets = All (λ n. n < 256)

encode_point-octets : (c : ℕ) (b : Bytes) → c < 1114112 → encode_point c ≡ some b → AreOctets b
unfolding encode_point
encode_point-octets c b h e = ground arith

encode_point-colon :
    (c : ℕ) (b : Bytes) → (c == b':') ≡ false → encode_point c ≡ some b → has_char b':' b ≡ false
unfolding encode_point
encode_point-colon c b h e = ground arith

joined_points-some :
    (p r : Option Bytes) (b : Bytes)
    → joined_points p r ≡ some b
    → (x y : Bytes) × (p ≡ some x) × (r ≡ some y) × (b ≡ x ++ y)
unfolding joined_points
joined_points-some (some x) (some y) b h = (x, y, refl, refl, ground arith)
joined_points-some p r b h = absurd (ground arith)

-- A text that is encoded gives octets, and a colon stands in them only for a colon.
pub encode-octets : (t : Text) (b : Bytes) → IsText t → encode t ≡ some b → AreOctets b
unfolding encode
encode-octets [] b h e = let q : [] ≡ b = ground arith in rw (sym q) tt
encode-octets (c ∷ cs) b (h, hs) e =
    let (x, y, p, q, s) = joined_points-some (encode_point c) (encode cs) b e in
    rw s (All-append (λ n. n < 256) x y (encode_point-octets c x h p) (encode-octets cs y hs q))

-- a login is encoded half by half
encode-login :
    (user password : Text) (b : Bytes)
    → encode (user ++ b':' ∷ password) ≡ some b
    → (x y : Bytes) × (encode user ≡ some x) × (encode password ≡ some y) × (b ≡ x ++ b':' ∷ y)
unfolding encode
encode-login [] password b e =
    let (x, y, p, q, s) = joined_points-some (encode_point b':') (encode password) b e in
    let colon : b':' ∷ [] ≡ x = unfold encode_point in ground arith in
    ([], y, refl, q, s ∙ rw (sym colon))
encode-login (c ∷ cs) password b e =
    let (x, y, p, q, s) =
      joined_points-some (encode_point c) (encode (cs ++ b':' ∷ password)) b e in
    let (u, v, m, n, r) = encode-login cs password y q in
    (x ++ u, v, rw (p, m), n, s ∙ rw (r, append_assoc))

has_char-append :
    (x y : Bytes)
    → has_char b':' x ≡ false
    → has_char b':' y ≡ false
    → has_char b':' (x ++ y) ≡ false
has_char-append [] y h k = k
has_char-append (c ∷ cs) y h k =
    let n : (c == b':') ≡ false = ground arith in rw (n, has_char-append cs y (ground arith) k)

encode-colon :
    (t : Text) (b : Bytes) → has_char b':' t ≡ false → encode t ≡ some b → has_char b':' b ≡ false
unfolding encode
encode-colon [] b h e = let q : [] ≡ b = ground arith in rw (sym q)
encode-colon (c ∷ cs) b h e =
    let (x, y, p, q, s) = joined_points-some (encode_point c) (encode cs) b e in
    rw s (
      has_char-append x y (encode_point-colon c x (ground arith) p)
        (encode-colon cs y (ground arith) q))

split_colon-login :
    (x y : Bytes) → has_char b':' x ≡ false → split_colon (x ++ b':' ∷ y) ≡ some (x, y)
unfolding split_colon
split_colon-login [] y h = refl
split_colon-login (c ∷ cs) y h =
    let n : (c == b':') ≡ false = ground arith in rw (n, split_colon-login cs y (ground arith))

-- the login of an identified client
login_of :
    {P : Type 0} (client : RpcClient P) (user password : Text)
    → IsIdentified client
    → client.user ≡ some user
    → client.password ≡ some password
    → (client.cookie_path ≡ none) × (has_char b':' user ≡ false)
login_of client user password (by_login u p n s c colon) e e' =
    let same : u ≡ user = let q = sym n ∙ e in ground arith in (c, rw same at colon)
login_of client user password (by_cookie p n s c) e e' = let q = sym n ∙ e in absurd (ground arith)

basic-octets :
    (text h : Text)
    → basic text ≡ ok h
    → (octets : Bytes) × (encode text ≡ some octets) × (h ≡ codes "Basic " ++ b64encode octets)
unfolding basic
basic-octets text h e = elim (Option-cases (encode text)) [
  | inl q ↦ let e' = rw (basic, q) at e in absurd (ground arith)
  | inr (octets, q) ↦ let e' = rw (basic, q) at e in (octets, q, ground arith)
]

-- Where a client that the constructor built has a login and returns a header, a node that decodes
-- the header and splits it at the first colon reads the UTF-8 of the user's name and of the password
-- that the client has, whatever colons the password has. The two are texts of Unicode code points.
pub auth_header-login :
    {P : Type 0} (file : P → CookieFile) (unicode : Unicode) (urlsplit : Text → Option Parts)
    (url : Text) (user password : Scalar) (cookie : CookieArgument P) (timeout : Scalar)
    (transport : TransportArgument) (client : RpcClient P) (name secret header : Text)
    → rpc_client unicode urlsplit url user password cookie timeout transport ≡ ok client
    → client.user ≡ some name
    → client.password ≡ some secret
    → IsText name
    → IsText secret
    → auth_header file client ≡ ok header
    → (encoded : Text) × (x y : Bytes) × (header ≡ codes "Basic " ++ encoded)
      × (encode name ≡ some x)
      × (encode secret ≡ some y)
      × (split_colon (b64decode encoded) ≡ some (x, y))
unfolding auth_header credential
auth_header-login file unicode urlsplit url user password cookie timeout transport client name
      secret header built n s is_name is_secret h =
    let (_, _, _, identified) =
      rpc_client-IsIdentified unicode urlsplit url user password cookie timeout transport client
        built in
    let (c, colon) = login_of client name secret identified n s in
    let h' : basic (name ++ b':' ∷ secret) ≡ ok header = rw (credential, c, n, s) at h in
    let (octets, e, q) = basic-octets (name ++ b':' ∷ secret) header h' in
    let (x, y, p, r, parts) = encode-login name secret octets e in
    let whole : AreOctets octets =
      encode-octets (name ++ b':' ∷ secret) octets
        (All-append (λ k. k < 1114112) name (b':' ∷ secret) is_name (omega arith, is_secret)) e in
    (
      b64encode octets,
      x,
      y,
      q,
      p,
      r,
      rw (b64decode-b64encode octets whole, parts)
          (split_colon-login x y (encode-colon name x colon p)),
    )
