-- ===== src/Client/Wallet/Segments.antt =====
-- The last segments of a path that `for_wallet` of src/bitcoin_core_rpc/client.py composed.

use bitcoin_core_rpc.Client.Slashes.{keep_slash, rstrip_slash, split_slash}
use bitcoin_core_rpc.Client.Wallet.{is_wallet_path, last_two}
use bitcoin_core_rpc.Prelude.{
  Bool, Bool-cases, List, Text, [], any, ap, arith, codes, drop, false, has_char, inl, inr, length,
  length-append, refl, suc, text_eq, true, zero, ℕ, ◌++◌, ◌-◌, ◌==◌, ◌∙◌, ◌∷◌, ◌≡◌, ◌≤◌,
}

-- no slash
abbrev pub IsSegment : Text → Type 0
IsSegment t = has_char b'/' t ≡ false

rstrip_slash-append :
    (xs : Text) (y : ℕ) (ys rest : Text)
    → rstrip_slash ys ≡ y ∷ rest
    → rstrip_slash (xs ++ ys) ≡ xs ++ (y ∷ rest)
unfolding rstrip_slash
rstrip_slash-append [] y ys rest h = h
rstrip_slash-append (x ∷ []) y ys rest h = rw (h, keep_slash) refl
rstrip_slash-append (x ∷ z ∷ xs) y ys rest h =
    rw (rstrip_slash-append (z ∷ xs) y ys rest h, keep_slash) refl

rstrip_slash-segment : (t : Text) → IsSegment t → rstrip_slash t ≡ t
unfolding rstrip_slash
rstrip_slash-segment [] h = refl
rstrip_slash-segment (c ∷ []) h = ground arith
rstrip_slash-segment (c ∷ d ∷ ds) h =
    let tail = rstrip_slash-segment (d ∷ ds) (ground arith) in rw (tail, keep_slash) refl

split_slash-segment : (t : Text) → IsSegment t → split_slash t ≡ t ∷ []
unfolding split_slash
split_slash-segment [] h = refl
split_slash-segment (c ∷ cs) h =
    let tail = split_slash-segment cs (ground arith) in
    let no_slash : (c == b'/') ≡ false = ground arith in rw (no_slash, tail) refl

split_slash-cons : (t : Text) → (f : Text) × (fs : List Text) × (split_slash t ≡ f ∷ fs)
unfolding split_slash
split_slash-cons [] = ([], [], refl)
split_slash-cons (c ∷ cs) =
    let (f, fs, h) = split_slash-cons cs in
    elim (Bool-cases (c == b'/')) [
      | inl t ↦ ([], f ∷ fs, rw (t, h) refl)
      | inr n ↦ (c ∷ f, fs, rw (n, h) refl)
    ]

split_slash-append :
    (front rest : Text) → split_slash (front ++ b'/' ∷ rest) ≡ split_slash front ++ split_slash rest
unfolding split_slash
split_slash-append [] rest = refl
split_slash-append (c ∷ cs) rest =
    let (f, fs, h) = split_slash-cons cs in
    elim (Bool-cases (c == b'/')) [
      | inl t ↦ rw (t, split_slash-append cs rest) refl
      | inr n ↦ rw (n, split_slash-append cs rest, h) refl
    ]

any-append :
    {A : Type 0} (p : A → Bool) (xs ys : List A) → any p ys ≡ true → any p (xs ++ ys) ≡ true
any-append p [] ys h = h
any-append p (x ∷ xs) ys h = ground (arith, any-append p xs ys h)

any-drop :
    {A : Type 0} (p : A → Bool) (n : ℕ) (xs ys : List A)
    → n ≤ length xs
    → any p ys ≡ true
    → any p (drop n (xs ++ ys)) ≡ true
any-drop p zero xs ys h k = any-append p xs ys k
any-drop p (suc n) [] ys h k = absurd (omega arith)
any-drop p (suc n) (x ∷ xs) ys h k = any-drop p n xs ys (omega arith) k

-- one or two segments behind the others are among the last two
any-last_two :
    (p : Text → Bool) (xs ys : List Text)
    → length ys ≤ 2
    → any p ys ≡ true
    → any p (last_two (xs ++ ys)) ≡ true
any-last_two p xs ys h k =
    any-drop p (length (xs ++ ys) - 2) xs ys (omega (arith, length-append xs ys)) k

-- A path that ends with the marker and a name is one of a wallet, whatever stands in front.
pub wallet-is_wallet_path :
    (front name : Text)
    → IsSegment name
    → is_wallet_path (front ++ (codes "/wallet/" ++ name)) ≡ true
unfolding is_wallet_path split_slash text_eq
wallet-is_wallet_path front [] h =
    let stripped = rstrip_slash-append front b'/' (codes "/wallet/") (codes "wallet") refl in
    rw (stripped, split_slash-append front (codes "wallet"))
      (any-last_two (text_eq (codes "wallet")) (split_slash front) (codes "wallet" ∷ [])
        (omega arith) refl)
wallet-is_wallet_path front (c ∷ cs) h =
    let tail = rstrip_slash-segment (c ∷ cs) h in
    let marked = rstrip_slash-append (codes "/wallet/") c (c ∷ cs) cs tail in
    let stripped =
      rstrip_slash-append front b'/' (codes "/wallet/" ++ (c ∷ cs)) (codes "wallet/" ++ (c ∷ cs))
        marked in
    let pieces : split_slash (codes "wallet/" ++ (c ∷ cs)) ≡ codes "wallet" ∷ (c ∷ cs) ∷ [] =
      split_slash-append (codes "wallet") (c ∷ cs)
      ∙ ap (λ x. codes "wallet" ∷ x) (split_slash-segment (c ∷ cs) h) in
    rw (stripped, split_slash-append front (codes "wallet/" ++ (c ∷ cs)), pieces)
      (any-last_two (text_eq (codes "wallet")) (split_slash front) (codes "wallet" ∷ (c ∷ cs) ∷ [])
        (omega arith) refl)
