-- ===== src/Chains/Cookie/Line.antt =====
-- Which octets are a cookie, and which line they hold.
use bitcoin_core_rpc.Chains.Cookie.{
  cookie_line, is_space, keep, lstrip, max_cookie_size, rstrip, strip,
}
use bitcoin_core_rpc.Errors.{ok}
use bitcoin_core_rpc.Prelude.{
  All, Bool-cases, Text, [], all, ap, arith, false, has_char, inl, inr, length, ltb, refl, true, ℕ,
  ◌++◌, ◌↔◌, ◌∙◌, ◌∷◌, ◌≡◌, ◌≤◌,
}

abbrev AllSpace : Text → Type 0
AllSpace = All (λ c. is_space c ≡ true)

-- no whitespace in front; none at the end
abbrev StartsClean : Text → Type 0
StartsClean [] = Unit
StartsClean (c ∷ cs) = is_space c ≡ false

abbrev EndsClean : Text → Type 0
EndsClean [] = Unit
EndsClean (c ∷ []) = is_space c ≡ false
EndsClean (c ∷ d ∷ ds) = EndsClean (d ∷ ds)

-- `line` is `raw` without the whitespace around it
pub record IsStripped (raw line : Text) : Type 0 where
  pub before : Text
  pub after : Text
  pub splits : raw ≡ before ++ (line ++ after)
  pub before_space : All (λ c. is_space c ≡ true) before
  pub after_space : All (λ c. is_space c ≡ true) after
  pub starts_clean : StartsClean line
  pub ends_clean : EndsClean line

lstrip-splits :
    (raw : Text)
    → (before : Text) × (raw ≡ before ++ lstrip raw) × AllSpace before × StartsClean (lstrip raw)
unfolding lstrip
lstrip-splits [] = ([], refl, tt, tt)
lstrip-splits (c ∷ cs) = elim (Bool-cases (is_space c)) [
  | inl e ↦ let (b, s, a, h) = lstrip-splits cs in rw (lstrip, e) (c ∷ b, ap (◌∷◌ c) s, (e, a), h)
  | inr e ↦ rw (lstrip, e) ([], refl, tt, e)
]

keep-splits :
    (c : ℕ) (left after : Text)
    → AllSpace after
    → (after' : Text) × ((c ∷ (left ++ after)) ≡ keep c left ++ after') × AllSpace after'
unfolding keep
keep-splits c [] after h = elim (Bool-cases (is_space c)) [
  | inl e ↦ rw (keep, e) (c ∷ after, refl, (e, h))
  | inr e ↦ rw (keep, e) (after, refl, h)
]
keep-splits c (d ∷ ds) after h = (after, refl, h)

keep-EndsClean : (c : ℕ) (left : Text) → EndsClean left → EndsClean (keep c left)
unfolding keep
keep-EndsClean c [] h = elim (Bool-cases (is_space c)) [
  | inl e ↦ rw (keep, e) tt
  | inr e ↦ rw (keep, e) e
]
keep-EndsClean c (d ∷ ds) h = h

rstrip-splits : (raw : Text) → (after : Text) × (raw ≡ rstrip raw ++ after) × AllSpace after
unfolding rstrip
rstrip-splits [] = ([], refl, tt)
rstrip-splits (c ∷ cs) =
    let (a, s, h) = rstrip-splits cs in
    let (a', s', h') = keep-splits c (rstrip cs) a h in (a', ap (◌∷◌ c) s ∙ s', h')

rstrip-EndsClean : (raw : Text) → EndsClean (rstrip raw)
unfolding rstrip
rstrip-EndsClean [] = tt
rstrip-EndsClean (c ∷ cs) = keep-EndsClean c (rstrip cs) (rstrip-EndsClean cs)

rstrip-StartsClean : (raw : Text) → StartsClean raw → StartsClean (rstrip raw)
unfolding rstrip keep
rstrip-StartsClean [] h = tt
rstrip-StartsClean (c ∷ cs) h = go (rstrip cs)
  where
    go : (left : Text) → StartsClean (keep c left)
    go [] = rw (keep, h) h
    go (d ∷ ds) = h

strip-IsStripped : (raw : Text) → IsStripped raw (strip raw)
unfolding strip
strip-IsStripped raw =
    let (b, s, hb, clean) = lstrip-splits raw in
    let (a, t, ha) = rstrip-splits (lstrip raw) in
    record {
      before = b;
      after = a;
      splits = s ∙ ap (◌++◌ b) t;
      before_space = hb;
      after_space = ha;
      starts_clean = rstrip-StartsClean (lstrip raw) clean;
      ends_clean = rstrip-EndsClean (lstrip raw);
    }

lstrip-before : (before rest : Text) → AllSpace before → lstrip (before ++ rest) ≡ lstrip rest
unfolding lstrip
lstrip-before [] rest h = refl
lstrip-before (c ∷ cs) rest (h, t) = rw (h, lstrip-before cs rest t)

lstrip-clean : (c : ℕ) (cs : Text) → is_space c ≡ false → lstrip (c ∷ cs) ≡ c ∷ cs
unfolding lstrip
lstrip-clean c cs h = rw h

rstrip_space : (after : Text) → AllSpace after → rstrip after ≡ []
unfolding rstrip keep
rstrip_space [] h = refl
rstrip_space (c ∷ cs) (h, t) = rw (rstrip_space cs t, keep, h)

rstrip-append :
    (line after : Text) → EndsClean line → AllSpace after → rstrip (line ++ after) ≡ line
unfolding rstrip keep
rstrip-append [] after e h = rstrip_space after h
rstrip-append (c ∷ []) after e h = rw (rstrip_space after h, keep, e)
rstrip-append (c ∷ d ∷ ds) after e h = ap (keep c) (rstrip-append (d ∷ ds) after e h)

IsStripped-strip :
    (raw line : Text) (c : ℕ) → has_char c line ≡ true → IsStripped raw line → strip raw ≡ line
unfolding strip
IsStripped-strip raw [] c h s = absurd (ground arith)
IsStripped-strip raw (x ∷ xs) c h s =
    rw
      (
        s.splits,
        lstrip-before s.before ((x ∷ xs) ++ s.after) s.before_space,
        lstrip-clean x (xs ++ s.after) s.starts_clean,
      )
      (rstrip-append (x ∷ xs) s.after s.ends_clean s.after_space)

-- The octets of a file hold this credential.
pub record IsCookie (raw line : Text) : Type 0 where
  pub fits : length raw ≤ max_cookie_size
  pub ascii : all (λ c. ltb c 128) raw ≡ true
  pub stripped : IsStripped raw line
  pub no_newline : has_char 10 line ≡ false
  pub no_return : has_char 13 line ≡ false
  pub has_colon : has_char b':' line ≡ true

cookie_line-IsCookie : (raw line : Text) → cookie_line raw ≡ ok line → IsCookie raw line
unfolding cookie_line
cookie_line-IsCookie raw line h =
    let e : strip raw ≡ line = ground arith in
    record {
      fits = ground arith;
      ascii = ground arith;
      stripped = rw e at (strip-IsStripped raw);
      no_newline = ground arith;
      no_return = ground arith;
      has_colon = ground arith;
    }

IsCookie-cookie_line : (raw line : Text) → IsCookie raw line → cookie_line raw ≡ ok line
unfolding cookie_line
IsCookie-cookie_line raw line i =
    let e = IsStripped-strip raw line b':' i.has_colon i.stripped in ground arith

-- A file's octets are accepted, with this line, exactly when there are at most 4096 of them, all
-- ASCII, and the line is what stands between the whitespace at both ends, holds a colon, and holds no
-- newline and no return.
pub cookie_line-ok_iff : (raw line : Text) → (cookie_line raw ≡ ok line) ↔ IsCookie raw line
cookie_line-ok_iff raw line = (cookie_line-IsCookie raw line, IsCookie-cookie_line raw line)
