-- ===== src/Tenant/Folded.antt =====
-- `asLabel` of internal/tenant/tenant.go: what it answers, and that its loop ends.
use robi_net.Base.{
  ℕ, zero, suc, ◌≤◌, ◌<◌, ◌≡◌, refl, sym, ◌∙◌, true, false, [], ◌∷◌, some, Text, all_of, length,
  take, is_empty, ltb, Bool-cases, Option-cases, inl, inr, arith,
}
use robi_net.Strings.{to_lower, trim_left, trim_right, trim_space, starts_in, ends_in}
use robi_net.Hub.Name.{is_name_rune, max_name_length}
use robi_net.Tenant.Naming.{
  is_hyphen, fold_rune, fold_runes, trim_hyphens, has_double, replace_doubles, collapse, cut_short,
  as_label,
}

-- A label of small letters, digits and single hyphens within.
pub record IsFolded (name : Text) : Type 0 where
  pub runes : all_of is_name_rune name ≡ true
  pub nonempty : is_empty name ≡ false
  pub short : length name ≤ 63
  pub no_hyphen_first : starts_in b'-' name ≡ false
  pub no_hyphen_last : ends_in b'-' name ≡ false
  pub no_double : has_double name ≡ false

fold_rune-name_rune : (r c : ℕ) → fold_rune r ≡ some c → is_name_rune c ≡ true
unfolding fold_rune
fold_rune-name_rune r c h = ground arith

fold_runes-all_of : (s t : Text) → fold_runes s ≡ some t → all_of is_name_rune t ≡ true
unfolding fold_runes
fold_runes-all_of [] t h = let same : [] ≡ t = ground arith in rw (sym same) refl
fold_runes-all_of (r ∷ rs) t h = elim (Option-cases (fold_rune r)) [
  | inl e ↦ absurd (ground arith)
  | inr (c, e) ↦ elim (Option-cases (fold_runes rs)) [
    | inl f ↦ absurd (ground arith)
    | inr (cs, f) ↦
        let same : c ∷ cs ≡ t = ground arith in
        rw (sym same, fold_rune-name_rune r c e) (fold_runes-all_of rs cs f)
  ]
]

-- Trimming on the left.
trim_left-all_of :
    (s : Text) → all_of is_name_rune s ≡ true → all_of is_name_rune (trim_left is_hyphen s) ≡ true
unfolding trim_left
trim_left-all_of [] h = refl
trim_left-all_of (c ∷ s) h = ground (arith, trim_left-all_of s)

trim_left-first : (s : Text) → starts_in b'-' (trim_left is_hyphen s) ≡ false
unfolding trim_left starts_in
trim_left-first [] = refl
trim_left-first (c ∷ s) = ground (arith, trim_left-first s)

trim_left-last : (s : Text) → ends_in b'-' s ≡ false → ends_in b'-' (trim_left is_hyphen s) ≡ false
unfolding trim_left ends_in
trim_left-last [] h = refl
trim_left-last (c ∷ s) h = ground (arith, trim_left-last s)

trim_left-double : (s : Text) → has_double s ≡ false → has_double (trim_left is_hyphen s) ≡ false
unfolding trim_left has_double
trim_left-double [] h = refl
trim_left-double (c ∷ []) h = ground arith
trim_left-double (c ∷ d ∷ s) h = ground (arith, trim_left-double (d ∷ s))

trim_left-le : (s : Text) → length (trim_left is_hyphen s) ≤ length s
unfolding trim_left
trim_left-le [] = omega arith
trim_left-le (c ∷ s) = ground (arith, trim_left-le s)

-- Trimming on the right.
trim_right-all_of :
    (s : Text) → all_of is_name_rune s ≡ true → all_of is_name_rune (trim_right is_hyphen s) ≡ true
unfolding trim_right
trim_right-all_of [] h = refl
trim_right-all_of (c ∷ s) h = ground (arith, trim_right-all_of s)

trim_right-last : (s : Text) → ends_in b'-' (trim_right is_hyphen s) ≡ false
unfolding trim_right ends_in
trim_right-last [] = refl
trim_right-last (c ∷ s) = ground (arith, trim_right-last s)

trim_right-double : (s : Text) → has_double s ≡ false → has_double (trim_right is_hyphen s) ≡ false
unfolding trim_right has_double
trim_right-double [] h = refl
trim_right-double (c ∷ []) h = ground arith
trim_right-double (c ∷ d ∷ s) h = ground (arith, trim_right-double (d ∷ s))

trim_right-le : (s : Text) → length (trim_right is_hyphen s) ≤ length s
unfolding trim_right
trim_right-le [] = omega arith
trim_right-le (c ∷ s) = ground (arith, trim_right-le s)

-- The loop.
is_empty-replace : (s : Text) → is_empty (replace_doubles s) ≡ is_empty s
unfolding replace_doubles
is_empty-replace [] = refl
is_empty-replace (c ∷ []) = refl
is_empty-replace (c ∷ d ∷ s) = ground arith

replace-all_of :
    (s : Text) → all_of is_name_rune s ≡ true → all_of is_name_rune (replace_doubles s) ≡ true
unfolding replace_doubles
replace-all_of [] h = refl
replace-all_of (c ∷ []) h = h
replace-all_of (c ∷ d ∷ s) h = ground (arith, replace-all_of s, replace-all_of (d ∷ s))

replace-first : (s : Text) → starts_in b'-' s ≡ false → starts_in b'-' (replace_doubles s) ≡ false
unfolding replace_doubles starts_in
replace-first [] h = refl
replace-first (c ∷ []) h = h
replace-first (c ∷ d ∷ s) h = ground arith

replace-last : (s : Text) → ends_in b'-' (replace_doubles s) ≡ ends_in b'-' s
unfolding replace_doubles ends_in
replace-last [] = refl
replace-last (c ∷ []) = refl
replace-last (c ∷ d ∷ s) =
    ground
      (arith, replace-last s, replace-last (d ∷ s), is_empty-replace s, is_empty-replace (d ∷ s))

replace-le : (s : Text) → length (replace_doubles s) ≤ length s
unfolding replace_doubles
replace-le [] = omega arith
replace-le (c ∷ []) = omega arith
replace-le (c ∷ d ∷ s) = ground (arith, replace-le s, replace-le (d ∷ s))

replace-lt : (s : Text) → has_double s ≡ true → length (replace_doubles s) < length s
unfolding replace_doubles has_double
replace-lt [] h = cc
replace-lt (c ∷ []) h = cc
replace-lt (c ∷ d ∷ s) h = ground (arith, replace-le s, replace-lt (d ∷ s))

-- The loop ends: as many rounds as the text has runes leave no two hyphens side by side, whatever
-- the text.
pub collapse-no_double :
    (fuel : ℕ) (s : Text) → length s ≤ fuel → has_double (collapse fuel s) ≡ false
unfolding collapse has_double
collapse-no_double zero [] le = refl
collapse-no_double zero (c ∷ s) le = absurd (omega arith)
collapse-no_double (suc fuel) s le = elim (Bool-cases (has_double s)) [
  | inl e ↦
      let shorter = replace-lt s e in
      rw (e, collapse) (collapse-no_double fuel (replace_doubles s) (omega arith))
  | inr e ↦ rw (e, collapse) e
]

-- What each round keeps, the loop keeps.
collapse_keeps :
    (P : Text → Type 0)
    → ((s : Text) → P s → P (replace_doubles s))
    → (fuel : ℕ) (s : Text) → P s
    → P (collapse fuel s)
unfolding collapse
collapse_keeps P keeps zero s h = h
collapse_keeps P keeps (suc fuel) s h = elim (Bool-cases (has_double s)) [
  | inl e ↦ rw (e, collapse) (collapse_keeps P keeps fuel (replace_doubles s) (keeps s h))
  | inr e ↦ rw (e, collapse) h
]

take-all_of :
    (n : ℕ) (s : Text) → all_of is_name_rune s ≡ true → all_of is_name_rune (take n s) ≡ true
take-all_of zero s h = refl
take-all_of (suc n) [] h = refl
take-all_of (suc n) (c ∷ s) h = ground (arith, take-all_of n s)

take-double : (n : ℕ) (s : Text) → has_double s ≡ false → has_double (take n s) ≡ false
unfolding has_double
take-double zero s h = refl
take-double (suc n) [] h = refl
take-double (suc zero) (c ∷ []) h = refl
take-double (suc (suc n)) (c ∷ []) h = refl
take-double (suc zero) (c ∷ d ∷ s) h = refl
take-double (suc (suc n)) (c ∷ d ∷ s) h = ground (arith, take-double (suc n) (d ∷ s))

take-le : (n : ℕ) (s : Text) → length (take n s) ≤ n
take-le zero s = omega arith
take-le (suc n) [] = omega arith
take-le (suc n) (c ∷ s) = omega (arith, take-le n s)

-- A text that may be cut: everything that a name is, but its length and that it is not empty.
record IsClean (s : Text) : Type 0 where
  runes : all_of is_name_rune s ≡ true
  first : starts_in b'-' s ≡ false
  last : ends_in b'-' s ≡ false

trim_hyphens-IsClean : (s : Text) → all_of is_name_rune s ≡ true → IsClean (trim_hyphens s)
unfolding trim_hyphens
trim_hyphens-IsClean s h = record {
  runes = trim_left-all_of (trim_right is_hyphen s) (trim_right-all_of s h);
  first = trim_left-first (trim_right is_hyphen s);
  last = trim_left-last (trim_right is_hyphen s) (trim_right-last s);
}

trim_hyphens-short : (s : Text) → length s ≤ 63 → length (trim_hyphens s) ≤ 63
unfolding trim_hyphens
trim_hyphens-short s le = omega (arith, trim_left-le (trim_right is_hyphen s), trim_right-le s)

trim_hyphens-double : (s : Text) → has_double s ≡ false → has_double (trim_hyphens s) ≡ false
unfolding trim_hyphens
trim_hyphens-double s h = trim_left-double (trim_right is_hyphen s) (trim_right-double s h)

replace-IsClean : (s : Text) → IsClean s → IsClean (replace_doubles s)
replace-IsClean s v = record {
  runes = replace-all_of s v.runes;
  first = replace-first s v.first;
  last = replace-last s ∙ v.last;
}

cut_short-IsFolded :
    (s : Text)
    → IsClean s
    → has_double s ≡ false
    → is_empty (cut_short s) ≡ false
    → IsFolded (cut_short s)
unfolding cut_short
cut_short-IsFolded s v d n = elim (Bool-cases (ltb max_name_length (length s))) [
  | inr e ↦
      rw (e, cut_short)
        (record {
          runes = v.runes;
          nonempty = rw (e, cut_short) at n;
          short = ground arith;
          no_hyphen_first = v.first;
          no_hyphen_last = v.last;
          no_double = d;
        })
  | inl e ↦
      let part = take max_name_length s in
      let clean = trim_hyphens-IsClean part (take-all_of max_name_length s v.runes) in
      rw (e, cut_short)
        (record {
          runes = clean.runes;
          nonempty = rw (e, cut_short) at n;
          short = trim_hyphens-short part (take-le max_name_length s);
          no_hyphen_first = clean.first;
          no_hyphen_last = clean.last;
          no_double = trim_hyphens-double part (take-double max_name_length s d);
        })
]

-- A name that the daemon makes up from a hint is a DNS label: small letters, digits and single
-- hyphens that neither begin nor end it, at least one rune and at most sixty-three.
pub as_label-IsFolded : (raw name : Text) → as_label raw ≡ some name → IsFolded name
unfolding as_label
as_label-IsFolded raw name h = elim (Option-cases (fold_runes (to_lower (trim_space raw)))) [
  | inl e ↦ absurd (ground arith)
  | inr (s, e) ↦
      let trimmed = trim_hyphens s in
      let whole = collapse (length trimmed) trimmed in
      let clean =
        collapse_keeps IsClean replace-IsClean (length trimmed) trimmed
          (trim_hyphens-IsClean s (fold_runes-all_of (to_lower (trim_space raw)) s e)) in
      let single = collapse-no_double (length trimmed) trimmed (omega arith) in
      elim (Bool-cases (is_empty (cut_short whole))) [
        | inl f ↦ absurd (ground arith)
        | inr f ↦
            let same : cut_short whole ≡ name = ground arith in
            rw (sym same) (cut_short-IsFolded whole clean single f)
      ]
]
