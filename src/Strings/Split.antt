-- ===== src/Strings/Split.antt =====
-- Splitting at dots.
use robi_net.Base.{
  ℕ, ◌≡◌, ◌≢◌, refl, Bool, true, false, not, List, [], ◌∷◌, ◌++◌, Text, all_of, ◌==◌, arith,
}
use robi_net.Strings.{onto_first, split_dots, join_dots}

abbrev pub has_no_dot : Text → Bool
has_no_dot = all_of (λ c. not (c == b'.'))

-- A part that holds no dot is one part.
pub split_dots-label : (a : Text) → has_no_dot a ≡ true → split_dots a ≡ a ∷ []
unfolding split_dots
split_dots-label [] h = refl
split_dots-label (c ∷ a) h = ground (arith, split_dots-label a)

pub split_dots-append :
    (a s : Text) → has_no_dot a ≡ true → split_dots (a ++ (b'.' ∷ s)) ≡ a ∷ split_dots s
unfolding split_dots
split_dots-append [] s h = refl
split_dots-append (c ∷ a) s h = ground (arith, split_dots-append a s)

join_dots-onto_first :
    (c : ℕ) (ps : List Text) → ps ≢ [] → join_dots (onto_first c ps) ≡ c ∷ join_dots ps
unfolding join_dots
join_dots-onto_first c [] h = absurd (h refl)
join_dots-onto_first c (p ∷ []) h = refl
join_dots-onto_first c (p ∷ q ∷ ps) h = refl

onto_first-ne-nil : (c : ℕ) (ps : List Text) → onto_first c ps ≢ []
onto_first-ne-nil c [] = cc
onto_first-ne-nil c (p ∷ ps) = cc

join_dots-cons_empty : (ps : List Text) → ps ≢ [] → join_dots ([] ∷ ps) ≡ b'.' ∷ join_dots ps
unfolding join_dots
join_dots-cons_empty [] h = absurd (h refl)
join_dots-cons_empty (p ∷ ps) h = refl

pub has_no_dot-append : (a b : Text) → has_no_dot (a ++ (b'.' ∷ b)) ≡ false
has_no_dot-append [] b = refl
has_no_dot-append (c ∷ a) b = ground (arith, has_no_dot-append a b)

split_dots-ne-nil : (s : Text) → split_dots s ≢ []
unfolding split_dots
split_dots-ne-nil [] = cc
split_dots-ne-nil (c ∷ s) = ground (arith, onto_first-ne-nil c (split_dots s))

-- Joining what was split gives the text back.
pub join-split : (s : Text) → join_dots (split_dots s) ≡ s
unfolding split_dots
join-split [] = unfold join_dots in refl
join-split (c ∷ s) =
    let more = split_dots-ne-nil s in
    ground (
      arith,
      join_dots-cons_empty (split_dots s) more,
      join_dots-onto_first c (split_dots s) more,
      join-split s,
    )

-- The last dot of a text is found from either side: what stands behind it has none.
pub last_dot_unique :
    (a a' b b' : Text)
    → has_no_dot b ≡ true
    → has_no_dot b' ≡ true
    → a ++ (b'.' ∷ b) ≡ a' ++ (b'.' ∷ b')
    → (a ≡ a') × (b ≡ b')
last_dot_unique [] [] b b' h h' e = ground arith
last_dot_unique [] (c ∷ a') b b' h h' e = ground (arith, has_no_dot-append a' b')
last_dot_unique (c ∷ a) [] b b' h h' e = ground (arith, has_no_dot-append a b)
last_dot_unique (c ∷ a) (c' ∷ a') b b' h h' e = ground (arith, last_dot_unique a a' b b' h h')
