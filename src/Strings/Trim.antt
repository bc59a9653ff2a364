-- ===== src/Strings/Trim.antt =====
-- Trimming and folding case.
use robi_net.Base.{
  ℕ, ◌≡◌, refl, ap, ◌∙◌, true, false, not, [], ◌∷◌, ◌++◌, map, Text, is_empty, all_of, ◌==◌, arith,
}
use robi_net.Strings.{lower_rune, to_lower, is_space, trim_left, trim_right, trim_space, trim_dot}

pub lower_rune_idem : (c : ℕ) → lower_rune (lower_rune c) ≡ lower_rune c
unfolding lower_rune
lower_rune_idem c = ground arith

pub to_lower_idem : (s : Text) → to_lower (to_lower s) ≡ to_lower s
unfolding to_lower
to_lower_idem [] = refl
to_lower_idem (c ∷ s) = cc (lower_rune_idem c, to_lower_idem s)

-- Folding makes no white space and takes none away.
is_space-lower_rune : (c : ℕ) → is_space (lower_rune c) ≡ is_space c
unfolding lower_rune is_space
is_space-lower_rune c = ground arith

is_empty-map : (f : ℕ → ℕ) (s : Text) → is_empty (map f s) ≡ is_empty s
is_empty-map f [] = refl
is_empty-map f (c ∷ s) = refl

trim_left-to_lower : (s : Text) → trim_left is_space (to_lower s) ≡ to_lower (trim_left is_space s)
unfolding trim_left to_lower
trim_left-to_lower [] = refl
trim_left-to_lower (c ∷ s) = ground (arith, is_space-lower_rune c, trim_left-to_lower s)

trim_right-to_lower :
    (s : Text) → trim_right is_space (to_lower s) ≡ to_lower (trim_right is_space s)
unfolding trim_right to_lower
trim_right-to_lower [] = refl
trim_right-to_lower (c ∷ s) = ground (
  arith,
  is_space-lower_rune c,
  trim_right-to_lower s,
  is_empty-map lower_rune (trim_right is_space s),
)

pub trim_space-to_lower : (s : Text) → trim_space (to_lower s) ≡ to_lower (trim_space s)
unfolding trim_space
trim_space-to_lower s =
    ap (trim_left is_space) (trim_right-to_lower s) ∙ trim_left-to_lower (trim_right is_space s)

pub trim_right_none :
    (s : Text) → all_of (λ c. not (is_space c)) s ≡ true → trim_right is_space s ≡ s
unfolding trim_right
trim_right_none [] h = refl
trim_right_none (c ∷ s) h = ground (arith, trim_right_none s)

pub trim_left_head :
    (s t : Text)
    → is_empty s ≡ false
    → all_of (λ c. not (is_space c)) s ≡ true
    → trim_left is_space (s ++ t) ≡ s ++ t
unfolding trim_left
trim_left_head [] t n h = cc
trim_left_head (c ∷ s) t n h = ground arith

trim_left_none : (s : Text) → all_of (λ c. not (is_space c)) s ≡ true → trim_left is_space s ≡ s
unfolding trim_left
trim_left_none [] h = refl
trim_left_none (c ∷ s) h = ground arith

-- A text with no white space is its own trimmed form.
pub trim_space_none : (s : Text) → all_of (λ c. not (is_space c)) s ≡ true → trim_space s ≡ s
unfolding trim_space
trim_space_none s h = ap (trim_left is_space) (trim_right_none s h) ∙ trim_left_none s h

pub is_empty-append : (s b : Text) → is_empty b ≡ false → is_empty (s ++ b) ≡ false
is_empty-append [] b h = h
is_empty-append (c ∷ s) b h = refl

-- A text that ends in a part which trimming leaves alone is left alone.
pub trim_right-append :
    (s b : Text)
    → is_empty b ≡ false
    → trim_right is_space b ≡ b
    → trim_right is_space (s ++ b) ≡ s ++ b
unfolding trim_right
trim_right-append [] b h e = e
trim_right-append (c ∷ s) b h e = ground (arith, trim_right-append s b, is_empty-append s b h)

pub trim_dot-append :
    (s b : Text) → is_empty b ≡ false → trim_dot b ≡ b → trim_dot (s ++ b) ≡ s ++ b
unfolding trim_dot
trim_dot-append [] b h e = e
trim_dot-append (c ∷ s) b h e = ground (arith, trim_dot-append s b, is_empty-append s b h)

pub trim_dot_none : (s : Text) → all_of (λ c. not (c == b'.')) s ≡ true → trim_dot s ≡ s
unfolding trim_dot
trim_dot_none [] h = refl
trim_dot_none (c ∷ s) h = ground (arith, trim_dot_none s)
