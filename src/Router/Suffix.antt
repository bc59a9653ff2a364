-- ===== src/Router/Suffix.antt =====
-- Suffixes of texts.
use robi_net.Base.{
  ℕ, ◌<◌, ◌≡◌, refl, ap, true, false, [], ◌∷◌, ◌++◌, Text, length, length-append, equal, equal_iff,
  equal_refl, arith, Bool-cases, inl, inr,
}
use robi_net.Strings.{to_lower, lower_rune}
use robi_net.Router.{has_suffix, trim_suffix}

pub equal-longer : (a b : Text) → length b < length a → equal a b ≡ false
equal-longer a b h = elim (Bool-cases (equal a b)) [
  | inl e ↦ absurd (longer ((equal_iff a b).0 e))
  | inr e ↦ e
]
  where
    longer : a ≡ b → ⊥
    longer e = let same : length a ≡ length b = ap (λ (s : Text). length s) e in omega arith

pub has_suffix-append : (x y : Text) → has_suffix (x ++ y) y ≡ true
unfolding has_suffix
has_suffix-append [] [] = refl
has_suffix-append [] (c ∷ y) = rw (equal_refl (c ∷ y)) refl
has_suffix-append (c ∷ x) y = ground (arith, has_suffix-append x y)

pub trim_suffix-append : (x : Text) (c : ℕ) (y : Text) → trim_suffix (x ++ (c ∷ y)) (c ∷ y) ≡ x
unfolding trim_suffix
trim_suffix-append [] c y = rw (equal_refl (c ∷ y)) refl
trim_suffix-append (d ∷ x) c y = ground (
  arith,
  trim_suffix-append x c y,
  equal-longer (d ∷ (x ++ (c ∷ y))) (c ∷ y) (omega (arith, length-append x (c ∷ y))),
)

pub to_lower-append : (x y : Text) → to_lower (x ++ y) ≡ to_lower x ++ to_lower y
unfolding to_lower
to_lower-append [] y = refl
to_lower-append (c ∷ x) y = ap (λ (s : Text). lower_rune c ∷ s) (to_lower-append x y)

pub append_assoc : (x y z : Text) → (x ++ y) ++ z ≡ x ++ (y ++ z)
append_assoc [] y z = refl
append_assoc (c ∷ x) y z = ap (λ (s : Text). c ∷ s) (append_assoc x y z)
