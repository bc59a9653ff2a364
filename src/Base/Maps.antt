-- ===== src/Base/Maps.antt =====
-- Texts, and Go maps keyed by texts as association lists.
use Prim.Native.Char.{code}
use Prim.Native.String.{String}
use Prim.Native.Nat.{ℕ}
use mathlib.Core.Path.{◌≡◌, refl, sym, ap, ◌∙◌}
use mathlib.Core.Bool.{Bool, true, false, ◌&&◌}
use mathlib.Core.List.{List, [], ◌∷◌}
use mathlib.Core.Logic.{◌↔◌, ◌⊎◌, ◌≢◌, inl, inr}
use mathlib.Core.Option.{Option, none, some}
use native.Mathlib.Omega.{arith}
use robi_net.Base.Tests.{◌==◌, if◌then◌else◌, Bool-cases, some_inj}
use robi_net.Base.Lists.{In}

-- A Go string that is valid UTF-8, as its runes.
abbrev pub Text : Type 0
Text = List ℕ

abbrev pub runes : String → Text
runes String.[] = []
runes (String.◌∷◌ c s) = code c ∷ runes s

-- `==` on strings.
unfoldable pub equal : Text → Text → Bool
equal [] [] = true
equal (x ∷ xs) (y ∷ ys) = x == y && equal xs ys
equal _ _ = false

pub equal_iff : (a b : Text) → (equal a b ≡ true) ↔ (a ≡ b)
unfolding equal
equal_iff (x ∷ a) (y ∷ b) = ground (arith, equal_iff a b)
equal_iff _ _ = ground arith

pub equal_refl : (a : Text) → equal a a ≡ true
equal_refl a = (equal_iff a a).1 refl

abbrev pub is_empty : Text → Bool
is_empty [] = true
is_empty (_ ∷ _) = false

abbrev pub Dict : Type 0 → Type 0
Dict V = List (Text × V)

module _ {V : Type 0} where
  -- `v, ok := m[k]`
  unfoldable pub lookup : Text → Dict V → Option V
  lookup k [] = none
  lookup k ((j, v) ∷ m) = if equal j k then some v else lookup k m

  -- `m[k] = v`
  unfoldable pub insert : Text → V → Dict V → Dict V
  insert k v [] = (k, v) ∷ []
  insert k v ((j, w) ∷ m) = if equal j k then (k, v) ∷ m else (j, w) ∷ insert k v m

  -- `delete(m, k)`
  unfoldable pub erase : Text → Dict V → Dict V
  erase k [] = []
  erase k ((j, w) ∷ m) = let rest = erase k m in if equal j k then rest else (j, w) ∷ rest

  -- What ranging over the values of the map sees.
  abbrev pub values : Dict V → List V
  values [] = []
  values ((j, w) ∷ m) = w ∷ values m

  pub lookup-insert :
      (k j : Text) (v : V) (m : Dict V)
      → lookup j (insert k v m) ≡ (if equal k j then some v else lookup j m)
  unfolding lookup insert
  lookup-insert k j v [] = refl
  lookup-insert k j v ((i, w) ∷ m) =
      ground (arith, equal_iff k j, equal_iff i k, equal_iff i j, lookup-insert k j v m)

  pub lookup-erase :
      (k j : Text) (m : Dict V) → lookup j (erase k m) ≡ (if equal k j then none else lookup j m)
  unfolding lookup erase
  lookup-erase k j [] = ground arith
  lookup-erase k j ((i, w) ∷ m) =
      ground (arith, equal_iff k j, equal_iff i k, equal_iff i j, lookup-erase k j m)

  pub lookup-In-values : (k : Text) (v : V) (m : Dict V) → lookup k m ≡ some v → In v (values m)
  unfolding lookup
  lookup-In-values k v [] h = cc
  lookup-In-values k v ((j, w) ∷ m) h = ground (arith, lookup-In-values k v m)

  -- Entries, and what each operation does to them.
  pub lookup-In : (k : Text) (v : V) (m : Dict V) → lookup k m ≡ some v → In (k, v) m
  unfolding lookup
  lookup-In k v [] h = cc
  lookup-In k v ((j, w) ∷ m) h = elim (Bool-cases (equal j k)) [
    | inl e ↦
        let same : w ≡ v = some_inj (rw (e, lookup) at h) in
        inl (λ i. (sym ((equal_iff j k).0 e) i, sym same i))
    | inr e ↦ inr (lookup-In k v m (rw (e, lookup) at h))
  ]

  pub In-insert :
      (k j : Text) (v w : V) (m : Dict V)
      → In (j, w) (insert k v m)
      → ((j ≡ k) × (w ≡ v)) ⊎ In (j, w) m
  unfolding insert
  In-insert k j v w [] (inl e) = inl (ap (λ (p : Text × V). p.0) e, ap (λ (p : Text × V). p.1) e)
  In-insert k j v w [] (inr h) = inr h
  In-insert k j v w ((i, u) ∷ m) h = elim (Bool-cases (equal i k)) [
    | inl e ↦ elim (rw (e, insert) at h) [
      | inl g ↦ inl (ap (λ (p : Text × V). p.0) g, ap (λ (p : Text × V). p.1) g)
      | inr g ↦ inr (inr g)
    ]
    | inr e ↦ elim (rw (e, insert) at h) [
      | inl g ↦ inr (inl g)
      | inr g ↦ elim (In-insert k j v w m g) [ inl a ↦ inl a | inr b ↦ inr (inr b) ]
    ]
  ]

  pub In-erase : (k j : Text) (w : V) (m : Dict V) → In (j, w) (erase k m) → (j ≢ k) × In (j, w) m
  unfolding erase
  In-erase k j w [] h = elim h [ ]
  In-erase k j w ((i, u) ∷ m) h = elim (Bool-cases (equal i k)) [
    | inl e ↦ let (ne, g) = In-erase k j w m (rw (e, erase) at h) in (ne, inr g)
    | inr e ↦ elim (rw (e, erase) at h) [
      | inl g ↦
          let key = ap (λ (p : Text × V). p.0) g in
          ((λ same. cc (e, (equal_iff i k).1 (sym key ∙ same))), inl g)
      | inr g ↦ let (ne, g') = In-erase k j w m g in (ne, inr g')
    ]
  ]
