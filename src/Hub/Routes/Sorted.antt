-- ===== src/Hub/Routes/Sorted.antt =====
-- `sort.Slice` as internal/hub/hub.go calls it: by a text of each element.
use robi_net.Base.{◌≡◌, refl, true, false, List, [], ◌∷◌, Text, Bool-cases, inl, inr, arith}
use robi_net.Enroll.{text_le}
use robi_net.Hub.Routes.{insert_by, sort_by}

-- Whether `text_le` holds between each text and the next.
abbrev pub AreAscending : List Text → Type 0
AreAscending [] = Unit
AreAscending (s ∷ []) = Unit
AreAscending (s ∷ t ∷ ts) = (text_le s t ≡ true) × AreAscending (t ∷ ts)

text_le_total : (a b : Text) → text_le a b ≡ false → text_le b a ≡ true
unfolding text_le
text_le_total [] b h = cc
text_le_total (x ∷ a) [] h = refl
text_le_total (x ∷ a) (y ∷ b) h = ground (arith, text_le_total a b)

module _ {A : Type 0} (key : A → Text) where
  abbrev pub keys : List A → List Text
  keys [] = []
  keys (x ∷ xs) = key x ∷ keys xs

  insert_by-AreAscending :
      (x : A) (ys : List A) → AreAscending (keys ys) → AreAscending (keys (insert_by key x ys))
  unfolding insert_by
  insert_by-AreAscending x [] h = tt
  insert_by-AreAscending x (y ∷ []) h = elim (Bool-cases (text_le (key x) (key y))) [
    | inl e ↦ rw e (e, tt)
    | inr e ↦ rw e (text_le_total (key x) (key y) e, tt)
  ]
  insert_by-AreAscending x (y ∷ z ∷ zs) (h, hs) =
      let rest = insert_by-AreAscending x (z ∷ zs) hs in
      elim (Bool-cases (text_le (key x) (key y))) [
        | inl e ↦ rw e (e, (h, hs))
        | inr e ↦ elim (Bool-cases (text_le (key x) (key z))) [
          | inl f ↦ rw (e, f) (text_le_total (key x) (key y) e, rw f at rest)
          | inr f ↦ rw (e, f) (h, rw f at rest)
        ]
      ]

  pub sort_by-AreAscending : (ys : List A) → AreAscending (keys (sort_by key ys))
  unfolding sort_by
  sort_by-AreAscending [] = tt
  sort_by-AreAscending (y ∷ ys) =
      insert_by-AreAscending y (sort_by key ys) (sort_by-AreAscending ys)
