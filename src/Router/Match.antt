-- ===== src/Router/Match.antt =====
-- `match` of internal/tenant/dnsrouter.go, against the list of routes.
use robi_net.Base.{
  ◌≤◌, ◌≡◌, refl, true, false, List, [], ◌∷◌, ◌⊎◌, In, Option, none, some, Text, ltb, arith, inl,
  inr, Bool-cases,
}
use robi_net.Strings.{to_lower, trim_dot, byte_length}
use robi_net.Router.{RouterRoute, belongs, match_from, match_route}

-- No route of the list belongs to the name, or the answer is one that does and none is longer.
abbrev pub IsLongest : Text → List RouterRoute → Option RouterRoute → Type 0
IsLongest name routes none = (r : RouterRoute) → In r routes → belongs name r ≡ false
IsLongest name routes (some b) =
    In b routes
    × (belongs name b ≡ true)
    × ((r : RouterRoute)
        → In r routes
        → belongs name r ≡ true
        → byte_length r.virtual ≤ byte_length b.virtual)

module _ (name : Text) where
  -- Each route of the second list that belongs is in the first, or one of the first is as long.
  Covered : List RouterRoute → List RouterRoute → Type 0
  Covered routes more =
      (q : RouterRoute)
      → In q more
      → belongs name q ≡ true
      → In q routes
        ⊎ ((y : RouterRoute) × In y routes
            × (belongs name y ≡ true)
            × (byte_length q.virtual ≤ byte_length y.virtual))

  clash : (y : RouterRoute) → belongs name y ≡ false → belongs name y ≡ true → ⊥
  clash y e g = cc

  extend :
      (routes more : List RouterRoute) (o : Option RouterRoute)
      → ((q : RouterRoute) → In q routes → In q more)
      → Covered routes more
      → IsLongest name routes o
      → IsLongest name more o
  unfolding Covered
  extend routes more none sub cover h = λ q i. elim (Bool-cases (belongs name q)) [
    | inr e ↦ e
    | inl e ↦ elim (cover q i e) [
      | inl old ↦ h q old
      | inr (y, at, b, _) ↦ absurd (clash y (h y at) b)
    ]
  ]
  extend routes more (some b) sub cover (i, e, top) = (
    sub b i,
    e,
    λ q j g. elim (cover q j g) [
      | inl old ↦ top q old g
      | inr (y, at, c, le) ↦ let above = top y at c in omega arith
    ],
  )

  -- The answer, with a best route found before.
  match_from-some :
      (best : RouterRoute) (routes : List RouterRoute)
      → belongs name best ≡ true
      → IsLongest name (best ∷ routes) (match_from name (some best) routes)
  unfolding match_from Covered
  match_from-some best [] h =
      (inl refl, h, λ r i e. elim i [ inl g ↦ rw g (omega arith) | inr g ↦ absurd g ])
  match_from-some best (r ∷ rs) h = elim (Bool-cases (belongs name r)) [
    | inr e ↦
        rw (e, match_from)
          (extend (best ∷ rs) (best ∷ r ∷ rs) _ behind (not_it e) (match_from-some best rs h))
    | inl e ↦ elim (Bool-cases (ltb (byte_length best.virtual) (byte_length r.virtual))) [
      | inl l ↦
          rw (e, l, match_from)
            (extend (r ∷ rs) (best ∷ r ∷ rs) _ (λ q i. inr i) (shorter e (ground arith))
              (match_from-some r rs e))
      | inr l ↦
          rw (e, l, match_from)
            (extend (best ∷ rs) (best ∷ r ∷ rs) _ behind (no_longer (ground arith))
              (match_from-some best rs h))
    ]
  ]
    where
      behind : (q : RouterRoute) → In q (best ∷ rs) → In q (best ∷ r ∷ rs)
      behind q (inl g) = inl g
      behind q (inr g) = inr (inr g)

      not_it : belongs name r ≡ false → Covered (best ∷ rs) (best ∷ r ∷ rs)
      not_it e q (inl g) b = inl (inl g)
      not_it e q (inr (inl g)) b = cc (e, rw g at b)
      not_it e q (inr (inr g)) b = inl (inr g)

      shorter :
          belongs name r ≡ true
          → byte_length best.virtual ≤ byte_length r.virtual
          → Covered (r ∷ rs) (best ∷ r ∷ rs)
      shorter e le q (inl g) b = inr (r, inl refl, e, rw g le)
      shorter e le q (inr g) b = inl g

      no_longer :
          byte_length r.virtual ≤ byte_length best.virtual → Covered (best ∷ rs) (best ∷ r ∷ rs)
      no_longer le q (inl g) b = inl (inl g)
      no_longer le q (inr (inl g)) b = inr (best, inl refl, h, rw g le)
      no_longer le q (inr (inr g)) b = inl (inr g)

  match_from-none :
      (routes : List RouterRoute) → IsLongest name routes (match_from name none routes)
  unfolding match_from Covered
  match_from-none [] = λ r i. elim i [ ]
  match_from-none (r ∷ rs) = elim (Bool-cases (belongs name r)) [
    | inl e ↦ rw (e, match_from) (match_from-some r rs e)
    | inr e ↦
        rw (e, match_from) (extend rs (r ∷ rs) _ (λ q i. inr i) (not_it e) (match_from-none rs))
  ]
    where
      not_it : belongs name r ≡ false → Covered rs (r ∷ rs)
      not_it e q (inl g) b = cc (e, rw g at b)
      not_it e q (inr g) b = inl g

-- `match` answers a route that the name belongs to, with its dot and its case taken off, and whose
-- name space is the longest of all such; it answers none exactly when the name belongs to no route.
pub match_route-IsLongest :
    (routes : List RouterRoute) (name : Text)
    → IsLongest (to_lower (trim_dot name)) routes (match_route routes name)
unfolding match_route
match_route-IsLongest routes name = match_from-none (to_lower (trim_dot name)) routes
