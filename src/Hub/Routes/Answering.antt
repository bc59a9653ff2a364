-- ===== src/Hub/Routes/Answering.antt =====
-- What `resolversOf` of internal/hub/hub.go lists.
use robi_net.Base.{
  ◌≡◌, ◌↔◌, refl, sym, ap, false, List, [], ◌∷◌, In, values, is_empty, Bool-cases, inl, inr,
}
use robi_net.Hub.Types.{Member, Instance}
use robi_net.Hub.Routes.{Resolver, is_silent, resolver_via, resolvers_among, resolvers_of}
use robi_net.Hub.Routes.Carried.{sort_by_iff}

-- A resolver of a connector with a domain which is not banned.
abbrev pub IsAnswering : Resolver → List Member → Type 0
IsAnswering x ms =
    (m : Member) × In m ms
    × (is_silent m ≡ false)
    × (is_empty m.domain ≡ false)
    × (x ≡ resolver_via m)

resolvers_among_iff :
    (x : Resolver) (ms : List Member) → In x (resolvers_among ms) ↔ IsAnswering x ms
unfolding resolvers_among
resolvers_among_iff x [] = ((λ h. elim h [ ]), (λ h. elim h.1 [ ]))
resolvers_among_iff x (m ∷ ms) = elim (Bool-cases (is_silent m)) [
  | inl e ↦ rw e (
    λ h. later ((resolvers_among_iff x ms).0 h),
    λ (n, i, s, d, g). elim i [
      | inl same ↦ absurd (cc (ap is_silent same, s, e))
      | inr k ↦ (resolvers_among_iff x ms).1 (n, k, s, d, g)
    ],
  )
  | inr e ↦ elim (Bool-cases (is_empty m.domain)) [
    | inl f ↦
        rw (e, f)
          (
            λ h. later ((resolvers_among_iff x ms).0 h),
            λ (n, i, s, d, g). elim i [
              | inl same ↦ absurd (cc (ap (λ (k : Member). is_empty k.domain) same, d, f))
              | inr k ↦ (resolvers_among_iff x ms).1 (n, k, s, d, g)
            ],
          )
    | inr f ↦
        rw (e, f)
          (
            λ h. elim h [
              | inl a ↦ (m, inl refl, e, f, a)
              | inr b ↦ later ((resolvers_among_iff x ms).0 b)
            ],
            λ (n, i, s, d, g). elim i [
              | inl same ↦ inl (rw (sym same) g)
              | inr k ↦ inr ((resolvers_among_iff x ms).1 (n, k, s, d, g))
            ],
          )
  ]
]
  where
    later : IsAnswering x ms → IsAnswering x (m ∷ ms)
    later (n, i, s, d, g) = (n, inr i, s, d, g)

-- The names that members answer for are exactly the domains of the connectors that are not banned.
pub resolvers_of_iff :
    (inst : Instance) (x : Resolver)
    → In x (resolvers_of inst) ↔ IsAnswering x (values inst.members)
unfolding resolvers_of
resolvers_of_iff inst x =
    let sorted =
      sort_by_iff (λ (r : Resolver). r.domain) x (resolvers_among (values inst.members)) in
    let among = resolvers_among_iff x (values inst.members) in
    ((λ h. among.0 (sorted.0 h)), (λ h. sorted.1 (among.1 h)))
