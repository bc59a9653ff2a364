-- ===== src/Hub/Routes/Carried.antt =====
-- What `routesOf` of internal/hub/hub.go lists, and what a ban takes away.
use robi_net.Base.{
  ℕ, suc, ◌+◌, ◌≡◌, ◌↔◌, refl, sym, ap, ◌∙◌, true, false, List, [], ◌∷◌, In, In-append,
  In-append_left, In-append_right, length, length-append, some, some_inj, Text, Dict, lookup,
  insert, equal, values, Bool-cases, inl, inr, arith,
}
use robi_net.Net.{Prefix}
use robi_net.Enroll.{Platform}
use robi_net.Hub.Types.{ban, connector, Member, Instance, banned}
use robi_net.Hub.Ban.{member_in, with_event, ban_in}
use robi_net.Hub.Ban.Effects.{last_is_ban-append}
use robi_net.Hub.Routes.{Route, insert_by, sort_by, is_silent, routes_via, routes_among, routes_of}
use robi_net.Hub.Routes.Sorted.{AreAscending, keys, sort_by-AreAscending}

module _ {A : Type 0} (key : A → Text) where
  insert_by_iff : (x y : A) (ys : List A) → In x (insert_by key y ys) ↔ In x (y ∷ ys)
  unfolding insert_by
  insert_by_iff x y [] = ((λ h. h), (λ h. h))
  insert_by_iff x y (z ∷ zs) = ground (arith, insert_by_iff x y zs)

  -- Sorting keeps what is in a list, and how much.
  pub sort_by_iff : (x : A) (ys : List A) → In x (sort_by key ys) ↔ In x ys
  unfolding sort_by
  sort_by_iff x [] = ((λ h. h), (λ h. h))
  sort_by_iff x (y ∷ ys) = ground (arith, insert_by_iff x y (sort_by key ys), sort_by_iff x ys)

  length-insert_by : (y : A) (ys : List A) → length (insert_by key y ys) ≡ suc (length ys)
  unfolding insert_by
  length-insert_by y [] = refl
  length-insert_by y (z ∷ zs) = ground (arith, length-insert_by y zs)

  pub length-sort_by : (ys : List A) → length (sort_by key ys) ≡ length ys
  unfolding sort_by
  length-sort_by [] = refl
  length-sort_by (y ∷ ys) = ground (arith, length-insert_by y (sort_by key ys), length-sort_by ys)

-- The route of a member's prefix.
abbrev pub route_of : Member → Prefix → Route
route_of m p = record { prefix = p; via = m.address.addr; connector = m.name }

-- A route that a connector carries which is not banned.
abbrev pub IsCarried : Route → List Member → Type 0
IsCarried x ms =
    (m : Member) × In m ms
    × (is_silent m ≡ false)
    × (p : Prefix) × In p m.routes
    × (x ≡ route_of m p)

routes_via_iff :
    (x : Route) (m : Member) (ps : List Prefix)
    → In x (routes_via m ps) ↔ ((p : Prefix) × In p ps × (x ≡ route_of m p))
unfolding routes_via
routes_via_iff x m [] = ((λ h. elim h [ ]), (λ (p, i, e). elim i [ ]))
routes_via_iff x m (q ∷ ps) = (
  λ h. elim h [
    | inl e ↦ (q, inl refl, e)
    | inr i ↦ let (p, j, e) = (routes_via_iff x m ps).0 i in (p, inr j, e)
  ],
  λ (p, i, e). elim i [
    | inl g ↦ inl (e ∙ ap (route_of m) g)
    | inr j ↦ inr ((routes_via_iff x m ps).1 (p, j, e))
  ],
)

routes_among_iff : (x : Route) (ms : List Member) → In x (routes_among ms) ↔ IsCarried x ms
unfolding routes_among
routes_among_iff x [] = ((λ h. elim h [ ]), (λ h. elim h.1 [ ]))
routes_among_iff x (m ∷ ms) = elim (Bool-cases (is_silent m)) [
  | inl e ↦ rw e (
    λ h. later ((routes_among_iff x ms).0 h),
    λ (n, i, s, p, j, g). elim i [
      | inl same ↦ absurd (cc (ap is_silent same, s, e))
      | inr k ↦ (routes_among_iff x ms).1 (n, k, s, p, j, g)
    ],
  )
  | inr e ↦ rw e (
    λ h. elim (In-append x (routes_via m m.routes) (routes_among ms) h) [
      | inl a ↦ let (p, j, g) = (routes_via_iff x m m.routes).0 a in (m, inl refl, e, p, j, g)
      | inr b ↦ later ((routes_among_iff x ms).0 b)
    ],
    λ (n, i, s, p, j, g). elim i [
      | inl same ↦
          In-append_left x (routes_via m m.routes) (routes_among ms)
            ((routes_via_iff x m m.routes).1 (p, rw (sym same) j, rw (sym same) g))
      | inr k ↦
          In-append_right x (routes_via m m.routes) (routes_among ms)
            ((routes_among_iff x ms).1 (n, k, s, p, j, g))
    ],
  )
]
  where
    later : IsCarried x ms → IsCarried x (m ∷ ms)
    later (n, i, s, p, j, g) = (n, inr i, s, p, j, g)

-- A route of a member that is a connector and not banned.
abbrev pub IsConnectors : Route → List Member → Type 0
IsConnectors x ms =
    (m : Member) × In m ms
    × (m.kind ≡ connector)
    × (banned m ≡ false)
    × (p : Prefix) × In p m.routes
    × (x.prefix ≡ p)
    × (x.via ≡ m.address.addr)
    × (x.connector ≡ m.name)

is_silent_iff : (m : Member) → (is_silent m ≡ false) ↔ ((m.kind ≡ connector) × (banned m ≡ false))
unfolding is_silent
is_silent_iff m = ground arith

IsCarried-IsConnectors : (x : Route) (ms : List Member) → IsCarried x ms ↔ IsConnectors x ms
IsCarried-IsConnectors x ms = (
  (λ (m, i, s, p, j, e).
      let (k, n) = (is_silent_iff m).0 s in
      (
        m,
        i,
        k,
        n,
        p,
        j,
        ap (λ (r : Route). r.prefix) e,
        ap (λ (r : Route). r.via) e,
        ap (λ (r : Route). r.connector) e,
      )),
  (λ (m, i, k, n, p, j, e, f, g). (m, i, (is_silent_iff m).1 (k, n), p, j, cc)),
)

routes_of-IsCarried :
    (pl : Platform) (inst : Instance) (x : Route)
    → In x (routes_of pl inst) ↔ IsCarried x (values inst.members)
unfolding routes_of
routes_of-IsCarried pl inst x =
    let sorted =
      sort_by_iff (λ (r : Route). pl.show_prefix r.prefix) x (routes_among (values inst.members)) in
    let among = routes_among_iff x (values inst.members) in
    ((λ h. among.0 (sorted.0 h)), (λ h. sorted.1 (among.1 h)))

-- The texts of the prefixes, in order.
abbrev pub texts_of : Platform → List Route → List Text
texts_of pl [] = []
texts_of pl (r ∷ rs) = pl.show_prefix r.prefix ∷ texts_of pl rs

texts_of-keys :
    (pl : Platform) (rs : List Route)
    → keys (λ (r : Route). pl.show_prefix r.prefix) rs ≡ texts_of pl rs
texts_of-keys pl [] = refl
texts_of-keys pl (r ∷ rs) = ap (λ ts. pl.show_prefix r.prefix ∷ ts) (texts_of-keys pl rs)

routes_of-AreAscending :
    (pl : Platform) (inst : Instance) → AreAscending (texts_of pl (routes_of pl inst))
unfolding routes_of
routes_of-AreAscending pl inst =
    let text = λ (r : Route). pl.show_prefix r.prefix in
    let among = routes_among (values inst.members) in
    rw (texts_of-keys pl (sort_by text among)) at (sort_by-AreAscending text among)

-- The route table lists its prefixes in the order of their texts, and holds exactly the prefixes of
-- the members that are connectors and not banned, each by way of the IPv4 address of the connector
-- that carries it and under its name.
pub routes_of_iff :
    (pl : Platform) (inst : Instance)
    → AreAscending (texts_of pl (routes_of pl inst))
      × ((x : Route) → In x (routes_of pl inst) ↔ IsConnectors x (values inst.members))
routes_of_iff pl inst = (
  routes_of-AreAscending pl inst,
  λ x.
      let carried = routes_of-IsCarried pl inst x in
      let described = IsCarried-IsConnectors x (values inst.members) in
      ((λ h. described.0 (carried.0 h)), (λ h. carried.1 (described.1 h))),
)

length-routes_via : (m : Member) (ps : List Prefix) → length (routes_via m ps) ≡ length ps
unfolding routes_via
length-routes_via m [] = refl
length-routes_via m (p ∷ ps) = ground (arith, length-routes_via m ps)

-- A connector in whose place a silent member is put takes its routes away.
routes_among-insert :
    (fp : Text) (m n : Member) (ms : Dict Member)
    → lookup fp ms ≡ some m
    → is_silent m ≡ false
    → is_silent n ≡ true
    → (length (routes_among (values (insert fp n ms))) + length m.routes
        ≡ length (routes_among (values ms)))
      × ((x : Route)
          → In x (routes_among (values (insert fp n ms)))
          → In x (routes_among (values ms)))
unfolding routes_among insert lookup
routes_among-insert fp m n [] h a b = cc
routes_among-insert fp m n ((k, o) ∷ ms) h a b = elim (Bool-cases (equal k fp)) [
  | inl e ↦
      let same : o ≡ m = some_inj (rw (e, lookup) at h) in
      let quiet = ap is_silent same ∙ a in
      rw (e, quiet, b)
        (
          omega (
            arith,
            length-append (routes_via o o.routes) (routes_among (values ms)),
            length-routes_via o o.routes,
            ap (λ (k : Member). length k.routes) same,
          ),
          λ x i. In-append_right x (routes_via o o.routes) (routes_among (values ms)) i,
        )
  | inr e ↦
      let rest = routes_among-insert fp m n ms (rw (e, lookup) at h) a b in
      elim (Bool-cases (is_silent o)) [
        | inl s ↦ rw (e, s) rest
        | inr s ↦
            rw (e, s)
              (
                omega (
                  arith,
                  rest.0,
                  length-append (routes_via o o.routes) (routes_among (values ms)),
                  length-append (routes_via o o.routes) (routes_among (values (insert fp n ms))),
                ),
                λ x i.
                    elim (In-append x (routes_via o o.routes)
                      (routes_among (values (insert fp n ms))) i) [
                        | inl l ↦
                            In-append_left x (routes_via o o.routes) (routes_among (values ms)) l
                        | inr r ↦
                            In-append_right x (routes_via o o.routes) (routes_among (values ms))
                              (rest.1 x r)
                      ],
              )
      ]
]

is_silent-with_ban :
    (now : ℕ) (note : Text) (m : Member) → is_silent (with_event ban note now m) ≡ true
unfolding is_silent banned
is_silent-with_ban now note m =
    ground (arith, last_is_ban-append false m.events (record { kind = ban; note = note; at = now }))

ban_in-members :
    (now : ℕ) (ref note fp : Text) (m : Member) (inst : Instance)
    → member_in ref inst.members ≡ some (fp, m)
    → is_silent m ≡ false
    → (ban_in now ref note inst).1.members ≡ insert fp (with_event ban note now m) inst.members
unfolding ban_in is_silent
ban_in-members now ref note fp m inst found loud = ground arith

-- A ban takes traffic away as well as access: when a connector that is not banned is banned by a
-- reference that finds it, the route table has as many routes less as the connector carried, and
-- none that it did not have before.
pub ban_in-routes_of :
    (pl : Platform) (now : ℕ) (ref note fp : Text) (m : Member) (inst : Instance)
    → member_in ref inst.members ≡ some (fp, m)
    → lookup fp inst.members ≡ some m
    → is_silent m ≡ false
    → let later = (ban_in now ref note inst).1 in
      (length (routes_of pl later) + length m.routes ≡ length (routes_of pl inst))
      × ((x : Route) → In x (routes_of pl later) → In x (routes_of pl inst))
unfolding routes_of
ban_in-routes_of pl now ref note fp m inst found held loud =
    let n = with_event ban note now m in
    let quiet = is_silent-with_ban now note m in
    let change = routes_among-insert fp m n inst.members held loud quiet in
    let text = λ (r : Route). pl.show_prefix r.prefix in
    let after = routes_among (values (insert fp n inst.members)) in
    let before = routes_among (values inst.members) in
    rw (ban_in-members now ref note fp m inst found loud) (
      omega (arith, change.0, length-sort_by text after, length-sort_by text before),
      λ x i. (sort_by_iff text x before).1 (change.1 x ((sort_by_iff text x after).0 i)),
    )
