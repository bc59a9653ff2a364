-- ===== src/Hub/Create/Start.antt =====
-- `CreateInstance` of internal/hub/hub.go: what a new instance starts with.
use robi_net.Base.{
  ℕ, ◌≡◌, ◌≢◌, ◌≤◌, ◌<◌, ◌↔◌, ◌==◌, ==_iff, ◌∙◌, true, refl, Bool-cases, sym, List, [], ◌∷◌, In,
  Text, lookup, inl, inr, ap,
}
use robi_net.Net.{Addr, Prefix, no_prefix, is_prefix, contains}
use robi_net.Hub.Ipam.Ends.{used_iff}
use robi_net.Hub.Ipam.Pool.{lowest_free-Fresh}
use robi_net.Hub.Subnet.{Pool}
use robi_net.Hub.Subnet.Overlay.{ArePools, IsFrom, allocate_overlay-Allocates}
use robi_net.Result.{ok, >>=-eq-ok, ok_inj}
use robi_net.Hub.Types.{owner, Member, Instance}
use robi_net.Hub.Ipam.{lowest_free}
use robi_net.Hub.Subnet.{allocate_overlay}
use robi_net.Hub.Store.{used_overlays, used_overlays6, used_ports}
use robi_net.Hub.Decision.{Config}
use robi_net.Hub.History.Sound.{IsSound}
use robi_net.Hub.Create.{
  Plan, Order, plan_in, plan6_in, free_port, port_taken, reserve_lighthouse, owner_member,
  new_instance, plan_instance,
}
use robi_net.Hub.Create.Port.{free_port-IsLowestPort}

owner_only :
    (o : Order) (p p6 : Plan) (fp : Text) (m : Member)
    → In {A = Text × Member} (fp, m) ((o.owner, owner_member o p p6) ∷ [])
    → m.kind ≡ owner
unfolding owner_member
owner_only o p p6 fp m (inl e) = ap (λ (q : Text × Member). q.1.kind) e
owner_only o p p6 fp m (inr h) = elim h [ ]

new_instance-IsSound :
    (cfg : Config) (o : Order) (p : Plan) (port : ℕ) (p6 : Plan) (keys : Text × Text)
    → IsSound (new_instance cfg o p port p6 keys)
unfolding new_instance lookup
new_instance-IsSound cfg o p port p6 keys = record {
  allocated = record {
    injective = λ j k a e g. cc;
    injective6 = λ j k a e g. cc;
    lighthouse = λ j e. cc;
    lighthouse6 = λ j e. cc;
    tenant = λ j e. cc;
    tenant6 = λ j e. cc;
  };
  requested = λ rid r h. elim h [ ];
  joined = λ fp m h. inl (owner_only o p p6 fp m h);
}

used_ports_iff :
    (p : ℕ) (is : List Instance)
    → (port_taken p (used_ports is) ≡ true) ↔ ((i : Instance) × In i is × (i.port ≡ p))
unfolding port_taken used_ports
used_ports_iff p [] = ((λ h. cc), (λ (i, h, e). elim h [ ]))
used_ports_iff p (i ∷ is) =
    let rest = used_ports_iff p is in
    elim (Bool-cases (i.port == p)) [
      | inl e ↦ rw e ((λ _. (i, inl refl, (==_iff i.port p).0 e)), (λ _. refl))
      | inr e ↦ rw e (
        (λ h. let (k, j, f) = rest.0 h in (k, inr j, f)),
        λ (k, j, f). elim j [
          | inl same ↦
              let here : (i.port == p) ≡ true =
                (==_iff i.port p).1 (ap (λ (x : Instance). x.port) (sym same) ∙ f) in
              cc
          | inr g ↦ rest.1 (k, g, f)
        ],
      )
    ]

used_overlays_iff :
    (q : Prefix) (is : List Instance)
    → In q (used_overlays is) ↔ ((i : Instance) × In i is × (i.overlay ≡ q))
unfolding used_overlays
used_overlays_iff q [] = ((λ h. elim h [ ]), (λ (i, h, e). elim h [ ]))
used_overlays_iff q (i ∷ is) =
    let rest = used_overlays_iff q is in
    (
      λ h. elim h [
        | inl e ↦ (i, inl refl, sym e)
        | inr g ↦ let (k, j, f) = rest.0 g in (k, inr j, f)
      ],
      λ (k, j, f). elim j [
        | inl same ↦ inl (sym f ∙ ap (λ (x : Instance). x.overlay) same)
        | inr g ↦ inr (rest.1 (k, g, f))
      ],
    )

-- A block that a pool gives is not taken.
IsFrom-new :
    (pools : List Pool) (v : ArePools pools) (taken : List Prefix) (q : Prefix)
    → IsFrom pools v taken q
    → ¬ In q taken
IsFrom-new [] v taken q h = elim h [ ]
IsFrom-new (p ∷ ps) v taken q (inl (k, e, c, new, lower)) = new
IsFrom-new (p ∷ ps) v taken q (inr (full, h)) = IsFrom-new ps v.1 taken q h

allocate_overlay-IsFrom :
    (pools : List Pool) (v : ArePools pools) (taken : List Prefix) (q : Prefix)
    → allocate_overlay pools taken ≡ ok q
    → IsFrom pools v taken q
unfolding allocate_overlay
allocate_overlay-IsFrom [] v taken q h = cc
allocate_overlay-IsFrom (p ∷ ps) v taken q h = rw h at (allocate_overlay-Allocates p ps v taken)

used_overlays6-In :
    (q : Prefix) (is : List Instance) (i : Instance)
    → In i is
    → is_prefix i.overlay6 ≡ true
    → i.overlay6 ≡ q
    → In q (used_overlays6 is)
unfolding used_overlays6
used_overlays6-In q [] i h v e = elim h [ ]
used_overlays6-In q (j ∷ is) i (inl same) v e =
    let here : is_prefix j.overlay6 ≡ true =
      ap (λ (x : Instance). is_prefix x.overlay6) (sym same) ∙ v in
    rw here (inl (sym e ∙ ap (λ (x : Instance). x.overlay6) same))
used_overlays6-In q (j ∷ is) i (inr h) v e =
    let rest = used_overlays6-In q is i h v e in
    elim (Bool-cases (is_prefix j.overlay6)) [ inl f ↦ rw f (inr rest) | inr f ↦ rw f rest ]

-- The IPv6 side of a new instance: none, where there is no pool, and otherwise a block of its own with
-- two addresses in it.
abbrev pub IsStarted6 : List Pool → List Instance → Prefix → Addr → Addr → Type 0
IsStarted6 [] is overlay lighthouse tenant = overlay ≡ no_prefix
IsStarted6 (p ∷ ps) is overlay lighthouse tenant =
    ((i : Instance) → In i is → is_prefix i.overlay6 ≡ true → i.overlay6 ≢ overlay)
    × (contains overlay lighthouse ≡ true)
    × (contains overlay tenant ≡ true)
    × (lighthouse ≢ tenant)

plan6_in-IsStarted6 :
    (pools : List Pool) (v : ArePools pools) (is : List Instance) (p : Plan)
    → plan6_in pools (used_overlays6 is) ≡ ok p
    → IsStarted6 pools is p.overlay p.lighthouse p.tenant
unfolding plan6_in plan_in reserve_lighthouse
plan6_in-IsStarted6 [] v is p h = ap (λ (x : Plan). x.overlay) (sym (ok_inj h))
plan6_in-IsStarted6 (q ∷ qs) v is p h =
    let (overlay, at_overlay, h1) = >>=-eq-ok (allocate_overlay (q ∷ qs) (used_overlays6 is)) _ h in
    let (lighthouse, at_lighthouse, h2) = >>=-eq-ok (reserve_lighthouse overlay) _ h1 in
    let (tenant, at_tenant, h3) = >>=-eq-ok (lowest_free overlay (lighthouse ∷ [])) _ h2 in
    let made = ok_inj h3 in
    let from = allocate_overlay-IsFrom (q ∷ qs) v (used_overlays6 is) overlay at_overlay in
    let first = lowest_free-Fresh overlay [] lighthouse at_lighthouse in
    let second = lowest_free-Fresh overlay (lighthouse ∷ []) tenant at_tenant in
    rw (sym made) (
      λ i j w e.
          IsFrom-new (q ∷ qs) v (used_overlays6 is) overlay from
            (used_overlays6-In overlay is i j w e),
      first.0,
      second.0,
      λ e. cc (second.1, (used_iff tenant (lighthouse ∷ [])).1 (inl (sym e))),
    )

-- What a new instance is among those that there are.
pub record IsStarted (cfg : Config) (pools : ArePools cfg.overlays) (is : List Instance)
    (inst : Instance) : Type 0 where
  pub sound : IsSound inst
  pub in_range : (cfg.port_min ≤ inst.port) × (inst.port ≤ cfg.port_max)
  pub own_port : (i : Instance) → In i is → i.port ≢ inst.port
  pub lowest_port :
      (p : ℕ) → cfg.port_min ≤ p → p < inst.port → (i : Instance) × In i is × (i.port ≡ p)
  pub own_overlay : (i : Instance) → In i is → i.overlay ≢ inst.overlay
  pub overlay : IsFrom cfg.overlays pools (used_overlays is) inst.overlay
  pub lighthouse : contains inst.overlay inst.lighthouse_address ≡ true
  pub tenant : contains inst.overlay inst.tenant_address ≡ true
  pub apart : inst.lighthouse_address ≢ inst.tenant_address
  pub six : IsStarted6 cfg.overlays6 is inst.overlay6 inst.lighthouse_address6 inst.tenant_address6

-- Where the range of ports is not empty and the pools are as a configuration gives them, what
-- `CreateInstance` makes before it adds the instance is sound and does not collide with any other
-- instance: no
-- other has its port, which is in the range and above no free one, and no other has its overlay,
-- which is the lowest free block of the first pool that is not full; and the lighthouse and the owner
-- have two different addresses in that overlay. Where there is a pool of IPv6, no other has its IPv6
-- overlay either, and again they have two different addresses in it.
pub plan_instance-ok :
    (cfg : Config) (o : Order) (is : List Instance) {inst : Instance}
    (pools : ArePools cfg.overlays) (pools6 : ArePools cfg.overlays6)
    → cfg.port_min ≤ cfg.port_max
    → plan_instance cfg o is ≡ ok inst
    → IsStarted cfg pools is inst
unfolding plan_instance reserve_lighthouse new_instance
plan_instance-ok cfg o is {inst} pools pools6 le h =
    let (overlay, at_overlay, h1) =
      >>=-eq-ok (allocate_overlay cfg.overlays (used_overlays is)) _ h in
    let (port, at_port, h2) = >>=-eq-ok (free_port cfg (used_ports is)) _ h1 in
    let (lighthouse, at_lighthouse, h3) = >>=-eq-ok (reserve_lighthouse overlay) _ h2 in
    let (tenant, at_tenant, h4) = >>=-eq-ok (lowest_free overlay (lighthouse ∷ [])) _ h3 in
    let (p6, at_p6, h5) = >>=-eq-ok (plan6_in cfg.overlays6 (used_overlays6 is)) _ h4 in
    let (keys, _, h6) = >>=-eq-ok o.keys _ h5 in
    let p : Plan = record { overlay = overlay; lighthouse = lighthouse; tenant = tenant } in
    let made : new_instance cfg o p port p6 keys ≡ inst = cc in
    let low = rw at_port at (free_port-IsLowestPort cfg (used_ports is) le) in
    let from = allocate_overlay-IsFrom cfg.overlays pools (used_overlays is) overlay at_overlay in
    let first = lowest_free-Fresh overlay [] lighthouse at_lighthouse in
    let second = lowest_free-Fresh overlay (lighthouse ∷ []) tenant at_tenant in
    rw (sym made) (record {
      sound = new_instance-IsSound cfg o p port p6 keys;
      in_range = (low.0, low.1);
      own_port = λ i j e. cc (low.2, (used_ports_iff port is).1 (i, j, e));
      lowest_port = λ q a b. (used_ports_iff q is).0 (low.3 q a b);
      own_overlay = λ i j e.
          IsFrom-new cfg.overlays pools (used_overlays is) overlay from
            ((used_overlays_iff overlay is).1 (i, j, e));
      overlay = from;
      lighthouse = first.0;
      tenant = second.0;
      apart = λ e. cc (second.1, (used_iff tenant (lighthouse ∷ [])).1 (inl (sym e)));
      six = plan6_in-IsStarted6 cfg.overlays6 pools6 is p6 at_p6;
    })
