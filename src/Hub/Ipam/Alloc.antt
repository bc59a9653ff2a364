-- ===== src/Hub/Ipam/Alloc.antt =====
-- `allocate` and `allocate6` of internal/hub/ipam.go: the two maps of addresses.
use robi_net.Base.{
  ◌≡◌, ◌≢◌, refl, true, false, List, ◌⊎◌, In, In-append_right, none, some, Text, Dict, lookup,
  insert, values, equal_iff, equal_refl, lookup-insert, arith, inl, inr, Option-cases, Bool-cases,
}
use robi_net.Net.{Addr, Prefix, is_prefix}
use robi_net.Result.{Result, ok, err}
use robi_net.Hub.Types.{Kind, Instance}
use robi_net.Hub.Ipam.{
  from_pool, member_addresses, reserved4, reserved6, keep4, keep6, allocate, allocate6,
}
use robi_net.Hub.Ipam.Pool.{from_pool-Fresh}

-- No two fingerprints hold one address.
abbrev pub IsInjective : Dict Addr → Type 0
IsInjective held = (j k : Text) (a : Addr) → lookup j held ≡ some a → lookup k held ≡ some a → j ≡ k

-- Nobody holds the lighthouse's address or the owner's.
abbrev pub IsApart : Dict Addr → Addr → Type 0
IsApart held a = (j : Text) → lookup j held ≢ some a

-- The two allocation maps of an instance.
pub record IsAllocated (inst : Instance) : Type 0 where
  pub injective : IsInjective inst.allocations
  pub injective6 : IsInjective inst.allocations6
  pub lighthouse : IsApart inst.allocations inst.lighthouse_address
  pub lighthouse6 : IsApart inst.allocations6 inst.lighthouse_address6
  pub tenant : IsApart inst.allocations inst.tenant_address
  pub tenant6 : IsApart inst.allocations6 inst.tenant_address6

insert-IsInjective :
    (fp : Text) (x : Addr) (held : Dict Addr)
    → ((j : Text) → lookup j held ≡ some x → j ≡ fp)
    → IsInjective held
    → IsInjective (insert fp x held)
insert-IsInjective fp x held new inj j k a e g = ground (
  arith,
  lookup-insert fp j x held,
  lookup-insert fp k x held,
  equal_iff fp j,
  equal_iff fp k,
  new j,
  new k,
  inj j k a,
)

insert-IsApart :
    (fp : Text) (x a : Addr) (held : Dict Addr)
    → x ≢ a
    → IsApart held a
    → IsApart (insert fp x held) a
insert-IsApart fp x a held ne apart j = ground (arith, lookup-insert fp j x held, apart j)

pub from_pool_held :
    (p : Prefix) (held : Dict Addr) (fp : Text) (kind : Kind) (reserved : List Addr) {a : Addr}
    → lookup fp held ≡ some a
    → from_pool p held fp kind reserved ≡ ok a
unfolding from_pool
from_pool_held p held fp kind reserved h = rw (h, from_pool)

-- Whatever the pool answers, nobody else holds it.
from_pool_own :
    (p : Prefix) (held : Dict Addr) (fp : Text) (kind : Kind) (reserved : List Addr) {x : Addr}
    → IsInjective held
    → from_pool p held fp kind reserved ≡ ok x
    → (j : Text) → lookup j held ≡ some x
    → j ≡ fp
from_pool_own p held fp kind reserved {x} inj h j e = elim (Option-cases (lookup fp held)) [
  | inl new ↦ absurd ((from_pool-Fresh p held fp kind reserved new h).2 j e)
  | inr (a, old) ↦ inj j fp x e (ground (arith, from_pool_held p held fp kind reserved old))
]

-- It is none of the reserved addresses that nobody held before.
from_pool-IsApart :
    (p : Prefix) (held : Dict Addr) (fp : Text) (kind : Kind) (reserved : List Addr) {x : Addr}
    (b : Addr)
    → IsApart held b
    → In b reserved
    → from_pool p held fp kind reserved ≡ ok x
    → IsApart (insert fp x held) b
from_pool-IsApart p held fp kind reserved {x} b apart i h =
    insert-IsApart fp x b held (other (Option-cases (lookup fp held))) apart
  where
    other : (lookup fp held ≡ none) ⊎ ((a : Addr) × (lookup fp held ≡ some a)) → x ≢ b
    other (inl new) e = (from_pool-Fresh p held fp kind reserved new h).1 (rw e i)
    other (inr (a, old)) e = apart fp (ground (arith, from_pool_held p held fp kind reserved old))

module _ (inst : Instance) (fp : Text) where
  keep4-IsAllocated :
      (kind : Kind) (r : Result Addr)
      → from_pool inst.overlay inst.allocations fp kind (reserved4 inst) ≡ r
      → IsAllocated inst
      → IsAllocated (keep4 inst fp r).1
  keep4-IsAllocated kind (err e) h v = v
  keep4-IsAllocated kind (ok x) h v = record {
    injective =
        insert-IsInjective fp x inst.allocations
          (from_pool_own inst.overlay inst.allocations fp kind (reserved4 inst) v.injective h)
          v.injective;
    injective6 = v.injective6;
    lighthouse =
        from_pool-IsApart inst.overlay inst.allocations fp kind (reserved4 inst) _ v.lighthouse
          (In-append_right _ (member_addresses false (values inst.members)) _ (inl refl)) h;
    lighthouse6 = v.lighthouse6;
    tenant =
        from_pool-IsApart inst.overlay inst.allocations fp kind (reserved4 inst) _ v.tenant
          (In-append_right _ (member_addresses false (values inst.members)) _ (inr (inl refl))) h;
    tenant6 = v.tenant6;
  }

  keep6-IsAllocated :
      (kind : Kind) (r : Result Addr)
      → from_pool inst.overlay6 inst.allocations6 fp kind (reserved6 inst) ≡ r
      → IsAllocated inst
      → IsAllocated (keep6 inst fp r).1
  keep6-IsAllocated kind (err e) h v = v
  keep6-IsAllocated kind (ok x) h v = record {
    injective = v.injective;
    injective6 =
        insert-IsInjective fp x inst.allocations6
          (from_pool_own inst.overlay6 inst.allocations6 fp kind (reserved6 inst) v.injective6 h)
          v.injective6;
    lighthouse = v.lighthouse;
    lighthouse6 =
        from_pool-IsApart inst.overlay6 inst.allocations6 fp kind (reserved6 inst) _ v.lighthouse6
          (In-append_right _ (member_addresses true (values inst.members)) _ (inl refl)) h;
    tenant = v.tenant;
    tenant6 =
        from_pool-IsApart inst.overlay6 inst.allocations6 fp kind (reserved6 inst) _ v.tenant6
          (In-append_right _ (member_addresses true (values inst.members)) _ (inr (inl refl))) h;
  }

  -- An IPv4 allocation, whether or not it succeeds, keeps the recorded addresses of each family
  -- apart from each other and from the lighthouse's and the owner's.
  pub allocate-IsAllocated :
      (kind : Kind) → IsAllocated inst → IsAllocated (allocate inst fp kind).1
  unfolding allocate
  allocate-IsAllocated kind v = keep4-IsAllocated kind _ refl v

  -- An IPv6 allocation, whether or not it succeeds and whether or not there is a prefix for it,
  -- keeps the recorded addresses of each family apart from each other and from the lighthouse's and
  -- the owner's.
  pub allocate6-IsAllocated :
      (kind : Kind) → IsAllocated inst → IsAllocated (allocate6 inst fp kind).1
  unfolding allocate6
  allocate6-IsAllocated kind v = elim (Bool-cases (is_prefix inst.overlay6)) [
    | inl some_pool ↦ rw some_pool (keep6-IsAllocated kind _ refl v)
    | inr no_pool ↦ rw no_pool v
  ]

  keep4_records :
      (r : Result Addr) {x : Addr}
      → (keep4 inst fp r).0 ≡ ok x
      → lookup fp (keep4 inst fp r).1.allocations ≡ some x
  keep4_records (err e) h = cc
  keep4_records (ok y) h = ground (arith, lookup-insert fp fp y inst.allocations, equal_refl fp)

  pub allocate_records :
      (kind : Kind) {x : Addr}
      → (allocate inst fp kind).0 ≡ ok x
      → lookup fp (allocate inst fp kind).1.allocations ≡ some x
  unfolding allocate
  allocate_records kind = keep4_records _

  keep6_records :
      (r : Result Addr) {x : Addr}
      → (keep6 inst fp r).0 ≡ ok x
      → lookup fp (keep6 inst fp r).1.allocations6 ≡ some x
  keep6_records (err e) h = cc
  keep6_records (ok y) h = ground (arith, lookup-insert fp fp y inst.allocations6, equal_refl fp)

  pub allocate6_records :
      (kind : Kind) {x : Addr}
      → is_prefix inst.overlay6 ≡ true
      → (allocate6 inst fp kind).0 ≡ ok x
      → lookup fp (allocate6 inst fp kind).1.allocations6 ≡ some x
  unfolding allocate6
  allocate6_records kind pool h = rw (pool, allocate6) (keep6_records _ (rw (pool, allocate6) at h))

  -- Of a fingerprint that has an address, nothing changes.
  pub allocate_held :
      (kind : Kind) {x : Addr}
      → lookup fp inst.allocations ≡ some x
      → ((allocate inst fp kind).0 ≡ ok x)
        × ((j : Text) → lookup j (allocate inst fp kind).1.allocations ≡ lookup j inst.allocations)
  unfolding allocate
  allocate_held kind {x} h =
      rw (from_pool_held inst.overlay inst.allocations fp kind (reserved4 inst) h)
        (refl, λ j. ground (arith, lookup-insert fp j x inst.allocations, equal_iff fp j))

-- When an IPv4 allocation gives an address, that is the one recorded for the fingerprint, and
-- asking again, as whatever kind, answers the same address and leaves everybody's address as it
-- was.
pub allocate_sticky :
    (inst : Instance) (fp : Text) (kind again : Kind) {x : Addr}
    → (allocate inst fp kind).0 ≡ ok x
    → let (r, later) = allocate (allocate inst fp kind).1 fp again in
      (lookup fp (allocate inst fp kind).1.allocations ≡ some x)
      × (r ≡ ok x)
      × ((j : Text) → lookup j later.allocations ≡ lookup j (allocate inst fp kind).1.allocations)
allocate_sticky inst fp kind again h =
    let recorded = allocate_records inst fp kind h in
    let kept = allocate_held (allocate inst fp kind).1 fp again recorded in
    (recorded, kept.0, kept.1)
