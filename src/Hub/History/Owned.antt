-- ===== src/Hub/History/Owned.antt =====
-- internal/hub/ipam.go and hub.go: which addresses an allocation records, and for whom.
use robi_net.Base.{
  ℕ, ◌≡◌, ◌≢◌, refl, ◌∙◌, true, false, ◌&&◌, List, ◌⊎◌, some, Text, Dict, lookup, insert, equal,
  equal_iff, arith, inl, inr, Bool-cases, lookup-insert,
}
use robi_net.Net.{Addr, Prefix, is_addr, is_prefix, prefix_from}
use robi_net.Result.{Result, ok, err}
use robi_net.Hub.Types.{Kind, Instance}
use robi_net.Hub.Ipam.{allocate, allocate6, keep4, keep6, from_pool, reserved4, reserved6}
use robi_net.Hub.Ipam.Alloc.{from_pool_held, allocate_records, allocate6_records}
use robi_net.Hub.Admission.{prefix_of, address_in}

-- A prefix that holds no address, or the one that is recorded for the fingerprint.
abbrev pub Owns : Dict Addr → Text → Prefix → Type 0
Owns held fp p = (is_prefix p ≡ false) ⊎ (lookup fp held ≡ some p.addr)

abbrev pub OwnsBoth : Instance → Text → Prefix → Prefix → Type 0
OwnsBoth inst fp p p6 = Owns inst.allocations fp p × Owns inst.allocations6 fp p6

-- Every recorded address is still recorded.
abbrev pub Keeps : Dict Addr → Dict Addr → Type 0
Keeps held later = (j : Text) (x : Addr) → lookup j held ≡ some x → lookup j later ≡ some x

pub Keeps-Owns :
    (held later : Dict Addr)
    → Keeps held later
    → (fp : Text) (p : Prefix) → Owns held fp p
    → Owns later fp p
Keeps-Owns held later k fp p (inl e) = inl e
Keeps-Owns held later k fp p (inr e) = inr (k fp p.addr e)

pool-Keeps :
    (p : Prefix) (held : Dict Addr) (fp : Text) (kind : Kind) (reserved : List Addr) {y : Addr}
    → from_pool p held fp kind reserved ≡ ok y
    → Keeps held (insert fp y held)
pool-Keeps p held fp kind reserved {y} h j x e = elim (Bool-cases (equal fp j)) [
  | inl s ↦
      let e' : lookup fp held ≡ some x = rw ((equal_iff fp j).0 s) e in
      ground (arith, lookup-insert fp j y held, from_pool_held p held fp kind reserved e')
  | inr s ↦ ground (arith, lookup-insert fp j y held)
]

-- What an allocation leaves alone, and what it keeps.
pub record IsKept (inst later : Instance) : Type 0 where
  pub requests : later.requests ≡ inst.requests
  pub members : later.members ≡ inst.members
  pub held : Keeps inst.allocations later.allocations
  pub held6 : Keeps inst.allocations6 later.allocations6

pub IsKept-trans : (a b c : Instance) → IsKept a b → IsKept b c → IsKept a c
IsKept-trans a b c v w = record {
  requests = w.requests ∙ v.requests;
  members = w.members ∙ v.members;
  held = λ j x e. w.held j x (v.held j x e);
  held6 = λ j x e. w.held6 j x (v.held6 j x e);
}

same-IsKept : (a : Instance) → IsKept a a
same-IsKept a = record { requests = refl; members = refl; held = λ j x e. e; held6 = λ j x e. e }

module _ (inst : Instance) (fp : Text) (kind : Kind) where
  keep4-IsKept :
      (r : Result Addr)
      → from_pool inst.overlay inst.allocations fp kind (reserved4 inst) ≡ r
      → IsKept inst (keep4 inst fp r).1
  keep4-IsKept (err e) h = same-IsKept inst
  keep4-IsKept (ok y) h = record {
    requests = refl;
    members = refl;
    held = pool-Keeps inst.overlay inst.allocations fp kind (reserved4 inst) h;
    held6 = λ j x e. e;
  }

  keep6-IsKept :
      (r : Result Addr)
      → from_pool inst.overlay6 inst.allocations6 fp kind (reserved6 inst) ≡ r
      → IsKept inst (keep6 inst fp r).1
  keep6-IsKept (err e) h = same-IsKept inst
  keep6-IsKept (ok y) h = record {
    requests = refl;
    members = refl;
    held = λ j x e. e;
    held6 = pool-Keeps inst.overlay6 inst.allocations6 fp kind (reserved6 inst) h;
  }

  pub allocate-IsKept : IsKept inst (allocate inst fp kind).1
  unfolding allocate
  allocate-IsKept = keep4-IsKept _ refl

  pub allocate6-IsKept : IsKept inst (allocate6 inst fp kind).1
  unfolding allocate6
  allocate6-IsKept = elim (Bool-cases (is_prefix inst.overlay6)) [
    | inl e ↦ rw (e, allocate6) (keep6-IsKept _ refl)
    | inr e ↦ rw (e, allocate6) (same-IsKept inst)
  ]

-- A prefix made of an address that is recorded, or of none.
prefix_from-Owns :
    (held : Dict Addr) (fp : Text) (r : Result Addr) (n : ℕ)
    → ((x : Addr) → r ≡ ok x → lookup fp held ≡ some x)
    → Owns held fp (prefix_from (address_in r) n)
unfolding prefix_from
prefix_from-Owns held fp (err e) n h = inl (ground arith)
prefix_from-Owns held fp (ok x) n h = inr (ground (arith, h x refl))

prefix_of-Owns :
    (held : Dict Addr) (fp : Text) (r : Result Addr) (q : Prefix)
    → ((x : Addr) → is_addr x ≡ true → r ≡ ok x → lookup fp held ≡ some x)
    → Owns held fp (prefix_of (address_in r) q)
unfolding prefix_of prefix_from
prefix_of-Owns held fp (err e) q h = inl refl
prefix_of-Owns held fp (ok x) q h = elim (Bool-cases (is_addr x && is_prefix q)) [
  | inl v ↦ inr (ground (arith, h x, v))
  | inr v ↦ inl (ground (arith, v))
]

module _ (inst : Instance) (fp : Text) (kind : Kind) where
  no_pool :
      (x : Addr)
      → is_addr x ≡ true
      → is_prefix inst.overlay6 ≡ false
      → (allocate6 inst fp kind).0 ≢ ok x
  unfolding allocate6
  no_pool x v e h = let g : ok Addr.invalid ≡ ok x = rw (e, allocate6) at h in ground arith

  -- What the new record holds in each family is its own.
  pub allocate-Owns :
      (n : ℕ)
      → Owns
          (allocate inst fp kind).1.allocations
          fp
          (prefix_from (address_in (allocate inst fp kind).0) n)
  allocate-Owns n =
      prefix_from-Owns _ fp (allocate inst fp kind).0 n (λ x h. allocate_records inst fp kind h)

  pub allocate6-Owns :
      (q : Prefix)
      → Owns
          (allocate6 inst fp kind).1.allocations6
          fp
          (prefix_of (address_in (allocate6 inst fp kind).0) q)
  allocate6-Owns q = prefix_of-Owns _ fp (allocate6 inst fp kind).0 q given
    where
      given :
          (x : Addr)
          → is_addr x ≡ true
          → (allocate6 inst fp kind).0 ≡ ok x
          → lookup fp (allocate6 inst fp kind).1.allocations6 ≡ some x
      given x v h = elim (Bool-cases (is_prefix inst.overlay6)) [
        | inl e ↦ allocate6_records inst fp kind e h
        | inr e ↦ absurd (no_pool x v e h)
      ]
