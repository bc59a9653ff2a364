-- ===== src/Hub/Ipam/Pool.antt =====
-- `fromPool` of internal/hub/ipam.go: what a new fingerprint is given.
use robi_net.Base.{
  ℕ, zero, suc, ◌≡◌, ◌≢◌, true, false, List, [], ◌∷◌, ◌++◌, length, In, In-append_left,
  In-append_right, none, some, Text, Dict, lookup, values, lookup-In-values, arith,
}
use robi_net.Net.{Addr, Prefix, is_addr, contains, next, prev, masked}
use robi_net.Result.{ok}
use robi_net.Hub.Types.{Kind, connector, tenant, owner}
use robi_net.Hub.Ipam.{
  used, lowest_from, lowest_free, last_addr, highest_from, highest_free, valid_addrs, from_pool,
}
use robi_net.Hub.Ipam.Ends.{used_iff}
use robi_net.Hub.Ipam.Walk.{contains-is_addr}

-- What every successful walk gives: an address of the prefix that is not in the set.
abbrev pub Fresh : Prefix → List Addr → Addr → Type 0
Fresh p taken x = (contains p x ≡ true) × (used x taken ≡ false)

module _ (p : Prefix) (taken : List Addr) (x : Addr) where
  lowest_from-Fresh : (fuel : ℕ) (a : Addr) → lowest_from fuel p taken a ≡ ok x → Fresh p taken x
  unfolding lowest_from
  lowest_from-Fresh zero a h = cc
  lowest_from-Fresh (suc fuel) a h = ground (arith, lowest_from-Fresh fuel (next a))

  highest_from-Fresh : (fuel : ℕ) (a : Addr) → highest_from fuel p taken a ≡ ok x → Fresh p taken x
  unfolding highest_from
  highest_from-Fresh zero a h = cc
  highest_from-Fresh (suc fuel) a h = ground (arith, highest_from-Fresh fuel (prev a))

  pub lowest_free-Fresh : lowest_free p taken ≡ ok x → Fresh p taken x
  unfolding lowest_free
  lowest_free-Fresh h =
      ground (arith, lowest_from-Fresh (suc (suc (length taken))) (next (masked p).addr))

  highest_free-Fresh : highest_free p taken ≡ ok x → Fresh p taken x
  unfolding highest_free
  highest_free-Fresh h =
      ground (arith, highest_from-Fresh (suc (suc (suc (length taken)))) (last_addr p))

In-valid_addrs : (a : Addr) (as' : List Addr) → is_addr a ≡ true → In a as' → In a (valid_addrs as')
In-valid_addrs a [] v h = h
In-valid_addrs a (b ∷ as') v h = ground (arith, In-valid_addrs a as' v)

-- When a fingerprint that holds no address is given one, it lies in the prefix, is not among the
-- reserved ones, and no fingerprint holds it.
pub from_pool-Fresh :
    (p : Prefix) (held : Dict Addr) (fp : Text) (kind : Kind) (reserved : List Addr) {x : Addr}
    → lookup fp held ≡ none
    → from_pool p held fp kind reserved ≡ ok x
    → (contains p x ≡ true) × (¬ In x reserved) × ((j : Text) → lookup j held ≢ some x)
unfolding from_pool
from_pool-Fresh p held fp kind reserved {x} new h = (fresh.0, not_reserved, not_held)
  where
    taken : List Addr
    taken = values held ++ valid_addrs reserved

    pick :
        (k : Kind)
        → elim k [ connector ↦ highest_free p taken | _ ↦ lowest_free p taken ] ≡ ok x
        → Fresh p taken x
    pick connector e = highest_free-Fresh p taken x e
    pick tenant e = lowest_free-Fresh p taken x e
    pick owner e = lowest_free-Fresh p taken x e

    fresh : Fresh p taken x
    fresh = pick kind (rw (new, from_pool) at h)

    unused : ¬ In x taken
    unused i = cc (fresh.1, (used_iff x taken).1 i)

    not_reserved : ¬ In x reserved
    not_reserved i = unused (
        In-append_right x (values held) (valid_addrs reserved)
          (In-valid_addrs x reserved (contains-is_addr p x fresh.0) i))

    not_held : (j : Text) → lookup j held ≢ some x
    not_held j e =
        unused (In-append_left x (values held) (valid_addrs reserved) (lookup-In-values j x held e))
