-- ===== src/Hub/Create/Port.antt =====
-- `freePort` of internal/hub/hub.go, against the range of ports.
use robi_net.Base.{
  ℕ, zero, suc, ◌+◌, ◌-◌, ◌≤◌, ◌<◌, ◌≡◌, refl, true, false, List, Bool-cases, ltb, ◌==◌, arith, inl,
  inr, ==_iff,
}
use robi_net.Result.{Result, ok, err, no_free_port}
use robi_net.Hub.Decision.{Config}
use robi_net.Hub.Create.{port_taken, free_from, free_port}

-- The lowest port from `low` to `high` that nobody has, and the error for none.
abbrev pub IsLowestPort : ℕ → ℕ → List ℕ → Result ℕ → Type 0
IsLowestPort low high taken (ok p) =
    (low ≤ p)
    × (p ≤ high)
    × (port_taken p taken ≡ false)
    × ((q : ℕ) → low ≤ q → q < p → port_taken q taken ≡ true)
IsLowestPort low high taken (err e) =
    (e ≡ no_free_port) × ((q : ℕ) → low ≤ q → q ≤ high → port_taken q taken ≡ true)

further :
    (low high : ℕ) (taken : List ℕ) (r : Result ℕ)
    → port_taken low taken ≡ true
    → IsLowestPort (low + 1) high taken r
    → IsLowestPort low high taken r
further low high taken (ok p) h (a, b, c, d) = (
  omega arith,
  b,
  c,
  λ q e f. elim (Bool-cases (q == low)) [
    | inl g ↦ rw ((==_iff q low).0 g) h
    | inr g ↦ d q (ground arith) f
  ],
)
further low high taken (err e) h (a, b) = (
  a,
  λ q e f. elim (Bool-cases (q == low)) [
    | inl g ↦ rw ((==_iff q low).0 g) h
    | inr g ↦ b q (ground arith) f
  ],
)

free_from-IsLowestPort :
    (fuel low high : ℕ) (taken : List ℕ)
    → low ≤ high
    → high < low + fuel
    → IsLowestPort low high taken (free_from fuel low high taken)
unfolding free_from
free_from-IsLowestPort zero low high taken le enough = absurd (omega arith)
free_from-IsLowestPort (suc fuel) low high taken le enough =
    elim (Bool-cases (port_taken low taken)) [
      | inr e ↦ rw (e, below) (omega arith, le, e, λ q a b. absurd (omega arith))
      | inl e ↦ elim (Bool-cases (low == high)) [
        | inl g ↦ rw (e, g, below) (refl, λ q a b. rw (same q a b g) e)
        | inr g ↦
            rw (e, g, below)
              (further low high taken _ e
                (free_from-IsLowestPort fuel (low + 1) high taken (ground arith) (omega arith)))
      ]
    ]
  where
    below : ltb high low ≡ false
    below = ground arith

    same : (q : ℕ) → low ≤ q → q ≤ high → (low == high) ≡ true → q ≡ low
    same q a b g = ground arith

-- When the range of ports is not empty, `freePort` answers the lowest port of the range that no
-- instance has, and says that there is none exactly when all of them are in use.
pub free_port-IsLowestPort :
    (cfg : Config) (taken : List ℕ)
    → cfg.port_min ≤ cfg.port_max
    → IsLowestPort cfg.port_min cfg.port_max taken (free_port cfg taken)
unfolding free_port
free_port-IsLowestPort cfg taken le =
    free_from-IsLowestPort (suc (cfg.port_max - cfg.port_min)) cfg.port_min cfg.port_max taken le
      (omega arith)
