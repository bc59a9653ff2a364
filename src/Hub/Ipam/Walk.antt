-- ===== src/Hub/Ipam/Walk.antt =====
-- What `lowestFree` and `highestFree` find.
use native.Mathlib.Decide.{ℕ_discrete}
use robi_net.Base.{
  ℕ, zero, suc, ◌+◌, ◌≤◌, ◌<◌, ◌≡◌, ◌≢◌, refl, Bool, true, false, not, ◌&&◌, List, [], ◌∷◌, length,
  leb, if◌then◌else◌, Bool-cases, arith, inl, inr,
}
use robi_net.Net.{
  Family, Addr, invalid, ip, Prefix, same_addr_iff, is_addr, capacity, next, is_prefix, contains,
}
use robi_net.Net.Range.{first, contains_iff}
use robi_net.Result.{Result, ok, err, pool_exhausted, out_of_fuel}
use robi_net.Hub.Ipam.{used, is_broadcast, lowest_from}

-- What a walk upwards may hand out.
unfoldable pub usable : Prefix → List Addr → Addr → Bool
usable p taken a = not (used a taken) && not (is_broadcast p a)

-- How many of the taken addresses of the family are at or above `n`.
pub count_from : Family → ℕ → List Addr → ℕ
count_from f n [] = 0
count_from f n (invalid ∷ as') = count_from f n as'
count_from f n (ip g m ∷ as') = (if leb n m then 1 else 0) + count_from f n as'

pub count_from-le-length : (f : Family) (n : ℕ) (as' : List Addr) → count_from f n as' ≤ length as'
unfolding count_from
count_from-le-length f n [] = omega arith
count_from-le-length f n (invalid ∷ as') = omega (arith, count_from-le-length f n as')
count_from-le-length f n (ip g m ∷ as') = ground (arith, count_from-le-length f n as')

count_from_mono :
    (f : Family) (n : ℕ) (as' : List Addr) → count_from f (n + 1) as' ≤ count_from f n as'
unfolding count_from
count_from_mono f n [] = omega arith
count_from_mono f n (invalid ∷ as') = count_from_mono f n as'
count_from_mono f n (ip g m ∷ as') = ground (arith, count_from_mono f n as')

-- Passing a taken address lowers the count.
count_from-used :
    (f : Family) (n : ℕ) (as' : List Addr)
    → used (ip f n) as' ≡ true
    → count_from f (n + 1) as' < count_from f n as'
unfolding count_from used
count_from-used f n [] h = cc
count_from-used f n (invalid ∷ as') h =
    ground (arith, same_addr_iff (ip f n) invalid, count_from-used f n as')
count_from-used f n (ip g m ∷ as') h =
    ground
      (arith, same_addr_iff (ip f n) (ip g m), count_from-used f n as', count_from_mono f n as')

pub contains-is_addr : (p : Prefix) (a : Addr) → contains p a ≡ true → is_addr a ≡ true
unfolding contains
contains-is_addr p invalid h = ground arith
contains-is_addr p (ip f n) h = refl

pub next_lem :
    (p : Prefix) (f : Family) (n : ℕ)
    → contains p (next (ip f n)) ≡ true
    → next (ip f n) ≡ ip f (n + 1)
unfolding next
next_lem p f n h = ground (arith, contains-is_addr p (next (ip f n)))

-- A broadcast address has nothing of the prefix behind it.
pub broadcast_last : (p : Prefix) (a : Addr) → is_broadcast p a ≡ true → contains p (next a) ≡ false
unfolding is_broadcast
broadcast_last p a h = ground (arith, contains-is_addr p (next a))

module _ (p : Prefix) (taken : List Addr) where
  pub lowest_from_stop :
      (fuel : ℕ) (a : Addr)
      → contains p a ≡ false
      → lowest_from (suc fuel) p taken a ≡ err pool_exhausted
  unfolding lowest_from
  lowest_from_stop fuel a h = ground arith

  -- One round, by what stands behind `a`.
  lowest_from_step :
      (fuel : ℕ) (a : Addr)
      → contains p a ≡ true
      → lowest_from (suc fuel) p taken a
        ≡ (if usable p taken a then ok a else lowest_from fuel p taken (next a))
  unfolding lowest_from usable
  lowest_from_step fuel a h = ground arith

  lowest_from_total :
      (fuel : ℕ) (f : Family) (n : ℕ)
      → count_from f n taken + 2 ≤ fuel
      → lowest_from fuel p taken (ip f n) ≢ err out_of_fuel
  unfolding usable
  lowest_from_total zero f n h = absurd (omega arith)
  lowest_from_total (suc zero) f n h = absurd (omega arith)
  lowest_from_total (suc (suc fuel)) f n h = elim (Bool-cases (contains p (ip f n))) [
    | inr out ↦ ground (arith, lowest_from_stop (suc fuel) (ip f n))
    | inl inside ↦ elim (Bool-cases (contains p (next (ip f n)))) [
      | inr out ↦ ground (
        arith,
        lowest_from_step (suc fuel) (ip f n) inside,
        lowest_from_stop fuel (next (ip f n)) out,
      )
      | inl more ↦ ground (
        arith,
        lowest_from_step (suc fuel) (ip f n) inside,
        next_lem p f n more,
        broadcast_last p (ip f n),
        count_from-used f n taken,
        lowest_from_total (suc fuel) f (n + 1),
      )
    ]
  ]

  -- The number that a walk upwards from `lo` ends at, or that nothing from `lo` on is usable.
  abbrev pub Lowest : Family → ℕ → Result Addr → Type 0
  Lowest f lo (ok x) =
      (m : ℕ) × (x ≡ ip f m)
      × (lo ≤ m)
      × (contains p x ≡ true)
      × (usable p taken x ≡ true)
      × ((j : ℕ) → lo ≤ j → j < m → usable p taken (ip f j) ≡ false)
  Lowest f lo (err e) =
      (e ≡ pool_exhausted)
      × ((j : ℕ)
          → lo ≤ j
          → j < capacity f
          → contains p (ip f j) ≡ true
          → usable p taken (ip f j) ≡ false)

  -- What a round that passes `lo` adds to what the rest of the walk found.
  Lowest-step :
      (f : Family) (lo : ℕ) (r : Result Addr)
      → usable p taken (ip f lo) ≡ false
      → Lowest f (lo + 1) r
      → Lowest f lo r
  Lowest-step f lo (ok x) h (m, e, le, c, u, below) = (m, e, omega arith, c, u, λ j a b. pass j a b)
    where
      pass : (j : ℕ) → lo ≤ j → j < m → usable p taken (ip f j) ≡ false
      pass j a b = elim (ℕ_discrete lo j) [
        | yes same ↦ rw (← same) h
        | no other ↦ below j (omega arith) b
      ]
  Lowest-step f lo (err e) h (is, none_left) = (is, λ j a b c. pass j a b c)
    where
      pass :
          (j : ℕ)
          → lo ≤ j
          → j < capacity f
          → contains p (ip f j) ≡ true
          → usable p taken (ip f j) ≡ false
      pass j a b c = elim (ℕ_discrete lo j) [
        | yes same ↦ rw (← same) h
        | no other ↦ none_left j (omega arith) b c
      ]

module _ (p : Prefix) (f : Family) (n : ℕ) (at : p.addr ≡ ip f n) (valid : is_prefix p ≡ true)
    (taken : List Addr) where
  -- Above an address outside of the prefix there is nothing of it, from its first address on.
  outside_above :
      (lo j : ℕ)
      → first p f n at valid ≤ lo
      → contains p (ip f lo) ≡ false
      → lo ≤ j
      → contains p (ip f j) ≡ true
      → ⊥
  outside_above lo j a out b inside =
      ground (arith, contains_iff p f n at valid lo, contains_iff p f n at valid j)

  past_end :
      (lo j : ℕ)
      → first p f n at valid ≤ lo
      → contains p (next (ip f lo)) ≡ false
      → lo + 1 ≤ j
      → j < capacity f
      → contains p (ip f j) ≡ true
      → ⊥
  unfolding next
  past_end lo j a out b c inside = ground (arith, outside_above (lo + 1) j)

  -- A usable address was skipped because it is taken, if the prefix goes on behind it.
  skip_count :
      (lo : ℕ)
      → usable p taken (ip f lo) ≡ false
      → contains p (next (ip f lo)) ≡ true
      → count_from f (lo + 1) taken < count_from f lo taken
  unfolding usable
  skip_count lo skip more = ground (arith, broadcast_last p (ip f lo), count_from-used f lo taken)

  pub lowest_from-Lowest :
      (fuel lo : ℕ)
      → first p f n at valid ≤ lo
      → count_from f lo taken + 2 ≤ fuel
      → Lowest p taken f lo (lowest_from fuel p taken (ip f lo))
  lowest_from-Lowest zero lo a h = absurd (omega arith)
  lowest_from-Lowest (suc zero) lo a h = absurd (omega arith)
  lowest_from-Lowest (suc (suc fuel)) lo a h = elim (Bool-cases (contains p (ip f lo))) [
    | inr out ↦
        rw (lowest_from_stop p taken (suc fuel) (ip f lo) out)
          (refl, λ j b c d. absurd (outside_above lo j a out b d))
    | inl inside ↦
        rw (lowest_from_step p taken (suc fuel) (ip f lo) inside)
          (elim (Bool-cases (usable p taken (ip f lo))) [
            | inl free ↦
                rw free (lo, refl, omega arith, inside, free, λ j b c. absurd (omega arith))
            | inr skip ↦ rw skip (elim (Bool-cases (contains p (next (ip f lo)))) [
              | inl more ↦ rw (next_lem p f lo more) (
                  Lowest-step p taken f lo _ skip (
                    lowest_from-Lowest (suc fuel) (lo + 1) (omega arith)
                      (omega (arith, skip_count lo skip more))))
              | inr out ↦ rw (lowest_from_stop p taken fuel (next (ip f lo)) out) (
                  Lowest-step p taken f lo (err pool_exhausted) skip
                    (refl, λ j b c d. absurd (past_end lo j a out b c d)))
            ])
          ])
  ]
