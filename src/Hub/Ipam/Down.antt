-- ===== src/Hub/Ipam/Down.antt =====
-- The walk of `highestFree`, downwards.
use native.Mathlib.Decide.{ℕ_discrete}
use robi_net.Base.{
  ℕ, zero, suc, ◌+◌, ◌-◌, ◌≤◌, ◌<◌, ◌≡◌, refl, Bool, true, false, not, ◌&&◌, List, [], ◌∷◌, length,
  leb, if◌then◌else◌, Bool-cases, arith, inl, inr,
}
use robi_net.Net.{
  Family, Addr, invalid, ip, Prefix, same_addr, same_addr_iff, capacity, next, prev, is_prefix,
  bits, span, masked, contains,
}
use robi_net.Net.Range.{first, masked_lem, contains_iff}
use robi_net.Result.{Result, ok, err, pool_exhausted}
use robi_net.Hub.Ipam.{used, is_broadcast, highest_from}
use robi_net.Hub.Ipam.Walk.{contains-is_addr, broadcast_last, usable}

-- What a walk downwards may hand out.
unfoldable pub usable_down : Prefix → List Addr → Addr → Bool
usable_down p taken a = usable p taken a && not (same_addr a (masked p).addr)

-- How many of the taken addresses of the family are at or below `n`.
pub count_to : Family → ℕ → List Addr → ℕ
count_to f n [] = 0
count_to f n (invalid ∷ as') = count_to f n as'
count_to f n (ip g m ∷ as') = (if leb m n then 1 else 0) + count_to f n as'

pub count_to-le-length : (f : Family) (n : ℕ) (as' : List Addr) → count_to f n as' ≤ length as'
unfolding count_to
count_to-le-length f n [] = omega arith
count_to-le-length f n (invalid ∷ as') = omega (arith, count_to-le-length f n as')
count_to-le-length f n (ip g m ∷ as') = ground (arith, count_to-le-length f n as')

count_to_mono : (f : Family) (n : ℕ) (as' : List Addr) → count_to f (n - 1) as' ≤ count_to f n as'
unfolding count_to
count_to_mono f n [] = omega arith
count_to_mono f n (invalid ∷ as') = count_to_mono f n as'
count_to_mono f n (ip g m ∷ as') = ground (arith, count_to_mono f n as')

count_to-used :
    (f : Family) (n : ℕ) (as' : List Addr)
    → 0 < n
    → used (ip f n) as' ≡ true
    → count_to f (n - 1) as' < count_to f n as'
unfolding count_to used
count_to-used f n [] z h = cc
count_to-used f n (invalid ∷ as') z h =
    ground (arith, same_addr_iff (ip f n) invalid, count_to-used f n as')
count_to-used f n (ip g m ∷ as') z h =
    ground (arith, same_addr_iff (ip f n) (ip g m), count_to-used f n as', count_to_mono f n as')

module _ (p : Prefix) (taken : List Addr) where
  highest_from_stop :
      (fuel : ℕ) (a : Addr)
      → contains p a ≡ false
      → highest_from (suc fuel) p taken a ≡ err pool_exhausted
  unfolding highest_from
  highest_from_stop fuel a h = ground arith

  highest_from_step :
      (fuel : ℕ) (a : Addr)
      → contains p a ≡ true
      → highest_from (suc fuel) p taken a
        ≡ (if usable_down p taken a then ok a else highest_from fuel p taken (prev a))
  unfolding highest_from usable_down usable
  highest_from_step fuel a h = ground arith

  -- The number that a walk downwards from `hi` ends at, or that nothing up to `hi` is usable.
  abbrev pub Highest : Family → ℕ → Result Addr → Type 0
  Highest f hi (ok x) =
      (m : ℕ) × (x ≡ ip f m)
      × (m ≤ hi)
      × (contains p x ≡ true)
      × (usable_down p taken x ≡ true)
      × ((j : ℕ) → m < j → j ≤ hi → usable_down p taken (ip f j) ≡ false)
  Highest f hi (err e) =
      (e ≡ pool_exhausted)
      × ((j : ℕ) → j ≤ hi → contains p (ip f j) ≡ true → usable_down p taken (ip f j) ≡ false)

  Highest-step :
      (f : Family) (hi : ℕ) (r : Result Addr)
      → 0 < hi
      → usable_down p taken (ip f hi) ≡ false
      → Highest f (hi - 1) r
      → Highest f hi r
  Highest-step f hi (ok x) z h (m, e, le, c, u, above) =
      (m, e, omega arith, c, u, λ j a b. pass j a b)
    where
      pass : (j : ℕ) → m < j → j ≤ hi → usable_down p taken (ip f j) ≡ false
      pass j a b = elim (ℕ_discrete hi j) [
        | yes same ↦ rw (← same) h
        | no other ↦ above j a (omega arith)
      ]
  Highest-step f hi (err e) z h (is, none_left) = (is, λ j a b. pass j a b)
    where
      pass : (j : ℕ) → j ≤ hi → contains p (ip f j) ≡ true → usable_down p taken (ip f j) ≡ false
      pass j a b = elim (ℕ_discrete hi j) [
        | yes same ↦ rw (← same) h
        | no other ↦ none_left j (omega arith) b
      ]

prev_lem :
    (p : Prefix) (f : Family) (n : ℕ)
    → contains p (prev (ip f n)) ≡ true
    → (0 < n) × (prev (ip f n) ≡ ip f (n - 1))
unfolding prev
prev_lem p f n h = ground (arith, contains-is_addr p (prev (ip f n)))

-- An address with one of the prefix behind it is no broadcast address.
not_broadcast :
    (p : Prefix) (f : Family) (n : ℕ)
    → 0 < n
    → n < capacity f
    → contains p (ip f n) ≡ true
    → is_broadcast p (ip f (n - 1)) ≡ false
unfolding next
not_broadcast p f n z c h = ground (arith, broadcast_last p (ip f (n - 1)))

module _ (p : Prefix) (f : Family) (n : ℕ) (at : p.addr ≡ ip f n) (valid : is_prefix p ≡ true)
    (taken : List Addr) where
  outside_below :
      (hi j : ℕ)
      → hi < first p f n at valid + span f (bits p)
      → contains p (ip f hi) ≡ false
      → j ≤ hi
      → contains p (ip f j) ≡ true
      → ⊥
  outside_below hi j a out b inside =
      ground (arith, contains_iff p f n at valid hi, contains_iff p f n at valid j)

  past_start :
      (hi j : ℕ)
      → hi < first p f n at valid + span f (bits p)
      → contains p (prev (ip f hi)) ≡ false
      → j < hi
      → contains p (ip f j) ≡ true
      → ⊥
  unfolding prev
  past_start hi j a out b inside = ground (arith, outside_below (hi - 1) j)

  -- The network address has nothing of the prefix before it.
  network_first :
      (hi : ℕ) → same_addr (ip f hi) (masked p).addr ≡ true → contains p (prev (ip f hi)) ≡ false
  unfolding prev
  network_first hi h = ground (
    arith,
    same_addr_iff (ip f hi) (masked p).addr,
    masked_lem p f n at valid,
    contains_iff p f n at valid (hi - 1),
    contains-is_addr p (prev (ip f hi)),
  )

  -- The rounds that a walk from `hi` may need.
  abbrev need : ℕ → ℕ
  need hi = count_to f hi taken + (if is_broadcast p (ip f hi) then 3 else 2)

  skip_need :
      (hi : ℕ)
      → hi < capacity f
      → contains p (ip f hi) ≡ true
      → usable_down p taken (ip f hi) ≡ false
      → contains p (prev (ip f hi)) ≡ true
      → need (hi - 1) < need hi
  unfolding usable_down usable
  skip_need hi c inside skip more = ground (
    arith,
    prev_lem p f hi more,
    not_broadcast p f hi,
    network_first hi,
    count_to-used f hi taken,
    count_to_mono f hi taken,
  )

  -- Where the walk ends behind `hi`, nothing up to `hi` is usable if `hi` is not.
  last_skipped :
      (hi : ℕ)
      → hi < first p f n at valid + span f (bits p)
      → contains p (ip f hi) ≡ true
      → usable_down p taken (ip f hi) ≡ false
      → contains p (prev (ip f hi)) ≡ false
      → (j : ℕ) → j ≤ hi
      → contains p (ip f j) ≡ true
      → usable_down p taken (ip f j) ≡ false
  last_skipped hi a inside skip out j b d = elim (ℕ_discrete hi j) [
    | yes same ↦ rw (← same) skip
    | no other ↦ absurd (past_start hi j a out (omega arith) d)
  ]

  pub highest_from-Highest :
      (fuel hi : ℕ)
      → hi < capacity f
      → hi < first p f n at valid + span f (bits p)
      → need hi ≤ fuel
      → Highest p taken f hi (highest_from fuel p taken (ip f hi))
  highest_from-Highest zero hi c a h = absurd (ground arith)
  highest_from-Highest (suc zero) hi c a h = absurd (ground arith)
  highest_from-Highest (suc (suc fuel)) hi c a h = elim (Bool-cases (contains p (ip f hi))) [
    | inr out ↦
        rw (highest_from_stop p taken (suc fuel) (ip f hi) out)
          (refl, λ j b d. absurd (outside_below hi j a out b d))
    | inl inside ↦
        rw (highest_from_step p taken (suc fuel) (ip f hi) inside)
          (elim (Bool-cases (usable_down p taken (ip f hi))) [
            | inl free ↦
                rw free (hi, refl, omega arith, inside, free, λ j b d. absurd (omega arith))
            | inr skip ↦ rw skip (elim (Bool-cases (contains p (prev (ip f hi)))) [
              | inl more ↦
                  let (z, back) = prev_lem p f hi more in
                  rw back (
                    Highest-step p taken f hi _ z skip (
                      highest_from-Highest (suc fuel) (hi - 1) (omega arith) (omega arith)
                        (omega (arith, skip_need hi c inside skip more))))
              | inr out ↦
                  rw (highest_from_stop p taken fuel (prev (ip f hi)) out)
                    (refl, last_skipped hi a inside skip out)
            ])
          ])
  ]
