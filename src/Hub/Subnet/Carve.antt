-- ===== src/Hub/Subnet/Carve.antt =====
-- `allocateOverlay` inside one pool: the walk over the blocks of the pool.
use native.Mathlib.Decide.{ℕ_discrete, dec_lt}
use native.Mathlib.Nat.{mul-le-mul_right}
use robi_net.Base.{
  ℕ, zero, suc, ◌+◌, ◌*◌, ◌≤◌, ◌<◌, ◌≡◌, refl, ◌∙◌, true, false, none, some, arith, List, [], ◌∷◌,
  length, leb, if◌then◌else◌, Bool-cases, Option-cases, inl, inr,
}
use robi_net.Net.{
  Family, v4, v6, invalid, ip, Prefix, width, capacity, same_prefix_iff, is_prefix, span, contains,
}
use robi_net.Net.Range.{first, span_pos, contains_iff, contains_family}
use robi_net.Result.{Result, ok, err, pools_full}
use robi_net.Hub.Ipam.Ends.{first-span-le}
use robi_net.Hub.Subnet.{Pool, used_prefix, carve, next_subnet}
use robi_net.Hub.Subnet.Block.{block, block-addr, next_block, next_block_out}

-- How many of the taken prefixes of the family begin at or above `n`.
pub count_above : Family → ℕ → List Prefix → ℕ
count_above f n [] = 0
count_above f n (q ∷ qs) =
    elim q.addr [ invalid ↦ 0 | ip g m ↦ if leb n m then 1 else 0 ] + count_above f n qs

pub count_above-le-length : (f : Family) (n : ℕ) (qs : List Prefix) → count_above f n qs ≤ length qs
unfolding count_above
count_above-le-length f n [] = omega arith
count_above-le-length f n (q ∷ qs) = ground (arith, count_above-le-length f n qs)

count_above_mono :
    (f : Family) (n m : ℕ) (qs : List Prefix) → n ≤ m → count_above f m qs ≤ count_above f n qs
unfolding count_above
count_above_mono f n m [] h = omega arith
count_above_mono f n m (q ∷ qs) h = ground (arith, count_above_mono f n m qs h)

count_above_used :
    (f : Family) (n m : ℕ) (p : Prefix) (qs : List Prefix)
    → p.addr ≡ ip f n
    → n < m
    → used_prefix p qs ≡ true
    → count_above f m qs < count_above f n qs
unfolding count_above used_prefix
count_above_used f n m p [] at h u = cc
count_above_used f n m p (q ∷ qs) at h u =
    ground (arith, same_prefix_iff p q, count_above_used f n m p qs at h, count_above_mono f n m qs)

module _ (pool : Pool) (taken : List Prefix) where
  carve_stop :
      (fuel : ℕ) (c : Prefix)
      → contains pool.prefix c.addr ≡ false
      → carve (suc fuel) pool taken c ≡ err pools_full
  unfolding carve
  carve_stop fuel c h = ground arith

  carve_free :
      (fuel : ℕ) (c : Prefix)
      → contains pool.prefix c.addr ≡ true
      → used_prefix c taken ≡ false
      → carve (suc fuel) pool taken c ≡ ok c
  unfolding carve
  carve_free fuel c h u = ground arith

  carve_next :
      (fuel : ℕ) (c q : Prefix)
      → contains pool.prefix c.addr ≡ true
      → used_prefix c taken ≡ true
      → next_subnet c pool.size ≡ some q
      → carve (suc fuel) pool taken c ≡ carve fuel pool taken q
  unfolding carve
  carve_next fuel c q h u e = ground arith

  carve_last :
      (fuel : ℕ) (c : Prefix)
      → contains pool.prefix c.addr ≡ true
      → used_prefix c taken ≡ true
      → next_subnet c pool.size ≡ none
      → carve (suc fuel) pool taken c ≡ err pools_full
  unfolding carve
  carve_last fuel c h u e = ground arith

  -- What a walk over the blocks from number `lo` on answers.
  abbrev pub LowestBlock : Family → ℕ → Result Prefix → Type 0
  LowestBlock f lo (ok q) =
      (k : ℕ) × (q ≡ block f pool.size k)
      × (lo ≤ k)
      × (contains pool.prefix q.addr ≡ true)
      × (used_prefix q taken ≡ false)
      × ((i : ℕ) → lo ≤ i → i < k → used_prefix (block f pool.size i) taken ≡ true)
  LowestBlock f lo (err e) =
      (e ≡ pools_full)
      × ((i : ℕ)
          → lo ≤ i
          → contains pool.prefix (ip f (i * span f pool.size)) ≡ true
          → used_prefix (block f pool.size i) taken ≡ true)

  LowestBlock-step :
      (f : Family) (lo : ℕ) (r : Result Prefix)
      → used_prefix (block f pool.size lo) taken ≡ true
      → LowestBlock f (suc lo) r
      → LowestBlock f lo r
  LowestBlock-step f lo (ok q) u (k, e, le, c, free, below) =
      (k, e, omega arith, c, free, λ i a b. pass i a b)
    where
      pass : (i : ℕ) → lo ≤ i → i < k → used_prefix (block f pool.size i) taken ≡ true
      pass i a b = elim (ℕ_discrete lo i) [
        | yes same ↦ rw (← same) u
        | no other ↦ below i (omega arith) b
      ]
  LowestBlock-step f lo (err e) u (is, all_used) = (is, λ i a c. pass i a c)
    where
      pass :
          (i : ℕ)
          → lo ≤ i
          → contains pool.prefix (ip f (i * span f pool.size)) ≡ true
          → used_prefix (block f pool.size i) taken ≡ true
      pass i a c = elim (ℕ_discrete lo i) [
        | yes same ↦ rw (← same) u
        | no other ↦ all_used i (omega arith) c
      ]

module _ (pool : Pool) (f : Family) (n : ℕ) (at : pool.prefix.addr ≡ ip f n)
    (valid : is_prefix pool.prefix ≡ true) (taken : List Prefix) (fits : pool.size ≤ width f)
    (inside : n < capacity f) where
  abbrev base : ℕ
  base = first pool.prefix f n at valid

  abbrev start : ℕ → ℕ
  start i = i * span f pool.size

  start_mono : (i j : ℕ) → i ≤ j → start i ≤ start j
  start_mono i j h = mul-le-mul_right (span f pool.size) h

  gone_above :
      (lo i : ℕ)
      → base ≤ start lo
      → contains pool.prefix (ip f (start lo)) ≡ false
      → lo ≤ i
      → contains pool.prefix (ip f (start i)) ≡ true
      → ⊥
  gone_above lo i a out le c = ground (
    arith,
    start_mono lo i le,
    contains_iff pool.prefix f n at valid (start lo),
    contains_iff pool.prefix f n at valid (start i),
  )

  in_capacity : (i : ℕ) → contains pool.prefix (ip f (start i)) ≡ true → start i < capacity f
  in_capacity i c = ground (
    arith,
    contains_iff pool.prefix f n at valid (start i),
    first-span-le pool.prefix f n at valid inside,
  )

  -- An IPv6 prefix is in no IPv4 pool.
  other_family :
      (q : Prefix) → (f ≡ v4) × ((m : ℕ) × (q.addr ≡ ip v6 m)) → contains pool.prefix q.addr ≡ false
  other_family q (is, (m, e)) = elim (Bool-cases (contains pool.prefix q.addr)) [
    | inr out ↦ out
    | inl c ↦ let (k, g) = contains_family pool.prefix f n at valid q.addr c in cc
  ]

  -- Where the next block would begin outside of the family, the walk is over.
  last_round :
      (fuel lo : ℕ)
      → contains pool.prefix (block f pool.size lo).addr ≡ true
      → used_prefix (block f pool.size lo) taken ≡ true
      → start lo < capacity f
      → capacity f ≤ start (suc lo)
      → carve (suc (suc fuel)) pool taken (block f pool.size lo) ≡ err pools_full
  last_round fuel lo c u small h =
      elim (Option-cases (next_subnet (block f pool.size lo) pool.size)) [
        | inl over ↦ carve_last pool taken (suc fuel) _ c u over
        | inr (q, e) ↦
            carve_next pool taken (suc fuel) _ q c u e
            ∙ carve_stop pool taken fuel q
                (other_family q (next_block_out f pool.size fits lo q small h e))
      ]

  pub carve-LowestBlock :
      (fuel lo : ℕ)
      → base ≤ start lo
      → count_above f (start lo) taken + 2 ≤ fuel
      → LowestBlock pool taken f lo (carve fuel pool taken (block f pool.size lo))
  carve-LowestBlock zero lo a h = absurd (omega arith)
  carve-LowestBlock (suc zero) lo a h = absurd (omega arith)
  carve-LowestBlock (suc (suc fuel)) lo a h =
      let at_lo = block-addr f pool.size fits lo in
      let here = block f pool.size lo in
      let behind = block f pool.size (suc lo) in
      elim (Bool-cases (contains pool.prefix (block f pool.size lo).addr)) [
        | inr out ↦
            rw (carve_stop pool taken (suc fuel) here out)
              (refl, λ i le c. absurd (gone_above lo i a (rw at_lo at out) le c))
        | inl c ↦ elim (Bool-cases (used_prefix (block f pool.size lo) taken)) [
          | inr free ↦
              rw (carve_free pool taken (suc fuel) here c free)
                (lo, refl, omega arith, c, free, λ i x y. absurd (omega arith))
          | inl u ↦ elim (dec_lt (start (suc lo)) (capacity f)) [
            | yes more ↦
                rw
                  (carve_next pool taken (suc fuel) here behind c u
                    (next_block f pool.size fits lo more))
                  (LowestBlock-step pool taken f lo _ u (
                    carve-LowestBlock (suc fuel) (suc lo) (omega (arith, span_pos f pool.size)) (
                      omega (
                        arith,
                        span_pos f pool.size,
                        count_above_used f (start lo) (start (suc lo)) here taken at_lo
                            (omega (arith, span_pos f pool.size)) u,
                      ))))
            | no end ↦ rw (last_round fuel lo c u (in_capacity lo (rw at_lo at c)) (omega arith)) (
                LowestBlock-step pool taken f lo (err pools_full) u (
                  refl,
                  λ i le d. absurd (omega (arith, in_capacity i d, start_mono (suc lo) i le)),
                ))
          ]
        ]
      ]
