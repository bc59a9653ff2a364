-- ===== src/Hub/Ipam/Free.antt =====
-- `lowestFree` and `highestFree` against the interval of addresses that a prefix is.
use robi_net.Base.{
  ℕ, suc, ◌+◌, ◌-◌, ◌≤◌, ◌<◌, ◌≡◌, ◌≢◌, ◌↔◌, refl, true, false, List, length, In, Bool-cases, arith,
  inl, inr,
}
use robi_net.Net.{
  Family, v4, Addr, ip, Prefix, same_addr_iff, capacity, next, is_prefix, bits, span, masked,
  contains,
}
use robi_net.Net.Range.{span_pos, first, masked_lem, contains_iff}
use robi_net.Result.{Result, ok, err, pool_exhausted}
use robi_net.Hub.Ipam.{is_broadcast, lowest_free, highest_free}
use robi_net.Hub.Ipam.Walk.{
  usable, Lowest, lowest_from-Lowest, lowest_from_stop, next_lem, count_from-le-length,
  contains-is_addr,
}
use robi_net.Hub.Ipam.Down.{usable_down, Highest, highest_from-Highest, count_to-le-length}
use robi_net.Hub.Ipam.Ends.{used_iff, last_addr_lem, first-span-le}

module _ (p : Prefix) (f : Family) (n : ℕ) (at : p.addr ≡ ip f n) (valid : is_prefix p ≡ true) where
  -- Address `m` of the prefix may be handed out: it is behind the network address, nobody holds
  -- it, and it is not the last one of an IPv4 prefix of fewer than 31 bits.
  pub record IsFree (taken : List Addr) (m : ℕ) : Type 0 where
    pub above : first p f n at valid < m
    pub below : m < first p f n at valid + span f (bits p)
    pub not_taken : ¬ In (ip f m) taken
    pub not_last : f ≡ v4 → bits p < 31 → m + 1 ≢ first p f n at valid + span f (bits p)

  -- The lowest free address, or that there is none.
  abbrev pub IsLowest : List Addr → Result Addr → Type 0
  IsLowest taken (ok x) =
      (m : ℕ) × (x ≡ ip f m) × IsFree taken m × ((j : ℕ) → j < m → ¬ IsFree taken j)
  IsLowest taken (err e) = (e ≡ pool_exhausted) × ((j : ℕ) → ¬ IsFree taken j)

  abbrev pub IsHighest : List Addr → Result Addr → Type 0
  IsHighest taken (ok x) =
      (m : ℕ) × (x ≡ ip f m) × IsFree taken m × ((j : ℕ) → m < j → ¬ IsFree taken j)
  IsHighest taken (err e) = (e ≡ pool_exhausted) × ((j : ℕ) → ¬ IsFree taken j)

  module _ (fits : n < capacity f) where
    -- The broadcast test, on an address of the prefix.
    broadcast_iff :
        (m : ℕ)
        → contains p (ip f m) ≡ true
        → (is_broadcast p (ip f m) ≡ true)
          ↔ ((f ≡ v4) × (bits p < 31) × (m + 1 ≡ first p f n at valid + span f (bits p)))
    unfolding is_broadcast next
    broadcast_iff m inside = ground (
      arith,
      contains_iff p f n at valid m,
      contains_iff p f n at valid (m + 1),
      contains-is_addr p (next (ip f m)),
      first-span-le p f n at valid fits,
    )

    usable-IsFree :
        (taken : List Addr) (m : ℕ)
        → contains p (ip f m) ≡ true
        → first p f n at valid < m
        → usable p taken (ip f m) ≡ true
        → IsFree taken m
    unfolding usable
    usable-IsFree taken m inside above h = record {
      above = above;
      below = ground (arith, contains_iff p f n at valid m);
      not_taken = ground (arith, used_iff (ip f m) taken);
      not_last = λ a b c. ground (arith, broadcast_iff m inside);
    }

    IsFree-usable :
        (taken : List Addr) (m : ℕ)
        → IsFree taken m
        → (contains p (ip f m) ≡ true) × (usable p taken (ip f m) ≡ true)
    unfolding usable
    IsFree-usable taken m h =
        let inside : contains p (ip f m) ≡ true = ground (arith, contains_iff p f n at valid m) in
        (inside, ground (arith, used_iff (ip f m) taken, broadcast_iff m inside))

    -- What the walk found, in terms of the interval.
    Lowest-IsLowest :
        (taken : List Addr) (r : Result Addr)
        → Lowest p taken f (first p f n at valid + 1) r
        → IsLowest taken r
    Lowest-IsLowest taken (ok x) (m, e, le, c, u, lower) =
        (m, e, usable-IsFree taken m (rw e at c) (omega arith) (rw e at u), λ j b h. pass j b h)
      where
        pass : (j : ℕ) → j < m → ¬ IsFree taken j
        pass j b h =
            let (_, free) = IsFree-usable taken j h in cc (lower j (omega (arith, h.above)) b)
    Lowest-IsLowest taken (err e) (is, none_left) = (is, λ j h. pass j h)
      where
        pass : (j : ℕ) → ¬ IsFree taken j
        pass j h =
            let (inside, free) = IsFree-usable taken j h in
            let limit = first-span-le p f n at valid fits in
            cc (none_left j (omega (arith, h.above)) (omega (arith, h.below)) inside)

    nothing_behind :
        contains p (next (ip f (first p f n at valid))) ≡ false
        → (taken : List Addr) (j : ℕ) → ¬ IsFree taken j
    unfolding next
    nothing_behind out taken j h = ground (
      arith,
      contains_iff p f n at valid (first p f n at valid + 1),
      first-span-le p f n at valid fits,
      h.above,
      h.below,
    )

    -- `lowestFree`, on a valid prefix whose address is one of its family, answers the lowest
    -- address that may be handed out, and says that the pool is exhausted exactly when there is
    -- none; the fuel given to its loop is enough.
    pub lowest_free-IsLowest : (taken : List Addr) → IsLowest taken (lowest_free p taken)
    unfolding lowest_free
    lowest_free-IsLowest taken =
        rw (valid, masked_lem p f n at valid)
          (elim (Bool-cases (contains p (next (ip f (first p f n at valid))))) [
            | inl more ↦ rw (next_lem p f (first p f n at valid) more) (
                Lowest-IsLowest taken _ (
                  lowest_from-Lowest p f n at valid taken (suc (suc (length taken)))
                    (first p f n at valid + 1) (omega arith)
                    (omega (arith, count_from-le-length f (first p f n at valid + 1) taken))))
            | inr out ↦
                rw (lowest_from_stop p taken (suc (length taken)) _ out)
                  (refl, nothing_behind out taken)
          ])

    usable_down-IsFree :
        (taken : List Addr) (m : ℕ)
        → contains p (ip f m) ≡ true
        → usable_down p taken (ip f m) ≡ true
        → IsFree taken m
    unfolding usable_down
    usable_down-IsFree taken m inside h = ground (
      arith,
      usable-IsFree taken m inside,
      masked_lem p f n at valid,
      same_addr_iff (ip f m) (masked p).addr,
      contains_iff p f n at valid m,
    )

    IsFree-usable_down :
        (taken : List Addr) (m : ℕ)
        → IsFree taken m
        → (contains p (ip f m) ≡ true) × (usable_down p taken (ip f m) ≡ true)
    unfolding usable_down
    IsFree-usable_down taken m h = ground (
      arith,
      IsFree-usable taken m h,
      h.above,
      masked_lem p f n at valid,
      same_addr_iff (ip f m) (masked p).addr,
    )

    Highest-IsHighest :
        (taken : List Addr) (hi : ℕ) (r : Result Addr)
        → first p f n at valid + span f (bits p) ≤ hi + 1
        → Highest p taken f hi r
        → IsHighest taken r
    Highest-IsHighest taken hi (ok x) top (m, e, le, c, u, higher) =
        (m, e, usable_down-IsFree taken m (rw e at c) (rw e at u), λ j b h. pass j b h)
      where
        pass : (j : ℕ) → m < j → ¬ IsFree taken j
        pass j b h =
            let (_, free) = IsFree-usable_down taken j h in cc (higher j b (omega (arith, h.below)))
    Highest-IsHighest taken hi (err e) top (is, none_left) = (is, λ j h. pass j h)
      where
        pass : (j : ℕ) → ¬ IsFree taken j
        pass j h =
            let (inside, free) = IsFree-usable_down taken j h in
            cc (none_left j (omega (arith, h.below)) inside)

    -- `highestFree`, on a valid prefix whose address is one of its family, answers the highest
    -- address that may be handed out, and says that the pool is exhausted exactly when there is
    -- none; the fuel given to its loop is enough.
    pub highest_free-IsHighest : (taken : List Addr) → IsHighest taken (highest_free p taken)
    unfolding highest_free
    highest_free-IsHighest taken =
        let top = first p f n at valid + (span f (bits p) - 1) in
        rw (valid, last_addr_lem p f n at valid)
          (Highest-IsHighest taken top _ (omega (arith, span_pos f (bits p))) (
            highest_from-Highest p f n at valid taken (suc (suc (suc (length taken)))) top
              (omega (arith, span_pos f (bits p), first-span-le p f n at valid fits))
              (omega (arith, span_pos f (bits p)))
              (ground (arith, count_to-le-length f top taken))))
