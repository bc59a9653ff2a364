-- ===== src/Hub/Subnet/Overlay.antt =====
-- `allocateOverlay` over all the pools.
use native.Mathlib.Decide.{dec_lt}
use native.Mathlib.Nat.{mul-lt-mul_of_pos_right}
use robi_net.Base.{
  ℕ, suc, ◌+◌, ◌-◌, ◌*◌, ◌/◌, ◌^◌, ◌≤◌, ◌<◌, ◌≡◌, ◌↔◌, ◌⊎◌, refl, true, false, arith, List, [], ◌∷◌,
  length, In, ltb, ◌||◌, inl, inr,
}
use robi_net.Net.{
  Family, ip, Prefix, width, capacity, same_prefix_iff, bit_len, is_prefix, bits, prefix_from, span,
  masked, contains,
}
use robi_net.Net.Range.{pow_add, first, span_pos, masked_lem, contains_iff}
use robi_net.Result.{Result, ok, err, pools_full}
use robi_net.Hub.Subnet.{Pool, used_prefix, carve, or_next, carve_pools, allocate_overlay}
use robi_net.Hub.Subnet.Block.{block, block-addr}
use robi_net.Hub.Subnet.Carve.{LowestBlock, carve-LowestBlock, count_above-le-length}

-- A pool as a configuration gives it: an address space and a size that fits in it.
pub record IsPool (pool : Pool) : Type 0 where
  pub family : Family
  pub number : ℕ
  pub at : pool.prefix.addr ≡ ip family number
  pub valid : is_prefix pool.prefix ≡ true
  pub inside : number < capacity family
  pub covers : bits pool.prefix ≤ pool.size
  pub fits : pool.size ≤ width family

abbrev pub ArePools : List Pool → Type 0
ArePools [] = Unit
ArePools (p ∷ ps) = IsPool p × ArePools ps

module _ (pool : Pool) (v : IsPool pool) where
  -- Block `i` lies in the pool.
  abbrev pub InPool : ℕ → Type 0
  InPool i = contains pool.prefix (ip v.family (i * span v.family pool.size)) ≡ true

  -- `q` is the lowest block of the pool that is not taken.
  abbrev pub IsLowestBlock : List Prefix → Prefix → Type 0
  IsLowestBlock taken q =
      (k : ℕ) × (q ≡ block v.family pool.size k)
      × InPool k
      × (¬ In q taken)
      × ((i : ℕ) → i < k → InPool i → In (block v.family pool.size i) taken)

  -- Every block of the pool is taken.
  abbrev pub IsFull : List Prefix → Type 0
  IsFull taken = (i : ℕ) → InPool i → In (block v.family pool.size i) taken

used_prefix_iff : (p : Prefix) (qs : List Prefix) → (used_prefix p qs ≡ true) ↔ In p qs
unfolding used_prefix
used_prefix_iff p [] = ground arith
used_prefix_iff p (q ∷ qs) = ground (arith, same_prefix_iff p q, used_prefix_iff p qs)

module _ (pool : Pool) (v : IsPool pool) (taken : List Prefix) where
  open v use {family, number, at, valid, inside, covers, fits}

  abbrev start : ℕ
  start = number / span family (bits pool.prefix) * 2 ^ (pool.size - bits pool.prefix)

  -- The pool begins at one of its blocks.
  start_lem : start * span family pool.size ≡ first pool.prefix family number at valid
  unfolding span
  start_lem =
      let extra = pool.size - bits pool.prefix in
      let whole : width family - bits pool.prefix ≡ extra + (width family - pool.size) =
        omega arith in
      rw (whole, pow_add) (omega arith)

  start-block : prefix_from (masked pool.prefix).addr pool.size ≡ block family pool.size start
  unfolding block
  start-block = rw (masked_lem pool.prefix family number at valid, start_lem)

  carve_lem : LowestBlock pool taken family start (
      carve (suc (suc (length taken))) pool taken (prefix_from (masked pool.prefix).addr pool.size))
  carve_lem = rw start-block (
      carve-LowestBlock pool family number at valid taken fits inside (suc (suc (length taken)))
        start (rw start_lem (omega arith))
        (omega (arith, count_above-le-length family (start * span family pool.size) taken)))

  below_start : (i : ℕ) → i < start → InPool pool v i → ⊥
  below_start i h c =
      let lower : i * span family pool.size < start * span family pool.size =
        mul-lt-mul_of_pos_right h (span_pos family pool.size) in
      let above =
        (contains_iff pool.prefix family number at valid (i * span family pool.size)).0 c in
      omega (arith, start_lem)

  -- What the inner loop answers: the lowest block left of the pool, or that it is full.
  abbrev Carved : Result Prefix → Type 0
  Carved (ok q) = IsLowestBlock pool v taken q
  Carved (err e) = (e ≡ pools_full) × IsFull pool v taken

  carve-Carved : Carved (
      carve (suc (suc (length taken))) pool taken (prefix_from (masked pool.prefix).addr pool.size))
  carve-Carved = go _ carve_lem
    where
      -- A block of the pool is none below the start.
      passed :
          (i : ℕ)
          → InPool pool v i
          → (start ≤ i → used_prefix (block family pool.size i) taken ≡ true)
          → In (block family pool.size i) taken
      passed i c u = elim (dec_lt i start) [
        | yes lower ↦ absurd (below_start i lower c)
        | no here ↦ (used_prefix_iff _ taken).0 (u (omega arith))
      ]

      go : (r : Result Prefix) → LowestBlock pool taken family start r → Carved r
      go (ok q) (k, e, le, c, free, below) = (
        k,
        e,
        rw (e, block-addr family pool.size fits) at c,
        λ i. cc (free, (used_prefix_iff q taken).1 i),
        λ i h d. passed i d (λ a. below i a h),
      )
      go (err e) (is, all_used) = (is, λ i d. passed i d (λ a. all_used i a d))

-- The overlay comes from the first pool that is not full.
abbrev pub IsFrom : (pools : List Pool) → ArePools pools → List Prefix → Prefix → Type 0
IsFrom [] v taken q = ⊥
IsFrom (p ∷ ps) v taken q =
    IsLowestBlock p v.0 taken q ⊎ (IsFull p v.0 taken × IsFrom ps v.1 taken q)

abbrev pub AreFull : (pools : List Pool) → ArePools pools → List Prefix → Type 0
AreFull [] v taken = Unit
AreFull (p ∷ ps) v taken = IsFull p v.0 taken × AreFull ps v.1 taken

abbrev pub Allocates : (pools : List Pool) → ArePools pools → List Prefix → Result Prefix → Type 0
Allocates pools v taken (ok q) = IsFrom pools v taken q
Allocates pools v taken (err e) = (e ≡ pools_full) × AreFull pools v taken

size_fits :
    (pool : Pool)
    → IsPool pool
    → (ltb pool.size (bits pool.prefix) || ltb (bit_len pool.prefix.addr) pool.size) ≡ false
size_fits pool v = ground (arith, v.covers, v.fits, v.at)

or_next-Allocates :
    (p : Pool) (ps : List Pool) (v : ArePools (p ∷ ps)) (taken : List Prefix)
    (r rest : Result Prefix)
    → Carved p v.0 taken r
    → Allocates ps v.1 taken rest
    → Allocates (p ∷ ps) v taken (or_next r rest)
or_next-Allocates p ps v taken (ok q) rest h k = inl h
or_next-Allocates p ps v taken (err e) (ok q) (is, full) k = rw is (inr (full, k))
or_next-Allocates p ps v taken (err e) (err e') (is, full) (is', k) = rw is (is', (full, k))

carve_pools-Allocates :
    (pools : List Pool) (v : ArePools pools) (taken : List Prefix)
    → Allocates pools v taken (carve_pools pools taken)
unfolding carve_pools
carve_pools-Allocates [] v taken = (refl, tt)
carve_pools-Allocates (p ∷ ps) v taken = rw (size_fits p v.0) (
    or_next-Allocates p ps v taken _ _ (carve-Carved p v.0 taken)
      (carve_pools-Allocates ps v.1 taken))

-- `allocateOverlay`, on at least one pool and pools whose size fits, answers the lowest block not
-- taken of the first pool that is not full, and says that every pool is full exactly when every
-- block of every pool is taken; the fuel given to its loop is enough.
pub allocate_overlay-Allocates :
    (p : Pool) (ps : List Pool) (v : ArePools (p ∷ ps)) (taken : List Prefix)
    → Allocates (p ∷ ps) v taken (allocate_overlay (p ∷ ps) taken)
unfolding allocate_overlay
allocate_overlay-Allocates p ps v taken = carve_pools-Allocates (p ∷ ps) v taken
