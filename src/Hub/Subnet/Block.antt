-- ===== src/Hub/Subnet/Block.antt =====
-- The blocks of one size in a family, and `nextSubnet` from one to the next.
use native.Mathlib.Nat.{mul-div_cancel, div-eq_of_lt-le}
use robi_net.Base.{
  ℕ, suc, ◌+◌, ◌*◌, ◌/◌, ◌≤◌, ◌<◌, ◌≡◌, ◌≢◌, true, false, some, arith, Bool-cases, inl, inr,
}
use robi_net.Net.{
  Family, v4, v6, Addr, ip, Prefix, width, capacity, is_prefix, bits, prefix_from, span, contains,
}
use robi_net.Net.Range.{first, span_pos, contains_iff, contains_family}
use robi_net.Hub.Subnet.{next_subnet}
use robi_net.Hub.Subnet.Step.{next_subnet_in, next_subnet_out}

module _ (f : Family) (size : ℕ) where
  -- The block of number `i` among those of a size: the prefix that begins at `i` times the size.
  unfoldable pub block : ℕ → Prefix
  block i = prefix_from (ip f (i * span f size)) size

  module _ (fits : size ≤ width f) where
    pub block_lem :
        (i : ℕ) → block i ≡ record { addr = ip f (i * span f size); bits_plus_one = size + 1 }
    unfolding block prefix_from
    block_lem i = ground arith

    pub block-addr : (i : ℕ) → (block i).addr ≡ ip f (i * span f size)
    block-addr i = rw block_lem

    block-is_prefix : (i : ℕ) → is_prefix (block i) ≡ true
    block-is_prefix i = rw block_lem (ground arith)

    block-bits : (i : ℕ) → bits (block i) ≡ size
    block-bits i = rw block_lem (omega arith)

    block-first :
        (i : ℕ)
        → first (block i) f (i * span f size) (block-addr i) (block-is_prefix i) ≡ i * span f size
    block-first i = rw (block-bits i) (rw (mul-div_cancel i (span_pos f size)))

    pub next_block :
        (i : ℕ)
        → suc i * span f size < capacity f
        → next_subnet (block i) size ≡ some (block (suc i))
    unfolding block
    next_block i h =
        let here = block-first i in
        let sum : i * span f size + span f size ≡ suc i * span f size = omega arith in
        let step = next_subnet_in f (block i) _ size (block-addr i) (block-is_prefix i) fits in
        rw (here, sum) at step h

    pub next_block_out :
        (i : ℕ) (q : Prefix)
        → i * span f size < capacity f
        → capacity f ≤ suc i * span f size
        → next_subnet (block i) size ≡ some q
        → (f ≡ v4) × ((m : ℕ) × (q.addr ≡ ip v6 m))
    next_block_out i q small h e =
        next_subnet_out f (block i) _ size (block-addr i) (block-is_prefix i) q fits
          (rw (block-first i) small) (rw (block-first i) (omega arith)) e

    -- The addresses of a block are those whose quotient by the size is its number.
    pub contains-block : (i m : ℕ) → contains (block i) (ip f m) ≡ true → m / span f size ≡ i
    contains-block i m c =
        let both =
          rw (block-first i, block-bits i) at
            ((contains_iff (block i) f (i * span f size) (block-addr i) (block-is_prefix i) m).0
              c) in
        div-eq_of_lt-le (span f size) both.0 (omega arith)

    -- Different blocks of one size share no address.
    pub block_disjoint :
        (i j : ℕ) → i ≢ j → (a : Addr) → contains (block i) a ≡ true → contains (block j) a ≡ false
    block_disjoint i j ne a c = elim (Bool-cases (contains (block j) a)) [
      | inr out ↦ out
      | inl d ↦
          let (m, e) =
            contains_family (block i) f (i * span f size) (block-addr i) (block-is_prefix i) a c in
          let at_i = contains-block i m (rw e at c) in
          let at_j = contains-block j m (rw e at d) in absurd (ne (omega arith))
    ]
