-- ===== src/Hub/Subnet/Step.antt =====
-- `nextSubnet` of internal/hub/ipam.go, against the block behind.
use native.Mathlib.Nat.{pow-le-pow_right}
use robi_net.Base.{
  ℕ, ◌+◌, ◌-◌, ◌*◌, ◌^◌, ◌≤◌, ◌<◌, ◌≡◌, refl, true, none, some, arith, ltb, if◌then◌else◌,
}
use robi_net.Net.{Family, v4, v6, ip, Prefix, width, capacity, is_prefix, prefix_from, span}
use robi_net.Net.Range.{first, masked_lem}
use robi_net.Hub.Subnet.{as16, from_bytes, next_subnet}
use robi_net.Hub.Subnet.Carry.{add_at_16}

pow_le_32 : (s : ℕ) → s ≤ 32 → 2 ^ s ≤ 2 ^ 32
pow_le_32 s h = pow-le-pow_right {n = 2} (omega arith) h

module _ (p : Prefix) (n : ℕ) (valid : is_prefix p ≡ true) (size : ℕ) where
  step_v4 :
      (at : p.addr ≡ ip v4 n)
      → size ≤ 32
      → first p v4 n at valid < 2 ^ 32
      → next_subnet p size
        ≡ some (
            if ltb (first p v4 n at valid + 2 ^ (32 - size)) (2 ^ 32)
            then prefix_from (ip v4 (first p v4 n at valid + 2 ^ (32 - size))) size
            else prefix_from
                (ip v6 (65535 * 2 ^ 32 + first p v4 n at valid + 2 ^ (32 - size)))
                size)
  unfolding next_subnet as16 from_bytes
  step_v4 at h small =
      let a = first p v4 n at valid in
      let s = 32 - size in
      let sum = add_at_16 s (65535 * 2 ^ 32 + a) (omega arith) (omega arith) in
      let bound = pow_le_32 s (omega arith) in rw (masked_lem p v4 n at valid) (ground arith)

  step_v6 :
      (at : p.addr ≡ ip v6 n)
      → size ≤ 128
      → first p v6 n at valid < 2 ^ 128
      → next_subnet p size ≡ (
          if ltb (first p v6 n at valid + 2 ^ (128 - size)) (2 ^ 128)
          then some (prefix_from (ip v6 (first p v6 n at valid + 2 ^ (128 - size))) size)
          else none)
  unfolding next_subnet as16 from_bytes
  step_v6 at h small =
      let sum = add_at_16 (128 - size) (first p v6 n at valid) (omega arith) small in
      rw (masked_lem p v6 n at valid) (ground arith)

-- Where the size fits the family and the block behind begins inside the family, `nextSubnet`
-- answers the prefix of that size that begins there.
pub next_subnet_in :
    (f : Family) (p : Prefix) (n size : ℕ) (at : p.addr ≡ ip f n) (valid : is_prefix p ≡ true)
    → size ≤ width f
    → first p f n at valid + span f size < capacity f
    → next_subnet p size ≡ some (prefix_from (ip f (first p f n at valid + span f size)) size)
unfolding span capacity
next_subnet_in v4 p n size at valid fits h =
    ground (arith, step_v4 p n valid size at fits (omega arith))
next_subnet_in v6 p n size at valid fits h =
    ground (arith, step_v6 p n valid size at fits (omega arith))

-- Where the size fits the family and the block behind begins outside it, `nextSubnet` can answer a
-- prefix only in IPv4, and then an IPv6 one.
pub next_subnet_out :
    (f : Family) (p : Prefix) (n size : ℕ) (at : p.addr ≡ ip f n) (valid : is_prefix p ≡ true)
    (q : Prefix)
    → size ≤ width f
    → first p f n at valid < capacity f
    → capacity f ≤ first p f n at valid + span f size
    → next_subnet p size ≡ some q
    → (f ≡ v4) × ((m : ℕ) × (q.addr ≡ ip v6 m))
unfolding span capacity prefix_from
next_subnet_out v4 p n size at valid q fits small h e =
    let m = 65535 * 2 ^ 32 + first p v4 n at valid + 2 ^ (32 - size) in
    (refl, (m, ground (arith, step_v4 p n valid size at fits small)))
next_subnet_out v6 p n size at valid q fits small h e =
    absurd (ground (arith, step_v6 p n valid size at fits small))
