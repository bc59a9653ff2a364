-- ===== src/Hub/Ipam/Ends.antt =====
-- The last address of a prefix, by the loop of `lastAddr`, and the end of the prefix in its family.
use native.Mathlib.Nat.{pow-suc, div-eq_of_lt-le}
use native.Mathlib.Numerals.{add-one}
use robi_net.Base.{
  ℕ, zero, suc, ◌+◌, ◌-◌, ◌*◌, ◌/◌, ◌^◌, ◌≤◌, ◌<◌, ◌≡◌, ◌↔◌, ap, ◌∙◌, true, List, [], ◌∷◌, In,
  arith,
}
use robi_net.Net.{Family, Addr, ip, Prefix, width, same_addr_iff, capacity, is_prefix, bits, span}
use robi_net.Net.Range.{pow_pos, pow_add, first, masked_lem}
use robi_net.Hub.Ipam.{used, set_bit, set_bits, last_addr}

pow_step : (i : ℕ) → 2 ^ (i + 1) ≡ 2 * 2 ^ i
pow_step i = rw (add-one i, pow-suc) (omega arith)

div_low : (a q : ℕ) → 0 < a → (2 * q * a + (a - 1)) / a ≡ 2 * q
div_low a q h = div-eq_of_lt-le a (omega arith) (omega arith)

-- One bit set in a number whose bits below are set and whose bit is not.
set_bit_lem :
    (i q : ℕ) → set_bit i (2 * q * 2 ^ i + (2 ^ i - 1)) ≡ q * 2 ^ (i + 1) + (2 ^ (i + 1) - 1)
unfolding set_bit
set_bit_lem i q = rw (div_low (2 ^ i) q (pow_pos i), pow_step i) (ground (arith, pow_pos i))

-- The loop of `lastAddr` fills the low bits with ones.
set_bits_lem :
    (k i q : ℕ)
    → set_bits k i (q * 2 ^ k * 2 ^ i + (2 ^ i - 1)) ≡ q * 2 ^ k * 2 ^ i + (2 ^ k * 2 ^ i - 1)
unfolding set_bits
set_bits_lem zero i q = omega arith
set_bits_lem (suc k) i q =
    let shift : q * 2 ^ suc k * 2 ^ i ≡ 2 * (q * 2 ^ k) * 2 ^ i = rw pow-suc (omega arith) in
    rw (shift, set_bit_lem i (q * 2 ^ k), set_bits_lem k (i + 1) q, pow_step i)
      (rw pow-suc (omega arith))

blocks_fit : (n d c : ℕ) → 0 < d → n < c * d → n / d * d + d ≤ c * d
blocks_fit n d c z h = grind arith

pub used_iff : (a : Addr) (as' : List Addr) → (used a as' ≡ true) ↔ In a as'
unfolding used
used_iff a [] = ground arith
used_iff a (b ∷ as') = ground (arith, same_addr_iff a b, used_iff a as')

module _ (p : Prefix) (f : Family) (n : ℕ) (at : p.addr ≡ ip f n) (valid : is_prefix p ≡ true) where
  pub last_addr_lem : last_addr p ≡ ip f (first p f n at valid + (span f (bits p) - 1))
  unfolding last_addr span
  last_addr_lem =
      let k = width f - bits p in
      let q = n / 2 ^ k in
      let plain : q * 2 ^ k * 2 ^ 0 + (2 ^ 0 - 1) ≡ q * 2 ^ k = omega arith in
      let filled : set_bits k 0 (q * 2 ^ k) ≡ q * 2 ^ k * 2 ^ 0 + (2 ^ k * 2 ^ 0 - 1) =
        rw plain at (set_bits_lem k 0 q) in
      rw (masked_lem p f n at valid, last_addr) (ap (ip f) (filled ∙ omega (arith, pow_pos k)))

  -- The prefix ends inside its family.
  pub first-span-le : n < capacity f → first p f n at valid + span f (bits p) ≤ capacity f
  unfolding span capacity
  first-span-le h =
      let k = width f - bits p in
      let whole : width f ≡ (width f - k) + k = omega arith in
      let split : 2 ^ width f ≡ 2 ^ (width f - k) * 2 ^ k = ap (λ w. 2 ^ w) whole ∙ pow_add _ k in
      rw split (blocks_fit n (2 ^ k) (2 ^ (width f - k)) (pow_pos k) (rw split at h))
