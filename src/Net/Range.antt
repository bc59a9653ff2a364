-- ===== src/Net/Range.antt =====
-- A valid prefix is an interval of addresses of its family, and begins at its masked address.
use native.Mathlib.Nat.{pow-suc, zero-add, suc-add}
use robi_net.Base.{ℕ, zero, suc, ◌+◌, ◌-◌, ◌*◌, ◌/◌, ◌^◌, ◌≤◌, ◌<◌, ◌≡◌, ◌↔◌, true, arith}
use robi_net.Net.{
  Family, v4, v6, Addr, invalid, ip, Prefix, width, is_prefix, bits, span, masked, contains,
}

pub pow_pos : (n : ℕ) → 0 < 2 ^ n
pow_pos zero = omega arith
pow_pos (suc n) = rw pow-suc (omega (arith, pow_pos n))

pub pow_add : (a b : ℕ) → 2 ^ (a + b) ≡ 2 ^ a * 2 ^ b
pow_add zero b = rw zero-add (omega arith)
pow_add (suc a) b = rw (suc-add, pow-suc, pow-suc, pow_add a b) (omega arith)

pub span_pos : (f : Family) (n : ℕ) → 0 < span f n
unfolding span
span_pos f n = pow_pos (width f - n)

-- The quotient decides membership in the aligned interval.
pub div_eq_iff : (n m d : ℕ) → 0 < d → (n / d ≡ m / d) ↔ ((n / d * d ≤ m) × (m < n / d * d + d))
div_eq_iff n m d h = (λ e. grind arith, λ b. grind arith)

module _ (p : Prefix) (f : Family) (n : ℕ) (at : p.addr ≡ ip f n) (valid : is_prefix p ≡ true) where
  -- The first address, as a number.
  abbrev pub first : ℕ
  first = n / span f (bits p) * span f (bits p)

  pub masked_lem : (masked p).addr ≡ ip f first
  unfolding masked
  masked_lem = ground arith

  pub contains_iff :
      (m : ℕ) → (contains p (ip f m) ≡ true) ↔ ((first ≤ m) × (m < first + span f (bits p)))
  unfolding contains
  contains_iff m = ground (arith, div_eq_iff n m (span f (bits p)) (span_pos f (bits p)))

  pub contains_family : (a : Addr) → contains p a ≡ true → (m : ℕ) × (a ≡ ip f m)
  unfolding contains
  contains_family (ip v4 m) h = (m, ground arith)
  contains_family (ip v6 m) h = (m, ground arith)
  contains_family invalid h = (0, ground arith)
