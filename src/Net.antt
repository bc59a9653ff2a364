-- ===== src/Net.antt =====
-- The parts of Go's net/netip that the hub computes with. An address is its family and its value;
-- `invalid` is the zero `netip.Addr`. Zones do not occur: the program only parses and steps addresses.
pub mod Range
use robi_net.Base.{
  ℕ, zero, suc, ◌+◌, ◌-◌, ◌*◌, ◌/◌, ◌^◌, ◌<◌, ◌≡◌, ◌↔◌, Bool, true, false, not, ◌&&◌, ◌||◌, arith,
  ltb, leb, ◌==◌, if◌then◌else◌,
}

pub data Family : Type 0 where
  v4 v6 : Family

pub data Addr : Type 0 where
  invalid : Addr
  ip : Family → ℕ → Addr

-- `netip.Prefix` as it is stored: `bits_plus_one` is 0 in a prefix that is not valid.
pub record Prefix : Type 0 where
  pub addr : Addr
  pub bits_plus_one : ℕ

abbrev pub no_prefix : Prefix
no_prefix = record { addr = invalid; bits_plus_one = 0 }

abbrev pub width : Family → ℕ
width v4 = 32
width v6 = 128

-- How many addresses a family has.
unfoldable pub capacity : Family → ℕ
capacity f = 2 ^ width f

abbrev pub same_family : Family → Family → Bool
same_family v4 v4 = true
same_family v6 v6 = true
same_family _ _ = false

-- `==` on addresses.
unfoldable pub same_addr : Addr → Addr → Bool
same_addr invalid invalid = true
same_addr (ip f n) (ip g m) = same_family f g && n == m
same_addr _ _ = false

pub same_addr_iff : (a b : Addr) → (same_addr a b ≡ true) ↔ (a ≡ b)
unfolding same_addr
same_addr_iff (ip v4 n) (ip v4 m) = ground arith
same_addr_iff (ip v6 n) (ip v6 m) = ground arith
same_addr_iff _ _ = ground arith

-- `==` on prefixes.
unfoldable pub same_prefix : Prefix → Prefix → Bool
same_prefix p q = same_addr p.addr q.addr && p.bits_plus_one == q.bits_plus_one

pub same_prefix_iff : (p q : Prefix) → (same_prefix p q ≡ true) ↔ (p ≡ q)
unfolding same_prefix
same_prefix_iff p q = ground (arith, same_addr_iff p.addr q.addr)

abbrev pub is_addr : Addr → Bool
is_addr invalid = false
is_addr (ip _ _) = true

abbrev pub is4 : Addr → Bool
is4 (ip v4 n) = true
is4 _ = false

-- `Addr.BitLen`
abbrev pub bit_len : Addr → ℕ
bit_len invalid = 0
bit_len (ip f n) = width f

-- `Addr.Next`: the zero address after the last one of the family.
unfoldable pub next : Addr → Addr
next invalid = invalid
next (ip f n) = if n + 1 == capacity f then invalid else ip f (n + 1)

-- `Addr.Prev`: the zero address before the first one.
unfoldable pub prev : Addr → Addr
prev invalid = invalid
prev (ip f n) = if n == 0 then invalid else ip f (n - 1)

-- `Prefix.IsValid`
abbrev pub is_prefix : Prefix → Bool
is_prefix p = ltb 0 p.bits_plus_one

-- `Prefix.Bits` of a valid prefix.
abbrev pub bits : Prefix → ℕ
bits p = p.bits_plus_one - 1

-- `netip.PrefixFrom`
unfoldable pub prefix_from : Addr → ℕ → Prefix
prefix_from a n =
    if is_addr a && leb n (bit_len a)
    then record { addr = a; bits_plus_one = n + 1 }
    else record { addr = a; bits_plus_one = 0 }

-- How many addresses share the first `n` bits.
unfoldable pub span : Family → ℕ → ℕ
span f n = 2 ^ (width f - n)

mask_addr : Addr → ℕ → Addr
mask_addr invalid n = invalid
mask_addr (ip f m) n = ip f (m / span f n * span f n)

-- `Prefix.Masked`
unfoldable pub masked : Prefix → Prefix
unfolding mask_addr
masked p = if is_prefix p then record p { addr = mask_addr p.addr (bits p) } else no_prefix

-- Whether an address agrees with another in its first bits.
unfoldable pub within : Addr → Addr → ℕ → Bool
within (ip f n) (ip g m) b = same_family f g && n / span f b == m / span f b
within _ _ b = false

-- `Prefix.Contains`
unfoldable pub contains : Prefix → Addr → Bool
unfolding within
contains p a = is_prefix p && within p.addr a (bits p)

-- `Prefix.Overlaps`: the shorter of the two prefixes decides.
unfoldable pub overlaps : Prefix → Prefix → Bool
unfolding within same_prefix
overlaps p q =
    let shorter = if ltb (bits p) (bits q) then bits p else bits q in
    if not (is_prefix p) || not (is_prefix q) then false else within p.addr q.addr shorter
