-- ===== src/Hub/Subnet.antt =====
-- internal/hub/ipam.go: `nextSubnet` and `allocateOverlay`. The 16 bytes of an address stand lowest
-- byte first, so that byte `15 - i` of the source is element `i`.
pub mod Carry
pub mod Step
pub mod Block
pub mod Carve
pub mod Overlay
use robi_net.Base.{
  ℕ, zero, suc, ◌+◌, ◌-◌, ◌*◌, ◌/◌, ◌%◌, ◌^◌, Bool, true, false, not, ◌&&◌, ◌||◌, List, [], ◌∷◌,
  Option, none, some, length, ltb, leb, ◌==◌, if◌then◌else◌,
}
use robi_net.Net.{
  Addr, invalid, ip, v4, v6, Prefix, same_prefix, is4, bit_len, bits, prefix_from, masked, contains,
}
use robi_net.Result.{Result, ok, err, no_overlay_pool, size_does_not_fit, pools_full, out_of_fuel}

-- The lowest `k` bytes of a number.
unfoldable pub bytes : ℕ → ℕ → List ℕ
bytes zero n = []
bytes (suc k) n = (n % 256) ∷ bytes k (n / 256)

unfoldable pub value : List ℕ → ℕ
value [] = 0
value (b ∷ bs) = b + 256 * value bs

-- `Addr.As16`
unfoldable pub as16 : Addr → List ℕ
as16 invalid = bytes 16 0
as16 (ip v4 n) = bytes 16 (65535 * 2 ^ 32 + n)
as16 (ip v6 n) = bytes 16 n

-- `AddrFromSlice` of 16 bytes, and `Unmap` where the flag says so.
unmap : ℕ → Addr
unmap n = if n / 2 ^ 32 == 65535 then ip v4 (n % 2 ^ 32) else ip v6 n

unfoldable pub from_bytes : Bool → List ℕ → Addr
unfolding unmap
from_bytes four raw = if four then unmap (value raw) else ip v6 (value raw)

-- The loop of `nextSubnet` over the bytes from the one where the carry goes in: the bytes and the
-- carry it leaves.
unfoldable pub ripple : ℕ → List ℕ → List ℕ × ℕ
ripple c [] = ([], c)
ripple c (b ∷ bs) =
    let sum = b + c in
    let rest = ripple 1 bs in
    if leb sum 255 then ((sum % 256) ∷ bs, 0) else ((sum % 256) ∷ rest.0, rest.1)

unfoldable pub add_at : ℕ → ℕ → List ℕ → List ℕ × ℕ
unfolding ripple
add_at zero c bs = ripple c bs
add_at (suc k) c [] = ([], c)
add_at (suc k) c (b ∷ bs) = (b ∷ (add_at k c bs).0, (add_at k c bs).1)

-- `nextSubnet`
unfoldable pub next_subnet : Prefix → ℕ → Option Prefix
next_subnet p size =
    let addr = (masked p).addr in
    let shift = bit_len addr - size in
    let (raw, carry) = add_at (shift / 8) (2 ^ (shift % 8)) (as16 addr) in
    if ltb (bit_len addr) size
    then none
    else if not (carry == 0)
    then none
    else some (prefix_from (from_bytes (is4 addr) raw) size)

pub record Pool : Type 0 where
  pub prefix : Prefix
  pub size : ℕ

unfoldable pub used_prefix : Prefix → List Prefix → Bool
used_prefix p [] = false
used_prefix p (q ∷ qs) = same_prefix p q || used_prefix p qs

-- The inner loop of `allocateOverlay`; `pools_full` says that this pool has no room left.
unfoldable pub carve : ℕ → Pool → List Prefix → Prefix → Result Prefix
carve zero pool taken candidate = err out_of_fuel
carve (suc fuel) pool taken candidate =
    let rest : Result Prefix = elim (next_subnet candidate pool.size) [
      | none ↦ err pools_full
      | some q ↦ carve fuel pool taken q
    ] in
    if not (contains pool.prefix candidate.addr)
    then err pools_full
    else if not (used_prefix candidate taken)
    then ok candidate
    else rest

-- What one pool answers, or the pools behind it where it is full.
abbrev pub or_next : Result Prefix → Result Prefix → Result Prefix
or_next (ok q) rest = ok q
or_next (err out_of_fuel) rest = err out_of_fuel
or_next (err _) rest = rest

-- The outer loop.
unfoldable pub carve_pools : List Pool → List Prefix → Result Prefix
carve_pools [] taken = err pools_full
carve_pools (pool ∷ pools) taken =
    let start = prefix_from (masked pool.prefix).addr pool.size in
    let rest = carve_pools pools taken in
    if ltb pool.size (bits pool.prefix) || ltb (bit_len pool.prefix.addr) pool.size
    then err size_does_not_fit
    else or_next (carve (suc (suc (length taken))) pool taken start) rest

-- `allocateOverlay`
unfoldable pub allocate_overlay : List Pool → List Prefix → Result Prefix
unfolding carve_pools
allocate_overlay [] taken = err no_overlay_pool
allocate_overlay (pool ∷ pools) taken = carve_pools (pool ∷ pools) taken
