-- ===== src/Hub/Ipam.antt =====
-- internal/hub/ipam.go: addresses inside an instance, and the walks that find a free one.
-- A walk takes fuel, one more round than the taken addresses can make it skip and one to stop.
pub mod Walk
pub mod Down
pub mod Ends
pub mod Free
pub mod Pool
pub mod Alloc
use robi_net.Base.{
  ℕ, zero, suc, ◌+◌, ◌-◌, ◌/◌, ◌%◌, ◌^◌, Bool, true, false, not, ◌&&◌, ◌||◌, List, [], ◌∷◌, ◌++◌,
  map, Option, none, some, Text, Dict, lookup, insert, values, length, ltb, leb, ◌==◌,
  if◌then◌else◌,
}
use robi_net.Net.{
  Addr, invalid, ip, v6, Prefix, width, same_addr, is_addr, is4, next, prev, is_prefix, bits,
  masked, contains,
}
use robi_net.Result.{Result, ok, err, pool_exhausted, invalid_prefix, out_of_fuel}
use robi_net.Hub.Types.{Kind, connector, Member, Instance}

-- `_, used := taken[addr]`, the set as a list.
unfoldable pub used : Addr → List Addr → Bool
used a [] = false
used a (b ∷ bs) = same_addr a b || used a bs

-- `isBroadcast`
unfoldable pub is_broadcast : Prefix → Addr → Bool
is_broadcast p a =
    if not (is4 a)
    then false
    else if leb 31 (bits p)
    then false
    else not (is_addr (next a)) || not (contains p (next a))

-- The loop of `lowestFree`, from `a` upwards.
unfoldable pub lowest_from : ℕ → Prefix → List Addr → Addr → Result Addr
lowest_from zero p taken a = err out_of_fuel
lowest_from (suc fuel) p taken a =
    let rest = lowest_from fuel p taken (next a) in
    if not (contains p a)
    then err pool_exhausted
    else if not (used a taken) && not (is_broadcast p a)
    then ok a
    else rest

unfoldable pub lowest_free : Prefix → List Addr → Result Addr
lowest_free p taken =
    if not (is_prefix p)
    then err invalid_prefix
    else lowest_from (suc (suc (length taken))) p taken (next (masked p).addr)

-- `raw[byteIndex] |= 1 << (i % 8)`: bit `i` of the value, counted from its end.
set_bit : ℕ → ℕ → ℕ
set_bit i n = if n / 2 ^ i % 2 == 0 then n + 2 ^ i else n

-- The loop of `lastAddr`, for the bits from `i` on.
unfoldable pub set_bits : ℕ → ℕ → ℕ → ℕ
unfolding set_bit
set_bits zero i n = n
set_bits (suc k) i n = set_bits k (i + 1) (set_bit i n)

-- `lastAddr`, of a prefix that is valid. Of one that is not the source answers ::1, as here.
last_of : Addr → ℕ → Addr
last_of invalid n = ip v6 1
last_of (ip f m) n = ip f (set_bits (width f - n) 0 m)

unfoldable pub last_addr : Prefix → Addr
unfolding last_of
last_addr p = last_of (masked p).addr (bits p)

-- The loop of `highestFree`, from `a` downwards.
unfoldable pub highest_from : ℕ → Prefix → List Addr → Addr → Result Addr
highest_from zero p taken a = err out_of_fuel
highest_from (suc fuel) p taken a =
    let rest = highest_from fuel p taken (prev a) in
    if not (contains p a)
    then err pool_exhausted
    else if not (used a taken) && not (is_broadcast p a) && not (same_addr a (masked p).addr)
    then ok a
    else rest

unfoldable pub highest_free : Prefix → List Addr → Result Addr
highest_free p taken =
    if not (is_prefix p)
    then err invalid_prefix
    else if not (is_addr (last_addr p))
    then err invalid_prefix
    else highest_from (suc (suc (suc (length taken)))) p taken (last_addr p)

-- The addresses among `reserved` that are one.
abbrev pub valid_addrs : List Addr → List Addr
valid_addrs [] = []
valid_addrs (a ∷ as') = if is_addr a then a ∷ valid_addrs as' else valid_addrs as'

-- `fromPool`
unfoldable pub from_pool : Prefix → Dict Addr → Text → Kind → List Addr → Result Addr
from_pool p held fingerprint kind reserved =
    let taken = values held ++ valid_addrs reserved in
    elim (lookup fingerprint held) [
      | some a ↦ ok a
      | none ↦ elim kind [ connector ↦ highest_free p taken | _ ↦ lowest_free p taken ]
    ]

-- `memberAddresses`, for one family or the other.
unfoldable pub member_addresses : Bool → List Member → List Addr
member_addresses six [] = []
member_addresses six (m ∷ ms) =
    (if six then m.address6.addr else m.address.addr) ∷ member_addresses six ms

-- What `allocate` and `allocate6` pass to the pool as reserved.
abbrev pub reserved4 : Instance → List Addr
reserved4 inst =
    member_addresses false (values inst.members)
    ++ inst.lighthouse_address ∷ inst.tenant_address ∷ []

abbrev pub reserved6 : Instance → List Addr
reserved6 inst =
    member_addresses true (values inst.members)
    ++ inst.lighthouse_address6 ∷ inst.tenant_address6 ∷ []

-- `inst.Allocations[fingerprint] = addr`, unless the pool had none.
abbrev pub keep4 : Instance → Text → Result Addr → Result Addr × Instance
keep4 inst fp (ok a) = (ok a, record inst { allocations = insert fp a inst.allocations })
keep4 inst fp (err e) = (err e, inst)

abbrev pub keep6 : Instance → Text → Result Addr → Result Addr × Instance
keep6 inst fp (ok a) = (ok a, record inst { allocations6 = insert fp a inst.allocations6 })
keep6 inst fp (err e) = (err e, inst)

-- `allocate`, with the instance it leaves.
unfoldable pub allocate : Instance → Text → Kind → Result Addr × Instance
allocate inst fingerprint kind =
    keep4 inst fingerprint
      (from_pool inst.overlay inst.allocations fingerprint kind (reserved4 inst))

-- `allocate6`: no address and no error where the instance has no IPv6 prefix.
unfoldable pub allocate6 : Instance → Text → Kind → Result Addr × Instance
allocate6 inst fingerprint kind =
    if not (is_prefix inst.overlay6)
    then (ok invalid, inst)
    else keep6 inst fingerprint
        (from_pool inst.overlay6 inst.allocations6 fingerprint kind (reserved6 inst))
