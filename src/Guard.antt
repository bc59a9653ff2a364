-- ===== src/Guard.antt =====
-- What stands in front of the hub's handlers: the memory of spent nonces (internal/wrak/nonce.go) and
-- the limiter of enrollments per address (internal/hub/api.go). Times are numbers.
pub mod Replay
pub mod Limit
use robi_net.Base.{
  ℕ, suc, ◌+◌, ◌-◌, Bool, true, false, List, [], ◌∷◌, ◌++◌, Option, none, some, Text, Dict, lookup,
  insert, ltb, leb, if◌then◌else◌,
}

-- `MemoryNonces`
pub record Nonces : Type 0 where
  pub seen : Dict ℕ
  pub swept : ℕ

-- `NewMemoryNonces`
abbrev pub no_nonces : Nonces
no_nonces = record { seen = []; swept = 0 }

-- The key of the map.
unfoldable pub nonce_key : Text → Text → Text
nonce_key identity nonce = identity ++ (0 ∷ nonce)

-- The loop that drops what has expired.
unfoldable pub sweep : ℕ → Dict ℕ → Dict ℕ
sweep now [] = []
sweep now ((k, expiry) ∷ m) =
    let rest = sweep now m in if ltb expiry now then rest else (k, expiry) ∷ rest

-- `Use`, up to the look at the map.
unfoldable pub tidy : ℕ → ℕ → Nonces → Nonces
unfolding sweep
tidy now ttl st =
    if ltb ttl (now - st.swept) then record { seen = sweep now st.seen; swept = now } else st

-- Records the nonce.
unfoldable pub spend : Text → ℕ → Nonces → Bool × Nonces
spend key expiry st = (true, record st { seen = insert key expiry st.seen })

-- `Use`, at a time
unfoldable pub use_nonce : ℕ → Text → Text → ℕ → Nonces → Bool × Nonces
unfolding nonce_key tidy spend
use_nonce now identity nonce ttl st =
    let st' = tidy now ttl st in
    elim (lookup (nonce_key identity nonce) st'.seen) [
      | none ↦ spend (nonce_key identity nonce) (now + ttl) st'
      | some expiry ↦
          if ltb now expiry then (false, st') else spend (nonce_key identity nonce) (now + ttl) st'
    ]

-- `bucket`
pub record Bucket : Type 0 where
  pub count : ℕ
  pub reset : ℕ

-- `rateLimiter`
pub record Limiter : Type 0 where
  pub window : ℕ
  pub limit : ℕ
  pub buckets : Dict Bucket

-- `newRateLimiter`
abbrev pub new_limiter : ℕ → ℕ → Limiter
new_limiter limit window = record { window = window; limit = limit; buckets = [] }

abbrev pub open_bucket : ℕ → Text → Limiter → Bool × Limiter
open_bucket now key rl = (
  true,
  record rl { buckets = insert key (record { count = 1; reset = now + rl.window }) rl.buckets },
)

abbrev pub count_up : Text → Bucket → Limiter → Bool × Limiter
count_up key b rl = (
  leb (b.count + 1) rl.limit,
  record rl { buckets = insert key (record b { count = b.count + 1 }) rl.buckets },
)

-- `allow`, at a time
unfoldable pub allow : ℕ → Text → Limiter → Bool × Limiter
allow now key rl = elim (lookup key rl.buckets) [
  | none ↦ open_bucket now key rl
  | some b ↦ if ltb b.reset now then open_bucket now key rl else count_up key b rl
]
