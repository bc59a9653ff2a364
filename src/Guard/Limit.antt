-- ===== src/Guard/Limit.antt =====
-- `allow` of internal/hub/api.go, over a sequence of calls.
use robi_net.Base.{
  ℕ, suc, ◌+◌, ◌-◌, ◌≤◌, ◌≡◌, refl, true, false, List, [], ◌∷◌, none, some, Text, lookup, insert,
  equal, equal_iff, equal_refl, lookup-insert, ltb, leb, if◌then◌else◌, arith, Bool-cases,
  Option-cases, inl, inr,
}
use robi_net.Guard.{Bucket, Limiter, allow}

-- A sequence of calls, each with its time and its key.
-- How many of those with the key `key` are let through, one after the other.
pub let_through : Text → List (ℕ × Text) → Limiter → ℕ
let_through key [] rl = 0
let_through key ((now, k) ∷ cs) rl =
    let (passed, rl') = allow now k rl in
    let rest = let_through key cs rl' in
    if passed then (if equal k key then suc rest else rest) else rest

-- Every call happens in a window that ends at a moment.
abbrev pub AreWithin : ℕ → List (ℕ × Text) → Type 0
AreWithin end [] = Unit
AreWithin end ((now, k) ∷ cs) = (now ≤ end) × AreWithin end cs

-- What a call leaves of the bucket of a key whose window still runs.
allow_own :
    (now : ℕ) (key : Text) (b : Bucket) (rl : Limiter)
    → lookup key rl.buckets ≡ some b
    → now ≤ b.reset
    → ((allow now key rl).0 ≡ leb (b.count + 1) rl.limit)
      × (lookup key (allow now key rl).1.buckets ≡ some (record b { count = b.count + 1 }))
      × ((allow now key rl).1.limit ≡ rl.limit)
unfolding allow
allow_own now key b rl h le =
    let kept = lookup-insert key key (record b { count = b.count + 1 }) rl.buckets in
    let in_time : ltb b.reset now ≡ false = ground arith in
    rw (h, allow, in_time) (refl, rw (kept, equal_refl key) refl, refl)

allow_other :
    (now : ℕ) (k key : Text) (b : Bucket) (rl : Limiter)
    → lookup key rl.buckets ≡ some b
    → equal k key ≡ false
    → (lookup key (allow now k rl).1.buckets ≡ some b) × ((allow now k rl).1.limit ≡ rl.limit)
unfolding allow
allow_other now k key b rl h ne = elim (Option-cases (lookup k rl.buckets)) [
  | inl e ↦ rw (e, allow) (other (record { count = 1; reset = now + rl.window }), refl)
  | inr (c, e) ↦ elim (Bool-cases (ltb c.reset now)) [
    | inl g ↦ rw (e, allow, g) (other (record { count = 1; reset = now + rl.window }), refl)
    | inr g ↦ rw (e, allow, g) (other (record c { count = c.count + 1 }), refl)
  ]
]
  where
    other : (c : Bucket) → lookup key (insert k c rl.buckets) ≡ some b
    other c = rw (lookup-insert k key c rl.buckets, ne) h

within_window :
    (key : Text) (cs : List (ℕ × Text)) (b : Bucket) (rl : Limiter)
    → lookup key rl.buckets ≡ some b
    → AreWithin b.reset cs
    → let_through key cs rl ≤ rl.limit - b.count
unfolding let_through
within_window key [] b rl h w = omega arith
within_window key ((now, k) ∷ cs) b rl h (le, w) = elim (Bool-cases (equal k key)) [
  | inr ne ↦
      let (kept, same) = allow_other now k key b rl h ne in
      let rest = within_window key cs b (allow now k rl).1 kept w in ground (arith, ne, rest, same)
  | inl e ↦
      let (passed, kept, same) = own e in
      let rest =
        within_window key cs (record b { count = b.count + 1 }) (allow now k rl).1 kept w in
      ground (arith, e, passed, rest, same)
]
  where
    own :
        equal k key ≡ true
        → ((allow now k rl).0 ≡ leb (b.count + 1) rl.limit)
          × (lookup key (allow now k rl).1.buckets ≡ some (record b { count = b.count + 1 }))
          × ((allow now k rl).1.limit ≡ rl.limit)
    own e = rw ((equal_iff k key).0 e) (allow_own now key b rl h le)

-- Of an address that has no window yet, a window lets at most `limit` calls through, where the
-- limit is at least one: the call that opens it and those that follow before it ends, whatever
-- other addresses call in between.
pub let_through-le-limit :
    (now : ℕ) (key : Text) (cs : List (ℕ × Text)) (rl : Limiter)
    → lookup key rl.buckets ≡ none
    → 1 ≤ rl.limit
    → AreWithin (now + rl.window) cs
    → let_through key ((now, key) ∷ cs) rl ≤ rl.limit
unfolding let_through allow
let_through-le-limit now key cs rl h least w =
    rw (h, allow, equal_refl key) (omega (arith, rest, least))
  where
    opened : Limiter
    opened = record rl {
      buckets = insert key (record { count = 1; reset = now + rl.window }) rl.buckets;
    }

    rest : let_through key cs opened ≤ rl.limit - 1
    rest =
        within_window key cs (record { count = 1; reset = now + rl.window }) opened
          (rw
            (
              lookup-insert key key (record { count = 1; reset = now + rl.window }) rl.buckets,
              equal_refl key,
            )
            refl)
          w
