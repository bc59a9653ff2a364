-- ===== src/Hub/Subnet/Carry.antt =====
-- The byte loop of `nextSubnet`, against addition.
use native.Mathlib.Nat.{pow-suc, pow-le-pow_right}
use robi_net.Base.{
  ℕ, zero, suc, ◌+◌, ◌*◌, ◌/◌, ◌%◌, ◌^◌, ◌≤◌, ◌<◌, ◌≡◌, ◌≢◌, refl, ap, List, [], ◌∷◌, length, arith,
  inl, inr, leb, Bool-cases,
}
use robi_net.Net.Range.{pow_add}
use robi_net.Hub.Subnet.{bytes, value, ripple, add_at}

-- Every element is a byte.
abbrev AreBytes : List ℕ → Type 0
AreBytes [] = Unit
AreBytes (b ∷ bs) = (b < 256) × AreBytes bs

bytes-AreBytes : (k n : ℕ) → AreBytes (bytes k n)
unfolding bytes
bytes-AreBytes zero n = tt
bytes-AreBytes (suc k) n = (omega arith, bytes-AreBytes k (n / 256))

length-bytes : (k n : ℕ) → length (bytes k n) ≡ k
unfolding bytes
length-bytes zero n = refl
length-bytes (suc k) n = ap suc (length-bytes k (n / 256))

value-bytes : (k n : ℕ) → n < 256 ^ k → value (bytes k n) ≡ n
unfolding value bytes
value-bytes zero n h = omega arith
value-bytes (suc k) n h =
    let small : n / 256 < 256 ^ k = omega (arith, rw pow-suc at h) in
    omega (arith, value-bytes k (n / 256) small)

value-ripple :
    (c : ℕ) (bs : List ℕ)
    → c ≤ 256
    → AreBytes bs
    → value (ripple c bs).0 + (ripple c bs).1 * 256 ^ length bs ≡ value bs + c
unfolding value ripple
value-ripple c [] h b = omega arith
value-ripple c (x ∷ bs) h (hx, b) = elim (Bool-cases (leb (x + c) 255)) [
  | inl stops ↦ rw stops (ground arith)
  | inr carries ↦ rw (carries, pow-suc) (ground (arith, value-ripple 1 bs (omega arith) b))
]

value-add_at :
    (k c : ℕ) (bs : List ℕ)
    → c ≤ 256
    → k ≤ length bs
    → AreBytes bs
    → value (add_at k c bs).0 + (add_at k c bs).1 * 256 ^ length bs ≡ value bs + c * 256 ^ k
unfolding value add_at
value-add_at zero c bs h l b = omega (arith, value-ripple c bs h b)
value-add_at (suc k) c [] h l b = absurd (omega arith)
value-add_at (suc k) c (x ∷ bs) h l b =
    rw (pow-suc, pow-suc) (omega (arith, value-add_at k c bs h (omega arith) b.1))

value-lt : (bs : List ℕ) → AreBytes bs → value bs < 256 ^ length bs
unfolding value
value-lt [] b = omega arith
value-lt (x ∷ bs) (h, b) = rw pow-suc (omega (arith, value-lt bs b))

ripple-AreBytes :
    (c : ℕ) (bs : List ℕ)
    → AreBytes bs
    → AreBytes (ripple c bs).0 × (length (ripple c bs).0 ≡ length bs)
unfolding ripple
ripple-AreBytes c [] b = (tt, refl)
ripple-AreBytes c (x ∷ bs) b = elim (Bool-cases (leb (x + c) 255)) [
  | inl stops ↦ rw stops ((omega arith, b.1), refl)
  | inr carries ↦
      let (later, same) = ripple-AreBytes 1 bs b.1 in rw carries ((omega arith, later), ap suc same)
]

add_at-AreBytes :
    (k c : ℕ) (bs : List ℕ)
    → AreBytes bs
    → AreBytes (add_at k c bs).0 × (length (add_at k c bs).0 ≡ length bs)
unfolding add_at
add_at-AreBytes zero c bs b = ripple-AreBytes c bs b
add_at-AreBytes (suc k) c [] b = (tt, refl)
add_at-AreBytes (suc k) c (x ∷ bs) b =
    let (later, same) = add_at-AreBytes k c bs b.1 in ((b.0, later), ap suc same)

pow_256 : (k : ℕ) → 256 ^ k ≡ 2 ^ (8 * k)
pow_256 zero = refl
pow_256 (suc k) =
    let whole : 8 * suc k ≡ 8 * k + 8 = omega arith in
    rw (pow-suc, whole, pow_add (8 * k) 8, pow_256 k)

-- A power of two by the byte that it stands in and its bit there.
pow_byte : (s : ℕ) → 2 ^ (s % 8) * 256 ^ (s / 8) ≡ 2 ^ s
pow_byte s =
    let whole : s % 8 + 8 * (s / 8) ≡ s = omega arith in
    rw (pow_256 (s / 8), ← pow_add (s % 8) (8 * (s / 8)), whole)

bit_le : (s : ℕ) → 2 ^ (s % 8) ≤ 256
bit_le s = pow-le-pow_right {n = 2} (omega arith) {j = 8} (omega arith)

-- What the loop does to the 16 bytes of `n`: it adds, and carries where the sum does not fit.
pub add_at_16 :
    (s n : ℕ)
    → s ≤ 128
    → n < 2 ^ 128
    → let (raw, carry) = add_at (s / 8) (2 ^ (s % 8)) (bytes 16 n) in
      (n + 2 ^ s < 2 ^ 128 → (carry ≡ 0) × (value raw ≡ n + 2 ^ s))
      × (2 ^ 128 ≤ n + 2 ^ s → carry ≢ 0)
add_at_16 s n h small =
    let b = bytes-AreBytes 16 n in
    let len = length-bytes 16 n in
    let (later, same) = add_at-AreBytes (s / 8) (2 ^ (s % 8)) (bytes 16 n) b in
    let sum =
      rw (len, value-bytes 16 n small, pow_byte s) at
        (value-add_at (s / 8) (2 ^ (s % 8)) (bytes 16 n) (bit_le s) (rw len (omega arith)) b) in
    let below = rw (same, len) at (value-lt _ later) in omega arith
