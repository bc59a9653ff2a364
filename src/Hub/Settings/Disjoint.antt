-- ===== src/Hub/Settings/Disjoint.antt =====
-- `refuseOverlap` and the port range of internal/hub/config.go.
use native.Mathlib.Nat.{div-div-eq-div-mul}
use robi_net.Base.{
  ℕ, ◌+◌, ◌-◌, ◌*◌, ◌/◌, ◌^◌, ◌≤◌, ◌<◌, ◌≡◌, refl, sym, ap, ◌∙◌, true, false, List, [], ◌∷◌, In,
  Text, some, if◌then◌else◌, Bool-cases, Option-cases, ltb, inl, inr, arith,
}
use robi_net.Net.{
  Family, Addr, ip, invalid, v4, v6, Prefix, width, bits, span, within, contains, overlaps,
}
use robi_net.Net.Range.{pow_add}
use robi_net.Result.{ok}
use robi_net.Strings.{trim_space}
use robi_net.Hub.Subnet.{Pool}
use robi_net.Hub.Settings.{
  cut_at, digits_upto, parse_uint, parse_port_range, overlaps_any, refuse_overlap,
}

-- What agrees in more bits agrees in fewer.
coarser :
    (f : Family) (b c n m : ℕ) → b ≤ c → n / span f c ≡ m / span f c → n / span f b ≡ m / span f b
unfolding span
coarser f b c n m le h =
    let k = (width f - b) - (width f - c) in
    let wider : 2 ^ (width f - b) ≡ 2 ^ (width f - c) * 2 ^ k =
      rw (sym (pow_add (width f - c) k)) (ap (λ e. 2 ^ e) (omega arith)) in
    rw wider (
      sym (div-div-eq-div-mul n (2 ^ (width f - c)) (2 ^ k))
      ∙ ap (λ q. q / 2 ^ k) h
      ∙ div-div-eq-div-mul m (2 ^ (width f - c)) (2 ^ k))

within_family :
    (f : Family) (n : ℕ) (a : Addr) (b : ℕ)
    → within (ip f n) a b ≡ true
    → (m : ℕ) × (a ≡ ip f m) × (n / span f b ≡ m / span f b)
unfolding within
within_family v4 n (ip v4 m) b h = (m, refl, ground arith)
within_family v6 n (ip v6 m) b h = (m, refl, ground arith)
within_family v4 n (ip v6 m) b h = absurd (ground arith)
within_family v6 n (ip v4 m) b h = absurd (ground arith)
within_family f n invalid b h = absurd (ground arith)

within_same :
    (f : Family) (n m b : ℕ) → n / span f b ≡ m / span f b → within (ip f n) (ip f m) b ≡ true
unfolding within
within_same v4 n m b h = ground arith
within_same v6 n m b h = ground arith

meet :
    (f : Family) (n m x y b c : ℕ)
    → x ≡ y
    → n / span f b ≡ x / span f b
    → m / span f c ≡ y / span f c
    → n / span f (if ltb b c then b else c) ≡ m / span f (if ltb b c then b else c)
meet f n m x y b c e p q =
    coarser f (if ltb b c then b else c) b n x (ground arith) p
    ∙ ap (λ z. z / span f (if ltb b c then b else c)) e
    ∙ sym (coarser f (if ltb b c then b else c) c m y (ground arith) q)

joined :
    (f g : Family) (n m x y b c : ℕ)
    → ip f x ≡ ip g y
    → n / span f b ≡ x / span f b
    → m / span g c ≡ y / span g c
    → within (ip f n) (ip g m) (if ltb b c then b else c) ≡ true
joined v4 v4 n m x y b c e p q =
    within_same v4 n m (if ltb b c then b else c) (meet v4 n m x y b c (ground arith) p q)
joined v6 v6 n m x y b c e p q =
    within_same v6 n m (if ltb b c then b else c) (meet v6 n m x y b c (ground arith) p q)
joined v4 v6 n m x y b c e p q = absurd (ground arith)
joined v6 v4 n m x y b c e p q = absurd (ground arith)

-- Two addresses that agree with a third agree with each other, in the fewer bits.
within_joined :
    (v u a : Addr) (b c : ℕ)
    → within v a b ≡ true
    → within u a c ≡ true
    → within v u (if ltb b c then b else c) ≡ true
unfolding within
within_joined (ip f n) (ip g m) a b c h k =
    let (x, e, p) = within_family f n a b h in
    let (y, e', q) = within_family g m a c k in joined f g n m x y b c (sym e ∙ e') p q
within_joined invalid u a b c h k = absurd (ground arith)
within_joined (ip f n) invalid a b c h k = absurd (ground arith)

-- Prefixes that share an address overlap.
pub contains-overlaps :
    (p q : Prefix) (a : Addr) → contains p a ≡ true → contains q a ≡ true → overlaps p q ≡ true
unfolding contains overlaps
contains-overlaps p q a h k = ground (arith, within_joined p.addr q.addr a (bits p) (bits q))

-- No address lies in two pools of the list.
abbrev pub AreDisjoint : List Pool → Type 0
AreDisjoint [] = Unit
AreDisjoint (p ∷ ps) =
    ((q : Pool) (a : Addr) → In q ps → contains p.prefix a ≡ true → contains q.prefix a ≡ false)
    × AreDisjoint ps

overlaps_any-In :
    (p q : Pool) (ps : List Pool)
    → In q ps
    → overlaps_any p ps ≡ false
    → overlaps p.prefix q.prefix ≡ false
unfolding overlaps_any
overlaps_any-In p q [] i h = elim i [ ]
overlaps_any-In p q (r ∷ rs) (inl e) h = rw e (ground arith)
overlaps_any-In p q (r ∷ rs) (inr i) h = overlaps_any-In p q rs i (ground arith)

-- Pools that are not refused are disjoint: no address lies in two of them, so that no address is
-- handed out twice by pools that know nothing of each other.
pub refuse_overlap-AreDisjoint : (ps : List Pool) → refuse_overlap ps ≡ ok tt → AreDisjoint ps
unfolding refuse_overlap
refuse_overlap-AreDisjoint [] h = tt
refuse_overlap-AreDisjoint (p ∷ ps) h = (
  λ q a i here. elim (Bool-cases (contains q.prefix a)) [
    | inl e ↦
        let apart = overlaps_any-In p q ps i (ground arith) in
        absurd (cc (contains-overlaps p.prefix q.prefix a here e, apart))
    | inr e ↦ e
  ],
  refuse_overlap-AreDisjoint ps (ground arith),
)

digits_upto-le :
    (most n : ℕ) (s : Text) (m : ℕ) → n ≤ most → digits_upto most n s ≡ some m → m ≤ most
unfolding digits_upto
digits_upto-le most n [] m le h = ground arith
digits_upto-le most n (c ∷ s) m le h = ground (arith, digits_upto-le most (n * 10 + (c - b'0')) s m)

parse_uint-le : (most : ℕ) (s : Text) (m : ℕ) → parse_uint most s ≡ some m → m ≤ most
unfolding parse_uint
parse_uint-le most s m h = ground (arith, digits_upto-le most 0 s m)

-- The range of ports that is read is not empty, and its ends fit in sixteen bits.
pub parse_port_range-bounds :
    (s : Text) (least most : ℕ)
    → parse_port_range s ≡ ok (least, most)
    → (least ≤ most) × (most < 65536)
unfolding parse_port_range
parse_port_range-bounds s least most h = elim (Option-cases (cut_at b'-' s)) [
  | inl e ↦ absurd (ground arith)
  | inr ((lo, hi), e) ↦ elim (Option-cases (parse_uint 65535 (trim_space lo))) [
    | inl f ↦ absurd (ground arith)
    | inr (a, f) ↦ elim (Option-cases (parse_uint 65535 (trim_space hi))) [
      | inl g ↦ absurd (ground arith)
      | inr (b, g) ↦ ground (arith, parse_uint-le 65535 (trim_space hi) b g)
    ]
  ]
]
