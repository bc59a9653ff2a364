-- ===== src/Wrak/Query.antt =====
-- `canonicalRequest` of internal/wrak/identity.go: what the line of the query says.
use robi_net.Base.{
  ℕ, suc, ◌+◌, ◌≡◌, ◌≢◌, refl, sym, ap, ◌∙◌, Bool, true, false, ◌&&◌, List, [], ◌∷◌, ◌++◌, Text,
  ◌==◌, any_of, equal, equal_iff, is_empty, if◌then◌else◌, Bool-cases, inl, inr, arith,
}
use robi_net.Enroll.{sort_texts, insert_text, text_le}
use robi_net.Wrak.{Crypto, query_pairs, value_pairs, join_and}

-- How often a text stands in a list.
pub times : Text → List Text → ℕ
times t [] = 0
times t (s ∷ ss) = let rest = times t ss in if equal s t then suc rest else rest

-- How often a query gives a value to a key.
abbrev pub given : Text → Text → List (Text × List Text) → ℕ
given key val [] = 0
given key val ((k, vs) ∷ q) =
    let rest = given key val q in if equal k key then times val vs + rest else rest

times-append : (t : Text) (ss us : List Text) → times t (ss ++ us) ≡ times t ss + times t us
unfolding times
times-append t [] us = omega arith
times-append t (s ∷ ss) us = ground (arith, times-append t ss us)

times-insert_text : (t s : Text) (ss : List Text) → times t (insert_text s ss) ≡ times t (s ∷ ss)
unfolding times insert_text
times-insert_text t s [] = refl
times-insert_text t s (u ∷ ss) = ground (arith, times-insert_text t s ss)

times-sort_texts : (t : Text) (ss : List Text) → times t (sort_texts ss) ≡ times t ss
unfolding sort_texts times
times-sort_texts t [] = refl
times-sort_texts t (s ∷ ss) =
    ground (arith, times-insert_text t s (sort_texts ss), times-sort_texts t ss)

-- Whether a rune stands in a text.
abbrev pub has_rune : ℕ → Text → Bool
has_rune c s = any_of (λ d. d == c) s

-- Two texts that are cut at the first rune of a kind are cut at the same place.
cut_first :
    (c : ℕ) (x y a b : Text)
    → x ++ c ∷ a ≡ y ++ c ∷ b
    → has_rune c x ≡ false
    → has_rune c y ≡ false
    → (x ≡ y) × (a ≡ b)
cut_first c [] [] a b h n m = ground arith
cut_first c [] (e ∷ y) a b h n m = ground arith
cut_first c (d ∷ x) [] a b h n m = ground arith
cut_first c (d ∷ x) (e ∷ y) a b h n m = ground (arith, cut_first c x y a b)

has_rune-behind : (c : ℕ) (x a : Text) → has_rune c (x ++ c ∷ a) ≡ true
has_rune-behind c [] a = ground arith
has_rune-behind c (d ∷ x) a = ground (arith, has_rune-behind c x a)

-- Texts that are not empty and hold no `&`.
abbrev pub ArePairs : List Text → Type 0
ArePairs [] = Unit
ArePairs (s ∷ ss) = (is_empty s ≡ false) × (has_rune b'&' s ≡ false) × ArePairs ss

join_and-ne : (s : Text) (ss : List Text) → is_empty s ≡ false → join_and (s ∷ ss) ≢ []
unfolding join_and
join_and-ne [] ss h e = cc
join_and-ne (c ∷ s) [] h e = cc
join_and-ne (c ∷ s) (t ∷ ss) h e = cc

join_and_inj : (ss ts : List Text) → ArePairs ss → ArePairs ts → join_and ss ≡ join_and ts → ss ≡ ts
unfolding join_and
join_and_inj [] [] a b h = refl
join_and_inj [] (t ∷ ts) a b h = absurd (join_and-ne t ts b.0 (sym h))
join_and_inj (s ∷ ss) [] a b h = absurd (join_and-ne s ss a.0 h)
join_and_inj (s ∷ []) (t ∷ []) a b h = ap (λ (x : Text). x ∷ []) h
join_and_inj (s ∷ []) (t ∷ u ∷ ts) a b h =
    absurd (cc (a.1, has_rune-behind b'&' t (join_and (u ∷ ts)), ap (has_rune b'&') h))
join_and_inj (s ∷ u ∷ ss) (t ∷ []) a b h =
    absurd (cc (b.1, has_rune-behind b'&' s (join_and (u ∷ ss)), ap (has_rune b'&') h))
join_and_inj (s ∷ u ∷ ss) (t ∷ v ∷ ts) (n, m, a) (n', m', b) h =
    let (e, f) = cut_first b'&' s t (join_and (u ∷ ss)) (join_and (v ∷ ts)) h m m' in
    let rest = join_and_inj (u ∷ ss) (v ∷ ts) a b f in cc

insert_text-ArePairs :
    (s : Text) (ss : List Text)
    → is_empty s ≡ false
    → has_rune b'&' s ≡ false
    → ArePairs ss
    → ArePairs (insert_text s ss)
unfolding insert_text
insert_text-ArePairs s [] n m a = (n, m, tt)
insert_text-ArePairs s (t ∷ ts) n m (n', m', a) = elim (Bool-cases (text_le s t)) [
  | inl e ↦ rw e (n, m, (n', m', a))
  | inr e ↦ rw e (n', m', insert_text-ArePairs s ts n m a)
]

sort_texts-ArePairs : (ss : List Text) → ArePairs ss → ArePairs (sort_texts ss)
unfolding sort_texts
sort_texts-ArePairs [] a = tt
sort_texts-ArePairs (s ∷ ss) (n, m, a) =
    insert_text-ArePairs s (sort_texts ss) n m (sort_texts-ArePairs ss a)

ArePairs-append : (ss ts : List Text) → ArePairs ss → ArePairs ts → ArePairs (ss ++ ts)
ArePairs-append [] ts a b = b
ArePairs-append (s ∷ ss) ts (n, m, a) b = (n, m, ArePairs-append ss ts a b)

has_rune-append_none :
    (c : ℕ) (x y : Text) → has_rune c x ≡ false → has_rune c y ≡ false → has_rune c (x ++ y) ≡ false
has_rune-append_none c [] y n m = m
has_rune-append_none c (d ∷ x) y n m = ground (arith, has_rune-append_none c x y)

-- The escapes of a query: they keep texts apart, and hold neither `&` nor `=`.
module _ (cr : Crypto) (apart : (a b : Text) → cr.query_escape a ≡ cr.query_escape b → a ≡ b)
    (no_and : (s : Text) → has_rune b'&' (cr.query_escape s) ≡ false)
    (no_equals : (s : Text) → has_rune b'=' (cr.query_escape s) ≡ false) where
  abbrev pair_of : Text → Text → Text
  pair_of key val = cr.query_escape key ++ b'=' ∷ cr.query_escape val

  equal-pair_of :
      (k v key val : Text) → equal (pair_of k v) (pair_of key val) ≡ (equal k key && equal v val)
  equal-pair_of k v key val = elim (Bool-cases (equal (pair_of k v) (pair_of key val))) [
    | inl e ↦
        let (f, g) =
          cut_first b'=' (cr.query_escape k) (cr.query_escape key) (cr.query_escape v)
            (cr.query_escape val) ((equal_iff (pair_of k v) (pair_of key val)).0 e) (no_equals k)
            (no_equals key) in
        let same = (equal_iff k key).1 (apart k key f) in
        let same' = (equal_iff v val).1 (apart v val g) in cc
    | inr e ↦ elim (Bool-cases (equal k key && equal v val)) [
      | inl f ↦
          let k' : k ≡ key = ground (arith, equal_iff k key) in
          let v' : v ≡ val = ground (arith, equal_iff v val) in
          let same : pair_of k v ≡ pair_of key val = cc in
          absurd (cc (e, (equal_iff (pair_of k v) (pair_of key val)).1 same))
      | inr f ↦ cc
    ]
  ]

  times-value_pairs :
      (k : Text) (vs : List Text) (key val : Text)
      → times (pair_of key val) (value_pairs cr k vs) ≡ (if equal k key then times val vs else 0)
  unfolding times value_pairs
  times-value_pairs k [] key val = ground arith
  times-value_pairs k (v ∷ vs) key val =
      ground (arith, equal-pair_of k v key val, times-value_pairs k vs key val)

  times-query_pairs :
      (q : List (Text × List Text)) (key val : Text)
      → times (pair_of key val) (query_pairs cr q) ≡ given key val q
  unfolding times query_pairs
  times-query_pairs [] key val = refl
  times-query_pairs ((k, vs) ∷ q) key val = ground (
    arith,
    times-append (pair_of key val) (value_pairs cr k vs) (query_pairs cr q),
    times-value_pairs k vs key val,
    times-query_pairs q key val,
  )

  value_pairs-ArePairs : (k : Text) (vs : List Text) → ArePairs (value_pairs cr k vs)
  unfolding value_pairs
  value_pairs-ArePairs k [] = tt
  value_pairs-ArePairs k (v ∷ vs) = (
    filled (cr.query_escape k) (cr.query_escape v),
    has_rune-append_none b'&' (cr.query_escape k) (b'=' ∷ cr.query_escape v) (no_and k) (no_and v),
    value_pairs-ArePairs k vs,
  )
    where
      filled : (x y : Text) → is_empty (x ++ b'=' ∷ y) ≡ false
      filled [] y = refl
      filled (c ∷ x) y = refl

  query_pairs-ArePairs : (q : List (Text × List Text)) → ArePairs (query_pairs cr q)
  unfolding query_pairs
  query_pairs-ArePairs [] = tt
  query_pairs-ArePairs ((k, vs) ∷ q) =
      ArePairs-append (value_pairs cr k vs) (query_pairs cr q) (value_pairs-ArePairs k vs)
        (query_pairs-ArePairs q)

  -- Two queries with one line give each key the same values, each as often.
  pub query_same :
      (q q' : List (Text × List Text))
      → join_and (sort_texts (query_pairs cr q)) ≡ join_and (sort_texts (query_pairs cr q'))
      → (key val : Text) → given key val q ≡ given key val q'
  query_same q q' h key val =
      let pairs =
        join_and_inj (sort_texts (query_pairs cr q)) (sort_texts (query_pairs cr q'))
          (sort_texts-ArePairs (query_pairs cr q) (query_pairs-ArePairs q))
          (sort_texts-ArePairs (query_pairs cr q') (query_pairs-ArePairs q')) h in
      let t = pair_of key val in
      sym (times-query_pairs q key val)
      ∙ sym (times-sort_texts t (query_pairs cr q))
      ∙ ap (times t) pairs
      ∙ times-sort_texts t (query_pairs cr q')
      ∙ times-query_pairs q' key val
