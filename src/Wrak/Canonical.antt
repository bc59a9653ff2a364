-- ===== src/Wrak/Canonical.antt =====
-- `canonicalRequest` of internal/wrak/identity.go: what the text says of the request.
use robi_net.Base.{
  ℕ, suc, ◌+◌, ◌≡◌, refl, sym, ap, ◌∙◌, true, false, List, [], ◌∷◌, ◌++◌, Text, runes, ◌==◌,
  some_inj, if◌then◌else◌, arith,
}
use robi_net.Strings.{to_lower}
use robi_net.Enroll.{sort_texts, insert_text, hex_encode, hex_digit, hex_decode}
use robi_net.Wrak.Query.{given, has_rune, query_same}
use robi_net.Enroll.Mac.{are_bytes, hex_decode-encode}
use robi_net.Wrak.{
  Crypto, WebRequest, query_pairs, value_pairs, join_and, put_line, canonical_request,
}

-- How many line ends a text has.
unfoldable pub newlines : Text → ℕ
newlines [] = 0
newlines (c ∷ s) = let rest = newlines s in if c == b'\n' then suc rest else rest

newlines-append : (a b : Text) → newlines (a ++ b) ≡ newlines a + newlines b
unfolding newlines
newlines-append [] b = omega arith
newlines-append (c ∷ a) b = ground (arith, newlines-append a b)

-- Two texts cut at a line end with as many line ends behind it are cut at the same place.
cut_apart :
    (x y a b : Text) → x ++ b'\n' ∷ a ≡ y ++ b'\n' ∷ b → newlines a ≡ newlines b → (x ≡ y) × (a ≡ b)
unfolding newlines
cut_apart [] [] a b h n = ground arith
cut_apart [] (c ∷ y) a b h n = ground (arith, newlines-append y (b'\n' ∷ b))
cut_apart (c ∷ x) [] a b h n = ground (arith, newlines-append x (b'\n' ∷ a))
cut_apart (c ∷ x) (d ∷ y) a b h n = ground (arith, cut_apart x y a b)

-- The same with no line end before the cut.
cut_line :
    (x y a b : Text)
    → x ++ b'\n' ∷ a ≡ y ++ b'\n' ∷ b
    → newlines x ≡ 0
    → newlines y ≡ 0
    → (x ≡ y) × (a ≡ b)
unfolding newlines
cut_line [] [] a b h n m = ground arith
cut_line [] (c ∷ y) a b h n m = ground arith
cut_line (c ∷ x) [] a b h n m = ground arith
cut_line (c ∷ x) (d ∷ y) a b h n m = ground (arith, cut_line x y a b)

newlines-hex_encode : (bs : List ℕ) → newlines (hex_encode bs) ≡ 0
unfolding newlines hex_encode hex_digit
newlines-hex_encode [] = refl
newlines-hex_encode (b ∷ bs) = ground (arith, newlines-hex_encode bs)

-- Texts that stand in one line each.
abbrev AreLines : List Text → Type 0
AreLines [] = Unit
AreLines (s ∷ ss) = (newlines s ≡ 0) × AreLines ss

insert_text-AreLines :
    (s : Text) (ss : List Text) → newlines s ≡ 0 → AreLines ss → AreLines (insert_text s ss)
unfolding insert_text
insert_text-AreLines s [] h a = (h, tt)
insert_text-AreLines s (t ∷ ts) h a = ground (arith, insert_text-AreLines s ts)

sort_texts-AreLines : (ss : List Text) → AreLines ss → AreLines (sort_texts ss)
unfolding sort_texts
sort_texts-AreLines [] a = tt
sort_texts-AreLines (s ∷ ss) a =
    insert_text-AreLines s (sort_texts ss) a.0 (sort_texts-AreLines ss a.1)

newlines-join_and : (ss : List Text) → AreLines ss → newlines (join_and ss) ≡ 0
unfolding join_and newlines
newlines-join_and [] a = refl
newlines-join_and (s ∷ []) a = a.0
newlines-join_and (s ∷ t ∷ ts) a =
    ground
      (arith, newlines-append s (b'&' ∷ join_and (t ∷ ts)), newlines-join_and (t ∷ ts) a.1, a.0)

AreLines-append : (ss ts : List Text) → AreLines ss → AreLines ts → AreLines (ss ++ ts)
AreLines-append [] ts h k = k
AreLines-append (s ∷ ss) ts (h, hs) k = (h, AreLines-append ss ts hs k)

module _ (cr : Crypto) (one_line : (s : Text) → newlines (cr.query_escape s) ≡ 0) where
  value_pairs-AreLines : (key : Text) (vs : List Text) → AreLines (value_pairs cr key vs)
  unfolding value_pairs newlines
  value_pairs-AreLines key [] = tt
  value_pairs-AreLines key (v ∷ vs) = (
    ground (
      arith,
      newlines-append (cr.query_escape key) (b'=' ∷ cr.query_escape v),
      one_line key,
      one_line v,
    ),
    value_pairs-AreLines key vs,
  )

  query_pairs-AreLines : (q : List (Text × List Text)) → AreLines (query_pairs cr q)
  unfolding query_pairs
  query_pairs-AreLines [] = tt
  query_pairs-AreLines ((key, vs) ∷ q) =
      AreLines-append (value_pairs cr key vs) (query_pairs cr q) (value_pairs-AreLines key vs)
        (query_pairs-AreLines q)

  pub newlines-query :
      (q : List (Text × List Text)) → newlines (join_and (sort_texts (query_pairs cr q))) ≡ 0
  newlines-query q =
      newlines-join_and (sort_texts (query_pairs cr q))
        (sort_texts-AreLines (query_pairs cr q) (query_pairs-AreLines q))

-- What two lines with one key say.
put_line_same :
    (key v w a b : Text)
    → put_line key v a ≡ put_line key w b
    → newlines v ≡ 0
    → newlines w ≡ 0
    → (v ≡ w) × (a ≡ b)
unfolding put_line
put_line_same [] v w a b h n m = cut_line v w a b h n m
put_line_same (c ∷ key) v w a b h n m = put_line_same key v w a b (ground arith) n m

-- The same for values with line ends, where the rests have as many.
put_line_apart :
    (key v w a b : Text)
    → put_line key v a ≡ put_line key w b
    → newlines a ≡ newlines b
    → (v ≡ w) × (a ≡ b)
unfolding put_line
put_line_apart [] v w a b h n = cut_apart v w a b h n
put_line_apart (c ∷ key) v w a b h n = put_line_apart key v w a b (ground arith) n

newlines-put_line :
    (key v rest : Text)
    → newlines key ≡ 0
    → newlines v ≡ 0
    → newlines (put_line key v rest) ≡ suc (newlines rest)
unfolding put_line newlines
newlines-put_line key v rest k n =
    ground (arith, newlines-append key (v ++ b'\n' ∷ rest), newlines-append v (b'\n' ∷ rest))

-- The parts of a request that come from its first line and its headers stand in one line each; the
-- path is decoded and need not.
pub record IsOneLined (cr : Crypto) (r : WebRequest) : Type 0 where
  pub host : newlines (to_lower r.host) ≡ 0
  pub method : newlines (cr.to_upper r.method) ≡ 0
  pub timestamp : newlines r.timestamp ≡ 0
  pub nonce : newlines r.nonce ≡ 0

-- That two requests agree in all that a signature covers.
pub record IsSameCall (cr : Crypto) (r s : WebRequest) : Type 0 where
  pub host : to_lower r.host ≡ to_lower s.host
  pub method : cr.to_upper r.method ≡ cr.to_upper s.method
  pub path : r.path ≡ s.path
  pub query : (key val : Text) → given key val r.query ≡ given key val s.query
  pub digest : cr.sha256 r.body ≡ cr.sha256 s.body
  pub timestamp : r.timestamp ≡ s.timestamp
  pub nonce : r.nonce ≡ s.nonce

module _ (cr : Crypto) (one_line : (s : Text) → newlines (cr.query_escape s) ≡ 0)
    (apart : (a b : Text) → cr.query_escape a ≡ cr.query_escape b → a ≡ b)
    (no_and : (s : Text) → has_rune b'&' (cr.query_escape s) ≡ false)
    (no_equals : (s : Text) → has_rune b'=' (cr.query_escape s) ≡ false)
    (bytes : (s : Text) → are_bytes (cr.sha256 s) ≡ true) where
  hex_same :
      (a b : Text) → hex_encode (cr.sha256 a) ≡ hex_encode (cr.sha256 b) → cr.sha256 a ≡ cr.sha256 b
  hex_same a b h = some_inj (
      sym (hex_decode-encode (cr.sha256 a) (bytes a))
      ∙ ap hex_decode h
      ∙ hex_decode-encode (cr.sha256 b) (bytes b))

  -- What stands behind the path.
  tail_lines : WebRequest → Text
  tail_lines r = put_line (runes "query=") (join_and (sort_texts (query_pairs cr r.query))) (
      put_line (runes "body_sha256=") (hex_encode (cr.sha256 r.body))
        (put_line (runes "timestamp=") r.timestamp (put_line (runes "nonce=") r.nonce [])))

  newlines-tail_lines : (r : WebRequest) → IsOneLined cr r → newlines (tail_lines r) ≡ 4
  unfolding tail_lines newlines
  newlines-tail_lines r one =
      let n = newlines-put_line (runes "nonce=") r.nonce [] refl one.nonce in
      let t = newlines-put_line (runes "timestamp=") r.timestamp _ refl one.timestamp in
      let b =
        newlines-put_line (runes "body_sha256=") (hex_encode (cr.sha256 r.body)) _ refl
          (newlines-hex_encode (cr.sha256 r.body)) in
      let q = newlines-put_line (runes "query=") _ _ refl (newlines-query cr one_line r.query) in
      q ∙ ap suc (b ∙ ap suc (t ∙ ap suc n))

  -- A signature covers the whole of a call: two requests with one canonical text agree in the host but
  -- for its case, the method in capitals, the path, how often the query gives each value to each key,
  -- the digest of the body, the time and the nonce. The headers and the first line have no line end;
  -- the path may have some. Escapes of a query keep texts apart, and hold no line end, `&` or `=`.
  pub canonical_request-IsSameCall :
      (r s : WebRequest)
      → IsOneLined cr r
      → IsOneLined cr s
      → canonical_request cr r ≡ canonical_request cr s
      → IsSameCall cr r s
  unfolding canonical_request tail_lines newlines
  canonical_request-IsSameCall r s one two h =
      let start = put_line_same (runes "wrak/v1/request") [] [] _ _ h refl refl in
      let host = put_line_same (runes "host=") _ _ _ _ start.1 one.host two.host in
      let method = put_line_same (runes "method=") _ _ _ _ host.1 one.method two.method in
      let path =
        put_line_apart (runes "path=") r.path s.path (tail_lines r) (tail_lines s) method.1
          (newlines-tail_lines r one ∙ sym (newlines-tail_lines s two)) in
      let query =
        put_line_same (runes "query=") _ _ _ _ path.1 (newlines-query cr one_line r.query)
          (newlines-query cr one_line s.query) in
      let body =
        put_line_same (runes "body_sha256=") _ _ _ _ query.1
          (newlines-hex_encode (cr.sha256 r.body)) (newlines-hex_encode (cr.sha256 s.body)) in
      let time = put_line_same (runes "timestamp=") _ _ _ _ body.1 one.timestamp two.timestamp in
      let nonce = put_line_same (runes "nonce=") _ _ _ _ time.1 one.nonce two.nonce in
      record {
        host = host.0;
        method = method.0;
        path = path.0;
        query = query_same cr apart no_and no_equals r.query s.query query.0;
        digest = hex_same r.body s.body body.0;
        timestamp = time.0;
        nonce = nonce.0;
      }
