-- ===== src/Wrak/Sign.antt =====
-- `SignRequest` against `VerifyRequest` of internal/wrak/identity.go.
use robi_net.Base.{
  ℕ, ◌≡◌, ◌≢◌, refl, true, false, List, [], ◌∷◌, none, some, Text, length, is_empty, lookup, arith,
}
use robi_net.Result.{ok}
use robi_net.Strings.{has_prefix}
use robi_net.Guard.{Nonces, nonce_key, sweep, tidy, spend, use_nonce}
use robi_net.Wrak.{
  Crypto, WebRequest, clock_window, drifts, cut_prefix, public_identity, parse_public_identity,
  canonical_request, check_signature, verify_request, sign_request,
}
use robi_net.Wrak.Window.{verify_request_accepts}

parse_public_identity-public_identity :
    (cr : Crypto) (key : List ℕ)
    → cr.decode_base64 (cr.encode_base64 key) ≡ some key
    → length key ≡ 32
    → parse_public_identity cr (public_identity cr key) ≡ ok key
unfolding parse_public_identity public_identity cut_prefix has_prefix
parse_public_identity-public_identity cr key h n = ground arith

lookup-sweep-none :
    (k : Text) (now : ℕ) (m : List (Text × ℕ)) → lookup k m ≡ none → lookup k (sweep now m) ≡ none
unfolding lookup sweep
lookup-sweep-none k now [] h = h
lookup-sweep-none k now ((j, e) ∷ m) h = ground (arith, lookup-sweep-none k now m)

-- A nonce that the memory does not hold is fresh.
use_nonce_fresh :
    (now ttl : ℕ) (identity nonce : Text) (seen : Nonces)
    → lookup (nonce_key identity nonce) seen.seen ≡ none
    → (use_nonce now identity nonce ttl seen).0 ≡ true
unfolding use_nonce spend tidy
use_nonce_fresh now ttl identity nonce seen h =
    ground (arith, lookup-sweep-none (nonce_key identity nonce) now seen.seen h)

check_signature_passes :
    (cr : Crypto) (now when : ℕ) (key raw : List ℕ) (r : WebRequest)
    → is_empty r.identity ≡ false
    → is_empty r.timestamp ≡ false
    → is_empty r.nonce ≡ false
    → is_empty r.signature ≡ false
    → parse_public_identity cr r.identity ≡ ok key
    → cr.parse_time r.timestamp ≡ some when
    → drifts now when ≡ false
    → cr.decode_base64 r.signature ≡ some raw
    → cr.verify key (canonical_request cr r) raw ≡ true
    → check_signature cr now r ≡ ok r.identity
unfolding check_signature
check_signature_passes cr now when key raw r i t n s k p d b v = ground arith

-- The private key of a machine, under the laws of the libraries: base64 decodes what it encodes and
-- encodes no bytes to the empty text only, and a signature of the key verifies with its public half.
module _ (cr : Crypto) (private : List ℕ)
    (decodes : (bs : List ℕ) → cr.decode_base64 (cr.encode_base64 bs) ≡ some bs)
    (nonempty : (bs : List ℕ) → bs ≢ [] → is_empty (cr.encode_base64 bs) ≡ false)
    (size : length (cr.public_key private) ≡ 32) (signs : (s : Text) → cr.sign private s ≢ [])
    (verifies : (s : Text) → cr.verify (cr.public_key private) s (cr.sign private s) ≡ true) where
  check_signature-sign_request :
      (sent now when : ℕ) (drawn : List ℕ) (r : WebRequest)
      → drawn ≢ []
      → is_empty (cr.format_time sent) ≡ false
      → cr.parse_time (cr.format_time sent) ≡ some when
      → drifts now when ≡ false
      → check_signature cr now (sign_request cr private sent drawn r)
        ≡ ok (public_identity cr (cr.public_key private))
  unfolding sign_request canonical_request public_identity
  check_signature-sign_request sent now when drawn r d f t w =
      let stamped : WebRequest = record r {
        timestamp = cr.format_time sent;
        nonce = cr.encode_base64 drawn;
      } in
      let text = canonical_request cr stamped in
      check_signature_passes cr now when (cr.public_key private) (cr.sign private text)
        (sign_request cr private sent drawn r) refl f (nonempty drawn d)
        (nonempty (cr.sign private text) (signs text))
        (parse_public_identity-public_identity cr (cr.public_key private)
          (decodes (cr.public_key private)) size)
        t w (decodes (cr.sign private text)) (verifies text)

  -- What a machine signs, the hub accepts as that machine's: where the time that the text of the
  -- machine's clock reads as is within the window of the hub's clock, and the memory of nonces does
  -- not hold the nonce that was drawn. The libraries do as documented: base64 decodes what it
  -- encodes, a signature verifies under the public half of its key.
  pub verify_request-sign_request :
      (sent now when : ℕ) (drawn : List ℕ) (r : WebRequest) (seen : Nonces)
      → drawn ≢ []
      → is_empty (cr.format_time sent) ≡ false
      → cr.parse_time (cr.format_time sent) ≡ some when
      → drifts now when ≡ false
      → lookup
          (nonce_key (public_identity cr (cr.public_key private)) (cr.encode_base64 drawn))
          seen.seen
        ≡ none
      → (verify_request cr now (sign_request cr private sent drawn r) seen).0
        ≡ ok (public_identity cr (cr.public_key private))
  unfolding sign_request
  verify_request-sign_request sent now when drawn r seen d f t w n =
      verify_request_accepts cr now (sign_request cr private sent drawn r) seen _
        (check_signature-sign_request sent now when drawn r d f t w)
        (use_nonce_fresh now clock_window _ _ seen n)
