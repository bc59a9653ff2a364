-- ===== src/Enroll/Mac.antt =====
-- The authentication code of a request.
use robi_net.Base.{
  ℕ, ◌+◌, ◌*◌, ◌/◌, ◌%◌, ◌<◌, ◌≡◌, ◌↔◌, refl, Bool, true, List, [], ◌∷◌, Option, none, some, Text,
  equal_iff, all_of, ltb, arith,
}
use robi_net.Hub.Types.{Request}
use robi_net.Enroll.{
  Platform, canonical, hex_digit, hex_encode, hex_value, hex_decode, mac, same_code, verify_mac,
}

-- Every number is a byte.
abbrev pub are_bytes : List ℕ → Bool
are_bytes = all_of (λ b. ltb b 256)

hex_value-digit : (n : ℕ) → n < 16 → hex_value (hex_digit n) ≡ some n
unfolding hex_value hex_digit
hex_value-digit n h = ground arith

-- Decoding the hexadecimal form of a list of bytes gives the bytes back.
pub hex_decode-encode : (bs : List ℕ) → are_bytes bs ≡ true → hex_decode (hex_encode bs) ≡ some bs
unfolding hex_decode hex_encode
hex_decode-encode [] h = refl
hex_decode-encode (b ∷ bs) h =
    let small : b < 256 = ground arith in
    let whole : 16 * (b / 16) + b % 16 ≡ b = omega arith in
    rw (
      hex_value-digit (b / 16) (omega arith),
      hex_value-digit (b % 16) (omega arith),
      hex_decode-encode bs (ground arith),
      whole,
    )

-- When the digest is a list of bytes, a code is accepted exactly when it decodes to the digest of
-- the request under the token.
pub verify_mac_iff :
    (pl : Platform) (r : Request) (token code : Text)
    → are_bytes (pl.hmac_sha256 token (canonical pl r)) ≡ true
    → (verify_mac pl r token code ≡ true)
      ↔ (hex_decode code ≡ some (pl.hmac_sha256 token (canonical pl r)))
unfolding verify_mac mac
verify_mac_iff pl r token code h =
    let digest = pl.hmac_sha256 token (canonical pl r) in
    rw (hex_decode-encode digest h) (go digest (hex_decode code))
  where
    go :
        (want : List ℕ) (got : Option (List ℕ))
        → (same_code (some want) got ≡ true) ↔ (got ≡ some want)
    go want none = ground arith
    go want (some code) = ground (arith, equal_iff want code)

-- When the digest is a list of bytes, the code that the connector computes for a request under a
-- token is accepted for that request under that token.
pub verify_mac-mac :
    (pl : Platform) (r : Request) (token : Text)
    → are_bytes (pl.hmac_sha256 token (canonical pl r)) ≡ true
    → verify_mac pl r token (mac pl r token) ≡ true
unfolding mac
verify_mac-mac pl r token h =
    (verify_mac_iff pl r token _ h).1 (hex_decode-encode (pl.hmac_sha256 token (canonical pl r)) h)
