-- ===== src/Wrak.antt =====
-- internal/wrak/identity.go: requests that a machine signs with its identity. Times are numbers of
-- nanoseconds.
pub mod Query
pub mod Canonical
pub mod Window
pub mod Sign
pub mod Ssh
use robi_net.Base.{
  ℕ, zero, suc, ◌+◌, ◌-◌, Bool, true, false, not, ◌&&◌, ◌||◌, List, [], ◌∷◌, ◌++◌, Option, none,
  some, Text, runes, is_empty, length, drop, ltb, ◌==◌, equal, if◌then◌else◌,
}
use robi_net.Result.{
  Result, ok, err, not_signed, identity_prefix, identity_malformed, identity_size, bad_timestamp,
  clock_drift, bad_signature_text, bad_signature, nonce_used,
}
use robi_net.Strings.{to_lower, has_prefix}
use robi_net.Enroll.{sort_texts, hex_encode}
use robi_net.Guard.{Nonces, use_nonce}

-- What the source takes from libraries: base64, SHA-256, ed25519, the text of a time, and the
-- escapes of a query.
pub record Crypto : Type 0 where
  pub sha256 : Text → List ℕ
  pub encode_base64 : List ℕ → Text
  pub decode_base64 : Text → Option (List ℕ)
  pub public_key : List ℕ → List ℕ
  pub sign : List ℕ → Text → List ℕ
  pub verify : List ℕ → Text → List ℕ → Bool
  pub format_time : ℕ → Text
  pub parse_time : Text → Option ℕ
  pub query_escape : Text → Text
  pub to_upper : Text → Text

-- An HTTP request, with the headers that the source reads; a header that is missing is empty.
pub record WebRequest : Type 0 where
  pub host : Text
  pub method : Text
  pub path : Text
  pub query : List (Text × List Text)
  pub body : Text
  pub remote_addr : Text
  pub identity : Text
  pub timestamp : Text
  pub nonce : Text
  pub signature : Text
  pub enroll_mac : Text

-- `IdentityPrefix`
abbrev pub identity_mark : Text
identity_mark = runes "ed25519:"

-- `Window`, five minutes
abbrev pub clock_window : ℕ
clock_window = 300000000000

-- `strings.CutPrefix`
unfoldable pub cut_prefix : Text → Text → Option Text
cut_prefix s p = if has_prefix s p then some (drop (length p) s) else none

-- `PublicIdentity`
unfoldable pub public_identity : Crypto → List ℕ → Text
public_identity cr pub_key = identity_mark ++ cr.encode_base64 pub_key

-- `ParsePublicIdentity`; `ed25519.PublicKeySize` is 32.
unfoldable pub parse_public_identity : Crypto → Text → Result (List ℕ)
unfolding cut_prefix
parse_public_identity cr s = elim (cut_prefix s identity_mark) [
  | none ↦ err identity_prefix
  | some encoded ↦ elim (cr.decode_base64 encoded) [
    | none ↦ err identity_malformed
    | some raw ↦ if not (length raw == 32) then err identity_size else ok raw
  ]
]

-- The loop over the values of one key, and over the keys.
value_pairs : Crypto → Text → List Text → List Text
value_pairs cr key [] = []
value_pairs cr key (v ∷ vs) =
    (cr.query_escape key ++ b'=' ∷ cr.query_escape v) ∷ value_pairs cr key vs

unfoldable pub query_pairs : Crypto → List (Text × List Text) → List Text
unfolding value_pairs
query_pairs cr [] = []
query_pairs cr ((key, vs) ∷ more) = value_pairs cr key vs ++ query_pairs cr more

-- `strings.Join` with `&`
unfoldable pub join_and : List Text → Text
join_and [] = []
join_and (p ∷ []) = p
join_and (p ∷ q ∷ ps) = p ++ b'&' ∷ join_and (q ∷ ps)

-- A line of the canonical form: what it starts with, its value, and its end.
unfoldable pub put_line : Text → Text → Text → Text
put_line key val rest = key ++ (val ++ b'\n' ∷ rest)

-- `canonicalRequest`
unfoldable pub canonical_request : Crypto → WebRequest → Text
unfolding put_line query_pairs join_and
canonical_request cr r = put_line (runes "wrak/v1/request") [] (
    put_line (runes "host=") (to_lower r.host) (
      put_line (runes "method=") (cr.to_upper r.method) (
        put_line (runes "path=") r.path (
          put_line (runes "query=") (join_and (sort_texts (query_pairs cr r.query))) (
            put_line (runes "body_sha256=") (hex_encode (cr.sha256 r.body)) (
              put_line (runes "timestamp=") r.timestamp (put_line (runes "nonce=") r.nonce [])))))))

-- The two tests of the drift between the clocks.
unfoldable pub drifts : ℕ → ℕ → Bool
drifts now when = ltb clock_window (now - when) || ltb clock_window (when - now)

-- What stands before the nonce is spent in `VerifyRequest`, in its order.
unfoldable pub check_signature : Crypto → ℕ → WebRequest → Result Text
unfolding parse_public_identity canonical_request drifts
check_signature cr now r =
    if is_empty r.identity || is_empty r.timestamp || is_empty r.nonce || is_empty r.signature
    then err not_signed
    else elim (parse_public_identity cr r.identity) [
      | err e ↦ err e
      | ok key ↦ elim (cr.parse_time r.timestamp) [
        | none ↦ err bad_timestamp
        | some when ↦
            if drifts now when then err clock_drift else elim (cr.decode_base64 r.signature) [
              | none ↦ err bad_signature_text
              | some raw ↦
                  if not (cr.verify key (canonical_request cr r) raw)
                  then err bad_signature
                  else ok r.identity
            ]
      ]
    ]

-- The nonce of a request whose signature is good.
unfoldable pub spend_nonce : ℕ → Text → Text → Nonces → Result Text × Nonces
spend_nonce now identity nonce seen =
    let (fresh, seen') = use_nonce now identity nonce clock_window seen in
    (if not fresh then err nonce_used else ok identity, seen')

-- `VerifyRequest`, with a memory of nonces; the clock is read once.
unfoldable pub verify_request : Crypto → ℕ → WebRequest → Nonces → Result Text × Nonces
unfolding check_signature spend_nonce
verify_request cr now r seen = elim (check_signature cr now r) [
  | err e ↦ (err e, seen)
  | ok identity ↦ spend_nonce now identity r.nonce seen
]

-- `SignRequest`: the four headers, with the nonce that is drawn.
unfoldable pub sign_request : Crypto → List ℕ → ℕ → List ℕ → WebRequest → WebRequest
unfolding public_identity
sign_request cr private now drawn r =
    let stamped : WebRequest = record r {
      timestamp = cr.format_time now;
      nonce = cr.encode_base64 drawn;
    } in
    record stamped {
      identity = public_identity cr (cr.public_key private);
      signature = cr.encode_base64 (cr.sign private (canonical_request cr stamped));
    }
