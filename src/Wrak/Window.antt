-- ===== src/Wrak/Window.antt =====
-- `VerifyRequest` of internal/wrak/identity.go, called again with a request that it accepted.
use robi_net.Base.{
  ℕ, ◌+◌, ◌≤◌, ◌<◌, ◌≡◌, inl, inr, true, false, List, [], ◌∷◌, some, Text, lookup, ltb, Bool-cases,
  arith,
}
use robi_net.Result.{ok, is_ok}
use robi_net.Guard.{Nonces, nonce_key, spend, use_nonce}
use robi_net.Guard.Replay.{lookup-tidy, use_nonce_recorded, use_nonce_refused, use_nonce_keeps}
use robi_net.Wrak.{
  Crypto, WebRequest, clock_window, drifts, check_signature, spend_nonce, verify_request,
}

-- The time that an accepted request carries is within the window.
pub check_signature_in_time :
    (cr : Crypto) (now when : ℕ) (r : WebRequest) (identity : Text)
    → check_signature cr now r ≡ ok identity
    → cr.parse_time r.timestamp ≡ some when
    → drifts now when ≡ false
unfolding check_signature
check_signature_in_time cr now when r identity h t = ground arith

pub check_signature_identity :
    (cr : Crypto) (now : ℕ) (r : WebRequest) (identity : Text)
    → check_signature cr now r ≡ ok identity
    → identity ≡ r.identity
unfolding check_signature
check_signature_identity cr now r identity h = ground arith

-- At another time within the window the signature is as good.
pub check_signature_at :
    (cr : Crypto) (now now' when : ℕ) (r : WebRequest) (identity : Text)
    → check_signature cr now r ≡ ok identity
    → cr.parse_time r.timestamp ≡ some when
    → drifts now' when ≡ false
    → check_signature cr now' r ≡ ok identity
unfolding check_signature
check_signature_at cr now now' when r identity h t d = ground arith

-- What acceptance means: the signature is good, and the nonce was fresh.
pub verify_request-ok :
    (cr : Crypto) (now : ℕ) (r : WebRequest) (seen : Nonces) (identity : Text)
    → (verify_request cr now r seen).0 ≡ ok identity
    → (check_signature cr now r ≡ ok identity)
      × ((use_nonce now identity r.nonce clock_window seen).0 ≡ true)
      × ((verify_request cr now r seen).1 ≡ (use_nonce now identity r.nonce clock_window seen).1)
unfolding verify_request spend_nonce
verify_request-ok cr now r seen identity h = ground arith

-- What a sequence of calls at given times leaves of the memory of nonces.
pub verify_all : Crypto → List (ℕ × WebRequest) → Nonces → Nonces
verify_all cr [] seen = seen
verify_all cr ((now, r) ∷ more) seen = verify_all cr more (verify_request cr now r seen).1

-- No call comes after a moment.
abbrev pub AreUntil : ℕ → List (ℕ × WebRequest) → Type 0
AreUntil end [] = Unit
AreUntil end ((now, r) ∷ more) = (now ≤ end) × AreUntil end more

pub verify_request_keeps :
    (cr : Crypto) (now : ℕ) (r : WebRequest) (k : Text) (e : ℕ) (seen : Nonces)
    → lookup k seen.seen ≡ some e
    → now < e
    → lookup k (verify_request cr now r seen).1.seen ≡ some e
unfolding verify_request spend_nonce
verify_request_keeps cr now r k e seen h lt = ground (
  arith,
  use_nonce_keeps now r.identity r.nonce clock_window k e seen h lt,
  check_signature_identity cr now r,
)

verify_all_keeps :
    (cr : Crypto) (vs : List (ℕ × WebRequest)) (later : ℕ) (k : Text) (e : ℕ) (seen : Nonces)
    → lookup k seen.seen ≡ some e
    → AreUntil later vs
    → later < e
    → lookup k (verify_all cr vs seen).seen ≡ some e
unfolding verify_all
verify_all_keeps cr [] later k e seen h b lt = h
verify_all_keeps cr ((now, r) ∷ vs) later k e seen h (le, b) lt =
    verify_all_keeps cr vs later k e _ (verify_request_keeps cr now r k e seen h (omega arith)) b lt

-- A nonce that is still held refuses the request.
verify_request_refused :
    (cr : Crypto) (now : ℕ) (r : WebRequest) (seen : Nonces)
    → (use_nonce now r.identity r.nonce clock_window seen).0 ≡ false
    → is_ok (verify_request cr now r seen).0 ≡ false
unfolding verify_request spend_nonce
verify_request_refused cr now r seen h = ground (arith, check_signature_identity cr now r)

verify_request_too_late :
    (cr : Crypto) (now when : ℕ) (r : WebRequest) (seen : Nonces)
    → cr.parse_time r.timestamp ≡ some when
    → drifts now when ≡ true
    → is_ok (verify_request cr now r seen).0 ≡ false
unfolding verify_request check_signature
verify_request_too_late cr now when r seen t d = ground arith

-- Where the spent nonce is held as long as it is recent, an accepted request is refused later.
pub verify_request_after :
    (cr : Crypto) (now when : ℕ) (r : WebRequest) (seen : Nonces) (identity : Text)
    → (verify_request cr now r seen).0 ≡ ok identity
    → cr.parse_time r.timestamp ≡ some when
    → when < now
    → (later : ℕ) (seen' : Nonces)
    → (later < now + clock_window
        → lookup (nonce_key identity r.nonce) seen'.seen ≡ some (now + clock_window))
    → is_ok (verify_request cr later r seen').0 ≡ false
unfolding drifts
verify_request_after cr now when r seen identity h t past later seen' held =
    let parts = verify_request-ok cr now r seen identity h in
    let same = check_signature_identity cr now r identity parts.0 in
    elim (Bool-cases (ltb later (now + clock_window))) [
      | inl soon ↦ verify_request_refused cr later r seen' (
          use_nonce_refused later r.identity r.nonce clock_window (now + clock_window) seen'
            (rw same at (held (ground arith))) (ground arith))
      | inr late ↦ verify_request_too_late cr later when r seen' t (ground arith)
    ]

-- The nonce of an accepted request is recorded.
pub verify_request_records :
    (cr : Crypto) (now : ℕ) (r : WebRequest) (seen : Nonces) (identity : Text)
    → (verify_request cr now r seen).0 ≡ ok identity
    → lookup (nonce_key identity r.nonce) (verify_request cr now r seen).1.seen
      ≡ some (now + clock_window)
verify_request_records cr now r seen identity h =
    let parts = verify_request-ok cr now r seen identity h in
    rw parts.2 (use_nonce_recorded now identity r.nonce clock_window seen parts.1)

-- Once only, whatever happens in between: when a request has been accepted, and the time that it
-- carries was in the past, then it is refused at every later moment, as long as each call in between
-- came no later than that moment.
pub verify_request_once :
    (cr : Crypto) (now when : ℕ) (r : WebRequest) (seen : Nonces) (identity : Text)
    → (verify_request cr now r seen).0 ≡ ok identity
    → cr.parse_time r.timestamp ≡ some when
    → when < now
    → (vs : List (ℕ × WebRequest)) (later : ℕ) → AreUntil later vs
    → is_ok (verify_request cr later r (verify_all cr vs (verify_request cr now r seen).1)).0
      ≡ false
verify_request_once cr now when r seen identity h t past vs later b =
    verify_request_after cr now when r seen identity h t past later _ (λ soon.
      verify_all_keeps cr vs later _ (now + clock_window) _
        (verify_request_records cr now r seen identity h) b soon)

pub verify_request_accepts :
    (cr : Crypto) (now : ℕ) (r : WebRequest) (seen : Nonces) (identity : Text)
    → check_signature cr now r ≡ ok identity
    → (use_nonce now identity r.nonce clock_window seen).0 ≡ true
    → (verify_request cr now r seen).0 ≡ ok identity
unfolding verify_request spend_nonce
verify_request_accepts cr now r seen identity good fresh = ground arith

-- A nonce that has just expired is fresh again.
use_nonce_expired :
    (identity nonce : Text) (later : ℕ) (seen : Nonces)
    → lookup (nonce_key identity nonce) seen.seen ≡ some later
    → (use_nonce later identity nonce clock_window seen).0 ≡ true
unfolding use_nonce spend
use_nonce_expired identity nonce later seen h =
    ground
      (arith, lookup-tidy later clock_window (nonce_key identity nonce) later seen h (omega arith))

-- Twice: when a request has been accepted, and the time that it carries was not in the past, then
-- the same request is accepted again one window later, though its nonce has been spent: the nonce
-- is forgotten while the request is still recent.
pub verify_request_twice :
    (cr : Crypto) (now when : ℕ) (r : WebRequest) (seen : Nonces) (identity : Text)
    → (verify_request cr now r seen).0 ≡ ok identity
    → cr.parse_time r.timestamp ≡ some when
    → now ≤ when
    → (verify_request cr (now + clock_window) r (verify_request cr now r seen).1).0 ≡ ok identity
unfolding drifts
verify_request_twice cr now when r seen identity h t future =
    let parts = verify_request-ok cr now r seen identity h in
    let later = now + clock_window in
    let in_time = check_signature_in_time cr now when r identity parts.0 t in
    let again = check_signature_at cr now later when r identity parts.0 t (ground arith) in
    let held = use_nonce_recorded now identity r.nonce clock_window seen parts.1 in
    verify_request_accepts cr later r _ identity again
      (use_nonce_expired identity r.nonce later _ (rw parts.2 held))
