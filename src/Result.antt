-- ===== src/Result.antt =====
-- Errors as values: what the hub's functions return beside a value.
use robi_net.Base.{◌≡◌, ◌⊎◌, inl, inr, refl, Bool, true, false}

-- One constructor for each message of the source; the text that a message quotes is left out.
pub data Error : Type 0 where
  -- ErrNotFound, ErrAmbiguous, ErrPoolExhausted
  not_found ambiguous pool_exhausted : Error
  -- address pools and ports
  invalid_prefix no_overlay_pool size_does_not_fit pools_full no_free_port : Error
  -- a walk that ran out of the fuel that the model gives it
  out_of_fuel : Error
  -- names and domains
  name_required name_too_long name_hyphen name_character name_is_id : Error
  domain_empty domain_too_long label_empty label_too_long label_hyphen label_character : Error
  -- enrollment
  key_missing too_many_routes invalid_route route_not_masked too_many_hints : Error
  owner_already_in tenant_announces_routes bad_mac key_was_removed : Error
  -- decisions about requests and members
  certificate_required name_taken unknown_decision : Error
  already_banned not_banned owner_cannot_be_removed token_required : Error
  instance_exists instance_name_taken certificates_required : Error
  -- signatures of requests
  not_signed identity_prefix identity_malformed identity_size bad_timestamp : Error
  clock_drift bad_signature_text bad_signature nonce_used : Error
  -- signatures of ssh keys
  not_armored wrong_pem_type malformed_signature bad_preamble bad_version : Error
  wrong_namespace malformed_key unsupported_hash key_not_authorized cannot_sign : Error
  -- the configuration
  pool_without_length bad_pool bad_size pools_overlap no_ipv4_pool bad_entrypoint : Error
  bad_port_range bad_key binder_without_name binder_twice binder_without_keys : Error
  shared_key endpoint_required endpoint_not_bare no_binders : Error
  -- what the hub starts on
  invalid_ports pool_required : Error
  -- a machine's daemon
  not_owned cannot_carry approved_without_certificate refused still_pending : Error
  connection_gone bad_choice unknown_cheat : Error
  -- the state file could not be written; no key could be generated
  save_failed no_key : Error
  -- recorded, but the lighthouse did not take the new blocklist
  lighthouse_failed : Error

-- A value and a nil error, or an error.
pub data Result {ℓ} (V : Type ℓ) : Type ℓ where
  err : Error → Result V
  ok : V → Result V

-- `err == nil`
abbrev pub is_ok {ℓ} : {V : Type ℓ} → Result V → Bool
is_ok (err failure) = false
is_ok (ok value) = true

-- The early return of an error, and what follows it.
infixl 5 ◌>>=◌
abbrev pub ◌>>=◌ {ℓ κ} : {V : Type ℓ} {W : Type κ} → Result V → (V → Result W) → Result W
err failure >>= k = err failure
ok value >>= k = k value

pub >>=-eq-ok {ℓ κ} :
    {V : Type ℓ} {W : Type κ} (m : Result V) (k : V → Result W) {b : W}
    → (m >>= k) ≡ ok b
    → (v : V) × (m ≡ ok v) × (k v ≡ ok b)
>>=-eq-ok (ok v) k h = (v, refl, h)
>>=-eq-ok (err failure) k h = cc

pub Result-cases {ℓ} :
    {V : Type ℓ} (m : Result V) → ((e : Error) × (m ≡ err e)) ⊎ ((v : V) × (m ≡ ok v))
Result-cases (err e) = inl (e, refl)
Result-cases (ok v) = inr (v, refl)

pub ok_inj {ℓ} : {V : Type ℓ} {a b : V} → ok a ≡ ok b → a ≡ b
ok_inj h = cc
