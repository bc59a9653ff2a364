-- ===== src/Hub/Api/Access.antt =====
-- internal/hub/api.go: who is let through, and what a refusal leaves.
use robi_net.Base.{
  ◌||◌, ◌==◌, ◌≡◌, ◌⊎◌, refl, Bool, true, false, some, Text, runes, equal, equal_iff, Bool-cases,
  Option-cases, inl, inr,
}
use robi_net.Result.{ok, Result-cases}
use robi_net.Wrak.{WebRequest, verify_request}
use robi_net.Hub.Types.{Instance, Member}
use robi_net.Hub.Store.{Registration, identity_of, resolve, member_of}
use robi_net.Hub.Api.{World, Daemon, Reply, failure, json, route_table, bad_request}
use robi_net.Hub.Api.Auth.{
  read_body, known, signed, as_owner, owner_only, as_member, member_only, unauthorized,
}
use robi_net.Hub.Api.Owners.{OwnerCall, owner_handler}
use robi_net.Hub.Api.Machines.{handle_routes}
use robi_net.Hub.Routes.{route_table_of}
use robi_net.Hub.Api.Serve.{owned, routes, serve}

-- A request that a registered machine signed and that is new to the hub.
pub record IsSigned (w : World) (r : WebRequest) (d : Daemon) (r' : WebRequest) (who : Registration)
    : Type 0 where
  pub identity : Text
  pub read : read_body w r ≡ some r'
  pub verified : (verify_request w.crypto w.now r' d.nonces).0 ≡ ok identity
  pub registered : identity_of identity d.store ≡ ok who

-- The memory of nonces that a request leaves.
abbrev pub with_nonces : World → WebRequest → Daemon → Daemon
with_nonces w r' d = record d { nonces = (verify_request w.crypto w.now r' d.nonces).1 }

module _ {ℓ} (P : Reply × Daemon → Type ℓ) (w : World) (r : WebRequest) (d : Daemon) where
  pub signed_cases :
      (next : WebRequest → Registration → Daemon → Reply × Daemon)
      → P (bad_request, d)
      → ((r' : WebRequest) → P (unauthorized, with_nonces w r' d))
      → ((r' : WebRequest) (who : Registration)
          → IsSigned w r d r' who
          → P (next r' who (with_nonces w r' d)))
      → P (signed w next r d)
  unfolding signed known
  signed_cases next bad out through = elim (Option-cases (read_body w r)) [
    | inl e ↦ rw (e, signed) bad
    | inr (r', e) ↦ elim (Result-cases (verify_request w.crypto w.now r' d.nonces).0) [
      | inl (f, g) ↦ rw (e, signed, g) (out r')
      | inr (identity, g) ↦ elim (Result-cases (identity_of identity d.store)) [
        | inl (f, h) ↦ rw (e, signed, g, known, h) (out r')
        | inr (who, h) ↦
            rw (e, signed, g, known, h)
              (through r' who
                (record { identity = identity; read = e; verified = g; registered = h }))
      ]
    ]
  ]

  pub as_owner_cases :
      (next : WebRequest → Instance → Daemon → Reply × Daemon) (ref : Text) (who : Registration)
      → P (failure 404 (runes "not_found"), d)
      → P (failure 403 (runes "forbidden"), d)
      → ((inst : Instance)
          → resolve ref d.store ≡ ok inst
          → who.identity ≡ inst.owner
          → P (next r inst d))
      → P (as_owner next ref r who d)
  unfolding as_owner
  as_owner_cases next ref who missing other through = elim (Result-cases (resolve ref d.store)) [
    | inl (f, e) ↦ rw (e, as_owner) missing
    | inr (inst, e) ↦ elim (Bool-cases (equal who.identity inst.owner)) [
      | inl g ↦ rw (e, as_owner, g) (through inst e ((equal_iff who.identity inst.owner).0 g))
      | inr g ↦ rw (e, as_owner, g) other
    ]
  ]

  pub as_member_cases :
      (next : Instance → Daemon → Reply × Daemon) (ref : Text) (who : Registration)
      → P (failure 404 (runes "not_found"), d)
      → P (failure 403 (runes "forbidden"), d)
      → ((inst : Instance) (m : Member)
          → resolve ref d.store ≡ ok inst
          → member_of who.identity inst ≡ some m
          → P (next inst d))
      → P (as_member next ref r who d)
  unfolding as_member
  as_member_cases next ref who missing other through = elim (Result-cases (resolve ref d.store)) [
    | inl (f, e) ↦ rw (e, as_member) missing
    | inr (inst, e) ↦ elim (Option-cases (member_of who.identity inst)) [
      | inl g ↦ rw (e, as_member, g) other
      | inr (m, g) ↦ rw (e, as_member, g) (through inst m e g)
    ]
  ]

-- One of the refusals in front of a handler.
abbrev pub is_refusal : Reply → Bool
is_refusal (failure status code) = status == 400 || status == 401 || status == 403 || status == 404
is_refusal _ = false

-- That the owner of the instance that a reference finds has signed the request.
pub record IsOwners (w : World) (ref : Text) (r : WebRequest) (d : Daemon) (r' : WebRequest)
    (inst : Instance) : Type 0 where
  pub who : Registration
  pub signed : IsSigned w r d r' who
  pub resolved : resolve ref d.store ≡ ok inst
  pub owns : who.identity ≡ inst.owner

-- That the request was turned away, and nothing but the memory of nonces may have changed.
abbrev pub IsTurnedAway : Daemon → Reply × Daemon → Type 0
IsTurnedAway d (reply, d') =
    (is_refusal reply ≡ true)
    × (d'.store ≡ d.store)
    × (d'.limiter ≡ d.limiter)
    × (d'.running ≡ d.running)

-- That the handler ran for the owner, on what the signature left.
abbrev pub IsOwnersRun : World → Text → OwnerCall → WebRequest → Daemon → Reply × Daemon → Type 0
IsOwnersRun w ref call r d result =
    (r' : WebRequest) × (inst : Instance) × IsOwners w ref r d r' inst
    × (result ≡ owner_handler w call r' inst (with_nonces w r' d))

-- Only the owner decides: a call of an owner's endpoint is turned away, with status 400, 401, 403 or
-- 404, and changes neither the store nor the limiter nor what runs; or else a machine that is
-- registered, and that owns the instance that the reference finds, has signed the request, and the
-- answer is that of the handler on this instance.
pub owned-IsOwners :
    (w : World) (ref : Text) (call : OwnerCall) (r : WebRequest) (d : Daemon)
    → IsTurnedAway d (serve w (owned ref call) r d)
      ⊎ IsOwnersRun w ref call r d (serve w (owned ref call) r d)
unfolding serve owner_only
owned-IsOwners w ref call r d =
    let goal : Reply × Daemon → Type 0 =
      λ result. IsTurnedAway d result ⊎ IsOwnersRun w ref call r d result in
    signed_cases goal w r d (as_owner (owner_handler w call) ref) (inl (refl, refl, refl, refl))
      (λ r'. inl (refl, refl, refl, refl))
      (λ r' who good.
        as_owner_cases goal w r' (with_nonces w r' d) (owner_handler w call) ref who
          (inl (refl, refl, refl, refl)) (inl (refl, refl, refl, refl))
          (λ inst found own.
            inr
              (r', inst, record { who = who; signed = good; resolved = found; owns = own }, refl)))

-- That a member of the instance has signed the request.
pub record IsMembers (w : World) (ref : Text) (r : WebRequest) (d : Daemon) (r' : WebRequest)
    (inst : Instance) : Type 0 where
  pub who : Registration
  pub member : Member
  pub signed : IsSigned w r d r' who
  pub resolved : resolve ref d.store ≡ ok inst
  pub belongs : member_of who.identity inst ≡ some member

abbrev pub IsMembersRead : World → Text → WebRequest → Daemon → Reply × Daemon → Type 0
IsMembersRead w ref r d result =
    (r' : WebRequest) × (inst : Instance) × IsMembers w ref r d r' inst
    × (result
        ≡ (json 200 (route_table (route_table_of w.platform w.config inst)), with_nonces w r' d))

-- Only those who belong read the routes: a call for the route table is turned away, or a registered
-- machine has signed it that is a member of the instance and not banned, or its owner; the answer is
-- then the table of that instance. Neither changes the store, the limiter or what runs.
pub routes-IsMembers :
    (w : World) (ref : Text) (r : WebRequest) (d : Daemon)
    → IsTurnedAway d (serve w (routes ref) r d) ⊎ IsMembersRead w ref r d (serve w (routes ref) r d)
unfolding serve member_only handle_routes
routes-IsMembers w ref r d =
    let goal : Reply × Daemon → Type 0 =
      λ result. IsTurnedAway d result ⊎ IsMembersRead w ref r d result in
    signed_cases goal w r d (as_member (handle_routes w) ref) (inl (refl, refl, refl, refl))
      (λ r'. inl (refl, refl, refl, refl))
      (λ r' who good.
        as_member_cases goal w r' (with_nonces w r' d) (handle_routes w) ref who
          (inl (refl, refl, refl, refl)) (inl (refl, refl, refl, refl))
          (λ inst m found own. inr (
            r',
            inst,
            record { who = who; member = m; signed = good; resolved = found; belongs = own },
            refl,
          )))
