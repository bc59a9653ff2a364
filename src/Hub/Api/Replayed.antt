-- ===== src/Hub/Api/Replayed.antt =====
-- internal/hub/api.go and internal/wrak/identity.go: a request that comes again.
use robi_net.Base.{
  ℕ, ◌≤◌, ◌<◌, ◌≡◌, refl, ap, ◌∙◌, Bool, true, false, List, [], ◌∷◌, some, Text, lookup, equal,
  Option-cases, Bool-cases, inl, inr, arith,
}
use robi_net.Result.{ok, is_ok, Result-cases}
use robi_net.Wrak.{WebRequest, verify_request}
use robi_net.Wrak.Window.{verify_request_keeps, verify_request_after, verify_request_records}
use robi_net.Hub.Types.{Instance}
use robi_net.Hub.Store.{Registration, identity_of, resolve, member_of}
use robi_net.Hub.Api.{World, Daemon, Reply}
use robi_net.Hub.Api.Auth.{
  read_body, signed, known, owner_only, member_only, as_owner, as_member, unauthorized,
}
use robi_net.Hub.Api.Owners.{owner_handler}
use robi_net.Hub.Api.Machines.{
  handle_create_instance, handle_list_instances, handle_join, handle_join_result, handle_members,
  handle_routes,
}
use robi_net.Hub.Api.Serve.{
  Call, healthz, register, create_instance, list_instances, owned, join, join_result, members,
  routes, enroll, result, serve, serve_all,
}
use robi_net.Hub.Api.Access.{with_nonces}
use robi_net.Hub.Api.Spent.{
  owner_handler-nonces, handle_register-nonces, handle_enroll-nonces, handle_create_instance-nonces,
  handle_join-nonces, handle_join_result-nonces, handle_members-nonces, handle_result-nonces,
}

abbrev Handler : Type 0
Handler = WebRequest → Registration → Daemon → Reply × Daemon

abbrev LeavesNonces : Handler → Type 0
LeavesNonces next =
    (r : WebRequest) (who : Registration) (d : Daemon) → (next r who d).1.nonces ≡ d.nonces

as_owner-nonces :
    (next : WebRequest → Instance → Daemon → Reply × Daemon) (ref : Text)
    → ((r : WebRequest) (inst : Instance) (d : Daemon) → (next r inst d).1.nonces ≡ d.nonces)
    → LeavesNonces (as_owner next ref)
unfolding as_owner
as_owner-nonces next ref h r who d = elim (Result-cases (resolve ref d.store)) [
  | inl (_, e) ↦ rw (e, as_owner) refl
  | inr (inst, e) ↦ elim (Bool-cases (equal who.identity inst.owner)) [
    | inl f ↦ rw (e, as_owner, f) (h r inst d)
    | inr f ↦ rw (e, as_owner, f) refl
  ]
]

as_member-nonces :
    (next : Instance → Daemon → Reply × Daemon) (ref : Text)
    → ((inst : Instance) (d : Daemon) → (next inst d).1.nonces ≡ d.nonces)
    → LeavesNonces (as_member next ref)
unfolding as_member
as_member-nonces next ref h r who d = elim (Result-cases (resolve ref d.store)) [
  | inl (_, e) ↦ rw (e, as_member) refl
  | inr (inst, e) ↦ elim (Option-cases (member_of who.identity inst)) [
    | inl f ↦ rw (e, as_member, f) refl
    | inr (m, f) ↦ rw (e, as_member, f) (h inst d)
  ]
]

-- Whether a call has to be signed.
abbrev pub needs_signature : Call → Bool
needs_signature healthz = false
needs_signature register = false
needs_signature (enroll ref) = false
needs_signature (result ref rid) = false
needs_signature _ = true

-- What stands behind the signature of a call that needs one.
abbrev Behind : World → Call → Type 0
Behind w c =
    (next : Handler) × ((r : WebRequest) (d : Daemon) → serve w c r d ≡ signed w next r d)
    × LeavesNonces next

behind : (w : World) (c : Call) → needs_signature c ≡ true → Behind w c
unfolding serve owner_only member_only handle_list_instances handle_routes
behind w create_instance h =
    (handle_create_instance w, (λ r d. refl), handle_create_instance-nonces w)
behind w list_instances h = ((λ _. handle_list_instances w), (λ r d. refl), (λ r who d. refl))
behind w (owned ref call) h = (
  as_owner (owner_handler w call) ref,
  (λ r d. refl),
  as_owner-nonces (owner_handler w call) ref (λ r inst d. owner_handler-nonces w inst d call r),
)
behind w (join ref) h = (handle_join w ref, (λ r d. refl), handle_join-nonces w ref)
behind w (join_result ref) h =
    ((λ _. handle_join_result ref), (λ r d. refl), (λ r who d. handle_join_result-nonces ref who d))
behind w (members ref) h = (
  as_member handle_members ref,
  (λ r d. refl),
  as_member-nonces handle_members ref handle_members-nonces,
)
behind w (routes ref) h = (
  as_member (handle_routes w) ref,
  (λ r d. refl),
  as_member-nonces (handle_routes w) ref (λ inst d. refl),
)
behind w healthz h = absurd (ground arith)
behind w register h = absurd (ground arith)
behind w (enroll ref) h = absurd (ground arith)
behind w (result ref rid) h = absurd (ground arith)

-- What a signed call does to the memory of nonces.
signed-nonces :
    (w : World) (next : Handler) (r r' : WebRequest) (d : Daemon)
    → LeavesNonces next
    → read_body w r ≡ some r'
    → (signed w next r d).1.nonces ≡ (verify_request w.crypto w.now r' d.nonces).1
unfolding signed known
signed-nonces w next r r' d leaves e =
    elim (Result-cases (verify_request w.crypto w.now r' d.nonces).0) [
      | inl (_, f) ↦ rw (e, signed, f) refl
      | inr (identity, f) ↦ elim (Result-cases (identity_of identity d.store)) [
        | inl (_, g) ↦ rw (e, signed, f, known, g) refl
        | inr (who, g) ↦ rw (e, signed, f, known, g) (leaves r' who _)
      ]
    ]

-- And with a request that does not verify.
signed-refused :
    (w : World) (next : Handler) (r r' : WebRequest) (d : Daemon)
    → read_body w r ≡ some r'
    → is_ok (verify_request w.crypto w.now r' d.nonces).0 ≡ false
    → signed w next r d ≡ (unauthorized, with_nonces w r' d)
unfolding signed
signed-refused w next r r' d e h =
    elim (Result-cases (verify_request w.crypto w.now r' d.nonces).0) [
      | inl (_, f) ↦ rw (e, signed, f) refl
      | inr (_, f) ↦ absurd (ground arith)
    ]

signed-holds :
    (w : World) (c : Call)
    → needs_signature c ≡ true
    → (r : WebRequest) (d : Daemon) (k : Text) (e : ℕ) → lookup k d.nonces.seen ≡ some e
    → w.now < e
    → lookup k (serve w c r d).1.nonces.seen ≡ some e
unfolding signed
signed-holds w c needs r d k e held early =
    let b = behind w c needs in
    let same = ap (λ (result : Reply × Daemon). result.1.nonces) (b.1 r d) in
    elim (Option-cases (read_body w r)) [
      | inl f ↦ rw (b.1 r d, f, signed) held
      | inr (r', f) ↦
          rw (same, signed-nonces w b.0 r r' d b.2 f)
            (verify_request_keeps w.crypto w.now r' k e d.nonces held early)
    ]

-- A nonce that is held stays held through any call before it expires.
serve-holds :
    (w : World) (c : Call) (r : WebRequest) (d : Daemon) (k : Text) (e : ℕ)
    → lookup k d.nonces.seen ≡ some e
    → w.now < e
    → lookup k (serve w c r d).1.nonces.seen ≡ some e
unfolding serve
serve-holds w healthz r d k e held early = held
serve-holds w register r d k e held early = rw (handle_register-nonces w r d) held
serve-holds w (enroll ref) r d k e held early = rw (handle_enroll-nonces w ref r d) held
serve-holds w (result ref rid) r d k e held early = rw (handle_result-nonces ref rid d) held
serve-holds w create_instance r d k e held early =
    signed-holds w create_instance refl r d k e held early
serve-holds w list_instances r d k e held early =
    signed-holds w list_instances refl r d k e held early
serve-holds w (owned ref call) r d k e held early =
    signed-holds w (owned ref call) refl r d k e held early
serve-holds w (join ref) r d k e held early = signed-holds w (join ref) refl r d k e held early
serve-holds w (join_result ref) r d k e held early =
    signed-holds w (join_result ref) refl r d k e held early
serve-holds w (members ref) r d k e held early =
    signed-holds w (members ref) refl r d k e held early
serve-holds w (routes ref) r d k e held early = signed-holds w (routes ref) refl r d k e held early

-- Every call comes no later than a moment.
abbrev pub ComeUntil : ℕ → List (World × Call × WebRequest) → Type 0
ComeUntil end [] = Unit
ComeUntil end ((w, c, r) ∷ more) = (w.now ≤ end) × ComeUntil end more

serve_all-holds :
    (calls : List (World × Call × WebRequest)) (later : ℕ) (d : Daemon) (k : Text) (e : ℕ)
    → lookup k d.nonces.seen ≡ some e
    → ComeUntil later calls
    → later < e
    → lookup k (serve_all calls d).nonces.seen ≡ some e
unfolding serve_all
serve_all-holds [] later d k e held until early = held
serve_all-holds ((w, c, r) ∷ more) later d k e held (le, until) early =
    serve_all-holds more later _ k e (serve-holds w c r d k e held (omega arith)) until early

-- A request is served once: when a call that has to be signed came with a request that verified, and
-- the time that the request carries was in the past, then any call that has to be signed and comes
-- later with the same request, whatever other calls came in between up to that moment, is answered
-- with 401 and changes nothing but the memory of nonces.
pub serve-once :
    (w : World) (c : Call) (r r' : WebRequest) (d : Daemon) (identity : Text) (when : ℕ)
    → needs_signature c ≡ true
    → read_body w r ≡ some r'
    → (verify_request w.crypto w.now r' d.nonces).0 ≡ ok identity
    → w.crypto.parse_time r'.timestamp ≡ some when
    → when < w.now
    → (calls : List (World × Call × WebRequest)) → (w' : World) (c' : Call)
    → needs_signature c' ≡ true
    → w'.crypto ≡ w.crypto
    → read_body w' r ≡ some r'
    → ComeUntil w'.now calls
    → let d' = serve_all calls (serve w c r d).1 in
      serve w' c' r d' ≡ (unauthorized, with_nonces w' r' d')
serve-once w c r r' d identity when needs read verified time past calls w' c' needs' same read'
      until =
    let d' = serve_all calls (serve w c r d).1 in
    let first = behind w c needs in
    let second = behind w' c' needs' in
    let after =
      ap (λ (result : Reply × Daemon). result.1.nonces) (first.1 r d)
      ∙ signed-nonces w first.0 r r' d first.2 read in
    let recorded = verify_request_records w.crypto w.now r' d.nonces identity verified in
    let refused : is_ok (verify_request w'.crypto w'.now r' d'.nonces).0 ≡ false = rw same (
      verify_request_after w.crypto w.now when r' d.nonces identity verified time past w'.now
        d'.nonces
        (λ soon.
          serve_all-holds calls w'.now (serve w c r d).1 _ _ (rw after recorded) until soon)) in
    second.1 r d' ∙ signed-refused w' second.0 r r' d' read' refused
