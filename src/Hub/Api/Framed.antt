-- ===== src/Hub/Api/Framed.antt =====
-- internal/hub/api.go and hub.go: the instance that an operation works on.
use robi_net.Base.{
  ℕ, List, ◌≡◌, ◌⊎◌, refl, ◌∙◌, Bool, ◌&&◌, Text, lookup, Bool-cases, Option, none, some,
  Option-cases, values, is_empty, ltb, length, inl, inr, arith,
}
use robi_net.Result.{Result, ok, err, Error, Result-cases}
use robi_net.Enroll.{Platform, validate}
use robi_net.Wrak.{WebRequest}
use robi_net.Hub.Types.{Instance, Request, Decision}
use robi_net.Hub.Store.{Store, resolve, update, add, get}
use robi_net.Hub.Store.Laws.{AreKeyed}
use robi_net.Hub.Store.Frame.{
  IsSameBut, IsSameBut-refl, update-IsSameBut, remove-IsSameBut, add-IsSameBut,
}
use robi_net.Hub.Admission.{
  Applicant, is_tenant, enroll_in, name_request, owns_target, enroll_valid, enroll,
}
use robi_net.Hub.Decision.{decide}
use robi_net.Hub.Ban.{apply_blocklist, ban_member, unban_member, remove_member, set_shared_token}
use robi_net.Hub.Create.{Order, plan_instance, new_instance, create_instance, delete, activate_in}
use robi_net.Hub.Api.{
  World, Daemon, Reply, LighthouseRequest, BanRequest, TokenRequest, activate_instance, bring_up,
}
use robi_net.Hub.Api.Owners.{
  OwnerCall, lighthouse, pending, ban, unban, token, delete_instance, decide_request,
  forget_request, remove_a_member, no_content, delete_hub, handle_lighthouse, handle_pending,
  handle_decision, handle_forget, handle_ban, handle_unban, handle_set_token, handle_remove_member,
  handle_delete_instance, owner_handler, forget,
}
use robi_net.Hub.Api.Auth.{decode}
use robi_net.Hub.Routes.{pending_of}

-- What an enrollment changes is in the instance that the reference finds.
abbrev pub IsNamed : Text → Store → Store → Type 0
IsNamed ref s later =
    (later ≡ s) ⊎ ((inst : Instance) × (resolve ref s ≡ ok inst) × IsSameBut inst.id s later)

enroll_valid-IsNamed :
    (pl : Platform) (writable : Bool) (id : Text) (now : ℕ) (ref : Text) (req : Request)
    (who : Applicant) (s : Store)
    → IsNamed ref s (enroll_valid pl writable id now ref req who s).1
unfolding enroll_valid
enroll_valid-IsNamed pl writable id now ref req who s = elim (Bool-cases (owns_target ref who s)) [
  | inl e ↦ rw (e, enroll_valid) (inl refl)
  | inr e ↦ elim (Bool-cases (is_tenant who.kind && ltb 0 (length (name_request who req).routes))) [
    | inl f ↦ rw (e, enroll_valid, f) (inl refl)
    | inr f ↦ elim (Result-cases (resolve ref s)) [
      | inl (_, g) ↦ rw (e, enroll_valid, f, g) (inl refl)
      | inr (target, g) ↦
          rw (e, enroll_valid, f, g)
            (inr (
              target,
              refl,
              update-IsSameBut writable target.id (enroll_in pl id now (name_request who req) who)
                  s,
            ))
    ]
  ]
]

pub enroll-IsNamed :
    (pl : Platform) (writable : Bool) (id : Text) (now : ℕ) (ref : Text) (req : Request)
    (who : Applicant) (s : Store)
    → IsNamed ref s (enroll pl writable id now ref req who s).1
unfolding enroll
enroll-IsNamed pl writable id now ref req who s = elim (Result-cases (validate req)) [
  | inl (_, e) ↦ rw (e, enroll) (inl refl)
  | inr (req', e) ↦ rw (e, enroll) (enroll_valid-IsNamed pl writable id now ref req' who s)
]

create_id :
    (w : World) (o : Order) (is : List Instance) (inst : Instance)
    → plan_instance w.config o is ≡ ok inst
    → inst.id ≡ o.id
unfolding plan_instance new_instance
create_id w o is inst h = ground arith

IsSameBut-moved : {a b : Text} {s t : Store} → a ≡ b → IsSameBut a s t → IsSameBut b s t
IsSameBut-moved e h = record {
  identities = h.identities;
  others = λ j ne. h.others j (λ g. ne (g ∙ e));
}

bring_up-store : (starts : Bool) (id : Text) (d : Daemon) → (bring_up starts id d).1.store ≡ d.store
unfolding bring_up
bring_up-store starts id d = ground arith

pub create_instance-IsSameBut :
    (w : World) (o : Order) (s : Store)
    → IsSameBut o.id s (create_instance w.config w.writable o s).1
unfolding create_instance
create_instance-IsSameBut w o s =
    elim (Result-cases (plan_instance w.config o (values s.state.instances))) [
      | inl (_, e) ↦ rw (e, create_instance) (IsSameBut-refl o.id s)
      | inr (inst, e) ↦
          let framed =
            IsSameBut-moved (create_id w o (values s.state.instances) inst e)
              (add-IsSameBut w.writable inst s) in
          elim (Result-cases (add w.writable inst s).0) [
            | inl (_, f) ↦ rw (e, create_instance, f) framed
            | inr (_, f) ↦ rw (e, create_instance, f) framed
          ]
    ]

-- Each of an owner's calls changes at most the instance that it was let through for.
module _ (w : World) (inst : Instance) (d : Daemon) (keyed : AreKeyed d.store.state.instances) where
  abbrev pub Framed : Reply × Daemon → Type 0
  Framed result = IsSameBut inst.id d.store result.1.store

  no_content-Framed :
      (failed : Error → Reply) (result : Result (Unit {0}) × Store)
      → IsSameBut inst.id d.store result.1
      → Framed (no_content failed d result)
  unfolding no_content
  no_content-Framed failed (err e, s) h = h
  no_content-Framed failed (ok _, s) h = h

  apply_blocklist-Framed :
      (reloads : Bool) (result : Result (Unit {0}) × Store)
      → IsSameBut inst.id d.store result.1
      → IsSameBut inst.id d.store (apply_blocklist reloads result).1
  unfolding apply_blocklist
  apply_blocklist-Framed reloads (err e, s) h = h
  apply_blocklist-Framed reloads (ok _, s) h = h

  decode-Framed :
      {A : Type 0} (o : Option A) (next : A → Reply × Daemon)
      → ((a : A) → Framed (next a))
      → Framed (decode o d next)
  unfolding decode
  decode-Framed none next h = IsSameBut-refl inst.id d.store
  decode-Framed (some a) next h = h a

  activate-Framed :
      (ca cert : Text) → IsSameBut inst.id d.store (activate_instance w inst.id ca cert d).1.store
  unfolding activate_instance
  activate-Framed ca cert =
      let framed = update-IsSameBut w.writable inst.id (activate_in ca cert) d.store in
      elim (Result-cases (update w.writable inst.id (activate_in ca cert) d.store).0) [
        | inl (_, e) ↦ rw (e, activate_instance) framed
        | inr (_, e) ↦ rw (e, activate_instance, bring_up-store w.starts inst.id _) framed
      ]

  lighthouse-Framed : (r : WebRequest) → Framed (handle_lighthouse w r inst d)
  unfolding handle_lighthouse
  lighthouse-Framed r =
      decode-Framed (w.parse_json.lighthouse r.body) _ (λ (req : LighthouseRequest).
        elim (Result-cases (activate_instance w inst.id req.ca req.certificate d).0) [
          | inl (_, e) ↦ rw e (activate-Framed req.ca req.certificate)
          | inr (_, e) ↦ rw e (activate-Framed req.ca req.certificate)
        ])

  pending-Framed : (r : WebRequest) → Framed (handle_pending r inst d)
  unfolding handle_pending
  pending-Framed r = elim (Result-cases (pending_of inst.id d.store)) [
    | inl (_, e) ↦ rw (e, handle_pending) (IsSameBut-refl inst.id d.store)
    | inr (_, e) ↦ rw (e, handle_pending) (IsSameBut-refl inst.id d.store)
  ]

  token-Framed :
      (fresh : Text)
      → IsSameBut inst.id d.store (set_shared_token w.writable inst.id fresh d.store).1
  unfolding set_shared_token
  token-Framed fresh = elim (Bool-cases (is_empty fresh)) [
    | inl e ↦ rw (e, set_shared_token) (IsSameBut-refl inst.id d.store)
    | inr e ↦ rw (e, set_shared_token) (update-IsSameBut w.writable inst.id _ d.store)
  ]

  delete-Framed : IsSameBut inst.id d.store (delete w.writable inst.id d.store).1
  unfolding delete get
  delete-Framed = elim (Option-cases (lookup inst.id d.store.state.instances)) [
    | inl e ↦ rw (e, delete, get) (IsSameBut-refl inst.id d.store)
    | inr (i, e) ↦
        rw (e, delete, get)
          (IsSameBut-moved (keyed inst.id i e) (remove-IsSameBut w.writable i.id d.store))
  ]

  remove_member-Framed :
      (ref : Text) (r : WebRequest) → Framed (handle_remove_member w ref r inst d)
  unfolding handle_remove_member remove_member
  remove_member-Framed ref r =
      elim (Result-cases (remove_member w.writable inst.id ref d.store).0) [
        | inl (_, e) ↦ rw (e, handle_remove_member) (update-IsSameBut w.writable inst.id _ d.store)
        | inr (_, e) ↦ rw (e, handle_remove_member) (update-IsSameBut w.writable inst.id _ d.store)
      ]

  delete_hub-Framed : IsSameBut inst.id d.store (delete_hub w.writable inst.id d).1.store
  unfolding delete_hub
  delete_hub-Framed = elim (Result-cases (get inst.id d.store)) [
    | inl (_, e) ↦ rw (e, delete_hub) (IsSameBut-refl inst.id d.store)
    | inr (_, e) ↦ rw (e, delete_hub) delete-Framed
  ]

  delete_instance-Framed : (r : WebRequest) → Framed (handle_delete_instance w r inst d)
  unfolding handle_delete_instance
  delete_instance-Framed r = elim (Result-cases (delete_hub w.writable inst.id d).0) [
    | inl (_, e) ↦ rw (e, handle_delete_instance) delete_hub-Framed
    | inr (_, e) ↦ rw (e, handle_delete_instance) delete_hub-Framed
  ]

  pub owner_handler-Framed :
      (call : OwnerCall) (r : WebRequest) → Framed (owner_handler w call r inst d)
  unfolding owner_handler handle_decision handle_forget handle_ban handle_unban handle_set_token
      decide forget ban_member unban_member
  owner_handler-Framed lighthouse r = lighthouse-Framed r
  owner_handler-Framed pending r = pending-Framed r
  owner_handler-Framed ban r = decode-Framed (w.parse_json.ban r.body) _ (λ (req : BanRequest).
      no_content-Framed _ _
        (apply_blocklist-Framed _ _ (update-IsSameBut w.writable inst.id _ d.store)))
  owner_handler-Framed unban r = decode-Framed (w.parse_json.ban r.body) _ (λ (req : BanRequest).
      no_content-Framed _ _
        (apply_blocklist-Framed _ _ (update-IsSameBut w.writable inst.id _ d.store)))
  owner_handler-Framed token r =
      decode-Framed (w.parse_json.token r.body) _
        (λ (req : TokenRequest). no_content-Framed _ _ (token-Framed req.shared_token))
  owner_handler-Framed delete_instance r = delete_instance-Framed r
  owner_handler-Framed (decide_request rid) r =
      decode-Framed (w.parse_json.decision r.body) _
        (λ (req : Decision). no_content-Framed _ _ (update-IsSameBut w.writable inst.id _ d.store))
  owner_handler-Framed (forget_request rid) r =
      no_content-Framed _ _ (update-IsSameBut w.writable inst.id _ d.store)
  owner_handler-Framed (remove_a_member ref) r = remove_member-Framed ref r
