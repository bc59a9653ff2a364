-- ===== src/Hub/Api/Stays.antt =====
-- internal/hub/api.go: what a handler leaves under the id of an instance.
use robi_net.Base.{
  ℕ, is_empty, ◌≡◌, refl, sym, ap, ◌∙◌, Bool-cases, Bool, true, false, Text, lookup, Option, none,
  some, Option-cases, inl, inr, arith,
}
use robi_net.Result.{ok, Result-cases}
use robi_net.Strings.{trim_space}
use robi_net.Wrak.{WebRequest, parse_public_identity}
use robi_net.Hub.Types.{Instance, Request}
use robi_net.Hub.Store.{Store, Registration, save, resolve}
use robi_net.Hub.Store as Store
use robi_net.Hub.Create as Create
use robi_net.Hub.Create.{Order}
use robi_net.Hub.Admission as Admission
use robi_net.Hub.Name.{parse_name}
use robi_net.Hub.Api.{World, Daemon, Reply, RegisterRequest, CreateInstanceRequest, JoinRequest}
use robi_net.Guard.{allow}
use robi_net.Wrak.Ssh.{SshKey, bootstrap_verify, authorized_key}
use robi_net.Hub.Api.Auth.{decode}
use robi_net.Hub.Api.Machines.{
  source_addr, limited, create_named, join_request, join_applicant, all_keys, bootstrap_of,
  match_binder, store_registration, register_machine, handle_register, handle_create_instance,
  handle_join, handle_join_result, handle_members,
}
use robi_net.Hub.Api.Connectors.{admit_connector, connector_applicant, handle_enroll, handle_result}
use robi_net.Hub.Api.Framed.{IsNamed, enroll-IsNamed, create_instance-IsSameBut}

-- What stands under an id in a store.
abbrev pub at_id : Text → Store → Option Instance
at_id id s = lookup id s.state.instances

IsNamed-kept :
    (ref id : Text) (s later : Store)
    → IsNamed ref s later
    → ((inst : Instance) × (resolve ref s ≡ ok inst) × (inst.id ≡ id) → ⊥)
    → at_id id later ≡ at_id id s
IsNamed-kept ref id s later (inl e) away = ap (at_id id) e
IsNamed-kept ref id s later (inr (inst, found, same)) away =
    same.others id (λ e. away (inst, found, sym e))

pub register-kept :
    (id : Text) (writable : Bool) (now : ℕ) (r : Registration) (s : Store)
    → at_id id (Store.register writable now r s).1 ≡ at_id id s
unfolding Store.register save
register-kept id true now r s = refl
register-kept id false now r s = refl

store_registration-kept :
    (id : Text) (w : World) (req : RegisterRequest) (key : SshKey) (d : Daemon)
    → at_id id (store_registration w req key d).1.store ≡ at_id id d.store
unfolding store_registration
store_registration-kept id w req key d = elim (Option-cases (match_binder w.ssh key w.binders)) [
  | inl e ↦ rw (e, store_registration) refl
  | inr (binder, e) ↦
      let r : Registration = record {
        identity = req.identity;
        binder = binder;
        name = req.name;
        key = authorized_key w.ssh key;
        registered_at = 0;
        last_seen_at = 0;
      } in
      elim (Result-cases (Store.register w.writable w.now r d.store).0) [
        | inl (_, f) ↦ rw (e, store_registration, f) (register-kept id w.writable w.now r d.store)
        | inr (_, f) ↦ rw (e, store_registration, f) (register-kept id w.writable w.now r d.store)
      ]
]

register_machine-kept :
    (id : Text) (w : World) (r : WebRequest) (req : RegisterRequest) (d : Daemon)
    → at_id id (register_machine w r req d).1.store ≡ at_id id d.store
unfolding register_machine
register_machine-kept id w r req d = elim (Bool-cases (is_empty (trim_space req.name))) [
  | inl e ↦ rw (e, register_machine) refl
  | inr e ↦ elim (Result-cases (parse_public_identity w.crypto req.identity)) [
    | inl (_, f) ↦ rw (e, register_machine, f) refl
    | inr (_, f) ↦
        elim (Result-cases
          (bootstrap_verify w.ssh (bootstrap_of w r req) req.signature (all_keys w.binders))) [
            | inl (_, g) ↦ rw (e, register_machine, f, g) refl
            | inr (key, g) ↦ rw (e, register_machine, f, g) (store_registration-kept id w req key d)
          ]
  ]
]

limited-kept :
    (id : Text) (w : World) (source : Text) (next : Daemon → Reply × Daemon) (d : Daemon)
    → ((d' : Daemon) → d'.store ≡ d.store → at_id id (next d').1.store ≡ at_id id d.store)
    → at_id id (limited w source next d).1.store ≡ at_id id d.store
unfolding limited
limited-kept id w source next d h = elim (Bool-cases (allow w.now source d.limiter).0) [
  | inl e ↦ rw (e, limited) (h _ refl)
  | inr e ↦ rw (e, limited) refl
]

decode-kept :
    (id : Text) {A : Type 0} (o : Option A) (d : Daemon) (next : A → Reply × Daemon) (s : Store)
    → d.store ≡ s
    → ((a : A) → at_id id (next a).1.store ≡ at_id id s)
    → at_id id (decode o d next).1.store ≡ at_id id s
unfolding decode
decode-kept id none d next s e h = ap (at_id id) e
decode-kept id (some a) d next s e h = h a

pub handle_register-kept :
    (id : Text) (w : World) (r : WebRequest) (d : Daemon)
    → at_id id (handle_register w r d).1.store ≡ at_id id d.store
unfolding handle_register
handle_register-kept id w r d =
    limited-kept id w (source_addr w r)
      (λ d'.
        decode (w.parse_json.register r.body) d'
          (λ (req : RegisterRequest). register_machine w r req d'))
      d
      (λ d' e.
        decode-kept id (w.parse_json.register r.body) d'
          (λ (req : RegisterRequest). register_machine w r req d') d.store e
          (λ (req : RegisterRequest). register_machine-kept id w r req d' ∙ ap (at_id id) e))

create_named-kept :
    (id : Text) (w : World) (who : Registration) (name token : Text) (d : Daemon)
    → (w.fresh_id ≡ id → ⊥)
    → at_id id (create_named w who name token d).1.store ≡ at_id id d.store
unfolding create_named
create_named-kept id w who name token d away =
    let o : Order = record {
      id = w.fresh_id;
      now = w.now;
      binder = who.binder;
      owner = who.identity;
      name = name;
      shared_token = token;
      keys = w.fresh_keys;
    } in
    let framed = (create_instance-IsSameBut w o d.store).others id (λ e. away (sym e)) in
    elim (Result-cases (Create.create_instance w.config w.writable o d.store).0) [
      | inl (_, e) ↦ rw (e, create_named) framed
      | inr (_, e) ↦ rw (e, create_named) framed
    ]

pub handle_create_instance-kept :
    (id : Text) (w : World) (r : WebRequest) (who : Registration) (d : Daemon)
    → (w.fresh_id ≡ id → ⊥)
    → at_id id (handle_create_instance w r who d).1.store ≡ at_id id d.store
unfolding handle_create_instance
handle_create_instance-kept id w r who d away =
    decode-kept id (w.parse_json.create r.body) d _ d.store refl (λ (req : CreateInstanceRequest).
      elim (Result-cases (parse_name req.name)) [
        | inl (_, e) ↦ rw e refl
        | inr (name, e) ↦ rw e (create_named-kept id w who name req.shared_token d away)
      ])

pub handle_join-kept :
    (id : Text) (w : World) (ref : Text) (r : WebRequest) (who : Registration) (d : Daemon)
    → ((inst : Instance) × (resolve ref d.store ≡ ok inst) × (inst.id ≡ id) → ⊥)
    → at_id id (handle_join w ref r who d).1.store ≡ at_id id d.store
unfolding handle_join
handle_join-kept id w ref r who d away =
    decode-kept id (w.parse_json.join r.body) d _ d.store refl (λ (req : JoinRequest).
      let named =
        enroll-IsNamed w.platform w.writable w.fresh_id w.now ref (join_request req who)
          (join_applicant w r who) d.store in
      let kept = IsNamed-kept ref id d.store _ named away in
      elim (Result-cases
        (Admission.enroll w.platform w.writable w.fresh_id w.now ref (join_request req who)
          (join_applicant w r who) d.store).0) [ inl (_, e) ↦ rw e kept | inr (_, e) ↦ rw e kept ])

admit_connector-kept :
    (id : Text) (w : World) (ref : Text) (r : WebRequest) (req : Request) (d : Daemon)
    → ((inst : Instance) × (resolve ref d.store ≡ ok inst) × (inst.id ≡ id) → ⊥)
    → at_id id (admit_connector w ref r req d).1.store ≡ at_id id d.store
unfolding admit_connector
admit_connector-kept id w ref r req d away =
    let named =
      enroll-IsNamed w.platform w.writable w.fresh_id w.now ref req (connector_applicant w r)
        d.store in
    let kept = IsNamed-kept ref id d.store _ named away in
    elim (Result-cases
      (Admission.enroll w.platform w.writable w.fresh_id w.now ref req (connector_applicant w r)
        d.store).0) [
          | inl (_, e) ↦ rw (e, admit_connector) kept
          | inr (_, e) ↦ rw (e, admit_connector) kept
        ]

pub handle_enroll-kept :
    (id : Text) (w : World) (ref : Text) (r : WebRequest) (d : Daemon)
    → ((inst : Instance) × (resolve ref d.store ≡ ok inst) × (inst.id ≡ id) → ⊥)
    → at_id id (handle_enroll w ref r d).1.store ≡ at_id id d.store
unfolding handle_enroll
handle_enroll-kept id w ref r d away =
    limited-kept id w (source_addr w r)
      (λ d'.
        decode (w.parse_json.enroll r.body) d' (λ (req : Request). admit_connector w ref r req d'))
      d
      (λ d' e.
        decode-kept id (w.parse_json.enroll r.body) d'
          (λ (req : Request). admit_connector w ref r req d') d.store e
          (λ (req : Request).
            admit_connector-kept id w ref r req d'
              (λ (inst, found, same). away (inst, rw e at found, same))
            ∙ ap (at_id id) e))

pub handle_join_result-kept :
    (id : Text) (ref : Text) (who : Registration) (d : Daemon)
    → at_id id (handle_join_result ref who d).1.store ≡ at_id id d.store
unfolding handle_join_result
handle_join_result-kept id ref who d = ground arith

pub handle_members-kept :
    (id : Text) (inst : Instance) (d : Daemon)
    → at_id id (handle_members inst d).1.store ≡ at_id id d.store
unfolding handle_members
handle_members-kept id inst d = ground arith

pub handle_result-kept :
    (id : Text) (ref rid : Text) (d : Daemon)
    → at_id id (handle_result ref rid d).1.store ≡ at_id id d.store
unfolding handle_result
handle_result-kept id ref rid d = ground arith
