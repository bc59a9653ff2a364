-- ===== src/Hub/Api/Machines.antt =====
-- internal/hub/api.go: the handlers for machines that register, and for registered ones.
use robi_net.Base.{
  ℕ, suc, not, ◌&&◌, List, [], ◌∷◌, ◌++◌, Option, none, some, Text, Dict, runes, values, equal,
  is_empty, length, if◌then◌else◌,
}
use robi_net.Net.{no_prefix}
use robi_net.Result.{ok, err, Error}
use robi_net.Strings.{trim_space}
use robi_net.Wrak.{WebRequest, parse_public_identity}
use robi_net.Wrak.Ssh.{SshLib, SshKey, Bootstrap, bootstrap_verify, among_keys, authorized_key}
use robi_net.Hub.Types.{tenant, owner, approved, Request, Record, Member, Instance}
use robi_net.Hub.Name.{parse_name}
use robi_net.Hub.Store.{Registration, register, identity_of, resolve, member_of}
use robi_net.Hub.Admission.{Applicant, enroll}
use robi_net.Hub.Decision.{Answer, with_blocklist}
use robi_net.Hub.Create.{create_instance}
use robi_net.Hub.Routes.{routes_of, sort_by, is_pending, route_table_of, members_of}
use robi_net.Hub.Api.{
  World, Daemon, Reply, failure, json, registered, created, summaries, accepted, answer,
  all_members, route_table, CreateInstanceRequest, CreateInstanceResponse, RegisterRequest,
  JoinRequest, InstanceSummary, bad_request, is_not_found, runs,
}
use robi_net.Hub.Api.Auth.{decode, unauthorized}
use robi_net.Guard.{allow}

-- `sourceAddr`
unfoldable pub source_addr : World → WebRequest → Text
source_addr w r = elim (w.split_host r.remote_addr) [ none ↦ r.remote_addr | some host ↦ host ]

-- The limiter in front of the handlers that need no signature.
unfoldable pub limited : World → Text → (Daemon → Reply × Daemon) → Daemon → Reply × Daemon
limited w source next d =
    let (through, rl) = allow w.now source d.limiter in
    let rest = next (record d { limiter = rl }) in
    if not through then (failure 429 (runes "slow_down"), record d { limiter = rl }) else rest

-- `Binders.AllKeys`
unfoldable pub all_keys : Dict (List SshKey) → List SshKey
all_keys [] = []
all_keys ((name, keys) ∷ bs) = keys ++ all_keys bs

-- `Binders.Match`
unfoldable pub match_binder : SshLib → SshKey → Dict (List SshKey) → Option Text
match_binder lib key [] = none
match_binder lib key ((name, keys) ∷ bs) =
    let rest = match_binder lib key bs in if among_keys lib key keys then some name else rest

-- What the hub stores once it knows whose key it was.
unfoldable pub store_registration : World → RegisterRequest → SshKey → Daemon → Reply × Daemon
unfolding match_binder
store_registration w req key d = elim (match_binder w.ssh key w.binders) [
  | none ↦ (unauthorized, d)
  | some binder ↦
      let r : Registration = record {
        identity = req.identity;
        binder = binder;
        name = req.name;
        key = authorized_key w.ssh key;
        registered_at = 0;
        last_seen_at = 0;
      } in
      let (told, s) = register w.writable w.now r d.store in
      elim told [
        | err _ ↦ (failure 500 (runes "error"), record d { store = s })
        | ok _ ↦ (
          json 201 (registered req.identity binder (authorized_key w.ssh key)),
          record d { store = s },
        )
      ]
]

-- The bootstrap that the hub makes from its own token.
abbrev pub bootstrap_of : World → WebRequest → RegisterRequest → Bootstrap
bootstrap_of w r req = record {
  api = r.host;
  token = w.token;
  name = req.name;
  identity = req.identity;
}

unfoldable pub register_machine : World → WebRequest → RegisterRequest → Daemon → Reply × Daemon
unfolding all_keys store_registration
register_machine w r req d =
    if is_empty (trim_space req.name)
    then (bad_request, d)
    else elim (parse_public_identity w.crypto req.identity) [
      | err _ ↦ (bad_request, d)
      | ok _ ↦
          elim (bootstrap_verify w.ssh (bootstrap_of w r req) req.signature (all_keys w.binders)) [
            | err _ ↦ (unauthorized, d)
            | ok key ↦ store_registration w req key d
          ]
    ]

unfoldable pub handle_register : World → WebRequest → Daemon → Reply × Daemon
unfolding source_addr limited decode register_machine
handle_register w r d =
    limited w (source_addr w r)
      (λ d'.
        decode (w.parse_json.register r.body) d'
          (λ (req : RegisterRequest). register_machine w r req d'))
      d

abbrev pub response_of : World → Instance → CreateInstanceResponse
response_of w inst = record {
  id = inst.id;
  name = inst.name;
  binder = inst.binder;
  overlay = inst.overlay;
  overlay6 = inst.overlay6;
  port = inst.port;
  lighthouse_address = inst.lighthouse_address;
  lighthouse_address6 = inst.lighthouse_address6;
  tenant_address = inst.tenant_address;
  tenant_address6 = inst.tenant_address6;
  lighthouse_public_key = inst.lighthouse_public_key;
  endpoint = w.config.public_endpoint;
  mtu = w.config.mtu;
  relay = inst.relay;
}

-- `handleCreateInstance`, with the name as `ParseName` folds it.
unfoldable pub create_named : World → Registration → Text → Text → Daemon → Reply × Daemon
create_named w who name token d =
    let (told, s) =
      create_instance w.config w.writable
        (record {
          id = w.fresh_id;
          now = w.now;
          binder = who.binder;
          owner = who.identity;
          name = name;
          shared_token = token;
          keys = w.fresh_keys;
        })
        d.store in
    elim told [
      | err _ ↦ (bad_request, record d { store = s })
      | ok inst ↦ (json 201 (created (response_of w inst)), record d { store = s })
    ]

unfoldable pub handle_create_instance : World → WebRequest → Registration → Daemon → Reply × Daemon
unfolding decode create_named
handle_create_instance w r who d =
    decode (w.parse_json.create r.body) d (λ (req : CreateInstanceRequest).
      elim (parse_name req.name) [
        | err _ ↦ (bad_request, d)
        | ok name ↦ create_named w who name req.shared_token d
      ])

-- The requests that still wait, as the owner's line counts them.
unfoldable pub count_pending : List Record → ℕ
count_pending [] = 0
count_pending (r ∷ rs) =
    let rest = count_pending rs in if is_pending r.status then suc rest else rest

-- The line of an instance for anybody.
abbrev pub outside_line : World → Registration → Daemon → Instance → InstanceSummary
outside_line w who d inst = record {
  id = inst.id;
  name = inst.name;
  binder = inst.binder;
  overlay = inst.overlay;
  overlay6 = inst.overlay6;
  role = none;
  owner = inst.binder;
  owner_machine = elim (identity_of inst.owner d.store) [ err _ ↦ [] | ok o ↦ o.name ];
  yours = not (is_empty inst.binder) && equal inst.binder who.binder;
  address = no_prefix;
  address6 = no_prefix;
  routes = [];
  members = 0;
  pending = 0;
  lighthouse = inst.lighthouse_address;
  running = runs inst.id d.running;
}

-- What is filled in for a member, and for the owner.
unfoldable pub inside_line : World → Registration → Daemon → Instance → Member → InstanceSummary
inside_line w who d inst m =
    let line : InstanceSummary = record (outside_line w who d inst) {
      role = some m.kind;
      address = m.address;
      address6 = m.address6;
      members = length inst.members;
      routes = routes_of w.platform inst;
    } in
    if equal inst.owner who.identity
    then record line { role = some owner; pending = count_pending (values inst.requests) }
    else line

unfoldable pub summary_of : World → Registration → Daemon → Instance → InstanceSummary
unfolding inside_line
summary_of w who d inst = elim (member_of who.identity inst) [
  | none ↦ outside_line w who d inst
  | some m ↦ inside_line w who d inst m
]

unfoldable pub summaries_of : World → Registration → Daemon → List Instance → List InstanceSummary
unfolding summary_of
summaries_of w who d [] = []
summaries_of w who d (i ∷ is) = summary_of w who d i ∷ summaries_of w who d is

unfoldable pub handle_list_instances : World → Registration → Daemon → Reply × Daemon
unfolding summaries_of
handle_list_instances w who d = (
  json 200 (
      summaries (
        sort_by (λ (s : InstanceSummary). s.name)
          (summaries_of w who d (values d.store.state.instances)))),
  d,
)

-- What a tenant's request and applicant are.
abbrev pub join_request : JoinRequest → Registration → Request
join_request req who = record {
  public_key = req.public_key;
  name = if is_empty req.name then who.name else req.name;
  routes = [];
  domain = [];
  hints = [];
}

abbrev pub join_applicant : World → WebRequest → Registration → Applicant
join_applicant w r who = record {
  kind = tenant;
  identity = who.identity;
  binder = who.binder;
  mac = [];
  source_addr = source_addr w r;
}

abbrev pub join_error : Error → Reply
join_error e = if is_not_found e then failure 404 (runes "not_found") else bad_request

unfoldable pub handle_join : World → Text → WebRequest → Registration → Daemon → Reply × Daemon
unfolding decode source_addr
handle_join w ref r who d = decode (w.parse_json.join r.body) d (λ (req : JoinRequest).
    let (told, s) =
      enroll w.platform w.writable w.fresh_id w.now ref (join_request req who)
        (join_applicant w r who) d.store in
    elim told [
      | err e ↦ (join_error e, record d { store = s })
      | ok rec ↦ (json 202 (accepted rec.id rec.status 5), record d { store = s })
    ])

-- The loop over the requests: the first of this machine.
unfoldable pub own_request : Text → List Record → Option Record
own_request identity [] = none
own_request identity (r ∷ rs) =
    let rest = own_request identity rs in if not (equal r.identity identity) then rest else some r

-- `enroll.Result` for the machine that asked.
unfoldable pub join_answer : Instance → Record → Answer
join_answer inst r = elim r.status [
  | approved ↦ record {
    status = approved;
    retry_after = 0;
    bundle = with_blocklist inst r.bundle;
    reason = r.reason;
  }
  | _ ↦ record { status = r.status; retry_after = 15; bundle = none; reason = r.reason }
]

unfoldable pub handle_join_result : Text → Registration → Daemon → Reply × Daemon
unfolding own_request join_answer
handle_join_result ref who d = elim (resolve ref d.store) [
  | err _ ↦ (failure 404 (runes "not_found"), d)
  | ok inst ↦ elim (own_request who.identity (values inst.requests)) [
    | none ↦ (failure 404 (runes "not_found"), d)
    | some r ↦ (json 200 (answer (join_answer inst r)), d)
  ]
]

unfoldable pub handle_members : Instance → Daemon → Reply × Daemon
handle_members inst d = elim (members_of inst.id d.store) [
  | err _ ↦ (failure 404 (runes "not_found"), d)
  | ok ms ↦ (json 200 (all_members ms), d)
]

unfoldable pub handle_routes : World → Instance → Daemon → Reply × Daemon
handle_routes w inst d = (json 200 (route_table (route_table_of w.platform w.config inst)), d)
