-- ===== src/Hub/Api.antt =====
-- internal/hub/api.go: what the handlers work on, and what they write.
pub mod Auth
pub mod Owners
pub mod Machines
pub mod Connectors
pub mod Serve
pub mod Access
pub mod Framed
pub mod Stays
pub mod Apart
pub mod Spent
pub mod Replayed
pub mod Life
pub mod Enlisted
use robi_net.Base.{
  ℕ, Bool, true, false, not, ◌||◌, List, [], ◌∷◌, ◌++◌, Option, none, some, Text, Dict, runes,
  equal, is_empty, any_of, if◌then◌else◌,
}
use robi_net.Net.{Addr, Prefix}
use robi_net.Result.{Result, ok, err, Error, not_found}
use robi_net.Enroll.{Platform}
use robi_net.Guard.{Nonces, Limiter}
use robi_net.Wrak.{Crypto}
use robi_net.Wrak.Ssh.{SshLib, SshKey}
use robi_net.Hub.Types.{Kind, Status, Request, Member, Record, Decision, Instance}
use robi_net.Hub.Store.{Store, update, get}
use robi_net.Hub.Decision.{Config, Answer}
use robi_net.Hub.Create.{activate_in}
use robi_net.Hub.Routes.{Route, RouteTable}

-- The bodies of the requests.
pub record RegisterRequest : Type 0 where
  pub name : Text
  pub identity : Text
  pub signature : Text

pub record CreateInstanceRequest : Type 0 where
  pub name : Text
  pub shared_token : Text

pub record LighthouseRequest : Type 0 where
  pub ca : Text
  pub certificate : Text

pub record BanRequest : Type 0 where
  pub member : Text
  pub note : Text

pub record TokenRequest : Type 0 where
  pub shared_token : Text

pub record JoinRequest : Type 0 where
  pub name : Text
  pub public_key : Text

-- What encoding/json reads from a body, where it can.
pub record Json : Type 0 where
  pub register : Text → Option RegisterRequest
  pub create : Text → Option CreateInstanceRequest
  pub lighthouse : Text → Option LighthouseRequest
  pub decision : Text → Option Decision
  pub ban : Text → Option BanRequest
  pub token : Text → Option TokenRequest
  pub join : Text → Option JoinRequest
  pub enroll : Text → Option Request

-- The bodies of the answers.
pub record CreateInstanceResponse : Type 0 where
  pub id : Text
  pub name : Text
  pub binder : Text
  pub overlay : Prefix
  pub overlay6 : Prefix
  pub port : ℕ
  pub lighthouse_address : Addr
  pub lighthouse_address6 : Addr
  pub tenant_address : Addr
  pub tenant_address6 : Addr
  pub lighthouse_public_key : Text
  pub endpoint : Text
  pub mtu : ℕ
  pub relay : Bool

pub record InstanceSummary : Type 0 where
  pub id : Text
  pub name : Text
  pub binder : Text
  pub overlay : Prefix
  pub overlay6 : Prefix
  pub role : Option Kind
  pub owner : Text
  pub owner_machine : Text
  pub yours : Bool
  pub address : Prefix
  pub address6 : Prefix
  pub routes : List Route
  pub members : ℕ
  pub pending : ℕ
  pub lighthouse : Addr
  pub running : Bool

pub data Payload : Type 0 where
  registered : (identity binder key : Text) → Payload
  created : CreateInstanceResponse → Payload
  summaries : List InstanceSummary → Payload
  removed : Member → Payload
  is_running : Bool → Payload
  waiting : List Record → Payload
  accepted : Text → Status → (retry_after : ℕ) → Payload
  answer : Answer → Payload
  all_members : List Member → Payload
  route_table : RouteTable → Payload

-- `WriteHeader`, `writeError` and `writeJSON`.
pub data Reply : Type 0 where
  header : ℕ → Reply
  failure : ℕ → Text → Reply
  json : ℕ → Payload → Reply

-- What surrounds one call: the libraries, the hub's configuration, the time, what is drawn at
-- random, and how the file, the connection and the lighthouse's process answer.
pub record World : Type 0 where
  pub platform : Platform
  pub crypto : Crypto
  pub ssh : SshLib
  pub parse_json : Json
  pub split_host : Text → Option Text
  pub config : Config
  pub token : Text
  pub binders : Dict (List SshKey)
  pub now : ℕ
  pub fresh_id : Text
  pub fresh_keys : Result (Text × Text)
  pub readable : Bool
  pub writable : Bool
  pub reloads : Bool
  pub starts : Bool

-- `Hub`, as far as it changes.
pub record Daemon : Type 0 where
  pub store : Store
  pub nonces : Nonces
  pub limiter : Limiter
  pub running : List Text

-- `maxBodyBytes`
abbrev pub max_body_bytes : ℕ
max_body_bytes = 65536

-- The two errors that a handler tells from the others.
abbrev pub is_not_found : Error → Bool
is_not_found not_found = true
is_not_found _ = false

abbrev pub is_ambiguous : Error → Bool
is_ambiguous Error.ambiguous = true
is_ambiguous _ = false

abbrev pub bad_request : Reply
bad_request = failure 400 (runes "bad_request")

-- `writeMemberError`
unfoldable pub member_error : Error → Reply
member_error e = if is_not_found e then failure 404 (runes "not_found") else bad_request

-- `lighthouses.stop`
unfoldable pub stop : Text → List Text → List Text
stop id [] = []
stop id (i ∷ is) = let rest = stop id is in if equal i id then rest else i ∷ rest

abbrev pub runs : Text → List Text → Bool
runs id is = any_of (λ i. equal i id) is

-- `lighthouses.start`, which renders the configuration first.
unfoldable pub start : Bool → Instance → List Text → Bool × List Text
start starts inst is =
    if runs inst.id is
    then (true, is)
    else if is_empty inst.ca_cert || is_empty inst.lighthouse_cert || not starts
    then (false, is)
    else (true, inst.id ∷ is)

-- `ActivateInstance`, once the certificates are stored.
unfoldable pub bring_up : Bool → Text → Daemon → Result (Unit {0}) × Daemon
unfolding stop start
bring_up starts id d = elim (get id d.store) [
  | err e ↦ (err e, d)
  | ok inst ↦
      let (up, is) = start starts inst (stop id d.running) in
      (if up then ok tt else err Error.lighthouse_failed, record d { running = is })
]

-- `ActivateInstance`
unfoldable pub activate_instance : World → Text → Text → Text → Daemon → Result (Unit {0}) × Daemon
unfolding bring_up
activate_instance w id ca cert d =
    let (r, s) = update w.writable id (activate_in ca cert) d.store in
    elim r [
      | err e ↦ (err e, record d { store = s })
      | ok _ ↦ bring_up w.starts id (record d { store = s })
    ]
