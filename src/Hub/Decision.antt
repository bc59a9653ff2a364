-- ===== src/Hub/Decision.antt =====
-- internal/hub/hub.go: what the owner decides about a request, and what the connector collects.
pub mod Effects
use robi_net.Base.{
  ℕ, ◌+◌, Bool, true, false, not, ◌&&◌, ◌||◌, List, [], ◌∷◌, ◌++◌, Option, none, some, Text, Dict,
  lookup, insert, erase, equal, is_empty, any_of, ltb, leb, ◌==◌, if◌then◌else◌,
}
use robi_net.Net.{Prefix}
use robi_net.Result.{Result, ok, err, not_found, certificate_required, name_taken, unknown_decision}
use robi_net.Strings.{show_number}
use robi_net.Hub.Types.{
  Status, pending, approved, rejected, unknown, Member, Burned, Bundle, Record, Decision, Instance,
  Lighthouse, banned,
}
use robi_net.Hub.Subnet.{Pool}
use robi_net.Hub.Store.{Store, update, resolve}
use robi_net.Enroll.{sort_texts}

-- `Config`, as far as the hub's state depends on it.
pub record Config : Type 0 where
  pub public_endpoint : Text
  pub port_min : ℕ
  pub port_max : ℕ
  pub overlays : List Pool
  pub overlays6 : List Pool
  pub mtu : ℕ
  pub relay : Bool

-- `net.JoinHostPort`
unfoldable pub join_host_port : Text → Text → Text
join_host_port host port =
    if any_of (λ c. c == b':') host || any_of (λ c. c == b'%') host
    then b'[' ∷ (host ++ (b']' ∷ b':' ∷ port))
    else host ++ (b':' ∷ port)

-- The certificates of banned members, and of removed ones.
unfoldable pub banned_certs : Dict Member → List Text
banned_certs [] = []
banned_certs ((fp, m) ∷ ms) =
    let rest = banned_certs ms in
    if banned m && not (is_empty m.cert_fingerprint) then m.cert_fingerprint ∷ rest else rest

unfoldable pub burned_certs : List Burned → List Text
burned_certs [] = []
burned_certs (b ∷ bs) =
    let rest = burned_certs bs in
    if not (is_empty b.cert_fingerprint) then b.cert_fingerprint ∷ rest else rest

-- `blockedIn`
unfoldable pub blocked_in : Instance → List Text
unfolding banned_certs burned_certs
blocked_in inst = sort_texts (banned_certs inst.members ++ burned_certs inst.burned)

-- The bundle that is handed out on approval.
unfoldable pub fill_bundle : Config → Record → Instance → Bundle → Bundle
unfolding join_host_port blocked_in
fill_bundle cfg r inst b = record b {
  overlay_address = r.overlay_address;
  overlay_address6 = r.overlay_address6;
  lighthouse = record {
    overlay_address = inst.lighthouse_address;
    overlay_address6 = inst.lighthouse_address6;
    endpoints = join_host_port cfg.public_endpoint (show_number inst.port) ∷ [];
    relay = inst.relay;
  };
  mtu = if b.mtu == 0 then cfg.mtu else b.mtu;
  instance_name = if is_empty b.instance_name then inst.name else b.instance_name;
  blocked = blocked_in inst;
}

-- Whether another member has the name.
unfoldable pub name_taken_in : Text → Text → Dict Member → Bool
name_taken_in fp name [] = false
name_taken_in fp name ((k, m) ∷ ms) =
    (not (equal k fp) && equal m.name name && not (is_empty name)) || name_taken_in fp name ms

-- The name that an approval gives.
abbrev pub granted_name : Decision → Record → Text
granted_name d r = if is_empty d.name then r.request.name else d.name

unfoldable pub new_member : ℕ → Decision → Record → Member
new_member now d r = record {
  kind = r.kind;
  name = granted_name d r;
  fingerprint = r.fingerprint;
  identity = r.identity;
  binder = r.binder;
  address = r.overlay_address;
  address6 = r.overlay_address6;
  routes = d.routes;
  domain = d.domain;
  cert_fingerprint = d.cert_fingerprint;
  events = [];
  joined_at = now;
}

-- The branch for an approval, with a bundle that carries a certificate. The record is approved
-- before the name is looked at.
unfoldable pub approve_in :
    Config → ℕ → Text → Decision → Bundle → Record → Instance → Result (Unit {0}) × Instance
unfolding fill_bundle name_taken_in new_member
approve_in cfg now rid d b r inst =
    let r' : Record = record r { bundle = some (fill_bundle cfg r inst b); status = approved } in
    if name_taken_in r.fingerprint (granted_name d r) inst.members
    then (err name_taken, record inst { requests = insert rid r' inst.requests })
    else (
      ok tt,
      record inst {
        requests = insert rid (record r' { decided_at = now }) inst.requests;
        members = insert r.fingerprint (new_member now d r) inst.members;
      },
    )

-- The function that `Decide` runs on the record that it found.
unfoldable pub decide_record :
    Config → ℕ → Text → Decision → Record → Instance → Result (Unit {0}) × Instance
unfolding approve_in
decide_record cfg now rid d r inst = elim d.status [
  | approved ↦ elim d.bundle [
    | none ↦ (err certificate_required, inst)
    | some b ↦
        if is_empty b.certificate
        then (err certificate_required, inst)
        else approve_in cfg now rid d b r inst
  ]
  | rejected ↦ (
    ok tt,
    record inst {
      requests =
          insert rid
            (record r { status = rejected; bundle = none; reason = d.reason; decided_at = now })
            inst.requests;
    },
  )
  | pending ↦ (err unknown_decision, inst)
  | unknown ↦ (err unknown_decision, inst)
]

unfoldable pub decide_in : Config → ℕ → Text → Decision → Instance → Result (Unit {0}) × Instance
unfolding decide_record
decide_in cfg now rid d inst = elim (lookup rid inst.requests) [
  | none ↦ (err not_found, inst)
  | some r ↦ decide_record cfg now rid d r inst
]

-- `Decide`
unfoldable pub decide :
    Config → Bool → ℕ → Text → Text → Decision → Store → Result (Unit {0}) × Store
unfolding decide_in
decide cfg writable now id rid d s = update writable id (decide_in cfg now rid d) s

-- The function that `Forget` runs.
unfoldable pub forget_in : Text → Instance → Result (Unit {0}) × Instance
forget_in rid inst = elim (lookup rid inst.requests) [
  | none ↦ (err not_found, inst)
  | some _ ↦ (ok tt, record inst { requests = erase rid inst.requests })
]

-- `enroll.Result`
pub record Answer : Type 0 where
  pub status : Status
  pub retry_after : ℕ
  pub bundle : Option Bundle
  pub reason : Text

-- `withBlocklist`
unfoldable pub with_blocklist : Instance → Option Bundle → Option Bundle
with_blocklist inst none = none
with_blocklist inst (some b) = some (record b { blocked = blocked_in inst })

-- `Result`, on the instance that the reference resolved to.
unfoldable pub result_in : Text → Instance → Result Answer
unfolding with_blocklist
result_in rid inst = elim (lookup rid inst.requests) [
  | none ↦ err not_found
  | some r ↦ elim r.status [
    | approved ↦ ok (record {
      status = approved;
      retry_after = 0;
      bundle = with_blocklist inst r.bundle;
      reason = r.reason;
    })
    | _ ↦ ok (record { status = r.status; retry_after = 30; bundle = none; reason = r.reason })
  ]
]
