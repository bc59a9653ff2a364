-- ===== src/Hub/Decision/Effects.antt =====
-- `Decide` and `Result`: what an approval changes, and what the applicant is then told.
use robi_net.Base.{
  ℕ, ◌≡◌, refl, sym, true, false, [], ◌∷◌, ◌==◌, if◌then◌else◌, some, Text, Dict, lookup, insert,
  equal_refl, is_empty, lookup-insert,
}
use robi_net.Result.{ok, err, name_taken}
use robi_net.Strings.{show_number}
use robi_net.Hub.Types.{approved, Member, Bundle, Record, Decision, Instance, banned}
use robi_net.Hub.Decision.{
  Config, Answer, fill_bundle, name_taken_in, granted_name, new_member, approve_in, decide_record,
  decide_in, with_blocklist, result_in, join_host_port, blocked_in,
}

-- The answer to an approved request: its bundle, with the list of refused certificates as it is now.
abbrev pub handed_out : Instance → Text → Bundle → Answer
handed_out inst why b = record {
  status = approved;
  retry_after = 0;
  bundle = with_blocklist inst (some b);
  reason = why;
}

-- The member that an approval makes of a request.
pub record IsAdmitted (now : ℕ) (d : Decision) (r : Record) (m : Member) : Type 0 where
  pub kind : m.kind ≡ r.kind
  pub name : m.name ≡ (if is_empty d.name then r.request.name else d.name)
  pub fingerprint : m.fingerprint ≡ r.fingerprint
  pub identity : m.identity ≡ r.identity
  pub binder : m.binder ≡ r.binder
  pub address : m.address ≡ r.overlay_address
  pub address6 : m.address6 ≡ r.overlay_address6
  pub routes : m.routes ≡ d.routes
  pub domain : m.domain ≡ d.domain
  pub cert_fingerprint : m.cert_fingerprint ≡ d.cert_fingerprint
  pub events : m.events ≡ []
  pub joined_at : m.joined_at ≡ now

-- The answer that hands out a certificate: the owner's bundle, with the request's addresses, the way
-- to the lighthouse and the certificates that are refused.
pub record IsHandedOut (cfg : Config) (b : Bundle) (r : Record) (inst later : Instance) (a : Answer)
    : Type 0 where
  pub bundle : Bundle
  pub status : a.status ≡ approved
  pub bundled : a.bundle ≡ some bundle
  pub certificate : bundle.certificate ≡ b.certificate
  pub ca : bundle.ca ≡ b.ca
  pub address : bundle.overlay_address ≡ r.overlay_address
  pub address6 : bundle.overlay_address6 ≡ r.overlay_address6
  pub lighthouse_address : bundle.lighthouse.overlay_address ≡ inst.lighthouse_address
  pub lighthouse_address6 : bundle.lighthouse.overlay_address6 ≡ inst.lighthouse_address6
  pub endpoints :
      bundle.lighthouse.endpoints ≡ join_host_port cfg.public_endpoint (show_number inst.port) ∷ []
  pub relay : bundle.lighthouse.relay ≡ inst.relay
  pub mtu : bundle.mtu ≡ (if b.mtu == 0 then cfg.mtu else b.mtu)
  pub instance_name :
      bundle.instance_name ≡ (if is_empty b.instance_name then inst.name else b.instance_name)
  pub blocked : bundle.blocked ≡ blocked_in later

handed_out-IsHandedOut :
    (cfg : Config) (b : Bundle) (r : Record) (inst later : Instance)
    → IsHandedOut cfg b r inst later (handed_out later r.reason (fill_bundle cfg r inst b))
unfolding fill_bundle with_blocklist
handed_out-IsHandedOut cfg b r inst later = record {
  bundle = record (fill_bundle cfg r inst b) { blocked = blocked_in later };
  status = refl;
  bundled = refl;
  certificate = refl;
  ca = refl;
  address = refl;
  address6 = refl;
  lighthouse_address = refl;
  lighthouse_address6 = refl;
  endpoints = refl;
  relay = refl;
  mtu = refl;
  instance_name = refl;
  blocked = refl;
}

lookup_same : {V : Type 0} (k : Text) (v : V) (m : Dict V) → lookup k (insert k v m) ≡ some v
lookup_same k v m = rw (lookup-insert k k v m, equal_refl k)

result_in-approved :
    (rid : Text) (r : Record) (b : Bundle) (inst : Instance)
    → lookup rid inst.requests ≡ some r
    → r.status ≡ approved
    → r.bundle ≡ some b
    → result_in rid inst ≡ ok (handed_out inst r.reason b)
unfolding result_in
result_in-approved rid r b inst found status bundle = rw (found, result_in, status, bundle) refl

module _ (cfg : Config) (now : ℕ) (rid : Text) (d : Decision) (b : Bundle) (r : Record)
    (inst : Instance) where
  approve_in-ok :
      name_taken_in r.fingerprint (granted_name d r) inst.members ≡ false
      → let (told, later) = approve_in cfg now rid d b r inst in
        (told ≡ ok tt)
        × (lookup r.fingerprint later.members ≡ some (new_member now d r))
        × (result_in rid later ≡ ok (handed_out later r.reason (fill_bundle cfg r inst b)))
  unfolding approve_in
  approve_in-ok free =
      let r' : Record = record r {
        bundle = some (fill_bundle cfg r inst b);
        status = approved;
        decided_at = now;
      } in
      rw (free, approve_in)
        (
          refl,
          lookup_same r.fingerprint (new_member now d r) inst.members,
          result_in-approved rid r' (fill_bundle cfg r inst b)
              (record inst {
                requests = insert rid r' inst.requests;
                members = insert r.fingerprint (new_member now d r) inst.members;
              })
              (lookup_same rid r' inst.requests) refl refl,
        )

  approve_in-taken :
      name_taken_in r.fingerprint (granted_name d r) inst.members ≡ true
      → let (told, later) = approve_in cfg now rid d b r inst in
        (told ≡ err name_taken)
        × (later.members ≡ inst.members)
        × (result_in rid later ≡ ok (handed_out later r.reason (fill_bundle cfg r inst b)))
  unfolding approve_in
  approve_in-taken taken =
      let r' : Record = record r { bundle = some (fill_bundle cfg r inst b); status = approved } in
      rw (taken, approve_in)
        (
          refl,
          refl,
          result_in-approved rid r' (fill_bundle cfg r inst b)
              (record inst { requests = insert rid r' inst.requests })
              (lookup_same rid r' inst.requests) refl refl,
        )

  -- An approval, as `Decide` finds it: of a request that is there, with a certificate.
  module _ (found : lookup rid inst.requests ≡ some r) (status : d.status ≡ approved)
      (bundle : d.bundle ≡ some b) (cert : is_empty b.certificate ≡ false) where
    decide_in-approve_in : decide_in cfg now rid d inst ≡ approve_in cfg now rid d b r inst
    unfolding decide_in decide_record
    decide_in-approve_in = rw (found, decide_in, status, bundle, cert) refl

    -- An approval of a stored request, with a certificate and a name that another member has, is an
    -- error and changes no member, but the applicant is answered with the owner's certificate, the
    -- request's addresses and the way to the lighthouse all the same.
    pub decide_in-hands_out :
        name_taken_in r.fingerprint (granted_name d r) inst.members ≡ true
        → let (told, later) = decide_in cfg now rid d inst in
          (told ≡ err name_taken)
          × (later.members ≡ inst.members)
          × ((a : Answer) × (result_in rid later ≡ ok a) × IsHandedOut cfg b r inst later a)
    decide_in-hands_out taken =
        let later = (decide_in cfg now rid d inst).1 in
        let made = rw (sym decide_in-approve_in) at (approve_in-taken taken) in
        (
          made.0,
          made.1,
          (
            handed_out later r.reason (fill_bundle cfg r inst b),
            made.2,
            handed_out-IsHandedOut cfg b r inst later,
          ),
        )

    -- An approval of a stored request, with a certificate and a name that no other member has,
    -- leaves the member under the request's key unbanned and with no events, whoever stood under
    -- that key before: a member that was banned is let in again.
    pub decide_in-lifts_ban :
        name_taken_in r.fingerprint (granted_name d r) inst.members ≡ false
        → (m : Member) × (lookup r.fingerprint (decide_in cfg now rid d inst).1.members ≡ some m)
          × (banned m ≡ false)
          × (m.events ≡ [])
    unfolding new_member banned
    decide_in-lifts_ban free =
        (new_member now d r, rw (sym decide_in-approve_in) at (approve_in-ok free).1, refl, refl)
