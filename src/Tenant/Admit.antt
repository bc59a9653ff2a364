-- ===== src/Tenant/Admit.antt =====
-- internal/tenant/tenant.go: what the owner's daemon decides, and what a joining one collects. The hub
-- is on the other side of HTTP: what it answers is an argument.
use robi_net.Base.{
  ℕ, Bool, true, false, not, ◌&&◌, ◌||◌, List, [], ◌∷◌, Option, none, some, Text, Dict, lookup,
  equal, is_empty, if◌then◌else◌,
}
use robi_net.Net.{invalid, is4, Prefix, no_prefix, is_prefix}
use robi_net.Result.{
  Result, ok, err, not_found, ambiguous, not_owned, cannot_carry, cannot_sign,
  approved_without_certificate, refused, still_pending,
}
use robi_net.Strings.{has_prefix}
use robi_net.Hub.Types.{pending, approved, rejected, unknown, Record, Bundle, Decision}
use robi_net.Hub.Admission.{is_tenant}
use robi_net.Hub.Decision.{Answer}
use robi_net.Hub.CertName.{member_cert_name}
use robi_net.Tenant.Naming.{default_name, fits_in_a_name}
use robi_net.Tenant.State.{Owned, Connection}

-- `PendingEntry`
pub record PendingEntry : Type 0 where
  pub instance_name : Text
  pub instance_id : Text
  pub record_of : Record
  pub will_be_called : Text
  pub routes : List Prefix
  pub dropped : List Prefix
  pub domain : Text

-- What `ca.Host` says of the certificate to sign, and what the authority answers for it: the
-- certificate and its fingerprint.
pub record Host : Type 0 where
  pub name : Text
  pub public_key : Text
  pub networks : List Prefix
  pub unsafe_networks : List Prefix

abbrev pub Sign : Type 0
Sign = Text → Text → Host → Option (Text × Text)

-- The first loop of `carriable`: whether there is an address of the family.
unfoldable pub has_family : Bool → List Prefix → Bool
has_family four [] = false
has_family four (a ∷ more) =
    let rest = has_family four more in if four then is4 a.addr || rest else not (is4 a.addr) || rest

abbrev pub is_carriable : List Prefix → Prefix → Bool
is_carriable addrs r =
    (is4 r.addr && has_family true addrs) || (not (is4 r.addr) && has_family false addrs)

-- `carriable`: what is kept, and what is dropped.
unfoldable pub carriable : List Prefix → List Prefix → List Prefix × List Prefix
unfolding has_family
carriable [] addrs = ([], [])
carriable (r ∷ rs) addrs =
    let (keep, dropped) = carriable rs addrs in
    if is_carriable addrs r then (r ∷ keep, dropped) else (keep, r ∷ dropped)

-- `addresses`
unfoldable pub addresses : List Prefix → List Prefix
addresses [] = []
addresses (p ∷ ps) = let rest = addresses ps in if is_prefix p then p ∷ rest else rest

-- The loop of `matchPending`, with the prefix matches so far, the last of them first.
unfoldable pub match_from : List PendingEntry → Text → List PendingEntry → Result PendingEntry
match_from found wanted [] = elim found [
  | [] ↦ err not_found
  | e ∷ es ↦ elim es [ [] ↦ ok e | _ ∷ _ ↦ err ambiguous ]
]
match_from found wanted (e ∷ es) =
    let with_it = match_from (e ∷ found) wanted es in
    let without = match_from found wanted es in
    if equal e.record_of.id wanted
    then ok e
    else if has_prefix e.record_of.id wanted
    then with_it
    else without

-- `matchPending`
unfoldable pub match_pending : List PendingEntry → Text → Result PendingEntry
unfolding match_from
match_pending entries wanted = match_from [] wanted entries

-- What the caller of `Approve` chooses: the routes, where any were named, whether to leave the
-- domain out, and a name.
pub record Choice : Type 0 where
  pub routes : Option (List Prefix)
  pub no_domain : Bool
  pub name : Text

-- The routes before the addresses are looked at, and whether they were asked for.
abbrev pub chosen_routes : Choice → Record → List Prefix × Bool
chosen_routes c r =
    if is_tenant r.kind
    then ([], false)
    else elim c.routes [ some ps ↦ (ps, true) | none ↦ (r.request.routes, false) ]

abbrev pub chosen_domain : Choice → Record → Text
chosen_domain c r = if is_tenant r.kind then [] else if c.no_domain then [] else r.request.domain

abbrev pub chosen_name : Choice → Record → Text
chosen_name c r =
    let wanted = if is_empty c.name then r.request.name else c.name in
    if is_empty wanted then default_name r else wanted

abbrev pub is_some_route : List Prefix → Bool
is_some_route [] = false
is_some_route (_ ∷ _) = true

-- The certificate that is asked for.
unfoldable pub host_of : PendingEntry → Text → List Prefix → Host
unfolding addresses
host_of entry name routes = record {
  name = member_cert_name entry.record_of.kind name entry.instance_name;
  public_key = entry.record_of.request.public_key;
  networks = addresses (entry.record_of.overlay_address ∷ entry.record_of.overlay_address6 ∷ []);
  unsafe_networks = routes;
}

-- The bundle that goes to the hub; what the hub fills in is left empty.
abbrev pub bundle_of : Owned → Text → Bundle
bundle_of owned cert = record {
  certificate = cert;
  ca = owned.ca_cert;
  overlay_address = no_prefix;
  overlay_address6 = no_prefix;
  lighthouse = record {
    overlay_address = invalid;
    overlay_address6 = invalid;
    endpoints = [];
    relay = false;
  };
  mtu = 0;
  instance_name = owned.name;
  blocked = [];
}

-- The decision that goes to the hub.
unfoldable pub decision_of : Owned → Text → List Prefix → Text → Text → Text → Decision
decision_of owned name routes domain cert fingerprint = record {
  status = approved;
  bundle = some (bundle_of owned cert);
  reason = [];
  name = name;
  routes = routes;
  domain = domain;
  cert_fingerprint = fingerprint;
}

unfoldable pub sign_decision :
    Sign → Owned → PendingEntry → Text → List Prefix → Text → Result Decision
unfolding host_of decision_of
sign_decision sign owned entry name routes domain =
    elim (sign owned.ca_cert owned.ca_key (host_of entry name routes)) [
      | none ↦ err cannot_sign
      | some (cert, fingerprint) ↦ ok (decision_of owned name routes domain cert fingerprint)
    ]

-- `Approve`, for the entry that was found: what is sent to the hub.
unfoldable pub approve_decision : Sign → Dict Owned → Choice → PendingEntry → Result Decision
unfolding carriable sign_decision
approve_decision sign owned_all c entry = elim (lookup entry.instance_id owned_all) [
  | none ↦ err not_owned
  | some owned ↦
      let r = entry.record_of in
      let (wished, asked) = chosen_routes c r in
      let (routes, dropped) =
        carriable wished (addresses (r.overlay_address ∷ r.overlay_address6 ∷ [])) in
      if asked && is_some_route dropped
      then err cannot_carry
      else elim (fits_in_a_name r.kind (chosen_name c r) entry.instance_name) [
        | err e ↦ err e
        | ok _ ↦ sign_decision sign owned entry (chosen_name c r) routes (chosen_domain c r)
      ]
]

-- `collect`, once the hub has answered: the bundle, where there is one.
unfoldable pub collected : Answer → Result Bundle
collected a = elim a.status [
  | approved ↦ elim a.bundle [ none ↦ err approved_without_certificate | some b ↦ ok b ]
  | rejected ↦ err refused
  | pending ↦ err still_pending
  | unknown ↦ err still_pending
]

-- What `collect` writes.
unfoldable pub store_bundle : ℕ → Bundle → Connection → Connection
store_bundle now b c = record c {
  certificate = b.certificate;
  ca = b.ca;
  address = b.overlay_address;
  address6 = b.overlay_address6;
  lighthouse = b.lighthouse;
  mtu = b.mtu;
  joined_at = now;
}
