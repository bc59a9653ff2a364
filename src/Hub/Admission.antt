-- ===== src/Hub/Admission.antt =====
-- internal/hub/hub.go: enrollment and the owner's decisions. Each function that runs inside the
-- store's `Update` answers the instance as it leaves it, also where it fails: the source works on
-- pointers into the live state.
use robi_net.Base.{
  ℕ, Bool, true, false, not, ◌&&◌, ◌||◌, List, [], ◌∷◌, Option, none, some, Text, runes, Dict,
  insert, equal, is_empty, length, ltb, if◌then◌else◌,
}
use robi_net.Net.{Addr, is_addr, Prefix, no_prefix, is_prefix, bits, prefix_from}
use robi_net.Result.{
  Result, ok, err, owner_already_in, tenant_announces_routes, bad_mac, key_was_removed,
}
use robi_net.Hub.Types.{
  Kind, connector, tenant, pending, rejected, Burned, Request, Record, Instance,
}
use robi_net.Hub.Ipam.{allocate, allocate6}
use robi_net.Hub.Name.{parse_member_name}
use robi_net.Hub.Store.{Store, update, resolve}
use robi_net.Enroll.{Platform, normalize_pem, hex_encode, verify_mac, validate}

-- `Applicant`
pub record Applicant : Type 0 where
  pub kind : Kind
  pub identity : Text
  pub binder : Text
  pub mac : Text
  pub source_addr : Text

-- `fingerprintOf`
unfoldable pub fingerprint_of : Platform → Text → Text
fingerprint_of pl key = hex_encode (pl.sha256 (normalize_pem key))

-- `Instance.burned`
unfoldable pub burned_in : Text → List Burned → Bool
burned_in fp [] = false
burned_in fp (b ∷ bs) = equal b.fingerprint fp || burned_in fp bs

-- `prefixOf`
unfoldable pub prefix_of : Addr → Prefix → Prefix
prefix_of a overlay =
    if not (is_addr a) || not (is_prefix overlay) then no_prefix else prefix_from a (bits overlay)

abbrev pub is_connector : Kind → Bool
is_connector connector = true
is_connector _ = false

abbrev pub is_tenant : Kind → Bool
is_tenant tenant = true
is_tenant _ = false

-- What an enrollment with a known key does to the stored record.
unfoldable pub refresh : Request → Applicant → Record → Record
refresh req who r =
    let kept = record r { request = req; source_addr = who.source_addr } in
    elim r.status [
      | rejected ↦ record kept { status = pending; reason = []; decided_at = 0 }
      | _ ↦ kept
    ]

-- The loop over the stored requests: the first with this fingerprint.
unfoldable pub find_request : Text → Dict Record → Option (Text × Record)
find_request fp [] = none
find_request fp ((id, r) ∷ rs) =
    let rest = find_request fp rs in if equal r.fingerprint fp then some (id, r) else rest

-- A new record, with the addresses that could be had.
unfoldable pub new_record : Text → ℕ → Request → Applicant → Text → Addr → Addr → Instance → Record
unfolding prefix_of
new_record id now req who fp a a6 inst = record {
  id = id;
  status = pending;
  request = req;
  fingerprint = fp;
  overlay_address = prefix_from a (bits inst.overlay);
  overlay_address6 = prefix_of a6 inst.overlay6;
  source_addr = who.source_addr;
  received_at = now;
  decided_at = 0;
  kind = who.kind;
  identity = who.identity;
  binder = who.binder;
  bundle = none;
  reason = [];
}

-- The address that an allocation answers: none where it failed.
abbrev pub address_in : Result Addr → Addr
address_in (ok a) = a
address_in (err _) = Addr.invalid

-- Both families were tried.
unfoldable pub admit_new :
    Text
    → ℕ
    → Request
    → Applicant
    → Text
    → Result Addr
    → Result Addr
    → Instance
    → Result Record × Instance
unfolding new_record
admit_new id now req who fp r r6 inst =
    let fresh = new_record id now req who fp (address_in r) (address_in r6) inst in
    let failed : Result Record = elim r [
      | err e ↦ err e
      | ok _ ↦ elim r6 [ err e ↦ err e | ok _ ↦ ok fresh ]
    ] in
    if not (is_addr (address_in r)) && not (is_addr (address_in r6))
    then (failed, inst)
    else (ok fresh, record inst { requests = insert id fresh inst.requests })

-- The function that `Enroll` runs inside `Update`.
unfoldable pub enroll_in :
    Platform → Text → ℕ → Request → Applicant → Instance → Result Record × Instance
unfolding burned_in refresh find_request admit_new
enroll_in pl id now req who inst =
    let fp = fingerprint_of pl req.public_key in
    let first = allocate inst fp who.kind in
    let second = allocate6 first.1 fp who.kind in
    if is_connector who.kind
      && not (is_empty inst.shared_token)
      && not (verify_mac pl req inst.shared_token who.mac)
    then (err bad_mac, inst)
    else if burned_in fp inst.burned
    then (err key_was_removed, inst)
    else elim (find_request fp inst.requests) [
      | some (rid, r) ↦ (
        ok (refresh req who r),
        record inst { requests = insert rid (refresh req who r) inst.requests },
      )
      | none ↦ admit_new id now req who fp first.0 second.0 second.1
    ]

-- A connector's name that is no name is kept as a hint.
unfoldable pub name_request : Applicant → Request → Request
name_request who req =
    if is_connector who.kind && not (is_empty req.name)
    then elim (parse_member_name req.name) [
      | ok n ↦ record req { name = n }
      | err _ ↦ record req {
        hints = insert (runes "asked to be called") req.name req.hints;
        name = [];
      }
    ]
    else req

-- Whether the applicant is the owner of what it asks to join.
unfoldable pub owns_target : Text → Applicant → Store → Bool
owns_target ref who s =
    if is_tenant who.kind && not (is_empty who.identity)
    then elim (resolve ref s) [ ok inst ↦ equal inst.owner who.identity | err _ ↦ false ]
    else false

-- What `Enroll` does with a request that passed `Validate`.
unfoldable pub enroll_valid :
    Platform → Bool → Text → ℕ → Text → Request → Applicant → Store → Result Record × Store
unfolding name_request owns_target
enroll_valid pl writable id now ref req who s =
    let named = name_request who req in
    if owns_target ref who s
    then (err owner_already_in, s)
    else if is_tenant who.kind && ltb 0 (length named.routes)
    then (err tenant_announces_routes, s)
    else elim (resolve ref s) [
      | err e ↦ (err e, s)
      | ok target ↦ update writable target.id (enroll_in pl id now named who) s
    ]

-- `Enroll`; `id` is what `newID` gives and `now` the time.
unfoldable pub enroll :
    Platform → Bool → Text → ℕ → Text → Request → Applicant → Store → Result Record × Store
unfolding enroll_valid
enroll pl writable id now ref req who s = elim (validate req) [
  | err e ↦ (err e, s)
  | ok req' ↦ enroll_valid pl writable id now ref req' who s
]
