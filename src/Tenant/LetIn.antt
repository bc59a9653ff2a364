-- ===== src/Tenant/LetIn.antt =====
-- internal/tenant/tenant.go and internal/hub/hub.go: from the owner's approval to the bundle.
use robi_net.Base.{
  ◌≡◌, ◌↔◌, ◌⊎◌, true, List, [], In, none, some, Text, Dict, lookup, is_empty, if◌then◌else◌,
}
use robi_net.Net.{Prefix, is4, is_prefix}
use robi_net.Hub.Types.{approved, Member, Bundle, Record, Decision}
use robi_net.Hub.Admission.{is_tenant}
use robi_net.Hub.Decision.{Answer}
use robi_net.Hub.CertName.{member_cert_name}
use robi_net.Tenant.Naming.{default_name}
use robi_net.Tenant.State.{Owned}
use robi_net.Tenant.Admit.{Sign, Host, Choice}

-- That the machine of a request has an address of the family of a route.
abbrev pub CanCarry : Record → Prefix → Type 0
CanCarry r p =
    (a : Prefix) × ((a ≡ r.overlay_address) ⊎ (a ≡ r.overlay_address6))
    × (is_prefix a ≡ true)
    × (is4 a.addr ≡ is4 p.addr)

-- The routes that the owner wishes for, before the addresses are looked at.
abbrev pub wished_routes : Choice → Record → List Prefix
wished_routes c r =
    if is_tenant r.kind then [] else elim c.routes [ some ps ↦ ps | none ↦ r.request.routes ]

-- What becomes of a request that an owner approves: the member that it is then, and the answer to the
-- applicant.
pub record IsLetIn (sign : Sign) (all : Dict Owned) (c : Choice) (inst id : Text) (r : Record)
    (m : Member) (a : Answer) : Type 0 where
  pub bundle : Bundle
  pub host : Host
  pub owned : Owned
  pub held : lookup id all ≡ some owned
  pub name : m.name ≡ (
      if is_empty c.name
      then (if is_empty r.request.name then default_name r else r.request.name)
      else c.name)
  pub address : m.address ≡ r.overlay_address
  pub address6 : m.address6 ≡ r.overlay_address6
  pub routes : (p : Prefix) → In p m.routes ↔ (In p (wished_routes c r) × CanCarry r p)
  pub domain :
      m.domain ≡ (if is_tenant r.kind then [] else if c.no_domain then [] else r.request.domain)
  pub status : a.status ≡ approved
  pub bundled : a.bundle ≡ some bundle
  pub signed : sign owned.ca_cert owned.ca_key host ≡ some (bundle.certificate, m.cert_fingerprint)
  pub ca : bundle.ca ≡ owned.ca_cert
  pub issued_to : host.name ≡ member_cert_name r.kind m.name inst
  pub key : host.public_key ≡ r.request.public_key
  pub networks :
      (p : Prefix)
      → In p host.networks
        ↔ (((p ≡ r.overlay_address) ⊎ (p ≡ r.overlay_address6)) × (is_prefix p ≡ true))
  pub unsafe_networks : host.unsafe_networks ≡ m.routes
  pub bundle_address : bundle.overlay_address ≡ r.overlay_address
  pub bundle_address6 : bundle.overlay_address6 ≡ r.overlay_address6
