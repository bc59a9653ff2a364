-- ===== src/Hub/Create.antt =====
-- internal/hub/hub.go: a new instance, its activation and its end.
pub mod Port
pub mod Start
use robi_net.Base.{
  ℕ, zero, suc, ◌+◌, ◌-◌, Bool, true, false, not, ◌&&◌, ◌||◌, List, [], ◌∷◌, Option, none, some,
  Text, Dict, values, is_empty, any_of, ltb, leb, ◌==◌, length, insert, if◌then◌else◌,
}
use robi_net.Net.{Addr, invalid, Prefix, no_prefix, bits, prefix_from}
use robi_net.Result.{Result, ok, err, ◌>>=◌, no_free_port, out_of_fuel, certificates_required}
use robi_net.Strings.{trim_space}
use robi_net.Hub.Types.{Kind, owner, Member, Instance}
use robi_net.Hub.Ipam.{lowest_free}
use robi_net.Hub.Subnet.{Pool, allocate_overlay}
use robi_net.Hub.Store.{Store, add, get, remove, update, used_overlays, used_overlays6, used_ports}
use robi_net.Hub.Admission.{prefix_of}
use robi_net.Hub.Decision.{Config}

unfoldable pub port_taken : ℕ → List ℕ → Bool
port_taken p taken = any_of (λ q. q == p) taken

-- The loop of `freePort`, from port `p` on.
unfoldable pub free_from : ℕ → ℕ → ℕ → List ℕ → Result ℕ
unfolding port_taken
free_from zero p port_max taken = err out_of_fuel
free_from (suc fuel) p port_max taken =
    let rest = free_from fuel (p + 1) port_max taken in
    if ltb port_max p
    then err no_free_port
    else if not (port_taken p taken)
    then ok p
    else if p == port_max
    then err no_free_port
    else rest

-- `freePort`
unfoldable pub free_port : Config → List ℕ → Result ℕ
unfolding free_from
free_port cfg taken = free_from (suc (cfg.port_max - cfg.port_min)) cfg.port_min cfg.port_max taken

-- `reserveLighthouse`
unfoldable pub reserve_lighthouse : Prefix → Result Addr
reserve_lighthouse p = lowest_free p []

-- The prefix of an instance, with the lighthouse's address and the owner's in it.
pub record Plan : Type 0 where
  pub overlay : Prefix
  pub lighthouse : Addr
  pub tenant : Addr

unfoldable pub plan_in : List Pool → List Prefix → Result Plan
unfolding reserve_lighthouse
plan_in pools taken = allocate_overlay pools taken >>= λ overlay.
    reserve_lighthouse overlay >>= λ lighthouse. lowest_free overlay (lighthouse ∷ []) >>= λ tenant.
    ok (record { overlay = overlay; lighthouse = lighthouse; tenant = tenant })

-- The IPv6 side: nothing, where the hub has no pool of that family.
unfoldable pub plan6_in : List Pool → List Prefix → Result Plan
unfolding plan_in
plan6_in [] taken = ok (record { overlay = no_prefix; lighthouse = invalid; tenant = invalid })
plan6_in (p ∷ ps) taken = plan_in (p ∷ ps) taken

-- What a caller asks for, and what is drawn at random: the id and the lighthouse's key pair.
pub record Order : Type 0 where
  pub id : Text
  pub now : ℕ
  pub binder : Text
  pub owner : Text
  pub name : Text
  pub shared_token : Text
  pub keys : Result (Text × Text)

unfoldable pub owner_member : Order → Plan → Plan → Member
owner_member o p p6 = record {
  kind = owner;
  name = o.name;
  fingerprint = [];
  identity = o.owner;
  binder = o.binder;
  address = prefix_from p.tenant (bits p.overlay);
  address6 = prefix_of p6.tenant p6.overlay;
  routes = [];
  domain = [];
  cert_fingerprint = [];
  events = [];
  joined_at = o.now;
}

unfoldable pub new_instance : Config → Order → Plan → ℕ → Plan → Text × Text → Instance
unfolding owner_member
new_instance cfg o p port p6 keys = record {
  id = o.id;
  name = o.name;
  owner = o.owner;
  binder = o.binder;
  overlay = p.overlay;
  overlay6 = p6.overlay;
  port = port;
  lighthouse_address = p.lighthouse;
  lighthouse_address6 = p6.lighthouse;
  tenant_address = p.tenant;
  tenant_address6 = p6.tenant;
  lighthouse_public_key = keys.0;
  lighthouse_key = keys.1;
  lighthouse_cert = [];
  ca_cert = [];
  relay = cfg.relay;
  shared_token = o.shared_token;
  allocations = [];
  allocations6 = [];
  requests = [];
  members = (o.owner, owner_member o p p6) ∷ [];
  burned = [];
  created_at = o.now;
}

-- What `CreateInstance` settles before it adds the instance.
unfoldable pub plan_instance : Config → Order → List Instance → Result Instance
unfolding plan_in plan6_in free_port new_instance
plan_instance cfg o is = allocate_overlay cfg.overlays (used_overlays is) >>= λ overlay.
    free_port cfg (used_ports is) >>= λ port. reserve_lighthouse overlay >>= λ lighthouse.
    lowest_free overlay (lighthouse ∷ []) >>= λ tenant.
    plan6_in cfg.overlays6 (used_overlays6 is) >>= λ p6. o.keys >>= λ keys. ok (
      new_instance cfg o (record { overlay = overlay; lighthouse = lighthouse; tenant = tenant })
        port p6 keys)

-- `CreateInstance`
unfoldable pub create_instance : Config → Bool → Order → Store → Result Instance × Store
unfolding plan_instance
create_instance cfg writable o s = elim (plan_instance cfg o (values s.state.instances)) [
  | err e ↦ (err e, s)
  | ok inst ↦
      let (r, s') = add writable inst s in elim r [ ok _ ↦ (ok inst, s') | err e ↦ (err e, s') ]
]

-- The function that `ActivateInstance` runs.
unfoldable pub activate_in : Text → Text → Instance → Result (Unit {0}) × Instance
activate_in ca_cert lighthouse_cert inst =
    if is_empty (trim_space ca_cert) || is_empty (trim_space lighthouse_cert)
    then (err certificates_required, inst)
    else (ok tt, record inst { ca_cert = ca_cert; lighthouse_cert = lighthouse_cert })

-- `Delete`
unfoldable pub delete : Bool → Text → Store → Result (Unit {0}) × Store
delete writable id s = elim (get id s) [ err e ↦ (err e, s) | ok inst ↦ remove writable inst.id s ]
