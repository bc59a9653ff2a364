-- ===== src/Tests/Addresses.antt =====
-- Addresses: a /24, the pools, the ports, an allocation, a new instance.
use robi_net.Base.{
  ◌<◌, ◌≡◌, refl, true, false, List, [], ◌∷◌, none, some, runes, lookup, arith, values,
}
use robi_net.Net.{
  v4, Addr, ip, invalid, Prefix, no_prefix, contains, prefix_from, masked, next, same_addr, span,
  capacity,
}
use robi_net.Result.{ok}
use robi_net.Hub.Types.{owner, Instance}
use robi_net.Hub.Ipam.{used, is_broadcast, lowest_from, lowest_free, highest_free}
use robi_net.Hub.Ipam.Free.{IsLowest, IsHighest, lowest_free-IsLowest, highest_free-IsHighest}
use robi_net.Hub.Subnet.{
  Pool, allocate_overlay, carve_pools, carve, used_prefix, next_subnet, add_at, as16, bytes,
  from_bytes, value,
}
use robi_net.Net.{same_prefix}
use robi_net.Hub.Admission.{prefix_of}
use robi_net.Hub.Subnet.Overlay.{IsPool, Allocates, allocate_overlay-Allocates}
use robi_net.Hub.Store.{update, Store, resolve, used_ports, used_overlays}
use robi_net.Hub.Store.Saved.{IsSaved, update-IsSaved}
use robi_net.Hub.Ban.{ban_in}
use robi_net.Hub.Store.Laws.{resolve_lem, the_only, named_in}
use robi_net.Strings.{to_lower, trim_space}
use robi_net.Hub.Create.{
  Order, plan_instance, plan6_in, free_port, free_from, port_taken, reserve_lighthouse,
  new_instance, owner_member,
}
use robi_net.Hub.Create.Start.{IsStarted, plan_instance-ok}
use robi_net.Tests.{net, home, config}

-- 10.0.0.1 is held.
abbrev held : List Addr
held = ip v4 167772161 ∷ []

in_v4 : 167772160 < capacity v4
unfolding capacity
in_v4 = omega arith

lowest_free-IsLowest_example : IsLowest net v4 167772160 refl refl held (lowest_free net held)
lowest_free-IsLowest_example = lowest_free-IsLowest net v4 167772160 refl refl in_v4 held

highest_free-IsHighest_example : IsHighest net v4 167772160 refl refl held (highest_free net held)
highest_free-IsHighest_example = highest_free-IsHighest net v4 167772160 refl refl in_v4 held

abbrev pool : Pool
pool = record { prefix = record { addr = ip v4 167772160; bits_plus_one = 17 }; size = 24 }

pool-IsPool : IsPool pool
pool-IsPool = record {
  family = v4;
  number = 167772160;
  at = refl;
  valid = refl;
  inside = in_v4;
  covers = omega arith;
  fits = omega arith;
}

allocate_overlay-Allocates_example :
    Allocates (pool ∷ []) (pool-IsPool, tt) (net ∷ []) (allocate_overlay (pool ∷ []) (net ∷ []))
allocate_overlay-Allocates_example = allocate_overlay-Allocates pool [] (pool-IsPool, tt) (net ∷ [])

abbrev order : Order
order = record {
  id = runes "i2";
  now = 1;
  binder = [];
  owner = runes "bob";
  name = runes "office";
  shared_token = [];
  keys = ok ([], []);
}

abbrev office_net : Prefix
office_net = record { addr = ip v4 167772416; bits_plus_one = 25 }

abbrev office : Instance
office = record {
  id = runes "i2";
  name = runes "office";
  owner = runes "bob";
  binder = [];
  overlay = office_net;
  overlay6 = no_prefix;
  port = 4243;
  lighthouse_address = ip v4 167772417;
  lighthouse_address6 = invalid;
  tenant_address = ip v4 167772418;
  tenant_address6 = invalid;
  lighthouse_public_key = [];
  lighthouse_key = [];
  lighthouse_cert = [];
  ca_cert = [];
  relay = false;
  shared_token = [];
  allocations = [];
  allocations6 = [];
  requests = [];
  members =
      (
        runes "bob",
        record {
          kind = owner;
          name = runes "office";
          fingerprint = [];
          identity = runes "bob";
          binder = [];
          address = record { addr = ip v4 167772418; bits_plus_one = 25 };
          address6 = no_prefix;
          routes = [];
          domain = [];
          cert_fingerprint = [];
          events = [];
          joined_at = 1;
        },
      )
      ∷ [];
  burned = [];
  created_at = 1;
}

planned : plan_instance config order (home ∷ []) ≡ ok office
unfolding plan_instance allocate_overlay carve_pools carve used_prefix used_overlays used_ports
    free_port free_from port_taken reserve_lighthouse plan6_in new_instance owner_member prefix_of
    lowest_free lowest_from used is_broadcast masked contains next same_addr span capacity
    prefix_from same_prefix next_subnet add_at as16 bytes from_bytes value
planned = refl

config_pool-IsPool :
    IsPool (record { prefix = record { addr = ip v4 167772160; bits_plus_one = 17 }; size = 24 })
config_pool-IsPool = record {
  family = v4;
  number = 167772160;
  at = refl;
  valid = refl;
  inside = in_v4;
  covers = omega arith;
  fits = omega arith;
}

plan_instance-ok_example : IsStarted config (config_pool-IsPool, tt) (home ∷ []) office
plan_instance-ok_example =
    plan_instance-ok config order (home ∷ []) (config_pool-IsPool, tt) tt (omega arith) planned

abbrev store : Store
store = record {
  state = record { instances = (runes "i1", home) ∷ []; identities = [] };
  file = record { instances = []; identities = [] };
}

resolve_lem_example :
    resolve (runes " HOME ") store ≡ (elim (lookup (runes " HOME ") store.state.instances) [
      | some i ↦ ok i
      | none ↦
          the_only
            (named_in (to_lower (trim_space (runes " HOME "))) (values store.state.instances))
    ])
resolve_lem_example = resolve_lem (runes " HOME ") store

update-IsSaved_example :
    IsSaved store (update true (runes "i1") (ban_in 8 (runes "printer") []) store)
update-IsSaved_example = update-IsSaved true (runes "i1") (ban_in 8 (runes "printer") []) store
