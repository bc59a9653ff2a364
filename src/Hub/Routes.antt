-- ===== src/Hub/Routes.antt =====
-- internal/hub/hub.go and store.go: what the members of an instance read of it.
pub mod Sorted
pub mod Carried
pub mod Answering
use robi_net.Base.{
  ℕ, suc, ◌+◌, Bool, true, false, not, ◌&&◌, ◌||◌, List, [], ◌∷◌, ◌++◌, Option, none, some, Text,
  Dict, is_empty, values, if◌then◌else◌,
}
use robi_net.Net.{Addr, invalid, Prefix, is_prefix}
use robi_net.Result.{Result, ok, err}
use robi_net.Strings.{show_number}
use robi_net.Enroll.{Platform, text_le}
use robi_net.Hub.Types.{Kind, Member, Status, pending, Record, Instance, Lighthouse, banned}
use robi_net.Hub.Store.{Store, get}
use robi_net.Hub.Admission.{is_connector}
use robi_net.Hub.Ban.{is_owner}
use robi_net.Hub.Decision.{Config, join_host_port, blocked_in}

-- `Route`
pub record Route : Type 0 where
  pub prefix : Prefix
  pub via : Addr
  pub connector : Text

-- `Resolver`
pub record Resolver : Type 0 where
  pub domain : Text
  pub via : Addr
  pub via6 : Addr
  pub connector : Text

-- `RouteTable`
pub record RouteTable : Type 0 where
  pub instance_name : Text
  pub overlay : Prefix
  pub lighthouse : Lighthouse
  pub routes : List Route
  pub resolvers : List Resolver
  pub blocked : List Text
  pub mtu : ℕ

-- `sort.Slice` by a text of each element.
module _ {A : Type 0} where
  unfoldable pub insert_by : (A → Text) → A → List A → List A
  insert_by key x [] = x ∷ []
  insert_by key x (y ∷ ys) = if text_le (key x) (key y) then x ∷ y ∷ ys else y ∷ insert_by key x ys

  unfoldable pub sort_by : (A → Text) → List A → List A
  unfolding insert_by
  sort_by key [] = []
  sort_by key (x ∷ xs) = insert_by key x (sort_by key xs)

-- Whether a member is passed over.
unfoldable pub is_silent : Member → Bool
is_silent m = not (is_connector m.kind) || banned m

-- The loop over the routes of one member.
unfoldable pub routes_via : Member → List Prefix → List Route
routes_via m [] = []
routes_via m (p ∷ ps) =
    record { prefix = p; via = m.address.addr; connector = m.name } ∷ routes_via m ps

-- The loop over the members.
unfoldable pub routes_among : List Member → List Route
unfolding is_silent routes_via
routes_among [] = []
routes_among (m ∷ ms) =
    let rest = routes_among ms in if is_silent m then rest else routes_via m m.routes ++ rest

-- `routesOf`
unfoldable pub routes_of : Platform → Instance → List Route
unfolding routes_among sort_by
routes_of pl inst =
    sort_by (λ (r : Route). pl.show_prefix r.prefix) (routes_among (values inst.members))

-- The resolver of one member.
unfoldable pub resolver_via : Member → Resolver
resolver_via m = record {
  domain = m.domain;
  via = m.address.addr;
  via6 = if is_prefix m.address6 then m.address6.addr else invalid;
  connector = m.name;
}

unfoldable pub resolvers_among : List Member → List Resolver
unfolding is_silent resolver_via
resolvers_among [] = []
resolvers_among (m ∷ ms) =
    let rest = resolvers_among ms in
    if is_silent m then rest else if is_empty m.domain then rest else resolver_via m ∷ rest

-- `resolversOf`
unfoldable pub resolvers_of : Instance → List Resolver
unfolding resolvers_among sort_by
resolvers_of inst = sort_by (λ (r : Resolver). r.domain) (resolvers_among (values inst.members))

-- `RouteTableOf`
unfoldable pub route_table_of : Platform → Config → Instance → RouteTable
unfolding routes_of resolvers_of join_host_port blocked_in
route_table_of pl cfg inst = record {
  instance_name = inst.name;
  overlay = inst.overlay;
  lighthouse = record {
    overlay_address = inst.lighthouse_address;
    overlay_address6 = invalid;
    endpoints = join_host_port cfg.public_endpoint (show_number inst.port) ∷ [];
    relay = inst.relay;
  };
  routes = routes_of pl inst;
  resolvers = resolvers_of inst;
  blocked = blocked_in inst;
  mtu = cfg.mtu;
}

-- `Routes`
unfoldable pub routes : Platform → Config → Text → Store → Result RouteTable
routes pl cfg id s = elim (get id s) [ err e ↦ err e | ok inst ↦ ok (route_table_of pl cfg inst) ]

unfoldable pub count_members : List Member → ℕ
count_members [] = 0
count_members (m ∷ ms) =
    let rest = count_members ms in
    if not (is_owner m.kind) && not (banned m) then suc rest else rest

-- `MemberCount`
unfoldable pub member_count : Instance → ℕ
unfolding count_members
member_count inst = count_members (values inst.members)

abbrev pub is_pending : Status → Bool
is_pending pending = true
is_pending _ = false

unfoldable pub pending_among : List Record → List Record
pending_among [] = []
pending_among (r ∷ rs) =
    let rest = pending_among rs in if is_pending r.status then r ∷ rest else rest

-- `Pending`
unfoldable pub pending_of : Text → Store → Result (List Record)
unfolding pending_among
pending_of id s = elim (get id s) [
  | err e ↦ err e
  | ok inst ↦ ok (pending_among (values inst.requests))
]

-- `Members`
unfoldable pub members_of : Text → Store → Result (List Member)
unfolding sort_by
members_of id s = elim (get id s) [
  | err e ↦ err e
  | ok inst ↦ ok (sort_by (λ (m : Member). m.name) (values inst.members))
]
