-- ===== src/Tenant/Table.antt =====
-- internal/tenant/dnsrouter.go: what the router of one connection answers for.
use robi_net.Base.{
  ℕ, Bool, true, false, not, ◌&&◌, List, [], ◌∷◌, ◌++◌, none, some, Text, Dict, equal, is_empty,
  ◌==◌, if◌then◌else◌,
}
use robi_net.Net.{Addr, is4, is_addr, same_addr}
use robi_net.Strings.{to_lower, trim_space, trim_dot}
use robi_net.Enroll.{root_domain}
use robi_net.Hub.CertName.{cert_suffix}
use robi_net.Hub.Routes.{Route, Resolver, RouteTable}
use robi_net.Router.{RouterRoute, match_route}
use robi_net.Tenant.Naming.{suffix}

-- What the first loop notes of a connector: whether it has a route of the family.
unfoldable pub carries : Bool → Addr → List Route → Bool
carries four via [] = false
carries four via (r ∷ rs) =
    let rest = carries four via rs in
    if same_addr r.via via && (if four then is4 r.prefix.addr else not (is4 r.prefix.addr))
    then true
    else rest

-- `strings.ReplaceAll` of one rune by a hyphen
unfoldable pub hyphened : ℕ → Text → Text
hyphened c [] = []
hyphened c (x ∷ xs) = (if x == c then b'-' else x) ∷ hyphened c xs

-- The name that stands for a connector; the text of an address is netip's.
unfoldable pub connector_name : (Addr → Text) → Resolver → Text
unfolding hyphened
connector_name show_addr r =
    if is_empty r.connector then hyphened b':' (hyphened b'.' (show_addr r.via)) else r.connector

-- The domain of a resolver without its dot, but for the root.
unfoldable pub real_domain : Text → Text
real_domain domain =
    let folded = to_lower (trim_space domain) in
    if not (equal folded root_domain) then trim_dot folded else folded

unfoldable pub route_for : (Addr → Text) → Text → List Route → Resolver → RouterRoute
unfolding connector_name real_domain carries
route_for show_addr inst routes r = record {
  virtual = to_lower (connector_name show_addr r ++ (b'.' ∷ (inst ++ (b'.' ∷ suffix))));
  real = real_domain r.domain;
  via = r.via;
  ipv4 = carries true r.via routes;
  ipv6 = carries false r.via routes;
}

-- The loop over the resolvers.
unfoldable pub routes_for : (Addr → Text) → Text → List Route → List Resolver → List RouterRoute
unfolding route_for
routes_for show_addr inst routes [] = []
routes_for show_addr inst routes (r ∷ rs) =
    let rest = routes_for show_addr inst routes rs in
    if not (is_addr r.via) then rest else route_for show_addr inst routes r ∷ rest

-- The name space of the lighthouse.
unfoldable pub lighthouse_routes : Text → Addr → List RouterRoute
lighthouse_routes inst lighthouse =
    if is_addr lighthouse
    then record {
      virtual = to_lower (inst ++ (b'.' ∷ cert_suffix));
      real = to_lower (inst ++ (b'.' ∷ cert_suffix));
      via = lighthouse;
      ipv4 = true;
      ipv6 = true;
    }
      ∷ []
    else []

-- `routerTableFor`
unfoldable pub router_table_for : (Addr → Text) → RouteTable → Text → List RouterRoute
unfolding routes_for lighthouse_routes
router_table_for show_addr table inst =
    routes_for show_addr inst table.routes table.resolvers
    ++ lighthouse_routes inst table.lighthouse.overlay_address

-- `withAliases`
unfoldable pub with_aliases : List RouterRoute → Dict Text → List RouterRoute
with_aliases t [] = t
with_aliases t ((alias, canonical) ∷ more) = elim (match_route t canonical) [
  | none ↦ with_aliases t more
  | some route ↦ with_aliases (t ++ record route { virtual = to_lower (trim_dot alias) } ∷ []) more
]
