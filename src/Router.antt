-- ===== src/Router.antt =====
-- internal/tenant/dnsrouter.go: which connector a question goes to, and under which name.
pub mod Suffix
pub mod Match
pub mod Rewrite
use robi_net.Base.{
  ℕ, Bool, true, false, not, ◌&&◌, ◌||◌, List, [], ◌∷◌, ◌++◌, Option, none, some, Text, equal,
  is_empty, any_of, ltb, ◌==◌, if◌then◌else◌,
}
use robi_net.Net.{Addr}
use robi_net.Strings.{to_lower, trim_dot, byte_length}
use robi_net.Enroll.{root_domain}

-- `routerRoute`
pub record RouterRoute : Type 0 where
  pub virtual : Text
  pub real : Text
  pub via : Addr
  pub ipv4 : Bool
  pub ipv6 : Bool

-- `HasSuffix` and `TrimSuffix`
unfoldable pub has_suffix : Text → Text → Bool
has_suffix [] suffix = is_empty suffix
has_suffix (c ∷ cs) suffix = equal (c ∷ cs) suffix || has_suffix cs suffix

unfoldable pub trim_suffix : Text → Text → Text
trim_suffix [] suffix = []
trim_suffix (c ∷ cs) suffix =
    let rest = trim_suffix cs suffix in if equal (c ∷ cs) suffix then [] else c ∷ rest

-- The test in the loop of `match`.
unfoldable pub belongs : Text → RouterRoute → Bool
unfolding has_suffix
belongs name r = equal name r.virtual || has_suffix name (b'.' ∷ r.virtual)

-- The loop of `match`, with the best route so far.
unfoldable pub match_from : Text → Option RouterRoute → List RouterRoute → Option RouterRoute
unfolding belongs
match_from name best [] = best
match_from name best (r ∷ rs) =
    let skip = match_from name best rs in
    let take_it = match_from name (some r) rs in
    if not (belongs name r) then skip else elim best [
      | none ↦ take_it
      | some b ↦ if ltb (byte_length b.virtual) (byte_length r.virtual) then take_it else skip
    ]

-- `match`
unfoldable pub match_route : List RouterRoute → Text → Option RouterRoute
unfolding match_from
match_route routes name = match_from (to_lower (trim_dot name)) none routes

-- `bare`
abbrev pub bare : RouterRoute → Bool
bare r = equal r.real root_domain

-- `rewrite`
unfoldable pub rewrite : RouterRoute → Text → Text
unfolding trim_suffix
rewrite r name =
    let trimmed = trim_dot (to_lower name) in
    let asked = trim_suffix trimmed (b'.' ∷ r.virtual) in
    if equal trimmed r.virtual
    then root_domain
    else if bare r
    then asked ++ (b'.' ∷ [])
    else asked ++ (b'.' ∷ (r.real ++ (b'.' ∷ [])))

-- `restore`
unfoldable pub restore : RouterRoute → Text → Text
unfolding has_suffix trim_suffix
restore r name =
    let trimmed = trim_dot (to_lower name) in
    if bare r
    then if not (is_empty trimmed) && not (any_of (λ c. c == b'.') trimmed)
      then trimmed ++ (b'.' ∷ (r.virtual ++ (b'.' ∷ [])))
      else name
    else if equal trimmed r.real
    then r.virtual ++ (b'.' ∷ [])
    else if has_suffix trimmed (b'.' ∷ r.real)
    then trim_suffix trimmed (b'.' ∷ r.real) ++ (b'.' ∷ (r.virtual ++ (b'.' ∷ [])))
    else name

-- Whether a name space was listed already.
unfoldable pub listed : Text → List Text → Bool
listed v [] = false
listed v (w ∷ ws) = equal w v || listed v ws

-- The loop of `Domains`.
unfoldable pub domains_from : List Text → List RouterRoute → List Text
unfolding listed
domains_from seen [] = []
domains_from seen (r ∷ rs) =
    let skip = domains_from seen rs in
    let take_it = domains_from (r.virtual ∷ seen) rs in
    if listed r.virtual seen then skip else r.virtual ∷ take_it

-- `Domains`
unfoldable pub domains : List RouterRoute → List Text
unfolding domains_from
domains routes = domains_from [] routes
