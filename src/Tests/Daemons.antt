-- ===== src/Tests/Daemons.antt =====
-- The daemons: what a joining machine calls itself, and what the owner approves.
use robi_net.Base.{List, inl}
use robi_net.Base.{
  ℕ, ◌+◌, ◌<◌, ◌≡◌, ◌⊎◌, refl, true, false, [], ◌∷◌, In, ◌↔◌, none, some, Text, runes, lookup,
  equal, length, values, arith,
}
use robi_net.Result.{Result, ok}
use robi_net.Tenant.Find.{OwnedMember, fits, find_member, find_from, the_one, members_named}
use robi_net.Tenant.Found.{find_member_only}
use robi_net.Strings.{to_lower, trim_space, lower_rune}
use robi_net.Hub.Types.{Member}
use robi_net.Hub.Routes.{Route, routes_of, is_silent}
use robi_net.Hub.Ban.{ban_in, member_in, refers}
use robi_net.Hub.Types.{Instance, banned}
use robi_net.Strings.{has_prefix}
use robi_net.Hub.Types.{Decision}
use robi_net.Tenant.State.{Owned, Data, devices, next_device, device_name, is_taken}
use robi_net.Tenant.Devices.{next_device-free}
use robi_net.Tenant.Admit.{Sign, PendingEntry, Choice, decision_of}
use robi_net.Hub.Routes.Carried.{texts_of, IsConnectors, routes_of_iff, ban_in-routes_of}
use robi_net.Hub.Routes.Sorted.{AreAscending}
use robi_net.Tenant.Naming.{as_label, has_double, collapse}
use robi_net.Tenant.Folded.{IsFolded, as_label-IsFolded, collapse-no_double}
use robi_net.Tests.{home, toy, printer, net, key, asked}

abbrev hyphens : Text
hyphens = runes "a--b"

collapse-no_double_example : has_double (collapse (length hyphens) hyphens) ≡ false
collapse-no_double_example = collapse-no_double (length hyphens) hyphens (omega arith)

fridge : as_label (runes "My Fridge") ≡ some (runes "my-fridge")
unfolding as_label to_lower lower_rune trim_space
fridge = refl

as_label-IsFolded_example : IsFolded (runes "my-fridge")
as_label-IsFolded_example = as_label-IsFolded (runes "My Fridge") (runes "my-fridge") fridge

abbrev fresh : Data
fresh = record {
  hub_url = [];
  identity = [];
  binder = [];
  name = [];
  families = [];
  inbound = [];
  cheats = [];
  aliases = [];
  owned = [];
  connections = [];
}

next_device-free_example :
    let taken = devices (values fresh.connections) in
    (is_taken (next_device fresh) taken ≡ false)
    ⊎ ((next_device fresh ≡ runes "robinet255")
        × (is_taken (runes "robinet255") taken ≡ true)
        × ((j : ℕ) → j < 256 → is_taken (device_name j) taken ≡ true))
next_device-free_example = next_device-free fresh

-- A printer with a route.
abbrev router : Member
router = record printer { routes = net ∷ [] }

abbrev routed : Instance
routed = record home { members = (key, router) ∷ [] }

routes_of_iff_example :
    AreAscending (texts_of toy (routes_of toy routed))
    × ((x : Route) → In x (routes_of toy routed) ↔ IsConnectors x (values routed.members))
routes_of_iff_example = routes_of_iff toy routed

by_name : member_in (runes "printer") routed.members ≡ some (key, router)
unfolding member_in refers equal lookup has_prefix
by_name = refl

in_place : lookup key routed.members ≡ some router
unfolding lookup equal
in_place = refl

loud : is_silent router ≡ false
unfolding is_silent banned
loud = refl

ban_in-routes_of_example :
    let later = (ban_in 8 (runes "printer") (runes "lost") routed).1 in
    (length (routes_of toy later) + length router.routes ≡ length (routes_of toy routed))
    × ((x : Route) → In x (routes_of toy later) → In x (routes_of toy routed))
ban_in-routes_of_example =
    ban_in-routes_of toy 8 (runes "printer") (runes "lost") key router routed by_name in_place loud

-- An authority that signs everything.
abbrev signing : Sign
signing = λ ca ca_key who. some (runes "cert", runes "c1")

abbrev at_home : Owned
at_home = record {
  instance_id = runes "i1";
  name = runes "home";
  ca_cert = runes "ca";
  ca_key = [];
  shared_token = [];
}

abbrev waiting : PendingEntry
waiting = record {
  instance_name = runes "home";
  instance_id = runes "i1";
  record_of = asked;
  will_be_called = [];
  routes = [];
  dropped = [];
  domain = [];
}

abbrev as_asked : Choice
as_asked = record { routes = none; no_domain = false; name = [] }

abbrev told : Decision
told = decision_of at_home (runes "printer") [] [] (runes "cert") (runes "c1")

abbrev the_printer : OwnedMember
the_printer = record { owned = at_home; member = printer }

abbrev listing : Text → Result (List Member)
listing inst = ok (printer ∷ [])

one_printer :
    find_member equal listing (at_home ∷ []) (runes "printer") []
    ≡ ok (record { owned = at_home; member = printer })
unfolding find_member find_from the_one members_named equal has_prefix
one_printer = refl

it_fits : fits (runes "printer") printer ≡ true
unfolding equal has_prefix
it_fits = refl

find_member_only_example : the_printer ≡ record { owned = at_home; member = printer }
find_member_only_example =
    find_member_only equal listing (runes "printer") [] (at_home ∷ [])
      (record { owned = at_home; member = printer }) one_printer at_home printer (printer ∷ [])
      (inl refl) refl refl (inl refl) it_fits
