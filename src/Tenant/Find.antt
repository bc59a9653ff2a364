-- ===== src/Tenant/Find.antt =====
-- internal/tenant/tenant.go: how the daemon finds what was typed. What the hub answers is an argument.
use robi_net.Base.{
  Bool, not, ◌&&◌, ◌||◌, List, [], ◌∷◌, ◌++◌, Option, none, some, Text, equal, is_empty,
  if◌then◌else◌,
}
use robi_net.Result.{Result, ok, err, Error, not_found, ambiguous, name_required}
use robi_net.Strings.{to_lower, trim_space, has_prefix}
use robi_net.Hub.Types.{Member}
use robi_net.Hub.Api.{InstanceSummary}
use robi_net.Tenant.State.{Owned}

-- The loop of `resolveInstance`: the first one that fits.
unfoldable pub first_named : Text → List InstanceSummary → Result InstanceSummary
first_named wanted [] = err not_found
first_named wanted (inst ∷ more) =
    let rest = first_named wanted more in
    if equal inst.id wanted
      || equal (to_lower inst.name) (to_lower (trim_space wanted))
      || has_prefix inst.id wanted
    then ok inst
    else rest

-- `resolveInstance`
unfoldable pub resolve_instance : Result (List InstanceSummary) → Text → Result InstanceSummary
unfolding first_named
resolve_instance instances wanted = elim instances [
  | err e ↦ err e
  | ok all ↦ first_named wanted all
]

-- `ownedMember`
pub record OwnedMember : Type 0 where
  pub owned : Owned
  pub member : Member

-- The test of one member, and the one of an instance that is passed over.
abbrev pub fits : Text → Member → Bool
fits ref m = equal m.name ref || has_prefix m.fingerprint ref

-- `strings.EqualFold` is an argument.
abbrev pub is_elsewhere : (Text → Text → Bool) → Text → Owned → Bool
is_elsewhere equal_fold inst o =
    not (is_empty inst) && not (equal_fold o.name inst) && not (equal o.instance_id inst)

-- The loop over the members of one instance.
unfoldable pub members_named : Text → Owned → List Member → List OwnedMember
members_named ref o [] = []
members_named ref o (m ∷ ms) =
    let rest = members_named ref o ms in
    if fits ref m then record { owned = o; member = m } ∷ rest else rest

-- What the loop over the instances has found, and the last answer that could not be read.
unfoldable pub find_from :
    (Text → Text → Bool)
    → (Text → Result (List Member))
    → Text
    → Text
    → List OwnedMember
    → Option Error
    → List Owned
    → List OwnedMember × Option Error
unfolding members_named
find_from equal_fold ask ref inst found unread [] = (found, unread)
find_from equal_fold ask ref inst found unread (o ∷ os) =
    let skipped = find_from equal_fold ask ref inst found unread os in
    if is_elsewhere equal_fold inst o then skipped else elim (ask o.instance_id) [
      | err e ↦ find_from equal_fold ask ref inst found (some e) os
      | ok members ↦
          find_from equal_fold ask ref inst (found ++ members_named ref o members) unread os
    ]

-- What is made of it.
unfoldable pub the_one : List OwnedMember → Option Error → Result OwnedMember
the_one (m ∷ []) unread = ok m
the_one [] none = err not_found
the_one [] (some e) = err e
the_one (m ∷ n ∷ ms) unread = err ambiguous

-- `findMember`
unfoldable pub find_member :
    (Text → Text → Bool)
    → (Text → Result (List Member))
    → List Owned
    → Text
    → Text
    → Result OwnedMember
unfolding find_from the_one
find_member equal_fold ask owned ref inst =
    if is_empty ref
    then err name_required
    else let (found, unread) = find_from equal_fold ask ref inst [] none owned in
      the_one found unread
