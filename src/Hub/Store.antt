-- ===== src/Hub/Store.antt =====
-- internal/hub/store.go: the state of the hub, in memory and in its file. The store's lock makes
-- each operation one step. Whether the file can be written is an argument, `writable`.
pub mod Laws
pub mod Saved
pub mod Frame
use robi_net.Base.{
  ℕ, ◌+◌, Bool, true, false, not, ◌&&◌, ◌||◌, List, [], ◌∷◌, Option, none, some, Text, Dict, lookup,
  insert, erase, values, equal, is_empty, ltb, leb, ◌==◌, if◌then◌else◌,
}
use robi_net.Net.{Prefix, no_prefix, is_prefix}
use robi_net.Result.{
  Result, ok, err, not_found, ambiguous, instance_exists, instance_name_taken, save_failed,
}
use robi_net.Strings.{to_lower, trim_space}
use robi_net.Hub.Types.{Instance, Member, owner, banned}

pub record Registration : Type 0 where
  pub identity : Text
  pub binder : Text
  pub name : Text
  pub key : Text
  pub registered_at : ℕ
  pub last_seen_at : ℕ

pub record State : Type 0 where
  pub instances : Dict Instance
  pub identities : Dict Registration

-- What the daemon works on, and what its file holds.
pub record Store : Type 0 where
  pub state : State
  pub file : State

-- `save`: the file is replaced whole, or kept.
unfoldable pub save : Bool → Store → Result (Unit {0}) × Store
save writable s = if writable then (ok tt, record s { file = s.state }) else (err save_failed, s)

-- The state with other instances.
abbrev pub with_instances : Store → Dict Instance → Store
with_instances s is = record s { state = record s.state { instances = is } }

-- `Register`
unfoldable pub register : Bool → ℕ → Registration → Store → Result (Unit {0}) × Store
unfolding save
register writable now r s =
    let known : Registration = elim (lookup r.identity s.state.identities) [
      | some existing ↦ record existing {
        binder = r.binder;
        name = r.name;
        key = r.key;
        last_seen_at = now;
      }
      | none ↦ record r { registered_at = now }
    ] in
    save writable (record s {
      state = record s.state { identities = insert r.identity known s.state.identities };
    })

-- `Identity`
unfoldable pub identity_of : Text → Store → Result Registration
identity_of identity s = elim (lookup identity s.state.identities) [
  | some r ↦ ok r
  | none ↦ err not_found
]

-- What `Update` does once the function has run: the instance is changed in memory at once, also
-- where the function then failed, and is written to the file only if it did not.
unfoldable pub finish_update :
    {A : Type 0} → Bool → Text → Store → Result A × Instance → Result A × Store
unfolding save
finish_update writable id s (err e, inst) =
    (err e, with_instances s (insert id inst s.state.instances))
finish_update writable id s (ok a, inst) =
    let (r, s') = save writable (with_instances s (insert id inst s.state.instances)) in
    elim r [ ok _ ↦ (ok a, s') | err e ↦ (err e, s') ]

-- `Update`; the function answers the instance that it leaves.
unfoldable pub update :
    {A : Type 0} → Bool → Text → (Instance → Result A × Instance) → Store → Result A × Store
unfolding finish_update
update writable id fn s = elim (lookup id s.state.instances) [
  | none ↦ (err not_found, s)
  | some inst ↦ finish_update writable id s (fn inst)
]

unfoldable pub name_used : Text → List Instance → Bool
name_used name [] = false
name_used name (i ∷ is) = equal i.name name || name_used name is

-- `Add`
unfoldable pub add : Bool → Instance → Store → Result (Unit {0}) × Store
unfolding save name_used
add writable inst s = elim (lookup inst.id s.state.instances) [
  | some _ ↦ (err instance_exists, s)
  | none ↦
      if name_used inst.name (values s.state.instances)
      then (err instance_name_taken, s)
      else save writable (with_instances s (insert inst.id inst s.state.instances))
]

-- `Remove`
unfoldable pub remove : Bool → Text → Store → Result (Unit {0}) × Store
unfolding save
remove writable id s = elim (lookup id s.state.instances) [
  | none ↦ (err not_found, s)
  | some _ ↦ save writable (with_instances s (erase id s.state.instances))
]

-- `Get`
unfoldable pub get : Text → Store → Result Instance
get id s = elim (lookup id s.state.instances) [ some inst ↦ ok inst | none ↦ err not_found ]

-- The loop of `Resolve`, with the instance found so far.
unfoldable pub find_named : Text → Option Instance → List Instance → Result Instance
find_named name found [] = elim found [ some inst ↦ ok inst | none ↦ err not_found ]
find_named name found (i ∷ is) =
    let skip = find_named name found is in
    let take_it = find_named name (some i) is in
    if not (equal i.name name) then skip else elim found [ some _ ↦ err ambiguous | none ↦ take_it ]

-- `Resolve`
unfoldable pub resolve : Text → Store → Result Instance
unfolding find_named
resolve ref s = elim (lookup ref s.state.instances) [
  | some inst ↦ ok inst
  | none ↦ find_named (to_lower (trim_space ref)) none (values s.state.instances)
]

-- `UsedOverlays`, `UsedOverlays6` and `UsedPorts`
unfoldable pub used_overlays : List Instance → List Prefix
used_overlays [] = []
used_overlays (i ∷ is) = i.overlay ∷ used_overlays is

unfoldable pub used_overlays6 : List Instance → List Prefix
used_overlays6 [] = []
used_overlays6 (i ∷ is) =
    let rest = used_overlays6 is in if is_prefix i.overlay6 then i.overlay6 ∷ rest else rest

unfoldable pub used_ports : List Instance → List ℕ
used_ports [] = []
used_ports (i ∷ is) = i.port ∷ used_ports is

-- `MemberOf`. The loop over the members finds the first with the identity that is not banned; the
-- owner belongs without standing among them.
unfoldable pub find_identity : Text → List Member → Option Member
find_identity identity [] = none
find_identity identity (m ∷ ms) =
    let rest = find_identity identity ms in
    if equal m.identity identity && not (banned m) then some m else rest

abbrev pub bare_owner : Text → Member
bare_owner identity = record {
  kind = owner;
  name = [];
  fingerprint = [];
  identity = identity;
  binder = [];
  address = no_prefix;
  address6 = no_prefix;
  routes = [];
  domain = [];
  cert_fingerprint = [];
  events = [];
  joined_at = 0;
}

unfoldable pub member_of : Text → Instance → Option Member
unfolding find_identity
member_of identity inst =
    if is_empty identity then none else elim (find_identity identity (values inst.members)) [
      | some m ↦ some m
      | none ↦ if equal identity inst.owner then some (bare_owner identity) else none
    ]
