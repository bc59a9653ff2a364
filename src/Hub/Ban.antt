-- ===== src/Hub/Ban.antt =====
-- internal/hub/hub.go: bans, and the removal of members.
pub mod Effects
use robi_net.Base.{
  ℕ, ◌+◌, Bool, true, false, not, ◌&&◌, ◌||◌, List, [], ◌∷◌, ◌++◌, Option, none, some, Text, Dict,
  lookup, insert, erase, equal, is_empty, if◌then◌else◌,
}
use robi_net.Result.{
  Result, ok, err, not_found, already_banned, not_banned, owner_cannot_be_removed, token_required,
  lighthouse_failed,
}
use robi_net.Strings.{has_prefix}
use robi_net.Hub.Types.{
  Kind, owner, EventKind, ban, unban, Member, MemberEvent, Burned, Record, Instance, banned,
}
use robi_net.Hub.Store.{Store, update}

-- Whether a reference means the member under this key.
unfoldable pub refers : Text → Text → Member → Bool
refers ref fp m = equal fp ref || has_prefix fp ref || equal m.name ref

-- `memberIn`: the first that fits, in the order in which the map is walked.
unfoldable pub member_in : Text → Dict Member → Option (Text × Member)
unfolding refers
member_in ref [] = none
member_in ref ((fp, m) ∷ ms) =
    let rest = member_in ref ms in if refers ref fp m then some (fp, m) else rest

-- A member with one more event.
abbrev pub with_event : EventKind → Text → ℕ → Member → Member
with_event kind note now m = record m {
  events = m.events ++ record { kind = kind; note = note; at = now } ∷ [];
}

-- The functions that `Ban` and `Unban` run.
unfoldable pub ban_in : ℕ → Text → Text → Instance → Result (Unit {0}) × Instance
unfolding member_in
ban_in now ref note inst = elim (member_in ref inst.members) [
  | none ↦ (err not_found, inst)
  | some (fp, m) ↦
      if banned m
      then (err already_banned, inst)
      else (ok tt, record inst { members = insert fp (with_event ban note now m) inst.members })
]

unfoldable pub unban_in : ℕ → Text → Text → Instance → Result (Unit {0}) × Instance
unfolding member_in
unban_in now ref note inst = elim (member_in ref inst.members) [
  | none ↦ (err not_found, inst)
  | some (fp, m) ↦
      if not (banned m)
      then (err not_banned, inst)
      else (ok tt, record inst { members = insert fp (with_event unban note now m) inst.members })
]

-- `applyBlocklist` behind the update; `reloads` says whether the lighthouse takes the list.
unfoldable pub apply_blocklist : Bool → Result (Unit {0}) × Store → Result (Unit {0}) × Store
apply_blocklist reloads (err e, s) = (err e, s)
apply_blocklist reloads (ok _, s) = (if reloads then ok tt else err lighthouse_failed, s)

-- `Ban` and `Unban`
unfoldable pub ban_member : Bool → Bool → ℕ → Text → Text → Text → Store → Result (Unit {0}) × Store
unfolding apply_blocklist ban_in
ban_member writable reloads now id ref note s =
    apply_blocklist reloads (update writable id (ban_in now ref note) s)

unfoldable pub unban_member :
    Bool → Bool → ℕ → Text → Text → Text → Store → Result (Unit {0}) × Store
unfolding apply_blocklist unban_in
unban_member writable reloads now id ref note s =
    apply_blocklist reloads (update writable id (unban_in now ref note) s)

-- The requests that did not arrive with this key.
unfoldable pub drop_requests : Text → Dict Record → Dict Record
drop_requests fp [] = []
drop_requests fp ((id, r) ∷ rs) =
    let rest = drop_requests fp rs in if equal r.fingerprint fp then rest else (id, r) ∷ rest

abbrev pub is_owner : Kind → Bool
is_owner owner = true
is_owner _ = false

-- What the removal of a member leaves.
unfoldable pub forget_member : Text → Member → Instance → Instance
unfolding drop_requests
forget_member fp m inst = record inst {
  burned = inst.burned ++ record { fingerprint = fp; cert_fingerprint = m.cert_fingerprint } ∷ [];
  members = erase fp inst.members;
  allocations = erase fp inst.allocations;
  allocations6 = erase fp inst.allocations6;
  requests = drop_requests fp inst.requests;
}

-- The function that `RemoveMember` runs.
unfoldable pub remove_in : Text → Instance → Result Member × Instance
unfolding member_in forget_member
remove_in ref inst = elim (member_in ref inst.members) [
  | none ↦ (err not_found, inst)
  | some (fp, m) ↦
      if is_owner m.kind
      then (err owner_cannot_be_removed, inst)
      else if not (banned m)
      then (err not_banned, inst)
      else (ok m, forget_member fp m inst)
]

-- `RemoveMember`
unfoldable pub remove_member : Bool → Text → Text → Store → Result Member × Store
unfolding remove_in
remove_member writable id ref s = update writable id (remove_in ref) s

-- The function that `SetSharedToken` runs.
abbrev pub token_in : Text → Instance → Result (Unit {0}) × Instance
token_in token inst = (ok tt, record inst { shared_token = token })

-- `SetSharedToken`
unfoldable pub set_shared_token : Bool → Text → Text → Store → Result (Unit {0}) × Store
set_shared_token writable id token s =
    if is_empty token then (err token_required, s) else update writable id (token_in token) s
