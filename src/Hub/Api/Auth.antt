-- ===== src/Hub/Api/Auth.antt =====
-- internal/hub/api.go: who may call.
use robi_net.Base.{not, Option, none, some, Text, runes, take, equal, if◌then◌else◌}
use robi_net.Result.{ok, err}
use robi_net.Wrak.{WebRequest, verify_request}
use robi_net.Hub.Types.{Instance}
use robi_net.Hub.Store.{Registration, identity_of, resolve, member_of}
use robi_net.Hub.Api.{World, Daemon, Reply, failure, bad_request, max_body_bytes}

-- `readBody`: the request with the body that could be read.
unfoldable pub read_body : World → WebRequest → Option WebRequest
read_body w r = if w.readable then some (record r { body = take max_body_bytes r.body }) else none

-- `decode`
unfoldable pub decode : {A : Type 0} → Option A → Daemon → (A → Reply × Daemon) → Reply × Daemon
decode none d next = (bad_request, d)
decode (some a) d next = next a

abbrev pub unauthorized : Reply
unauthorized = failure 401 (runes "unauthorized")

-- Whether the identity is registered.
unfoldable pub known : (Registration → Daemon → Reply × Daemon) → Text → Daemon → Reply × Daemon
known next identity d = elim (identity_of identity d.store) [
  | err _ ↦ (unauthorized, d)
  | ok who ↦ next who d
]

-- `signed`
unfoldable pub signed :
    World
    → (WebRequest → Registration → Daemon → Reply × Daemon)
    → WebRequest
    → Daemon
    → Reply × Daemon
unfolding read_body known
signed w next r d = elim (read_body w r) [
  | none ↦ (bad_request, d)
  | some r' ↦
      let (told, seen) = verify_request w.crypto w.now r' d.nonces in
      elim told [
        | err _ ↦ (unauthorized, record d { nonces = seen })
        | ok identity ↦ known (next r') identity (record d { nonces = seen })
      ]
]

-- The test of the owner, behind the signature.
unfoldable pub as_owner :
    (WebRequest → Instance → Daemon → Reply × Daemon)
    → Text
    → WebRequest
    → Registration
    → Daemon
    → Reply × Daemon
as_owner next ref r who d = elim (resolve ref d.store) [
  | err _ ↦ (failure 404 (runes "not_found"), d)
  | ok inst ↦
      if not (equal who.identity inst.owner)
      then (failure 403 (runes "forbidden"), d)
      else next r inst d
]

-- `ownerOnly`
unfoldable pub owner_only :
    World
    → Text
    → (WebRequest → Instance → Daemon → Reply × Daemon)
    → WebRequest
    → Daemon
    → Reply × Daemon
unfolding signed as_owner
owner_only w ref next r d = signed w (as_owner next ref) r d

unfoldable pub as_member :
    (Instance → Daemon → Reply × Daemon)
    → Text
    → WebRequest
    → Registration
    → Daemon
    → Reply × Daemon
as_member next ref r who d = elim (resolve ref d.store) [
  | err _ ↦ (failure 404 (runes "not_found"), d)
  | ok inst ↦ elim (member_of who.identity inst) [
    | none ↦ (failure 403 (runes "forbidden"), d)
    | some m ↦ next inst d
  ]
]

-- `memberOnly`
unfoldable pub member_only :
    World → Text → (Instance → Daemon → Reply × Daemon) → WebRequest → Daemon → Reply × Daemon
unfolding signed as_member
member_only w ref next r d = signed w (as_member next ref) r d
