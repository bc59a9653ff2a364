-- ===== src/Hub/Types.antt =====
-- internal/hub/store.go and internal/enroll/protocol.go: what the hub keeps. Times are numbers.
use robi_net.Base.{ℕ, Bool, true, false, List, [], ◌∷◌, Text, Dict, Option}
use robi_net.Net.{Addr, Prefix}

pub data Kind : Type 0 where
  connector tenant owner : Kind

-- `enroll.Status`; a decision may carry any text, and what is none of the three is `unknown`.
pub data Status : Type 0 where
  pending approved rejected unknown : Status

pub data EventKind : Type 0 where
  ban unban : EventKind

pub record MemberEvent : Type 0 where
  pub kind : EventKind
  pub note : Text
  pub at : ℕ

pub record Member : Type 0 where
  pub kind : Kind
  pub name : Text
  pub fingerprint : Text
  pub identity : Text
  pub binder : Text
  pub address : Prefix
  pub address6 : Prefix
  pub routes : List Prefix
  pub domain : Text
  pub cert_fingerprint : Text
  pub events : List MemberEvent
  pub joined_at : ℕ

-- Whether the last event of the list is a ban.
abbrev pub last_is_ban : Bool → List MemberEvent → Bool
last_is_ban b [] = b
last_is_ban b (e ∷ es) = last_is_ban (elim e.kind [ ban ↦ true | unban ↦ false ]) es

-- `Member.Banned`
unfoldable pub banned : Member → Bool
banned m = last_is_ban false m.events

pub record Burned : Type 0 where
  pub fingerprint : Text
  pub cert_fingerprint : Text

-- `enroll.Request`
pub record Request : Type 0 where
  pub public_key : Text
  pub name : Text
  pub routes : List Prefix
  pub domain : Text
  pub hints : Dict Text

pub record Lighthouse : Type 0 where
  pub overlay_address : Addr
  pub overlay_address6 : Addr
  pub endpoints : List Text
  pub relay : Bool

pub record Bundle : Type 0 where
  pub certificate : Text
  pub ca : Text
  pub overlay_address : Prefix
  pub overlay_address6 : Prefix
  pub lighthouse : Lighthouse
  pub mtu : ℕ
  pub instance_name : Text
  pub blocked : List Text

-- `hub.Record`, with the `enroll.Record` that it embeds.
pub record Record : Type 0 where
  pub id : Text
  pub status : Status
  pub request : Request
  pub fingerprint : Text
  pub overlay_address : Prefix
  pub overlay_address6 : Prefix
  pub source_addr : Text
  pub received_at : ℕ
  pub decided_at : ℕ
  pub kind : Kind
  pub identity : Text
  pub binder : Text
  pub bundle : Option Bundle
  pub reason : Text

pub record Decision : Type 0 where
  pub status : Status
  pub bundle : Option Bundle
  pub reason : Text
  pub name : Text
  pub routes : List Prefix
  pub domain : Text
  pub cert_fingerprint : Text

pub record Instance : Type 0 where
  pub id : Text
  pub name : Text
  pub owner : Text
  pub binder : Text
  pub overlay : Prefix
  pub overlay6 : Prefix
  pub port : ℕ
  pub lighthouse_address : Addr
  pub lighthouse_address6 : Addr
  pub tenant_address : Addr
  pub tenant_address6 : Addr
  pub lighthouse_public_key : Text
  pub lighthouse_key : Text
  pub lighthouse_cert : Text
  pub ca_cert : Text
  pub relay : Bool
  pub shared_token : Text
  pub allocations : Dict Addr
  pub allocations6 : Dict Addr
  pub requests : Dict Record
  pub members : Dict Member
  pub burned : List Burned
  pub created_at : ℕ
