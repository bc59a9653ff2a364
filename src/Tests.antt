-- ===== src/Tests.antt =====
-- Concrete runs of the model: an instance with one connector, and what is done with it.
pub mod Addresses
pub mod Names
pub mod Lives
pub mod Guards
pub mod Web
pub mod Keys
pub mod Enlisting
pub mod Daemons
use robi_net.Base.{
  ℕ, ◌≡◌, refl, ◌%◌, ◌⊎◌, Bool, true, false, List, [], ◌∷◌, In, Option, none, some, Text, runes,
  Dict, lookup, equal, equal_iff, length, ap, sym, ◌∙◌, some_inj, Bool-cases, arith, inl, inr,
}
use robi_net.Net.{Family, v4, v6, Addr, invalid, ip, Prefix, no_prefix, prefix_from}
use robi_net.Result.{Result, ok, err}
use robi_net.Strings.{show_number}
use robi_net.Hub.Types.{
  Kind, connector, tenant, owner, Status, pending, approved, Member, Request, Lighthouse, Bundle,
  Record, Decision, Instance, banned,
}
use robi_net.Hub.Subnet.{Pool}
use robi_net.Hub.Store.Laws.{IsIndexed}
use robi_net.Hub.Admission.{Applicant}
use robi_net.Hub.Decision.{Config}
use robi_net.Hub.History.Owned.{OwnsBoth}
use robi_net.Hub.History.Sound.{IsSound}
use robi_net.Enroll.{Platform}

-- A platform whose digests are lengths.
abbrev pub toy : Platform
toy = record {
  sha256 = λ s. length s % 256 ∷ [];
  hmac_sha256 = λ t m. length t % 256 ∷ length m % 256 ∷ [];
  show_prefix = λ p. show_number p.bits_plus_one;
}

-- 10.0.0.0/24 and its addresses
abbrev pub net : Prefix
net = record { addr = ip v4 167772160; bits_plus_one = 25 }

abbrev pub host : ℕ → Addr
host n = ip v4 n

abbrev pub key : Text
key = runes "01"

abbrev pub printer : Member
printer = record {
  kind = connector;
  name = runes "printer";
  fingerprint = key;
  identity = [];
  binder = [];
  address = record { addr = ip v4 167772414; bits_plus_one = 25 };
  address6 = no_prefix;
  routes = [];
  domain = [];
  cert_fingerprint = runes "c0";
  events = [];
  joined_at = 5;
}

abbrev pub request : Request
request = record {
  public_key = runes "k";
  name = runes "printer";
  routes = [];
  domain = [];
  hints = [];
}

abbrev pub asked : Record
asked = record {
  id = runes "r1";
  status = pending;
  request = request;
  fingerprint = key;
  overlay_address = record { addr = ip v4 167772414; bits_plus_one = 25 };
  overlay_address6 = no_prefix;
  source_addr = [];
  received_at = 1;
  decided_at = 0;
  kind = connector;
  identity = [];
  binder = [];
  bundle = none;
  reason = [];
}

abbrev pub home : Instance
home = record {
  id = runes "i1";
  name = runes "home";
  owner = runes "ann";
  binder = [];
  overlay = net;
  overlay6 = no_prefix;
  port = 4242;
  lighthouse_address = ip v4 167772161;
  lighthouse_address6 = invalid;
  tenant_address = ip v4 167772162;
  tenant_address6 = invalid;
  lighthouse_public_key = [];
  lighthouse_key = [];
  lighthouse_cert = [];
  ca_cert = [];
  relay = false;
  shared_token = runes "t";
  allocations = (key, ip v4 167772414) ∷ [];
  allocations6 = [];
  requests = (runes "r1", asked) ∷ [];
  members = (key, printer) ∷ [];
  burned = [];
  created_at = 0;
}

abbrev pub config : Config
config = record {
  public_endpoint = runes "hub.example";
  port_min = 4242;
  port_max = 4250;
  overlays =
      record { prefix = record { addr = ip v4 167772160; bits_plus_one = 17 }; size = 24 } ∷ [];
  overlays6 = [];
  mtu = 1300;
  relay = false;
}

abbrev pub bundle : Bundle
bundle = record {
  certificate = runes "cert";
  ca = runes "ca";
  overlay_address = no_prefix;
  overlay_address6 = no_prefix;
  lighthouse = record {
    overlay_address = invalid;
    overlay_address6 = invalid;
    endpoints = [];
    relay = false;
  };
  mtu = 0;
  instance_name = [];
  blocked = [];
}

abbrev pub approval : Decision
approval = record {
  status = approved;
  bundle = some bundle;
  reason = [];
  name = runes "printer";
  routes = [];
  domain = [];
  cert_fingerprint = runes "c1";
}

abbrev pub applicant : Applicant
applicant = record { kind = connector; identity = []; binder = []; mac = []; source_addr = [] }

-- The instance is sound.
one_holder :
    (j : Text) (a : Addr)
    → lookup j ((key, ip v4 167772414) ∷ []) ≡ some a
    → (key ≡ j) × (a ≡ ip v4 167772414)
unfolding lookup
one_holder j a h = ground (arith, equal_iff key j)

owns_printer : OwnsBoth home key printer.address printer.address6
unfolding lookup equal
owns_printer = (inr refl, inl refl)

request_own :
    (rid : Text) (r : Record)
    → In {A = Text × Record} (rid, r) home.requests
    → OwnsBoth home r.fingerprint r.overlay_address r.overlay_address6
request_own rid r (inl e) =
    let same : r ≡ asked = ap (λ (q : Text × Record). q.1) e in rw same owns_printer
request_own rid r (inr h) = elim h [ ]

member_own :
    (fp : Text) (m : Member)
    → In {A = Text × Member} (fp, m) home.members
    → (m.kind ≡ owner) ⊎ OwnsBoth home fp m.address m.address6
member_own fp m (inl e) =
    let same : m ≡ printer = ap (λ (q : Text × Member). q.1) e in
    let at : fp ≡ key = ap (λ (q : Text × Member). q.0) e in inr (rw (same, at) owns_printer)
member_own fp m (inr h) = elim h [ ]

pub home-IsSound : IsSound home
unfolding lookup
home-IsSound = record {
  allocated = record {
    injective = λ j k a e g. ground (arith, one_holder j a e, one_holder k a g);
    injective6 = λ j k a e g. ground arith;
    lighthouse = λ j e. let (_, other) = one_holder j _ e in ground arith;
    lighthouse6 = λ j e. ground arith;
    tenant = λ j e. let (_, other) = one_holder j _ e in ground arith;
    tenant6 = λ j e. ground arith;
  };
  requested = λ rid r h. request_own rid r h;
  joined = λ fp m h. member_own fp m h;
}

-- A hub with one instance.
pub single-IsIndexed : (i : Instance) → IsIndexed ((i.id, i) ∷ [])
unfolding lookup
single-IsIndexed i = record {
  keyed = λ id k h. only id k h;
  named = λ id id' k k' h h' e. ground (arith, equal_iff i.id id, equal_iff i.id id');
}
  where
    only : (id : Text) (k : Instance) → lookup id ((i.id, i) ∷ []) ≡ some k → k.id ≡ id
    only id k h = elim (Bool-cases (equal i.id id)) [
      | inl e ↦
          let same : some i ≡ some k = rw (e, lookup) at h in
          ap (λ (j : Instance). j.id) (sym (some_inj same)) ∙ (equal_iff i.id id).0 e
      | inr e ↦ cc (rw (e, lookup) at h)
    ]
