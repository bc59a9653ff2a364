-- ===== src/Tenant/State.antt =====
-- internal/tenant/state.go: what the daemon keeps.
use robi_net.Base.{
  ℕ, zero, suc, Bool, true, false, not, ◌&&◌, ◌||◌, List, [], ◌∷◌, ◌++◌, Text, Dict, runes, insert,
  erase, equal, is_empty, values, if◌then◌else◌,
}
use robi_net.Net.{is_addr, is4, Prefix}
use robi_net.Result.{Result, ok, err, save_failed, bad_choice, unknown_cheat}
use robi_net.Strings.{show_number}
use robi_net.Hub.Types.{Lighthouse}
use robi_net.Enroll.{sort_texts}

-- `Owned`
pub record Owned : Type 0 where
  pub instance_id : Text
  pub name : Text
  pub ca_cert : Text
  pub ca_key : Text
  pub shared_token : Text

-- `Connection`
pub record Connection : Type 0 where
  pub instance_id : Text
  pub name : Text
  pub role : Text
  pub public_key : Text
  pub private_key : Text
  pub certificate : Text
  pub ca : Text
  pub address : Prefix
  pub address6 : Prefix
  pub lighthouse : Lighthouse
  pub mtu : ℕ
  pub device : Text
  pub listen_port : ℕ
  pub requested_at : ℕ
  pub joined_at : ℕ

-- `Ready`
unfoldable pub ready : Connection → Bool
ready c =
    not (is_empty c.certificate) && not (is_empty c.ca) && is_addr c.lighthouse.overlay_address

-- `data`
pub record Data : Type 0 where
  pub hub_url : Text
  pub identity : Text
  pub binder : Text
  pub name : Text
  pub families : Text
  pub inbound : Text
  pub cheats : Dict Bool
  pub aliases : Dict Text
  pub owned : Dict Owned
  pub connections : Dict Connection

-- What the daemon works on, and what its file holds.
pub record Kept : Type 0 where
  pub live : Data
  pub file : Data

-- `Write`: what the function changed stays, also where the file cannot be written.
unfoldable pub write : Bool → (Data → Result (Unit {0}) × Data) → Kept → Result (Unit {0}) × Kept
write writable fn s =
    let (r, d) = fn s.live in
    elim r [
      | err e ↦ (err e, record s { live = d })
      | ok _ ↦
          if writable
          then (ok tt, record { live = d; file = d })
          else (err save_failed, record s { live = d })
    ]

-- `Registered`
unfoldable pub is_registered : Kept → Bool
is_registered s = not (is_empty s.live.hub_url) && not (is_empty s.live.identity)

-- The devices of the connections.
unfoldable pub devices : List Connection → List Text
devices [] = []
devices (c ∷ cs) = c.device ∷ devices cs

unfoldable pub is_taken : Text → List Text → Bool
is_taken name [] = false
is_taken name (d ∷ ds) = equal d name || is_taken name ds

abbrev pub device_name : ℕ → Text
device_name i = runes "robinet" ++ show_number i

-- The loop of `nextDevice`, from the name number `i` on; `left` names are left.
unfoldable pub device_from : ℕ → ℕ → List Text → Text
unfolding is_taken
device_from zero i taken = device_name 255
device_from (suc left) i taken =
    let rest = device_from left (suc i) taken in
    if not (is_taken (device_name i) taken) then device_name i else rest

-- `nextDevice`
unfoldable pub next_device : Data → Text
unfolding device_from devices
next_device d = device_from 256 0 (devices (values d.connections))

-- `ValidFamilies`, `Families`, `SetFamilies`
abbrev pub valid_families : Text → Bool
valid_families f = equal f (runes "both") || equal f (runes "ipv4") || equal f (runes "ipv6")

unfoldable pub families : Kept → Text
families s = if valid_families s.live.families then s.live.families else runes "both"

unfoldable pub set_families : Bool → Text → Kept → Result (Unit {0}) × Kept
unfolding write
set_families writable f s =
    if not (valid_families f)
    then (err bad_choice, s)
    else write writable (λ d. (ok tt, record d { families = f })) s

-- `wantedFamily`
unfoldable pub wanted_family : Text → Prefix → Bool
wanted_family f p =
    if equal f (runes "ipv4")
    then is4 p.addr
    else if equal f (runes "ipv6")
    then not (is4 p.addr)
    else true

-- `ValidInbound`, `Inbound`, `SetInbound`
abbrev pub valid_inbound : Text → Bool
valid_inbound v = equal v (runes "ping") || equal v (runes "open") || equal v (runes "none")

unfoldable pub inbound : Kept → Text
inbound s = if valid_inbound s.live.inbound then s.live.inbound else runes "ping"

unfoldable pub set_inbound : Bool → Text → Kept → Result (Unit {0}) × Kept
unfolding write
set_inbound writable v s =
    if not (valid_inbound v)
    then (err bad_choice, s)
    else write writable (λ d. (ok tt, record d { inbound = v })) s

-- A rule of the firewall: its port, protocol and host.
abbrev pub Rule : Type 0
Rule = Text × Text × Text

-- `inboundRules`
unfoldable pub inbound_rules : Text → List Rule
inbound_rules v =
    if equal v (runes "open")
    then (runes "any", runes "any", runes "any") ∷ []
    else if equal v (runes "none")
    then []
    else (runes "any", runes "icmp", runes "any") ∷ []

-- `cheatKey`, `ValidCheat`, `SetCheat`
abbrev pub cheat_key : Text → Text → Text
cheat_key vendor name = vendor ++ b'/' ∷ name

abbrev pub valid_cheat : Text → Text → Bool
valid_cheat vendor name =
    equal vendor (runes "chromium") && equal name (runes "fake-aaaa-global-conectivity-route")

unfoldable pub set_cheat : Bool → Text → Text → Bool → Kept → Result (Unit {0}) × Kept
unfolding write
set_cheat writable vendor name on s =
    if not (valid_cheat vendor name)
    then (err unknown_cheat, s)
    else if not on
    then write writable (λ d. (ok tt, record d { cheats = erase (cheat_key vendor name) d.cheats }))
        s
    else write writable
        (λ d. (ok tt, record d { cheats = insert (cheat_key vendor name) true d.cheats })) s

-- The keys that are on.
unfoldable pub cheats_set : Dict Bool → List Text
cheats_set [] = []
cheats_set ((k, on) ∷ m) = let rest = cheats_set m in if on then k ∷ rest else rest

-- `CheatsOn`; whether this build cheats at all is `variant.Cheating`.
unfoldable pub cheats_on : Bool → Kept → List Text
unfolding cheats_set
cheats_on cheating s = if not cheating then [] else sort_texts (cheats_set s.live.cheats)

-- `SetAlias`
unfoldable pub set_alias : Bool → Text → Text → Kept → Result (Unit {0}) × Kept
unfolding write
set_alias writable alias canonical s =
    if is_empty canonical
    then write writable (λ d. (ok tt, record d { aliases = erase alias d.aliases })) s
    else write writable (λ d. (ok tt, record d { aliases = insert alias canonical d.aliases })) s
