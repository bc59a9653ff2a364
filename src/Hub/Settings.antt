-- ===== src/Hub/Settings.antt =====
-- internal/hub/config.go and `ParsePool` of ipam.go: the configuration that the hub runs on.
pub mod Disjoint
pub mod Binders
pub mod Ready
use robi_net.Base.{
  ℕ, suc, ◌+◌, ◌-◌, ◌*◌, Bool, true, false, not, ◌&&◌, ◌||◌, List, [], ◌∷◌, ◌++◌, Option, none,
  some, Text, Dict, runes, lookup, insert, equal, is_empty, length, leb, ltb, ◌==◌, if◌then◌else◌,
}
use robi_net.Net.{Prefix, is4, is_prefix, bits, bit_len, masked, overlaps}
use robi_net.Result.{
  Result, ok, err, ◌>>=◌, pool_without_length, bad_pool, bad_size, size_does_not_fit, pools_overlap,
  no_ipv4_pool, bad_entrypoint, bad_port_range, invalid_ports, pool_required, bad_key,
  binder_without_name, binder_twice, binder_without_keys, shared_key, endpoint_required,
  endpoint_not_bare, token_required, no_binders,
}
use robi_net.Strings.{trim_space, between, has_prefix}
use robi_net.Wrak.Ssh.{SshLib, SshKey, same_key}
use robi_net.Hub.Subnet.{Pool}
use robi_net.Hub.Decision.{Config}

-- What the source takes from libraries: the text of a prefix, of an address with a port, and of a
-- key.
pub record TextLib : Type 0 where
  pub parse_prefix : Text → Option Prefix
  pub is_addr_text : Text → Bool
  pub split_host_port : Text → Option Text
  pub parse_authorized_key : Text → Option SshKey
  pub key_fingerprint : SshKey → Text

-- `strings.Cut` at one rune: what stands before it and behind it.
unfoldable pub cut_at : ℕ → Text → Option (Text × Text)
cut_at c [] = none
cut_at c (x ∷ xs) =
    let rest = cut_at c xs in
    if x == c then some ([], xs) else elim rest [ none ↦ none | some (a, b) ↦ some (x ∷ a, b) ]

-- The cut at the last one, which `LastIndex` finds.
unfoldable pub cut_last : ℕ → Text → Option (Text × Text)
cut_last c [] = none
cut_last c (x ∷ xs) = elim (cut_last c xs) [
  | some (a, b) ↦ some (x ∷ a, b)
  | none ↦ if x == c then some ([], xs) else none
]

-- The digits of a number, up to a bound that the value may not pass.
unfoldable pub digits_upto : ℕ → ℕ → Text → Option ℕ
digits_upto most n [] = some n
digits_upto most n (c ∷ s) =
    let next = n * 10 + (c - b'0') in
    let rest = digits_upto most next s in
    if between b'0' b'9' c && leb next most then rest else none

-- `strconv.ParseUint` in base ten, with its bound.
unfoldable pub parse_uint : ℕ → Text → Option ℕ
unfolding digits_upto
parse_uint most s = if is_empty s then none else digits_upto most 0 s

-- `strconv.Atoi`: whether the number has a minus sign, and its value.
unfoldable pub atoi : Text → Option (Bool × ℕ)
unfolding parse_uint
atoi [] = none
atoi (c ∷ s) =
    if c == b'-'
    then elim (parse_uint 9223372036854775808 s) [ none ↦ none | some n ↦ some (true, n) ]
    else elim (parse_uint 9223372036854775807 (if c == b'+' then s else c ∷ s)) [
      | none ↦ none
      | some n ↦ some (false, n)
    ]

-- The size of the plain form.
abbrev pub plain_size : Prefix → ℕ
plain_size p =
    let size = if is4 p.addr then 24 else 112 in if ltb size (bits p) then bits p else size

-- `ParsePool`
unfoldable pub parse_pool : TextLib → Text → Result Pool
unfolding cut_last atoi
parse_pool lib s =
    let t = trim_space s in
    elim (cut_last b'/' t) [
      | none ↦ err pool_without_length
      | some (network, size_text) ↦ elim (lib.parse_prefix t) [
        | some p ↦ ok (record { prefix = p; size = plain_size p })
        | none ↦ elim (lib.parse_prefix network) [
          | none ↦ err bad_pool
          | some p ↦ elim (atoi size_text) [
            | none ↦ err bad_size
            | some (minus, size) ↦
                if (minus && ltb 0 size) || ltb size (bits p) || ltb (bit_len p.addr) size
                then err size_does_not_fit
                else ok (record { prefix = masked p; size = size })
          ]
        ]
      ]
    ]

unfoldable pub parse_pools : TextLib → List Text → Result (List Pool)
unfolding parse_pool
parse_pools lib [] = ok []
parse_pools lib (s ∷ ss) = parse_pool lib s >>= λ p. parse_pools lib ss >>= λ ps. ok (p ∷ ps)

-- The pools of one family, in their order.
unfoldable pub family_pools : Bool → List Pool → List Pool
family_pools v4 [] = []
family_pools v4 (p ∷ ps) =
    let rest = family_pools v4 ps in
    if is4 p.prefix.addr then (if v4 then p ∷ rest else rest) else (if v4 then rest else p ∷ rest)

-- The two loops of `refuseOverlap`.
unfoldable pub overlaps_any : Pool → List Pool → Bool
overlaps_any a [] = false
overlaps_any a (b ∷ bs) = overlaps a.prefix b.prefix || overlaps_any a bs

unfoldable pub refuse_overlap : List Pool → Result (Unit {0})
unfolding overlaps_any
refuse_overlap [] = ok tt
refuse_overlap (a ∷ more) = if overlaps_any a more then err pools_overlap else refuse_overlap more

-- `parsePortRange`
unfoldable pub parse_port_range : Text → Result (ℕ × ℕ)
unfolding cut_at parse_uint
parse_port_range s = elim (cut_at b'-' s) [
  | none ↦ err bad_port_range
  | some (lo, hi) ↦ elim (parse_uint 65535 (trim_space lo)) [
    | none ↦ err bad_port_range
    | some least ↦ elim (parse_uint 65535 (trim_space hi)) [
      | none ↦ err bad_port_range
      | some most ↦ if ltb most least then err bad_port_range else ok (least, most)
    ]
  ]
]

-- `ParseAuthorizedKeys`: empty lines and comments are passed over.
unfoldable pub parse_authorized_keys : TextLib → List Text → Result (List SshKey)
parse_authorized_keys lib [] = ok []
parse_authorized_keys lib (entry ∷ more) =
    let rest = parse_authorized_keys lib more in
    let text = trim_space entry in
    if is_empty text || has_prefix text (runes "#")
    then rest
    else elim (lib.parse_authorized_key text) [
      | none ↦ err bad_key
      | some key ↦ rest >>= λ keys. ok (key ∷ keys)
    ]

-- An entry of the list of binders in the file: a name and its keys.
pub record BinderEntry : Type 0 where
  pub name : Text
  pub keys : List Text

-- The loop over the entries, with the binders so far.
unfoldable pub binders_from :
    TextLib → Dict (List SshKey) → List BinderEntry → Result (Dict (List SshKey))
unfolding parse_authorized_keys
binders_from lib found [] = ok found
binders_from lib found (b ∷ bs) =
    let name = trim_space b.name in
    if is_empty name then err binder_without_name else elim (lookup name found) [
      | some _ ↦ err binder_twice
      | none ↦ elim (parse_authorized_keys lib b.keys) [
        | err e ↦ err e
        | ok [] ↦ err binder_without_keys
        | ok (key ∷ keys) ↦ binders_from lib (insert name (key ∷ keys) found) bs
      ]
    ]

-- The map of the fingerprints seen, through the keys of one binder and through all binders.
unfoldable pub see_keys : TextLib → Text → List SshKey → Dict Text → Result (Dict Text)
see_keys lib name [] seen = ok seen
see_keys lib name (key ∷ keys) seen = elim (lookup (lib.key_fingerprint key) seen) [
  | some _ ↦ err shared_key
  | none ↦ see_keys lib name keys (insert (lib.key_fingerprint key) name seen)
]

unfoldable pub see_binders : TextLib → Dict (List SshKey) → Dict Text → Result (Dict Text)
unfolding see_keys
see_binders lib [] seen = ok seen
see_binders lib ((name, keys) ∷ bs) seen =
    see_keys lib name keys seen >>= λ seen'. see_binders lib bs seen'

-- `File`; what yaml leaves out is empty, zero or none.
pub record File : Type 0 where
  pub endpoint : Text
  pub bind : Text
  pub listen : Text
  pub entrypoint : Text
  pub tls_cert : Text
  pub tls_key : Text
  pub state_path : Text
  pub overlays : List Text
  pub ports : Text
  pub mtu : ℕ
  pub relay : Option Bool
  pub dns : Option Bool
  pub token : Text
  pub binder : List BinderEntry
  pub warnings : List Text

-- The later value, where it was set.
abbrev pub or_kept : Text → Text → Text
or_kept later kept = if is_empty later then kept else later

-- `merge`
unfoldable pub merge : File → File → File
merge f other = record {
  endpoint = or_kept other.endpoint f.endpoint;
  bind = or_kept other.bind f.bind;
  listen = or_kept other.listen f.listen;
  entrypoint = or_kept other.entrypoint f.entrypoint;
  tls_cert = or_kept other.tls_cert f.tls_cert;
  tls_key = or_kept other.tls_key f.tls_key;
  state_path = or_kept other.state_path f.state_path;
  overlays = elim other.overlays [ [] ↦ f.overlays | o ∷ os ↦ o ∷ os ];
  ports = or_kept other.ports f.ports;
  mtu = if other.mtu == 0 then f.mtu else other.mtu;
  relay = elim other.relay [ none ↦ f.relay | some b ↦ some b ];
  dns = elim other.dns [ none ↦ f.dns | some b ↦ some b ];
  token = or_kept other.token f.token;
  binder = f.binder ++ other.binder;
  warnings = f.warnings ++ other.warnings;
}

-- `applyDefaults`
unfoldable pub apply_defaults : File → File
apply_defaults f = record f {
  bind = or_kept f.bind (runes "0.0.0.0");
  listen = or_kept f.listen (runes ":8443");
  state_path = or_kept f.state_path (runes "/var/lib/robinet/hub.json");
  overlays = elim f.overlays [ [] ↦ runes "198.19.0.0/16/24" ∷ [] | o ∷ os ↦ o ∷ os ];
  entrypoint = or_kept f.entrypoint (runes "https");
  ports = or_kept f.ports (runes "20000-24999");
  mtu = if f.mtu == 0 then 1500 else f.mtu;
  relay = elim f.relay [ none ↦ some true | some b ↦ some b ];
  dns = elim f.dns [ none ↦ some true | some b ↦ some b ];
}

-- What `Config` answers: what the hub's state depends on, and the binders.
pub record Running : Type 0 where
  pub config : Config
  pub token : Text
  pub binders : Dict (List SshKey)

abbrev is_some_true : Option Bool → Bool
is_some_true none = false
is_some_true (some b) = b

-- `File.Config`
unfoldable pub config_of : TextLib → File → Result Running
unfolding parse_pools family_pools refuse_overlap parse_port_range binders_from see_binders
config_of lib f = parse_pools lib f.overlays >>= λ all.
    let pools = family_pools true all in
    let pools6 = family_pools false all in
    refuse_overlap (pools ++ pools6) >>= λ _.
    (if length pools == 0 then err no_ipv4_pool else ok tt) >>= λ (_ : Unit {0}).
    (if not (equal f.entrypoint (runes "http")) && not (equal f.entrypoint (runes "https"))
      then err bad_entrypoint
      else ok tt)
    >>= λ (_ : Unit {0}). parse_port_range f.ports >>= λ range.
        binders_from lib [] f.binder >>= λ binders. see_binders lib binders [] >>= λ _. ok (record {
          config = record {
            public_endpoint = f.endpoint;
            port_min = range.0;
            port_max = range.1;
            overlays = pools;
            overlays6 = pools6;
            mtu = f.mtu;
            relay = is_some_true f.relay;
          };
          token = f.token;
          binders = binders;
        })

-- What `New` asks of a configuration.
unfoldable pub check_config : Config → Result (Unit {0})
check_config cfg =
    if (cfg.port_min == 0) || (cfg.port_max == 0) || ltb cfg.port_max cfg.port_min
    then err invalid_ports
    else if length cfg.overlays == 0
    then err pool_required
    else ok tt
