-- ===== src/Tests/Keys.antt =====
-- Signatures of ssh keys, and the configuration that names the keys.
use robi_net.Base.{
  ℕ, suc, zero, ◌≡◌, refl, ap, true, false, List, [], ◌∷◌, ◌++◌, Option, none, some, Text, Dict,
  runes, lookup, insert, equal, equal_refl, length, take, drop, inl, inr, sym, arith, some_inj,
  Bool-cases, if◌then◌else◌,
}
use robi_net.Result.{ok, err, invalid_ports}
use robi_net.Base.{◌≢◌, ◌⊎◌}
use robi_net.Hub.Settings.{check_config}
use robi_net.Wrak.Ssh.{
  SshLib, SshKey, WrappedSig, Bootstrap, bootstrap_sign, bootstrap_verify, sign_sshsig, hash,
}
use robi_net.Net.{Prefix, v4, capacity}
use robi_net.Strings.{trim_space, between}
use robi_net.Hub.Settings.{
  TextLib, File, Running, config_of, see_binders, see_keys, parse_pools, cut_last, cut_at,
  parse_uint, parse_port_range, refuse_overlap, family_pools, binders_from,
}
use robi_net.Hub.Settings.Binders.{see_binders-one_name}
use robi_net.Hub.Settings.Ready.{IsParsed, IsReady, config_of-IsReady}
use robi_net.Tests.{net}
use robi_net.Wrak.Ssh.Bound.{bootstrap_verify-sign}

-- A wire form: each field behind its length.
abbrev pack : List Text → Text
pack [] = []
pack (f ∷ fs) = length f ∷ (f ++ pack fs)

abbrev unpack : ℕ → Text → List Text
unpack zero s = []
unpack (suc n) [] = []
unpack (suc n) (l ∷ t) = take l t ∷ unpack n (drop l t)

take-length-append : (s r : Text) → take (length s) (s ++ r) ≡ s
take-length-append [] r = refl
take-length-append (c ∷ s) r = ap (λ t. c ∷ t) (take-length-append s r)

drop-length-append : (s r : Text) → drop (length s) (s ++ r) ≡ r
drop-length-append [] r = refl
drop-length-append (c ∷ s) r = drop-length-append s r

unpack-pack : (fs : List Text) → unpack (length fs) (pack fs) ≡ fs
unpack-pack [] = refl
unpack-pack (f ∷ fs) =
    rw (take-length-append f (pack fs), drop-length-append f (pack fs), unpack-pack fs) refl

abbrev wrapped_from : List Text → Option WrappedSig
wrapped_from (m ∷ (v ∷ []) ∷ k ∷ n ∷ r ∷ h ∷ s ∷ []) = some (record {
  magic = m;
  version = v;
  public_key = k;
  namespace = n;
  reserved = r;
  hash_algorithm = h;
  signature = s;
})
wrapped_from _ = none

abbrev parts : WrappedSig → List Text
parts w =
    w.magic
    ∷ (w.version ∷ [])
    ∷ w.public_key
    ∷ w.namespace
    ∷ w.reserved
    ∷ w.hash_algorithm
    ∷ w.signature
    ∷ []

abbrev pub wire : SshLib
wire = record {
  pem_encode = λ kind bytes. length kind ∷ (kind ++ bytes);
  pem_decode = λ s. elim s [ [] ↦ none | n ∷ t ↦ some (take n t, drop n t) ];
  marshal_wrapped = λ w. pack (parts w);
  unmarshal_wrapped = λ s. wrapped_from (unpack 7 s);
  marshal_data = λ s. s.hash;
  marshal_signature = λ s. s;
  unmarshal_signature = λ s. some s;
  parse_public_key = λ s. some s;
  verify = λ key blob sig. equal sig (7 ∷ blob);
  sign = λ key blob. some (7 ∷ blob);
  sha256 = λ s. s;
  sha512 = λ s. s;
  std_base64 = λ s. s;
  marshal_authorized_key = λ key. key;
}

armors : (kind bytes : Text) → wire.pem_decode (wire.pem_encode kind bytes) ≡ some (kind, bytes)
armors kind bytes = rw (take-length-append kind bytes, drop-length-append kind bytes) refl

wraps : (w : WrappedSig) → wire.unmarshal_wrapped (wire.marshal_wrapped w) ≡ some w
wraps w = ap wrapped_from (unpack-pack (parts w))

verifies :
    (key : SshKey) (blob sig : Text)
    → wire.sign key blob ≡ some sig
    → wire.verify key blob sig ≡ true
verifies key blob sig h = rw (sym (some_inj h)) (equal_refl (7 ∷ blob))

abbrev pub anna : SshKey
anna = runes "ssh-anna"

abbrev join_me : Bootstrap
join_me = record {
  api = runes "https://hub";
  token = runes "t";
  name = runes "laptop";
  identity = runes "ed25519:x";
}

abbrev armored : Text
unfolding bootstrap_sign sign_sshsig hash equal
armored = elim (bootstrap_sign wire anna join_me) [ ok s ↦ s | _ ↦ [] ]

is_signed : bootstrap_sign wire anna join_me ≡ ok armored
unfolding bootstrap_sign sign_sshsig hash equal armored
is_signed = refl

bootstrap_verify-sign_example : bootstrap_verify wire join_me armored (anna ∷ []) ≡ ok anna
bootstrap_verify-sign_example =
    bootstrap_verify-sign wire anna armors wraps (λ sig. refl) refl (verifies anna) join_me
      (anna ∷ []) armored (inl refl) is_signed

-- A library that reads one prefix only, and every key.
abbrev texts : TextLib
texts = record {
  parse_prefix = λ s. if equal s (runes "10.0.0.0/24") then some net else none;
  is_addr_text = λ s. false;
  split_host_port = λ s. none;
  parse_authorized_key = λ s. some s;
  key_fingerprint = λ key. key;
}

abbrev two_binders : Dict (List SshKey)
two_binders = (runes "anna", anna ∷ []) ∷ (runes "berta", runes "ssh-berta" ∷ []) ∷ []

abbrev marks : Dict Text
unfolding see_binders see_keys lookup insert equal
marks = elim (see_binders texts two_binders []) [ ok m ↦ m | _ ↦ [] ]

no_clash : see_binders texts two_binders [] ≡ ok marks
unfolding see_binders see_keys lookup insert equal marks
no_clash = refl

see_binders-one_name_example : runes "anna" ≡ runes "anna"
see_binders-one_name_example =
    see_binders-one_name texts two_binders marks no_clash (runes "anna") (runes "anna") (anna ∷ [])
      (anna ∷ []) anna anna (inl refl) (inl refl) (inl refl) (inl refl) refl

net-IsParsed : IsParsed net
unfolding capacity
net-IsParsed = record {
  family = v4;
  number = 167772160;
  at = refl;
  valid = refl;
  inside = omega arith;
  short = omega arith;
}

reads : (s : Text) (p : Prefix) → texts.parse_prefix s ≡ some p → IsParsed p
reads s p h = elim (Bool-cases (equal s (runes "10.0.0.0/24"))) [
  | inl e ↦ let same : net ≡ p = ground arith in rw (sym same) net-IsParsed
  | inr e ↦ absurd (ground arith)
]

abbrev file : File
file = record {
  endpoint = runes "hub.example";
  bind = [];
  listen = [];
  entrypoint = runes "https";
  tls_cert = [];
  tls_key = [];
  state_path = [];
  overlays = runes "10.0.0.0/24" ∷ [];
  ports = runes "4242-4250";
  mtu = 1300;
  relay = none;
  dns = none;
  token = runes "t";
  binder = [];
  warnings = [];
}

abbrev running : Running
running = record {
  config = record {
    public_endpoint = runes "hub.example";
    port_min = 4242;
    port_max = 4250;
    overlays = record { prefix = net; size = 24 } ∷ [];
    overlays6 = [];
    mtu = 1300;
    relay = false;
  };
  token = runes "t";
  binders = [];
}

is_read : config_of texts file ≡ ok running
unfolding config_of parse_pools family_pools refuse_overlap parse_port_range binders_from
    see_binders equal trim_space cut_last cut_at parse_uint between
is_read = refl

config_of-IsReady_example :
    IsReady running
    × (((running.config.port_min ≢ 0) × (check_config running.config ≡ ok tt))
        ⊎ ((running.config.port_min ≡ 0) × (check_config running.config ≡ err invalid_ports)))
config_of-IsReady_example = config_of-IsReady texts reads file running is_read
