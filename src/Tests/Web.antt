-- ===== src/Tests/Web.antt =====
-- Signed requests, and what the hub does with them.
use robi_net.Base.{
  ℕ, ◌+◌, ◌-◌, ◌%◌, ◌≡◌, ◌≢◌, refl, true, false, [], ◌∷◌, ◌++◌, none, some, Text, runes, lookup,
  equal, equal_refl, length, take, drop, is_empty, ◌⊎◌, arith,
}
use robi_net.Result.{ok, err, Error}
use robi_net.Enroll.Mac.{are_bytes}
use robi_net.Guard.{no_nonces, nonce_key, new_limiter}
use robi_net.Wrak.{
  Crypto, WebRequest, clock_window, drifts, public_identity, verify_request, sign_request,
}
use robi_net.Strings.{to_lower, lower_rune}
use robi_net.Wrak.Ssh.{SshLib}
use robi_net.Hub.Types.{Instance}
use robi_net.Hub.Store.{Registration, Store}
use robi_net.Hub.Api.{World, Daemon, Json}
use robi_net.Hub.Api.Owners.{delete_instance}
use robi_net.Hub.Api.Serve.{owned, serve}
use robi_net.Hub.Api.Auth.{read_body, unauthorized}
use robi_net.Hub.Api.Serve.{list_instances, serve_all}
use robi_net.Hub.Api.Access.{with_nonces}
use robi_net.Hub.Api.Replayed.{serve-once}
use robi_net.Hub.Api.Apart.{Touches, serve-apart}
use robi_net.Hub.Store.{resolve}
use robi_net.Hub.Store.Laws.{AreKeyed}
use robi_net.Base.{Bool-cases, some_inj, equal_iff}
use robi_net.Result.{ok_inj}
use robi_net.Base.{sym, ap, ◌∙◌}
use robi_net.Hub.Api.Access.{IsTurnedAway, IsOwnersRun, owned-IsOwners}
use robi_net.Tests.{toy, home, config, approval}
use robi_net.Wrak.Sign.{verify_request-sign_request}
use robi_net.Wrak.Window.{verify_request_twice}
use robi_net.Base.{◌<◌, inl, inr}
use robi_net.Wrak.Query.{has_rune}
use robi_net.Wrak.Canonical.{newlines, IsOneLined, IsSameCall, canonical_request-IsSameCall}

-- An escape that moves every rune out of the way.
abbrev lifted : Text → Text
lifted [] = []
lifted (c ∷ s) = (c + 1000) ∷ lifted s

-- Libraries that do as documented, in the simplest way.
abbrev pub crypto : Crypto
crypto = record {
  sha256 = λ s. (length s % 256) ∷ [];
  encode_base64 = λ bs. bs;
  decode_base64 = λ s. some s;
  public_key = λ private. runes "0123456789abcdef0123456789abcdef";
  sign = λ private s. 7 ∷ s;
  verify = λ key s sig. equal sig (7 ∷ s);
  format_time = λ t. (t + 1) ∷ [];
  parse_time = λ s. elim s [ [] ↦ none | t ∷ _ ↦ some (t - 1) ];
  query_escape = lifted;
  to_upper = λ s. s;
}

abbrev pub ann : Text
ann = runes "ed25519:0123456789abcdef0123456789abcdef"

abbrev pub blank : WebRequest
blank = record {
  host = runes "hub";
  method = runes "GET";
  path = runes "/v1/instances";
  query = [];
  body = [];
  remote_addr = runes "1.2.3.4:5";
  identity = [];
  timestamp = [];
  nonce = [];
  signature = [];
  enroll_mac = [];
}

-- Signed at 900.
abbrev pub signed : WebRequest
signed = sign_request crypto (runes "p") 900 (runes "n") blank

some_text : (s : Text) → s ≢ [] → is_empty s ≡ false
some_text [] h = absurd (h refl)
some_text (c ∷ s) h = refl

not_yet :
    lookup
      (nonce_key
        (public_identity crypto (crypto.public_key (runes "p")))
        (crypto.encode_base64 (runes "n")))
      no_nonces.seen
    ≡ none
unfolding lookup
not_yet = refl

on_time : drifts 1000 900 ≡ false
unfolding drifts
on_time = refl

ann_signs : public_identity crypto (crypto.public_key (runes "p")) ≡ ann
unfolding public_identity
ann_signs = refl

verify_request-sign_request_example :
    (verify_request crypto 1000 signed no_nonces).0
    ≡ ok (public_identity crypto (crypto.public_key (runes "p")))
verify_request-sign_request_example =
    verify_request-sign_request crypto (runes "p") (λ bs. refl) some_text refl (λ s e. cc)
      (λ s. equal_refl (7 ∷ s)) 900 1000 900 (runes "n") blank no_nonces (λ e. cc) refl refl on_time
      not_yet

lifted-newlines : (s : Text) → newlines (lifted s) ≡ 0
unfolding newlines
lifted-newlines [] = refl
lifted-newlines (c ∷ s) = ground (arith, lifted-newlines s)

lifted_inj : (a b : Text) → lifted a ≡ lifted b → a ≡ b
lifted_inj [] [] h = refl
lifted_inj [] (d ∷ b) h = cc
lifted_inj (c ∷ a) [] h = cc
lifted_inj (c ∷ a) (d ∷ b) h = ground (arith, lifted_inj a b)

lifted-has_rune : (e : ℕ) → e < 1000 → (s : Text) → has_rune e (lifted s) ≡ false
lifted-has_rune e lt [] = refl
lifted-has_rune e lt (c ∷ s) = ground (arith, lifted-has_rune e lt s)

signed-IsOneLined : IsOneLined crypto signed
unfolding newlines sign_request to_lower lower_rune
signed-IsOneLined = record { host = refl; method = refl; timestamp = refl; nonce = refl }

are_digests : (n : ℕ) → are_bytes ((n % 256) ∷ []) ≡ true
are_digests n = ground arith

canonical_request-IsSameCall_example : IsSameCall crypto signed signed
canonical_request-IsSameCall_example =
    canonical_request-IsSameCall crypto lifted-newlines lifted_inj
      (lifted-has_rune b'&' (omega arith)) (lifted-has_rune b'=' (omega arith))
      (λ s. are_digests (length s)) signed signed signed-IsOneLined signed-IsOneLined refl

abbrev mine : Instance
mine = record home { owner = ann }

abbrev known : Registration
known = record {
  identity = ann;
  binder = runes "anna";
  name = runes "ann@laptop";
  key = [];
  registered_at = 0;
  last_seen_at = 0;
}

abbrev pub held : Store
held = record {
  state = record { instances = (runes "i1", mine) ∷ []; identities = (ann, known) ∷ [] };
  file = record { instances = []; identities = [] };
}

abbrev pub daemon : Daemon
daemon = record { store = held; nonces = no_nonces; limiter = new_limiter 30 60; running = [] }

abbrev ssh : SshLib
ssh = record {
  pem_encode = λ kind bytes. length kind ∷ (kind ++ bytes);
  pem_decode = λ s. elim s [ [] ↦ none | n ∷ t ↦ some (take n t, drop n t) ];
  marshal_wrapped = λ w. w.public_key;
  unmarshal_wrapped = λ s. none;
  marshal_data = λ s. s.hash;
  marshal_signature = λ s. s;
  unmarshal_signature = λ s. some s;
  parse_public_key = λ s. some s;
  verify = λ key blob sig. equal sig (7 ∷ blob);
  sign = λ key blob. some (7 ∷ blob);
  sha256 = λ s. s;
  sha512 = λ s. s;
  std_base64 = λ s. s;
  marshal_authorized_key = λ key. key;
}

abbrev pub nothing : Json
nothing = record {
  register = λ s. none;
  create = λ s. none;
  lighthouse = λ s. none;
  decision = λ s. some approval;
  ban = λ s. none;
  token = λ s. none;
  join = λ s. none;
  enroll = λ s. none;
}

abbrev pub world : World
world = record {
  platform = toy;
  crypto = crypto;
  ssh = ssh;
  parse_json = nothing;
  split_host = λ s. none;
  config = config;
  token = runes "t";
  binders = [];
  now = 1000;
  fresh_id = runes "i2";
  fresh_keys = err Error.no_key;
  readable = true;
  writable = true;
  reloads = true;
  starts = true;
}

owned-IsOwners_example :
    IsTurnedAway daemon (serve world (owned (runes "i1") delete_instance) signed daemon)
    ⊎ IsOwnersRun world
        (runes "i1")
        delete_instance
        signed
        daemon
        (serve world (owned (runes "i1") delete_instance) signed daemon)
owned-IsOwners_example = owned-IsOwners world (runes "i1") delete_instance signed daemon

-- Signed at 1000, which is now.
abbrev prompt : WebRequest
prompt = sign_request crypto (runes "p") 1000 (runes "n") blank

at_once : drifts 1000 1000 ≡ false
unfolding drifts
at_once = refl

prompt_ok :
    (verify_request crypto 1000 prompt no_nonces).0
    ≡ ok (public_identity crypto (crypto.public_key (runes "p")))
prompt_ok =
    verify_request-sign_request crypto (runes "p") (λ bs. refl) some_text refl (λ s e. cc)
      (λ s. equal_refl (7 ∷ s)) 1000 1000 1000 (runes "n") blank no_nonces (λ e. cc) refl refl
      at_once not_yet

prompt_time : crypto.parse_time prompt.timestamp ≡ some 1000
unfolding sign_request
prompt_time = refl

verify_request_twice_example :
    (verify_request crypto
      (1000 + clock_window)
      prompt
      (verify_request crypto 1000 prompt no_nonces).1).0
    ≡ ok (public_identity crypto (crypto.public_key (runes "p")))
verify_request_twice_example =
    verify_request_twice crypto 1000 1000 prompt no_nonces
      (public_identity crypto (crypto.public_key (runes "p"))) prompt_ok prompt_time (omega arith)

abbrev tomorrow : World
tomorrow = record world { now = 2000 }

body_read : read_body world signed ≡ some signed
unfolding read_body sign_request
body_read = refl

body_read_again : read_body tomorrow signed ≡ some signed
unfolding read_body sign_request
body_read_again = refl

signed_time : crypto.parse_time signed.timestamp ≡ some 900
unfolding sign_request
signed_time = refl

serve-once_example :
    let d' = (serve world list_instances signed daemon).1 in
    serve tomorrow list_instances signed d' ≡ (unauthorized, with_nonces tomorrow signed d')
unfolding serve_all
serve-once_example =
    serve-once world list_instances signed signed daemon
      (public_identity crypto (crypto.public_key (runes "p"))) 900 refl body_read
      verify_request-sign_request_example signed_time (omega arith) [] tomorrow list_instances refl
      refl body_read_again tt

-- Another instance, of the same name.
abbrev other : Instance
other = record mine { id = runes "i9" }

abbrev two : Daemon
two = record daemon {
  store = record held {
    state = record held.state { instances = (runes "i1", mine) ∷ (runes "i9", other) ∷ [] };
  };
}

two-AreKeyed : AreKeyed two.store.state.instances
unfolding lookup
two-AreKeyed id i h = elim (Bool-cases (equal (runes "i1") id)) [
  | inl e ↦
      let same : some mine ≡ some i = rw (e, lookup) at h in
      ap (λ (j : Instance). j.id) (sym (some_inj same)) ∙ (equal_iff (runes "i1") id).0 e
  | inr e ↦ elim (Bool-cases (equal (runes "i9") id)) [
    | inl f ↦
        let same : some other ≡ some i = rw (e, f, lookup) at h in
        ap (λ (j : Instance). j.id) (sym (some_inj same)) ∙ (equal_iff (runes "i9") id).0 f
    | inr f ↦ cc (rw (e, f, lookup) at h)
  ]
]

found_of_two : resolve (runes "i1") two.store ≡ ok mine
unfolding resolve lookup equal
found_of_two = refl

elsewhere : Touches world (owned (runes "i1") delete_instance) two (runes "i9") → ⊥
unfolding equal
elsewhere (inst, e, same) =
    let it : ok inst ≡ ok mine = sym e ∙ found_of_two in
    let apart : runes "i9" ≡ runes "i1" = sym same ∙ ap (λ (i : Instance). i.id) (ok_inj it) in
    let clash : false ≡ true = ap (equal (runes "i1")) apart in cc clash

serve-apart_example :
    lookup
      (runes "i9")
      (serve world (owned (runes "i1") delete_instance) signed two).1.store.state.instances
    ≡ lookup (runes "i9") two.store.state.instances
serve-apart_example =
    serve-apart world two two-AreKeyed (runes "i9") (owned (runes "i1") delete_instance) signed
      elsewhere
