-- ===== src/Hub/Api/Enlisted.antt =====
-- internal/hub/api.go: which machines the hub comes to know.
use robi_net.Base.{
  ℕ, ◌≡◌, ◌≢◌, ◌⊎◌, ◌∙◌, refl, sym, ap, true, Bool, List, [], ◌∷◌, ◌++◌, In, Dict, lookup, insert,
  lookup-insert, equal_refl, equal_iff, runes, some_inj, Option, none, some, Text, is_empty,
  Bool-cases, Option-cases, inl, inr,
}
use robi_net.Result.{Result-cases}
use robi_net.Guard.{allow}
use robi_net.Strings.{trim_space, to_lower}
use robi_net.Wrak.{WebRequest, parse_public_identity}
use robi_net.Wrak.Ssh.{
  SshLib, SshKey, among_keys, same_key, authorized_key, bootstrap_message, bootstrap_namespace,
  bootstrap_verify,
}
use robi_net.Wrak.Ssh.Bound.{IsSignatureOf, bootstrap_verify-ok}
use robi_net.Hub.Store.{Registration, Store, save}
use robi_net.Hub.Store as Store
use robi_net.Hub.Store.Laws.{save_state}
use robi_net.Hub.Store.Frame.{lookup-insert_other}
use robi_net.Hub.Api.{World, Daemon, Reply, RegisterRequest}
use robi_net.Hub.Api.Auth.{decode}
use robi_net.Hub.Api.Machines.{
  source_addr, limited, all_keys, match_binder, bootstrap_of, store_registration, register_machine,
  handle_register,
}
use robi_net.Hub.Api.Serve.{register, serve}

-- The text that enlists a machine: the host that it calls, the hub's token, its name and its identity,
-- each in a line.
abbrev pub enlistment_text : Text → Text → Text → Text → Text
enlistment_text host token name identity =
    runes "wrak/v1/bootstrap\n"
    ++ (runes "api="
        ++ (to_lower host
            ++ (b'\n' ∷ runes "registry_token="
                ++ (token
                    ++ (b'\n' ∷ runes "name="
                        ++ (name ++ (b'\n' ∷ runes "identity=" ++ (identity ++ b'\n' ∷ []))))))))

-- That a key of a binder of this hub has signed for the machine, and for this hub's token, and that
-- what was signed for is what the hub now knows.
pub record IsEnlisted (w : World) (r : WebRequest) (s later : Store) : Type 0 where
  pub request : RegisterRequest
  pub key : SshKey
  pub binder : Text
  pub keys : List SshKey
  pub own : SshKey
  pub known : Registration
  pub parsed : w.parse_json.register r.body ≡ some request
  pub signed :
      IsSignatureOf w.ssh key
        (enlistment_text r.host w.token request.name request.identity)
        (runes "wrak-bootstrap-v1")
  pub bound : In {A = Text × List SshKey} (binder, keys) w.binders
  pub owned : In own keys
  pub same : w.ssh.std_base64 key ≡ w.ssh.std_base64 own
  pub stored : lookup request.identity later.state.identities ≡ some known
  pub named : known.name ≡ request.name
  pub for_binder : known.binder ≡ binder
  pub by_key : known.key ≡ authorized_key w.ssh key
  pub others :
      (j : Text)
      → j ≢ request.identity
      → lookup j later.state.identities ≡ lookup j s.state.identities
  pub instances : later.state.instances ≡ s.state.instances

abbrev IsEnlistment : World → WebRequest → Daemon → Reply × Daemon → Type 0
IsEnlistment w r d (reply, d') = (d'.store ≡ d.store) ⊎ IsEnlisted w r d.store d'.store

-- A binder whose key it is.
among_keys-In :
    (lib : SshLib) (key : SshKey) (ks : List SshKey)
    → among_keys lib key ks ≡ true
    → (own : SshKey) × In own ks × (lib.std_base64 key ≡ lib.std_base64 own)
unfolding among_keys same_key
among_keys-In lib key [] h = cc
among_keys-In lib key (k ∷ ks) h = elim (Bool-cases (same_key lib key k)) [
  | inl e ↦ (k, inl refl, (equal_iff (lib.std_base64 key) (lib.std_base64 k)).0 e)
  | inr e ↦ let (own, i, f) = among_keys-In lib key ks (rw (e, among_keys) at h) in (own, inr i, f)
]

match_binder-In :
    (lib : SshLib) (key : SshKey) (bs : Dict (List SshKey)) (binder : Text)
    → match_binder lib key bs ≡ some binder
    → (keys : List SshKey) × In {A = Text × List SshKey} (binder, keys) bs
      × ((own : SshKey) × In own keys × (lib.std_base64 key ≡ lib.std_base64 own))
unfolding match_binder
match_binder-In lib key [] binder h = cc
match_binder-In lib key ((name, keys) ∷ bs) binder h = elim (Bool-cases (among_keys lib key keys)) [
  | inl e ↦
      let same : name ≡ binder = some_inj (rw (e, match_binder) at h) in
      (keys, inl (ap (λ (n : Text). (n, keys)) (sym same)), among_keys-In lib key keys e)
  | inr e ↦
      let (ks, i, f) = match_binder-In lib key bs binder (rw (e, match_binder) at h) in
      (ks, inr i, f)
]

-- What `Register` leaves in the store.
abbrev IsRegistered : Registration → Store → Store → Type 0
IsRegistered r s later =
    ((known : Registration) × (lookup r.identity later.state.identities ≡ some known)
      × (known.name ≡ r.name)
      × (known.binder ≡ r.binder)
      × (known.key ≡ r.key))
    × ((j : Text) → j ≢ r.identity → lookup j later.state.identities ≡ lookup j s.state.identities)
    × (later.state.instances ≡ s.state.instances)

save_identities :
    (writable : Bool) (s : Store) (r known : Registration)
    → known.name ≡ r.name
    → known.binder ≡ r.binder
    → known.key ≡ r.key
    → IsRegistered r s
        (save writable (record s {
          state = record s.state { identities = insert r.identity known s.state.identities };
        })).1
save_identities writable s r known n b k = rw (save_state writable _) (
  (
    known,
    rw (lookup-insert r.identity r.identity known s.state.identities, equal_refl r.identity) refl,
    n,
    b,
    k,
  ),
  (λ j ne. lookup-insert_other r.identity j known s.state.identities ne),
  refl,
)

register-IsRegistered :
    (writable : Bool) (now : ℕ) (r : Registration) (s : Store)
    → IsRegistered r s (Store.register writable now r s).1
unfolding Store.register
register-IsRegistered writable now r s =
    elim (Option-cases (lookup r.identity s.state.identities)) [
      | inl e ↦
          rw e (save_identities writable s r (record r { registered_at = now }) refl refl refl)
      | inr (old, e) ↦ rw e (
          save_identities writable s r
            (record old { binder = r.binder; name = r.name; key = r.key; last_seen_at = now }) refl
            refl refl)
    ]

store_registration-IsEnlistment :
    (w : World) (r : WebRequest) (req : RegisterRequest) (key : SshKey) (d : Daemon)
    → w.parse_json.register r.body ≡ some req
    → IsSignatureOf w.ssh key (bootstrap_message (bootstrap_of w r req)) bootstrap_namespace
    → IsEnlistment w r d (store_registration w req key d)
unfolding store_registration bootstrap_message
store_registration-IsEnlistment w r req key d parsed signed =
    elim (Option-cases (match_binder w.ssh key w.binders)) [
      | inl e ↦ rw (e, store_registration) (inl refl)
      | inr (binder, e) ↦
          let reg : Registration = record {
            identity = req.identity;
            binder = binder;
            name = req.name;
            key = authorized_key w.ssh key;
            registered_at = 0;
            last_seen_at = 0;
          } in
          let (keys, i, (own, j, same)) = match_binder-In w.ssh key w.binders binder e in
          let ((known, at, n, b, k), others, insts) =
            register-IsRegistered w.writable w.now reg d.store in
          let result = Store.register w.writable w.now reg d.store in
          let enlisted : IsEnlisted w r d.store result.1 = record {
            request = req;
            key = key;
            binder = binder;
            keys = keys;
            own = own;
            known = known;
            parsed = parsed;
            signed = signed;
            bound = i;
            owned = j;
            same = same;
            stored = at;
            named = n;
            for_binder = b;
            by_key = k;
            others = others;
            instances = insts;
          } in
          elim (Result-cases result.0) [
            | inl (_, f) ↦ rw (e, store_registration, f) (inr enlisted)
            | inr (_, f) ↦ rw (e, store_registration, f) (inr enlisted)
          ]
    ]

register_machine-IsEnlistment :
    (w : World) (r : WebRequest) (req : RegisterRequest) (d : Daemon)
    → w.parse_json.register r.body ≡ some req
    → IsEnlistment w r d (register_machine w r req d)
unfolding register_machine
register_machine-IsEnlistment w r req d parsed =
    elim (Bool-cases (is_empty (trim_space req.name))) [
      | inl e ↦ rw (e, register_machine) (inl refl)
      | inr e ↦ elim (Result-cases (parse_public_identity w.crypto req.identity)) [
        | inl (_, f) ↦ rw (e, register_machine, f) (inl refl)
        | inr (_, f) ↦
            elim (Result-cases
              (bootstrap_verify w.ssh (bootstrap_of w r req) req.signature (all_keys w.binders))) [
                | inl (_, g) ↦ rw (e, register_machine, f, g) (inl refl)
                | inr (key, g) ↦
                    let good =
                      bootstrap_verify-ok w.ssh (bootstrap_of w r req) req.signature
                        (all_keys w.binders) key g in
                    rw (e, register_machine, f, g)
                      (store_registration-IsEnlistment w r req key d parsed good.0)
              ]
      ]
    ]

decoded-IsEnlistment :
    (w : World) (r : WebRequest) (d : Daemon) (o : Option RegisterRequest)
    → w.parse_json.register r.body ≡ o
    → IsEnlistment w r d (decode o d (λ (req : RegisterRequest). register_machine w r req d))
unfolding decode
decoded-IsEnlistment w r d none parsed = inl refl
decoded-IsEnlistment w r d (some req) parsed = register_machine-IsEnlistment w r req d parsed

limited-IsEnlistment :
    (w : World) (r : WebRequest) (source : Text) (next : Daemon → Reply × Daemon) (d : Daemon)
    → ((d' : Daemon) → d'.store ≡ d.store → IsEnlistment w r d (next d'))
    → IsEnlistment w r d (limited w source next d)
unfolding limited
limited-IsEnlistment w r source next d h = elim (Bool-cases (allow w.now source d.limiter).0) [
  | inl e ↦ rw (e, limited) (h _ refl)
  | inr e ↦ rw (e, limited) (inl refl)
]

IsEnlisted-moved :
    (w : World) (r : WebRequest) (s s' later : Store)
    → s ≡ s'
    → IsEnlisted w r s later
    → IsEnlisted w r s' later
IsEnlisted-moved w r s s' later e v = rw e at v

-- Nobody becomes known without a binder's key: a registration leaves the store as it was, or a key of
-- one of the hub's binders has signed, for registrations, the text with the host that was called, the
-- hub's own token, and the name and the identity that the machine sent; and then the hub knows that
-- identity under that name, for that binder and that key, and in memory all other registrations and
-- the instances are as they were.
pub register-IsEnlisted :
    (w : World) (r : WebRequest) (d : Daemon)
    → ((serve w register r d).1.store ≡ d.store)
      ⊎ IsEnlisted w r d.store (serve w register r d).1.store
unfolding serve handle_register
register-IsEnlisted w r d =
    limited-IsEnlistment w r (source_addr w r)
      (λ d'.
        decode (w.parse_json.register r.body) d'
          (λ (req : RegisterRequest). register_machine w r req d'))
      d
      (λ d' e. elim (decoded-IsEnlistment w r d' (w.parse_json.register r.body) refl) [
        | inl f ↦ inl (f ∙ e)
        | inr g ↦ inr (IsEnlisted-moved w r d'.store d.store _ e g)
      ])
