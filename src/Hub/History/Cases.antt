-- ===== src/Hub/History/Cases.antt =====
-- internal/hub/hub.go: the states in which each call can leave an instance, one case for each branch.
use robi_net.Base.{
  ℕ, ◌≡◌, refl, false, not, ◌&&◌, ◌||◌, Option, none, some, Text, lookup, insert, erase, is_empty,
  inl, inr, Option-cases, Bool-cases,
}
use robi_net.Hub.Types.{
  Status, approved, rejected, pending, unknown, EventKind, Bundle, Member, Request, Record,
  Decision, Instance, banned,
}
use robi_net.Hub.Ipam.{allocate, allocate6}
use robi_net.Hub.Admission.{
  Applicant, fingerprint_of, burned_in, is_connector, enroll_in, admit_new, find_request, refresh,
}
use robi_net.Hub.Decision.{
  Config, decide_in, decide_record, approve_in, forget_in, name_taken_in, granted_name, new_member,
}
use robi_net.Hub.Ban.{ban_in, unban_in, remove_in, member_in, forget_member, with_event, is_owner}
use robi_net.Hub.Create.{activate_in}
use robi_net.Strings.{trim_space}
use robi_net.Enroll.{Platform, verify_mac}

-- One state per branch, for a property of states.
module _ (P : Instance → Type 0) (inst : Instance) (same : P inst) where
  module _ (pl : Platform) (id : Text) (now : ℕ) (req : Request) (who : Applicant) where
    pub enroll_in_cases :
        ((rid : Text) (r : Record)
          → find_request (fingerprint_of pl req.public_key) inst.requests ≡ some (rid, r)
          → P (record inst { requests = insert rid (refresh req who r) inst.requests }))
        → (let fp = fingerprint_of pl req.public_key in
            let first = allocate inst fp who.kind in
            let second = allocate6 first.1 fp who.kind in
            P (admit_new id now req who fp first.0 second.0 second.1).1)
        → P (enroll_in pl id now req who inst).1
    unfolding enroll_in
    enroll_in_cases known new =
        elim (Bool-cases (
          is_connector who.kind
          && not (is_empty inst.shared_token)
          && not (verify_mac pl req inst.shared_token who.mac))) [
            | inl e ↦ rw e same
            | inr e ↦ elim (Bool-cases (burned_in (fingerprint_of pl req.public_key) inst.burned)) [
              | inl g ↦ rw (e, g) same
              | inr g ↦
                  elim (Option-cases
                    (find_request (fingerprint_of pl req.public_key) inst.requests)) [
                      | inl n ↦ rw (e, g, n) new
                      | inr ((rid, r), s) ↦ rw (e, g, s) (known rid r s)
                    ]
            ]
          ]

  module _ (cfg : Config) (now : ℕ) (rid : Text) (d : Decision) where
    -- A record that is the old one but for what the decision says.
    pub decide_in_cases :
        ((r : Record) (st : Status) (b : Option Bundle) (why : Text) (at : ℕ)
          → lookup rid inst.requests ≡ some r
          → P (record inst {
            requests =
                insert rid
                  (record r { status = st; bundle = b; reason = why; decided_at = at })
                  inst.requests;
          }))
        → ((r : Record) (b : Option Bundle)
            → lookup rid inst.requests ≡ some r
            → name_taken_in r.fingerprint (granted_name d r) inst.members ≡ false
            → P (record inst {
              requests =
                  insert rid
                    (record r { status = approved; bundle = b; decided_at = now })
                    inst.requests;
              members = insert r.fingerprint (new_member now d r) inst.members;
            }))
        → P (decide_in cfg now rid d inst).1
    unfolding decide_in decide_record approve_in
    decide_in_cases told joined = elim (Option-cases (lookup rid inst.requests)) [
      | inl e ↦ rw (e, decide_in) same
      | inr (r, e) ↦ rw (e, decide_in) (decided d.status refl r e)
    ]
      where
        approval :
            (r : Record) (b : Bundle)
            → lookup rid inst.requests ≡ some r
            → P (approve_in cfg now rid d b r inst).1
        approval r b e =
            elim (Bool-cases (name_taken_in r.fingerprint (granted_name d r) inst.members)) [
              | inl t ↦ rw t (told r approved _ r.reason r.decided_at e)
              | inr t ↦ rw t (joined r _ e t)
            ]

        with_bundle :
            (o : Option Bundle)
            → d.status ≡ approved
            → d.bundle ≡ o
            → (r : Record) → lookup rid inst.requests ≡ some r
            → P (decide_record cfg now rid d r inst).1
        with_bundle none s g r e = rw (s, g) same
        with_bundle (some b) s g r e = elim (Bool-cases (is_empty b.certificate)) [
          | inl c ↦ rw (s, g, c) same
          | inr c ↦ rw (s, g, c) (approval r b e)
        ]

        decided :
            (s : Status)
            → d.status ≡ s
            → (r : Record) → lookup rid inst.requests ≡ some r
            → P (decide_record cfg now rid d r inst).1
        decided approved s r e = with_bundle d.bundle s refl r e
        decided rejected s r e = rw s (told r rejected none d.reason now e)
        decided pending s r e = rw s same
        decided unknown s r e = rw s same

  pub ban_in_cases :
      (now : ℕ) (ref note : Text)
      → ((fp : Text) (m : Member)
          → member_in ref inst.members ≡ some (fp, m)
          → P (record inst {
            members = insert fp (with_event EventKind.ban note now m) inst.members;
          }))
      → P (ban_in now ref note inst).1
  unfolding ban_in
  ban_in_cases now ref note noted = elim (Option-cases (member_in ref inst.members)) [
    | inl e ↦ rw (e, ban_in) same
    | inr ((fp, m), e) ↦ elim (Bool-cases (banned m)) [
      | inl g ↦ rw (e, ban_in, g) same
      | inr g ↦ rw (e, ban_in, g) (noted fp m e)
    ]
  ]

  pub unban_in_cases :
      (now : ℕ) (ref note : Text)
      → ((fp : Text) (m : Member)
          → member_in ref inst.members ≡ some (fp, m)
          → P (record inst {
            members = insert fp (with_event EventKind.unban note now m) inst.members;
          }))
      → P (unban_in now ref note inst).1
  unfolding unban_in
  unban_in_cases now ref note noted = elim (Option-cases (member_in ref inst.members)) [
    | inl e ↦ rw (e, unban_in) same
    | inr ((fp, m), e) ↦ elim (Bool-cases (banned m)) [
      | inl g ↦ rw (e, unban_in, g) (noted fp m e)
      | inr g ↦ rw (e, unban_in, g) same
    ]
  ]

  pub remove_in_cases :
      (ref : Text)
      → ((fp : Text) (m : Member)
          → member_in ref inst.members ≡ some (fp, m)
          → P (forget_member fp m inst))
      → P (remove_in ref inst).1
  unfolding remove_in
  remove_in_cases ref gone = elim (Option-cases (member_in ref inst.members)) [
    | inl e ↦ rw (e, remove_in) same
    | inr ((fp, m), e) ↦ elim (Bool-cases (is_owner m.kind)) [
      | inl o ↦ rw (e, remove_in, o) same
      | inr o ↦ elim (Bool-cases (banned m)) [
        | inl g ↦ rw (e, remove_in, o, g) (gone fp m e)
        | inr g ↦ rw (e, remove_in, o, g) same
      ]
    ]
  ]

  pub forget_in_cases :
      (rid : Text)
      → P (record inst { requests = erase rid inst.requests })
      → P (forget_in rid inst).1
  unfolding forget_in
  forget_in_cases rid gone = elim (Option-cases (lookup rid inst.requests)) [
    | inl e ↦ rw (e, forget_in) same
    | inr (r, e) ↦ rw (e, forget_in) gone
  ]

  pub activate_in_cases :
      (ca cert : Text)
      → P (record inst { ca_cert = ca; lighthouse_cert = cert })
      → P (activate_in ca cert inst).1
  unfolding activate_in
  activate_in_cases ca cert active =
      elim (Bool-cases (is_empty (trim_space ca) || is_empty (trim_space cert))) [
        | inl e ↦ rw (e, activate_in) same
        | inr e ↦ rw (e, activate_in) active
      ]
