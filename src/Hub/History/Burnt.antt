-- ===== src/Hub/History/Burnt.antt =====
-- internal/hub/hub.go: the keys that were removed, over a sequence of calls.
use robi_net.Base.{
  ℕ, ◌≡◌, refl, sym, ap, ◌∙◌, true, false, not, ◌&&◌, List, [], ◌∷◌, ◌++◌, some, Text, equal_iff,
  is_empty, arith, inl, inr, Bool-cases,
}
use robi_net.Net.{Addr, is_prefix}
use robi_net.Result.{Result, ok, err, Error, bad_mac, key_was_removed}
use robi_net.Hub.Types.{Kind, Member, Burned, Request, Instance, banned}
use robi_net.Hub.Ipam.{allocate, allocate6, keep4, keep6}
use robi_net.Hub.Admission.{
  Applicant, fingerprint_of, burned_in, is_connector, enroll_in, admit_new,
}
use robi_net.Hub.Ban.{remove_in, member_in, forget_member, is_owner}
use robi_net.Hub.History.Cases.{
  enroll_in_cases, decide_in_cases, ban_in_cases, unban_in_cases, remove_in_cases, forget_in_cases,
  activate_in_cases,
}
use robi_net.Hub.History.{
  Op, enroll, decide, forget, ban, unban, remove, set_token, activate, step, run,
}
use robi_net.Enroll.{Platform, verify_mac}

keep4_burned :
    (inst : Instance) (fp : Text) (r : Result Addr) → (keep4 inst fp r).1.burned ≡ inst.burned
keep4_burned inst fp (ok a) = refl
keep4_burned inst fp (err e) = refl

keep6_burned :
    (inst : Instance) (fp : Text) (r : Result Addr) → (keep6 inst fp r).1.burned ≡ inst.burned
keep6_burned inst fp (ok a) = refl
keep6_burned inst fp (err e) = refl

allocated_burned :
    (inst : Instance) (fp : Text) (kind : Kind)
    → (allocate6 (allocate inst fp kind).1 fp kind).1.burned ≡ inst.burned
unfolding allocate allocate6
allocated_burned inst fp kind = elim (Bool-cases (is_prefix (allocate inst fp kind).1.overlay6)) [
  | inl e ↦ rw (e, allocate6) (keep6_burned _ fp _ ∙ keep4_burned inst fp _)
  | inr e ↦ rw (e, allocate6) (keep4_burned inst fp _)
]

admit_new_burned :
    (id : Text) (now : ℕ) (req : Request) (who : Applicant) (fp : Text) (r r6 : Result Addr)
    (inst : Instance)
    → (admit_new id now req who fp r r6 inst).1.burned ≡ inst.burned
unfolding admit_new
admit_new_burned id now req who fp r r6 inst = ground arith

append_nil : (bs : List Burned) → bs ++ [] ≡ bs
append_nil [] = refl
append_nil (b ∷ bs) = ap (λ (cs : List Burned). b ∷ cs) (append_nil bs)

append_assoc : (as' bs cs : List Burned) → (as' ++ bs) ++ cs ≡ as' ++ (bs ++ cs)
append_assoc [] bs cs = refl
append_assoc (a ∷ as') bs cs = ap (λ (ds : List Burned). a ∷ ds) (append_assoc as' bs cs)

-- The second list of removed keys continues the first.
abbrev pub Grows : Instance → Instance → Type 0
Grows inst later = (bs : List Burned) × (later.burned ≡ inst.burned ++ bs)

same-Grows : (inst later : Instance) → later.burned ≡ inst.burned → Grows inst later
same-Grows inst later e = ([], e ∙ sym (append_nil inst.burned))

pub forget_member_burned :
    (fp : Text) (m : Member) (inst : Instance)
    → (forget_member fp m inst).burned
      ≡ inst.burned ++ record { fingerprint = fp; cert_fingerprint = m.cert_fingerprint } ∷ []
unfolding forget_member
forget_member_burned fp m inst = refl

-- A call only adds to the list of removed keys.
step-Grows : (pl : Platform) (op : Op) (inst : Instance) → Grows inst (step pl op inst)
unfolding step
step-Grows pl op inst = go op
  where
    P : Instance → Type 0
    P = Grows inst

    kept : P inst
    kept = same-Grows inst inst refl

    forgotten : (fp : Text) (m : Member) → P (forget_member fp m inst)
    forgotten fp m = (
      record { fingerprint = fp; cert_fingerprint = m.cert_fingerprint } ∷ [],
      forget_member_burned fp m inst,
    )

    nil : inst.burned ≡ inst.burned ++ []
    nil = sym (append_nil inst.burned)

    admitted :
        (id : Text) (now : ℕ) (req : Request) (who : Applicant)
        → (let fp = fingerprint_of pl req.public_key in
            let first = allocate inst fp who.kind in
            let second = allocate6 first.1 fp who.kind in
            (admit_new id now req who fp first.0 second.0 second.1).1.burned)
          ≡ inst.burned
    admitted id now req who =
        let fp = fingerprint_of pl req.public_key in
        let first = allocate inst fp who.kind in
        let second = allocate6 first.1 fp who.kind in
        admit_new_burned id now req who fp first.0 second.0 second.1
        ∙ allocated_burned inst fp who.kind

    go : (op' : Op) → P (step pl op' inst)
    go (enroll id now req who) =
        enroll_in_cases P inst kept pl id now req who (λ rid r e. ([], nil))
          ([], admitted id now req who ∙ nil)
    go (decide cfg now rid d) =
        decide_in_cases P inst kept cfg now rid d (λ r st b why at e. ([], nil))
          (λ r b e g. ([], nil))
    go (forget rid) = forget_in_cases P inst kept rid (([], nil))
    go (ban now ref note) = ban_in_cases P inst kept now ref note (λ fp m e. ([], nil))
    go (unban now ref note) = unban_in_cases P inst kept now ref note (λ fp m e. ([], nil))
    go (remove ref) = remove_in_cases P inst kept ref (λ fp m e. forgotten fp m)
    go (set_token token) = ([], nil)
    go (activate ca cert) = activate_in_cases P inst kept ca cert ([], nil)

pub run-Grows : (pl : Platform) (ops : List Op) (inst : Instance) → Grows inst (run pl ops inst)
unfolding run
run-Grows pl [] inst = same-Grows inst inst refl
run-Grows pl (op ∷ ops) inst =
    let (bs, e) = step-Grows pl op inst in
    let (cs, g) = run-Grows pl ops (step pl op inst) in
    (bs ++ cs, g ∙ ap (λ (ds : List Burned). ds ++ cs) e ∙ append_assoc inst.burned bs cs)

burned_in-append :
    (fp : Text) (bs cs : List Burned) → burned_in fp bs ≡ true → burned_in fp (bs ++ cs) ≡ true
unfolding burned_in
burned_in-append fp [] cs h = cc
burned_in-append fp (b ∷ bs) cs h = ground (arith, burned_in-append fp bs cs)

burned_in-last :
    (fp : Text) (bs : List Burned) (b : Burned)
    → b.fingerprint ≡ fp
    → burned_in fp (bs ++ b ∷ []) ≡ true
unfolding burned_in
burned_in-last fp [] b e = ground (arith, equal_iff b.fingerprint fp)
burned_in-last fp (c ∷ bs) b e = ground (arith, burned_in-last fp bs b e)

-- A key that is burned is refused, and the refusal changes nothing.
enroll_in_refused :
    (pl : Platform) (id : Text) (now : ℕ) (req : Request) (who : Applicant) (inst : Instance)
    → burned_in (fingerprint_of pl req.public_key) inst.burned ≡ true
    → (e : Error) × (enroll_in pl id now req who inst ≡ (err e, inst))
unfolding enroll_in
enroll_in_refused pl id now req who inst h =
    elim (Bool-cases (
      is_connector who.kind
      && not (is_empty inst.shared_token)
      && not (verify_mac pl req inst.shared_token who.mac))) [
        | inl e ↦ (bad_mac, rw e)
        | inr e ↦ (key_was_removed, rw (e, h))
      ]

-- What a successful removal leaves: the instance without the member, who was banned and no owner.
pub remove_in-ok :
    (ref fp : Text) (m : Member) (inst : Instance) {gone : Member}
    → member_in ref inst.members ≡ some (fp, m)
    → (remove_in ref inst).0 ≡ ok gone
    → (is_owner m.kind ≡ false)
      × (banned m ≡ true)
      × ((remove_in ref inst).1 ≡ forget_member fp m inst)
unfolding remove_in
remove_in-ok ref fp m inst found h = elim (Bool-cases (is_owner m.kind)) [
  | inl o ↦ cc (rw (found, remove_in, o) at h)
  | inr o ↦ elim (Bool-cases (banned m)) [
    | inl b ↦ (o, b, rw (found, remove_in, o, b) refl)
    | inr b ↦ cc (rw (found, remove_in, o, b) at h)
  ]
]

-- Removing a member is for good: when `RemoveMember` finds a member under a key and succeeds, then
-- after any further calls, an enrollment with a key of that fingerprint, of whatever kind and with
-- whatever token, is an error and changes nothing.
pub remove_in-is_final :
    (pl : Platform) (ref fp : Text) (m : Member) (inst : Instance) {gone : Member}
    → member_in ref inst.members ≡ some (fp, m)
    → (remove_in ref inst).0 ≡ ok gone
    → (ops : List Op) (id : Text) (now : ℕ) (req : Request) (who : Applicant)
    → fingerprint_of pl req.public_key ≡ fp
    → (e : Error) × (enroll_in pl id now req who (run pl ops (remove_in ref inst).1)
        ≡ (err e, run pl ops (remove_in ref inst).1))
remove_in-is_final pl ref fp m inst found h ops id now req who key =
    enroll_in_refused pl id now req who (run pl ops (remove_in ref inst).1) (rw key burnt)
  where
    after : Instance
    after = (remove_in ref inst).1

    at_once : burned_in fp after.burned ≡ true
    at_once =
        rw ((remove_in-ok ref fp m inst found h).2, forget_member_burned fp m inst)
          (burned_in-last fp inst.burned
            (record { fingerprint = fp; cert_fingerprint = m.cert_fingerprint }) refl)

    burnt : burned_in fp (run pl ops after).burned ≡ true
    burnt =
        let (bs, e) = run-Grows pl ops after in rw e (burned_in-append fp after.burned bs at_once)
