-- ===== src/Hub/History/Apart.antt =====
-- internal/hub: the addresses of an instance over a sequence of calls.
use robi_net.Base.{
  ℕ, ◌≡◌, ◌≢◌, refl, true, List, [], ◌∷◌, In, some, Text, lookup, insert, inl, inr, lookup-In,
}
use robi_net.Net.{is_prefix}
use robi_net.Hub.Types.{owner, Status, approved, Member, Request, Record, Decision, Instance}
use robi_net.Hub.Ipam.{allocate, allocate6}
use robi_net.Hub.Ipam.Alloc.{allocate-IsAllocated, allocate6-IsAllocated}
use robi_net.Hub.Admission.{Applicant, fingerprint_of, enroll_in, admit_new, find_request, refresh}
use robi_net.Hub.Decision.{new_member}
use robi_net.Hub.History.Owned.{
  OwnsBoth, Keeps-Owns, IsKept-trans, allocate-IsKept, allocate6-IsKept, allocate-Owns,
  allocate6-Owns,
}
use robi_net.Hub.History.Sound.{
  IsSound, find_request-In, member_in-In, request_told, request_forgotten, member_joined,
  member_forgotten, kept-IsSound, admit_new-IsSound,
}
use robi_net.Hub.History.Cases.{
  enroll_in_cases, decide_in_cases, ban_in_cases, unban_in_cases, remove_in_cases, forget_in_cases,
  activate_in_cases,
}
use robi_net.Hub.History.{
  Op, enroll, decide, forget, ban, unban, remove, set_token, activate, step, run,
}
use robi_net.Enroll.{Platform}

refreshed :
    (req : Request) (who : Applicant) (inst : Instance) (r : Record)
    → OwnsBoth inst r.fingerprint r.overlay_address r.overlay_address6
    → let r' = refresh req who r in
      OwnsBoth inst r'.fingerprint r'.overlay_address r'.overlay_address6
unfolding refresh
refreshed req who inst r own = go r.status refl
  where
    go :
        (s : Status)
        → r.status ≡ s
        → OwnsBoth inst
            (refresh req who r).fingerprint
            (refresh req who r).overlay_address
            (refresh req who r).overlay_address6
    go Status.pending e = rw e own
    go Status.approved e = rw e own
    go Status.rejected e = rw e own
    go Status.unknown e = rw e own

-- A new request, with the addresses that the allocations gave.
enrolled :
    (pl : Platform) (id : Text) (now : ℕ) (req : Request) (who : Applicant) (inst : Instance)
    → IsSound inst
    → IsSound (enroll_in pl id now req who inst).1
enrolled pl id now req who inst v = enroll_in_cases IsSound inst v pl id now req who known new
  where
    fp : Text
    fp = fingerprint_of pl req.public_key

    first : Instance
    first = (allocate inst fp who.kind).1

    second : Instance
    second = (allocate6 first fp who.kind).1

    known :
        (rid : Text) (r : Record)
        → find_request fp inst.requests ≡ some (rid, r)
        → IsSound (record inst { requests = insert rid (refresh req who r) inst.requests })
    known rid r e =
        request_told inst v rid (refresh req who r)
          (refreshed req who inst r (v.requested rid r (find_request-In fp inst.requests e)))

    ready : IsSound second
    ready =
        kept-IsSound inst second v
          (IsKept-trans inst first second (allocate-IsKept inst fp who.kind)
            (allocate6-IsKept first fp who.kind))
          (allocate6-IsAllocated first fp who.kind
            (allocate-IsAllocated inst fp who.kind v.allocated))

    new :
        IsSound
          (admit_new id now req who fp
            (allocate inst fp who.kind).0
            (allocate6 first fp who.kind).0
            second).1
    new = admit_new-IsSound id now req who fp _ _ second ready (
      Keeps-Owns _ _ (allocate6-IsKept first fp who.kind).held fp _
          (allocate-Owns inst fp who.kind _),
      allocate6-Owns first fp who.kind second.overlay6,
    )

-- The member that an approval records, at the request's addresses.
approved-IsSound :
    (now : ℕ) (rid : Text) (d : Decision) (r r' : Record) (inst : Instance)
    → IsSound inst
    → OwnsBoth inst r.fingerprint r.overlay_address r.overlay_address6
    → OwnsBoth inst r'.fingerprint r'.overlay_address r'.overlay_address6
    → IsSound (record inst {
      requests = insert rid r' inst.requests;
      members = insert r.fingerprint (new_member now d r) inst.members;
    })
unfolding new_member
approved-IsSound now rid d r r' inst v own own' =
    member_joined (record inst { requests = insert rid r' inst.requests })
      (request_told inst v rid r' own') r.fingerprint (new_member now d r) (inr own)

token-IsSound :
    (token : Text) (inst : Instance) → IsSound inst → IsSound (record inst { shared_token = token })
token-IsSound token inst v = record {
  allocated = record {
    injective = v.allocated.injective;
    injective6 = v.allocated.injective6;
    lighthouse = v.allocated.lighthouse;
    lighthouse6 = v.allocated.lighthouse6;
    tenant = v.allocated.tenant;
    tenant6 = v.allocated.tenant6;
  };
  requested = v.requested;
  joined = v.joined;
}

active-IsSound :
    (ca cert : Text) (inst : Instance)
    → IsSound inst
    → IsSound (record inst { ca_cert = ca; lighthouse_cert = cert })
active-IsSound ca cert inst v = record {
  allocated = record {
    injective = v.allocated.injective;
    injective6 = v.allocated.injective6;
    lighthouse = v.allocated.lighthouse;
    lighthouse6 = v.allocated.lighthouse6;
    tenant = v.allocated.tenant;
    tenant6 = v.allocated.tenant6;
  };
  requested = v.requested;
  joined = v.joined;
}

step-IsSound :
    (pl : Platform) (op : Op) (inst : Instance) → IsSound inst → IsSound (step pl op inst)
unfolding step
step-IsSound pl (enroll id now req who) inst v = enrolled pl id now req who inst v
step-IsSound pl (decide cfg now rid d) inst v =
    decide_in_cases IsSound inst v cfg now rid d
      (λ r st b why at e.
        request_told inst v rid _ (v.requested rid r (lookup-In rid r inst.requests e)))
      (λ r b e g.
        let own = v.requested rid r (lookup-In rid r inst.requests e) in
        approved-IsSound now rid d r (record r { status = approved; bundle = b; decided_at = now })
          inst v own own)
step-IsSound pl (forget rid) inst v =
    forget_in_cases IsSound inst v rid (request_forgotten inst v rid)
step-IsSound pl (ban now ref note) inst v =
    ban_in_cases IsSound inst v now ref note
      (λ fp m e. member_joined inst v fp _ (v.joined fp m (member_in-In ref inst.members e)))
step-IsSound pl (unban now ref note) inst v =
    unban_in_cases IsSound inst v now ref note
      (λ fp m e. member_joined inst v fp _ (v.joined fp m (member_in-In ref inst.members e)))
step-IsSound pl (remove ref) inst v =
    remove_in_cases IsSound inst v ref (λ fp m e. member_forgotten inst v fp m)
step-IsSound pl (set_token token) inst v = token-IsSound token inst v
step-IsSound pl (activate ca cert) inst v =
    activate_in_cases IsSound inst v ca cert (active-IsSound ca cert inst v)

-- Any sequence of enrollments, decisions, bans, removals and the other calls keeps an instance
-- sound: the recorded addresses are apart from each other and from the lighthouse's and the
-- owner's, and each request and each member but an owner holds in each family no prefix or the
-- address that is recorded for its key.
pub run-IsSound :
    (pl : Platform) (ops : List Op) (inst : Instance) → IsSound inst → IsSound (run pl ops inst)
unfolding run
run-IsSound pl [] inst v = v
run-IsSound pl (op ∷ ops) inst v = run-IsSound pl ops (step pl op inst) (step-IsSound pl op inst v)

-- After any sequence of calls on a sound instance, a member that is no owner and has an IPv4 prefix
-- stands neither at the lighthouse's IPv4 address nor at the owner's, and no other member that is
-- no owner and has an IPv4 prefix stands at the same address.
pub run-members_apart :
    (pl : Platform) (ops : List Op) (inst : Instance)
    → IsSound inst
    → (fp : Text) (m : Member) → In (fp, m) (run pl ops inst).members
    → m.kind ≢ owner
    → is_prefix m.address ≡ true
    → (m.address.addr ≢ (run pl ops inst).lighthouse_address)
      × (m.address.addr ≢ (run pl ops inst).tenant_address)
      × ((fp' : Text) (m' : Member)
          → In (fp', m') (run pl ops inst).members
          → m'.kind ≢ owner
          → m'.address.addr ≡ m.address.addr
          → is_prefix m'.address ≡ true
          → fp' ≡ fp)
run-members_apart pl ops inst v fp m i plain valid = (
  λ e. sound.allocated.lighthouse fp (rw e at held),
  λ e. sound.allocated.tenant fp (rw e at held),
  λ fp' m' i' plain' e valid'.
      sound.allocated.injective fp' fp m.address.addr (rw e at (own fp' m' i' plain' valid')) held,
)
  where
    sound : IsSound (run pl ops inst)
    sound = run-IsSound pl ops inst v

    own :
        (k : Text) (n : Member)
        → In (k, n) (run pl ops inst).members
        → n.kind ≢ owner
        → is_prefix n.address ≡ true
        → lookup k (run pl ops inst).allocations ≡ some n.address.addr
    own k n h o p = elim (sound.joined k n h) [
      | inl e ↦ absurd (o e)
      | inr (inl e, _) ↦ cc
      | inr (inr e, _) ↦ e
    ]

    held : lookup fp (run pl ops inst).allocations ≡ some m.address.addr
    held = own fp m i plain valid
