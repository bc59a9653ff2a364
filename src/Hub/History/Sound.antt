-- ===== src/Hub/History/Sound.antt =====
-- internal/hub: the invariant of an instance, and what a change of each part of it does.
use robi_net.Base.{
  ℕ, ◌≡◌, ◌≢◌, sym, ap, ◌∙◌, not, ◌&&◌, [], ◌∷◌, ◌⊎◌, In, some, Text, Dict, insert, erase, equal,
  equal_iff, arith, inl, inr, Bool-cases, some_inj, lookup-erase, In-insert, In-erase,
}
use robi_net.Net.{Addr, Prefix, is_addr, prefix_from, bits}
use robi_net.Result.{Result}
use robi_net.Hub.Types.{owner, Member, Request, Record, Instance}
use robi_net.Hub.Ipam.Alloc.{IsAllocated, IsInjective, IsApart}
use robi_net.Hub.Admission.{Applicant, prefix_of, admit_new, new_record, find_request, address_in}
use robi_net.Hub.Ban.{member_in, refers, forget_member, drop_requests}
use robi_net.Hub.History.Owned.{Owns, OwnsBoth, Keeps-Owns, IsKept}

-- What holds of an instance at every moment: the allocations are apart, and the address of every
-- request and of every member but an owner is the one allocated to its key.
pub record IsSound (inst : Instance) : Type 0 where
  pub allocated : IsAllocated inst
  pub requested :
      (rid : Text) (r : Record)
      → In (rid, r) inst.requests
      → OwnsBoth inst r.fingerprint r.overlay_address r.overlay_address6
  pub joined :
      (fp : Text) (m : Member)
      → In (fp, m) inst.members
      → (m.kind ≡ owner) ⊎ OwnsBoth inst fp m.address m.address6

pub find_request-In :
    (fp : Text) (rs : Dict Record) {rid : Text} {r : Record}
    → find_request fp rs ≡ some (rid, r)
    → In (rid, r) rs
unfolding find_request
find_request-In fp [] h = cc
find_request-In fp ((id, r') ∷ rs) h = elim (Bool-cases (equal r'.fingerprint fp)) [
  | inl e ↦ inl (sym (some_inj (rw (e, find_request) at h)))
  | inr e ↦ inr (find_request-In fp rs (rw (e, find_request) at h))
]

pub member_in-In :
    (ref : Text) (ms : Dict Member) {fp : Text} {m : Member}
    → member_in ref ms ≡ some (fp, m)
    → In (fp, m) ms
unfolding member_in
member_in-In ref [] h = cc
member_in-In ref ((k, m') ∷ ms) h = elim (Bool-cases (refers ref k m')) [
  | inl e ↦ inl (sym (some_inj (rw (e, member_in) at h)))
  | inr e ↦ inr (member_in-In ref ms (rw (e, member_in) at h))
]

In-drop_requests :
    (fp rid : Text) (r : Record) (rs : Dict Record)
    → In (rid, r) (drop_requests fp rs)
    → (fp ≢ r.fingerprint) × In (rid, r) rs
unfolding drop_requests
In-drop_requests fp rid r [] h = elim h [ ]
In-drop_requests fp rid r ((id, r') ∷ rs) h = elim (Bool-cases (equal r'.fingerprint fp)) [
  | inl e ↦ let (ne, g) = In-drop_requests fp rid r rs (rw (e, drop_requests) at h) in (ne, inr g)
  | inr e ↦ elim (rw (e, drop_requests) at h) [
    | inl g ↦
        let other = ap (λ (p : Text × Record). p.1.fingerprint) g in
        ((λ same. cc (e, (equal_iff r'.fingerprint fp).1 (sym other ∙ sym same))), inl g)
    | inr g ↦ let (ne, g') = In-drop_requests fp rid r rs g in (ne, inr g')
  ]
]

same-IsAllocated :
    (inst : Instance) (rs : Dict Record) (ms : Dict Member)
    → IsAllocated inst
    → IsAllocated (record inst { requests = rs; members = ms })
same-IsAllocated inst rs ms v = record {
  injective = v.injective;
  injective6 = v.injective6;
  lighthouse = v.lighthouse;
  lighthouse6 = v.lighthouse6;
  tenant = v.tenant;
  tenant6 = v.tenant6;
}

-- Requests and members come and go; the allocations are as they were.
module _ (inst : Instance) (v : IsSound inst) where
  pub request_told :
      (rid : Text) (r : Record)
      → OwnsBoth inst r.fingerprint r.overlay_address r.overlay_address6
      → IsSound (record inst { requests = insert rid r inst.requests })
  request_told rid r own = record {
    allocated = same-IsAllocated inst (insert rid r inst.requests) inst.members v.allocated;
    requested = λ rid' r' h. elim (In-insert rid rid' r r' inst.requests h) [
      | inl (_, e) ↦ rw e own
      | inr old ↦ v.requested rid' r' old
    ];
    joined = v.joined;
  }

  pub request_forgotten :
      (rid : Text) → IsSound (record inst { requests = erase rid inst.requests })
  request_forgotten rid = record {
    allocated = same-IsAllocated inst (erase rid inst.requests) inst.members v.allocated;
    requested = λ rid' r' h. v.requested rid' r' (In-erase rid rid' r' inst.requests h).1;
    joined = v.joined;
  }

  pub member_joined :
      (fp : Text) (m : Member)
      → (m.kind ≡ owner) ⊎ OwnsBoth inst fp m.address m.address6
      → IsSound (record inst { members = insert fp m inst.members })
  member_joined fp m own = record {
    allocated = same-IsAllocated inst inst.requests (insert fp m inst.members) v.allocated;
    requested = v.requested;
    joined = λ fp' m' h. elim (In-insert fp fp' m m' inst.members h) [
      | inl (k, e) ↦ rw (k, e) own
      | inr old ↦ v.joined fp' m' old
    ];
  }

  -- Without a key that is not the member's own, an address is still owned.
  erase-Owns :
      (held : Dict Addr) (gone fp : Text) (p : Prefix)
      → gone ≢ fp
      → Owns held fp p
      → Owns (erase gone held) fp p
  erase-Owns held gone fp p ne (inl e) = inl e
  erase-Owns held gone fp p ne (inr e) =
      inr (ground (arith, lookup-erase gone fp held, equal_iff gone fp))

  erase-IsInjective :
      (held : Dict Addr) (gone : Text) → IsInjective held → IsInjective (erase gone held)
  erase-IsInjective held gone inj j k a e g =
      ground (arith, lookup-erase gone j held, lookup-erase gone k held, inj j k a)

  erase-IsApart :
      (held : Dict Addr) (gone : Text) (a : Addr) → IsApart held a → IsApart (erase gone held) a
  erase-IsApart held gone a apart j = ground (arith, lookup-erase gone j held, apart j)

  pub member_forgotten : (gone : Text) (m : Member) → IsSound (forget_member gone m inst)
  unfolding forget_member
  member_forgotten gone m = record {
    allocated = record {
      injective = erase-IsInjective inst.allocations gone v.allocated.injective;
      injective6 = erase-IsInjective inst.allocations6 gone v.allocated.injective6;
      lighthouse =
          erase-IsApart inst.allocations gone inst.lighthouse_address v.allocated.lighthouse;
      lighthouse6 =
          erase-IsApart inst.allocations6 gone inst.lighthouse_address6 v.allocated.lighthouse6;
      tenant = erase-IsApart inst.allocations gone inst.tenant_address v.allocated.tenant;
      tenant6 = erase-IsApart inst.allocations6 gone inst.tenant_address6 v.allocated.tenant6;
    };
    requested = λ rid r h.
        let (ne, old) = In-drop_requests gone rid r inst.requests h in
        let (own, own6) = v.requested rid r old in
        (
          erase-Owns inst.allocations gone r.fingerprint r.overlay_address ne own,
          erase-Owns inst.allocations6 gone r.fingerprint r.overlay_address6 ne own6,
        );
    joined = λ fp m' h.
        let (ne, old) = In-erase gone fp m' inst.members h in
        let ne' : gone ≢ fp = λ e. ne (sym e) in
        elim (v.joined fp m' old) [
          | inl o ↦ inl o
          | inr (own, own6) ↦ inr (
            erase-Owns inst.allocations gone fp m'.address ne' own,
            erase-Owns inst.allocations6 gone fp m'.address6 ne' own6,
          )
        ];
  }

-- An instance that kept its requests and members, and every address that was recorded.
pub kept-IsSound :
    (inst later : Instance) → IsSound inst → IsKept inst later → IsAllocated later → IsSound later
kept-IsSound inst later v k a = record {
  allocated = a;
  requested = λ rid r h.
      let (own, own6) = v.requested rid r (rw (sym k.requests) h) in
      (Keeps-Owns _ _ k.held _ _ own, Keeps-Owns _ _ k.held6 _ _ own6);
  joined = λ fp m h. elim (v.joined fp m (rw (sym k.members) h)) [
    | inl o ↦ inl o
    | inr (own, own6) ↦ inr (Keeps-Owns _ _ k.held _ _ own, Keeps-Owns _ _ k.held6 _ _ own6)
  ];
}

pub admit_new-IsSound :
    (id : Text) (now : ℕ) (req : Request) (who : Applicant) (fp : Text) (r r6 : Result Addr)
    (inst : Instance)
    → IsSound inst
    → OwnsBoth inst fp
        (prefix_from (address_in r) (bits inst.overlay))
        (prefix_of (address_in r6) inst.overlay6)
    → IsSound (admit_new id now req who fp r r6 inst).1
unfolding admit_new
admit_new-IsSound id now req who fp r r6 inst v own =
    elim (Bool-cases (not (is_addr (address_in r)) && not (is_addr (address_in r6)))) [
      | inl e ↦ rw e v
      | inr e ↦ rw e (
          request_told inst v id (new_record id now req who fp (address_in r) (address_in r6) inst)
            own)
    ]
