-- ===== src/Tenant/Admitted.antt =====
-- internal/tenant/tenant.go: what the owner's decision says, and what the hub makes of it.
use robi_net.Base.{
  ◌≡◌, ◌↔◌, ◌⊎◌, refl, sym, ap, ◌∙◌, true, false, ◌&&◌, List, [], ◌∷◌, In, some, Text, Dict, lookup,
  equal, equal_iff, Bool-cases, Option-cases, inl, inr, arith,
}
use robi_net.Net.{Prefix}
use robi_net.Result.{ok, Result-cases, ok_inj}
use robi_net.Strings.{has_prefix}
use robi_net.Hub.Types.{approved, Bundle, Decision}
use robi_net.Hub.Admission.{is_tenant}
use robi_net.Hub.CertName.{member_cert_name}
use robi_net.Tenant.Naming.{fits_in_a_name}
use robi_net.Tenant.State.{Owned}
use robi_net.Tenant.Admit.{
  PendingEntry, Sign, Host, Choice, is_carriable, carriable, addresses, match_from, match_pending,
  chosen_routes, chosen_domain, chosen_name, is_some_route, host_of, bundle_of, decision_of,
  sign_decision, approve_decision,
}

-- `carriable` parts the routes by whether the machine has an address of their family.
pub carriable_iff :
    (x : Prefix) (rs addrs : List Prefix)
    → (In x (carriable rs addrs).0 ↔ (In x rs × (is_carriable addrs x ≡ true)))
      × (In x (carriable rs addrs).1 ↔ (In x rs × (is_carriable addrs x ≡ false)))
unfolding carriable
carriable_iff x [] addrs =
    (((λ h. elim h [ ]), (λ h. elim h.0 [ ])), ((λ h. elim h [ ]), (λ h. elim h.0 [ ])))
carriable_iff x (r ∷ rs) addrs =
    let (kept, dropped) = carriable_iff x rs addrs in
    elim (Bool-cases (is_carriable addrs r)) [
      | inl e ↦ rw e (
        (
          (λ h. elim h [
            | inl g ↦ (inl g, ap (is_carriable addrs) g ∙ e)
            | inr g ↦ let (a, b) = kept.0 g in (inr a, b)
          ]),
          (λ (i, c). elim i [ inl g ↦ inl g | inr g ↦ inr (kept.1 (g, c)) ]),
        ),
        (
          (λ h. let (a, b) = dropped.0 h in (inr a, b)),
          (λ (i, c). elim i [
            | inl g ↦ absurd (cc (ap (is_carriable addrs) g, e, c))
            | inr g ↦ dropped.1 (g, c)
          ]),
        ),
      )
      | inr e ↦ rw e (
        (
          (λ h. let (a, b) = kept.0 h in (inr a, b)),
          (λ (i, c). elim i [
            | inl g ↦ absurd (cc (ap (is_carriable addrs) g, e, c))
            | inr g ↦ kept.1 (g, c)
          ]),
        ),
        (
          (λ h. elim h [
            | inl g ↦ (inl g, ap (is_carriable addrs) g ∙ e)
            | inr g ↦ let (a, b) = dropped.0 g in (inr a, b)
          ]),
          (λ (i, c). elim i [ inl g ↦ inl g | inr g ↦ inr (dropped.1 (g, c)) ]),
        ),
      )
    ]

-- What a match means, with the entries found before.
match_from-ok :
    (found entries : List PendingEntry) (wanted : Text) (e : PendingEntry)
    → match_from found wanted entries ≡ ok e
    → (e.record_of.id ≡ wanted)
      ⊎ ((x : PendingEntry)
          → (In x found ⊎ (In x entries × (has_prefix x.record_of.id wanted ≡ true)))
          → x ≡ e)
unfolding match_from
match_from-ok [] [] wanted e h = cc
match_from-ok (f ∷ []) [] wanted e h = inr (λ x i. elim i [
  | inl (inl same) ↦ same ∙ ground arith
  | inl (inr j) ↦ elim j [ ]
  | inr p ↦ elim p.0 [ ]
])
match_from-ok (f ∷ g ∷ fs) [] wanted e h = cc
match_from-ok found (n ∷ ns) wanted e h = elim (Bool-cases (equal n.record_of.id wanted)) [
  | inl same ↦
      let got : n ≡ e = ground arith in
      inl (
        ap (λ (y : PendingEntry). y.record_of.id) (sym got)
        ∙ (equal_iff n.record_of.id wanted).0 same)
  | inr other ↦ elim (Bool-cases (has_prefix n.record_of.id wanted)) [
    | inl pre ↦ elim (match_from-ok (n ∷ found) ns wanted e (ground arith)) [
      | inl exact ↦ inl exact
      | inr only ↦ inr (λ x i. elim i [
        | inl f ↦ only x (inl (inr f))
        | inr (inl here, p) ↦ only x (inl (inl here))
        | inr (inr there, p) ↦ only x (inr (there, p))
      ])
    ]
    | inr none_of ↦ elim (match_from-ok found ns wanted e (ground arith)) [
      | inl exact ↦ inl exact
      | inr only ↦ inr (λ x i. elim i [
        | inl f ↦ only x (inl f)
        | inr (inl here, p) ↦
            absurd
              (cc (ap (λ (y : PendingEntry). has_prefix y.record_of.id wanted) here, p, none_of))
        | inr (inr there, p) ↦ only x (inr (there, p))
      ])
    ]
  ]
]

-- No guessing: the request that a text finds has that text as its id, or it is the only waiting
-- request whose id begins with it.
pub match_pending_unique :
    (entries : List PendingEntry) (wanted : Text) (e : PendingEntry)
    → match_pending entries wanted ≡ ok e
    → (e.record_of.id ≡ wanted)
      ⊎ ((x : PendingEntry) → In x entries → has_prefix x.record_of.id wanted ≡ true → x ≡ e)
unfolding match_pending
match_pending_unique entries wanted e h = elim (match_from-ok [] entries wanted e h) [
  | inl exact ↦ inl exact
  | inr only ↦ inr (λ x i p. only x (inr (i, p)))
]

-- The decision that an approval sends.
pub record IsApproval (sign : Sign) (all : Dict Owned) (c : Choice) (entry : PendingEntry)
    (d : Decision) : Type 0 where
  pub bundle : Bundle
  pub host : Host
  pub owned : Owned
  pub held : lookup entry.instance_id all ≡ some owned
  pub status : d.status ≡ approved
  pub bundled : d.bundle ≡ some bundle
  pub signed : sign owned.ca_cert owned.ca_key host ≡ some (bundle.certificate, d.cert_fingerprint)
  pub ca : bundle.ca ≡ owned.ca_cert
  pub issued_to : host.name ≡ member_cert_name entry.record_of.kind d.name entry.instance_name
  pub key : host.public_key ≡ entry.record_of.request.public_key
  pub networks :
      host.networks
      ≡ addresses (entry.record_of.overlay_address ∷ entry.record_of.overlay_address6 ∷ [])
  pub name : d.name ≡ chosen_name c entry.record_of
  pub routes : d.routes ≡ (carriable (chosen_routes c entry.record_of).0 host.networks).0
  pub unsafe_networks : host.unsafe_networks ≡ d.routes
  pub domain : d.domain ≡ chosen_domain c entry.record_of

sign_decision-IsApproval :
    (sign : Sign) (all : Dict Owned) (owned : Owned) (c : Choice) (entry : PendingEntry)
    (routes : List Prefix) (d : Decision)
    → lookup entry.instance_id all ≡ some owned
    → sign_decision sign owned entry
        (chosen_name c entry.record_of)
        routes
        (chosen_domain c entry.record_of)
      ≡ ok d
    → routes
      ≡ (carriable
          (chosen_routes c entry.record_of).0
          (addresses (entry.record_of.overlay_address ∷ entry.record_of.overlay_address6 ∷ []))).0
    → IsApproval sign all c entry d
unfolding sign_decision host_of decision_of
sign_decision-IsApproval sign all owned c entry routes d held h r =
    let host = host_of entry (chosen_name c entry.record_of) routes in
    elim (Option-cases (sign owned.ca_cert owned.ca_key host)) [
      | inl e ↦ absurd (ground arith)
      | inr ((cert, fp), e) ↦
          let same = ok_inj (rw (e, sign_decision) at h) in
          rw (sym same) (record {
            bundle = bundle_of owned cert;
            host = host;
            owned = owned;
            held = held;
            ca = refl;
            issued_to = refl;
            status = refl;
            bundled = refl;
            signed = e;
            key = refl;
            networks = refl;
            name = refl;
            routes = r;
            unsafe_networks = refl;
            domain = refl;
          })
    ]

pub approve_decision-IsApproval :
    (sign : Sign) (all : Dict Owned) (c : Choice) (entry : PendingEntry) (d : Decision)
    → approve_decision sign all c entry ≡ ok d
    → IsApproval sign all c entry d
unfolding approve_decision
approve_decision-IsApproval sign all c entry d h =
    let r = entry.record_of in
    let part =
      carriable (chosen_routes c r).0 (addresses (r.overlay_address ∷ r.overlay_address6 ∷ [])) in
    elim (Option-cases (lookup entry.instance_id all)) [
      | inl e ↦ absurd (ground arith)
      | inr (o, e) ↦ elim (Bool-cases ((chosen_routes c r).1 && is_some_route part.1)) [
        | inl f ↦ absurd (cc (rw (e, approve_decision, f) at h))
        | inr f ↦
            elim (Result-cases (fits_in_a_name r.kind (chosen_name c r) entry.instance_name)) [
              | inl (_, g) ↦ absurd (cc (rw (e, approve_decision, f, g) at h))
              | inr (_, g) ↦
                  sign_decision-IsApproval sign all o c entry part.0 d e
                    (rw (e, approve_decision, f, g) at h) refl
            ]
      ]
    ]

-- A tenant is admitted to use the routes of an instance, not to bring its own: whatever the owner
-- chose, the decision about a tenant carries no route and no domain.
pub approve_decision-tenant :
    (sign : Sign) (all : Dict Owned) (c : Choice) (entry : PendingEntry) (d : Decision)
    → approve_decision sign all c entry ≡ ok d
    → is_tenant entry.record_of.kind ≡ true
    → (d.routes ≡ []) × (d.domain ≡ [])
unfolding carriable
approve_decision-tenant sign all c entry d h t =
    let v = approve_decision-IsApproval sign all c entry d h in
    (ground (arith, v.routes, t), ground (arith, v.domain, t))
