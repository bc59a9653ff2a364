-- ===== src/Tenant/Found.antt =====
-- `findMember` of internal/tenant/tenant.go.
use robi_net.Base.{
  ◌≡◌, refl, sym, ap, ◌∙◌, Bool, true, false, Bool-cases, List, [], ◌∷◌, ◌++◌, In, inl, inr, Option,
  none, some, Text, arith,
}
use robi_net.Result.{Result, ok, Error, Result-cases, ok_inj}
use robi_net.Hub.Types.{Member}
use robi_net.Tenant.State.{Owned}
use robi_net.Tenant.Find.{
  OwnedMember, fits, is_elsewhere, members_named, find_from, the_one, find_member,
}

In-append_left : {A : Type 0} (x : A) (xs ys : List A) → In x xs → In x (xs ++ ys)
In-append_left x [] ys h = elim h [ ]
In-append_left x (y ∷ xs) ys (inl e) = inl e
In-append_left x (y ∷ xs) ys (inr h) = inr (In-append_left x xs ys h)

In-append_right : {A : Type 0} (x : A) (xs ys : List A) → In x ys → In x (xs ++ ys)
In-append_right x [] ys h = h
In-append_right x (y ∷ xs) ys h = inr (In-append_right x xs ys h)

In-members_named :
    (ref : Text) (o : Owned) (m : Member) (ms : List Member)
    → In m ms
    → fits ref m ≡ true
    → In (record { owned = o; member = m }) (members_named ref o ms)
unfolding members_named
In-members_named ref o m [] h f = elim h [ ]
In-members_named ref o m (n ∷ ms) (inl e) f = rw (sym e, f) (inl refl)
In-members_named ref o m (n ∷ ms) (inr h) f = elim (Bool-cases (fits ref n)) [
  | inl e ↦ rw e (inr (In-members_named ref o m ms h f))
  | inr e ↦ rw e (In-members_named ref o m ms h f)
]

module _ (equal_fold : Text → Text → Bool) (ask : Text → Result (List Member))
    (ref inst : Text) where
  find_from-keeps :
      (x : OwnedMember) (found : List OwnedMember) (unread : Option Error) (os : List Owned)
      → In x found
      → In x (find_from equal_fold ask ref inst found unread os).0
  unfolding find_from
  find_from-keeps x found unread [] h = h
  find_from-keeps x found unread (o ∷ os) h = elim (Bool-cases (is_elsewhere equal_fold inst o)) [
    | inl e ↦ rw e (find_from-keeps x found unread os h)
    | inr e ↦ elim (Result-cases (ask o.instance_id)) [
      | inr (ms, f) ↦
          rw (e, f)
            (find_from-keeps x (found ++ members_named ref o ms) unread os
              (In-append_left x found (members_named ref o ms) h))
      | inl (e', f) ↦ rw (e, f) (find_from-keeps x found (some e') os h)
    ]
  ]

  find_from-finds_here :
      (o : Owned) (m : Member) (ms : List Member) (found : List OwnedMember) (unread : Option Error)
      (os : List Owned)
      → is_elsewhere equal_fold inst o ≡ false
      → ask o.instance_id ≡ ok ms
      → In m ms
      → fits ref m ≡ true
      → In
          (record { owned = o; member = m })
          (find_from equal_fold ask ref inst found unread (o ∷ os)).0
  unfolding find_from
  find_from-finds_here o m ms found unread os here told i f =
      rw (here, told)
        (find_from-keeps (record { owned = o; member = m }) (found ++ members_named ref o ms) unread
          os
          (In-append_right (record { owned = o; member = m }) found (members_named ref o ms)
            (In-members_named ref o m ms i f)))

  find_from-finds :
      (o : Owned) (m : Member) (ms : List Member) (found : List OwnedMember) (unread : Option Error)
      (os : List Owned)
      → In o os
      → is_elsewhere equal_fold inst o ≡ false
      → ask o.instance_id ≡ ok ms
      → In m ms
      → fits ref m ≡ true
      → In (record { owned = o; member = m }) (find_from equal_fold ask ref inst found unread os).0
  unfolding find_from
  find_from-finds o m ms found unread [] h here told i f = elim h [ ]
  find_from-finds o m ms found unread (p ∷ os) (inl e) here told i f =
      let here' : is_elsewhere equal_fold inst p ≡ false =
        ap (is_elsewhere equal_fold inst) (sym e) ∙ here in
      let told' : ask p.instance_id ≡ ok ms =
        ap (λ (q : Owned). ask q.instance_id) (sym e) ∙ told in
      rw e (find_from-finds_here p m ms found unread os here' told' i f)
  find_from-finds o m ms found unread (p ∷ os) (inr h) here told i f =
      elim (Bool-cases (is_elsewhere equal_fold inst p)) [
        | inl e ↦ rw e (find_from-finds o m ms found unread os h here told i f)
        | inr e ↦ elim (Result-cases (ask p.instance_id)) [
          | inr (ns, g) ↦
              rw (e, g)
                (find_from-finds o m ms (found ++ members_named ref p ns) unread os h here told i f)
          | inl (e', g) ↦ rw (e, g) (find_from-finds o m ms found (some e') os h here told i f)
        ]
      ]

  the_one-only :
      (x y : OwnedMember) (found : List OwnedMember) (unread : Option Error)
      → the_one found unread ≡ ok x
      → In y found
      → y ≡ x
  unfolding the_one
  the_one-only x y [] unread h i = elim i [ ]
  the_one-only x y (z ∷ []) unread h (inl e) = e ∙ ok_inj h
  the_one-only x y (z ∷ []) unread h (inr i) = elim i [ ]
  the_one-only x y (z ∷ w ∷ found) unread h i = absurd (ground arith)

  -- A member that is found is the only one: every member that the reference fits, in an instance
  -- that is searched and whose members the hub lists, is the one that is answered.
  pub find_member_only :
      (owned : List Owned) (x : OwnedMember)
      → find_member equal_fold ask owned ref inst ≡ ok x
      → (o : Owned) (m : Member) (ms : List Member) → In o owned
      → is_elsewhere equal_fold inst o ≡ false
      → ask o.instance_id ≡ ok ms
      → In m ms
      → fits ref m ≡ true
      → x ≡ record { owned = o; member = m }
  unfolding find_member
  find_member_only owned x h o m ms i here told j f =
      let all = find_from equal_fold ask ref inst [] none owned in
      let one : the_one all.0 all.1 ≡ ok x = ground arith in
      sym (
        the_one-only x (record { owned = o; member = m }) all.0 all.1 one
          (find_from-finds o m ms [] none owned i here told j f))
