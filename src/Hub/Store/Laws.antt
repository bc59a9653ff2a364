-- ===== src/Hub/Store/Laws.antt =====
-- `Add` and `Resolve` of internal/hub/store.go: ids and names.
use robi_net.Base.{
  ◌≡◌, ◌≢◌, refl, sym, ap, ◌∙◌, Bool, true, false, List, [], ◌∷◌, In, none, some, Text, Dict,
  lookup, insert, values, equal, equal_iff, equal_refl, lookup-insert, lookup-In-values,
  if◌then◌else◌, Bool-cases, Option-cases, some_inj, inl, inr, arith,
}
use robi_net.Result.{Result, ok, err, not_found, ambiguous}
use robi_net.Strings.{to_lower, trim_space}
use robi_net.Hub.Types.{Instance}
use robi_net.Hub.Store.{Store, save, add, find_named, resolve, name_used, with_instances}

-- Each instance stands under its own id.
abbrev pub AreKeyed : Dict Instance → Type 0
AreKeyed is = (id : Text) (i : Instance) → lookup id is ≡ some i → i.id ≡ id

-- Each instance stands under its own id, and no two have one name.
pub record IsIndexed (is : Dict Instance) : Type 0 where
  pub keyed : (id : Text) (i : Instance) → lookup id is ≡ some i → i.id ≡ id
  pub named :
      (id id' : Text) (i i' : Instance)
      → lookup id is ≡ some i
      → lookup id' is ≡ some i'
      → i.name ≡ i'.name
      → id ≡ id'

name_used-In : (is : List Instance) (i : Instance) → In i is → name_used i.name is ≡ true
unfolding name_used
name_used-In [] i h = elim h [ ]
name_used-In (j ∷ is) i (inl e) = rw (e, equal_refl j.name)
name_used-In (j ∷ is) i (inr h) = ground (arith, name_used-In is i h)

-- A name that is not in use is the name of no instance.
name_unused :
    (name : Text) (is : Dict Instance)
    → name_used name (values is) ≡ false
    → (id : Text) (i : Instance) → lookup id is ≡ some i
    → i.name ≢ name
name_unused name is free id i h e =
    cc (free, rw e at (name_used-In (values is) i (lookup-In-values id i is h)))

insert-IsIndexed :
    (inst : Instance) (is : Dict Instance)
    → IsIndexed is
    → name_used inst.name (values is) ≡ false
    → IsIndexed (insert inst.id inst is)
insert-IsIndexed inst is v free = record { keyed = keyed'; named = named' }
  where
    keyed' : (id : Text) (i : Instance) → lookup id (insert inst.id inst is) ≡ some i → i.id ≡ id
    keyed' id i h = elim (Bool-cases (equal inst.id id)) [
      | inl e ↦
          let same : some inst ≡ some i = rw (lookup-insert inst.id id inst is, e) at h in
          ap (λ (k : Instance). k.id) (sym (some_inj same)) ∙ (equal_iff inst.id id).0 e
      | inr e ↦ v.keyed id i (rw (lookup-insert inst.id id inst is, e) at h)
    ]

    named' :
        (id id' : Text) (i i' : Instance)
        → lookup id (insert inst.id inst is) ≡ some i
        → lookup id' (insert inst.id inst is) ≡ some i'
        → i.name ≡ i'.name
        → id ≡ id'
    named' id id' i i' h h' e = elim (Bool-cases (equal inst.id id)) [
      | inl a ↦ elim (Bool-cases (equal inst.id id')) [
        | inl b ↦ sym ((equal_iff inst.id id).0 a) ∙ (equal_iff inst.id id').0 b
        | inr b ↦
            let same : some inst ≡ some i = rw (lookup-insert inst.id id inst is, a) at h in
            let old = rw (lookup-insert inst.id id' inst is, b) at h' in
            absurd (
              name_unused inst.name is free id' i' old
                (sym e ∙ ap (λ (k : Instance). k.name) (sym (some_inj same))))
      ]
      | inr a ↦ elim (Bool-cases (equal inst.id id')) [
        | inl b ↦
            let same : some inst ≡ some i' = rw (lookup-insert inst.id id' inst is, b) at h' in
            let old = rw (lookup-insert inst.id id inst is, a) at h in
            absurd (
              name_unused inst.name is free id i old
                (e ∙ ap (λ (k : Instance). k.name) (sym (some_inj same))))
        | inr b ↦
            v.named id id' i i' (rw (lookup-insert inst.id id inst is, a) at h)
              (rw (lookup-insert inst.id id' inst is, b) at h') e
      ]
    ]

pub save_state : (writable : Bool) (s : Store) → (save writable s).1.state ≡ s.state
unfolding save
save_state true s = refl
save_state false s = refl

-- Where each instance stands under its own id and no two have one name, adding an instance keeps
-- that so, whether or not it succeeds and whether or not the file can be written.
pub add-IsIndexed :
    (writable : Bool) (inst : Instance) (s : Store)
    → IsIndexed s.state.instances
    → IsIndexed (add writable inst s).1.state.instances
unfolding add
add-IsIndexed writable inst s v = elim (Option-cases (lookup inst.id s.state.instances)) [
  | inr (old, e) ↦ rw (e, add) v
  | inl e ↦ elim (Bool-cases (name_used inst.name (values s.state.instances))) [
    | inl used ↦ rw (e, add, used) v
    | inr free ↦
        rw (e, add, free)
          (rw (save_state writable (with_instances s (insert inst.id inst s.state.instances)))
            (insert-IsIndexed inst s.state.instances v free))
  ]
]

-- The instances of a name.
pub named_in : Text → List Instance → List Instance
named_in name [] = []
named_in name (i ∷ is) = if equal i.name name then i ∷ named_in name is else named_in name is

-- What a reference by name means: the one instance of that name, and an error where there is none
-- or more than one.
abbrev pub the_only : List Instance → Result Instance
the_only [] = err not_found
the_only (i ∷ []) = ok i
the_only (i ∷ j ∷ is) = err ambiguous

find_named-some :
    (name : Text) (found : Instance) (is : List Instance)
    → find_named name (some found) is ≡ the_only (found ∷ named_in name is)
unfolding find_named named_in
find_named-some name found [] = refl
find_named-some name found (i ∷ is) = elim (Bool-cases (equal i.name name)) [
  | inl e ↦ rw (e, find_named, named_in)
  | inr e ↦ rw (e, find_named, named_in) (find_named-some name found is)
]

find_named-none :
    (name : Text) (is : List Instance) → find_named name none is ≡ the_only (named_in name is)
unfolding find_named named_in
find_named-none name [] = refl
find_named-none name (i ∷ is) = elim (Bool-cases (equal i.name name)) [
  | inl e ↦ rw (e, find_named, named_in) (find_named-some name i is)
  | inr e ↦ rw (e, find_named, named_in) (find_named-none name is)
]

-- `Resolve` answers the instance with that id; where there is none, the instance that alone has the
-- trimmed and folded name, and an error where none or more than one has.
pub resolve_lem :
    (ref : Text) (s : Store)
    → resolve ref s ≡ (elim (lookup ref s.state.instances) [
      | some i ↦ ok i
      | none ↦ the_only (named_in (to_lower (trim_space ref)) (values s.state.instances))
    ])
unfolding resolve
resolve_lem ref s = elim (Option-cases (lookup ref s.state.instances)) [
  | inl e ↦ rw (e, resolve) (find_named-none _ (values s.state.instances))
  | inr (i, e) ↦ rw (e, resolve)
]
