-- ===== src/Hub/Store/Frame.antt =====
-- internal/hub/store.go: what an operation on one instance leaves alone.
use robi_net.Base.{
  ◌≡◌, ◌≢◌, refl, Bool, true, false, List, Text, lookup, insert, erase, equal_iff, lookup-insert,
  lookup-erase, values, inl, inr, Option-cases, Bool-cases, arith,
}
use robi_net.Result.{Result, ok, err}
use robi_net.Hub.Types.{Instance}
use robi_net.Hub.Store.{Store, save, finish_update, update, add, remove, name_used}

-- That two stores have the same registrations, and the same instances but for one id.
pub record IsSameBut (id : Text) (s later : Store) : Type 0 where
  pub identities : later.state.identities ≡ s.state.identities
  pub others : (j : Text) → j ≢ id → lookup j later.state.instances ≡ lookup j s.state.instances

pub IsSameBut-refl : (id : Text) (s : Store) → IsSameBut id s s
IsSameBut-refl id s = record { identities = refl; others = λ j ne. refl }

pub lookup-insert_other :
    {V : Type 0} (id j : Text) (v : V) (m : List (Text × V))
    → j ≢ id
    → lookup j (insert id v m) ≡ lookup j m
lookup-insert_other id j v m ne = ground (arith, lookup-insert id j v m, equal_iff id j)

lookup-erase_other :
    {V : Type 0} (id j : Text) (m : List (Text × V)) → j ≢ id → lookup j (erase id m) ≡ lookup j m
lookup-erase_other id j m ne = ground (arith, lookup-erase id j m, equal_iff id j)

module _ {A : Type 0} (writable : Bool) (id : Text) where
  finish_update-IsSameBut :
      (w : Bool) (s : Store) (r : Result A × Instance) → IsSameBut id s (finish_update w id s r).1
  unfolding finish_update save
  finish_update-IsSameBut w s (err e, inst) = record {
    identities = refl;
    others = λ j ne. lookup-insert_other id j inst s.state.instances ne;
  }
  finish_update-IsSameBut true s (ok a, inst) = record {
    identities = refl;
    others = λ j ne. lookup-insert_other id j inst s.state.instances ne;
  }
  finish_update-IsSameBut false s (ok a, inst) = record {
    identities = refl;
    others = λ j ne. lookup-insert_other id j inst s.state.instances ne;
  }

  pub update-IsSameBut :
      (fn : Instance → Result A × Instance) (s : Store) → IsSameBut id s (update writable id fn s).1
  unfolding update
  update-IsSameBut fn s = elim (Option-cases (lookup id s.state.instances)) [
    | inl e ↦ rw (e, update) (IsSameBut-refl id s)
    | inr (inst, e) ↦ rw (e, update) (finish_update-IsSameBut writable s (fn inst))
  ]

pub remove-IsSameBut :
    (writable : Bool) (id : Text) (s : Store) → IsSameBut id s (remove writable id s).1
unfolding remove save
remove-IsSameBut writable id s = elim (Option-cases (lookup id s.state.instances)) [
  | inl e ↦ rw (e, remove) (IsSameBut-refl id s)
  | inr (inst, e) ↦ elim (Bool-cases writable) [
    | inl f ↦
        rw (e, remove, f)
          (record {
            identities = refl;
            others = λ j ne. lookup-erase_other id j s.state.instances ne;
          })
    | inr f ↦
        rw (e, remove, f)
          (record {
            identities = refl;
            others = λ j ne. lookup-erase_other id j s.state.instances ne;
          })
  ]
]

pub add-IsSameBut :
    (writable : Bool) (inst : Instance) (s : Store) → IsSameBut inst.id s (add writable inst s).1
unfolding add save
add-IsSameBut writable inst s = elim (Option-cases (lookup inst.id s.state.instances)) [
  | inr (i, e) ↦ rw (e, add) (IsSameBut-refl inst.id s)
  | inl e ↦ elim (Bool-cases (name_used inst.name (values s.state.instances))) [
    | inl g ↦ rw (e, add, g) (IsSameBut-refl inst.id s)
    | inr g ↦ elim (Bool-cases writable) [
      | inl f ↦
          rw (e, add, g, f)
            (record {
              identities = refl;
              others = λ j ne. lookup-insert_other inst.id j inst s.state.instances ne;
            })
      | inr f ↦
          rw (e, add, g, f)
            (record {
              identities = refl;
              others = λ j ne. lookup-insert_other inst.id j inst s.state.instances ne;
            })
    ]
  ]
]
