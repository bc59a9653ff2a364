-- ===== src/Hub/Store/Saved.antt =====
-- `Update` of internal/hub/store.go: what it leaves in the file.
use robi_net.Base.{◌≡◌, refl, Bool, true, false, Text, lookup, inl, inr, Option-cases}
use robi_net.Result.{Result, ok, err}
use robi_net.Hub.Types.{Instance}
use robi_net.Hub.Store.{Store, save, finish_update, update}

-- After a success the file holds the state; after an error it holds what it held before.
abbrev pub IsSaved : {A : Type 0} → Store → Result A × Store → Type 0
IsSaved s (ok a, later) = later.file ≡ later.state
IsSaved s (err e, later) = later.file ≡ s.file

module _ {A : Type 0} (writable : Bool) (id : Text) where
  finish_update-IsSaved :
      (w : Bool) (s : Store) (r : Result A × Instance) → IsSaved s (finish_update w id s r)
  unfolding finish_update save
  finish_update-IsSaved w s (err e, inst) = refl
  finish_update-IsSaved true s (ok a, inst) = refl
  finish_update-IsSaved false s (ok a, inst) = refl

  -- `Update`, whatever function it runs and whether or not the file can be written, leaves the file
  -- with the state in memory where it succeeds, and with what it held before where it fails.
  pub update-IsSaved :
      (fn : Instance → Result A × Instance) (s : Store) → IsSaved s (update writable id fn s)
  unfolding update
  update-IsSaved fn s = elim (Option-cases (lookup id s.state.instances)) [
    | inl e ↦ rw (e, update) refl
    | inr (inst, e) ↦ rw (e, update) (finish_update-IsSaved writable s (fn inst))
  ]
