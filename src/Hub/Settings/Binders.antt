-- ===== src/Hub/Settings/Binders.antt =====
-- The binders of internal/hub/config.go.
use robi_net.Base.{
  ◌≡◌, sym, ap, ◌∙◌, List, [], ◌∷◌, In, some, some_inj, Text, Dict, lookup, insert, equal_iff,
  equal_refl, lookup-insert, Option-cases, inl, inr, arith,
}
use robi_net.Result.{ok, >>=-eq-ok, ok_inj}
use robi_net.Wrak.Ssh.{SshKey}
use robi_net.Hub.Settings.{TextLib, see_keys, see_binders}

-- What was seen is kept, and every key gets the name.
see_keys_keeps :
    (lib : TextLib) (name : Text) (keys : List SshKey) (seen seen' : Dict Text) (fp other : Text)
    → see_keys lib name keys seen ≡ ok seen'
    → lookup fp seen ≡ some other
    → lookup fp seen' ≡ some other
unfolding see_keys
see_keys_keeps lib name [] seen seen' fp other h at = rw (sym (ok_inj h)) at
see_keys_keeps lib name (key ∷ keys) seen seen' fp other h at =
    elim (Option-cases (lookup (lib.key_fingerprint key) seen)) [
      | inr (_, e) ↦ absurd (ground arith)
      | inl e ↦
          see_keys_keeps lib name keys (insert (lib.key_fingerprint key) name seen) seen' fp other
            (ground arith)
            (ground (
              arith,
              lookup-insert (lib.key_fingerprint key) fp name seen,
              equal_iff (lib.key_fingerprint key) fp,
            ))
    ]

see_keys_marks :
    (lib : TextLib) (name : Text) (keys : List SshKey) (seen seen' : Dict Text) (key : SshKey)
    → see_keys lib name keys seen ≡ ok seen'
    → In key keys
    → lookup (lib.key_fingerprint key) seen' ≡ some name
unfolding see_keys
see_keys_marks lib name [] seen seen' key h i = elim i [ ]
see_keys_marks lib name (k ∷ keys) seen seen' key h i =
    elim (Option-cases (lookup (lib.key_fingerprint k) seen)) [
      | inr (_, e) ↦ absurd (ground arith)
      | inl e ↦ elim i [
        | inl same ↦
            see_keys_keeps lib name keys (insert (lib.key_fingerprint k) name seen) seen'
              (lib.key_fingerprint key) name (ground arith)
              (rw same (
                ground (
                  arith,
                  lookup-insert (lib.key_fingerprint k) (lib.key_fingerprint k) name seen,
                  equal_refl (lib.key_fingerprint k),
                )))
        | inr later ↦
            see_keys_marks lib name keys (insert (lib.key_fingerprint k) name seen) seen' key
              (ground arith) later
      ]
    ]

see_binders_keeps :
    (lib : TextLib) (bs : Dict (List SshKey)) (seen seen' : Dict Text) (fp other : Text)
    → see_binders lib bs seen ≡ ok seen'
    → lookup fp seen ≡ some other
    → lookup fp seen' ≡ some other
unfolding see_binders
see_binders_keeps lib [] seen seen' fp other h at = rw (sym (ok_inj h)) at
see_binders_keeps lib ((name, keys) ∷ bs) seen seen' fp other h at =
    let (mid, e, f) = >>=-eq-ok (see_keys lib name keys seen) _ h in
    see_binders_keeps lib bs mid seen' fp other f
      (see_keys_keeps lib name keys seen mid fp other e at)

-- The name that is recorded in the end for the key of a binder is that binder's.
see_binders_marks :
    (lib : TextLib) (bs : Dict (List SshKey)) (seen seen' : Dict Text) (name : Text)
    (keys : List SshKey) (key : SshKey)
    → see_binders lib bs seen ≡ ok seen'
    → In {A = Text × List SshKey} (name, keys) bs
    → In key keys
    → lookup (lib.key_fingerprint key) seen' ≡ some name
unfolding see_binders
see_binders_marks lib [] seen seen' name keys key h i j = elim i [ ]
see_binders_marks lib ((n, ks) ∷ bs) seen seen' name keys key h i j =
    let (mid, e, f) = >>=-eq-ok (see_keys lib n ks seen) _ h in
    elim i [
      | inl same ↦
          let names = ap (λ (q : Text × List SshKey). q.0) same in
          let lists = ap (λ (q : Text × List SshKey). q.1) same in
          see_binders_keeps lib bs mid seen' (lib.key_fingerprint key) name f
            (rw names (see_keys_marks lib n ks seen mid key e (rw lists at j)))
      | inr later ↦ see_binders_marks lib bs mid seen' name keys key f later j
    ]

-- A key speaks for one binder: where the check for shared keys passes, two binders that have keys
-- with one fingerprint are one, so that a signature never leaves open whose it is.
pub see_binders-one_name :
    (lib : TextLib) (bs : Dict (List SshKey)) (seen : Dict Text)
    → see_binders lib bs [] ≡ ok seen
    → (name name' : Text) (keys keys' : List SshKey) (key key' : SshKey)
    → In {A = Text × List SshKey} (name, keys) bs
    → In {A = Text × List SshKey} (name', keys') bs
    → In key keys
    → In key' keys'
    → lib.key_fingerprint key ≡ lib.key_fingerprint key'
    → name ≡ name'
see_binders-one_name lib bs seen h name name' keys keys' key key' i i' j j' same =
    let first = see_binders_marks lib bs [] seen name keys key h i j in
    let second = see_binders_marks lib bs [] seen name' keys' key' h i' j' in
    some_inj (sym first ∙ ap (λ fp. lookup fp seen) same ∙ second)
