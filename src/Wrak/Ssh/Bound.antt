-- ===== src/Wrak/Ssh/Bound.antt =====
-- internal/wrak/sshsig.go and bootstrap.go: what a signature says.
use robi_net.Base.{
  ◌≡◌, refl, sym, true, List, [], ◌∷◌, In, some, Text, runes, equal, equal_iff, equal_refl, inl,
  inr, arith, Option-cases, Bool-cases,
}
use robi_net.Result.{ok, Result-cases}
use robi_net.Wrak.Ssh.{
  SshKey, SshLib, WrappedSig, pem_type, sshsig_magic, bootstrap_namespace, blob_of, hash,
  sign_sshsig, verify_wrapped, check_wrapped, verify_sshsig, same_key, among_keys, Bootstrap,
  bootstrap_message, bootstrap_sign, bootstrap_verify,
}

-- A signature of the key on the digest of the message, for one purpose.
pub record IsSignatureOf (lib : SshLib) (key : SshKey) (message namespace : Text) : Type 0 where
  pub algorithm : Text
  pub digest : Text
  pub sig : Text
  pub hashed : hash lib algorithm message ≡ ok digest
  pub verified : lib.verify key (blob_of lib namespace algorithm digest) sig ≡ true

verify_wrapped-IsSignatureOf :
    (lib : SshLib) (w : WrappedSig) (message : Text) (key : SshKey)
    → verify_wrapped lib w message ≡ ok key
    → IsSignatureOf lib key message w.namespace
unfolding verify_wrapped
verify_wrapped-IsSignatureOf lib w message key h =
    elim (Option-cases (lib.parse_public_key w.public_key)) [
      | inl e ↦ absurd (ground arith)
      | inr (k, e) ↦ elim (Option-cases (lib.unmarshal_signature w.signature)) [
        | inl f ↦ absurd (ground arith)
        | inr (sig, f) ↦ elim (Result-cases (hash lib w.hash_algorithm message)) [
          | inl (_, g) ↦ absurd (ground arith)
          | inr (digest, g) ↦ record {
            algorithm = w.hash_algorithm;
            digest = digest;
            sig = sig;
            hashed = g;
            verified = ground arith;
          }
        ]
      ]
    ]

check_wrapped-ok :
    (lib : SshLib) (w : WrappedSig) (message namespace : Text) (key : SshKey)
    → check_wrapped lib w message namespace ≡ ok key
    → (verify_wrapped lib w message ≡ ok key) × (w.namespace ≡ namespace)
unfolding check_wrapped
check_wrapped-ok lib w message namespace key h = ground (arith, equal_iff w.namespace namespace)

-- An armored signature that is accepted for a message and a purpose is a signature, by the key that
-- is answered, of the digest of that message for that purpose: one made for another purpose is
-- refused.
pub verify_sshsig-IsSignatureOf :
    (lib : SshLib) (armored message namespace : Text) (key : SshKey)
    → verify_sshsig lib armored message namespace ≡ ok key
    → IsSignatureOf lib key message namespace
unfolding verify_sshsig
verify_sshsig-IsSignatureOf lib armored message namespace key h =
    elim (Option-cases (lib.pem_decode armored)) [
      | inl e ↦ absurd (ground arith)
      | inr ((kind, bytes), e) ↦ elim (Option-cases (lib.unmarshal_wrapped bytes)) [
        | inl f ↦ absurd (ground arith)
        | inr (w, f) ↦
            let (told, same) = check_wrapped-ok lib w message namespace key (ground arith) in
            rw (sym same) (verify_wrapped-IsSignatureOf lib w message key told)
      ]
    ]

among_keys-In :
    (lib : SshLib) (key : SshKey) (ks : List SshKey)
    → among_keys lib key ks ≡ true
    → (k : SshKey) × In k ks × (same_key lib key k ≡ true)
unfolding among_keys
among_keys-In lib key [] h = cc
among_keys-In lib key (k ∷ ks) h = elim (Bool-cases (same_key lib key k)) [
  | inl e ↦ (k, inl refl, e)
  | inr e ↦ let rest = among_keys-In lib key ks (rw e at h) in (rest.0, inr rest.1, rest.2)
]

In-among_keys :
    (lib : SshLib) (key : SshKey) (ks : List SshKey) → In key ks → among_keys lib key ks ≡ true
unfolding among_keys same_key
In-among_keys lib key [] i = elim i [ ]
In-among_keys lib key (k ∷ ks) i =
    ground (arith, In-among_keys lib key ks, equal_refl (lib.std_base64 key))

-- A machine whose bootstrap is accepted has a signature, by an authorized key, of exactly the text
-- that the hub made from its own token.
pub bootstrap_verify-ok :
    (lib : SshLib) (b : Bootstrap) (armored : Text) (authorized : List SshKey) (key : SshKey)
    → bootstrap_verify lib b armored authorized ≡ ok key
    → IsSignatureOf lib key (bootstrap_message b) bootstrap_namespace
      × (among_keys lib key authorized ≡ true)
unfolding bootstrap_verify
bootstrap_verify-ok lib b armored authorized key h =
    elim (Result-cases (verify_sshsig lib armored (bootstrap_message b) bootstrap_namespace)) [
      | inl (_, e) ↦ absurd (ground arith)
      | inr (k, e) ↦
          let same : k ≡ key = ground arith in
          (
            verify_sshsig-IsSignatureOf lib armored (bootstrap_message b) bootstrap_namespace key
                (rw same at e),
            ground arith,
          )
    ]

-- The laws of the libraries for one key: what is written is read back, and what the key signs
-- verifies under it.
module _ (lib : SshLib) (key : SshKey)
    (armors : (kind bytes : Text) → lib.pem_decode (lib.pem_encode kind bytes) ≡ some (kind, bytes))
    (wraps : (w : WrappedSig) → lib.unmarshal_wrapped (lib.marshal_wrapped w) ≡ some w)
    (reads : (sig : Text) → lib.unmarshal_signature (lib.marshal_signature sig) ≡ some sig)
    (parses : lib.parse_public_key key ≡ some key)
    (verifies : (blob sig : Text)
      → lib.sign key blob ≡ some sig
      → lib.verify key blob sig ≡ true) where
  -- What is signed, is wrapped up with the key and the purpose.
  abbrev wrapped_by : Text → Text → WrappedSig
  wrapped_by namespace sig = record {
    magic = sshsig_magic;
    version = 1;
    public_key = key;
    namespace = namespace;
    reserved = [];
    hash_algorithm = runes "sha512";
    signature = lib.marshal_signature sig;
  }

  verify_wrapped-sign :
      (message namespace sig : Text)
      → lib.sign key (blob_of lib namespace (runes "sha512") (lib.sha512 message)) ≡ some sig
      → verify_wrapped lib (wrapped_by namespace sig) message ≡ ok key
  unfolding verify_wrapped hash equal
  verify_wrapped-sign message namespace sig h =
      let good = verifies (blob_of lib namespace (runes "sha512") (lib.sha512 message)) sig h in
      ground (arith, parses, reads sig, good)

  verify_sshsig-sign :
      (message namespace armored : Text)
      → sign_sshsig lib key namespace message ≡ ok armored
      → verify_sshsig lib armored message namespace ≡ ok key
  unfolding sign_sshsig verify_sshsig check_wrapped hash equal
  verify_sshsig-sign message namespace armored h =
      elim (Option-cases
        (lib.sign key (blob_of lib namespace (runes "sha512") (lib.sha512 message)))) [
          | inl e ↦ absurd (ground arith)
          | inr (sig, e) ↦
              let w = wrapped_by namespace sig in
              let written : armored ≡ lib.pem_encode pem_type (lib.marshal_wrapped w) =
                ground arith in
              ground (
                arith,
                written,
                armors pem_type (lib.marshal_wrapped w),
                wraps w,
                equal_refl namespace,
                verify_wrapped-sign message namespace sig e,
              )
        ]

  -- What an authorized key signs for a bootstrap is accepted for the same bootstrap, where the
  -- libraries do as documented: what is written is read back, and what the key signs verifies under
  -- it.
  pub bootstrap_verify-sign :
      (b : Bootstrap) (authorized : List SshKey) (armored : Text)
      → In key authorized
      → bootstrap_sign lib key b ≡ ok armored
      → bootstrap_verify lib b armored authorized ≡ ok key
  unfolding bootstrap_verify bootstrap_sign
  bootstrap_verify-sign b authorized armored i h =
      let told = verify_sshsig-sign (bootstrap_message b) bootstrap_namespace armored h in
      ground (arith, told, In-among_keys lib key authorized i)
