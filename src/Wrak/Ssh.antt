-- ===== src/Wrak/Ssh.antt =====
-- internal/wrak/sshsig.go and bootstrap.go: signatures of ssh keys. A key is its wire form.
pub mod Bound
use robi_net.Base.{
  ℕ, Bool, true, false, not, ◌&&◌, ◌||◌, List, [], ◌∷◌, ◌++◌, Option, none, some, Text, runes,
  equal, is_empty, ◌==◌, if◌then◌else◌,
}
use robi_net.Result.{
  Result, ok, err, not_armored, wrong_pem_type, malformed_signature, bad_preamble, bad_version,
  wrong_namespace, malformed_key, unsupported_hash, bad_signature, key_not_authorized, cannot_sign,
}
use robi_net.Strings.{to_lower, trim_space}

abbrev pub SshKey : Type 0
SshKey = Text

-- `wrappedSig`
pub record WrappedSig : Type 0 where
  pub magic : Text
  pub version : ℕ
  pub public_key : Text
  pub namespace : Text
  pub reserved : Text
  pub hash_algorithm : Text
  pub signature : Text

-- `signedData`
pub record SignedData : Type 0 where
  pub namespace : Text
  pub reserved : Text
  pub hash_algorithm : Text
  pub hash : Text

-- What the source takes from libraries: armor, ssh's wire format, digests, and the keys themselves.
pub record SshLib : Type 0 where
  pub pem_encode : Text → Text → Text
  pub pem_decode : Text → Option (Text × Text)
  pub marshal_wrapped : WrappedSig → Text
  pub unmarshal_wrapped : Text → Option WrappedSig
  pub marshal_data : SignedData → Text
  pub marshal_signature : Text → Text
  pub unmarshal_signature : Text → Option Text
  pub parse_public_key : Text → Option SshKey
  pub verify : SshKey → Text → Text → Bool
  pub sign : SshKey → Text → Option Text
  pub sha256 : Text → Text
  pub sha512 : Text → Text
  pub std_base64 : Text → Text
  pub marshal_authorized_key : SshKey → Text

abbrev pub sshsig_magic : Text
sshsig_magic = runes "SSHSIG"

abbrev pub pem_type : Text
pem_type = runes "SSH SIGNATURE"

-- `BootstrapNamespace`
abbrev pub bootstrap_namespace : Text
bootstrap_namespace = runes "wrak-bootstrap-v1"

-- `signedData.marshal`
unfoldable pub marshal : SshLib → SignedData → Text
marshal lib s = sshsig_magic ++ lib.marshal_data s

-- `hash`
unfoldable pub hash : SshLib → Text → Text → Result Text
hash lib algorithm message =
    if equal algorithm (runes "sha256")
    then ok (lib.sha256 message)
    else if equal algorithm (runes "sha512")
    then ok (lib.sha512 message)
    else err unsupported_hash

-- The text that a key signs.
unfoldable pub blob_of : SshLib → Text → Text → Text → Text
unfolding marshal
blob_of lib namespace algorithm digest =
    marshal lib
      (record { namespace = namespace; reserved = []; hash_algorithm = algorithm; hash = digest })

-- `SignSSHSIG`
unfoldable pub sign_sshsig : SshLib → SshKey → Text → Text → Result Text
unfolding blob_of hash
sign_sshsig lib signer namespace message = elim (hash lib (runes "sha512") message) [
  | err e ↦ err e
  | ok digest ↦ elim (lib.sign signer (blob_of lib namespace (runes "sha512") digest)) [
    | none ↦ err cannot_sign
    | some sig ↦ ok (
        lib.pem_encode pem_type (
          lib.marshal_wrapped (record {
            magic = sshsig_magic;
            version = 1;
            public_key = signer;
            namespace = namespace;
            reserved = [];
            hash_algorithm = runes "sha512";
            signature = lib.marshal_signature sig;
          })))
  ]
]

-- `VerifySSHSIG` from the key on.
unfoldable pub verify_wrapped : SshLib → WrappedSig → Text → Result SshKey
unfolding blob_of hash
verify_wrapped lib w message = elim (lib.parse_public_key w.public_key) [
  | none ↦ err malformed_key
  | some key ↦ elim (lib.unmarshal_signature w.signature) [
    | none ↦ err malformed_signature
    | some sig ↦ elim (hash lib w.hash_algorithm message) [
      | err e ↦ err e
      | ok digest ↦
          if lib.verify key (blob_of lib w.namespace w.hash_algorithm digest) sig
          then ok key
          else err bad_signature
    ]
  ]
]

-- The checks of what was unwrapped.
unfoldable pub check_wrapped : SshLib → WrappedSig → Text → Text → Result SshKey
unfolding verify_wrapped
check_wrapped lib w message namespace =
    if not (equal w.magic sshsig_magic)
    then err bad_preamble
    else if not (w.version == 1)
    then err bad_version
    else if not (equal w.namespace namespace)
    then err wrong_namespace
    else verify_wrapped lib w message

-- `VerifySSHSIG`
unfoldable pub verify_sshsig : SshLib → Text → Text → Text → Result SshKey
unfolding check_wrapped
verify_sshsig lib armored message namespace = elim (lib.pem_decode armored) [
  | none ↦ err not_armored
  | some (kind, bytes) ↦
      if not (equal kind pem_type) then err wrong_pem_type else elim (lib.unmarshal_wrapped bytes) [
        | none ↦ err malformed_signature
        | some w ↦ check_wrapped lib w message namespace
      ]
]

-- `AuthorizedKey`
unfoldable pub authorized_key : SshLib → SshKey → Text
authorized_key lib key = trim_space (lib.marshal_authorized_key key)

-- `SameKey`
unfoldable pub same_key : SshLib → SshKey → SshKey → Bool
same_key lib a b = equal (lib.std_base64 a) (lib.std_base64 b)

-- `Bootstrap`
pub record Bootstrap : Type 0 where
  pub api : Text
  pub token : Text
  pub name : Text
  pub identity : Text

-- `Bootstrap.Message`
unfoldable pub bootstrap_message : Bootstrap → Text
bootstrap_message b =
    runes "wrak/v1/bootstrap\n"
    ++ (runes "api="
        ++ (to_lower b.api
            ++ (b'\n' ∷ runes "registry_token="
                ++ (b.token
                    ++ (b'\n' ∷ runes "name="
                        ++ (b.name
                            ++ (b'\n' ∷ runes "identity=" ++ (b.identity ++ b'\n' ∷ []))))))))

-- `Bootstrap.Sign`
unfoldable pub bootstrap_sign : SshLib → SshKey → Bootstrap → Result Text
unfolding sign_sshsig bootstrap_message
bootstrap_sign lib signer b = sign_sshsig lib signer bootstrap_namespace (bootstrap_message b)

-- The loop over the authorized keys.
unfoldable pub among_keys : SshLib → SshKey → List SshKey → Bool
unfolding same_key
among_keys lib key [] = false
among_keys lib key (k ∷ ks) = same_key lib key k || among_keys lib key ks

-- `Bootstrap.Verify`
unfoldable pub bootstrap_verify : SshLib → Bootstrap → Text → List SshKey → Result SshKey
unfolding verify_sshsig bootstrap_message among_keys
bootstrap_verify lib b armored authorized =
    elim (verify_sshsig lib armored (bootstrap_message b) bootstrap_namespace) [
      | err e ↦ err e
      | ok key ↦ if among_keys lib key authorized then ok key else err key_not_authorized
    ]
