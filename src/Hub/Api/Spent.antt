-- ===== src/Hub/Api/Spent.antt =====
-- internal/hub/api.go: the handlers behind the signature leave the memory of nonces alone.
use robi_net.Base.{◌≡◌, refl, Bool, Option, none, some, Text, inl, inr, arith}
use robi_net.Result.{Result, ok, err, Error, Result-cases}
use robi_net.Wrak.{WebRequest}
use robi_net.Hub.Types.{Instance}
use robi_net.Hub.Store.{Store, Registration, update}
use robi_net.Hub.Create.{activate_in}
use robi_net.Hub.Api.{
  World, Daemon, Reply, json, is_running, runs, bad_request, activate_instance, bring_up,
  LighthouseRequest, RegisterRequest,
}
use robi_net.Wrak.Ssh.{SshKey}
use robi_net.Hub.Api.Auth.{decode}
use robi_net.Hub.Api.Owners.{
  OwnerCall, lighthouse, pending, ban, unban, token, delete_instance, decide_request,
  forget_request, remove_a_member, no_content, delete_hub, handle_lighthouse, handle_pending,
  handle_decision, handle_forget, handle_ban, handle_unban, handle_set_token, handle_remove_member,
  handle_delete_instance, owner_handler,
}
use robi_net.Hub.Api.Machines.{
  limited, register_machine, store_registration, create_named, handle_register,
  handle_create_instance, handle_join, handle_join_result, handle_members,
}
use robi_net.Hub.Api.Connectors.{admit_connector, handle_enroll, handle_result}

no_content-nonces :
    (failed : Error → Reply) (d : Daemon) (result : Result (Unit {0}) × Store)
    → (no_content failed d result).1.nonces ≡ d.nonces
unfolding no_content
no_content-nonces failed d (err e, s) = refl
no_content-nonces failed d (ok _, s) = refl

pub bring_up-nonces :
    (starts : Bool) (id : Text) (d : Daemon) → (bring_up starts id d).1.nonces ≡ d.nonces
unfolding bring_up
bring_up-nonces starts id d = ground arith

pub activate_instance-nonces :
    (w : World) (id ca cert : Text) (d : Daemon)
    → (activate_instance w id ca cert d).1.nonces ≡ d.nonces
unfolding activate_instance
activate_instance-nonces w id ca cert d =
    elim (Result-cases (update w.writable id (activate_in ca cert) d.store).0) [
      | inl (_, e) ↦ rw (e, activate_instance) refl
      | inr (_, e) ↦ rw (e, activate_instance) (bring_up-nonces w.starts id _)
    ]

pub decode-nonces :
    {A : Type 0} (o : Option A) (d : Daemon) (next : A → Reply × Daemon)
    → ((a : A) → (next a).1.nonces ≡ d.nonces)
    → (decode o d next).1.nonces ≡ d.nonces
unfolding decode
decode-nonces none d next h = refl
decode-nonces (some a) d next h = h a

pub owner_handler-nonces :
    (w : World) (inst : Instance) (d : Daemon) (call : OwnerCall) (r : WebRequest)
    → (owner_handler w call r inst d).1.nonces ≡ d.nonces
unfolding owner_handler handle_lighthouse handle_pending handle_decision handle_forget handle_ban
    handle_unban handle_set_token handle_remove_member handle_delete_instance delete_hub decode
    no_content
owner_handler-nonces w inst d lighthouse r =
    decode-nonces (w.parse_json.lighthouse r.body) d
      (λ (req : LighthouseRequest).
        let (told, d') = activate_instance w inst.id req.ca req.certificate d in
        elim told [
          | err _ ↦ (bad_request, d')
          | ok _ ↦ (json 200 (is_running (runs inst.id d'.running)), d')
        ])
      (λ (req : LighthouseRequest).
        let kept = activate_instance-nonces w inst.id req.ca req.certificate d in
        ground (arith, kept))
owner_handler-nonces w inst d pending r = ground arith
owner_handler-nonces w inst d ban r = ground arith
owner_handler-nonces w inst d unban r = ground arith
owner_handler-nonces w inst d token r = ground arith
owner_handler-nonces w inst d delete_instance r = ground arith
owner_handler-nonces w inst d (decide_request rid) r = ground arith
owner_handler-nonces w inst d (forget_request rid) r = ground arith
owner_handler-nonces w inst d (remove_a_member ref) r = ground arith

pub store_registration-nonces :
    (w : World) (req : RegisterRequest) (key : SshKey) (d : Daemon)
    → (store_registration w req key d).1.nonces ≡ d.nonces
unfolding store_registration
store_registration-nonces w req key d = ground arith

pub register_machine-nonces :
    (w : World) (r : WebRequest) (req : RegisterRequest) (d : Daemon)
    → (register_machine w r req d).1.nonces ≡ d.nonces
unfolding register_machine store_registration
register_machine-nonces w r req d = ground arith

pub handle_register-nonces :
    (w : World) (r : WebRequest) (d : Daemon) → (handle_register w r d).1.nonces ≡ d.nonces
unfolding handle_register limited decode register_machine store_registration
handle_register-nonces w r d = ground arith

pub handle_enroll-nonces :
    (w : World) (ref : Text) (r : WebRequest) (d : Daemon)
    → (handle_enroll w ref r d).1.nonces ≡ d.nonces
unfolding handle_enroll limited decode admit_connector
handle_enroll-nonces w ref r d = ground arith

pub handle_create_instance-nonces :
    (w : World) (r : WebRequest) (who : Registration) (d : Daemon)
    → (handle_create_instance w r who d).1.nonces ≡ d.nonces
unfolding handle_create_instance decode create_named
handle_create_instance-nonces w r who d = ground arith

pub handle_join-nonces :
    (w : World) (ref : Text) (r : WebRequest) (who : Registration) (d : Daemon)
    → (handle_join w ref r who d).1.nonces ≡ d.nonces
unfolding handle_join decode
handle_join-nonces w ref r who d = ground arith

pub handle_join_result-nonces :
    (ref : Text) (who : Registration) (d : Daemon)
    → (handle_join_result ref who d).1.nonces ≡ d.nonces
unfolding handle_join_result
handle_join_result-nonces ref who d = ground arith

pub handle_members-nonces :
    (inst : Instance) (d : Daemon) → (handle_members inst d).1.nonces ≡ d.nonces
unfolding handle_members
handle_members-nonces inst d = ground arith

pub handle_result-nonces :
    (ref rid : Text) (d : Daemon) → (handle_result ref rid d).1.nonces ≡ d.nonces
unfolding handle_result
handle_result-nonces ref rid d = ground arith
