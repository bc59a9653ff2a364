-- ===== src/Hub/Api/Apart.antt =====
-- internal/hub/api.go: which instance a call can change.
use robi_net.Base.{◌≡◌, refl, sym, Text, lookup}
use robi_net.Result.{ok}
use robi_net.Wrak.{WebRequest}
use robi_net.Hub.Types.{Instance}
use robi_net.Hub.Store.{Registration, resolve}
use robi_net.Hub.Store.Laws.{AreKeyed}
use robi_net.Hub.Api.{World, Daemon, Reply}
use robi_net.Hub.Api.Auth.{signed, owner_only, member_only, as_owner, as_member}
use robi_net.Hub.Api.Owners.{owner_handler}
use robi_net.Hub.Api.Machines.{
  handle_create_instance, handle_list_instances, handle_join, handle_join_result, handle_members,
  handle_routes,
}
use robi_net.Hub.Api.Serve.{
  Call, healthz, register, create_instance, list_instances, owned, join, join_result, members,
  routes, enroll, result, serve,
}
use robi_net.Hub.Api.Access.{with_nonces, signed_cases, as_owner_cases, as_member_cases}
use robi_net.Hub.Api.Framed.{owner_handler-Framed}
use robi_net.Hub.Api.Stays.{
  at_id, handle_register-kept, handle_create_instance-kept, handle_join-kept, handle_enroll-kept,
  handle_join_result-kept, handle_members-kept, handle_result-kept,
}

-- Whether a call may change the instance under an id: the one that it makes, or the one that its
-- reference finds.
abbrev pub Touches : World → Call → Daemon → Text → Type 0
Touches w create_instance d id = w.fresh_id ≡ id
Touches w (owned ref call) d id =
    (inst : Instance) × (resolve ref d.store ≡ ok inst) × (inst.id ≡ id)
Touches w (join ref) d id = (inst : Instance) × (resolve ref d.store ≡ ok inst) × (inst.id ≡ id)
Touches w (enroll ref) d id = (inst : Instance) × (resolve ref d.store ≡ ok inst) × (inst.id ≡ id)
Touches w _ d id = ⊥

module _ (w : World) (d : Daemon) (keyed : AreKeyed d.store.state.instances) (id : Text) where
  -- The instance under the id is as it was.
  abbrev Kept : Reply × Daemon → Type 0
  Kept (reply, later) = at_id id later.store ≡ at_id id d.store

  signed-kept :
      (next : WebRequest → Registration → Daemon → Reply × Daemon) (r : WebRequest)
      → ((r' : WebRequest) (who : Registration) → Kept (next r' who (with_nonces w r' d)))
      → Kept (signed w next r d)
  signed-kept next r h = signed_cases Kept w r d next refl (λ r'. refl) (λ r' who good. h r' who)

  -- Instances are apart: a call leaves every instance as it was but the one that it makes or that
  -- its reference finds, whether it succeeds or not; where each instance stands under its own id
  -- (instances may share a name).
  pub serve-apart :
      (c : Call) (r : WebRequest)
      → (Touches w c d id → ⊥)
      → lookup id (serve w c r d).1.store.state.instances ≡ lookup id d.store.state.instances
  unfolding serve owner_only member_only handle_list_instances handle_routes
  serve-apart healthz r away = refl
  serve-apart register r away = handle_register-kept id w r d
  serve-apart create_instance r away =
      signed-kept (handle_create_instance w) r
        (λ r' who. handle_create_instance-kept id w r' who (with_nonces w r' d) away)
  serve-apart list_instances r away = signed-kept (λ _. handle_list_instances w) r (λ r' who. refl)
  serve-apart (owned ref call) r away =
      signed-kept (as_owner (owner_handler w call) ref) r (λ r' who.
        as_owner_cases Kept w r' (with_nonces w r' d) (owner_handler w call) ref who refl refl
          (λ inst found own.
            (owner_handler-Framed w inst (with_nonces w r' d) keyed call r').others id
              (λ e. away (inst, found, sym e))))
  serve-apart (join ref) r away =
      signed-kept (handle_join w ref) r
        (λ r' who. handle_join-kept id w ref r' who (with_nonces w r' d) away)
  serve-apart (join_result ref) r away =
      signed-kept (λ _. handle_join_result ref) r
        (λ r' who. handle_join_result-kept id ref who (with_nonces w r' d))
  serve-apart (members ref) r away = signed-kept (as_member handle_members ref) r (λ r' who.
      as_member_cases Kept w r' (with_nonces w r' d) handle_members ref who refl refl
        (λ inst m found own. handle_members-kept id inst (with_nonces w r' d)))
  serve-apart (routes ref) r away = signed-kept (as_member (handle_routes w) ref) r (λ r' who.
      as_member_cases Kept w r' (with_nonces w r' d) (handle_routes w) ref who refl refl
        (λ inst m found own. refl))
  serve-apart (enroll ref) r away = handle_enroll-kept id w ref r d away
  serve-apart (result ref rid) r away = handle_result-kept id ref rid d
