-- ===== src/Hub/Api/Serve.antt =====
-- internal/hub/api.go: the routes of the hub.
use robi_net.Base.{List, [], ◌∷◌, Text}
use robi_net.Wrak.{WebRequest}
use robi_net.Hub.Api.{World, Daemon, Reply, header}
use robi_net.Hub.Api.Auth.{signed, owner_only, member_only}
use robi_net.Hub.Api.Owners.{OwnerCall, owner_handler}
use robi_net.Hub.Api.Machines.{
  handle_register, handle_create_instance, handle_list_instances, handle_join, handle_join_result,
  handle_members, handle_routes,
}
use robi_net.Hub.Api.Connectors.{handle_enroll, handle_result}

-- What the mux matched, with the values of the path; the first value is the instance's reference.
pub data Call : Type 0 where
  healthz register create_instance list_instances : Call
  owned : Text → OwnerCall → Call
  join join_result members routes enroll : Text → Call
  result : Text → Text → Call

-- `Handler`
unfoldable pub serve : World → Call → WebRequest → Daemon → Reply × Daemon
unfolding handle_register handle_create_instance handle_list_instances handle_join
    handle_join_result handle_members handle_routes handle_enroll handle_result owner_handler signed
    owner_only member_only
serve w healthz r d = (header 200, d)
serve w register r d = handle_register w r d
serve w create_instance r d = signed w (handle_create_instance w) r d
serve w list_instances r d = signed w (λ _. handle_list_instances w) r d
serve w (owned ref call) r d = owner_only w ref (owner_handler w call) r d
serve w (join ref) r d = signed w (handle_join w ref) r d
serve w (join_result ref) r d = signed w (λ _. handle_join_result ref) r d
serve w (members ref) r d = member_only w ref handle_members r d
serve w (routes ref) r d = member_only w ref (handle_routes w) r d
serve w (enroll ref) r d = handle_enroll w ref r d
serve w (result ref rid) r d = handle_result ref rid d

-- What a sequence of calls leaves, each with its own surroundings.
unfoldable pub serve_all : List (World × Call × WebRequest) → Daemon → Daemon
unfolding serve
serve_all [] d = d
serve_all ((w, c, r) ∷ more) d = serve_all more (serve w c r d).1
