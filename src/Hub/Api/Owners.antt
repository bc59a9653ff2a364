-- ===== src/Hub/Api/Owners.antt =====
-- internal/hub/api.go: the handlers that only the owner of an instance reaches.
use robi_net.Base.{Bool, Text, runes, if◌then◌else◌}
use robi_net.Result.{Result, ok, err, Error}
use robi_net.Wrak.{WebRequest}
use robi_net.Hub.Types.{Decision, Instance}
use robi_net.Hub.Store.{Store, update, get}
use robi_net.Hub.Decision.{decide, forget_in}
use robi_net.Hub.Ban.{ban_member, unban_member, remove_member, set_shared_token}
use robi_net.Hub.Create.{delete}
use robi_net.Hub.Routes.{pending_of}
use robi_net.Hub.Api.{
  World, Daemon, Reply, header, failure, json, removed, is_running, waiting, LighthouseRequest,
  BanRequest, TokenRequest, bad_request, is_not_found, member_error, stop, runs, activate_instance,
}
use robi_net.Hub.Api.Auth.{decode}

-- What the mux matched, with the values of the path.
pub data OwnerCall : Type 0 where
  lighthouse pending ban unban token delete_instance : OwnerCall
  decide_request forget_request remove_a_member : Text → OwnerCall

-- An answer without a body, where the operation on the store went well.
unfoldable pub no_content : (Error → Reply) → Daemon → Result (Unit {0}) × Store → Reply × Daemon
no_content failed d (err e, s) = (failed e, record d { store = s })
no_content failed d (ok _, s) = (header 204, record d { store = s })

-- `Forget`
unfoldable pub forget : Bool → Text → Text → Store → Result (Unit {0}) × Store
unfolding forget_in
forget writable id rid s = update writable id (forget_in rid) s

-- `Delete`: the lighthouse of an instance that is there stops first.
unfoldable pub delete_hub : Bool → Text → Daemon → Result (Unit {0}) × Daemon
unfolding stop delete get
delete_hub writable id d =
    let (r, s) = delete writable id d.store in
    elim (get id d.store) [
      | err e ↦ (err e, d)
      | ok inst ↦ (r, record d { store = s; running = stop inst.id d.running })
    ]

unfoldable pub handle_lighthouse : World → WebRequest → Instance → Daemon → Reply × Daemon
unfolding decode activate_instance
handle_lighthouse w r inst d =
    decode (w.parse_json.lighthouse r.body) d (λ (req : LighthouseRequest).
      let (told, d') = activate_instance w inst.id req.ca req.certificate d in
      elim told [
        | err _ ↦ (bad_request, d')
        | ok _ ↦ (json 200 (is_running (runs inst.id d'.running)), d')
      ])

unfoldable pub handle_pending : WebRequest → Instance → Daemon → Reply × Daemon
handle_pending r inst d = elim (pending_of inst.id d.store) [
  | err _ ↦ (failure 404 (runes "not_found"), d)
  | ok rs ↦ (json 200 (waiting rs), d)
]

abbrev pub decision_error : Error → Reply
decision_error e = if is_not_found e then failure 404 (runes "bad_request") else bad_request

unfoldable pub handle_decision : World → Text → WebRequest → Instance → Daemon → Reply × Daemon
unfolding decode no_content
handle_decision w rid r inst d = decode (w.parse_json.decision r.body) d (λ (req : Decision).
    no_content decision_error d (decide w.config w.writable w.now inst.id rid req d.store))

unfoldable pub handle_forget : World → Text → WebRequest → Instance → Daemon → Reply × Daemon
unfolding forget no_content
handle_forget w rid r inst d =
    no_content (λ _. failure 404 (runes "not_found")) d (forget w.writable inst.id rid d.store)

unfoldable pub handle_ban : World → WebRequest → Instance → Daemon → Reply × Daemon
unfolding decode no_content member_error
handle_ban w r inst d = decode (w.parse_json.ban r.body) d (λ (req : BanRequest).
    no_content member_error d
      (ban_member w.writable w.reloads w.now inst.id req.member req.note d.store))

unfoldable pub handle_unban : World → WebRequest → Instance → Daemon → Reply × Daemon
unfolding decode no_content member_error
handle_unban w r inst d = decode (w.parse_json.ban r.body) d (λ (req : BanRequest).
    no_content member_error d
      (unban_member w.writable w.reloads w.now inst.id req.member req.note d.store))

unfoldable pub handle_set_token : World → WebRequest → Instance → Daemon → Reply × Daemon
unfolding decode no_content
handle_set_token w r inst d = decode (w.parse_json.token r.body) d (λ (req : TokenRequest).
    no_content (λ _. bad_request) d (set_shared_token w.writable inst.id req.shared_token d.store))

unfoldable pub handle_remove_member : World → Text → WebRequest → Instance → Daemon → Reply × Daemon
unfolding member_error
handle_remove_member w ref r inst d =
    let (told, s) = remove_member w.writable inst.id ref d.store in
    elim told [
      | err e ↦ (member_error e, record d { store = s })
      | ok m ↦ (json 200 (removed m), record d { store = s })
    ]

unfoldable pub handle_delete_instance : World → WebRequest → Instance → Daemon → Reply × Daemon
unfolding delete_hub
handle_delete_instance w r inst d =
    let (told, d') = delete_hub w.writable inst.id d in
    elim told [ err _ ↦ (failure 500 (runes "error"), d') | ok _ ↦ (header 204, d') ]

-- The handler of each call.
unfoldable pub owner_handler : World → OwnerCall → WebRequest → Instance → Daemon → Reply × Daemon
unfolding handle_lighthouse handle_pending handle_decision handle_forget handle_ban handle_unban
    handle_set_token handle_remove_member handle_delete_instance
owner_handler w lighthouse = handle_lighthouse w
owner_handler w pending = handle_pending
owner_handler w ban = handle_ban w
owner_handler w unban = handle_unban w
owner_handler w token = handle_set_token w
owner_handler w delete_instance = handle_delete_instance w
owner_handler w (decide_request rid) = handle_decision w rid
owner_handler w (forget_request rid) = handle_forget w rid
owner_handler w (remove_a_member ref) = handle_remove_member w ref
