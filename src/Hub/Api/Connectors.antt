-- ===== src/Hub/Api/Connectors.antt =====
-- internal/hub/api.go: the handlers for connectors, which sign nothing.
use robi_net.Base.{[], Text, runes, if◌then◌else◌}
use robi_net.Result.{Result, ok, err, Error}
use robi_net.Wrak.{WebRequest}
use robi_net.Hub.Types.{connector, Request}
use robi_net.Hub.Store.{Store, resolve}
use robi_net.Hub.Admission.{Applicant, enroll}
use robi_net.Hub.Decision.{Answer, result_in}
use robi_net.Hub.Api.{
  World, Daemon, Reply, failure, json, accepted, answer, bad_request, is_not_found, is_ambiguous,
}
use robi_net.Hub.Api.Auth.{decode}
use robi_net.Hub.Api.Machines.{source_addr, limited}

abbrev pub connector_applicant : World → WebRequest → Applicant
connector_applicant w r = record {
  kind = connector;
  identity = [];
  binder = [];
  mac = r.enroll_mac;
  source_addr = source_addr w r;
}

abbrev pub enroll_error : Error → Reply
enroll_error e =
    if is_not_found e
    then failure 404 (runes "not_found")
    else if is_ambiguous e
    then failure 409 (runes "ambiguous")
    else bad_request

unfoldable pub admit_connector : World → Text → WebRequest → Request → Daemon → Reply × Daemon
unfolding source_addr
admit_connector w ref r req d =
    let (told, s) =
      enroll w.platform w.writable w.fresh_id w.now ref req (connector_applicant w r) d.store in
    elim told [
      | err e ↦ (enroll_error e, record d { store = s })
      | ok rec ↦ (json 202 (accepted rec.id rec.status 5), record d { store = s })
    ]

unfoldable pub handle_enroll : World → Text → WebRequest → Daemon → Reply × Daemon
unfolding limited decode admit_connector source_addr
handle_enroll w ref r d =
    limited w (source_addr w r)
      (λ d'.
        decode (w.parse_json.enroll r.body) d' (λ (req : Request). admit_connector w ref r req d'))
      d

-- `Result`
unfoldable pub result_of : Text → Text → Store → Result Answer
unfolding result_in
result_of ref rid s = elim (resolve ref s) [ err e ↦ err e | ok inst ↦ result_in rid inst ]

unfoldable pub handle_result : Text → Text → Daemon → Reply × Daemon
unfolding result_of
handle_result ref rid d = elim (result_of ref rid d.store) [
  | err _ ↦ (failure 404 (runes "not_found"), d)
  | ok a ↦ (json 200 (answer a), d)
]
