-- ===== src/Hub/History.antt =====
-- internal/hub/hub.go: what can happen to one instance, as a sequence of the functions that run
-- under the store's lock.
pub mod Cases
pub mod Burnt
pub mod Blocked
pub mod Sound
pub mod Owned
pub mod Apart
use robi_net.Base.{ℕ, List, [], ◌∷◌, Text}
use robi_net.Hub.Types.{Request, Decision, Instance}
use robi_net.Hub.Admission.{Applicant, enroll_in}
use robi_net.Hub.Decision.{Config, decide_in, forget_in}
use robi_net.Hub.Ban.{ban_in, unban_in, remove_in, token_in}
use robi_net.Hub.Create.{activate_in}
use robi_net.Enroll.{Platform}

-- The calls that change an instance, with the time and the id that each one draws.
pub data Op : Type 0 where
  enroll : Text → ℕ → Request → Applicant → Op
  decide : Config → ℕ → Text → Decision → Op
  forget : Text → Op
  ban unban : ℕ → Text → Text → Op
  remove : Text → Op
  set_token : Text → Op
  activate : Text → Text → Op

-- The instance that one call leaves, whether or not it succeeds.
unfoldable pub step : Platform → Op → Instance → Instance
step pl (enroll id now req who) inst = (enroll_in pl id now req who inst).1
step pl (decide cfg now rid d) inst = (decide_in cfg now rid d inst).1
step pl (forget rid) inst = (forget_in rid inst).1
step pl (ban now ref note) inst = (ban_in now ref note inst).1
step pl (unban now ref note) inst = (unban_in now ref note inst).1
step pl (remove ref) inst = (remove_in ref inst).1
step pl (set_token token) inst = (token_in token inst).1
step pl (activate ca cert) inst = (activate_in ca cert inst).1

unfoldable pub run : Platform → List Op → Instance → Instance
run pl [] inst = inst
run pl (op ∷ ops) inst = run pl ops (step pl op inst)
