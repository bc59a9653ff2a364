-- ===== src/Tests/Enlisting.antt =====
-- A machine that enlists with the key of a binder.
use robi_net.Base.{◌≡◌, ◌⊎◌, refl, [], ◌∷◌, some, Text, runes, equal, length, lookup, insert}
use robi_net.Result.{ok}
use robi_net.Guard.{allow}
use robi_net.Strings.{trim_space, has_prefix, to_lower, lower_rune}
use robi_net.Hub.Store as Store
use robi_net.Wrak.{parse_public_identity}
use robi_net.Wrak.Ssh.{Bootstrap, bootstrap_verify, bootstrap_sign, sign_sshsig, hash}
use robi_net.Hub.Api.{World, Daemon, RegisterRequest}
use robi_net.Hub.Api.Serve.{register, serve}
use robi_net.Hub.Api.Enlisted.{IsEnlisted, register-IsEnlisted}
use robi_net.Tests.Web.{world, nothing, ann, blank, daemon}
use robi_net.Tests.Keys.{wire, anna}

abbrev laptop : Bootstrap
laptop = record { api = blank.host; token = world.token; name = runes "laptop"; identity = ann }

abbrev signature : Text
unfolding bootstrap_sign sign_sshsig hash equal
signature = elim (bootstrap_sign wire anna laptop) [ ok s ↦ s | _ ↦ [] ]

abbrev asking : RegisterRequest
asking = record { name = runes "laptop"; identity = ann; signature = signature }

-- A hub with one binder.
abbrev bound : World
bound = record world {
  ssh = wire;
  parse_json = record nothing { register = λ s. some asking };
  binders = (runes "anna", anna ∷ []) ∷ [];
}

abbrev unknowing : Daemon
unknowing = record daemon {
  store = record daemon.store { state = record daemon.store.state { identities = [] } };
}

register-IsEnlisted_example :
    ((serve bound register blank unknowing).1.store ≡ unknowing.store)
    ⊎ IsEnlisted bound blank unknowing.store (serve bound register blank unknowing).1.store
register-IsEnlisted_example = register-IsEnlisted bound blank unknowing

-- The machine is known afterwards.
enlisted : length (serve bound register blank unknowing).1.store.state.identities ≡ 1
unfolding serve allow lookup trim_space parse_public_identity has_prefix bootstrap_verify signature
    to_lower lower_rune Store.register insert
enlisted = refl
