-- ===== src/Lib.antt =====
-- RobiNET: a hub that hands out addresses and certificates of overlay networks, the connectors that
-- enroll with it, and the tenants that resolve names through it. A model of the hub's state, of
-- the HTTP handlers that decide what goes into it, of the signatures they ask for, and of what a
-- tenant's daemon names, approves and resolves.
--
-- A connector or a machine sends a request (internal/enroll/protocol.go). The hub checks it, gives its
-- key an address of the instance's overlay and keeps the request (internal/hub/hub.go, `Enroll`;
-- internal/hub/ipam.go). The owner decides (`Decide`), the applicant collects the answer (`Result`),
-- and later the owner may ban, unban and remove the member. All of this changes one instance in the
-- hub's store, under the store's lock (internal/hub/store.go, `Update`).
--
-- Base, Result, Strings, Net: the library's names, errors as values, Go's strings and Go's net/netip as
--   far as the source uses them. A text is the list of its runes; an address is a number in a family, a
--   prefix is an address and the number of bits plus one, with zero for the invalid prefix.
-- Enroll: internal/enroll/protocol.go. SHA-256, HMAC and the text of a prefix are the fields of the
--   record `Platform`. Enroll.Mac has the codes, Enroll.Domain the domains.
-- Hub.Types: the records of internal/hub/store.go and of the protocol. Times are numbers, a Go map is an
--   association list (Base.Maps), walked in the order of its list.
-- Hub.Ipam: internal/hub/ipam.go, the addresses of one prefix. The loops `lowest_from` and
--   `highest_from` have as fuel the number of addresses taken plus two or three: each step but those
--   passes one of them. Walk, Down and Ends follow the loops, Free says what they find, Pool and Alloc
--   what `fromPool` and `allocate` keep.
-- Hub.Subnet: `nextSubnet` on the sixteen bytes of an address, and `allocateOverlay`, with as fuel the
--   number of overlays taken plus two. Carry is the addition, Step the next block, Block and Carve the
--   walk through one pool, Overlay all pools.
-- Hub.Name, Hub.CertName: internal/hub/name.go and certname.go.
-- Hub.Store: internal/hub/store.go. `Store` has the state in memory and the one in the file; an
--   operation answers both, and whether the file can be written is an argument. Laws has ids and names,
--   Saved the file.
-- Hub.Admission, Hub.Decision, Hub.Ban, Hub.Create: the operations of internal/hub/hub.go. A function
--   that the source runs inside `Update` has the suffix `_in` and answers the instance as it leaves it,
--   also where it fails, since the source works on pointers into the live state. What is drawn at
--   random (ids, keys), the time and the answer of the lighthouse are arguments.
-- Hub.History: these operations as the steps of one instance's life. Cases lists the states in which
--   each can leave it, Burnt and Blocked follow the removed keys, Owned, Sound and Apart the addresses.
-- Router: `match`, `rewrite`, `restore` and `Domains` of internal/tenant/dnsrouter.go.
-- Guard: the replay guard of internal/wrak/nonce.go and the limiter of internal/hub/api.go.
-- Wrak: internal/wrak/identity.go. Base64, ed25519, SHA-256 and the format of times are the fields of
--   the record `Crypto`. Query and Canonical have what is signed, Window the clock and the nonces, Sign a request
--   and its check. Wrak.Ssh: sshsig.go and bootstrap.go, over the record `SshLib`.
-- Hub.Routes: the views of an instance in internal/hub/hub.go (`RouteTableOf`, `Pending`, `Members`).
-- Hub.Api: internal/hub/api.go. `World` has what a handler is given from outside while it runs (the
--   clock, the decoded bodies, random ids, whether a file can be written), `Daemon` what the hub keeps
--   (store, nonces, limiter, running lighthouses), `Reply` the status with a value in place of its
--   JSON. One request is one step, `serve`; Auth has the guards, Owners, Machines and Connectors the
--   handlers. Access, Stays, Apart, Spent, Replayed, Life, Enlisted and Framed follow them.
-- Hub.Settings: internal/hub/config.go, `ParsePool`, and what `New` asks of a configuration. What YAML
--   leaves is the record `File`.
-- Tenant: Naming, Admit and Find are from internal/tenant/tenant.go, Table is from dnsrouter.go,
--   State is internal/tenant/state.go. The
--   certificate authority is the argument `Sign`; LetIn joins the daemon's approval to the hub's. Loops have as fuel the length of the text, or the
--   number of devices.
-- Tests: the theorems at concrete inputs.
--
-- Not modelled: the decoding of JSON and YAML, the matching of paths in net/http, the lighthouse's
-- process, the check of the finished configuration (`validate`), certificates (internal/ca), pins, the
-- connector, the sockets, processes and HTTP calls of the tenant's daemon, the user space network, and
-- the command line: for the most part input and output, or calls of libraries. Of the letters outside
-- ASCII only those are folded whose lower case is ASCII.
pub mod Base
pub mod Net
pub mod Result
pub mod Strings
pub mod Hub
pub mod Enroll
pub mod Router
pub mod Guard
pub mod Wrak
pub mod Tenant
pub mod Tests
