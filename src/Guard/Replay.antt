-- ===== src/Guard/Replay.antt =====
-- `Use` of internal/wrak/nonce.go, over a sequence of calls.
use robi_net.Base.{
  ℕ, ◌+◌, ◌≤◌, ◌<◌, ◌≡◌, true, false, List, [], ◌∷◌, some, Text, Dict, lookup, equal_iff,
  equal_refl, lookup-insert, arith,
}
use robi_net.Guard.{Nonces, nonce_key, sweep, tidy, spend, use_nonce}

-- One call of `Use`.
pub record Call : Type 0 where
  pub now : ℕ
  pub identity : Text
  pub nonce : Text
  pub ttl : ℕ

-- What a sequence of calls leaves.
pub use_all : List Call → Nonces → Nonces
use_all [] st = st
use_all (c ∷ cs) st = use_all cs (use_nonce c.now c.identity c.nonce c.ttl st).1

-- Every call happens before a moment.
abbrev pub AreBefore : ℕ → List Call → Type 0
AreBefore end [] = Unit
AreBefore end (c ∷ cs) = (c.now < end) × AreBefore end cs

lookup-sweep :
    (now : ℕ) (k : Text) (e : ℕ) (m : Dict ℕ)
    → lookup k m ≡ some e
    → now ≤ e
    → lookup k (sweep now m) ≡ some e
unfolding lookup sweep
lookup-sweep now k e [] h le = h
lookup-sweep now k e ((j, f) ∷ m) h le = ground (arith, lookup-sweep now k e m)

pub lookup-tidy :
    (now ttl : ℕ) (k : Text) (e : ℕ) (st : Nonces)
    → lookup k st.seen ≡ some e
    → now ≤ e
    → lookup k (tidy now ttl st).seen ≡ some e
unfolding tidy
lookup-tidy now ttl k e st h le = ground (arith, lookup-sweep now k e st.seen h le)

-- A nonce that was spent is still known after any call before it expires.
pub use_nonce_keeps :
    (now : ℕ) (identity nonce : Text) (ttl : ℕ) (k : Text) (e : ℕ) (st : Nonces)
    → lookup k st.seen ≡ some e
    → now < e
    → lookup k (use_nonce now identity nonce ttl st).1.seen ≡ some e
unfolding use_nonce spend
use_nonce_keeps now identity nonce ttl k e st h lt = ground (
  arith,
  lookup-tidy now ttl k e st h (omega arith),
  lookup-insert (nonce_key identity nonce) k (now + ttl) (tidy now ttl st).seen,
  equal_iff (nonce_key identity nonce) k,
)

use_all_keeps :
    (cs : List Call) (k : Text) (e : ℕ) (st : Nonces)
    → lookup k st.seen ≡ some e
    → AreBefore e cs
    → lookup k (use_all cs st).seen ≡ some e
unfolding use_all
use_all_keeps [] k e st h b = h
use_all_keeps (c ∷ cs) k e st h (lt, b) =
    use_all_keeps cs k e _ (use_nonce_keeps c.now c.identity c.nonce c.ttl k e st h lt) b

pub use_nonce_refused :
    (now : ℕ) (identity nonce : Text) (ttl e : ℕ) (st : Nonces)
    → lookup (nonce_key identity nonce) st.seen ≡ some e
    → now < e
    → (use_nonce now identity nonce ttl st).0 ≡ false
unfolding use_nonce
use_nonce_refused now identity nonce ttl e st h lt =
    ground (arith, lookup-tidy now ttl (nonce_key identity nonce) e st h (omega arith))

pub use_nonce_recorded :
    (now : ℕ) (identity nonce : Text) (ttl : ℕ) (st : Nonces)
    → (use_nonce now identity nonce ttl st).0 ≡ true
    → lookup (nonce_key identity nonce) (use_nonce now identity nonce ttl st).1.seen
      ≡ some (now + ttl)
unfolding use_nonce spend
use_nonce_recorded now identity nonce ttl st h = ground (
  arith,
  lookup-insert (nonce_key identity nonce) (nonce_key identity nonce) (now + ttl)
      (tidy now ttl st).seen,
  equal_refl (nonce_key identity nonce),
)

-- No replay: once `Use` has accepted an identity's nonce, it refuses the same again at every moment
-- before the lifetime has passed, whatever other calls came between, as long as each of those also
-- came before that moment; a sweep on the way does not forget the nonce.
pub use_nonce_once :
    (now : ℕ) (identity nonce : Text) (ttl : ℕ) (st : Nonces)
    → (use_nonce now identity nonce ttl st).0 ≡ true
    → (cs : List Call) → AreBefore (now + ttl) cs
    → (later ttl' : ℕ) → later < now + ttl
    → (use_nonce later identity nonce ttl' (use_all cs (use_nonce now identity nonce ttl st).1)).0
      ≡ false
use_nonce_once now identity nonce ttl st h cs b later ttl' lt =
    use_nonce_refused later identity nonce ttl' (now + ttl) _
      (use_all_keeps cs (nonce_key identity nonce) (now + ttl) _
        (use_nonce_recorded now identity nonce ttl st h) b)
      lt
