-- ===== src/Hub/Ban/Effects.antt =====
-- `Ban` and `Unban`: what they do to the member and to the list of refused certificates.
use robi_net.Base.{
  ℕ, ◌≡◌, refl, sym, Bool, true, false, List, [], ◌∷◌, ◌++◌, In, In-append_left, some, Text, Dict,
  lookup, insert, equal_refl, is_empty, lookup-insert, lookup-In, arith, inl, inr, ap,
}
use robi_net.Result.{ok, err, already_banned, not_banned}
use robi_net.Hub.Types.{EventKind, ban, unban, Member, MemberEvent, Instance, banned, last_is_ban}
use robi_net.Hub.Decision.{banned_certs, burned_certs, blocked_in}
use robi_net.Hub.Ban.{member_in, with_event, ban_in, unban_in}
use robi_net.Hub.History.Blocked.{In-sort_texts}

pub last_is_ban-append :
    (b : Bool) (es : List MemberEvent) (e : MemberEvent)
    → last_is_ban b (es ++ e ∷ []) ≡ (elim e.kind [ ban ↦ true | unban ↦ false ])
last_is_ban-append b [] e = refl
last_is_ban-append b (f ∷ es) e = last_is_ban-append _ es e

In-banned_certs :
    (fp : Text) (m : Member) (ms : Dict Member)
    → In {A = Text × Member} (fp, m) ms
    → banned m ≡ true
    → is_empty m.cert_fingerprint ≡ false
    → In m.cert_fingerprint (banned_certs ms)
unfolding banned_certs
In-banned_certs fp m [] h b c = elim h [ ]
In-banned_certs fp m ((k, n) ∷ ms) (inl e) b c =
    let same : m ≡ n = ap (λ (q : Text × Member). q.1) e in rw (sym same, b, c) (inl refl)
In-banned_certs fp m ((k, n) ∷ ms) (inr h) b c = ground (arith, In-banned_certs fp m ms h b c)

-- The certificate of a member that is banned is on the list that every member is told to refuse.
blocked_in-banned :
    (fp : Text) (m : Member) (inst : Instance)
    → lookup fp inst.members ≡ some m
    → banned m ≡ true
    → is_empty m.cert_fingerprint ≡ false
    → In m.cert_fingerprint (blocked_in inst)
unfolding blocked_in
blocked_in-banned fp m inst h b c = In-sort_texts _ _ (
    In-append_left _ _ (burned_certs inst.burned)
      (In-banned_certs fp m inst.members (lookup-In fp m inst.members h) b c))

module _ (now : ℕ) (ref note fp : Text) (m : Member) (inst : Instance)
    (found : member_in ref inst.members ≡ some (fp, m)) where
  abbrev marked : EventKind → Member
  marked k = with_event k note now m

  marked_at : (k : EventKind) → lookup fp (insert fp (marked k) inst.members) ≡ some (marked k)
  marked_at k = rw (lookup-insert fp fp (marked k) inst.members, equal_refl fp)

  -- Banning the member that a reference finds: a second ban is an error that changes nothing, and a
  -- first one leaves the member banned, and its certificate, if it has one, on the list that every
  -- member is told to refuse.
  pub ban_in_lem :
      (banned m ≡ true → ban_in now ref note inst ≡ (err already_banned, inst))
      × (banned m ≡ false
          → let (told, later) = ban_in now ref note inst in
            (told ≡ ok tt)
            × (lookup fp later.members ≡ some (marked ban))
            × (banned (marked ban) ≡ true)
            × (is_empty m.cert_fingerprint ≡ false → In m.cert_fingerprint (blocked_in later)))
  unfolding ban_in banned
  ban_in_lem = (
    λ b. rw (found, ban_in, b) refl,
    λ b.
        rw (found, ban_in, b)
          (
            refl,
            marked_at ban,
            now_banned,
            λ c.
                blocked_in-banned fp (marked ban)
                  (record inst { members = insert fp (marked ban) inst.members }) (marked_at ban)
                  now_banned c,
          ),
  )
    where
      now_banned : banned (marked ban) ≡ true
      now_banned = last_is_ban-append false m.events _

  -- Unbanning the member that a reference finds: an error that changes nothing where the member is
  -- not banned, and otherwise the member gets one more event and is not banned any more.
  pub unban_in_lem :
      (banned m ≡ false → unban_in now ref note inst ≡ (err not_banned, inst))
      × (banned m ≡ true
          → let (told, later) = unban_in now ref note inst in
            (told ≡ ok tt)
            × (lookup fp later.members ≡ some (marked unban))
            × (banned (marked unban) ≡ false))
  unfolding unban_in banned
  unban_in_lem = (
    λ b. rw (found, unban_in, b) refl,
    λ b. rw (found, unban_in, b) (refl, marked_at unban, last_is_ban-append false m.events _),
  )
