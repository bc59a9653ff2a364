-- ===== src/Hub/History/Blocked.antt =====
-- internal/hub/hub.go: the list of certificates to refuse, over a sequence of calls.
use robi_net.Base.{
  ◌≡◌, refl, ap, ◌∙◌, false, List, [], ◌∷◌, ◌++◌, ◌⊎◌, In, In-append_right, some, Text, is_empty,
  arith, inl, inr, Bool-cases,
}
use robi_net.Result.{ok}
use robi_net.Hub.Types.{Member, Burned, Instance}
use robi_net.Hub.Decision.{blocked_in, burned_certs, banned_certs}
use robi_net.Hub.Ban.{remove_in, member_in}
use robi_net.Hub.History.{Op, run}
use robi_net.Enroll.{Platform, text_le, insert_text, sort_texts}
use robi_net.Hub.History.Burnt.{Grows, run-Grows, forget_member_burned, remove_in-ok}

-- Sorting keeps what is in the list.
In-insert_text : (x y : Text) (xs : List Text) → (x ≡ y) ⊎ In x xs → In x (insert_text y xs)
unfolding insert_text
In-insert_text x y [] h = h
In-insert_text x y (z ∷ xs) h = elim (Bool-cases (text_le y z)) [
  | inl e ↦ rw (e, insert_text) h
  | inr e ↦
      rw (e, insert_text)
        (elim h [
          | inl g ↦ inr (In-insert_text x y xs (inl g))
          | inr (inl g) ↦ inl g
          | inr (inr g) ↦ inr (In-insert_text x y xs (inr g))
        ])
]

pub In-sort_texts : (x : Text) (xs : List Text) → In x xs → In x (sort_texts xs)
unfolding sort_texts
In-sort_texts x [] h = h
In-sort_texts x (y ∷ xs) (inl e) = In-insert_text x y (sort_texts xs) (inl e)
In-sort_texts x (y ∷ xs) (inr h) = In-insert_text x y (sort_texts xs) (inr (In-sort_texts x xs h))

In-burned_certs :
    (b : Burned) (bs cs : List Burned)
    → is_empty b.cert_fingerprint ≡ false
    → In b.cert_fingerprint (burned_certs ((bs ++ b ∷ []) ++ cs))
unfolding burned_certs
In-burned_certs b [] cs ne = rw ne (inl refl)
In-burned_certs b (a ∷ bs) cs ne = ground (arith, In-burned_certs b bs cs ne)

-- When `RemoveMember` finds a member under a key and succeeds, and the member had a certificate,
-- then after any further calls the list that every member is told to refuse holds that certificate.
pub remove_in-blocks :
    (pl : Platform) (ref fp : Text) (m : Member) (inst : Instance) {gone : Member}
    → member_in ref inst.members ≡ some (fp, m)
    → (remove_in ref inst).0 ≡ ok gone
    → is_empty m.cert_fingerprint ≡ false
    → (ops : List Op) → In m.cert_fingerprint (blocked_in (run pl ops (remove_in ref inst).1))
unfolding blocked_in
remove_in-blocks pl ref fp m inst found h ne ops = In-sort_texts _ _ (
    In-append_right _ (banned_certs later.members) _
      (rw all (In-burned_certs b inst.burned more ne)))
  where
    later : Instance
    later = run pl ops (remove_in ref inst).1

    b : Burned
    b = record { fingerprint = fp; cert_fingerprint = m.cert_fingerprint }

    grown : Grows (remove_in ref inst).1 later
    grown = run-Grows pl ops (remove_in ref inst).1

    more : List Burned
    more = grown.0

    all : later.burned ≡ (inst.burned ++ b ∷ []) ++ more
    all =
        grown.1
        ∙ ap (λ (bs : List Burned). bs ++ more)
            (ap (λ (i : Instance). i.burned) (remove_in-ok ref fp m inst found h).2
              ∙ forget_member_burned fp m inst)
