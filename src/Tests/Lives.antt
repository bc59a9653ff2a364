-- ===== src/Tests/Lives.antt =====
-- The life of the instance: calls in sequence, an approval, a ban, a removal.
use robi_net.Base.{
  ◌≡◌, ◌≢◌, refl, true, false, List, [], ◌∷◌, In, some, Text, runes, lookup, insert, equal,
  is_empty, inl, arith,
}
use robi_net.Net.{is_prefix}
use robi_net.Result.{ok, err, Error, name_taken, already_banned}
use robi_net.Strings.{has_prefix, is_space}
use robi_net.Enroll.{hex_encode, normalize_pem, fields_from, join_with}
use robi_net.Hub.Types.{owner, EventKind, Member, Record, Instance, banned}
use robi_net.Hub.Ban.{ban_in, remove_in, member_in, with_event, refers}
use robi_net.Hub.Admission.{fingerprint_of, enroll_in}
use robi_net.Hub.Decision.{decide_in, name_taken_in, granted_name, blocked_in, result_in}
use robi_net.Hub.Decision.{Answer}
use robi_net.Hub.Decision.Effects.{IsHandedOut, decide_in-hands_out, decide_in-lifts_ban}
use robi_net.Hub.Ban.Effects.{ban_in_lem}
use robi_net.Hub.History.{Op, step, run}
use robi_net.Hub.History.Sound.{IsSound}
use robi_net.Hub.History.Apart.{run-IsSound, run-members_apart}
use robi_net.Hub.History.Blocked.{remove_in-blocks}
use robi_net.Hub.History.Burnt.{remove_in-is_final}
use robi_net.Tests.{
  toy, home, home-IsSound, key, printer, asked, request, applicant, config, bundle, approval,
}

abbrev calls : List Op
calls = Op.enroll (runes "r2") 7 request applicant ∷ Op.ban 8 (runes "printer") (runes "lost") ∷ []

run-IsSound_example : IsSound (run toy calls home)
run-IsSound_example = run-IsSound toy calls home home-IsSound

abbrev one_ban : List Op
one_ban = Op.ban 8 (runes "printer") (runes "lost") ∷ []

abbrev lost : Member
lost = with_event EventKind.ban (runes "lost") 8 printer

-- The instance with the printer banned.
abbrev barred : Instance
barred = record home { members = (key, lost) ∷ [] }

banned_run : run toy one_ban home ≡ barred
unfolding run step ban_in member_in refers equal banned has_prefix insert
banned_run = refl

at_home : is_prefix lost.address ≡ true
at_home = refl

run-members_apart_example :
    (lost.address.addr ≢ (run toy one_ban home).lighthouse_address)
    × (lost.address.addr ≢ (run toy one_ban home).tenant_address)
    × ((fp' : Text) (m' : Member)
        → In (fp', m') (run toy one_ban home).members
        → m'.kind ≢ owner
        → m'.address.addr ≡ lost.address.addr
        → is_prefix m'.address ≡ true
        → fp' ≡ key)
run-members_apart_example =
    run-members_apart toy one_ban home home-IsSound key lost lost_inside plain at_home
  where
    lost_inside : In (key, lost) (run toy one_ban home).members
    lost_inside = rw banned_run (inl refl)

    plain : lost.kind ≢ owner
    plain = ground arith

found : member_in (runes "printer") home.members ≡ some (key, printer)
unfolding member_in refers equal has_prefix
found = refl

found_lost : member_in key barred.members ≡ some (key, lost)
unfolding member_in refers equal has_prefix
found_lost = refl

removed : (remove_in key barred).0 ≡ ok lost
unfolding remove_in member_in refers equal banned has_prefix
removed = refl

keyed : fingerprint_of toy request.public_key ≡ key
unfolding fingerprint_of hex_encode normalize_pem fields_from join_with is_space
keyed = refl

remove_in-is_final_example :
    (e : Error) × (enroll_in toy
        (runes "r3")
        9
        request
        applicant
        (run toy calls (remove_in key barred).1)
      ≡ (err e, run toy calls (remove_in key barred).1))
remove_in-is_final_example =
    remove_in-is_final toy key key lost barred found_lost removed calls (runes "r3") 9 request
      applicant keyed

remove_in-blocks_example :
    In lost.cert_fingerprint (blocked_in (run toy calls (remove_in key barred).1))
remove_in-blocks_example = remove_in-blocks toy key key lost barred found_lost removed refl calls

-- An approval of the printer's own request, and of another key's request for the printer's name.
stored : lookup (runes "r1") home.requests ≡ some asked
unfolding lookup equal
stored = refl

abbrev rival : Record
rival = record asked { fingerprint = runes "02" }

abbrev crowded : Instance
crowded = record home { requests = (runes "r1", rival) ∷ [] }

rival_stored : lookup (runes "r1") crowded.requests ≡ some rival
unfolding lookup equal
rival_stored = refl

others_name : name_taken_in rival.fingerprint (granted_name approval rival) crowded.members ≡ true
unfolding name_taken_in equal
others_name = refl

decide_in-hands_out_example :
    let (told, later) = decide_in config 9 (runes "r1") approval crowded in
    (told ≡ err name_taken)
    × (later.members ≡ crowded.members)
    × ((a : Answer) × (result_in (runes "r1") later ≡ ok a)
        × IsHandedOut config bundle rival crowded later a)
decide_in-hands_out_example =
    decide_in-hands_out config 9 (runes "r1") approval bundle rival crowded rival_stored refl refl
      refl others_name

own_name_barred :
    name_taken_in asked.fingerprint (granted_name approval asked) barred.members ≡ false
unfolding name_taken_in equal
own_name_barred = refl

-- The printer is banned before, and not after.
decide_in-lifts_ban_example :
    (m : Member) × (lookup asked.fingerprint
        (decide_in config 9 (runes "r1") approval barred).1.members
      ≡ some m)
    × (banned m ≡ false)
    × (m.events ≡ [])
decide_in-lifts_ban_example =
    decide_in-lifts_ban config 9 (runes "r1") approval bundle asked barred stored refl refl refl
      own_name_barred

ban_in_lem_example :
    (banned printer ≡ true
      → ban_in 8 (runes "printer") (runes "lost") home ≡ (err already_banned, home))
    × (banned printer ≡ false
        → let (told, later) = ban_in 8 (runes "printer") (runes "lost") home in
          (told ≡ ok tt)
          × (lookup key later.members ≡ some lost)
          × (banned lost ≡ true)
          × (is_empty printer.cert_fingerprint ≡ false
              → In printer.cert_fingerprint (blocked_in later)))
ban_in_lem_example = ban_in_lem 8 (runes "printer") (runes "lost") key printer home found
