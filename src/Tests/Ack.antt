-- ===== src/Tests/Ack.antt =====
-- The tracker on concrete messages.
use mathlib.Core.List.{Perm}
use distributed_im.Common.{◌+◌, ◌≡◌, ◌≢◌, ◌⊎◌, refl, [], ◌∷◌, ◌++◌, true, false, none, some, Bytes}
use distributed_im.Common.Text.{codes}
use distributed_im.Common.Assoc.{find, erase, bytes_discrete}
use distributed_im.Ack.{
  AckEntry, Tracker, new_entry, track_message, acknowledge_message, drain_dead_letters,
  purge_expired,
}
use distributed_im.Ack.Lookup.{lookup, acknowledge_message_lem}
use distributed_im.Ack.Schedule.{due_time, retry_schedule}
use distributed_im.Ack.DeadLetters.{entries, drain_dead_letters_lem, purge_expired-drain}

abbrev one_waiting : Tracker
one_waiting = (codes "m1", new_entry (codes "m1") (codes "bob") (codes "hi") 5 100) ∷ []

-- `m1` was accepted, and its second ACK is not.
acknowledge_twice :
    (acknowledge_message (codes "m1") (acknowledge_message (codes "m1") one_waiting).1).0 ≡ false
unfolding acknowledge_message find erase bytes_discrete
acknowledge_twice = refl

retry_schedule_example :
    due_time (lookup (codes "m2") (track_message (codes "m2") (codes "bob") (codes "hi") 5 100 []))
    ≡ some (100 + 1)
retry_schedule_example =
    (retry_schedule (codes "m2") (codes "bob") (codes "hi") 5 100 101 103 107 [] tt).0

drain_dead_letters_lem_example :
    Perm
      (entries one_waiting)
      ((drain_dead_letters one_waiting).0 ++ entries (drain_dead_letters one_waiting).1)
drain_dead_letters_lem_example = (drain_dead_letters_lem one_waiting).0

purge_expired-drain_example :
    purge_expired 1000 (drain_dead_letters one_waiting).1 ≡ (drain_dead_letters one_waiting).1
purge_expired-drain_example = purge_expired-drain 1000 one_waiting

acknowledge_message_lem_example :
    let (accepted, m') = acknowledge_message (codes "m2") one_waiting in
    ((lookup (codes "m2") one_waiting ≡ none) × (accepted ≡ false) × (m' ≡ one_waiting)
      ⊎ (e : AckEntry) × (lookup (codes "m2") one_waiting ≡ some e)
        × (accepted ≡ true)
        × (lookup (codes "m2") m' ≡ none)
        × ((j : Bytes) → codes "m2" ≢ j → lookup j m' ≡ lookup j one_waiting))
acknowledge_message_lem_example = acknowledge_message_lem (codes "m2") one_waiting
