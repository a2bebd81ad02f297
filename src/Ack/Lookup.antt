-- ===== src/Ack/Lookup.antt =====
-- What each operation of the tracker does to the entry of a message, and to no other.
use mathlib.Core.Option
use distributed_im.Common.{
  ℕ, ◌≡◌, ◌≢◌, refl, ◌⊎◌, inl, inr, true, false, [], ◌∷◌, Option, none, some, Bytes, ltb,
  if◌then◌else◌, arith, Option-cases,
}
use distributed_im.Common.Assoc.{
  find, bytes_discrete, find-insert_self, find-insert_ne, find-erase_self, find-erase_ne, NodupKeys,
}
use distributed_im.Ack.{
  AckEntry, Tracker, acknowledge_message, after_retry, mark_retry_done, drain_dead_letters,
  max_retries,
}

abbrev pub lookup : Bytes → Tracker → Option AckEntry
lookup = find bytes_discrete

-- An ACK is accepted exactly if the message is waiting; then that message, and no other, stops waiting.
pub acknowledge_message_lem :
    (msg_id : Bytes) (m : Tracker)
    → let (accepted, m') = acknowledge_message msg_id m in
      ((lookup msg_id m ≡ none) × (accepted ≡ false) × (m' ≡ m)
        ⊎ (e : AckEntry) × (lookup msg_id m ≡ some e)
          × (accepted ≡ true)
          × (lookup msg_id m' ≡ none)
          × ((j : Bytes) → msg_id ≢ j → lookup j m' ≡ lookup j m))
unfolding acknowledge_message
acknowledge_message_lem msg_id m = elim (Option-cases (lookup msg_id m)) [
  | inl e ↦ rw (e, acknowledge_message) (inl (refl, refl, refl))
  | inr (x, e) ↦
      rw (e, acknowledge_message)
        (inr (
          x,
          refl,
          refl,
          find-erase_self bytes_discrete msg_id m,
          λ j h. find-erase_ne bytes_discrete msg_id j m h,
        ))
]

pub lookup-mark_retry_done :
    (msg_id : Bytes) (now : ℕ) (m : Tracker)
    → lookup msg_id (mark_retry_done msg_id now m) ≡ Option.map (after_retry now) (lookup msg_id m)
unfolding mark_retry_done
lookup-mark_retry_done msg_id now m = elim (Option-cases (lookup msg_id m)) [
  | inl e ↦ rw (e, mark_retry_done) e
  | inr (x, e) ↦
      rw (e, mark_retry_done) (find-insert_self bytes_discrete msg_id (after_retry now x) m)
]

pub lookup-mark_retry_done_ne :
    (msg_id j : Bytes) (now : ℕ) (m : Tracker)
    → msg_id ≢ j
    → lookup j (mark_retry_done msg_id now m) ≡ lookup j m
unfolding mark_retry_done
lookup-mark_retry_done_ne msg_id j now m h = elim (Option-cases (lookup msg_id m)) [
  | inl e ↦ rw (e, mark_retry_done)
  | inr (x, e) ↦
      rw (e, mark_retry_done) (find-insert_ne bytes_discrete msg_id j (after_retry now x) m h)
]

pub lookup-drain_none :
    (j : Bytes) (m : Tracker) → lookup j m ≡ none → lookup j (drain_dead_letters m).1 ≡ none
unfolding find drain_dead_letters
lookup-drain_none j [] h = refl
lookup-drain_none j ((k, e) ∷ m) h = ground (arith, lookup-drain_none j m)

-- An entry that still has retries.
abbrev pub alive : Option AckEntry → Option AckEntry
alive none = none
alive (some e) = if ltb e.retry_count max_retries then some e else none

-- Draining keeps exactly the entries that still have retries.
pub lookup-drain_dead_letters :
    (j : Bytes) (m : Tracker)
    → NodupKeys bytes_discrete m
    → lookup j (drain_dead_letters m).1 ≡ alive (lookup j m)
unfolding find drain_dead_letters
lookup-drain_dead_letters j [] n = refl
lookup-drain_dead_letters j ((k, e) ∷ m) n = elim (bytes_discrete k j) [
  | yes same ↦ let absent = rw same at (lookup-drain_none k m n.0) in ground (arith, absent)
  | no other ↦ ground (arith, lookup-drain_dead_letters j m n.1)
]
