-- ===== src/Ack/Retries.antt =====
-- What marking all due entries does to a tracker, for the proof about `checkAckRetries`: each is marked once.
use mathlib.Core.Option
use distributed_im.Common.{
  ℕ, ◌≡◌, refl, ap, ◌∙◌, inl, inr, Bool, true, false, List, [], ◌∷◌, Option, none, some, Bytes, ite,
  if_pos, if_neg, if◌then◌else◌, arith, Bool-cases,
}
use distributed_im.Common.Assoc.{find, bytes_discrete, NodupKeys, AllEntries}
use distributed_im.Ack.{
  AckEntry, Tracker, is_due, get_pending_retries, after_retry, mark_retry_done, drain_dead_letters,
}
use distributed_im.Ack.Lookup.{
  lookup, alive, lookup-mark_retry_done, lookup-mark_retry_done_ne, lookup-drain_dead_letters,
}
use distributed_im.Ack.Schedule.{mark_retry_done-NodupKeys}

-- Every entry of a list is marked, one after the other.
unfoldable pub mark_retries : ℕ → List AckEntry → Tracker → Tracker
mark_retries now [] m = m
mark_retries now (e ∷ es) m = mark_retries now es (mark_retry_done e.msg_id now m)

-- Every entry stands under its own message id.
abbrev pub IsKeyed : Tracker → Type 0
IsKeyed = AllEntries bytes_discrete (λ k e. e.msg_id ≡ k)

is_listed : Bytes → List AckEntry → Bool
is_listed k [] = false
is_listed k (e ∷ es) = ite (bytes_discrete e.msg_id k) true (is_listed k es)

abbrev IsDistinct : List AckEntry → Type 0
IsDistinct [] = Unit {0}
IsDistinct (e ∷ es) = (is_listed e.msg_id es ≡ false) × IsDistinct es

abbrev due_entry : ℕ → Option AckEntry → Bool
due_entry now none = false
due_entry now (some e) = is_due now e

absent_unlisted :
    (now : ℕ) (k : Bytes) (m : Tracker)
    → IsKeyed m
    → lookup k m ≡ none
    → is_listed k (get_pending_retries now m) ≡ false
unfolding find get_pending_retries is_listed
absent_unlisted now k [] v h = refl
absent_unlisted now k ((j, e) ∷ m) v h = elim (bytes_discrete j k) [
  | yes same ↦ absurd (cc (rw (if_pos _ same) at h))
  | no other ↦ ground (arith, v.0, absent_unlisted now k m v.1)
]

listed_due :
    (now : ℕ) (k : Bytes) (m : Tracker)
    → IsKeyed m
    → NodupKeys bytes_discrete m
    → is_listed k (get_pending_retries now m) ≡ due_entry now (lookup k m)
unfolding find get_pending_retries is_listed
listed_due now k [] v n = refl
listed_due now k ((j, e) ∷ m) v n =
    ground (arith, v.0, absent_unlisted now j m v.1 n.0, listed_due now k m v.1 n.1)

pending-IsDistinct :
    (now : ℕ) (m : Tracker)
    → IsKeyed m
    → NodupKeys bytes_discrete m
    → IsDistinct (get_pending_retries now m)
unfolding get_pending_retries
pending-IsDistinct now [] v n = tt
pending-IsDistinct now ((j, e) ∷ m) v n = elim (Bool-cases (is_due now e)) [
  | inl due ↦ rw due (rw v.0 (absent_unlisted now j m v.1 n.0), pending-IsDistinct now m v.1 n.1)
  | inr later ↦ rw later (pending-IsDistinct now m v.1 n.1)
]

lookup-mark_retries :
    (now : ℕ) (k : Bytes) (es : List AckEntry) (m : Tracker)
    → IsDistinct es
    → lookup k (mark_retries now es m)
      ≡ (if is_listed k es then Option.map (after_retry now) (lookup k m) else lookup k m)
unfolding mark_retries is_listed
lookup-mark_retries now k [] m h = refl
lookup-mark_retries now k (e ∷ es) m h = elim (bytes_discrete e.msg_id k) [
  | yes same ↦
      lookup-mark_retries now k es (mark_retry_done e.msg_id now m) h.1
      ∙ rw (if_pos _ same, ← same, h.0) (lookup-mark_retry_done e.msg_id now m)
  | no other ↦
      lookup-mark_retries now k es (mark_retry_done e.msg_id now m) h.1
      ∙ rw (if_neg _ other, lookup-mark_retry_done_ne e.msg_id k now m other) refl
]

mark_retries-NodupKeys :
    (now : ℕ) (es : List AckEntry) (m : Tracker)
    → NodupKeys bytes_discrete m
    → NodupKeys bytes_discrete (mark_retries now es m)
unfolding mark_retries
mark_retries-NodupKeys now [] m n = n
mark_retries-NodupKeys now (e ∷ es) m n =
    mark_retries-NodupKeys now es (mark_retry_done e.msg_id now m)
      (mark_retry_done-NodupKeys e.msg_id now m n)

-- What one pass does to an entry: a due one is marked once.
abbrev pub pass_entry : ℕ → AckEntry → AckEntry
pass_entry now e = if is_due now e then after_retry now e else e

-- One pass at time `now` over a tracker whose entries stand once each under their own ids: an entry that is
-- due is marked once and any other stays as it is, and then those without a retry left are gone.
pub retry_pass :
    (now : ℕ) (k : Bytes) (m : Tracker)
    → IsKeyed m
    → NodupKeys bytes_discrete m
    → lookup k (drain_dead_letters (mark_retries now (get_pending_retries now m) m)).1
      ≡ alive (Option.map (pass_entry now) (lookup k m))
retry_pass now k m v n =
    lookup-drain_dead_letters k _ (mark_retries-NodupKeys now _ m n)
    ∙ ap alive {y = Option.map (pass_entry now) (lookup k m)} (
        lookup-mark_retries now k (get_pending_retries now m) m (pending-IsDistinct now m v n)
        ∙ rw (listed_due now k m v n) (pass_lookup now (lookup k m)))
  where
    pass_lookup :
        (t : ℕ) (o : Option AckEntry)
        → (if due_entry t o then Option.map (after_retry t) o else o) ≡ Option.map (pass_entry t) o
    pass_lookup t none = refl
    pass_lookup t (some e) = ground arith
