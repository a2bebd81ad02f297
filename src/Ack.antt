-- ===== src/Ack.antt =====
-- gateway/include/AckTracker.h and gateway/src/AckTracker.cpp: messages that wait for an ACK. The map
-- from message ids to entries is an association list; `time(nullptr)` is an argument of each operation,
-- and the mutex makes each operation one step. Descriptors and times are not negative.
pub mod Lookup
pub mod Schedule
pub mod Retries
pub mod DeadLetters
use distributed_im.Common.{
  ℕ, suc, ◌+◌, ◌^◌, Bool, true, false, ◌&&◌, List, [], ◌∷◌, Option, none, some, Bytes, length, ltb,
  leb, if◌then◌else◌,
}
use distributed_im.Common.Assoc.{find, insert, erase, bytes_discrete}

pub record AckEntry : Type 0 where
  pub msg_id : Bytes
  pub target_user : Bytes
  pub content : Bytes
  pub target_fd : ℕ
  pub send_time : ℕ
  pub retry_count : ℕ
  pub next_retry : ℕ

-- `pending_acks_`.
abbrev pub Tracker : Type 0
Tracker = List (Bytes × AckEntry)

abbrev pub max_retries : ℕ
max_retries = 3

abbrev pub ack_timeout_seconds : ℕ
ack_timeout_seconds = 300

-- `1 << retry_count`
unfoldable pub retry_delay_seconds : AckEntry → ℕ
retry_delay_seconds e = 2 ^ e.retry_count

unfoldable pub new_entry : Bytes → Bytes → Bytes → ℕ → ℕ → AckEntry
new_entry msg_id target_user content target_fd now = record {
  msg_id = msg_id;
  target_user = target_user;
  content = content;
  target_fd = target_fd;
  send_time = now;
  retry_count = 0;
  next_retry = now + 1;
}

unfoldable pub track_message : Bytes → Bytes → Bytes → ℕ → ℕ → Tracker → Tracker
unfolding new_entry insert
track_message msg_id target_user content target_fd now m =
    insert bytes_discrete msg_id (new_entry msg_id target_user content target_fd now) m

unfoldable pub acknowledge_message : Bytes → Tracker → Bool × Tracker
acknowledge_message msg_id m = elim (find bytes_discrete msg_id m) [
  | none ↦ (false, m)
  | some e ↦ (true, erase bytes_discrete msg_id m)
]

abbrev pub is_due : ℕ → AckEntry → Bool
is_due now e = ltb e.retry_count max_retries && leb e.next_retry now

unfoldable pub get_pending_retries : ℕ → Tracker → List AckEntry
get_pending_retries now [] = []
get_pending_retries now ((k, e) ∷ m) =
    let rest = get_pending_retries now m in if is_due now e then e ∷ rest else rest

-- The update that `markRetryDone` makes to the entry it finds.
unfoldable pub after_retry : ℕ → AckEntry → AckEntry
unfolding retry_delay_seconds
after_retry now e =
    let counted = record e { retry_count = suc e.retry_count } in
    if ltb counted.retry_count max_retries
    then record counted { next_retry = now + retry_delay_seconds counted }
    else counted

unfoldable pub mark_retry_done : Bytes → ℕ → Tracker → Tracker
unfolding after_retry
mark_retry_done msg_id now m = elim (find bytes_discrete msg_id m) [
  | none ↦ m
  | some e ↦ insert bytes_discrete msg_id (after_retry now e) m
]

-- The entries given up, in the order of the map, and the map without them.
unfoldable pub drain_dead_letters : Tracker → List AckEntry × Tracker
drain_dead_letters [] = ([], [])
drain_dead_letters ((k, e) ∷ m) =
    let (dead, rest) = drain_dead_letters m in
    if leb max_retries e.retry_count then (e ∷ dead, rest) else (dead, (k, e) ∷ rest)

unfoldable pub pending_count : Tracker → ℕ
pending_count m = length m

unfoldable pub purge_expired : ℕ → Tracker → Tracker
purge_expired now [] = []
purge_expired now ((k, e) ∷ m) =
    let rest = purge_expired now m in
    if ltb (e.send_time + ack_timeout_seconds) now && leb max_retries e.retry_count
    then rest
    else (k, e) ∷ rest
