-- ===== src/Ack/Schedule.antt =====
-- The life of a message that is never acknowledged: 1, 2 and 4 seconds of patience, then given up.
use mathlib.Core.Option
use distributed_im.Common.{ℕ, ◌+◌, ◌≡◌, ap, ◌∙◌, inl, inr, Option, none, some, Bytes, Option-cases}
use distributed_im.Common.Assoc.{bytes_discrete, find-insert_self, NodupKeys, insert-NodupKeys}
use distributed_im.Ack.{
  AckEntry, Tracker, new_entry, track_message, after_retry, mark_retry_done, drain_dead_letters,
}
use distributed_im.Ack.Lookup.{lookup, alive, lookup-mark_retry_done, lookup-drain_dead_letters}

pub mark_retry_done-NodupKeys :
    (msg_id : Bytes) (now : ℕ) (m : Tracker)
    → NodupKeys bytes_discrete m
    → NodupKeys bytes_discrete (mark_retry_done msg_id now m)
unfolding mark_retry_done
mark_retry_done-NodupKeys msg_id now m n = elim (Option-cases (lookup msg_id m)) [
  | inl e ↦ rw (e, mark_retry_done) n
  | inr (x, e) ↦
      rw (e, mark_retry_done) (insert-NodupKeys bytes_discrete msg_id (after_retry now x) m n)
]

pub track_message-NodupKeys :
    (msg_id target_user content : Bytes) (target_fd now : ℕ) (m : Tracker)
    → NodupKeys bytes_discrete m
    → NodupKeys bytes_discrete (track_message msg_id target_user content target_fd now m)
unfolding track_message
track_message-NodupKeys msg_id target_user content target_fd now m n =
    insert-NodupKeys bytes_discrete msg_id (new_entry msg_id target_user content target_fd now) m n

abbrev pub due_time : Option AckEntry → Option ℕ
due_time = Option.map (λ e. e.next_retry)

-- A message tracked at `t0` and retried at `t1`, `t2` and `t3` with no ACK: its next retry is due at
-- `t0 + 1`, `t1 + 2` and `t2 + 4`; a drain before the third retry keeps it and a drain after it removes it.
pub retry_schedule :
    (msg_id target_user content : Bytes) (target_fd t0 t1 t2 t3 : ℕ) (m : Tracker)
    → NodupKeys bytes_discrete m
    → let m0 = track_message msg_id target_user content target_fd t0 m in
      let m1 = mark_retry_done msg_id t1 m0 in
      let m2 = mark_retry_done msg_id t2 m1 in
      let m3 = mark_retry_done msg_id t3 m2 in
      (due_time (lookup msg_id m0) ≡ some (t0 + 1))
      × (due_time (lookup msg_id m1) ≡ some (t1 + 2))
      × (due_time (lookup msg_id m2) ≡ some (t2 + 4))
      × (lookup msg_id (drain_dead_letters m2).1 ≡ lookup msg_id m2)
      × (lookup msg_id (drain_dead_letters m3).1 ≡ none)
retry_schedule msg_id target_user content target_fd t0 t1 t2 t3 m n =
    let e0 = new_entry msg_id target_user content target_fd t0 in
    let m0 = track_message msg_id target_user content target_fd t0 m in
    let m1 = mark_retry_done msg_id t1 m0 in
    let m2 = mark_retry_done msg_id t2 m1 in
    let m3 = mark_retry_done msg_id t3 m2 in
    let n0 = track_message-NodupKeys msg_id target_user content target_fd t0 m n in
    let n2 = mark_retry_done-NodupKeys msg_id t2 m1 (mark_retry_done-NodupKeys msg_id t1 m0 n0) in
    let n3 = mark_retry_done-NodupKeys msg_id t3 m2 n2 in
    let l0 : lookup msg_id m0 ≡ some e0 =
      unfold track_message in find-insert_self bytes_discrete msg_id e0 m in
    let l1 = lookup-mark_retry_done msg_id t1 m0 ∙ ap (Option.map (after_retry t1)) l0 in
    let l2 = lookup-mark_retry_done msg_id t2 m1 ∙ ap (Option.map (after_retry t2)) l1 in
    let l3 = lookup-mark_retry_done msg_id t3 m2 ∙ ap (Option.map (after_retry t3)) l2 in
    let d2 = lookup-drain_dead_letters msg_id m2 n2 in
    let d3 = lookup-drain_dead_letters msg_id m3 n3 in
    unfold new_entry after_retry in
    (ap due_time l0, ap due_time l1, ap due_time l2, d2 ∙ rw l2, d3 ∙ ap alive l3)
