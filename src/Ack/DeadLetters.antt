-- ===== src/Ack/DeadLetters.antt =====
-- Dead letters and expired entries.
use mathlib.Core.List.{Perm, perm_middle}
use mathlib.Core.List.Perm
use distributed_im.Common.{
  ℕ, ◌≤◌, ◌<◌, ◌≡◌, refl, List, [], ◌∷◌, ◌++◌, map, All, Bool-cases, inl, inr, leb, arith,
}
use distributed_im.Common.Assoc.{bytes_discrete, AllEntries}
use distributed_im.Ack.{AckEntry, Tracker, max_retries, drain_dead_letters, purge_expired}

abbrev pub entries : Tracker → List AckEntry
entries = map (λ p. p.1)

drain_partition :
    (m : Tracker) → Perm (entries m) ((drain_dead_letters m).0 ++ entries (drain_dead_letters m).1)
unfolding drain_dead_letters
drain_partition [] = Perm.nil
drain_partition ((k, e) ∷ m) = elim (Bool-cases (leb max_retries e.retry_count)) [
  | inl h ↦ rw h (Perm.cons e (drain_partition m))
  | inr h ↦ rw h (
      Perm.trans (Perm.cons e (drain_partition m))
        (Perm.symm (perm_middle (drain_dead_letters m).0 (entries (drain_dead_letters m).1))))
]

drain_exhausted : (m : Tracker) → All (λ e. max_retries ≤ e.retry_count) (drain_dead_letters m).0
unfolding drain_dead_letters
drain_exhausted [] = tt
drain_exhausted ((k, e) ∷ m) = ground (arith, drain_exhausted m)

drain_alive :
    (m : Tracker)
    → AllEntries bytes_discrete (λ k e. e.retry_count < max_retries) (drain_dead_letters m).1
unfolding drain_dead_letters
drain_alive [] = tt
drain_alive ((k, e) ∷ m) = ground (arith, drain_alive m)

-- Draining splits the entries in two and loses none: those handed out as dead letters have used all
-- retries, and those that stay have not.
pub drain_dead_letters_lem :
    (m : Tracker)
    → let (dead, rest) = drain_dead_letters m in
      Perm (entries m) (dead ++ entries rest)
      × All (λ e. max_retries ≤ e.retry_count) dead
      × AllEntries bytes_discrete (λ k e. e.retry_count < max_retries) rest
drain_dead_letters_lem m = (drain_partition m, drain_exhausted m, drain_alive m)

purge_alive :
    (now : ℕ) (m : Tracker)
    → AllEntries bytes_discrete (λ k e. e.retry_count < max_retries) m
    → purge_expired now m ≡ m
unfolding purge_expired
purge_alive now [] h = refl
purge_alive now ((k, e) ∷ m) h = ground (arith, purge_alive now m h.1)

-- After a drain there is nothing for `purgeExpired` to remove, at any time.
pub purge_expired-drain :
    (now : ℕ) (m : Tracker) → purge_expired now (drain_dead_letters m).1 ≡ (drain_dead_letters m).1
purge_expired-drain now m = purge_alive now _ (drain_alive m)
