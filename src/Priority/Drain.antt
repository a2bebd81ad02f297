-- ===== src/Priority/Drain.antt =====
-- Emptying the queue hands out every message once, the urgent ones first.
use mathlib.Core.List.{Perm, Pairwise, Pairwise-cons, mem-cons_of_mem}
use mathlib.Core.List.Perm
use distributed_im.Common.{
  ℕ, zero, suc, ◌≤◌, ◌<◌, ◌≡◌, refl, sym, ap, ◌∙◌, true, false, inl, inr, List, [], ◌∷◌, Option,
  none, some, length, ◌==◌, arith, Bool-cases, dec_lt,
}
use distributed_im.Priority.{
  PriorityMessage, rank, less, HeapLibrary, queue_empty, queue_pop, queue_clear, clear_loop,
}

abbrev pub rank_of : PriorityMessage → ℕ
rank_of m = rank m.priority

-- No message after a less urgent one.
abbrev pub IsByPriority : List PriorityMessage → Type 0
IsByPriority = Pairwise (λ a b. rank_of a ≤ rank_of b)

less-false : (a b : PriorityMessage) → less a b ≡ false → rank_of a ≤ rank_of b
unfolding less
less-false a b h = ground arith

module _ (lib : HeapLibrary) where
  open lib use {Heap, top, pop, size, contents}

  -- One round: what was popped comes first, and the other rounds follow.
  abbrev pub deliver :
      (Heap → List PriorityMessage × Heap)
      → Option PriorityMessage × Heap
      → List PriorityMessage × Heap
  deliver later (none, q) = ([], q)
  deliver later (some m, q) = (m ∷ (later q).0, (later q).1)

  -- A queue that is popped until it is empty, with fuel: the messages in order, and the queue that is left.
  unfoldable pub drain : ℕ → Heap → List PriorityMessage × Heap
  drain zero q = ([], q)
  drain (suc fuel) q = deliver (drain fuel) (queue_pop lib q)

  pub queue_pop_full : (q : Heap) → 0 < size q → queue_pop lib q ≡ (some (top q), pop q)
  unfolding queue_pop
  queue_pop_full q h = let full : (size q == 0) ≡ false = ground arith in rw full

  queue_pop_empty : (q : Heap) → size q ≡ 0 → queue_pop lib q ≡ (none, q)
  unfolding queue_pop
  queue_pop_empty q h = let out : (size q == 0) ≡ true = ground arith in rw out

  pub drain_step :
      (fuel : ℕ) (q : Heap)
      → 0 < size q
      → drain (suc fuel) q ≡ (top q ∷ (drain fuel (pop q)).0, (drain fuel (pop q)).1)
  unfolding drain
  drain_step fuel q h = ap (deliver (drain fuel)) (queue_pop_full q h)

  pub drain_empty : (fuel : ℕ) (q : Heap) → size q ≡ 0 → drain fuel q ≡ ([], q)
  unfolding drain
  drain_empty zero q h = refl
  drain_empty (suc fuel) q h = ap (deliver (drain fuel)) (queue_pop_empty q h)

  contents-empty_of_size : (q : Heap) → size q ≡ 0 → contents q ≡ []
  contents-empty_of_size q h = go (contents q) (sym (lib.size-length q) ∙ h)
    where
      go : (l : List PriorityMessage) → length l ≡ 0 → l ≡ []
      go [] e = refl
      go (x ∷ l) e = absurd (omega arith)

  drain_loop :
      (fuel : ℕ) (q : Heap)
      → size q ≤ fuel
      → let (sent, rest) = drain fuel q in
        Perm (contents q) sent × IsByPriority sent × (size rest ≡ 0)
  drain_loop zero q h =
      let nothing : size q ≡ 0 = omega arith in
      rw (drain_empty zero q nothing)
        (rw (contents-empty_of_size q nothing) Perm.nil, Pairwise.nil, nothing)
  drain_loop (suc fuel) q h = elim (dec_lt 0 (size q)) [
    | no out ↦
        let nothing : size q ≡ 0 = omega arith in
        rw (drain_empty (suc fuel) q nothing)
          (rw (contents-empty_of_size q nothing) Perm.nil, Pairwise.nil, nothing)
    | yes some_left ↦
        let (same, sorted, done) =
          drain_loop fuel (pop q) (omega (arith, lib.size-pop q some_left)) in
        let all = Perm.trans (lib.contents-pop q some_left) (Perm.cons (top q) same) in
        rw (drain_step fuel q some_left) (
          all,
          Pairwise-cons.1 (
            λ y m.
                less-false (top q) y (
                  lib.top-greatest q some_left y
                    ((Perm.mem_iff all).1 (mem-cons_of_mem (top q) m))),
            sorted,
          ),
          done,
        )
  ]

  pub drain_lem :
      (q : Heap)
      → let (sent, rest) = drain (size q) q in
        Perm (contents q) sent × IsByPriority sent × (size rest ≡ 0)
  drain_lem q = drain_loop (size q) q (omega arith)

  clear_loop-size : (fuel : ℕ) (q : Heap) → size q ≤ fuel → size (clear_loop lib fuel q) ≡ 0
  unfolding clear_loop queue_empty
  clear_loop-size zero q h = omega arith
  clear_loop-size (suc fuel) q h = elim (Bool-cases (size q == 0)) [
    | inl e ↦ rw (e, clear_loop) (ground arith)
    | inr e ↦ rw (e, clear_loop) (clear_loop-size fuel (pop q) (ground (arith, lib.size-pop q)))
  ]

  -- `clear` ends, and leaves no message.
  pub queue_clear-contents : (q : Heap) → contents (queue_clear lib q) ≡ []
  unfolding queue_clear
  queue_clear-contents q = contents-empty_of_size _ (clear_loop-size (size q) q (omega arith))
