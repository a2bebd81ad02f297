-- ===== src/Priority.antt =====
-- gateway/include/PriorityQueue.h and gateway/src/PriorityQueue.cpp: messages in three priorities. The
-- heap is `std::priority_queue`, which is taken as a parameter with its documented contract.
pub mod Drain
use mathlib.Core.List.{Perm, Mem}
use distributed_im.Common.{
  ℕ, zero, suc, ◌≤◌, ◌<◌, ◌≡◌, Bool, true, false, List, [], ◌∷◌, Option, none, some, Bytes, length,
  ltb, ◌==◌, if◌then◌else◌,
}

pub data MessagePriority : Type 0 where
  urgent normal bulk : MessagePriority

-- `static_cast<uint8_t>(priority)`.
unfoldable pub rank : MessagePriority → ℕ
rank urgent = 0
rank normal = 1
rank bulk = 2

pub record PriorityMessage : Type 0 where
  pub content : Bytes
  pub target_fd : ℕ
  pub priority : MessagePriority

-- `operator<`: the smaller number is the greater element.
unfoldable pub less : PriorityMessage → PriorityMessage → Bool
unfolding rank
less a b = ltb (rank b.priority) (rank a.priority)

-- `std::priority_queue<PriorityMessage>`: `contents` lists the elements in any order, and `top` and `pop`
-- are about an element than which none is greater.
pub record HeapLibrary : Type 1 where
  pub Heap : Type 0
  pub empty : Heap
  pub push : PriorityMessage → Heap → Heap
  pub top : Heap → PriorityMessage
  pub pop : Heap → Heap
  pub size : Heap → ℕ
  pub contents : Heap → List PriorityMessage
  pub contents-empty : contents empty ≡ []
  pub contents-push : (x : PriorityMessage) (q : Heap) → Perm (contents (push x q)) (x ∷ contents q)
  pub contents-pop : (q : Heap) → 0 < size q → Perm (contents q) (top q ∷ contents (pop q))
  pub top-greatest :
      (q : Heap) → 0 < size q → (y : PriorityMessage) → Mem y (contents q) → less (top q) y ≡ false
  pub size-length : (q : Heap) → size q ≡ length (contents q)
  pub size-pop : (q : Heap) → 0 < size q → size q ≡ suc (size (pop q))

module _ (lib : HeapLibrary) where
  open lib use {Heap, empty, push, top, pop, size}

  unfoldable pub queue_push : Bytes → ℕ → MessagePriority → Heap → Heap
  queue_push content target_fd priority q =
      push (record { content = content; target_fd = target_fd; priority = priority }) q

  unfoldable pub queue_empty : Heap → Bool
  queue_empty q = size q == 0

  -- `none` is the message with `target_fd = -1`.
  unfoldable pub queue_pop : Heap → Option PriorityMessage × Heap
  queue_pop q = if size q == 0 then (none, q) else (some (top q), pop q)

  unfoldable pub queue_top : Heap → Option PriorityMessage
  queue_top q = if size q == 0 then none else some (top q)

  unfoldable pub queue_size : Heap → ℕ
  queue_size q = size q

  -- `while (!queue_.empty()) queue_.pop();` with fuel.
  unfoldable pub clear_loop : ℕ → Heap → Heap
  clear_loop zero q = q
  clear_loop (suc fuel) q = elim (queue_empty q) [ true ↦ q | false ↦ clear_loop fuel (pop q) ]

  unfoldable pub queue_clear : Heap → Heap
  unfolding clear_loop
  queue_clear q = clear_loop (size q) q
