-- ===== src/Tests/Priority.antt =====
-- The message queue over a heap that searches a list for its greatest element.
use mathlib.Core.List.{Perm, Mem, not-mem-nil, eq-or-mem_of_mem-cons}
use mathlib.Core.Logic.Or
use mathlib.Core.Path.{subst}
use mathlib.Core.List.Perm
use distributed_im.Common.{
  suc, ◌≤◌, ◌<◌, ◌≡◌, refl, sym, ap, false, inl, inr, List, [], ◌∷◌, length, if◌then◌else◌, arith,
  Bool-cases, All,
}
use distributed_im.Common.Text.{codes}
use distributed_im.Priority.{
  urgent, bulk, PriorityMessage, less, HeapLibrary, queue_push, queue_clear,
}
use distributed_im.Priority.Drain.{rank_of, queue_clear-contents}

-- The greatest element of `x ∷ q`, and the others.
unfoldable pub extract :
    PriorityMessage → List PriorityMessage → PriorityMessage × List PriorityMessage
extract x [] = (x, [])
extract x (y ∷ q) =
    let (best, others) = extract y q in
    if less x best then (best, x ∷ others) else (x, best ∷ others)

extract-Perm :
    (x : PriorityMessage) (q : List PriorityMessage)
    → Perm (x ∷ q) ((extract x q).0 ∷ (extract x q).1)
unfolding extract
extract-Perm x [] = Perm.refl (x ∷ [])
extract-Perm x (y ∷ q) = elim (Bool-cases (less x (extract y q).0)) [
  | inl h ↦ rw h (Perm.trans (Perm.cons x (extract-Perm y q)) (Perm.swap _ _ _))
  | inr h ↦ rw h (Perm.cons x (extract-Perm y q))
]

All-ge :
    (a b : PriorityMessage) (l : List PriorityMessage)
    → rank_of a ≤ rank_of b
    → All (λ z. rank_of b ≤ rank_of z) l
    → All (λ z. rank_of a ≤ rank_of z) l
All-ge a b [] h k = tt
All-ge a b (z ∷ l) h k = (omega (arith, k.0), All-ge a b l h k.1)

extract-All :
    (x : PriorityMessage) (q : List PriorityMessage)
    → All (λ z. rank_of (extract x q).0 ≤ rank_of z) (extract x q).1
unfolding extract less
extract-All x [] = tt
extract-All x (y ∷ q) = elim (Bool-cases (less x (extract y q).0)) [
  | inl h ↦ rw h (ground arith, extract-All y q)
  | inr h ↦
      let first : rank_of x ≤ rank_of (extract y q).0 = ground arith in
      rw h (first, All-ge x (extract y q).0 (extract y q).1 first (extract-All y q))
]

All-Mem :
    (best : PriorityMessage) (l : List PriorityMessage)
    → All (λ z. rank_of best ≤ rank_of z) l
    → (y : PriorityMessage) → Mem y l
    → less best y ≡ false
unfolding less
All-Mem best [] h y m = absurd (not-mem-nil m)
All-Mem best (z ∷ l) h y m =
    Or.elim (hlevel) (eq-or-mem_of_mem-cons m)
      (λ e. subst (λ v. less best v ≡ false) (sym e) (let first = h.0 in ground arith))
      (λ later. All-Mem best l h.1 y later)

abbrev nobody : PriorityMessage
nobody = record { content = []; target_fd = 0; priority = bulk }

pub list_top : List PriorityMessage → PriorityMessage
list_top [] = nobody
list_top (x ∷ q) = (extract x q).0

pub list_pop : List PriorityMessage → List PriorityMessage
list_pop [] = []
list_pop (x ∷ q) = (extract x q).1

pub list_pop-Perm : (q : List PriorityMessage) → 0 < length q → Perm q (list_top q ∷ list_pop q)
unfolding list_top list_pop
list_pop-Perm [] h = absurd (omega arith)
list_pop-Perm (x ∷ q) h = extract-Perm x q

pub list_top-greatest :
    (q : List PriorityMessage)
    → 0 < length q
    → (y : PriorityMessage) → Mem y q
    → less (list_top q) y ≡ false
unfolding list_top
list_top-greatest [] h y m = absurd (omega arith)
list_top-greatest (x ∷ q) h y m =
    All-Mem (extract x q).0 ((extract x q).0 ∷ (extract x q).1) (omega arith, extract-All x q) y
      ((Perm.mem_iff (extract-Perm x q)).0 m)

extract-length :
    (x : PriorityMessage) (q : List PriorityMessage) → length (extract x q).1 ≡ length q
unfolding extract
extract-length x [] = refl
extract-length x (y ∷ q) = elim (Bool-cases (less x (extract y q).0)) [
  | inl h ↦ rw h (ap suc (extract-length y q))
  | inr h ↦ rw h (ap suc (extract-length y q))
]

pub list_pop-length :
    (q : List PriorityMessage) → 0 < length q → length q ≡ suc (length (list_pop q))
unfolding list_pop
list_pop-length [] h = absurd (omega arith)
list_pop-length (x ∷ q) h = ap suc (sym (extract-length x q))

abbrev pub list_heap : HeapLibrary
list_heap = record {
  Heap = List PriorityMessage;
  empty = [];
  push = ◌∷◌;
  top = list_top;
  pop = list_pop;
  size = length;
  contents = λ q. q;
  contents-empty = refl;
  contents-push = λ x q. Perm.refl (x ∷ q);
  contents-pop = list_pop-Perm;
  top-greatest = list_top-greatest;
  size-length = λ q. refl;
  size-pop = list_pop-length;
}

abbrev pub two_queued : List PriorityMessage
two_queued =
    queue_push list_heap (codes "now") 4 urgent (queue_push list_heap (codes "later") 5 bulk [])

queue_clear-contents_example : queue_clear list_heap two_queued ≡ []
queue_clear-contents_example = queue_clear-contents list_heap two_queued
