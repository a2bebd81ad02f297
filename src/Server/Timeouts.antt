-- ===== src/Server/Timeouts.antt =====
-- checkTimeouts disconnects the idle connections, and no other.
use mathlib.Core.Path.{subst}
use distributed_im.Common.{
  ℕ, ◌-◌, ◌≡◌, refl, ◌∙◌, true, false, Bool, List, [], ◌∷◌, Option, none, some, ltb, arith, ite,
  if_pos, if_neg, if◌then◌else◌,
}
use distributed_im.Common.Assoc.{find, ℕ_discrete, NodupKeys}
use distributed_im.Priority.{HeapLibrary}
use distributed_im.Redis.{RedisServer}
use distributed_im.Server.{Connection, Kernel}
use distributed_im.Server.Send.{Gateway, disconnect_client}
use distributed_im.Server.Delivery.{disconnect_client-find}
use distributed_im.Server.Untouched.{disconnect_client-SameButAt}
use distributed_im.Server.Handlers.{timed_out_fds, disconnect_each, check_timeouts}

is_listed : ℕ → List ℕ → Bool
is_listed fd [] = false
is_listed fd (x ∷ fds) = ite (ℕ_discrete x fd) true (is_listed fd fds)

abbrev pub is_idle : ℕ → ℕ → Connection → Bool
is_idle now timeout conn = ltb timeout (now - conn.last_active)

-- The connection, unless it is idle.
abbrev pub active : ℕ → ℕ → Option Connection → Option Connection
active now timeout none = none
active now timeout (some c) = if is_idle now timeout c then none else some c

abbrev idle_at : ℕ → ℕ → Option Connection → Bool
idle_at now timeout none = false
idle_at now timeout (some c) = is_idle now timeout c

absent_unlisted :
    (now timeout fd : ℕ) (m : List (ℕ × Connection))
    → find ℕ_discrete fd m ≡ none
    → is_listed fd (timed_out_fds now timeout m) ≡ false
unfolding find timed_out_fds is_listed
absent_unlisted now timeout fd [] h = refl
absent_unlisted now timeout fd ((j, c) ∷ m) h = elim (ℕ_discrete j fd) [
  | yes same ↦ absurd (cc (rw (if_pos _ same) at h))
  | no other ↦ ground (arith, absent_unlisted now timeout fd m)
]

listed_idle :
    (now timeout fd : ℕ) (m : List (ℕ × Connection))
    → NodupKeys ℕ_discrete m
    → is_listed fd (timed_out_fds now timeout m) ≡ idle_at now timeout (find ℕ_discrete fd m)
unfolding find timed_out_fds is_listed
listed_idle now timeout fd [] n = refl
listed_idle now timeout fd ((j, c) ∷ m) n =
    ground (arith, absent_unlisted now timeout j m n.0, listed_idle now timeout fd m n.1)

active_lem :
    (now timeout : ℕ) (o : Option Connection)
    → (if idle_at now timeout o then none else o) ≡ active now timeout o
active_lem now timeout none = refl
active_lem now timeout (some c) = refl

module _ (kernel : Kernel) (redis : RedisServer) (heap : HeapLibrary) where
  disconnect_each_absent :
      (fd : ℕ) (fds : List ℕ) (s : Gateway kernel redis heap)
      → find ℕ_discrete fd s.connections ≡ none
      → find ℕ_discrete fd (disconnect_each kernel redis heap fds s).connections ≡ none
  unfolding disconnect_each
  disconnect_each_absent fd [] s h = h
  disconnect_each_absent fd (x ∷ fds) s h =
      let s1 = disconnect_client kernel redis heap x s in
      disconnect_each_absent fd fds s1 (elim (ℕ_discrete x fd) [
        | yes same ↦
            subst (λ y. find ℕ_discrete y s1.connections ≡ none) same
              (disconnect_client-find kernel redis heap x s)
        | no other ↦ (disconnect_client-SameButAt kernel redis heap x s).2 fd other ∙ h
      ])

  disconnect_each-find :
      (fd : ℕ) (fds : List ℕ) (s : Gateway kernel redis heap)
      → find ℕ_discrete fd (disconnect_each kernel redis heap fds s).connections
        ≡ (if is_listed fd fds then none else find ℕ_discrete fd s.connections)
  unfolding disconnect_each is_listed
  disconnect_each-find fd [] s = refl
  disconnect_each-find fd (x ∷ fds) s =
      let s1 = disconnect_client kernel redis heap x s in
      elim (ℕ_discrete x fd) [
        | yes same ↦ rw (if_pos _ same) (
            disconnect_each_absent fd fds s1 (
              subst (λ y. find ℕ_discrete y s1.connections ≡ none) same
                (disconnect_client-find kernel redis heap x s)))
        | no other ↦ rw (if_neg _ other) (
            disconnect_each-find fd fds s1
            ∙ rw ((disconnect_client-SameButAt kernel redis heap x s).2 fd other))
      ]

  -- With each descriptor once in the map, a timeout check removes the connections that were idle for longer
  -- than `timeout` seconds and leaves every other connection as it is.
  pub check_timeouts_lem :
      (now timeout fd : ℕ) (s : Gateway kernel redis heap)
      → NodupKeys ℕ_discrete s.connections
      → find ℕ_discrete fd (check_timeouts kernel redis heap now timeout s).connections
        ≡ active now timeout (find ℕ_discrete fd s.connections)
  unfolding check_timeouts
  check_timeouts_lem now timeout fd s n =
      disconnect_each-find fd (timed_out_fds now timeout s.connections) s
      ∙ rw (listed_idle now timeout fd s.connections n)
          (active_lem now timeout (find ℕ_discrete fd s.connections))
