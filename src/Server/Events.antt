-- ===== src/Server/Events.antt =====
-- gateway/src/EpollServer.cpp, loop: its rounds, each over the events that `epoll_wait` gives. What the sockets give in an event
-- comes with the event, and the clocks with what is read or accepted. The metrics and the load of the registry are left out.
pub mod Total
use distributed_im.Common.{ℕ, Bool, List, [], ◌∷◌, Option, none, some, if◌then◌else◌}
use distributed_im.Json.{JsonLibrary}
use distributed_im.Priority.{HeapLibrary}
use distributed_im.Redis.{RedisServer}
use distributed_im.Server.{Kernel}
use distributed_im.Server.Send.{Gateway, handle_write}
use distributed_im.Server.Handlers.{handle_accept}
use distributed_im.Server.Control.{finish_round}
use distributed_im.Server.Read.{
  Received, ReadEnd, Outcome, goes_on, returns, dangling, starved, after, Setup,
}
use distributed_im.Server.Read.Loop.{handle_read}

-- The listening socket, with what `accept` gives, or a client, with what it gives to read when it is readable, and whether
-- it is writable.
pub data Event : Type 0 where
  incoming : Option ℕ → Bool → ℕ → ℕ → Event
  client_ready : ℕ → Option (List Received × ReadEnd) → Bool → Event

-- What a round finds: the events, `none` when `epoll_wait` gives -1, with the time and the timeout in seconds. `fuel`
-- is that of the offline messages.
pub record Round : Type 0 where
  pub fuel : ℕ
  pub now : ℕ
  pub timeout : ℕ
  pub events : Option (List Event)

module _ {S : Type 0} where
  -- The loop goes on behind a handler that returns.
  unfoldable pub resume : Outcome S → Outcome S
  resume (goes_on s) = goes_on s
  resume (returns s) = goes_on s
  resume dangling = dangling
  resume starved = starved

module _ (kernel : Kernel) (redis : RedisServer) (heap : HeapLibrary) (json : JsonLibrary)
    (setup : Setup) where
  unfoldable pub read_ready :
      ℕ
      → Option (List Received × ReadEnd)
      → Gateway kernel redis heap
      → Outcome (Gateway kernel redis heap)
  unfolding resume handle_read
  read_ready fd none s = goes_on s
  read_ready fd (some (rs, end)) s = resume (handle_read kernel redis heap json setup rs end fd s)

  unfoldable pub write_ready :
      ℕ → Bool → Gateway kernel redis heap → Outcome (Gateway kernel redis heap)
  unfolding handle_write
  write_ready fd writable s = goes_on (if writable then handle_write kernel redis heap fd s else s)

  unfoldable pub handle_event :
      Event → Gateway kernel redis heap → Outcome (Gateway kernel redis heap)
  unfolding handle_accept after read_ready write_ready
  handle_event (incoming accepted unblocked now clock) s =
      goes_on (handle_accept kernel redis heap accepted unblocked now clock s)
  handle_event (client_ready fd readable writable) s =
      after (write_ready fd writable) (read_ready fd readable s)

  unfoldable pub handle_events :
      List Event → Gateway kernel redis heap → Outcome (Gateway kernel redis heap)
  unfolding after handle_event
  handle_events [] s = goes_on s
  handle_events (e ∷ es) s = after (handle_events es) (handle_event e s)

  -- `fuel` is that of the offline messages; `now` and `timeout` are in seconds.
  unfoldable pub server_round :
      ℕ → ℕ → ℕ → List Event → Gateway kernel redis heap → Outcome (Gateway kernel redis heap)
  unfolding after handle_events finish_round
  server_round fuel now timeout es s =
      after (λ s1. goes_on (finish_round kernel redis heap fuel now timeout s1))
        (handle_events es s)

  unfoldable pub one_round : Round → Gateway kernel redis heap → Outcome (Gateway kernel redis heap)
  unfolding server_round
  one_round r s = elim r.events [
    | none ↦ goes_on s
    | some es ↦ server_round r.fuel r.now r.timeout es s
  ]

  -- The loop has no end of its own: it is run for as many rounds as there are.
  unfoldable pub loop : List Round → Gateway kernel redis heap → Outcome (Gateway kernel redis heap)
  unfolding after one_round
  loop [] s = goes_on s
  loop (r ∷ rs) s = after (loop rs) (one_round r s)
