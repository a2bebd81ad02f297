-- ===== src/Server/Events/Total.antt =====
-- A round of the loop ends.
use distributed_im.Common.{ℕ, List, [], ◌∷◌, Option, none, some}
use distributed_im.Json.{JsonLibrary}
use distributed_im.Priority.{HeapLibrary}
use distributed_im.Redis.{RedisServer}
use distributed_im.Server.{Kernel}
use distributed_im.Server.Send.{Gateway}
use distributed_im.Server.Read.{
  Received, ReadEnd, Outcome, goes_on, returns, dangling, starved, Setup,
}
use distributed_im.Server.Read.Lines.{Ends, goes_on-Ends, after-Ends}
use distributed_im.Server.Read.Total.{handle_read-Ends}
use distributed_im.Server.Events.{
  Event, incoming, client_ready, resume, read_ready, write_ready, handle_event, handle_events,
  server_round,
}

resume-Ends : {S : Type 0} (o : Outcome S) → Ends o → Ends (resume o)
unfolding resume
resume-Ends (goes_on s) h = h
resume-Ends (returns s) h = goes_on-Ends s
resume-Ends dangling h = h
resume-Ends starved h = h

module _ (kernel : Kernel) (redis : RedisServer) (heap : HeapLibrary) (json : JsonLibrary)
    (setup : Setup) where
  read_ready-Ends :
      (fd : ℕ) (readable : Option (List Received × ReadEnd)) (s : Gateway kernel redis heap)
      → Ends (read_ready kernel redis heap json setup fd readable s)
  unfolding read_ready
  read_ready-Ends fd none s = goes_on-Ends s
  read_ready-Ends fd (some (rs, end)) s =
      resume-Ends _ (handle_read-Ends kernel redis heap json setup rs end fd s)

  handle_event-Ends :
      (e : Event) (s : Gateway kernel redis heap)
      → Ends (handle_event kernel redis heap json setup e s)
  unfolding handle_event write_ready
  handle_event-Ends (incoming accepted unblocked now clock) s = goes_on-Ends _
  handle_event-Ends (client_ready fd readable writable) s =
      after-Ends _ _ (read_ready-Ends fd readable s) (λ s1. goes_on-Ends _)

  handle_events-Ends :
      (es : List Event) (s : Gateway kernel redis heap)
      → Ends (handle_events kernel redis heap json setup es s)
  unfolding handle_events
  handle_events-Ends [] s = goes_on-Ends s
  handle_events-Ends (e ∷ es) s = after-Ends _ _ (handle_event-Ends e s) (handle_events-Ends es)

  -- A round of the loop never needs more fuel for its reading than it has, whatever the events are and whatever the clients
  -- send: neither a line nor a frame is handled without taking bytes out of its buffer.
  pub server_round-Ends :
      (fuel now timeout : ℕ) (es : List Event) (s : Gateway kernel redis heap)
      → Ends (server_round kernel redis heap json setup fuel now timeout es s)
  unfolding server_round
  server_round-Ends fuel now timeout es s =
      after-Ends _ _ (handle_events-Ends es s) (λ s1. goes_on-Ends _)
