-- ===== src/Server/Tracking.antt =====
-- Which device of a user a private message is tracked for.
use distributed_im.Common.{ℕ, ◌≡◌, refl, false, List, [], ◌∷◌, ◌++◌, some, Bytes, is_empty}
use distributed_im.Common.Assoc.{find, bytes_discrete, find-insert_self}
use distributed_im.Json.{JsonLibrary}
use distributed_im.Ack.{new_entry, track_message}
use distributed_im.Ack.Lookup.{lookup}
use distributed_im.Priority.{normal, HeapLibrary}
use distributed_im.Redis.{RedisServer}
use distributed_im.Server.{Kernel}
use distributed_im.Server.Send.{Gateway, push_each, send_to_user}
use distributed_im.Server.Handlers.{get_user_fds}
use distributed_im.Server.Messages.{track_each, deliver_here}

module _ (kernel : Kernel) (redis : RedisServer) (heap : HeapLibrary) (json : JsonLibrary) where
  track_each-lookup :
      (now : ℕ) (msg_id target msg : Bytes) (fds : List ℕ) (fd : ℕ) (s : Gateway kernel redis heap)
      → let s' = track_each kernel redis heap json now msg_id target msg (fds ++ (fd ∷ [])) s in
        (lookup msg_id s'.ack_tracker ≡ some (new_entry msg_id target msg fd now))
        × (s'.priority_q ≡ s.priority_q)
  unfolding track_each track_message
  track_each-lookup now msg_id target msg [] fd s =
      (find-insert_self bytes_discrete msg_id _ s.ack_tracker, refl)
  track_each-lookup now msg_id target msg (g ∷ fds) fd s =
      track_each-lookup now msg_id target msg fds fd _

  -- The bug of the devices: a private message with an identifier goes into the queue for every device of the user, and what
  -- is tracked under the identifier is the entry of the last device alone.
  pub deliver_here-last :
      (now : ℕ) (msg_id target msg : Bytes) (fds : List ℕ) (fd : ℕ) (s : Gateway kernel redis heap)
      → is_empty msg_id ≡ false
      → find bytes_discrete target s.user_map ≡ some (fds ++ (fd ∷ []))
      → let s' = deliver_here kernel redis heap json now msg_id target msg s in
        (lookup msg_id s'.ack_tracker ≡ some (new_entry msg_id target msg fd now))
        × (s'.priority_q ≡ push_each kernel redis heap msg normal (fds ++ (fd ∷ [])) s.priority_q)
  unfolding deliver_here send_to_user get_user_fds
  deliver_here-last now msg_id target msg fds fd s named e =
      rw (named, e, send_to_user, deliver_here, e, get_user_fds)
        (track_each-lookup now msg_id target msg fds fd _)
