-- ===== src/Server/Isolation/Replies.antt =====
-- The handlers change no connection: what they send goes into the queue.
use distributed_im.Common.{
  ℕ, zero, suc, ap, ite, if_pos, if_neg, ◌≡◌, ◌∙◌, refl, inl, inr, ◌||◌, List, [], ◌∷◌, Bytes,
  is_empty, Option-cases, Bool-cases,
}
use distributed_im.Common.Assoc.{find, bytes_discrete}
use distributed_im.Common.Decimal.{ℤ, pos, negsuc}
use distributed_im.Common.Text.{codes}
use distributed_im.Json.{JsonLibrary, get_json_string}
use distributed_im.Priority.{MessagePriority, normal, bulk, HeapLibrary}
use distributed_im.Server.Handlers.{get_user_fds}
use distributed_im.Redis.{RedisServer}
use distributed_im.Redis.Users.{get_user_gateway}
use distributed_im.Group.{create_group, join_group, is_member}
use distributed_im.Server.{Kernel}
use distributed_im.Server.Send.{Gateway, send_to_user}
use distributed_im.Server.Messages.{
  is_gateway, route, chat_each, on_chat, track_each, deliver_here, deliver_private, on_send, on_ack,
  on_react, on_ping, on_who,
}
use distributed_im.Server.GroupMessages.{
  tell_others, on_group_create, on_group_join, on_group_leave, on_group_send,
}

module _ (kernel : Kernel) (redis : RedisServer) (heap : HeapLibrary) (json : JsonLibrary) where
  abbrev pub SameConnections : Gateway kernel redis heap → Gateway kernel redis heap → Type 0
  SameConnections s s' = s'.connections ≡ s.connections

  pub send_to_user-connections :
      (name msg : Bytes) (priority : MessagePriority) (s : Gateway kernel redis heap)
      → SameConnections s (send_to_user kernel redis heap name msg priority s)
  unfolding send_to_user
  send_to_user-connections name msg priority s =
      elim (Option-cases (find bytes_discrete name s.user_map)) [
        | inl e ↦ rw (e, send_to_user) refl
        | inr (fds, e) ↦ rw (e, send_to_user) refl
      ]

  route-connections :
      (name : Bytes) (at : ℤ) (msg : Bytes) (priority : MessagePriority)
      (s : Gateway kernel redis heap)
      → SameConnections s (route kernel redis heap json name at msg priority s)
  unfolding route
  route-connections name at msg priority s = elim (Bool-cases (is_gateway s.gateway_id at)) [
    | inl e ↦ rw (e, route) (send_to_user-connections name msg priority s)
    | inr e ↦ rw (e, route) refl
  ]

  ite-connections :
      {P : Type 0} (d : Dec P) (s a b : Gateway kernel redis heap)
      → SameConnections s a
      → SameConnections s b
      → SameConnections s (ite d a b)
  ite-connections (yes p) s a b ha hb =
      ap (λ (g : Gateway kernel redis heap). g.connections) (if_pos (yes p) p a b) ∙ ha
  ite-connections (no n) s a b ha hb =
      ap (λ (g : Gateway kernel redis heap). g.connections) (if_neg (no n) n a b) ∙ hb

  chat_each-connections :
      (username msg : Bytes) (users : List (Bytes × ℤ)) (s : Gateway kernel redis heap)
      → SameConnections s (chat_each kernel redis heap json username msg users s)
  unfolding chat_each
  chat_each-connections username msg [] s = refl
  chat_each-connections username msg ((name, at) ∷ users) s =
      let sent = route kernel redis heap json name at msg bulk s in
      let d = bytes_discrete name username in
      chat_each-connections username msg users (ite d s sent)
      ∙ ite-connections d s s sent refl (route-connections name at msg bulk s)

  tell_others-connections :
      (username msg : Bytes) (priority : MessagePriority) (members : List Bytes)
      (s : Gateway kernel redis heap)
      → SameConnections s (tell_others kernel redis heap json username msg priority members s)
  unfolding tell_others
  tell_others-connections username msg priority [] s = refl
  tell_others-connections username msg priority (member ∷ members) s =
      let sent = send_to_user kernel redis heap member msg priority s in
      let d = bytes_discrete member username in
      tell_others-connections username msg priority members (ite d s sent)
      ∙ ite-connections d s s sent refl (send_to_user-connections member msg priority s)

  track_each-connections :
      (now : ℕ) (msg_id target msg : Bytes) (fds : List ℕ) (s : Gateway kernel redis heap)
      → SameConnections s (track_each kernel redis heap json now msg_id target msg fds s)
  unfolding track_each
  track_each-connections now msg_id target msg [] s = refl
  track_each-connections now msg_id target msg (fd ∷ fds) s =
      track_each-connections now msg_id target msg fds _

  deliver_here-connections :
      (now : ℕ) (msg_id target msg : Bytes) (s : Gateway kernel redis heap)
      → SameConnections s (deliver_here kernel redis heap json now msg_id target msg s)
  unfolding deliver_here
  deliver_here-connections now msg_id target msg s =
      let s1 = send_to_user kernel redis heap target msg normal s in
      elim (Bool-cases (is_empty msg_id)) [
        | inl e ↦ rw (e, deliver_here) (send_to_user-connections target msg normal s)
        | inr e ↦
            rw (e, deliver_here)
              (track_each-connections now msg_id target msg
                  (get_user_fds kernel redis heap target s1) s1
                ∙ send_to_user-connections target msg normal s)
      ]

  deliver_private-connections :
      (now : ℕ) (msg_id target msg : Bytes) (at : ℤ) (s : Gateway kernel redis heap)
      → SameConnections s (deliver_private kernel redis heap json now msg_id target msg at s).1
  unfolding deliver_private
  deliver_private-connections now msg_id target msg (negsuc zero) s = refl
  deliver_private-connections now msg_id target msg (negsuc (suc n)) s = refl
  deliver_private-connections now msg_id target msg (pos n) s =
      elim (Bool-cases (is_gateway s.gateway_id (pos n))) [
        | inl e ↦ rw (e, deliver_private) (deliver_here-connections now msg_id target msg s)
        | inr e ↦ rw (e, deliver_private) refl
      ]

  pub on_chat-connections :
      (order : List Bytes → List Bytes) (now : ℕ) (msg username : Bytes)
      (s : Gateway kernel redis heap)
      → SameConnections s (on_chat kernel redis heap json order now msg username s).1
  unfolding on_chat
  on_chat-connections order now msg username s = elim (Bool-cases (is_empty username)) [
    | inl e ↦ rw (e, on_chat) refl
    | inr e ↦ elim (Bool-cases (is_empty (get_json_string json msg (codes "msg")))) [
      | inl f ↦ rw (e, f, on_chat) refl
      | inr f ↦ rw (e, f, on_chat) (search chat_each-connections)
    ]
  ]

  pub on_send-connections :
      (now : ℕ) (msg username : Bytes) (s : Gateway kernel redis heap)
      → SameConnections s (on_send kernel redis heap json now msg username s).1
  unfolding on_send
  on_send-connections now msg username s =
      let target = get_json_string json msg (codes "to") in
      let content = get_json_string json msg (codes "msg") in
      elim (Bool-cases (is_empty username)) [
        | inl e ↦ rw (e, on_send) refl
        | inr e ↦ elim (Bool-cases (is_empty target || is_empty content)) [
          | inl f ↦ rw (e, f, on_send) refl
          | inr f ↦
              rw (e, f, on_send)
                (deliver_private-connections now _ target _
                  (get_user_gateway redis target s.redis).0 _)
        ]
      ]

  pub on_ack-connections :
      (msg username : Bytes) (s : Gateway kernel redis heap)
      → SameConnections s (on_ack kernel redis heap json msg username s).1
  unfolding on_ack
  on_ack-connections msg username s =
      elim (Bool-cases (is_empty (get_json_string json msg (codes "msg_id")))) [
        | inl e ↦ rw (e, on_ack) refl
        | inr e ↦ rw (e, on_ack) refl
      ]

  pub on_react-connections :
      (now : ℕ) (msg username : Bytes) (s : Gateway kernel redis heap)
      → SameConnections s (on_react kernel redis heap json now msg username s).1
  unfolding on_react
  on_react-connections now msg username s =
      let target = get_json_string json msg (codes "to") in
      elim (Bool-cases (is_empty username || is_empty target)) [
        | inl e ↦ rw (e, on_react) refl
        | inr e ↦ rw (e, on_react) (send_to_user-connections target _ _ s)
      ]

  pub on_ping-connections :
      (now : ℕ) (msg username : Bytes) (s : Gateway kernel redis heap)
      → SameConnections s (on_ping kernel redis heap json now msg username s).1
  unfolding on_ping
  on_ping-connections now msg username s = refl

  pub on_who-connections :
      (order : List Bytes → List Bytes) (msg username : Bytes) (s : Gateway kernel redis heap)
      → SameConnections s (on_who kernel redis heap json order msg username s).1
  unfolding on_who
  on_who-connections order msg username s = refl

  pub on_group_create-connections :
      (now : ℕ) (msg username : Bytes) (s : Gateway kernel redis heap)
      → SameConnections s (on_group_create kernel redis heap json now msg username s).1
  unfolding on_group_create
  on_group_create-connections now msg username s =
      let name = get_json_string json msg (codes "name") in
      elim (Bool-cases (is_empty username)) [
        | inl e ↦ rw (e, on_group_create) refl
        | inr e ↦ elim (Bool-cases (is_empty (create_group redis name username now s.redis).0)) [
          | inl f ↦ rw (e, f, on_group_create) refl
          | inr f ↦ rw (e, f, on_group_create) refl
        ]
      ]

  pub on_group_join-connections :
      (msg username : Bytes) (s : Gateway kernel redis heap)
      → SameConnections s (on_group_join kernel redis heap json msg username s).1
  unfolding on_group_join
  on_group_join-connections msg username s =
      let group_id = get_json_string json msg (codes "group_id") in
      elim (Bool-cases (is_empty username)) [
        | inl e ↦ rw (e, on_group_join) refl
        | inr e ↦ elim (Bool-cases (join_group redis group_id username s.redis).0) [
          | inl f ↦ rw (e, f, on_group_join) (search tell_others-connections)
          | inr f ↦ rw (e, f, on_group_join) refl
        ]
      ]

  pub on_group_leave-connections :
      (msg username : Bytes) (s : Gateway kernel redis heap)
      → SameConnections s (on_group_leave kernel redis heap json msg username s).1
  unfolding on_group_leave
  on_group_leave-connections msg username s = search tell_others-connections

  pub on_group_send-connections :
      (now : ℕ) (msg username : Bytes) (s : Gateway kernel redis heap)
      → SameConnections s (on_group_send kernel redis heap json now msg username s).1
  unfolding on_group_send
  on_group_send-connections now msg username s =
      let group_id = get_json_string json msg (codes "group_id") in
      elim (Bool-cases (is_empty username)) [
        | inl e ↦ rw (e, on_group_send) refl
        | inr e ↦ elim (Bool-cases (is_member redis group_id username s.redis).0) [
          | inl f ↦ rw (e, f, on_group_send) (search tell_others-connections)
          | inr f ↦ rw (e, f, on_group_send) refl
        ]
      ]
