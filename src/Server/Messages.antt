-- ===== src/Server/Messages.antt =====
-- gateway/src/EpollServer.cpp, registerHandlers: chat, send, ack, react, ping and who.
use distributed_im.Common.{
  ℕ, zero, Bool, false, ◌||◌, List, [], ◌∷◌, ◌++◌, Bytes, is_empty, ite, ◌==◌, if◌then◌else◌, map,
}
use distributed_im.Common.Assoc.{bytes_discrete}
use distributed_im.Common.Decimal.{ℤ, pos, negsuc}
use distributed_im.Common.Text.{codes}
use distributed_im.Json.{JsonLibrary, Members, text, texts, number, get_json_string}
use distributed_im.Ack.{track_message, acknowledge_message}
use distributed_im.Priority.{MessagePriority, normal, bulk, HeapLibrary}
use distributed_im.Redis.{RedisServer}
use distributed_im.Redis.Users.{get_all_online_users, get_user_gateway}
use distributed_im.Redis.Queues.{push_message}
use distributed_im.Server.{Kernel}
use distributed_im.Server.Send.{Gateway, send_to_user}
use distributed_im.Server.Handlers.{get_user_fds}

-- `dump() + "\n"`.
unfoldable pub dump_line : JsonLibrary → Members → Bytes
dump_line json members = json.dump members ++ (10 ∷ [])

abbrev pub error_reply : Bytes → Members
error_reply reason = (codes "type", text (codes "error")) ∷ (codes "msg", text reason) ∷ []

-- `if (!value.empty()) sendJson[key] = value`.
unfoldable pub optional : Bytes → Bytes → Members
optional key value = if is_empty value then [] else (key, text value) ∷ []

-- `gateway == gateway_id_`, of an `int` that may be -1.
unfoldable pub is_gateway : ℕ → ℤ → Bool
is_gateway id (pos n) = n == id
is_gateway id (negsuc n) = false

unfoldable pub chat_members : ℕ → Bytes → Bytes → Bytes → Bytes → Members
unfolding optional
chat_members now username content msg_id reply_to =
    (codes "type", text (codes "chat"))
    ∷ (codes "from", text username)
    ∷ (codes "msg", text content)
    ∷ (codes "timestamp", number now)
    ∷ (optional (codes "msg_id") msg_id ++ optional (codes "reply_to") reply_to)

unfoldable pub send_members : ℕ → Bytes → Bytes → Bytes → Bytes → Bytes → Members
unfolding optional
send_members now username target content msg_id reply_to =
    (codes "type", text (codes "send"))
    ∷ (codes "from", text username)
    ∷ (codes "to", text target)
    ∷ (codes "msg", text content)
    ∷ (codes "timestamp", number now)
    ∷ (optional (codes "msg_id") msg_id ++ optional (codes "reply_to") reply_to)

abbrev pub reaction_members : ℕ → Bytes → Bytes → Bytes → Members
reaction_members now username msg_id emoji =
    (codes "type", text (codes "reaction"))
    ∷ (codes "from", text username)
    ∷ (codes "msg_id", text msg_id)
    ∷ (codes "emoji", text emoji)
    ∷ (codes "timestamp", number now)
    ∷ []

module _ (kernel : Kernel) (redis : RedisServer) (heap : HeapLibrary) (json : JsonLibrary) where
  abbrev read : Bytes → Bytes → Bytes
  read msg key = get_json_string json msg key

  abbrev pub refuse : Bytes → Gateway kernel redis heap → Bytes × Gateway kernel redis heap
  refuse reason s = (dump_line json (error_reply reason), s)

  -- A message to a user who is at this gateway, or at another.
  unfoldable pub route :
      Bytes → ℤ → Bytes → MessagePriority → Gateway kernel redis heap → Gateway kernel redis heap
  unfolding is_gateway send_to_user
  route name at msg priority s =
      if is_gateway s.gateway_id at
      then send_to_user kernel redis heap name msg priority s
      else record s { redis = (push_message redis name msg s.redis).1 }

  unfoldable pub chat_each :
      Bytes → Bytes → List (Bytes × ℤ) → Gateway kernel redis heap → Gateway kernel redis heap
  unfolding route
  chat_each username msg [] s = s
  chat_each username msg ((name, at) ∷ users) s =
      chat_each username msg users (ite (bytes_discrete name username) s (route name at msg bulk s))

  -- `order` is that of the map of the online users.
  unfoldable pub on_chat :
      (List Bytes → List Bytes)
      → ℕ
      → Bytes
      → Bytes
      → Gateway kernel redis heap
      → Bytes × Gateway kernel redis heap
  unfolding chat_each chat_members dump_line get_json_string
  on_chat order now msg username s =
      let content = read msg (codes "msg") in
      let members =
        chat_members now username content (read msg (codes "msg_id"))
          (read msg (codes "reply_to")) in
      let (users, r) = get_all_online_users redis order s.redis in
      if is_empty username
      then refuse (codes "please login first") s
      else if is_empty content
      then ([], s)
      else ([], chat_each username (dump_line json members) users (record s { redis = r }))

  unfoldable pub track_each :
      ℕ → Bytes → Bytes → Bytes → List ℕ → Gateway kernel redis heap → Gateway kernel redis heap
  track_each now msg_id target msg [] s = s
  track_each now msg_id target msg (fd ∷ fds) s =
      track_each now msg_id target msg fds
        (record s { ack_tracker = track_message msg_id target msg fd now s.ack_tracker })

  -- A private message to a user at this gateway, with its tracking.
  unfoldable pub deliver_here :
      ℕ → Bytes → Bytes → Bytes → Gateway kernel redis heap → Gateway kernel redis heap
  unfolding track_each send_to_user get_user_fds
  deliver_here now msg_id target msg s =
      let s1 = send_to_user kernel redis heap target msg normal s in
      if is_empty msg_id
      then s1
      else track_each now msg_id target msg (get_user_fds kernel redis heap target s1) s1

  unfoldable pub deliver_private :
      ℕ → Bytes → Bytes → Bytes → ℤ → Gateway kernel redis heap → Bytes × Gateway kernel redis heap
  unfolding deliver_here is_gateway dump_line
  deliver_private now msg_id target msg (negsuc zero) s = refuse (codes "user not found") s
  deliver_private now msg_id target msg at s = (
    [],
    (if is_gateway s.gateway_id at
        then deliver_here now msg_id target msg s
        else record s { redis = (push_message redis target msg s.redis).1 }),
  )

  unfoldable pub on_send :
      ℕ → Bytes → Bytes → Gateway kernel redis heap → Bytes × Gateway kernel redis heap
  unfolding deliver_private send_members dump_line get_json_string
  on_send now msg username s =
      let target = read msg (codes "to") in
      let content = read msg (codes "msg") in
      let msg_id = read msg (codes "msg_id") in
      let reply_to = read msg (codes "reply_to") in
      let (at, r) = get_user_gateway redis target s.redis in
      let out = dump_line json (send_members now username target content msg_id reply_to) in
      if is_empty username
      then refuse (codes "please login first") s
      else if is_empty target || is_empty content
      then ([], s)
      else deliver_private now msg_id target out at (record s { redis = r })

  unfoldable pub on_ack :
      Bytes → Bytes → Gateway kernel redis heap → Bytes × Gateway kernel redis heap
  unfolding get_json_string
  on_ack msg username s =
      let msg_id = read msg (codes "msg_id") in
      let left = (acknowledge_message msg_id s.ack_tracker).1 in
      if is_empty msg_id then ([], s) else ([], record s { ack_tracker = left })

  unfoldable pub on_react :
      ℕ → Bytes → Bytes → Gateway kernel redis heap → Bytes × Gateway kernel redis heap
  unfolding send_to_user dump_line get_json_string
  on_react now msg username s =
      let target = read msg (codes "to") in
      let members =
        reaction_members now username (read msg (codes "msg_id")) (read msg (codes "emoji")) in
      if is_empty username || is_empty target
      then ([], s)
      else ([], send_to_user kernel redis heap target (dump_line json members) normal s)

  unfoldable pub on_ping :
      ℕ → Bytes → Bytes → Gateway kernel redis heap → Bytes × Gateway kernel redis heap
  unfolding dump_line
  on_ping now msg username s = (
    dump_line json ((codes "type", text (codes "pong")) ∷ (codes "timestamp", number now) ∷ []),
    s,
  )

  unfoldable pub on_who :
      (List Bytes → List Bytes)
      → Bytes
      → Bytes
      → Gateway kernel redis heap
      → Bytes × Gateway kernel redis heap
  unfolding dump_line
  on_who order msg username s =
      let (users, r) = get_all_online_users redis order s.redis in
      let members =
        (codes "type", text (codes "who")) ∷ (codes "users", texts (map (λ u. u.0) users)) ∷ [] in
      (dump_line json members, record s { redis = r })
