-- ===== src/Server/GroupMessages.antt =====
-- gateway/src/EpollServer.cpp, registerHandlers: the group handlers.
use distributed_im.Common.{ℕ, List, [], ◌∷◌, ◌++◌, Bytes, is_empty, ite, if◌then◌else◌}
use distributed_im.Common.Assoc.{bytes_discrete}
use distributed_im.Common.Text.{codes}
use distributed_im.Json.{JsonLibrary, Members, text, number, get_json_string}
use distributed_im.Priority.{MessagePriority, normal, bulk, HeapLibrary}
use distributed_im.Redis.{RedisServer}
use distributed_im.Group.{create_group, join_group, leave_group, get_members, is_member}
use distributed_im.Server.{Kernel}
use distributed_im.Server.Send.{Gateway, send_to_user}
use distributed_im.Server.Messages.{dump_line, optional, refuse}

abbrev pub group_event : Bytes → Bytes → Members
group_event type group_id = (codes "type", text type) ∷ (codes "group_id", text group_id) ∷ []

abbrev pub member_event : Bytes → Bytes → Bytes → Members
member_event type group_id username =
    group_event type group_id ++ ((codes "username", text username) ∷ [])

unfoldable pub group_members : ℕ → Bytes → Bytes → Bytes → Bytes → Members
unfolding optional
group_members now group_id username content msg_id =
    (codes "type", text (codes "group_send"))
    ∷ (codes "group_id", text group_id)
    ∷ (codes "from", text username)
    ∷ (codes "msg", text content)
    ∷ (codes "timestamp", number now)
    ∷ optional (codes "msg_id") msg_id

module _ (kernel : Kernel) (redis : RedisServer) (heap : HeapLibrary) (json : JsonLibrary) where
  abbrev read : Bytes → Bytes → Bytes
  read msg key = get_json_string json msg key

  abbrev no_login : Gateway kernel redis heap → Bytes × Gateway kernel redis heap
  no_login = refuse kernel redis heap json (codes "please login first")

  -- `sendToUser` to every member but the user.
  unfoldable pub tell_others :
      Bytes
      → Bytes
      → MessagePriority
      → List Bytes
      → Gateway kernel redis heap
      → Gateway kernel redis heap
  unfolding send_to_user
  tell_others username msg priority [] s = s
  tell_others username msg priority (member ∷ members) s =
      tell_others username msg priority members (
        ite (bytes_discrete member username) s
          (send_to_user kernel redis heap member msg priority s))

  unfoldable pub on_group_create :
      ℕ → Bytes → Bytes → Gateway kernel redis heap → Bytes × Gateway kernel redis heap
  unfolding dump_line get_json_string
  on_group_create now msg username s =
      let name = read msg (codes "name") in
      let (group_id, r) = create_group redis name username now s.redis in
      let s1 = record s { redis = r } in
      let reply =
        group_event (codes "group_created") group_id ++ ((codes "name", text name) ∷ []) in
      if is_empty username
      then no_login s
      else if is_empty group_id
      then refuse kernel redis heap json (codes "group create failed") s1
      else (dump_line json reply, s1)

  unfoldable pub on_group_join :
      Bytes → Bytes → Gateway kernel redis heap → Bytes × Gateway kernel redis heap
  unfolding tell_others dump_line get_json_string
  on_group_join msg username s =
      let group_id = read msg (codes "group_id") in
      let (joined, r) = join_group redis group_id username s.redis in
      let (members, r1) = get_members redis group_id r in
      let note = dump_line json (member_event (codes "group_join") group_id username) in
      if is_empty username
      then no_login s
      else if joined
      then (
        dump_line json (group_event (codes "group_joined") group_id),
        tell_others username note normal members (record s { redis = r1 }),
      )
      else refuse kernel redis heap json (codes "join failed") (record s { redis = r })

  unfoldable pub on_group_leave :
      Bytes → Bytes → Gateway kernel redis heap → Bytes × Gateway kernel redis heap
  unfolding tell_others dump_line get_json_string
  on_group_leave msg username s =
      let group_id = read msg (codes "group_id") in
      let r = (leave_group redis group_id username s.redis).1 in
      let (members, r1) = get_members redis group_id r in
      let note = dump_line json (member_event (codes "group_leave") group_id username) in
      ([], tell_others username note normal members (record s { redis = r1 }))

  unfoldable pub on_group_send :
      ℕ → Bytes → Bytes → Gateway kernel redis heap → Bytes × Gateway kernel redis heap
  unfolding tell_others dump_line group_members get_json_string
  on_group_send now msg username s =
      let group_id = read msg (codes "group_id") in
      let members =
        group_members now group_id username (read msg (codes "msg")) (read msg (codes "msg_id")) in
      let (inside, r) = is_member redis group_id username s.redis in
      let (others, r1) = get_members redis group_id r in
      if is_empty username
      then no_login s
      else if inside
      then ([], tell_others username (dump_line json members) bulk others (record s { redis = r1 }))
      else refuse kernel redis heap json (codes "not a member of this group")
          (record s { redis = r })
