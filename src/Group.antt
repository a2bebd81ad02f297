-- ===== src/Group.antt =====
-- gateway/include/GroupManager.h and gateway/src/GroupManager.cpp: groups, kept in Redis. Each function passes
-- the state of Redis through its commands in the order of the calls, and drops the results that the
-- code drops.
use distributed_im.Common.{
  ℕ, zero, suc, Bool, true, false, ◌||◌, List, [], ◌∷◌, ◌++◌, Option, none, some, Bytes, is_empty,
  if◌then◌else◌,
}
use distributed_im.Common.Assoc.{bytes_discrete}
use distributed_im.Common.Text.{codes}
use distributed_im.Common.Decimal.{to_decimal}
use distributed_im.Redis.{RedisServer}
use distributed_im.Redis.Store.{
  set_hash_field, get_hash_field, set_add, set_remove, set_is_member, set_members, delete_key,
  incr_counter,
}

unfoldable pub room_key : Bytes → Bytes
room_key group_id = codes "room:" ++ group_id

unfoldable pub members_key : Bytes → Bytes
members_key group_id = codes "room:" ++ (group_id ++ codes ":members")

unfoldable pub groups_key : Bytes → Bytes
groups_key username = codes "user:" ++ (username ++ codes ":groups")

abbrev pub group_counter : Bytes
group_counter = codes "group_counter"

-- `none` is -1, which is not positive.
unfoldable pub group_id_of : Option ℕ → Bytes
group_id_of none = []
group_id_of (some zero) = []
group_id_of (some (suc n)) = codes "g_" ++ to_decimal (suc n)

module _ (server : RedisServer) where
  open server use {State}

  unfoldable pub generate_group_id : State → Bytes × State
  generate_group_id s = let (id, s1) = incr_counter server group_counter s in (group_id_of id, s1)

  -- The writes of `createGroup` under a given id.
  unfoldable pub write_group : Bytes → Bytes → Bytes → ℕ → State → State
  write_group group_id group_name creator now s =
      let room = room_key group_id in
      let s1 = (set_hash_field server room (codes "name") group_name s).1 in
      let s2 = (set_hash_field server room (codes "creator") creator s1).1 in
      let s3 = (set_hash_field server room (codes "created_at") (to_decimal now) s2).1 in
      let s4 = (set_add server (members_key group_id) creator s3).1 in
      (set_add server (groups_key creator) group_id s4).1

  -- An empty id from `generateGroupId` is not tested.
  unfoldable pub create_group : Bytes → Bytes → ℕ → State → Bytes × State
  create_group group_name creator now s =
      let (group_id, s1) = generate_group_id s in
      if is_empty group_name || is_empty creator
      then ([], s)
      else (group_id, write_group group_id group_name creator now s1)

  unfoldable pub join_group : Bytes → Bytes → State → Bool × State
  join_group group_id username s =
      let (name, s1) = get_hash_field server (room_key group_id) (codes "name") s in
      let (joined, s2) = set_is_member server (members_key group_id) username s1 in
      let s3 = (set_add server (members_key group_id) username s2).1 in
      let s4 = (set_add server (groups_key username) group_id s3).1 in
      if is_empty group_id || is_empty username
      then (false, s)
      else if is_empty name
      then (false, s1)
      else if joined
      then (false, s2)
      else (true, s4)

  unfoldable pub leave_group : Bytes → Bytes → State → Bool × State
  leave_group group_id username s =
      let s1 = (set_remove server (members_key group_id) username s).1 in
      let s2 = (set_remove server (groups_key username) group_id s1).1 in
      if is_empty group_id || is_empty username then (false, s) else (true, s2)

  unfoldable pub get_members : Bytes → State → List Bytes × State
  get_members group_id = set_members server (members_key group_id)

  unfoldable pub is_member : Bytes → Bytes → State → Bool × State
  is_member group_id username = set_is_member server (members_key group_id) username

  unfoldable pub get_user_groups : Bytes → State → List Bytes × State
  get_user_groups username = set_members server (groups_key username)

  unfoldable pub forget_group : Bytes → List Bytes → State → State
  forget_group group_id [] s = s
  forget_group group_id (member ∷ members) s =
      forget_group group_id members (set_remove server (groups_key member) group_id s).1

  unfoldable pub dissolve_group : Bytes → Bytes → State → Bool × State
  unfolding forget_group
  dissolve_group group_id requester s =
      let (creator, s1) = get_hash_field server (room_key group_id) (codes "creator") s in
      let (members, s2) = get_members group_id s1 in
      let s3 = forget_group group_id members s2 in
      let s4 = (delete_key server (members_key group_id) s3).1 in
      let s5 = (delete_key server (room_key group_id) s4).1 in
      elim (bytes_discrete creator requester) [ yes _ ↦ (true, s5) | no _ ↦ (false, s1) ]
