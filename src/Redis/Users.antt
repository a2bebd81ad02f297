-- ===== src/Redis/Users.antt =====
-- gateway/src/RedisClient.cpp, users and their devices.
use distributed_im.Common.{
  ℕ, suc, Bool, true, false, ◌||◌, not, List, [], ◌∷◌, Option, none, some, Bytes, is_empty, take,
  drop, if◌then◌else◌,
}
use distributed_im.Common.Text.{find_text}
use distributed_im.Common.Decimal.{ℤ, pos, negsuc, stoi}
use distributed_im.Redis.{
  Reply, string, RedisServer, check_reply, user_key, device_key, is_one, online_users,
  array_strings, c_str, c_strs, login_script, logout_script,
}

abbrev pub minus_one : ℤ
minus_one = negsuc 0

-- `device_info.substr(0, find(':'))`; `none` without a colon.
unfoldable pub before_colon : Bytes → Option Bytes
before_colon device = elim (find_text (b':' ∷ []) device) [
  | none ↦ none
  | some i ↦ some (take i device)
]

unfoldable pub after_colon : Bytes → Option Bytes
after_colon device = elim (find_text (b':' ∷ []) device) [
  | none ↦ none
  | some i ↦ some (drop (suc i) device)
]

-- A part of a device key as a number, -1 where there is none.
unfoldable pub part_number : Option Bytes → ℤ
part_number none = minus_one
part_number (some s) = elim (stoi s) [ none ↦ minus_one | some n ↦ n ]

-- The gateway or descriptor in a reply to SRANDMEMBER.
unfoldable pub number_in_reply : (Bytes → Option Bytes) → Reply → ℤ
unfolding part_number c_str
number_in_reply part (string device) = part_number (part (c_str device))
number_in_reply part _ = minus_one

unfoldable pub assign_gateways : List Bytes → List Reply → List (Bytes × ℤ)
unfolding number_in_reply before_colon
assign_gateways [] _ = []
assign_gateways (name ∷ names) [] = (name, minus_one) ∷ assign_gateways names []
assign_gateways (name ∷ names) (r ∷ replies) =
    (name, number_in_reply before_colon r) ∷ assign_gateways names replies

module _ (server : RedisServer) where
  open server use {State, is_connected, smembers, srandmember, eval}

  -- Descriptors are not negative.
  unfoldable pub user_login : Bytes → ℕ → ℕ → State → ℤ × State
  unfolding c_str
  user_login username gateway_id fd s =
      let (r, s') =
        eval
          (login_script server (c_str (user_key username)) (c_str username)
            (device_key gateway_id fd))
          s in
      if not (is_connected s) || is_empty username
      then (minus_one, s)
      else if check_reply r
      then (if is_one r then pos 1 else pos 0, s')
      else (minus_one, s')

  unfoldable pub user_logout : Bytes → ℕ → ℕ → State → Bool × State
  unfolding c_str
  user_logout username gateway_id fd s =
      let (r, s') =
        eval
          (logout_script server (c_str (user_key username)) (c_str username)
            (device_key gateway_id fd))
          s in
      if not (is_connected s) || is_empty username
      then (false, s)
      else if check_reply r
      then (true, s')
      else (false, s')

  unfoldable pub get_user_gateway : Bytes → State → ℤ × State
  unfolding number_in_reply before_colon
  get_user_gateway username s =
      let (r, s') = srandmember (user_key username) s in
      if not (is_connected s) || is_empty username
      then (minus_one, s)
      else (number_in_reply before_colon r, s')

  unfoldable pub get_user_fd : Bytes → State → ℤ × State
  unfolding number_in_reply after_colon
  get_user_fd username s =
      let (r, s') = srandmember (user_key username) s in
      if not (is_connected s) || is_empty username
      then (minus_one, s)
      else (number_in_reply after_colon r, s')

  -- The SRANDMEMBERs of the pipeline, one for each name in turn, and their replies.
  unfoldable pub pipeline : List Bytes → State → List Reply × State
  pipeline [] s = ([], s)
  pipeline (name ∷ names) s =
      let (r, s1) = srandmember (user_key name) s in
      let (replies, s2) = pipeline names s1 in (r ∷ replies, s2)

  -- `order` gives the names once each, as the `std::unordered_map` of them is walked: the replies go to the
  -- names in that order, and not in the order of the commands.
  unfoldable pub get_all_online_users : (List Bytes → List Bytes) → State → List (Bytes × ℤ) × State
  unfolding pipeline assign_gateways c_strs
  get_all_online_users order s =
      let (r, s1) = smembers online_users s in
      let names = c_strs (array_strings r) in
      let (replies, s2) = pipeline names s1 in
      if not (is_connected s)
      then ([], s)
      else if is_empty names
      then ([], s1)
      else (assign_gateways (order names) replies, s2)
