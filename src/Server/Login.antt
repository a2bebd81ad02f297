-- ===== src/Server/Login.antt =====
-- gateway/src/EpollServer.cpp: performLogin. `dump` is nlohmann's, of an object with the given members.
use distributed_im.Common.{
  ℕ, zero, suc, Bool, true, false, List, [], ◌∷◌, ◌++◌, none, some, Bytes, is_empty, if◌then◌else◌,
}
use distributed_im.Common.Assoc.{find, insert, bytes_discrete}
use distributed_im.Common.Decimal.{ℤ, pos, negsuc}
use distributed_im.Common.Text.{codes}
use distributed_im.Json.{Members, text, number, boolean}
use distributed_im.Priority.{HeapLibrary}
use distributed_im.Redis.{RedisServer}
use distributed_im.Redis.Users.{user_login}
use distributed_im.Server.{Connection, Kernel}
use distributed_im.Server.Send.{Gateway, put, send_to_client}

-- `user_map_[name].push_back(fd)`.
unfoldable pub push_fd : Bytes → ℕ → List (Bytes × List ℕ) → List (Bytes × List ℕ)
push_fd name fd m = elim (find bytes_discrete name m) [
  | none ↦ insert bytes_discrete name (fd ∷ []) m
  | some fds ↦ insert bytes_discrete name (fds ++ (fd ∷ [])) m
]

abbrev pub failed : Bytes → Members
failed reason =
    (codes "type", text (codes "login"))
    ∷ (codes "status", text (codes "fail"))
    ∷ (codes "msg", text reason)
    ∷ []

abbrev pub succeeded : ℕ → Members → Members
succeeded gateway_id more =
    (codes "type", text (codes "login"))
    ∷ (codes "status", text (codes "ok"))
    ∷ (codes "gateway_id", number gateway_id)
    ∷ more

module _ (kernel : Kernel) (redis : RedisServer) (heap : HeapLibrary) (dump : Members → Bytes) where
  unfoldable pub answer : ℕ → Members → Gateway kernel redis heap → Gateway kernel redis heap
  unfolding send_to_client
  answer fd reply s = send_to_client kernel redis heap fd (dump reply ++ (10 ∷ [])) s

  -- The connection and the user's devices, as a login changes them.
  unfoldable pub admit :
      ℕ → ℕ → Connection → Bytes → Gateway kernel redis heap → Gateway kernel redis heap
  unfolding push_fd
  admit now fd conn name s =
      let s1 =
        put kernel redis heap fd
          (record conn { username = name; is_login = true; last_active = now }) s.world s in
      record s1 { user_map = push_fd name fd s1.user_map }

  -- What follows on the result of `userLogin`.
  unfoldable pub after_user_login :
      ℤ → ℕ → ℕ → Connection → Bytes → Gateway kernel redis heap → Bool × Gateway kernel redis heap
  unfolding answer admit
  after_user_login (pos (suc zero)) now fd conn name s =
      (true, answer fd (succeeded s.gateway_id []) (admit now fd conn name s))
  after_user_login (pos zero) now fd conn name s = elim (find bytes_discrete name s.user_map) [
    | none ↦ (false, answer fd (failed (codes "user already logged in on another gateway")) s)
    | some fds ↦ (
      true,
      answer fd (succeeded s.gateway_id ((codes "multi_device", boolean true) ∷ []))
          (admit now fd conn name s),
    )
  ]
  after_user_login (pos (suc (suc n))) now fd conn name s =
      (false, answer fd (failed (codes "login failed")) s)
  after_user_login (negsuc n) now fd conn name s =
      (false, answer fd (failed (codes "login failed")) s)

  unfoldable pub perform_login :
      ℕ → ℕ → Connection → Bytes → Gateway kernel redis heap → Bool × Gateway kernel redis heap
  unfolding after_user_login
  perform_login now fd conn name s =
      let (result, r) = user_login redis name s.gateway_id fd s.redis in
      if is_empty name
      then (false, answer fd (failed (codes "username cannot be empty")) s)
      else after_user_login result now fd conn name (record s { redis = r })
