-- ===== src/Redis/Kept.antt =====
-- Looking users up and logging them out leave the offline messages as they are.
use distributed_im.Common.{
  ℕ, ◌≡◌, ◌≢◌, refl, ap, ◌∙◌, ◌||◌, not, Bool, List, [], ◌∷◌, Bytes, is_empty, get_or, if_both,
  arith, if◌then◌else◌,
}
use distributed_im.Common.Decimal.{ℤ}
use distributed_im.Redis.{
  Reply, lost, nil, error_reply, integer, string, array, RedisServer, check_reply, call, finish,
  c_str, c_strs, array_strings, integer_is, user_key, queue_key, device_key, online_users,
  logout_script,
}
use distributed_im.Redis.Users.{user_logout, pipeline, get_all_online_users}
use distributed_im.Redis.Fifo.{ListServer}

user≢queue : (username target : Bytes) → c_str (user_key username) ≢ queue_key target
unfolding c_str user_key queue_key
user≢queue username target e = absurd (omega (arith, ap (λ l. get_or l 0 0) e))

online≢queue : (target : Bytes) → online_users ≢ queue_key target
unfolding queue_key
online≢queue target e = absurd (omega (arith, ap (λ l. get_or l 0 0) e))

module _ (server : RedisServer) (lists : ListServer server) where
  open server use {State, srem, scard, smembers, srandmember, eval, is_connected}
  open lists use {queue}

  -- The offline messages of all users are the same.
  abbrev pub SameQueues : State → State → Type 0
  SameQueues s s' = (name : Bytes) → queue (queue_key name) s' ≡ queue (queue_key name) s

  after_call :
      (s s' : State) (r : Reply) (k : Reply → State → Reply × State)
      → SameQueues s s'
      → ((other : Reply) → SameQueues s (k other s').1)
      → SameQueues s (call server (λ t. (r, s')) k s).1
  after_call s s' lost k h g = g lost
  after_call s s' nil k h g = g nil
  after_call s s' error_reply k h g = h
  after_call s s' (integer n) k h g = g (integer n)
  after_call s s' (string t) k h g = g (string t)
  after_call s s' (array ts) k h g = g (array ts)

  logout_script-queues :
      (username name device : Bytes) (s : State)
      → SameQueues s (logout_script server (c_str (user_key username)) name device s).1
  unfolding logout_script
  logout_script-queues username name device s =
      let key = c_str (user_key username) in
      let (r1, s1) = srem key device s in
      let (r2, s2) = scard key s1 in
      let (r3, s3) = srem online_users name s2 in
      let h1 : SameQueues s s1 =
        λ n. lists.srem-other (queue_key n) key device s (user≢queue username n) in
      let h2 : SameQueues s s2 = λ n. lists.scard-queue (queue_key n) key s1 ∙ h1 n in
      let h3 : SameQueues s s3 =
        λ n. lists.srem-other (queue_key n) online_users name s2 (online≢queue n) ∙ h2 n in
      let last : Reply → State → Reply × State = λ n.
        if integer_is 0 n
        then call server (srem online_users name) (λ other. finish server (integer 1))
        else finish server (integer 1) in
      after_call s s1 r1 (λ other. call server (scard key) last) h1
        (λ other. after_call s s2 r2 last h2 (λ n.
          if_both (λ (f : State → Reply × State). SameQueues s (f s2).1) (integer_is 0 n) _ _
            (after_call s s3 r3 (λ x. finish server (integer 1)) h3 (λ x. h3)) h2))

  pub user_logout-queues :
      (username : Bytes) (gateway_id fd : ℕ) (s : State)
      → SameQueues s (user_logout server username gateway_id fd s).1
  unfolding user_logout
  user_logout-queues username gateway_id fd s =
      let script =
        logout_script server (c_str (user_key username)) (c_str username)
          (device_key gateway_id fd) in
      let (r, s') = eval script s in
      let kept : SameQueues s s' = λ n.
        ap (λ p. queue (queue_key n) p.1) (lists.eval-script script s)
        ∙ logout_script-queues username (c_str username) (device_key gateway_id fd) s n in
      let Q : Bool × State → Type 0 = λ p. SameQueues s p.1 in
      if_both Q (not (is_connected s) || is_empty username) _ _ (λ n. refl)
        (if_both Q (check_reply r) _ _ kept kept)

  pipeline-queues : (names : List Bytes) (s : State) → SameQueues s (pipeline server names s).1
  unfolding pipeline
  pipeline-queues [] s n = refl
  pipeline-queues (name ∷ names) s n =
      let (r, s1) = srandmember (user_key name) s in
      pipeline-queues names s1 n ∙ lists.srandmember-queue (queue_key n) (user_key name) s

  pub get_all_online_users-queues :
      (order : List Bytes → List Bytes) (s : State)
      → SameQueues s (get_all_online_users server order s).1
  unfolding get_all_online_users
  get_all_online_users-queues order s =
      let (r, s1) = smembers online_users s in
      let names = c_strs (array_strings r) in
      let h1 : SameQueues s s1 = λ n. lists.smembers-queue (queue_key n) online_users s in
      let Q : List (Bytes × ℤ) × State → Type 0 = λ p. SameQueues s p.1 in
      if_both Q (not (is_connected s)) _ _ (λ n. refl)
        (if_both Q (is_empty names) _ _ h1 (λ n. pipeline-queues names s1 n ∙ h1 n))
