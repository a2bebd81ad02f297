-- ===== src/Tests/Redis.antt =====
-- Offline messages over a Redis that keeps lists only.
use distributed_im.Common.{
  ◌+◌, ◌≡◌, refl, ap, true, List, [], ◌∷◌, ◌++◌, Option, none, some, Bytes, length, arith,
}
use distributed_im.Common.Assoc.{find, insert, bytes_discrete, find-insert_self}
use distributed_im.Common.Text.{codes}
use distributed_im.Redis.{Reply, nil, integer, string, array, RedisServer, queue_key, c_str}
use distributed_im.Redis.Queues.{push_message, pop_messages}
use distributed_im.Redis.Fifo.{ListServer, pop_messages-push_message}

abbrev pub Lists : Type 0
Lists = List (Bytes × List Bytes)

abbrev pub some_list : Option (List Bytes) → List Bytes
some_list none = []
some_list (some xs) = xs

abbrev pub list_at : Bytes → Lists → List Bytes
list_at key s = some_list (find bytes_discrete key s)

abbrev pub pop_front : Bytes → Lists → List Bytes → Reply × Lists
pop_front key s [] = (nil, s)
pop_front key s (x ∷ xs) = (string x, insert bytes_discrete key xs s)

abbrev pub one_reply : Lists → Reply × Lists
one_reply s = (integer 1, s)

abbrev pub list_redis : RedisServer
list_redis = record {
  State = Lists;
  is_connected = λ s. true;
  sadd = λ key member. one_reply;
  srem = λ key member. one_reply;
  sismember = λ key member. one_reply;
  smembers = λ key s. (array [], s);
  srandmember = λ key s. (nil, s);
  scard = λ key. one_reply;
  hset = λ key field value. one_reply;
  hget = λ key field s. (nil, s);
  rpush = λ key msg s. (
    integer (length (list_at key s) + 1),
    insert bytes_discrete key (list_at key s ++ (msg ∷ [])) s,
  );
  lpop = λ key s. pop_front key s (list_at key s);
  del = λ key. one_reply;
  exists = λ key. one_reply;
  incr = λ key. one_reply;
  eval = λ script. script;
}

pub list_at-insert :
    (key : Bytes) (xs : List Bytes) (s : Lists) → list_at key (insert bytes_discrete key xs s) ≡ xs
list_at-insert key xs s = ap some_list (find-insert_self bytes_discrete key xs s)

abbrev pub lists : ListServer list_redis
lists = record {
  queue = λ key s. some (list_at key s);
  eval-script = λ script s. refl;
  lpop-empty =
      λ key s e. let here : list_at key s ≡ [] = ap some_list e in rw here (refl, ap some here);
  lpop-first = λ key x xs s e.
      let here : list_at key s ≡ x ∷ xs = ap some_list e in
      rw here (refl, ap some (list_at-insert key xs s));
  rpush-last = λ key msg xs s e.
      let here : list_at key s ≡ xs = ap some_list e in
      rw here (refl, ap some (list_at-insert key (xs ++ (msg ∷ [])) s));
  sadd-other = λ key set member s h. refl;
  srem-other = λ key set member s h. refl;
  scard-queue = λ key set s. refl;
  smembers-queue = λ key set s. refl;
  srandmember-queue = λ key set s. refl;
}

abbrev pub waiting : Lists
waiting = (codes "msg_queue:bob", codes "first" ∷ []) ∷ []

bob_waits : lists.queue (queue_key (codes "bob")) waiting ≡ some (codes "first" ∷ [])
unfolding find bytes_discrete queue_key
bob_waits = refl

bob_is_whole : c_str (codes "bob") ≡ codes "bob"
unfolding c_str
bob_is_whole = refl

still_connected :
    list_redis.is_connected (push_message list_redis (codes "bob") (codes "second") waiting).1
    ≡ true
still_connected = refl

pop_messages-push_message_example :
    let s1 = (push_message list_redis (codes "bob") (codes "second") waiting).1 in
    let (msgs, s2) = pop_messages list_redis 3 (codes "bob") s1 in
    (msgs ≡ (codes "first" ∷ []) ++ (codes "second" ∷ []))
    × (lists.queue (queue_key (codes "bob")) s2 ≡ some [])
pop_messages-push_message_example =
    pop_messages-push_message list_redis lists 3 (codes "bob") (codes "second") (codes "first" ∷ [])
      waiting refl bob_is_whole bob_waits refl still_connected (omega arith)
