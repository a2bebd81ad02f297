-- ===== src/Tests/Unauthorised.antt =====
-- A stranger's message, over a kernel that takes all bytes and keeps them by descriptor, and a Redis that keeps lists.
use distributed_im.Common.{
  ℕ, ◌≤◌, ◌≡◌, ◌≢◌, refl, sym, ap, ◌∙◌, Bool, true, false, [], ◌∷◌, ◌++◌, Bytes, length, take, ite,
  if_pos, if_neg, arith,
}
use distributed_im.Common.Assoc.{ℕ_discrete}
use distributed_im.Common.Text.{codes}
use distributed_im.Server.{WriteResult, wrote, would_block, Kernel}
use distributed_im.Server.Send.{Gateway}
use distributed_im.Server.Dispatch.{handle_message}
use distributed_im.Server.Unheard.{Separate}
use distributed_im.Server.Unauthorised.{Quiet, handle_message_unauthorised}
use distributed_im.Tests.Priority.{list_heap}
use distributed_im.Tests.Redis.{list_redis, lists, waiting}
use distributed_im.Tests.Server.{client, gateway}
use distributed_im.Tests.Reading.{chat_json, setup, is_out, no_login, is_chat}

take-length : (l : Bytes) → take (length l) l ≡ l
take-length [] = refl
take-length (x ∷ l) = ap (◌∷◌ x) (take-length l)

-- What was taken for each descriptor, and whether it is watched for output.
record Outputs : Type 0 where
  out : ℕ → Bytes
  armed : ℕ → Bool

abbrev set_at : {A : Type 0} → ℕ → A → (ℕ → A) → ℕ → A
set_at fd x f j = ite (ℕ_discrete fd j) x (f j)

set_at-same : {A : Type 0} (fd : ℕ) (x : A) (f : ℕ → A) → set_at fd x f fd ≡ x
set_at-same fd x f = if_pos (ℕ_discrete fd fd) refl x (f fd)

set_at-other : {A : Type 0} (fd j : ℕ) (x : A) (f : ℕ → A) → fd ≢ j → set_at fd x f j ≡ f j
set_at-other fd j x f n = if_neg (ℕ_discrete fd j) n x (f j)

abbrev prompt_write : ℕ → Bytes → Outputs → WriteResult × Outputs
prompt_write fd bytes w =
    (wrote (length bytes), record w { out = set_at fd (w.out fd ++ bytes) w.out })

abbrev count : WriteResult → ℕ
count (wrote n) = n
count _ = 0

prompt_write-wrote :
    (fd n : ℕ) (bytes : Bytes) (w w' : Outputs)
    → prompt_write fd bytes w ≡ (wrote n, w')
    → (n ≤ length bytes) × (w'.out fd ≡ w.out fd ++ take n bytes)
prompt_write-wrote fd n bytes w w' e =
    let all : length bytes ≡ n = ap (λ r. count r.0) e in
    (
      omega (arith, all),
      ap (λ r. r.1.out fd) (sym e)
          ∙ set_at-same fd (w.out fd ++ bytes) w.out
          ∙ ap (λ l. w.out fd ++ l) (sym (ap (λ k. take k bytes) (sym all) ∙ take-length bytes)),
    )

prompt_write-would_block :
    (fd : ℕ) (bytes : Bytes) (w w' : Outputs)
    → prompt_write fd bytes w ≡ (would_block, w')
    → w'.out fd ≡ w.out fd
prompt_write-would_block fd bytes w w' e = absurd (cc (e))

abbrev prompt_kernel : Kernel
prompt_kernel = record {
  World = Outputs;
  write = prompt_write;
  watch_input = λ fd w. (true, record w { armed = set_at fd false w.armed });
  watch_both = λ fd w. (true, record w { armed = set_at fd true w.armed });
  add_input = λ fd w. (true, w);
  unwatch = λ fd w. record w { armed = set_at fd false w.armed };
  close = λ fd w. w;
  written = λ fd w. w.out fd;
  wants_output = λ fd w. w.armed fd;
  write-wrote = prompt_write-wrote;
  write-would_block = prompt_write-would_block;
  watch_both-written = λ fd w. refl;
  watch_input-written = λ fd w. refl;
  unwatch-written = λ fd w. refl;
  close-written = λ fd w. refl;
  watch_both-wants_output = λ fd w e. set_at-same fd true w.armed;
  write-wants_output = λ fd bytes w. refl;
}

abbrev separate : Separate prompt_kernel
separate = record {
  write-other = λ fd j bytes w n. set_at-other fd j (w.out fd ++ bytes) w.out n;
  watch_both-other = λ fd j w n. refl;
  unwatch-other = λ fd j w n. refl;
  close-other = λ fd j w n. refl;
}

-- Bob has an offline message.
abbrev at_bob : Gateway prompt_kernel list_redis list_heap
at_bob = record {
  connections = gateway.connections;
  user_map = gateway.user_map;
  gateway_id = 7;
  redis = waiting;
  ack_tracker = gateway.ack_tracker;
  priority_q = gateway.priority_q;
  world = record { out = λ fd. []; armed = λ fd. false };
}

handle_message_unauthorised_example :
    Quiet prompt_kernel separate list_redis lists list_heap chat_json setup.order 4 at_bob (
      handle_message prompt_kernel list_redis list_heap chat_json setup.order true 100 0 4 client
        (codes "hello")
        at_bob)
handle_message_unauthorised_example =
    handle_message_unauthorised prompt_kernel separate list_redis lists list_heap chat_json
      setup.order true 100 0 4 client (codes "hello") at_bob is_out no_login is_chat
