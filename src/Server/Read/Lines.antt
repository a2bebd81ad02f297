-- ===== src/Server/Read/Lines.antt =====
-- The loop over the lines ends, and handles the lines of the buffer in their order.
use mathlib.Core.Option
use mathlib.Core.Option.{some-injective}
use mathlib.Core.Path.{subst}
use distributed_im.Common.{
  ℕ, zero, suc, ◌+◌, ◌<◌, ◌≡◌, ◌≢◌, refl, sym, ◌∙◌, ap, inl, inr, [], ◌∷◌, Option, none, some,
  Bytes, length, take, drop, length-drop, ltb, if_both, arith, Option-cases,
}
use distributed_im.Common.Assoc.{find, ℕ_discrete}
use distributed_im.Common.Text.{find_text, starts_with}
use distributed_im.Json.{JsonLibrary}
use distributed_im.Priority.{HeapLibrary}
use distributed_im.Redis.{RedisServer}
use distributed_im.Server.{Connection, Kernel}
use distributed_im.Server.Send.{Gateway, put}
use distributed_im.Server.Isolation.{KeepsInput, put-Isolated}
use distributed_im.Server.Isolation.Messages.{handle_message-Isolated}
use distributed_im.Server.Read.{
  Received, Outcome, goes_on, returns, dangling, starved, after, Setup, with_conn, message,
  take_line, line_loop, check_overflow, handle_lines,
}

abbrev pub Below : ℕ → Option ℕ → Type 0
Below n none = Unit {0}
Below n (some i) = i < n

map-suc-Below : (n : ℕ) (o : Option ℕ) → Below n o → Below (suc n) (Option.map suc o)
map-suc-Below n none h = tt
map-suc-Below n (some i) h = omega arith

pub find_text-Below : (s : Bytes) → Below (length s) (find_text (10 ∷ []) s)
unfolding find_text
find_text-Below [] = tt
find_text-Below (x ∷ s) =
    if_both (Below (suc (length s))) (starts_with (10 ∷ []) (x ∷ s)) (some 0) _ (omega arith)
      (map-suc-Below (length s) (find_text (10 ∷ []) s) (find_text-Below s))

-- Not out of fuel.
abbrev pub Ends : {S : Type 0} → Outcome S → Type 0
Ends o = o ≢ starved

pub goes_on-Ends : {S : Type 0} (s : S) → Ends (goes_on s)
goes_on-Ends s bad = absurd (cc (bad))

pub returns-Ends : {S : Type 0} (s : S) → Ends (returns s)
returns-Ends s bad = absurd (cc (bad))

pub after-Ends :
    {S : Type 0} (next : S → Outcome S) (o : Outcome S)
    → Ends o
    → ((s : S) → Ends (next s))
    → Ends (after next o)
unfolding after
after-Ends next (goes_on s) h k = k s
after-Ends next (returns s) h k = h
after-Ends next dangling h k = h
after-Ends next starved h k = h

module _ (kernel : Kernel) (redis : RedisServer) (heap : HeapLibrary) (json : JsonLibrary)
    (setup : Setup) where
  pub with_conn-Ends :
      (fd : ℕ) (use_it : Connection → Outcome (Gateway kernel redis heap))
      (s : Gateway kernel redis heap)
      → ((conn : Connection) → find ℕ_discrete fd s.connections ≡ some conn → Ends (use_it conn))
      → Ends (with_conn kernel redis heap json setup fd use_it s)
  unfolding with_conn
  with_conn-Ends fd use_it s h = elim (Option-cases (find ℕ_discrete fd s.connections)) [
    | inl e ↦ rw (e, with_conn) (λ bad. absurd (cc (bad)))
    | inr (conn, e) ↦ rw (e, with_conn) (h conn e)
  ]

  -- A message leaves the input of its connection as it is.
  pub message-KeepsInput :
      (fd : ℕ) (r : Received) (conn : Connection) (msg : Bytes) (s : Gateway kernel redis heap)
      → KeepsInput kernel redis heap fd conn s
      → KeepsInput kernel redis heap fd conn (message kernel redis heap json setup fd r conn msg s)
  unfolding message
  message-KeepsInput fd r conn msg s h =
      (handle_message-Isolated kernel redis heap json setup.order setup.rate_limit_enabled r.now
        r.clock fd conn msg s h).1

  pub put-KeepsInput :
      (fd : ℕ) (conn : Connection) (s : Gateway kernel redis heap)
      → KeepsInput kernel redis heap fd conn (put kernel redis heap fd conn s.world s)
  put-KeepsInput fd conn s =
      (put-Isolated kernel redis heap fd conn conn s.world s s (λ j n. refl) refl refl).1

  abbrev Shorter : ℕ → ℕ → Gateway kernel redis heap → Type 0
  Shorter fuel fd s =
      (conn : Connection)
      → find ℕ_discrete fd s.connections ≡ some conn
      → length conn.read_buffer < fuel

  take_line-Shorter :
      (fuel fd : ℕ) (r : Received) (pos : ℕ) (conn : Connection) (s : Gateway kernel redis heap)
      → length conn.read_buffer < suc fuel
      → pos < length conn.read_buffer
      → Shorter fuel fd (take_line kernel redis heap json setup fd r pos conn s)
  unfolding take_line
  take_line-Shorter fuel fd r pos conn s h p c e =
      let conn1 = record conn { read_buffer = drop (pos + 1) conn.read_buffer } in
      let s1 = put kernel redis heap fd conn1 s.world s in
      let line = take pos conn.read_buffer in
      let (same, _) = message-KeepsInput fd r conn1 line s1 (put-KeepsInput fd conn1 s) c e in
      omega (arith, ap length same, length-drop (pos + 1) conn.read_buffer)

  line_loop-Ends :
      (fuel fd : ℕ) (r : Received) (s : Gateway kernel redis heap)
      → 0 < fuel
      → Shorter fuel fd s
      → Ends (line_loop kernel redis heap json setup fuel fd r s)
  unfolding line_loop
  line_loop-Ends zero fd r s h k = absurd (omega arith)
  line_loop-Ends (suc fuel) fd r s h k = with_conn-Ends fd _ s (λ conn e.
      elim (Option-cases (find_text (10 ∷ []) conn.read_buffer)) [
        | inl n ↦ rw (n) (λ bad. absurd (cc (bad)))
        | inr (pos, f) ↦
            let p = subst (Below (length conn.read_buffer)) f (find_text-Below conn.read_buffer) in
            rw (f) (
              line_loop-Ends fuel fd r (take_line kernel redis heap json setup fd r pos conn s)
                (omega (arith, k conn e, p)) (take_line-Shorter fuel fd r pos conn s (k conn e) p))
      ])

  check_overflow-Ends :
      (fd : ℕ) (s : Gateway kernel redis heap)
      → Ends (check_overflow kernel redis heap json setup fd s)
  unfolding check_overflow
  check_overflow-Ends fd s = with_conn-Ends fd _ s (λ conn e.
      if_both Ends (ltb 65536 (length conn.read_buffer)) _ _ (λ bad. absurd (cc (bad)))
        (λ bad. absurd (cc (bad))))

  pub handle_lines-Ends :
      (fd : ℕ) (r : Received) (s : Gateway kernel redis heap)
      → Ends (handle_lines kernel redis heap json setup fd r s)
  unfolding handle_lines
  handle_lines-Ends fd r s = with_conn-Ends fd _ s (λ conn e.
      after-Ends (check_overflow kernel redis heap json setup fd) _
        (line_loop-Ends (suc (length conn.read_buffer)) fd r s (omega arith) (λ c f.
          let same : c ≡ conn = some-injective c conn (sym f ∙ e) in
          omega (arith, ap (λ c. length c.read_buffer) same)))
        (check_overflow-Ends fd))
