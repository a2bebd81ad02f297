-- ===== src/Server/Read/Framing.antt =====
-- The loop over the lines, against a reference that splits the bytes by recursion.
use mathlib.Core.Option
use mathlib.Core.Option.{some-injective}
use mathlib.Core.Path.{subst}
use distributed_im.Common.{
  ℕ, zero, suc, ◌+◌, ◌<◌, ◌≡◌, ◌∙◌, refl, sym, ap, inl, inr, true, false, List, [], ◌∷◌, Option,
  none, some, Bytes, length, take, drop, length-drop, length-take, ◌==◌, if◌then◌else◌, arith,
  Bool-cases, Option-cases,
}
use distributed_im.Common.Assoc.{find, ℕ_discrete}
use distributed_im.Common.Text.{find_text, starts_with}
use distributed_im.Json.{JsonLibrary}
use distributed_im.Priority.{HeapLibrary}
use distributed_im.Redis.{RedisServer}
use distributed_im.Server.{Connection, Kernel}
use distributed_im.Server.Send.{Gateway, put}
use distributed_im.Server.Read.{
  Received, Outcome, goes_on, after, check_overflow, Setup, with_conn, message, take_line,
  line_loop, handle_lines,
}
use distributed_im.Server.Read.Lines.{Below, find_text-Below, message-KeepsInput, put-KeepsInput}

unfoldable pub add_byte : ℕ → List Bytes → List Bytes
add_byte c [] = []
add_byte c (line ∷ rest) = (c ∷ line) ∷ rest

-- The lines of the bytes, each up to its line end. What stands behind the last line end is no line.
unfoldable pub split_lines : Bytes → List Bytes
unfolding add_byte
split_lines [] = []
split_lines (c ∷ cs) = if 10 == c then [] ∷ split_lines cs else add_byte c (split_lines cs)

-- What `find` says of the lines.
abbrev Splits : Bytes → Option ℕ → Type 0
Splits s none = split_lines s ≡ []
Splits s (some pos) = split_lines s ≡ take pos s ∷ split_lines (drop (pos + 1) s)

map-suc-Splits :
    (c : ℕ) (s : Bytes) (o : Option ℕ)
    → (10 == c) ≡ false
    → Splits s o
    → Splits (c ∷ s) (Option.map suc o)
unfolding split_lines add_byte
map-suc-Splits c s none n h = rw (n, h) refl
map-suc-Splits c s (some pos) n h =
    let shift : suc pos + 1 ≡ suc (pos + 1) = omega arith in rw (n, h, shift) refl

split_lines-at_end :
    (c : ℕ) (s : Bytes) → (10 == c) ≡ true → split_lines (c ∷ s) ≡ [] ∷ split_lines s
unfolding split_lines
split_lines-at_end c s e = rw (e, split_lines) refl

find_text-Splits : (s : Bytes) → Splits s (find_text (10 ∷ []) s)
unfolding find_text starts_with split_lines
find_text-Splits [] = refl
find_text-Splits (c ∷ s) = elim (Bool-cases (10 == c)) [
  | inl e ↦ rw (e) (split_lines-at_end c s e)
  | inr e ↦ rw (e) (map-suc-Splits c s (find_text (10 ∷ []) s) e (find_text-Splits s))
]

module _ (kernel : Kernel) (redis : RedisServer) (heap : HeapLibrary) (json : JsonLibrary)
    (setup : Setup) where
  -- The lines are handled one after the other; each is taken out of the buffer first. A line behind the removal of the
  -- connection uses the connection that is gone.
  unfoldable pub run_lines :
      ℕ → Received → List Bytes → Gateway kernel redis heap → Outcome (Gateway kernel redis heap)
  unfolding with_conn take_line
  run_lines fd r [] s = with_conn kernel redis heap json setup fd (λ conn. goes_on s) s
  run_lines fd r (line ∷ rest) s =
      with_conn kernel redis heap json setup fd
        (λ conn.
          let buf = drop (length line + 1) conn.read_buffer in
          let conn1 = record conn { read_buffer = buf } in
          let s1 = put kernel redis heap fd conn1 s.world s in
          run_lines fd r rest (message kernel redis heap json setup fd r conn1 line s1))
        s

  with_conn-ap :
      (fd : ℕ) (f g : Connection → Outcome (Gateway kernel redis heap))
      (s : Gateway kernel redis heap)
      → ((conn : Connection) → find ℕ_discrete fd s.connections ≡ some conn → f conn ≡ g conn)
      → with_conn kernel redis heap json setup fd f s
        ≡ with_conn kernel redis heap json setup fd g s
  unfolding with_conn
  with_conn-ap fd f g s h = elim (Option-cases (find ℕ_discrete fd s.connections)) [
    | inl e ↦ rw (e, with_conn) refl
    | inr (conn, e) ↦ rw (e, with_conn) (h conn e)
  ]

  abbrev HasBuffer : ℕ → Bytes → Gateway kernel redis heap → Type 0
  HasBuffer fd buf s =
      (conn : Connection) → find ℕ_discrete fd s.connections ≡ some conn → conn.read_buffer ≡ buf

  -- One line is taken out of the buffer, with `n` bytes and the line end, and handled.
  abbrev step :
      ℕ → Received → Connection → Gateway kernel redis heap → ℕ → Bytes → Gateway kernel redis heap
  step fd r conn s n line =
      let conn1 = record conn { read_buffer = drop (n + 1) conn.read_buffer } in
      message kernel redis heap json setup fd r conn1 line
        (put kernel redis heap fd conn1 s.world s)

  step-HasBuffer :
      (fd : ℕ) (r : Received) (conn : Connection) (s : Gateway kernel redis heap) (n : ℕ)
      (line buf : Bytes)
      → conn.read_buffer ≡ buf
      → HasBuffer fd (drop (n + 1) buf) (step fd r conn s n line)
  step-HasBuffer fd r conn s n line buf same c e =
      let conn1 = record conn { read_buffer = drop (n + 1) conn.read_buffer } in
      let s1 = put kernel redis heap fd conn1 s.world s in
      (message-KeepsInput kernel redis heap json setup fd r conn1 line s1
        (put-KeepsInput kernel redis heap json setup fd conn1 s) c e).0
      ∙ ap (drop (n + 1)) same

  take_line-step :
      (fd : ℕ) (r : Received) (pos : ℕ) (conn : Connection) (s : Gateway kernel redis heap)
      (buf : Bytes)
      → conn.read_buffer ≡ buf
      → pos < length buf
      → take_line kernel redis heap json setup fd r pos conn s
        ≡ step fd r conn s (length (take pos buf)) (take pos buf)
  unfolding take_line
  take_line-step fd r pos conn s buf same h =
      let size : pos ≡ length (take pos buf) = omega (arith, length-take pos buf) in
      ap (λ b. step fd r conn s pos (take pos b)) same
      ∙ ap (λ n. step fd r conn s n (take pos buf)) size

  line_loop-run_lines :
      (fuel fd : ℕ) (r : Received) (buf : Bytes) (s : Gateway kernel redis heap)
      → length buf < fuel
      → HasBuffer fd buf s
      → line_loop kernel redis heap json setup fuel fd r s ≡ run_lines fd r (split_lines buf) s
  unfolding line_loop run_lines
  line_loop-run_lines zero fd r buf s h k = absurd (omega arith)
  line_loop-run_lines (suc fuel) fd r buf s h k = elim (Option-cases (find_text (10 ∷ []) buf)) [
    | inl f ↦
        rw (subst (Splits buf) f (find_text-Splits buf))
          (with_conn-ap fd _ _ s (λ conn e. rw (ap (find_text (10 ∷ [])) (k conn e) ∙ f) refl))
    | inr (pos, f) ↦
        let p = subst (Below (length buf)) f (find_text-Below buf) in
        let rest = drop (pos + 1) buf in
        rw (subst (Splits buf) f (find_text-Splits buf)) (
          with_conn-ap fd _ _ s (λ conn e.
            let next = take_line kernel redis heap json setup fd r pos conn s in
            let size : length rest < fuel = omega (arith, length-drop (pos + 1) buf) in
            let same = take_line-step fd r pos conn s buf (k conn e) p in
            let kept : HasBuffer fd rest next =
              step-HasBuffer fd r conn s pos (take pos conn.read_buffer) buf (k conn e) in
            rw (ap (find_text (10 ∷ [])) (k conn e) ∙ f) (
              line_loop-run_lines fuel fd r rest next size kept
              ∙ ap (run_lines fd r (split_lines rest)) same)))
  ]

  -- On a connection that is there, the loop of finds, substrings and erasures, with the fuel that it has, is the reference:
  -- the lines of the buffer, as recursion splits it, are handled in their order, each with what follows it left in the
  -- buffer. Then the overflow is checked.
  pub handle_lines-split_lines :
      (fd : ℕ) (r : Received) (conn : Connection) (s : Gateway kernel redis heap)
      → find ℕ_discrete fd s.connections ≡ some conn
      → handle_lines kernel redis heap json setup fd r s
        ≡ after
            (check_overflow kernel redis heap json setup fd)
            (run_lines fd r (split_lines conn.read_buffer) s)
  unfolding handle_lines with_conn
  handle_lines-split_lines fd r conn s e =
      let own : HasBuffer fd conn.read_buffer s =
        λ c f. ap (λ (c : Connection). c.read_buffer) (some-injective c conn (sym f ∙ e)) in
      rw (e, handle_lines, with_conn)
        (ap (after (check_overflow kernel redis heap json setup fd)) (
          line_loop-run_lines (suc (length conn.read_buffer)) fd r conn.read_buffer s (omega arith)
            own))
