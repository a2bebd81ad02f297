-- ===== src/Server/Written.antt =====
-- What a loop over `write` in gateway/src/EpollServer.cpp has done with the bytes.
use mathlib.Core.Path.{subst}
use distributed_im.Common.{
  ℕ, zero, suc, ◌≤◌, ◌≡◌, refl, sym, ap, ◌∙◌, [], ◌∷◌, ◌++◌, Bytes, length, drop, take, arith,
  append-nil, append_assoc, take-append-drop, length-drop,
}
use distributed_im.Server.{WriteResult, wrote, would_block, write_failed, Kernel}
use distributed_im.Server.Send.{
  WriteEnd, all_written, broken, out_of_fuel, blocked, after_write, write_loop, write_all,
}

module _ (kernel : Kernel) where
  open kernel use {World, write, written, wants_output}

  -- What a loop over `write` has done with the bytes: those taken and those left make them up, in order.
  abbrev pub Flushed : ℕ → World → Bytes → WriteEnd × World → Type 0
  Flushed fd w bytes (all_written, w') = written fd w' ≡ written fd w ++ bytes
  Flushed fd w bytes (blocked rest, w') = written fd w' ++ rest ≡ written fd w ++ bytes
  Flushed fd w bytes (broken, w') = Unit {0}
  Flushed fd w bytes (out_of_fuel, w') = ⊥

  Flushed-trans :
      (fd : ℕ) (w w1 : World) (front back : Bytes) (e : WriteEnd × World)
      → written fd w1 ≡ written fd w ++ front
      → Flushed fd w1 back e
      → Flushed fd w (front ++ back) e
  Flushed-trans fd w w1 front back (all_written, w') h f =
      f ∙ ap (λ l. l ++ back) h ∙ append_assoc (written fd w) front back
  Flushed-trans fd w w1 front back (blocked rest, w') h f =
      f ∙ ap (λ l. l ++ back) h ∙ append_assoc (written fd w) front back
  Flushed-trans fd w w1 front back (broken, w') h f = tt
  Flushed-trans fd w w1 front back (out_of_fuel, w') h f = f

  after_write_lem :
      (later : Bytes → World → WriteEnd × World) (fd : ℕ) (w : World) (bytes : Bytes)
      (r : WriteResult × World)
      → write fd bytes w ≡ r
      → ((n : ℕ) (w1 : World) → Flushed fd w1 (drop (suc n) bytes) (later (drop (suc n) bytes) w1))
      → Flushed fd w bytes (after_write kernel later bytes r)
  unfolding after_write
  after_write_lem later fd w bytes (wrote zero, w1) e h = tt
  after_write_lem later fd w bytes (wrote (suc n), w1) e h =
      subst (λ l. Flushed fd w l (later (drop (suc n) bytes) w1)) (take-append-drop (suc n) bytes)
        (Flushed-trans fd w w1 (take (suc n) bytes) (drop (suc n) bytes)
          (later (drop (suc n) bytes) w1) (kernel.write-wrote fd (suc n) bytes w w1 e).1 (h n w1))
  after_write_lem later fd w bytes (would_block, w1) e h =
      ap (λ l. l ++ bytes) (kernel.write-would_block fd bytes w w1 e)
  after_write_lem later fd w bytes (write_failed, w1) e h = tt

  write_loop_lem :
      (fuel fd : ℕ) (bytes : Bytes) (w : World)
      → length bytes ≤ fuel
      → Flushed fd w bytes (write_loop kernel fuel fd bytes w)
  unfolding write_loop
  write_loop_lem fuel fd [] w h = sym (append-nil (written fd w))
  write_loop_lem zero fd (b ∷ bytes) w h = absurd (omega arith)
  write_loop_lem (suc fuel) fd (b ∷ bytes) w h =
      after_write_lem (write_loop kernel fuel fd) fd w (b ∷ bytes) (write fd (b ∷ bytes) w) refl
        (λ n w1.
          write_loop_lem fuel fd (drop (suc n) (b ∷ bytes)) w1 (omega (arith, length-drop n bytes)))

  pub write_all_lem :
      (fd : ℕ) (bytes : Bytes) (w : World) → Flushed fd w bytes (write_all kernel fd bytes w)
  unfolding write_all
  write_all_lem fd bytes w = write_loop_lem (length bytes) fd bytes w (omega arith)

  after_write-keeps :
      (R : World → Type 0) (later : Bytes → World → WriteEnd × World) (bytes : Bytes)
      (r : WriteResult × World)
      → R r.1
      → ((rest : Bytes) (w : World) → R w → R (later rest w).1)
      → R (after_write kernel later bytes r).1
  unfolding after_write
  after_write-keeps R later bytes (wrote zero, w) h k = h
  after_write-keeps R later bytes (wrote (suc n), w) h k = k (drop (suc n) bytes) w h
  after_write-keeps R later bytes (would_block, w) h k = h
  after_write-keeps R later bytes (write_failed, w) h k = h

  write_loop-keeps :
      (R : World → Type 0) (fuel fd : ℕ)
      → ((bytes : Bytes) (w : World) → R w → R (write fd bytes w).1)
      → (bytes : Bytes) (w : World) → R w
      → R (write_loop kernel fuel fd bytes w).1
  unfolding write_loop
  write_loop-keeps R fuel fd k [] w h = h
  write_loop-keeps R zero fd k (b ∷ bytes) w h = h
  write_loop-keeps R (suc fuel) fd k (b ∷ bytes) w h =
      after_write-keeps R (write_loop kernel fuel fd) (b ∷ bytes) (write fd (b ∷ bytes) w)
        (k (b ∷ bytes) w h) (write_loop-keeps R fuel fd k)

  -- What each `write` keeps, the loop keeps.
  pub write_all-keeps :
      (R : World → Type 0) (fd : ℕ)
      → ((bytes : Bytes) (w : World) → R w → R (write fd bytes w).1)
      → (bytes : Bytes) (w : World) → R w
      → R (write_all kernel fd bytes w).1
  unfolding write_all
  write_all-keeps R fd k bytes w = write_loop-keeps R (length bytes) fd k bytes w

  pub write_all-wants_output :
      (fd : ℕ) (bytes : Bytes) (w : World)
      → wants_output fd (write_all kernel fd bytes w).1 ≡ wants_output fd w
  write_all-wants_output fd bytes w =
      write_all-keeps (λ w1. wants_output fd w1 ≡ wants_output fd w) fd
        (λ rest w1 h. kernel.write-wants_output fd rest w1 ∙ h) bytes w refl
