-- ===== src/Benchmark/Counting/Trails.antt =====
-- What the driver counts, said of the unwinder alone: how many of its steps from a frame on lead from
-- one address inside the module to the next.
use libunwinder.Prelude.{
  ℕ, zero, suc, ◌+◌, ◌≤◌, ◌<◌, ◌≡◌, refl, arith, Bool, true, false, Option, none, some, Result, ok,
  err, panic, ltb, Bool-cases, inl, inr,
}
use libunwinder.Error.{Error}
use libunwinder.FrameAddress.{FrameAddress, from_return_address}
use libunwinder.Module.{Range}
use libunwinder.UnwindIterator.{Unwinder}
use libunwinder.Benchmark.{Failure}
use libunwinder.Benchmark.Counting.{contains, frame_of, max_frames, go_on, counted, rounds}

abbrev pub Stepping : Type 0 → Type 0
Stepping Regs = Result Error (Option ℕ) × Regs

abbrev pub IsInside : Range → ℕ → Type 0
IsInside range ip = (range.start ≤ ip) × (ip < range.end)

module _ {Regs : Type 0} (u : Unwinder Regs) (range : Range) where
  -- From what a step has returned on, `k` steps lead to addresses inside the module.
  abbrev pub IsTrail : Stepping Regs → ℕ → Type 0
  IsTrail r zero = Unit
  IsTrail (ok (some ip), regs) (suc k) =
      IsInside range ip × IsTrail (u.unwind_frame (frame_of ip (from_return_address ip)) regs) k
  IsTrail (ok none, regs) (suc k) = ⊥
  IsTrail (err e, regs) (suc k) = ⊥
  IsTrail (panic, regs) (suc k) = ⊥

  -- The same, and the step behind them finds the end of the stack or an address elsewhere.
  abbrev pub EndsAfter : Stepping Regs → ℕ → Type 0
  EndsAfter (ok none, regs) zero = Unit
  EndsAfter (ok (some ip), regs) zero = IsInside range ip → ⊥
  EndsAfter (err e, regs) zero = ⊥
  EndsAfter (panic, regs) zero = ⊥
  EndsAfter (ok (some ip), regs) (suc k) =
      IsInside range ip × EndsAfter (u.unwind_frame (frame_of ip (from_return_address ip)) regs) k
  EndsAfter (ok none, regs) (suc k) = ⊥
  EndsAfter (err e, regs) (suc k) = ⊥
  EndsAfter (panic, regs) (suc k) = ⊥

  -- A count that began with `frames` frames: a frame was added for each of the steps, and there are 256
  -- frames at most.
  abbrev pub IsCounted : ℕ → Stepping Regs → ℕ → Type 0
  IsCounted frames r n = (k : ℕ) × (n ≡ frames + k) × (n ≤ 256) × EndsAfter r k

  -- There are 257 frames at least.
  abbrev pub HasTooMany : ℕ → Stepping Regs → Type 0
  HasTooMany frames r = (k : ℕ) × (frames + k ≡ 257) × IsTrail r k

  pub IsCounted-before :
      (frames n ip : ℕ) (regs : Regs)
      → IsInside range ip
      → IsCounted (frames + 1) (u.unwind_frame (frame_of ip (from_return_address ip)) regs) n
      → IsCounted frames (ok (some ip), regs) n
  IsCounted-before frames n ip regs inside (k, same, fits, trail) =
      (suc k, omega arith, fits, (inside, trail))

  pub HasTooMany-before :
      (frames ip : ℕ) (regs : Regs)
      → IsInside range ip
      → HasTooMany (frames + 1) (u.unwind_frame (frame_of ip (from_return_address ip)) regs)
      → HasTooMany frames (ok (some ip), regs)
  HasTooMany-before frames ip regs inside (k, same, trail) = (suc k, omega arith, (inside, trail))

  module _ {IoError ObjectError : Type 0} where
    counted-IsCounted :
        (frames n : ℕ) (r : Stepping Regs)
        (rest : FrameAddress → Regs → ℕ → Result (Failure IoError ObjectError) ℕ × Regs)
        → frames ≤ max_frames
        → ◌≡◌ {A = Result (Failure IoError ObjectError) ℕ} (counted range frames r rest).0 (ok n)
        → ((f : FrameAddress) (s : Regs)
            → frames + 1 ≤ max_frames
            → ◌≡◌ {A = Result (Failure IoError ObjectError) ℕ} (rest f s (frames + 1)).0 (ok n)
            → IsCounted (frames + 1) (u.unwind_frame f s) n)
        → IsCounted frames r n
    counted-IsCounted frames n (err e, regs) rest fits h ih = cc
    counted-IsCounted frames n (panic, regs) rest fits h ih = cc
    counted-IsCounted frames n (ok none, regs) rest fits h ih = (0, ground arith, ground arith, tt)
    counted-IsCounted frames n (ok (some ip), regs) rest fits h ih =
        by_range (contains range ip) refl h
      where
        by_range :
            (b : Bool)
            → contains range ip ≡ b
            → ◌≡◌ {A = Result (Failure IoError ObjectError) ℕ}
                (go_on b ip regs frames rest).0
                (ok n)
            → IsCounted frames (ok (some ip), regs) n
        by_range false out e = (0, ground arith, ground arith, λ t. outside t.0 t.1)
          where
            outside : range.start ≤ ip → ip < range.end → ⊥
            outside low high = ground arith
        by_range true within e = elim (Bool-cases (ltb max_frames (frames + 1))) [
          | inl t ↦ cc (rw t at e)
          | inr f ↦
              IsCounted-before frames n ip regs (ground arith, ground arith)
                (ih (frame_of ip (from_return_address ip)) regs (ground arith) (rw f at e))
        ]

    -- A count that the rounds return.
    pub rounds-IsCounted :
        (fuel frames n : ℕ) (frame : FrameAddress) (regs : Regs)
        → frames ≤ max_frames
        → ◌≡◌ {A = Result (Failure IoError ObjectError) ℕ}
            (rounds u range fuel frame regs frames).0
            (ok n)
        → IsCounted frames (u.unwind_frame frame regs) n
    unfolding rounds
    rounds-IsCounted zero frames n frame regs fits h = cc
    rounds-IsCounted (suc fuel) frames n frame regs fits h =
        counted-IsCounted frames n (u.unwind_frame frame regs) (rounds u range fuel) fits h
          λ f s more e. rounds-IsCounted fuel (frames + 1) n f s more e
