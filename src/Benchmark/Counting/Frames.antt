-- ===== src/Benchmark/Counting/Frames.antt =====
-- That the count ends, within its bounds, and that it counts what the iterator yields.
use mathlib.Core.Path.{subst}
use libunwinder.Prelude.{
  ℕ, zero, suc, ◌+◌, ◌≤◌, ◌<◌, ◌≡◌, ◌≢◌, ◌⊎◌, sym, inl, inr, refl, arith, List, [], ◌∷◌, Bool, true,
  false, Option, none, some, Result, ok, err, panic, ltb, ◌==◌, if◌then◌else◌, drop, Bool-cases,
}
use libunwinder.Error.{Error}
use libunwinder.FrameAddress.{
  FrameAddress, instruction_pointer, return_address, from_return_address, address,
}
use libunwinder.Module.{Range}
use libunwinder.UnwindIterator.{
  Unwinder, unwinding, iter_frames, next, give, resume, step_from, walk, continue_with,
}
use libunwinder.Benchmark.{Failure, unwinding, too_many_frames}
use libunwinder.Benchmark.Counting.Trails.{
  Stepping, IsInside, IsCounted, HasTooMany, IsCounted-before, HasTooMany-before,
}
use libunwinder.Benchmark.Counting.{
  contains, max_frames, max_rounds, frame_of, go_on, counted, rounds, count_frames,
}

-- The count of the frames, or an error: a true one of a step, or that there are too many frames, where
-- there are. It began with `frames` of them, at what a step has returned.
unfoldable pub IsCount :
    {IoError ObjectError Regs : Type 0}
    → Unwinder Regs
    → Range
    → (Error → Type 0)
    → ℕ
    → Stepping Regs
    → Result (Failure IoError ObjectError) ℕ
    → Type 0
IsCount u range IsTrue frames r (ok n) = IsCounted u range frames r n
IsCount u range IsTrue frames r (err e) =
    ((x : Error) × (e ≡ unwinding x) × IsTrue x)
    ⊎ ((e ≡ too_many_frames) × HasTooMany u range frames r)
IsCount u range IsTrue frames r panic = ⊥

module _ (IoError ObjectError : Type 0) {Regs : Type 0} (u : Unwinder Regs) (range : Range)
    (P : Regs → Type 0)
    (keeps : (f : FrameAddress) (s : Regs) → P s → P (u.unwind_frame f s).1) where
  module _ (IsTrue : Error → Type 0)
      (total : (f : FrameAddress) (s : Regs) → P s → (u.unwind_frame f s).0 ≢ panic)
      (blamed : (f : FrameAddress) (s : Regs) (e : Error)
        → P s
        → (u.unwind_frame f s).0 ≡ err e
        → IsTrue e) where
    IsCount-before :
        (frames ip : ℕ) (regs : Regs) (c : Result (Failure IoError ObjectError) ℕ)
        → IsInside range ip
        → IsCount u range IsTrue
            (frames + 1)
            (u.unwind_frame (frame_of ip (from_return_address ip)) regs)
            c
        → IsCount u range IsTrue frames (ok (some ip), regs) c
    unfolding IsCount
    IsCount-before frames ip regs (ok n) inside h =
        IsCounted-before u range frames n ip regs inside h
    IsCount-before frames ip regs (err e) inside (inl why) = inl why
    IsCount-before frames ip regs (err e) inside (inr (same, more)) =
        inr (same, HasTooMany-before u range frames ip regs inside more)
    IsCount-before frames ip regs panic inside h = h

    counted-IsCount :
        (frames : ℕ) (r : Result Error (Option ℕ) × Regs)
        (rest : FrameAddress → Regs → ℕ → Result (Failure IoError ObjectError) ℕ × Regs)
        → r.0 ≢ panic
        → ((e : Error) → r.0 ≡ err e → IsTrue e)
        → 1 ≤ frames
        → frames ≤ max_frames
        → ((frame : FrameAddress)
            → frames + 1 ≤ max_frames
            → IsCount u range IsTrue
                (frames + 1)
                (u.unwind_frame frame r.1)
                (rest frame r.1 (frames + 1)).0)
        → IsCount u range IsTrue frames r (counted range frames r rest).0
    unfolding IsCount
    counted-IsCount frames (err e, regs) rest h why low high ih = inl (e, refl, why e refl)
    counted-IsCount frames (panic, regs) rest h why low high ih = h refl
    counted-IsCount frames (ok none, regs) rest h why low high ih = (0, omega arith, high, tt)
    counted-IsCount frames (ok (some ip), regs) rest h why low high ih =
        inside (contains range ip) refl
      where
        inside :
            (b : Bool)
            → contains range ip ≡ b
            → IsCount u range IsTrue frames (ok (some ip), regs) (go_on b ip regs frames rest).0
        inside false out = (0, omega arith, high, λ t. outside t.0 t.1)
          where
            outside : range.start ≤ ip → ip < range.end → ⊥
            outside l h = ground arith
        inside true within = elim (Bool-cases (ltb max_frames (frames + 1))) [
          | inl t ↦ rw t (inr (refl, (1, ground arith, ((ground arith, ground arith), tt))))
          | inr f ↦
              rw f
                (IsCount-before frames ip regs _ (ground arith, ground arith) (ih _ (ground arith)))
        ]

    rounds-IsCount :
        (fuel : ℕ) (frame : FrameAddress) (regs : Regs) (frames : ℕ)
        → P regs
        → 1 ≤ frames
        → frames ≤ max_frames
        → max_frames < frames + fuel
        → IsCount {IoError = IoError} {ObjectError = ObjectError} u range IsTrue frames
            (u.unwind_frame frame regs)
            (rounds u range fuel frame regs frames).0
    unfolding rounds
    rounds-IsCount zero frame regs frames kept low high enough = absurd (omega arith)
    rounds-IsCount (suc fuel) frame regs frames kept low high enough =
        counted-IsCount frames (u.unwind_frame frame regs) (rounds u range fuel)
          (total frame regs kept) (λ e. blamed frame regs e kept) low high
          λ f more.
            rounds-IsCount fuel f (u.unwind_frame frame regs).1 (frames + 1) (keeps frame regs kept)
              (omega arith) more (omega arith)

    -- Where no step panics, `count_frames` ends: with the count of the frames, 256 at most, with the
    -- error of a step, or because there are more.
    pub count_frames-IsCount :
        (ip : ℕ) (regs : Regs)
        → P regs
        → IsCount {IoError = IoError} {ObjectError = ObjectError} u range IsTrue 1
            (u.unwind_frame (instruction_pointer ip) regs)
            (count_frames u range ip regs).0
    unfolding count_frames
    count_frames-IsCount ip regs kept =
        rounds-IsCount max_rounds (instruction_pointer ip) regs 1 kept (omega arith) (omega arith)
          (omega arith)

-- The leading frames whose address lies in the range.
unfoldable pub leading : Range → List FrameAddress → ℕ
leading range [] = 0
leading range (frame ∷ frames) =
    let rest = leading range frames in if contains range (address frame) then suc rest else 0

module _ (IoError ObjectError : Type 0) {Regs : Type 0} (u : Unwinder Regs) (range : Range)
    (P : Regs → Type 0)
    (keeps : (f : FrameAddress) (s : Regs) → P s → P (u.unwind_frame f s).1) where
  abbrev Count : Type 0
  Count = Result (Failure IoError ObjectError) ℕ

  walk-step :
      (fuel : ℕ) (frame : FrameAddress) (regs : Regs)
      → walk u (suc fuel) (record { state = unwinding frame; regs = regs })
        ≡ continue_with
            (step_from u frame (u.unwind_frame frame regs)).0
            (walk u fuel (step_from u frame (u.unwind_frame frame regs)).1)
  unfolding walk next
  walk-step fuel frame regs = refl

  -- One round counts the frame that one step of the walk yields.
  counted-leading :
      (fuel frames n : ℕ) (frame : FrameAddress) (r : Result Error (Option ℕ) × Regs)
      (rest : FrameAddress → Regs → ℕ → Count × Regs)
      → u.is_signal_frame frame r.1 ≡ false
      → ((ip : ℕ) → r.0 ≡ ok (some ip) → ip ≢ 0)
      → (counted range frames r rest).0 ≡ ok n
      → ((f : FrameAddress)
          → frames + 1 ≤ max_frames
          → (rest f r.1 (frames + 1)).0 ≡ ok n
          → n
            ≡ frames
              + 1
              + leading range (walk u fuel (record { state = unwinding f; regs = r.1 })).0)
      → n
        ≡ frames
          + leading range
              (continue_with (step_from u frame r).0 (walk u fuel (step_from u frame r).1)).0
  unfolding leading address from_return_address
  counted-leading fuel frames n frame (err e, regs) rest calm nonzero h ih = cc
  counted-leading fuel frames n frame (panic, regs) rest calm nonzero h ih = cc
  counted-leading fuel frames n frame (ok none, regs) rest calm nonzero h ih = ground arith
  counted-leading fuel frames n frame (ok (some ip), regs) rest calm nonzero h ih =
      subst
        (λ (b : Bool).
          n
          ≡ frames
            + leading range
                (continue_with (resume b (some ip) regs).0
                  (walk u fuel (resume b (some ip) regs).1)).0)
        (sym calm) (caller (contains range ip) refl h)
    where
      -- What the iterator yields for a caller's address that may be zero.
      yielded : Option FrameAddress → ℕ
      yielded f = leading range (continue_with (give f regs).0 (walk u fuel (give f regs).1)).0

      next_walk : ℕ
      next_walk =
          leading range
            (walk u fuel (record { state = unwinding (return_address ip); regs = regs })).0

      caller :
          (b : Bool)
          → contains range ip ≡ b
          → (go_on b ip regs frames rest).0 ≡ ok n
          → n ≡ frames + yielded (from_return_address ip)
      caller false out h = elim (Bool-cases (ip == 0)) [
        | inl t ↦ rw t (ground arith)
        | inr f ↦ rw f (
            subst (λ (k : ℕ). n ≡ frames + k) (sym (λ i. if out i then suc next_walk else 0))
              (ground arith))
      ]
      caller true in_range h = elim (Bool-cases (ip == 0)) [
        | inl t ↦ absurd (nonzero ip refl (ground arith))
        | inr f ↦ rw f (
            subst (λ (k : ℕ). n ≡ frames + k) (sym (λ i. if in_range i then suc next_walk else 0))
              (elim (Bool-cases (ltb max_frames (frames + 1))) [
                | inl t ↦ cc (rw t at h)
                | inr g ↦ omega (arith, ih (return_address ip) (ground arith) (rw (g, f) at h))
              ]))
      ]

  module _ (calm : (f : FrameAddress) (s : Regs) → P s → u.is_signal_frame f s ≡ false)
      (nonzero : (f : FrameAddress) (s : Regs) (ip : ℕ)
        → P s
        → (u.unwind_frame f s).0 ≡ ok (some ip)
        → ip ≢ 0) where
    rounds-leading :
        (k fuel : ℕ) (frame : FrameAddress) (regs : Regs) (frames n : ℕ)
        → P regs
        → frames ≤ max_frames
        → max_frames < frames + fuel
        → ◌≡◌ {A = Count} (rounds u range k frame regs frames).0 (ok n)
        → n
          ≡ frames + leading range (walk u fuel (record { state = unwinding frame; regs = regs })).0
    unfolding rounds
    rounds-leading zero fuel frame regs frames n kept fits enough h = cc
    rounds-leading (suc k) zero frame regs frames n kept fits enough h = absurd (omega arith)
    rounds-leading (suc k) (suc fuel) frame regs frames n kept fits enough h =
        rw (walk-step fuel frame regs) (
          counted-leading fuel frames n frame (u.unwind_frame frame regs) (rounds u range k)
            (calm frame (u.unwind_frame frame regs).1 (keeps frame regs kept))
            (λ ip. nonzero frame regs ip kept) h
            λ f more e.
              rounds-leading k fuel f (u.unwind_frame frame regs).1 (frames + 1) n
                (keeps frame regs kept) more (omega arith) e)

    -- Where no frame is a signal frame and no step gives address zero, a count that
    -- `count_frames` returns is that of the first frame of the iterator and of those behind it up to
    -- the first one outside the module, for a walk of more than 256 rounds.
    pub count_frames-walk :
        (fuel ip n : ℕ) (regs : Regs)
        → P regs
        → max_frames < fuel
        → ◌≡◌ {A = Count} (count_frames u range ip regs).0 (ok n)
        → n ≡ 1 + leading range (drop 1 (walk u fuel (iter_frames ip regs)).0)
    unfolding count_frames walk next
    count_frames-walk zero ip n regs kept enough h = absurd (omega arith)
    count_frames-walk (suc fuel) ip n regs kept enough h =
        rounds-leading max_rounds fuel (instruction_pointer ip) regs 1 n kept (omega arith)
          (omega arith) h
