-- ===== src/UnwindIterator/Steps.antt =====
-- What a step of the iterator leaves behind.
use libunwinder.Prelude.{
  ℕ, ◌≡◌, refl, Bool, true, false, Option, none, some, Result, ok, err, panic,
}
use libunwinder.Error.{Error}
use libunwinder.FrameAddress.{FrameAddress, from_return_address}
use libunwinder.UnwindIterator.{
  Unwinder, UnwindIterator, UnwindIteratorState, initial, unwinding, done, next, Next, next_in,
  give, resume, step_from,
}

module _ {Regs : Type 0} (u : Unwinder Regs) where
  give-none :
      (f : Option FrameAddress) (regs : Regs)
      → (give f regs).0 ≡ ok none
      → (give f regs).1.state ≡ done
  give-none none regs h = refl
  give-none (some f) regs h = cc

  resume-none :
      (b : Bool) (ra : Option ℕ) (regs : Regs)
      → (resume b ra regs).0 ≡ ok none
      → (resume b ra regs).1.state ≡ done
  resume-none b none regs h = refl
  resume-none true (some ra) regs h = cc
  resume-none false (some ra) regs h = give-none (from_return_address ra) regs h

  step_from-none :
      (f : FrameAddress) (r : Result Error (Option ℕ) × Regs)
      → (step_from u f r).0 ≡ ok none
      → (step_from u f r).1.state ≡ done
  step_from-none f (ok ra, regs) h = resume-none (u.is_signal_frame f regs) ra regs h
  step_from-none f (err e, regs) h = cc
  step_from-none f (panic, regs) h = cc

  next_in-none :
      (s : UnwindIteratorState) (it : UnwindIterator Regs)
      → it.state ≡ s
      → (next_in u s it).0 ≡ ok none
      → (next_in u s it).1.state ≡ done
  next_in-none (initial pc) it e h = cc
  next_in-none (unwinding f) it e h = step_from-none f (u.unwind_frame f it.regs) h
  next_in-none done it e h = e

  -- Once `next` has returned no frame, it returns none again and changes nothing.
  pub next-none :
      (it : UnwindIterator Regs)
      → (next u it).0 ≡ ok none
      → next u (next u it).1 ≡ (ok none, (next u it).1)
  unfolding next
  next-none it h = at_done (next u it).1 (next_in-none it.state it refl h)
    where
      at_done : (x : UnwindIterator Regs) → x.state ≡ done → next_in u x.state x ≡ (ok none, x)
      at_done x e = λ i. next_in u (e i) x

  give-ne-err : (f : Option FrameAddress) (regs : Regs) (e : Error) → (give f regs).0 ≡ err e → ⊥
  give-ne-err none regs e h = cc
  give-ne-err (some f) regs e h = cc

  resume-ne-err :
      (b : Bool) (ra : Option ℕ) (regs : Regs) (e : Error) → (resume b ra regs).0 ≡ err e → ⊥
  resume-ne-err b none regs e h = cc
  resume-ne-err true (some ra) regs e h = cc
  resume-ne-err false (some ra) regs e h = give-ne-err (from_return_address ra) regs e h

  -- The state at which a step failed is left for another attempt.
  abbrev pub IsRetry : FrameAddress → Error → Next Regs → Result Error (Option ℕ) × Regs → Type 0
  IsRetry f e n r = (r.0 ≡ err e) × (n.1 ≡ record { state = unwinding f; regs = r.1 })

  step_from-err :
      (f : FrameAddress) (r : Result Error (Option ℕ) × Regs) (e : Error)
      → (step_from u f r).0 ≡ err e
      → IsRetry f e (step_from u f r) r
  step_from-err f (ok ra, regs) e h = absurd (resume-ne-err (u.is_signal_frame f regs) ra regs e h)
  step_from-err f (err x, regs) e h = (cc, refl)
  step_from-err f (panic, regs) e h = cc

  next_in-err :
      (s : UnwindIteratorState) (it : UnwindIterator Regs) (e : Error)
      → (next_in u s it).0 ≡ err e
      → (f : FrameAddress) × (s ≡ unwinding f)
        × IsRetry f e (next_in u s it) (u.unwind_frame f it.regs)
  next_in-err (initial pc) it e h = cc
  next_in-err (unwinding f) it e h = (f, refl, step_from-err f (u.unwind_frame f it.regs) e h)
  next_in-err done it e h = cc

  -- `next` fails only with the error of the step from its frame, and stays at that frame, with
  -- what the step left of the registers.
  pub next-err :
      (it : UnwindIterator Regs) (e : Error)
      → (next u it).0 ≡ err e
      → (f : FrameAddress) × (it.state ≡ unwinding f)
        × IsRetry f e (next u it) (u.unwind_frame f it.regs)
  unfolding next
  next-err it e h = next_in-err it.state it e h
