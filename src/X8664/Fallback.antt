-- ===== src/X8664/Fallback.antt =====
-- What a step of the frame-pointer fallback returns, on every branch.
use libunwinder.Prelude.{
  ℕ, ◌+◌, ◌≤◌, ◌<◌, ◌^◌, ◌≡◌, ◌≢◌, ◌⊎◌, inl, inr, arith, none, some, ok, err, panic, Option-cases,
}
use libunwinder.Error.{
  Error, could_not_read_stack, framepointer_unwinding_moved_backwards, integer_overflow,
}
use libunwinder.X8664.{UnwindRegs, ReadStack, fallback_unwind_frame, stepped, sp, bp}

-- A frame record at `bp`: the caller's frame pointer, and above that the return address.
pub record IsFrameAt (read : ReadStack) (bp new_bp return_address : ℕ) : Type 0 where
  pub saved_bp : read bp ≡ some new_bp
  pub saved_ip : read (bp + 8) ≡ some return_address
  pub grows : (new_bp ≡ 0) ⊎ (bp < new_bp)
  pub nonzero : return_address ≢ 0

module _ (read : ReadStack) (current_ip : ℕ) (regs : UnwindRegs) where
  -- A fallback step that finds a caller has read its frame record at the frame pointer; the stack
  -- pointer has grown without wrap-around, the frame pointer has grown or is zero, and the
  -- registers are those of the caller.
  pub fallback_unwind_frame-some :
      (ra : ℕ) (regs' : UnwindRegs)
      → fallback_unwind_frame read current_ip regs ≡ (ok (some ra), regs')
      → (new_bp : ℕ) × IsFrameAt read (bp regs) new_bp ra
        × (sp regs < bp regs + 16)
        × (bp regs + 16 < 2 ^ 64)
        × (regs' ≡ stepped regs ra (bp regs + 16) new_bp)
  unfolding fallback_unwind_frame
  fallback_unwind_frame-some ra regs' h = elim (Option-cases (read (bp regs))) [
    | inl e ↦ ground (arith, e)
    | inr (b, e) ↦ (
      b,
      record {
        saved_bp = e;
        saved_ip = ground (arith, e);
        grows = ground (arith, e);
        nonzero = ground (arith, e);
      },
      ground (arith, e),
      ground (arith, e),
      ground (arith, e),
    )
  ]

  -- A fallback step returns to the caller of the frame record at a nonzero frame pointer, if the
  -- record lies above the stack pointer and does not wrap around.
  pub fallback_unwind_frame-frame :
      (new_bp ra : ℕ)
      → IsFrameAt read (bp regs) new_bp ra
      → bp regs ≢ 0
      → sp regs < bp regs + 16
      → bp regs + 16 < 2 ^ 64
      → fallback_unwind_frame read current_ip regs
        ≡ (ok (some ra), stepped regs ra (bp regs + 16) new_bp)
  unfolding fallback_unwind_frame
  fallback_unwind_frame-frame new_bp ra f nz up small =
      ground (arith, f.saved_bp, f.saved_ip, f.grows, f.nonzero)

  -- The record ends at the stack pointer or below, or the frame pointer that it has saved is one
  -- that does not lie above it.
  abbrev pub MovesBackwards : Type 0
  MovesBackwards =
      (bp regs ≢ 0)
      × ((bp regs + 16 ≤ sp regs)
          ⊎ ((new_bp : ℕ) × (read (bp regs) ≡ some new_bp) × (new_bp ≢ 0) × (new_bp ≤ bp regs)))

  -- A fallback step fails only with an overflow of the frame pointer, with a frame record that
  -- ends at the stack pointer or below or that has saved a frame pointer not above it, or with one
  -- of its two reads, whose address it names; it never reports that it did not advance.
  pub fallback_unwind_frame-err :
      (e : Error)
      → (fallback_unwind_frame read current_ip regs).0 ≡ err e
      → ((e ≡ integer_overflow) × (2 ^ 64 ≤ bp regs + 16))
        ⊎ ((e ≡ framepointer_unwinding_moved_backwards) × MovesBackwards)
        ⊎ ((addr : ℕ) × (e ≡ could_not_read_stack addr)
            × (read addr ≡ none)
            × ((addr ≡ bp regs) ⊎ (addr ≡ bp regs + 8)))
  unfolding fallback_unwind_frame
  fallback_unwind_frame-err e h = ground arith

  -- A fallback step that fails leaves the registers as they were.
  pub fallback_unwind_frame-keeps :
      (e : Error)
      → (fallback_unwind_frame read current_ip regs).0 ≡ err e
      → (fallback_unwind_frame read current_ip regs).1 ≡ regs
  unfolding fallback_unwind_frame
  fallback_unwind_frame-keeps e h = ground arith

  pub fallback_unwind_frame-ne-panic : (fallback_unwind_frame read current_ip regs).0 ≢ panic
  unfolding fallback_unwind_frame
  fallback_unwind_frame-ne-panic h = ground arith

  -- At a zero frame pointer the stack ends.
  pub fallback_unwind_frame-bottom :
      bp regs ≡ 0 → fallback_unwind_frame read current_ip regs ≡ (ok none, regs)
  unfolding fallback_unwind_frame
  fallback_unwind_frame-bottom h = ground arith
