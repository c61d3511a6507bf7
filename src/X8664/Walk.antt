-- ===== src/X8664/Walk.antt =====
-- Walking a whole stack by the frame pointer: the unwinder where no module has unwind information,
-- under the iterator.
pub mod Termination
use mathlib.Core.Path.{subst}
use mathlib.Core.List.{map}
use libunwinder.Prelude.{
  ℕ, zero, suc, ◌+◌, ◌-◌, ◌≤◌, ◌<◌, ◌^◌, ◌≡◌, ◌≢◌, ◌∙◌, ap, sym, inl, inr, refl, arith, List, [],
  ◌∷◌, Bool, true, false, Option, none, some, Result, ok, err, panic, length, ◌==◌, if◌then◌else◌,
}
use libunwinder.Error.{Error}
use libunwinder.FrameAddress.{
  FrameAddress, instruction_pointer, return_address, from_return_address, address,
  address_for_lookup,
}
use libunwinder.UnwindIterator.{
  Unwinder, UnwindIterator, UnwindIteratorState, initial, unwinding, done, iter_frames, next,
  next_in, give, resume, step_from, walk, continue_with, End, finished, failed, stopped, unfinished,
}
use libunwinder.ModuleSet.{
  ModuleSet, CacheStore, has_unwind_info, unwind_info_error, is_signal_frame,
}
use libunwinder.Libunwind.{Library}
use libunwinder.Unwind.{commit, unwind_by}
use libunwinder.X8664.Unwind.{backend, request, unwinder, unwind_frame}
use libunwinder.X8664.{
  UnwindRegs, ReadStack, Step, fallback_unwind_frame, stepped, sp, bp, set,
  clear_unrestored_caller_registers,
}
use libunwinder.X8664.Fallback.{
  IsFrameAt, fallback_unwind_frame-some, fallback_unwind_frame-frame, fallback_unwind_frame-bottom,
}

-- No address has unwind information, which holds where the modules have no DWARF tables.
pub record IsBare (modules : ModuleSet) (caches : CacheStore) : Type 0 where
  pub no_error : (addr : ℕ) → unwind_info_error modules addr ≡ none
  pub no_info : (addr : ℕ) → has_unwind_info modules addr ≡ false
  pub no_signal : (addr : ℕ) → is_signal_frame caches modules addr ≡ false

pub stepped-sp : (r : UnwindRegs) (ip s b : ℕ) → sp (stepped r ip s b) ≡ s
unfolding set
stepped-sp r ip s b = refl

stepped-bp : (r : UnwindRegs) (ip s b : ℕ) → bp (stepped r ip s b) ≡ b
unfolding set
stepped-bp r ip s b = refl

-- A stack as a chain of frame records from the frame pointer on, with its return addresses.
pub data IsStack (read : ReadStack) : (sp bp : ℕ) → List ℕ → Type 0 where
  bottom : {sp : ℕ} → IsStack read sp 0 []
  record_at :
      {sp bp new_bp ra : ℕ} {ras : List ℕ}
      → IsFrameAt read bp new_bp ra
      → bp ≢ 0
      → sp < bp + 16
      → bp + 16 < 2 ^ 64
      → IsStack read (bp + 16) new_bp ras
      → IsStack read sp bp (ra ∷ ras)

abbrev pub at_frame :
    FrameAddress → UnwindRegs → CacheStore → UnwindIterator (UnwindRegs × CacheStore)
at_frame frame regs caches = record { state = unwinding frame; regs = (regs, caches) }

module _ {Cursor : Type 0} (lib : Library Cursor) (zeroed : Cursor) (modules : ModuleSet)
    (read : ReadStack) where
  -- Without unwind information for the address the frame pointer is all there is.
  unwind_frame-fallback :
      (frame : FrameAddress) (regs : UnwindRegs) (caches : CacheStore)
      → unwind_info_error modules (address_for_lookup frame) ≡ none
      → has_unwind_info modules (address_for_lookup frame) ≡ false
      → unwind_frame lib zeroed modules read frame regs caches
        ≡ commit caches (fallback_unwind_frame read (address frame) regs)
  unfolding unwind_frame
  unwind_frame-fallback frame regs caches e1 e2 =
      λ i. unwind_by lib zeroed backend modules read (request read frame regs) (e1 i) (e2 i) caches

  pub walk-next :
      (fuel : ℕ) (it it' : UnwindIterator (UnwindRegs × CacheStore))
      (r : Result Error (Option FrameAddress))
      → next (unwinder lib zeroed modules read) it ≡ (r, it')
      → walk (unwinder lib zeroed modules read) (suc fuel) it
        ≡ continue_with r (walk (unwinder lib zeroed modules read) fuel it')
  unfolding walk
  walk-next fuel it it' r e =
      λ i. continue_with (e i).0 (walk (unwinder lib zeroed modules read) fuel (e i).1)

  nonzero_return : (ra : ℕ) → ra ≢ 0 → from_return_address ra ≡ some (return_address ra)
  unfolding from_return_address
  nonzero_return ra h = ground arith

  module _ (caches : CacheStore) (bare : IsBare modules caches) where
    pub next-fallback :
        (frame : FrameAddress) (regs : UnwindRegs) (r : Step)
        → fallback_unwind_frame read (address frame) regs ≡ r
        → next (unwinder lib zeroed modules read) (at_frame frame regs caches)
          ≡ step_from (unwinder lib zeroed modules read) frame (commit caches r)
    unfolding next
    next-fallback frame regs r e = λ i. step_from (unwinder lib zeroed modules read) frame (
        (unwind_frame-fallback frame regs caches (bare.no_error (address_for_lookup frame))
              (bare.no_info (address_for_lookup frame))
            ∙ ap (commit caches) e)
          i)

    next-bottom :
        (frame : FrameAddress) (regs : UnwindRegs)
        → bp regs ≡ 0
        → next (unwinder lib zeroed modules read) (at_frame frame regs caches)
          ≡ (ok none, record { state = done; regs = (regs, caches) })
    next-bottom frame regs e =
        next-fallback frame regs _ (fallback_unwind_frame-bottom read (address frame) regs e)
        ∙ (λ i. resume (bare.no_signal (address_for_lookup frame) i) none (regs, caches))

    pub next-frame :
        (frame : FrameAddress) (regs : UnwindRegs) (ra new_sp new_bp : ℕ)
        → ra ≢ 0
        → fallback_unwind_frame read (address frame) regs
          ≡ (ok (some ra), stepped regs ra new_sp new_bp)
        → next (unwinder lib zeroed modules read) (at_frame frame regs caches) ≡ (
          ok (some (return_address ra)),
          at_frame (return_address ra) (stepped regs ra new_sp new_bp) caches,
        )
    next-frame frame regs ra new_sp new_bp nz e =
        next-fallback frame regs _ e
        ∙ (λ i.
            resume (bare.no_signal (address_for_lookup frame) i) (some ra)
              (stepped regs ra new_sp new_bp, caches))
        ∙ (λ i. give (nonzero_return ra nz i) (stepped regs ra new_sp new_bp, caches))

    from_frame :
        (fuel : ℕ) (frame : FrameAddress) (regs : UnwindRegs) (s b : ℕ) (ras : List ℕ)
        → sp regs ≡ s
        → bp regs ≡ b
        → IsStack read s b ras
        → length ras < fuel
        → walk (unwinder lib zeroed modules read) fuel (at_frame frame regs caches)
          ≡ (map return_address ras, finished)
    from_frame zero frame regs s b ras es eb w h = absurd (omega arith)
    from_frame (suc fuel) frame regs s b ras es eb bottom h =
        walk-next fuel (at_frame frame regs caches) _ _ (next-bottom frame regs eb)
    from_frame (suc fuel) frame regs s b ras es eb
          (record_at {new_bp = new_bp} {ra = ra} {ras = rest} f nz up small below) h =
        walk-next fuel (at_frame frame regs caches) _ _ (
          next-frame frame regs ra (bp regs + 16) new_bp f.nonzero (
            fallback_unwind_frame-frame read (address frame) regs new_bp ra
              (subst (λ (x : ℕ). IsFrameAt read x new_bp ra) (sym eb) f) (λ z. nz (sym eb ∙ z))
              (omega arith) (omega arith)))
        ∙ ap (λ (x : List FrameAddress × End). (return_address ra ∷ x.0, x.1))
            (from_frame fuel (return_address ra) (stepped regs ra (bp regs + 16) new_bp) (b + 16)
              new_bp rest (stepped-sp regs ra (bp regs + 16) new_bp ∙ ap (λ (x : ℕ). x + 16) eb)
              (stepped-bp regs ra (bp regs + 16) new_bp) below (omega arith))

    -- Where no address has unwind information or a signal frame, over a stack that is a chain of
    -- frame records, a walk of more rounds than the chain has frames and one more gives the
    -- instruction pointer and then each return address of the chain, and ends.
    pub walk-IsStack :
        (fuel pc : ℕ) (regs : UnwindRegs) (ras : List ℕ)
        → IsStack read (sp regs) (bp regs) ras
        → length ras + 1 < fuel
        → walk (unwinder lib zeroed modules read) fuel (iter_frames pc (regs, caches))
          ≡ (instruction_pointer pc ∷ map return_address ras, finished)
    walk-IsStack zero pc regs ras w h = absurd (omega arith)
    walk-IsStack (suc fuel) pc regs ras w h =
        walk-next fuel (iter_frames pc (regs, caches)) _ _ first
        ∙ ap (λ (x : List FrameAddress × End). (instruction_pointer pc ∷ x.0, x.1))
            (from_frame fuel (instruction_pointer pc) regs (sp regs) (bp regs) ras refl refl w
              (omega arith))
      where
        first :
            next (unwinder lib zeroed modules read) (iter_frames pc (regs, caches))
            ≡ (ok (some (instruction_pointer pc)), at_frame (instruction_pointer pc) regs caches)
        first = unfold next in refl
