-- ===== src/Benchmark/Counting.antt =====
-- `unwind_stack`: the frames of one stack inside the loaded module, at most 256 of them.
pub mod Trails
pub mod Frames
use libunwinder.Prelude.{
  ℕ, zero, suc, ◌+◌, ◌&&◌, Bool, true, false, Option, none, some, Result, ok, err, panic, leb, ltb,
  if◌then◌else◌,
}
use libunwinder.Error.{Error}
use libunwinder.FrameAddress.{FrameAddress, instruction_pointer, from_return_address}
use libunwinder.Module.{Range}
use libunwinder.UnwindIterator.{Unwinder}
use libunwinder.Benchmark.{Failure, unwinding, too_many_frames}

abbrev pub contains : Range → ℕ → Bool
contains r addr = leb r.start addr && ltb addr r.end

-- `from_return_address(ip).unwrap_or(InstructionPointer(ip))`
abbrev pub frame_of : ℕ → Option FrameAddress → FrameAddress
frame_of ip none = instruction_pointer ip
frame_of ip (some frame) = frame

abbrev pub max_frames : ℕ
max_frames = 256

-- The fuel of the `loop`.
abbrev pub max_rounds : ℕ
max_rounds = 1_000

module _ {IoError ObjectError Regs : Type 0} where
  -- What a round does with a caller's address, inside the module or not; `rest` are the rounds
  -- behind it.
  abbrev pub go_on :
      Bool
      → ℕ
      → Regs
      → ℕ
      → (FrameAddress → Regs → ℕ → Result (Failure IoError ObjectError) ℕ × Regs)
      → Result (Failure IoError ObjectError) ℕ × Regs
  go_on false ip regs frames rest = (ok frames, regs)
  go_on true ip regs frames rest =
      if ltb max_frames (frames + 1)
      then (err too_many_frames, regs)
      else rest (frame_of ip (from_return_address ip)) regs (frames + 1)

  abbrev pub counted :
      Range
      → ℕ
      → Result Error (Option ℕ) × Regs
      → (FrameAddress → Regs → ℕ → Result (Failure IoError ObjectError) ℕ × Regs)
      → Result (Failure IoError ObjectError) ℕ × Regs
  counted range frames (err e, regs) rest = (err (unwinding e), regs)
  counted range frames (panic, regs) rest = (panic, regs)
  counted range frames (ok none, regs) rest = (ok frames, regs)
  counted range frames (ok (some ip), regs) rest = go_on (contains range ip) ip regs frames rest

  -- The `loop`, on fuel.
  unfoldable pub rounds :
      Unwinder Regs
      → Range
      → ℕ
      → FrameAddress
      → Regs
      → ℕ
      → Result (Failure IoError ObjectError) ℕ × Regs
  rounds u range zero frame regs frames = (panic, regs)
  rounds u range (suc fuel) frame regs frames =
      counted range frames (u.unwind_frame frame regs) (rounds u range fuel)

  -- The guard leaves no more than 256 rounds; the fuel is not what ends them.
  unfoldable pub count_frames :
      Unwinder Regs → Range → ℕ → Regs → Result (Failure IoError ObjectError) ℕ × Regs
  count_frames u range ip regs = rounds u range max_rounds (instruction_pointer ip) regs 1
