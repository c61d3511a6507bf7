-- ===== src/FrameAddress.antt =====
-- src/frame_address.rs. The `NonZeroU64` of a return address is a number, with `IsFrame` saying
-- that it is not zero.
use libunwinder.Prelude.{
  ℕ, ◌-◌, ◌<◌, Bool, true, false, Option, none, some, ◌==◌, if◌then◌else◌, IsU64,
}

pub data FrameAddress : Type 0 where
  instruction_pointer : ℕ → FrameAddress
  return_address : ℕ → FrameAddress

unfoldable pub from_instruction_pointer : ℕ → FrameAddress
from_instruction_pointer ip = instruction_pointer ip

unfoldable pub from_return_address : ℕ → Option FrameAddress
from_return_address ra = if ra == 0 then none else some (return_address ra)

unfoldable pub address_for_lookup : FrameAddress → ℕ
address_for_lookup (instruction_pointer ip) = ip
address_for_lookup (return_address ra) = ra - 1

unfoldable pub address : FrameAddress → ℕ
address (instruction_pointer a) = a
address (return_address a) = a

unfoldable pub is_return_address : FrameAddress → Bool
is_return_address (instruction_pointer a) = false
is_return_address (return_address a) = true

-- What the types keep.
abbrev pub IsFrame : FrameAddress → Type 0
IsFrame (instruction_pointer a) = IsU64 a
IsFrame (return_address a) = (0 < a) × IsU64 a
