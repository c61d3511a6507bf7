-- ===== src/Libunwind.antt =====
-- libunwind, which is not part of this program, as its callers see it: a routine that calls back
-- through the accessor table of src/address_space.rs and then returns. What it asks and what it makes
-- of the replies is a parameter. It returns after finitely many callbacks.
pub mod Calls
pub mod Keeps
pub mod Total
use libunwinder.Prelude.{ℕ}
use libunwinder.Prelude.Int.{ℤ}
use libunwinder.Callbacks.Accessors.{UnwProcInfo}

-- `resume` and the accessors that are null are never called.
pub data Routine (A : Type 0) : Type 0 where
  returns : A → Routine A
  find_proc_info :
      (ip : ℕ) (pi : UnwProcInfo) (need_unwind_info : ℤ) → (ℤ × UnwProcInfo → Routine A) → Routine A
  put_unwind_info : UnwProcInfo → Routine A → Routine A
  get_dyn_info_list_addr : (val : ℕ) → (ℤ × ℕ → Routine A) → Routine A
  access_mem : (addr val : ℕ) (write : ℤ) → (ℤ × ℕ → Routine A) → Routine A
  access_reg : (reg : ℤ) (val : ℕ) (write : ℤ) → (ℤ × ℕ → Routine A) → Routine A
  access_fpreg : (reg : ℤ) (val : ℕ × ℕ) (write : ℤ) → (ℤ → Routine A) → Routine A

-- The three functions that the program calls. A cursor is passed on, and each returns its status.
pub record Library (Cursor : Type 0) : Type 0 where
  pub init_remote : Cursor → Routine (ℤ × Cursor)
  pub step : Cursor → Routine (ℤ × Cursor)
  pub get_reg : Cursor → ℤ → ℕ → Routine ((ℤ × ℕ) × Cursor)
