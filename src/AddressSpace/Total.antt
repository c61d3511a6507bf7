-- ===== src/AddressSpace/Total.antt =====
-- That `init_and_step` returns, with a step or an error.
use libunwinder.Prelude.{
  Option-cases, inl, inr, ℕ, suc, ◌≡◌, ◌≢◌, refl, Option, none, some, ok, err, panic, Bool, true,
  false, if◌then◌else◌, List, [], ◌∷◌, ◌==◌, take,
}
use libunwinder.Prelude.Int.{ℤ, is_neg, is_zero, abs}
use libunwinder.Error.{
  LibunwindPhase, LibunwindError, libunwind_error, from_status, get_register,
  get_instruction_pointer, init_remote, step,
}
use libunwinder.ModuleSet.{ModuleSet}
use libunwinder.UnwindCtx.{UnwindCtx}
use libunwinder.Callbacks.Accessors.{Call}
use libunwinder.Libunwind.{Library}
use libunwinder.Libunwind.Calls.{run}
use libunwinder.Libunwind.Total.{IsTotal, Returns, AreTotal, HasStatuses, IsStatus, run-IsTotal}
use libunwinder.AddressSpace.{
  Attempt, pure, fail, ◌>>=◌, set, get_extras, no_extras, outcome_of, read_step, init_and_step,
}

-- Not a panic.
abbrev pub IsSettled : {A : Type 0} → Attempt A → Type 0
IsSettled (ok a) = Unit
IsSettled (err e) = Unit
IsSettled panic = ⊥

libunwind_error-ne-none :
    (phase : LibunwindPhase) (status : ℤ) → IsStatus status → libunwind_error phase status ≢ none
unfolding libunwind_error from_status
libunwind_error-ne-none phase status known h = elim (Option-cases (abs status)) [
  | inl e ↦ known e
  | inr (v, e) ↦ cc (rw e at h)
]

module _ {Regs : Type 0} (modules : ModuleSet) where
  IsTotal-bind :
      {A B : Type 0} (Q : A → Type 0) (R : B → Type 0) (m : Call Regs A) (f : A → Call Regs B)
      → IsTotal modules Q m
      → ((a : A) → Q a → IsTotal modules R (f a))
      → IsTotal modules R (m >>= f)
  IsTotal-bind {A} Q R m f km kf = record { at = λ ctx h. by_outcome (m ctx) (km.at ctx h) }
    where
      by_outcome :
          (r : Option (A × UnwindCtx Regs))
          → Returns modules Q r
          → Returns modules R (elim r [ none ↦ none | some (a, ctx') ↦ f a ctx' ])
      by_outcome none h = absurd h
      by_outcome (some (a, ctx)) h = (kf a h.1).at ctx h.0

  IsTotal-pure :
      {A : Type 0} (Q : A → Type 0) (a : A) → Q a → IsTotal {Regs = Regs} modules Q (pure a)
  IsTotal-pure Q a q = record { at = λ ctx h. (h, q) }

  IsTotal-fail :
      {A : Type 0} (phase : LibunwindPhase) (status : ℤ)
      → IsStatus status
      → IsTotal {Regs = Regs} modules IsSettled (fail {A = A} phase status)
  IsTotal-fail {A} phase status known = record {
    at = λ ctx h.
        by_error (libunwind_error phase status) ctx (libunwind_error-ne-none phase status known) h;
  }
    where
      by_error :
          (o : Option LibunwindError) (ctx : UnwindCtx Regs)
          → o ≢ none
          → ctx.modules ≡ modules
          → Returns modules
              (IsSettled {A = A})
              (elim o [ none ↦ none | some e ↦ some (err e, ctx) ])
      by_error none ctx n h = absurd (n refl)
      by_error (some e) ctx n h = (h, tt)

  IsTotal-if :
      {A : Type 0} (Q : A → Type 0) (t : Bool) (m n : Call Regs A)
      → IsTotal modules Q m
      → IsTotal modules Q n
      → IsTotal modules Q (if t then m else n)
  IsTotal-if Q true m n km kn = km
  IsTotal-if Q false m n km kn = kn

  IsTotal-outcome_of :
      (new_ip : ℕ) (r : Attempt (List ℕ))
      → IsSettled r
      → IsTotal {Regs = Regs} modules IsSettled (outcome_of new_ip r)
  IsTotal-outcome_of new_ip (ok extras) q = IsTotal-pure IsSettled _ tt
  IsTotal-outcome_of new_ip (err e) q = IsTotal-pure IsSettled _ tt
  IsTotal-outcome_of new_ip panic q = absurd q

module _ {Cursor Regs : Type 0} (lib : Library Cursor) (statuses : HasStatuses lib)
    (access : ℤ → ℕ → ℤ → Regs → (ℤ × ℕ) × Regs) (modules : ModuleSet)
    (total : AreTotal modules access) where
  abbrev Fetched : (ℤ × ℕ) × Cursor → Type 0
  Fetched r = IsStatus r.0.0

  abbrev Moved : ℤ × Cursor → Type 0
  Moved r = IsStatus r.0

  get_extras-IsTotal :
      (cursor : Cursor) (regs : List ℤ) (index : ℕ) (extras : List ℕ)
      → IsTotal modules IsSettled (get_extras lib access cursor regs index extras)
  unfolding get_extras
  get_extras-IsTotal cursor [] index extras = IsTotal-pure modules IsSettled _ tt
  get_extras-IsTotal cursor (reg ∷ regs) index extras =
      IsTotal-bind modules Fetched IsSettled (run access (lib.get_reg cursor reg 0)) _
        (run-IsTotal modules access total Fetched _ (statuses.get_reg cursor reg 0))
        λ got known.
          IsTotal-if modules IsSettled (is_neg got.0.0) _ _
            (IsTotal-if modules IsSettled (index == 0) _ _
              (IsTotal-fail modules (get_register reg) got.0.0 known)
              (get_extras-IsTotal got.1 regs (suc index) extras))
            (get_extras-IsTotal got.1 regs (suc index) (set extras index got.0.1))

  read_step-IsTotal :
      (ip_reg : ℤ) (extra_regs : List ℤ) (cursor : Cursor)
      → IsTotal modules IsSettled (read_step lib access ip_reg extra_regs cursor)
  unfolding read_step
  read_step-IsTotal ip_reg extra_regs cursor =
      IsTotal-bind modules Fetched IsSettled (run access (lib.get_reg cursor ip_reg 0)) _
        (run-IsTotal modules access total Fetched _ (statuses.get_reg cursor ip_reg 0))
        λ got known.
          IsTotal-if modules IsSettled (is_neg got.0.0) _ _
            (IsTotal-fail modules get_instruction_pointer got.0.0 known)
            (IsTotal-bind modules IsSettled IsSettled
              (get_extras lib access got.1 (take 4 extra_regs) 0 no_extras) _
              (get_extras-IsTotal got.1 (take 4 extra_regs) 0 no_extras)
              (IsTotal-outcome_of modules got.0.1))

  pub init_and_step-IsTotal :
      (ip_reg : ℤ) (extra_regs : List ℤ) (zeroed : Cursor)
      → IsTotal modules IsSettled (init_and_step lib access ip_reg extra_regs zeroed)
  unfolding init_and_step
  init_and_step-IsTotal ip_reg extra_regs zeroed =
      IsTotal-bind modules Moved IsSettled (run access (lib.init_remote zeroed)) _
        (run-IsTotal modules access total Moved _ (statuses.init_remote zeroed))
        λ init known.
          IsTotal-if modules IsSettled (is_neg init.0) _ _
            (IsTotal-fail modules init_remote init.0 known)
            (IsTotal-bind modules Moved IsSettled (run access (lib.step init.1)) _
              (run-IsTotal modules access total Moved _ (statuses.step init.1))
              λ moved known'.
                IsTotal-if modules IsSettled (is_neg moved.0) _ _
                  (IsTotal-fail modules step moved.0 known')
                  (IsTotal-if modules IsSettled (is_zero moved.0) _ _
                    (IsTotal-pure modules IsSettled _ tt)
                    (read_step-IsTotal ip_reg extra_regs moved.1)))
