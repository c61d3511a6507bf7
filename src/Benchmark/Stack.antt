-- ===== src/Benchmark/Stack.antt =====
-- `unwind_stack`: the frames of a snapshot's stack inside the loaded module, by the x86-64 unwinder.
use libunwinder.Prelude.{
  ℕ, ◌+◌, ◌<◌, ◌≡◌, arith, Bool, true, false, ◌&&◌, none, some, Result, ok, drop, inl, inr,
  Option-cases, if◌then◌else◌, refl,
}
use libunwinder.Prelude.BTreeMap.{last_le}
use libunwinder.Prelude.BTreeMap.Laws.{last_le-some}
use libunwinder.FrameAddress.{FrameAddress, instruction_pointer, address_for_lookup}
use libunwinder.Module.{ModuleData, FunctionDetails}
use libunwinder.ModuleSet.{
  ModuleSet, CacheStore, FunctionCache, is_signal_frame, find_module, covering_function,
}
use libunwinder.ModuleSet.Lookup.{IsWellFormed}
use libunwinder.Callbacks.{parse_function_details}
use libunwinder.Callbacks.Context.{OwnsCaches, AreCachesOf}
use libunwinder.Callbacks.Total.{IsServable}
use libunwinder.Libunwind.{Library}
use libunwinder.Libunwind.Total.{HasStatuses}
use libunwinder.Unwind.Errors.{IsExplained}
use libunwinder.UnwindIterator.{walk, iter_frames}
use libunwinder.X8664.{UnwindRegs, new}
use libunwinder.X8664.Unwind.{unwinder, unwind_frame}
use libunwinder.X8664.Unwind.Promises.{
  unwind_frame-IsAdvance, unwind_frame-ne-panic, unwind_frame-AreCachesOf, unwind_frame-IsFailure,
}
use libunwinder.Benchmark.{Failure}
use libunwinder.Benchmark.Snapshot.{Snapshot, read_stack}
use libunwinder.Benchmark.Loading.{LoadedModule}
use libunwinder.Benchmark.Counting.{count_frames, max_frames}
use libunwinder.Benchmark.Counting.Frames.{
  IsCount, count_frames-IsCount, leading, count_frames-walk,
}

module _ {Cursor : Type 0} (lib : Library Cursor) (zeroed : Cursor) where
  -- The caches behind the module's mutexes are passed on.
  unfoldable pub unwind_stack :
      {IoError ObjectError : Type 0}
      → LoadedModule
      → Snapshot
      → CacheStore
      → Result (Failure IoError ObjectError) ℕ × (UnwindRegs × CacheStore)
  unwind_stack l s caches =
      count_frames (unwinder lib zeroed l.modules (read_stack s)) l.avma_range s.ip
        (new s.ip s.sp s.bp, caches)

-- No function of the modules is a signal frame.
abbrev pub HasNoSignals : (ℕ → ModuleData) → Type 0
HasNoSignals made =
    (i ip : ℕ) (d : FunctionDetails)
    → parse_function_details (made i) ip ≡ ok d
    → d.signal_frame ≡ false

in_cache :
    (c : FunctionCache) (addr : ℕ) (p : Bool)
    → ((k : ℕ) (d : FunctionDetails)
        → last_le addr c.functions ≡ some (k, d)
        → d.signal_frame ≡ false)
    → (if p then false else elim (last_le addr c.functions) [
      | none ↦ false
      | some (_, details) ↦ covering_function addr details && details.signal_frame
    ])
      ≡ false
in_cache c addr true quiet = refl
in_cache c addr false quiet = elim (Option-cases (last_le addr c.functions)) [
  | inl e ↦ rw e refl
  | inr ((k, d), e) ↦ rw e (ground (arith, quiet k d e))
]

is_signal_frame-false :
    (made : ℕ → ModuleData) (caches : CacheStore) (modules : ModuleSet) (addr : ℕ)
    → HasNoSignals made
    → AreCachesOf made caches
    → is_signal_frame caches modules addr ≡ false
unfolding is_signal_frame
is_signal_frame-false made caches modules addr quiet all =
    elim (Option-cases (find_module modules addr)) [
      | inl e ↦ rw (e, is_signal_frame) refl
      | inr (m, e) ↦
          rw (e, is_signal_frame)
            (in_cache (caches m.cache_id) addr (caches m.cache_id).poisoned λ k d found.
              let (low, at, above) =
                last_le-some addr (caches m.cache_id).functions k d (all m.cache_id).ascending
                  found in
              let (ip, parsed) = (all m.cache_id).parsed k d at in quiet m.cache_id ip d parsed)
    ]

module _ (IoError ObjectError : Type 0) {Cursor : Type 0} (lib : Library Cursor) (zeroed : Cursor)
    (l : LoadedModule) (s : Snapshot) (caches : CacheStore) (made : ℕ → ModuleData)
    (well_formed : IsWellFormed l.modules) (owns : OwnsCaches made l.modules)
    (all : AreCachesOf made caches) where
  abbrev IsKept : UnwindRegs × CacheStore → Type 0
  IsKept state = AreCachesOf made state.1

  keeps :
      (f : FrameAddress) (state : UnwindRegs × CacheStore)
      → IsKept state
      → IsKept (unwind_frame lib zeroed l.modules (read_stack s) f state.0 state.1).1
  keeps f state kept =
      unwind_frame-AreCachesOf lib zeroed l.modules (read_stack s) f state.0 state.1 made
        well_formed owns kept

  -- If libunwind returns, with statuses above `i32::MIN`, and the modules are servable and have
  -- caches of their own with parses of them, `unwind_stack` ends. It counts the first frame and
  -- each step from one address inside the module to the next, up to the first that leads elsewhere
  -- or finds the end of the stack, 256 frames at most; or it fails because there are 257, or with
  -- the error of a step, which is true of the snapshot and the modules.
  pub unwind_stack-IsCount :
      HasStatuses lib
      → IsServable l.modules
      → IsCount {IoError = IoError} {ObjectError = ObjectError}
          (unwinder lib zeroed l.modules (read_stack s))
          l.avma_range
          (λ e. (ip : ℕ) × IsExplained l.modules (read_stack s) ip e)
          1
          (unwind_frame lib zeroed l.modules
            (read_stack s)
            (instruction_pointer s.ip)
            (new s.ip s.sp s.bp)
            caches)
          (unwind_stack lib zeroed l s caches).0
  unfolding unwind_stack
  unwind_stack-IsCount statuses servable =
      count_frames-IsCount IoError ObjectError (unwinder lib zeroed l.modules (read_stack s))
        l.avma_range IsKept keeps (λ e. (ip : ℕ) × IsExplained l.modules (read_stack s) ip e)
        (λ f state kept.
          unwind_frame-ne-panic lib zeroed l.modules (read_stack s) f state.0 state.1 statuses
            servable)
        (λ f state e kept h. (
          address_for_lookup f,
          (unwind_frame-IsFailure lib zeroed l.modules (read_stack s) f state.0 state.1 made
              well_formed owns kept e h).0,
        ))
        s.ip (new s.ip s.sp s.bp, caches) all

  -- In a well-formed index whose modules have caches of their own with parses of them, none of a
  -- signal frame, a count that `unwind_stack` returns is that of the first frame of the iterator
  -- and of those behind it up to the first one outside the module, for a walk of more than 256
  -- rounds, whatever libunwind does.
  pub unwind_stack-walk :
      (fuel n : ℕ)
      → HasNoSignals made
      → max_frames < fuel
      → ◌≡◌ {A = Result (Failure IoError ObjectError) ℕ}
          (unwind_stack lib zeroed l s caches).0
          (ok n)
      → n
        ≡ 1
          + leading l.avma_range (
              drop 1
                (walk
                  (unwinder lib zeroed l.modules (read_stack s))
                  fuel
                  (iter_frames s.ip (new s.ip s.sp s.bp, caches))).0)
  unfolding unwind_stack
  unwind_stack-walk fuel n quiet enough h =
      count_frames-walk IoError ObjectError (unwinder lib zeroed l.modules (read_stack s))
        l.avma_range IsKept keeps
        (λ f state kept.
          is_signal_frame-false made state.1 l.modules (address_for_lookup f) quiet kept)
        (λ f state ip kept found.
          (unwind_frame-IsAdvance lib zeroed l.modules (read_stack s) f state.0 state.1 ip
            found).nonzero)
        fuel s.ip n (new s.ip s.sp s.bp, caches) all enough h
