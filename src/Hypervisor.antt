-- ===== src/Hypervisor.antt =====
-- hypervisor/src/hypervisor.rs: the handling of VM exits and the fuzzing loop, on one processor.
--
-- A run of the guest is given by what it leaves: an `Exit` has the state of the hardware and the
-- contents of memory after `vm.vt.run()`, the reason it returns and the time stamps that `rdtsc`
-- returns afterwards.
pub mod Sources
pub mod Counts
pub mod Faults
pub mod Lasting
pub mod Progress
pub mod Iterations
pub mod Backed
pub mod Backing
pub mod Contents
pub mod Located
pub mod Coverage
pub mod Fuzzing
pub mod Reports
mod Tests
mod Results
pub use Results.*
use hypervisor_101_in_rust.Prelude.{
  ℕ, suc, ◌+◌, ◌*◌, ◌/◌, ◌%◌, ◌^◌, Bool, true, false, ◌&&◌, ◌||◌, not, Option, none, some, List, [],
  ◌∷◌, ◌++◌, ◌⊎◌, inl, inr, Exec, ok, panic, ◌>>=◌, ltb, ◌==◌, if◌then◌else◌, wrapping_add,
  wrapping_sub,
}
use hypervisor_101_in_rust.Config.{Features, guest_exec_timeout_in_tsc}
use hypervisor_101_in_rust.Memory.{Memory}
use hypervisor_101_in_rust.Input.{InputFile}
use hypervisor_101_in_rust.HardwareVt.{
  GuestException, break_point, invalid_opcode, page_fault, NestedPageFaultQualification,
  ExceptionQualification, VmExitReason, nested_page_fault, exception, external_interrupt_or_pause,
  timer_expiration, shutdown, unexpected, HardwareVt,
}
use hypervisor_101_in_rust.Vm.{Vm, build_translation, copy_on_write, revert_dirty_memory}
use hypervisor_101_in_rust.Patch.{PatchEntry, PatchSet, find, revert}
use hypervisor_101_in_rust.Snapshot.{Snapshot, File, resolve_page_from_snapshot}
use hypervisor_101_in_rust.Mutation.{
  MutationEngine, resolve_page_from_input_data, map_and_mutate_input, size, is_mutated, to_file,
}
use hypervisor_101_in_rust.Corpus.{Corpus, add_file}
use hypervisor_101_in_rust.Stats
use hypervisor_101_in_rust.Stats.{RunStats, Totals, update_stats, is_empty}

-- `resolve_pa_for_gpa` on what `resolve_page_from_input_data` returns for the frame.
unfoldable pub or_unbacked : (pfn : ℕ) → Option ℕ → ℕ ⊎ VmExitResult
or_unbacked pfn (some pa) = inl pa
or_unbacked pfn none =
    if pfn == 0
    then inr (abort_vm null_page_access)
    else if pfn == 0xf_ffff_ffff_ffff
    then inr (abort_vm negative_page_access)
    else inr (abort_vm invalid_page_access)

-- `resolve_pa_for_gpa` on what `resolve_page_from_snapshot` returns for the frame.
unfoldable pub or_input_data :
    Setup → MutationEngine → (pfn : ℕ) → Option ℕ → Exec (ℕ ⊎ VmExitResult)
unfolding or_unbacked
or_input_data g e pfn (some pa) = ok (inl pa)
or_input_data g e pfn none =
    resolve_page_from_input_data g.corpus.first_page g.corpus.end_page pfn e >>= λ page.
    ok (or_unbacked pfn page)

-- `resolve_pa_for_gpa`
unfoldable pub resolve_pa_for_gpa :
    Setup
    → MutationEngine
    → Snapshot
    → Memory
    → (gpa : ℕ) → Exec (Snapshot × Memory × (ℕ ⊎ VmExitResult))
unfolding or_input_data
resolve_pa_for_gpa g e s mem gpa = do
  (s', mem', page) ← resolve_page_from_snapshot g.file g.patches s mem (gpa / 2 ^ 12)
  resolved ← or_input_data g e (gpa / 2 ^ 12) page
  ok (s', mem', resolved)

-- The branch of `handle_interrupt_or_exception` for an address that has a patch.
unfoldable pub handle_at_patch :
    PatchEntry
    → Snapshot
    → Memory
    → RunStats
    → (rip : ℕ) → GuestException
    → Exec (Memory × RunStats × VmExitResult)
handle_at_patch entry s mem stats rip break_point = do
  mem' ← revert entry s.memory s.page_count mem
  ok (
    mem',
    record stats { newly_executed_basic_blks = stats.newly_executed_basic_blks ++ (rip ∷ []) },
    resume_vm,
  )
handle_at_patch entry s mem stats rip invalid_opcode = ok (mem, stats, abort_vm end_marker)
handle_at_patch entry s mem stats rip page_fault = ok (mem, stats, abort_vm unexpected_page_fault)

-- The branch for an address that has none.
unfoldable pub abort_on : GuestException → VmExitResult
abort_on break_point = abort_vm unexpected_breakpoint
abort_on invalid_opcode = abort_vm invalid_instruction
abort_on page_fault = abort_vm unexpected_page_fault

-- `handle_interrupt_or_exception`
unfoldable pub handle_interrupt_or_exception :
    PatchSet
    → Snapshot
    → Memory
    → RunStats
    → ExceptionQualification
    → Exec (Memory × RunStats × VmExitResult)
unfolding handle_at_patch abort_on
handle_interrupt_or_exception patches s mem stats q = elim (find patches q.rip) [
  | some entry ↦ handle_at_patch entry s mem stats q.rip q.exception_code
  | none ↦ ok (mem, stats, abort_on q.exception_code)
]

unfoldable pub handle_timer_expiration : RunStats → RunStats × VmExitResult
handle_timer_expiration stats = (record stats { hang_count = 1 }, abort_vm hang)

-- The time that the guest has run.
abbrev pub guest_spent_tsc : (tsc : ℕ) → RunStats → ℕ
guest_spent_tsc tsc stats = wrapping_sub (wrapping_sub tsc stats.start_tsc) stats.host_spent_tsc

-- `handle_external_interrupt_or_pause`, where `tsc` is what `rdtsc` returns.
unfoldable pub handle_external_interrupt_or_pause : (tsc : ℕ) → RunStats → RunStats × VmExitResult
unfolding handle_timer_expiration
handle_external_interrupt_or_pause tsc stats =
    if ltb (guest_spent_tsc tsc stats) guest_exec_timeout_in_tsc
    then (stats, resume_vm)
    else handle_timer_expiration stats

module _ {V : Type 0} ⦃hw : HardwareVt V⦄ where
  -- The end of `handle_nested_page_fault`.
  resume : Vm V → Snapshot → Memory → Exec (Machine V × VmExitResult)
  resume vm s mem = do
    vt ← hw.invalidate_caches vm.vt
    ok (record { vm = record vm { vt = vt }; snapshot = s; memory = mem }, resume_vm)

  -- `handle_nested_page_fault` on what `copy_on_write` returns.
  after_copy : Vm V → Snapshot → Memory → Bool → Exec (Machine V × VmExitResult)
  unfolding resume
  after_copy vm s mem true = resume vm s mem
  after_copy vm s mem false =
      ok (record { vm = vm; snapshot = s; memory = mem }, abort_vm excessive_memory_write)

  -- `handle_nested_page_fault` after the translation is built.
  give_access : Vm V → Snapshot → Memory → (gpa pa : ℕ) → Bool → Exec (Machine V × VmExitResult)
  unfolding resume after_copy
  give_access vm s mem gpa pa write_access =
      if write_access
      then (copy_on_write vm mem gpa pa >>= λ (vm', mem', copied). after_copy vm' s mem' copied)
      else resume vm s mem

  -- `handle_nested_page_fault` on the result of `resolve_pa_for_gpa`.
  map_page :
      Vm V
      → Snapshot
      → Memory
      → NestedPageFaultQualification
      → ℕ ⊎ VmExitResult
      → Exec (Machine V × VmExitResult)
  unfolding give_access
  map_page vm s mem q (inr err) = ok (record { vm = vm; snapshot = s; memory = mem }, err)
  map_page vm s mem q (inl pa) = do
    vm' ← if q.missing_translation then build_translation vm q.gpa pa else ok vm
    give_access vm' s mem q.gpa pa q.write_access

  pub handle_nested_page_fault :
      Setup
      → MutationEngine
      → Machine V
      → NestedPageFaultQualification
      → Exec (Machine V × VmExitResult)
  unfolding resolve_pa_for_gpa map_page
  handle_nested_page_fault g e m q = do
    (s, mem, resolved) ← resolve_pa_for_gpa g e m.snapshot m.memory q.gpa
    map_page m.vm s mem q resolved

  -- The `match` on the exit reason in `start_vm`.
  pub handle_exit :
      Setup
      → MutationEngine
      → Machine V
      → RunStats
      → (tsc : ℕ) → VmExitReason
      → Exec (Machine V × RunStats × VmExitResult)
  unfolding handle_nested_page_fault handle_interrupt_or_exception handle_timer_expiration
      handle_external_interrupt_or_pause
  handle_exit g e m stats tsc (nested_page_fault q) = do
    (m', result) ← handle_nested_page_fault g e m q
    ok (m', stats, result)
  handle_exit g e m stats tsc (exception q) = do
    (mem, stats', result) ← handle_interrupt_or_exception g.patches m.snapshot m.memory stats q
    ok (record m { memory = mem }, stats', result)
  handle_exit g e m stats tsc external_interrupt_or_pause =
      let (stats', result) = handle_external_interrupt_or_pause tsc stats in ok (m, stats', result)
  handle_exit g e m stats tsc timer_expiration =
      let (stats', result) = handle_timer_expiration stats in ok (m, stats', result)
  handle_exit g e m stats tsc (shutdown code) = ok (m, stats, panic_with code)
  handle_exit g e m stats tsc (unexpected code) = ok (m, stats, abort_vm unhandled_vm_exit)

  -- `vmexit_count` and `host_spent_tsc` are updated after the handler.
  count_exit : Exit V → RunStats → RunStats
  count_exit x stats = record stats {
    vmexit_count = wrapping_add stats.vmexit_count 1;
    host_spent_tsc =
        wrapping_add stats.host_spent_tsc (wrapping_sub x.host_end_tsc x.host_start_tsc);
  }

  -- The end of the loop's body: the VM resumes, and `rest` are the further iterations, or it is
  -- aborted, or the hypervisor panics.
  after_exit :
      Exit V
      → Machine V
      → RunStats
      → VmExitResult
      → (rest : Machine V → RunStats → Exec (Machine V × RunStats × Option AbortReason))
      → Exec (Machine V × RunStats × Option AbortReason)
  after_exit x m stats resume_vm rest = rest m stats
  after_exit x m stats (abort_vm reason) rest =
      ok (m, record stats { total_tsc = wrapping_sub x.stop_tsc stats.start_tsc }, some reason)
  after_exit x m stats (panic_with code) rest = panic

  -- The loop of `start_vm` on a sequence of exits. The reason is none if the guest runs on.
  pub run_exits :
      Setup
      → MutationEngine
      → List (Exit V)
      → Machine V
      → RunStats
      → Exec (Machine V × RunStats × Option AbortReason)
  unfolding handle_exit count_exit after_exit
  run_exits g e [] m stats = ok (m, stats, none)
  run_exits g e (x ∷ xs) m stats = do
    let m0 = record m { vm = record (m.vm) { vt = x.vt }; memory = x.memory }
    (m', stats', result) ← handle_exit g e m0 stats x.handler_tsc x.reason
    after_exit x m' (count_exit x stats') result (run_exits g e xs)

  -- `start_vm` before its loop, where `next` is the file of the corpus that `map_and_mutate_input`
  -- takes if it needs one, and `tsc` gives the time stamps that mutate it.
  pub prepare :
      Features
      → Setup
      → (tsc : ℕ → ℕ) → (next : InputFile) → MutationEngine
      → Machine V
      → Exec (MutationEngine × Machine V)
  prepare features g tsc next e m = do
    vm ← revert_dirty_memory m.vm
    vt ← hw.revert_registers vm.vt m.snapshot m.memory
    (e', mem) ← map_and_mutate_input features tsc next e m.memory
    vt' ← hw.adjust_registers vt g.corpus.data_gva (size e'.current_input)
    ok (e', record m { vm = record vm { vt = vt' }; memory = mem })

  -- `start_vm`, where `start_tsc` is the time stamp of `RunStats::new`.
  pub start_vm :
      Features
      → Setup
      → (tsc : ℕ → ℕ) → (next : InputFile) → (start_tsc : ℕ) → List (Exit V)
      → MutationEngine
      → Machine V
      → Exec (MutationEngine × Machine V × RunStats × Option AbortReason)
  unfolding prepare run_exits
  start_vm features g tsc next start_tsc exits e m = do
    (e', m') ← prepare features g tsc next e m
    (m'', stats, reason) ← run_exits g e' exits m' (Stats.new start_tsc)
    ok (e', m'', stats, reason)
