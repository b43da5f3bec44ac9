-- ===== src/Hypervisor/Iterations/Tests.antt =====
-- An iteration in which the guest writes to a page and then times out.
use hypervisor_101_in_rust.Prelude.{
  Satisfies, ℕ, ◌⊎◌, ◌+◌, ◌≤◌, ◌≡◌, refl, sym, ap, subst, ◌∙◌, arith, false, inl, Exec, ok, panic,
  Option, none,
}
use hypervisor_101_in_rust.Config.{Features}
use hypervisor_101_in_rust.Memory.{Memory}
use hypervisor_101_in_rust.HardwareVt.Entry.{next_table, set_translation}
use hypervisor_101_in_rust.HardwareVt.Svm
use hypervisor_101_in_rust.Mutation
use hypervisor_101_in_rust.Vm
use hypervisor_101_in_rust.Vm.{Vm}
use hypervisor_101_in_rust.Vm.Paging.{leaf}
use hypervisor_101_in_rust.Vm.Tests.{svm, svm_vt-IsLawful, empty_vm, empty_vm-IsSound}
use hypervisor_101_in_rust.Vm.Rounds.{IsStart, Runs, Runs-start}
use hypervisor_101_in_rust.Snapshot.{
  Snapshot, resolve_page_from_snapshot, contains_page, page_in, read_page_from_snapshot,
}
use hypervisor_101_in_rust.Patch.{apply}
use hypervisor_101_in_rust.Stats
use hypervisor_101_in_rust.Stats.{RunStats}
use hypervisor_101_in_rust.Mutation.{MutationEngine, map_and_mutate_input}
use hypervisor_101_in_rust.Mutation.Tests.{two_bytes}
use hypervisor_101_in_rust.Hypervisor.{
  AbortReason, Machine, VmExitResult, resolve_pa_for_gpa, handle_nested_page_fault, prepare,
  start_vm, run_exits, handle_exit, map_page, give_access, after_copy, resume, after_exit,
  count_exit, handle_external_interrupt_or_pause, handle_timer_expiration,
}
use hypervisor_101_in_rust.Hypervisor.Tests.{setup, engine, machine, write_fault, exits}
use hypervisor_101_in_rust.Hypervisor.Lasting.{AreSuch}
use hypervisor_101_in_rust.Hypervisor.Iterations.{
  AreGenuine, Extends, Iterations, no_round, round, Iterations-IsStart,
}
use hypervisor_101_in_rust.Hypervisor.Backing.{IsBacked, handle_nested_page_fault-IsBacked}
use hypervisor_101_in_rust.Hypervisor.Progress.{IsFault, Served, handle_nested_page_fault-Served}

abbrev pub features : Features
features = record {
  random_byte_modification = false;
  stdout_stats_report = false;
  trace_log = false;
}

abbrev pub tsc : ℕ → ℕ
tsc n = n

pub empty_vm-IsStart : IsStart ⦃hw = svm⦄ empty_vm
unfolding Vm.new leaf
empty_vm-IsStart = record { sound = empty_vm-IsSound; none_dirty = refl; unwritten = λ g. inl refl }

pub empty_vm-Runs : Runs ⦃hw = svm⦄ empty_vm empty_vm
empty_vm-Runs = Runs-start ⦃hw = svm⦄ svm_vt-IsLawful empty_vm empty_vm-IsStart

pub write_fault-IsFault : IsFault ⦃hw = svm⦄ svm_vt-IsLawful empty_vm write_fault
unfolding Vm.new leaf
write_fault-IsFault = record { missing = refl; denied = refl }

abbrev pub paged : Snapshot × Memory
paged = paged_of (resolve_pa_for_gpa setup engine machine.snapshot machine.memory 0x1004)
  where
    paged_of : Exec (Snapshot × Memory × (ℕ ⊎ VmExitResult)) → Snapshot × Memory
    paged_of (ok (s, mem, resolved)) = (s, mem)
    paged_of panic = (machine.snapshot, machine.memory)

resolved :
    resolve_pa_for_gpa setup engine machine.snapshot machine.memory 0x1004
    ≡ ok (paged.0, paged.1, inl 0x10_1000)
unfolding resolve_pa_for_gpa resolve_page_from_snapshot contains_page page_in
    read_page_from_snapshot apply
resolved = refl

abbrev pub prepared : MutationEngine × Machine Unit
prepared = prepared_of (prepare ⦃hw = svm⦄ features setup tsc two_bytes engine machine)
  where
    prepared_of : Exec (MutationEngine × Machine Unit) → MutationEngine × Machine Unit
    prepared_of (ok r) = r
    prepared_of panic = (engine, machine)

pub preparation : prepare ⦃hw = svm⦄ features setup tsc two_bytes engine machine ≡ ok prepared
unfolding prepare Vm.revert_dirty_memory Vm.new map_and_mutate_input Mutation.new
preparation = refl

abbrev fuzzed : MutationEngine × Machine Unit × RunStats × Option AbortReason
fuzzed = fuzzed_of (start_vm ⦃hw = svm⦄ features setup tsc two_bytes 50 exits engine machine)
  where
    fuzzed_of :
        Exec (MutationEngine × Machine Unit × RunStats × Option AbortReason)
        → MutationEngine × Machine Unit × RunStats × Option AbortReason
    fuzzed_of (ok r) = r
    fuzzed_of panic = (engine, machine, Stats.new 50, none)

iteration : start_vm ⦃hw = svm⦄ features setup tsc two_bytes 50 exits engine machine ≡ ok fuzzed
unfolding start_vm prepare Vm.revert_dirty_memory Vm.new map_and_mutate_input Mutation.new run_exits
    handle_exit handle_nested_page_fault map_page give_access after_copy resume resolve_pa_for_gpa
    resolve_page_from_snapshot contains_page page_in read_page_from_snapshot apply
    Vm.build_translation Vm.copy_on_write Vm.walk Vm.walk_table next_table set_translation
    Svm.nps_entry_flags handle_external_interrupt_or_pause handle_timer_expiration after_exit
    count_exit Stats.new
iteration = refl

abbrev pub of_ok : Exec (MutationEngine × Machine Unit) → MutationEngine × Machine Unit
of_ok (ok r) = r
of_ok panic = prepared

prepared-AreGenuine :
    AreGenuine ⦃hw = svm⦄ svm_vt-IsLawful setup prepared.0 exits prepared.1 (Stats.new 50)
unfolding AreSuch prepare Vm.revert_dirty_memory Vm.new map_and_mutate_input Mutation.new leaf
prepared-AreGenuine =
    (record { missing = refl; denied = refl }, λ m stats did. (tt, λ m' stats' did'. tt))

one_round : Iterations ⦃hw = svm⦄ svm_vt-IsLawful setup machine fuzzed.1
unfolding prepare
one_round = round no_round (record {
  features = features;
  tsc = tsc;
  next = two_bytes;
  start_tsc = 50;
  exits = exits;
  before = engine;
  after = fuzzed.0;
  stats = fuzzed.2;
  reason = fuzzed.3;
  done = iteration;
  genuine = λ e m did.
      subst
        (λ (p : MutationEngine × Machine Unit).
          AreGenuine ⦃hw = svm⦄ svm_vt-IsLawful setup p.0 exits p.1 (Stats.new 50))
        (ap of_ok (sym preparation ∙ did)) prepared-AreGenuine;
})

Iterations-IsStart_example :
    Satisfies
      (λ (r : MutationEngine × Machine Unit).
        IsStart ⦃hw = svm⦄ r.1.vm × Extends ⦃hw = svm⦄ svm_vt-IsLawful empty_vm r.1.vm)
      (prepare ⦃hw = svm⦄ features setup tsc two_bytes fuzzed.0 fuzzed.1)
Iterations-IsStart_example =
    Iterations-IsStart ⦃hw = svm⦄ svm_vt-IsLawful empty_vm setup machine fuzzed.1 features tsc
      two_bytes fuzzed.0 empty_vm-Runs empty_vm-IsStart one_round

room : empty_vm.used_nps_count + 3 ≤ empty_vm.nps_count
unfolding Vm.new
room = omega arith

handle_nested_page_fault-Served_example :
    Served ⦃hw = svm⦄ svm_vt-IsLawful empty_vm write_fault.gpa write_fault.write_access
      (handle_nested_page_fault ⦃hw = svm⦄ setup engine machine write_fault)
handle_nested_page_fault-Served_example =
    handle_nested_page_fault-Served ⦃hw = svm⦄ svm_vt-IsLawful (λ v. (v, refl)) empty_vm setup
      engine machine write_fault resolved room write_fault-IsFault empty_vm-Runs

empty_vm-IsBacked :
    IsBacked ⦃hw = svm⦄ svm_vt-IsLawful setup engine empty_vm machine.snapshot empty_vm
unfolding Vm.new Vm.revert_entries leaf
empty_vm-IsBacked = record { runs = empty_vm-Runs; backed = λ h ne. absurd (ne refl) }

handle_nested_page_fault-IsBacked_example :
    Satisfies
      (λ (r : Machine Unit × VmExitResult).
        IsBacked ⦃hw = svm⦄ svm_vt-IsLawful setup engine empty_vm r.0.snapshot r.0.vm)
      (handle_nested_page_fault ⦃hw = svm⦄ setup engine machine write_fault)
handle_nested_page_fault-IsBacked_example =
    handle_nested_page_fault-IsBacked ⦃hw = svm⦄ svm_vt-IsLawful setup engine empty_vm machine
      write_fault write_fault-IsFault empty_vm-IsBacked
