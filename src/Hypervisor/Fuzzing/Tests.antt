-- ===== src/Hypervisor/Fuzzing/Tests.antt =====
-- An iteration in which the guest writes to a page of the snapshot, and the start of the next.
use hypervisor_101_in_rust.Prelude.{
  ℕ, ◌*◌, ◌/◌, ◌^◌, true, ◌≤◌, ◌<◌, ◌≡◌, ◌≢◌, refl, sym, ap, subst, ◌∙◌, arith, Exec, ok, panic,
  Option, none, List, [], ◌∷◌, Satisfies, Satisfies-ok, length,
}
use hypervisor_101_in_rust.Memory.{write_page, page_size}
use hypervisor_101_in_rust.HardwareVt.{nested_page_fault, external_interrupt_or_pause}
use hypervisor_101_in_rust.HardwareVt.Entry.{next_table, set_translation, address}
use hypervisor_101_in_rust.HardwareVt.Svm
use hypervisor_101_in_rust.Mutation
use hypervisor_101_in_rust.Mutation.{MutationEngine, map_and_mutate_input}
use hypervisor_101_in_rust.Mutation.Tests.{two_bytes}
use hypervisor_101_in_rust.Vm
use hypervisor_101_in_rust.Vm.{translation}
use hypervisor_101_in_rust.Vm.Paging.{leaf}
use hypervisor_101_in_rust.Vm.Private.{IsWritable, IsPrivate, IsStart-IsPrivate}
use hypervisor_101_in_rust.Vm.Tests.{svm, svm_vt-IsLawful, empty_vm}
use hypervisor_101_in_rust.Snapshot.{
  contains, resolve_page_from_snapshot, page_address, contains_page, page_in,
  read_page_from_snapshot,
}
use hypervisor_101_in_rust.Patch.{apply}
use hypervisor_101_in_rust.Stats
use hypervisor_101_in_rust.Stats.{RunStats}
use hypervisor_101_in_rust.Hypervisor.{
  AbortReason, Machine, Exit, VmExitResult, resume_vm, resolve_pa_for_gpa, handle_nested_page_fault,
  prepare, start_vm, run_exits, handle_exit, map_page, give_access, after_copy, resume, after_exit,
  count_exit, handle_external_interrupt_or_pause, handle_timer_expiration,
}
use hypervisor_101_in_rust.Hypervisor.Tests.{setup, engine, machine, write_fault}
use hypervisor_101_in_rust.Hypervisor.Iterations.Tests.{
  features, tsc, prepared, preparation, of_ok, empty_vm-IsStart, empty_vm-Runs,
}
use hypervisor_101_in_rust.Hypervisor.Lasting.{AreSuch}
use hypervisor_101_in_rust.Hypervisor.Located.{IsGpa, IsOwn, IsLocated}
use hypervisor_101_in_rust.Snapshot.Paged.{gdt_pfn}
use hypervisor_101_in_rust.Hypervisor.Contents.{IsApart, IsConfined, IsFaithful, IsProper}
use hypervisor_101_in_rust.Hypervisor.Fuzzing.Start.{prepare-IsLocated}
use hypervisor_101_in_rust.Hypervisor.Fuzzing.{
  Sees, IsReady, Rounds, not_started, then_round, Rounds-Sees, run_exits-isolates,
}

-- The first exit is a write to the page at 0x1000, which is given the dirty page at 0x400_0000.
abbrev first_exit : Exit Unit
first_exit = record {
  vt = tt;
  memory = prepared.1.memory;
  reason = nested_page_fault write_fault;
  host_start_tsc = 100;
  handler_tsc = 110;
  host_end_tsc = 120;
  stop_tsc = 130;
}

abbrev pub handled : Machine Unit × RunStats × VmExitResult
handled = handled_of (
    handle_exit ⦃hw = svm⦄ setup prepared.0 prepared.1 (Stats.new 50) 110
      (nested_page_fault write_fault))
  where
    handled_of :
        Exec (Machine Unit × RunStats × VmExitResult) → Machine Unit × RunStats × VmExitResult
    handled_of (ok r) = r
    handled_of panic = (machine, Stats.new 50, resume_vm)

own_page : address (translation handled.0.vm 0x1004) ≡ 0x400_0000
unfolding handle_exit handle_nested_page_fault map_page give_access after_copy resume
    resolve_pa_for_gpa resolve_page_from_snapshot contains_page page_in read_page_from_snapshot
    apply Vm.build_translation Vm.copy_on_write Vm.walk Vm.walk_table next_table set_translation
    Svm.nps_entry_flags prepare Vm.revert_dirty_memory Vm.new map_and_mutate_input Mutation.new leaf
own_page = refl

-- The guest then writes to that page, until its time is up.
abbrev second_exit : Exit Unit
second_exit = record {
  vt = tt;
  memory = write_page handled.0.memory 0x400_0000 (λ i. 7);
  reason = external_interrupt_or_pause;
  host_start_tsc = 300_000_000;
  handler_tsc = 300_000_010;
  host_end_tsc = 300_000_020;
  stop_tsc = 300_000_030;
}

abbrev exits : List (Exit Unit)
exits = first_exit ∷ second_exit ∷ []

abbrev fuzzed : MutationEngine × Machine Unit × RunStats × Option AbortReason
fuzzed = fuzzed_of (start_vm ⦃hw = svm⦄ features setup tsc two_bytes 50 exits engine machine)
  where
    fuzzed_of :
        Exec (MutationEngine × Machine Unit × RunStats × Option AbortReason)
        → MutationEngine × Machine Unit × RunStats × Option AbortReason
    fuzzed_of (ok r) = r
    fuzzed_of panic = (engine, machine, Stats.new 50, none)

iteration : start_vm ⦃hw = svm⦄ features setup tsc two_bytes 50 exits engine machine ≡ ok fuzzed
unfolding start_vm prepare Vm.revert_dirty_memory Vm.new map_and_mutate_input Mutation.new run_exits
    handle_exit handle_nested_page_fault map_page give_access after_copy resume resolve_pa_for_gpa
    resolve_page_from_snapshot contains_page page_in read_page_from_snapshot apply
    Vm.build_translation Vm.copy_on_write Vm.walk Vm.walk_table next_table set_translation
    Svm.nps_entry_flags handle_external_interrupt_or_pause handle_timer_expiration after_exit
    count_exit Stats.new
iteration = refl

pub handling :
    handle_exit ⦃hw = svm⦄ setup prepared.0 prepared.1
      (Stats.new 50)
      110
      (nested_page_fault write_fault)
    ≡ ok handled
unfolding handle_exit handle_nested_page_fault map_page give_access after_copy resume
    resolve_pa_for_gpa resolve_page_from_snapshot contains_page page_in read_page_from_snapshot
    apply Vm.build_translation Vm.copy_on_write Vm.walk Vm.walk_table next_table set_translation
    Svm.nps_entry_flags prepare Vm.revert_dirty_memory Vm.new map_and_mutate_input Mutation.new
handling = refl

pub mapped : IsWritable ⦃hw = svm⦄ handled.0.vm 0x1004
unfolding handle_exit handle_nested_page_fault map_page give_access after_copy resume
    resolve_pa_for_gpa resolve_page_from_snapshot contains_page page_in read_page_from_snapshot
    apply Vm.build_translation Vm.copy_on_write Vm.walk Vm.walk_table next_table set_translation
    Svm.nps_entry_flags prepare Vm.revert_dirty_memory Vm.new map_and_mutate_input Mutation.new leaf
mapped = refl

abbrev handled_of_ok : Exec (Machine Unit × RunStats × VmExitResult) → Machine Unit
handled_of_ok (ok r) = r.0
handled_of_ok panic = machine

write-IsConfined : IsConfined ⦃hw = svm⦄ handled.0.vm handled.0.memory second_exit.memory
write-IsConfined a apart =
    let other : a ≢ 0x400_0000 = subst (λ b. a ≢ b) own_page (apart 0x1004 mapped) in ground arith

prepared-AreProper :
    AreSuch ⦃hw = svm⦄
      (IsProper ⦃hw = svm⦄ svm_vt-IsLawful)
      setup
      prepared.0
      exits
      prepared.1
      (Stats.new 50)
unfolding AreSuch prepare Vm.revert_dirty_memory Vm.new map_and_mutate_input Mutation.new leaf
prepared-AreProper = (
  (record { missing = refl; denied = refl }, λ a apart. refl),
  λ m stats did. (
    (
      tt,
      subst (λ (x : Machine Unit). IsConfined ⦃hw = svm⦄ x.vm x.memory second_exit.memory)
          (ap handled_of_ok (sym handling ∙ did)) write-IsConfined,
    ),
    λ m' stats' did'. tt,
  ),
)

prepared-AreOwn :
    AreSuch ⦃hw = svm⦄
      (IsOwn ⦃hw = svm⦄ svm_vt-IsLawful)
      setup
      prepared.0
      exits
      prepared.1
      (Stats.new 50)
unfolding AreSuch
prepared-AreOwn = (
  (prepared-AreProper.0, omega arith),
  λ m stats did. (((prepared-AreProper.1 m stats did).0, tt), λ m' stats' did'. tt),
)

one_round : Rounds ⦃hw = svm⦄ svm_vt-IsLawful setup engine machine fuzzed.0 fuzzed.1
unfolding prepare Mutation.new
one_round = then_round not_started (record {
  features = features;
  tsc = tsc;
  next = two_bytes;
  next_fits = omega arith;
  start_tsc = 50;
  exits = exits;
  stats = fuzzed.2;
  reason = fuzzed.3;
  done = iteration;
  proper = λ e m did.
      subst
        (λ (p : MutationEngine × Machine Unit).
          AreSuch ⦃hw = svm⦄ (IsOwn ⦃hw = svm⦄ svm_vt-IsLawful) setup p.0 exits p.1 (Stats.new 50))
        (ap of_ok (sym preparation ∙ did)) prepared-AreOwn;
})

machine-IsApart : IsApart machine.snapshot empty_vm engine
unfolding Mutation.new Vm.new
machine-IsApart = record {
  aligned = refl;
  fits = omega arith;
  from_dirty = λ pfn k l l' same. omega arith;
  from_input = λ pfn i l l' same. omega arith;
}

machine-IsFaithful :
    IsFaithful ⦃hw = svm⦄ svm_vt-IsLawful setup engine empty_vm machine.snapshot empty_vm
      machine.memory
unfolding Mutation.new Vm.new leaf Vm.revert_entries
machine-IsFaithful = record {
  backed = record { runs = empty_vm-Runs; backed = λ h ne. absurd (ne refl) };
  private = IsStart-IsPrivate ⦃hw = svm⦄ svm_vt-IsLawful empty_vm empty_vm-IsStart;
  apart = machine-IsApart;
  intact = record { inside = λ pfn y. absurd (cc); shows = λ pfn y ne. absurd (cc) };
}

machine-IsLocated :
    IsLocated ⦃hw = svm⦄ svm_vt-IsLawful setup engine empty_vm machine.snapshot empty_vm
      machine.memory
unfolding Vm.new leaf Vm.revert_entries
machine-IsLocated = record {
  faithful = machine-IsFaithful;
  located = record { runs = empty_vm-Runs; backed = λ h ne. absurd (ne refl) };
}

machine-IsReady : IsReady ⦃hw = svm⦄ svm_vt-IsLawful setup engine machine
unfolding Mutation.new
machine-IsReady = record { start = empty_vm; located = machine-IsLocated; fitting = omega arith }

two_bytes_fit : length two_bytes.bytes ≤ fuzzed.0.input_page_count * page_size
unfolding start_vm prepare Vm.revert_dirty_memory Vm.new map_and_mutate_input Mutation.new run_exits
    handle_exit handle_nested_page_fault map_page give_access after_copy resume resolve_pa_for_gpa
    resolve_page_from_snapshot contains_page page_in read_page_from_snapshot apply
    Vm.build_translation Vm.copy_on_write Vm.walk Vm.walk_table next_table set_translation
    Svm.nps_entry_flags handle_external_interrupt_or_pause handle_timer_expiration after_exit
    count_exit Stats.new
two_bytes_fit = omega arith

pub prepared-IsFaithful :
    IsFaithful ⦃hw = svm⦄ svm_vt-IsLawful setup prepared.0 prepared.1.vm prepared.1.snapshot
      prepared.1.vm prepared.1.memory
prepared-IsFaithful =
    (Satisfies-ok _ (prepare ⦃hw = svm⦄ features setup tsc two_bytes engine machine)
      (prepare-IsLocated ⦃hw = svm⦄ svm_vt-IsLawful features setup tsc two_bytes engine machine fits
        machine-IsReady)
      preparation).0.faithful
  where
    fits : length two_bytes.bytes ≤ engine.input_page_count * page_size
    fits = unfold Mutation.new in omega arith

Rounds-Sees_example :
    Satisfies
      (λ (r : MutationEngine × Machine Unit).
        (gpa : ℕ)
        → IsGpa gpa
        → translation r.1.vm gpa ≢ 0
        → contains r.1.snapshot (gpa / 2 ^ 12) ≡ true
        → gpa / 2 ^ 12 ≢ gdt_pfn r.1.snapshot
        → Sees ⦃hw = svm⦄ setup r.1 gpa)
      (prepare ⦃hw = svm⦄ features setup tsc two_bytes fuzzed.0 fuzzed.1)
Rounds-Sees_example =
    Rounds-Sees ⦃hw = svm⦄ svm_vt-IsLawful features setup tsc two_bytes engine fuzzed.0 machine
      fuzzed.1 machine-IsReady one_round two_bytes_fit

run_exits-isolates_example :
    Satisfies
      (λ (r : Machine Unit × RunStats × Option AbortReason).
        IsPrivate ⦃hw = svm⦄ r.0.vm
        × ((gpa pfn : ℕ)
            → IsWritable ⦃hw = svm⦄ r.0.vm gpa
            → pfn < r.0.snapshot.page_count
            → address (translation r.0.vm gpa) ≢ page_address r.0.snapshot pfn))
      (run_exits ⦃hw = svm⦄ setup prepared.0 exits prepared.1 (Stats.new 50))
run_exits-isolates_example =
    run_exits-isolates ⦃hw = svm⦄ svm_vt-IsLawful setup prepared.0 prepared.1.vm exits prepared.1
      (Stats.new 50) prepared-AreProper prepared-IsFaithful
