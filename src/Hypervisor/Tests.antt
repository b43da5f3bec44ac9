-- ===== src/Hypervisor/Tests.antt =====
-- A guest that writes to a page and then times out.
use hypervisor_101_in_rust.Prelude.{◌+◌, ◌<◌, ◌^◌, ◌≡◌, refl, arith, true, List, [], ◌∷◌, Satisfies}
use hypervisor_101_in_rust.HardwareVt.{
  NestedPageFaultQualification, nested_page_fault, external_interrupt_or_pause,
}
use hypervisor_101_in_rust.Vm
use hypervisor_101_in_rust.Vm.Tests.{svm, svm_vt-IsLawful, empty_vm, empty_vm-IsSound}
use hypervisor_101_in_rust.Vm.Iteration.{Keeps, Changes-Keeps, unchanged}
use hypervisor_101_in_rust.Corpus.{Corpus}
use hypervisor_101_in_rust.Snapshot.Tests.{unread, file, patches, memory}
use hypervisor_101_in_rust.Mutation.{MutationEngine}
use hypervisor_101_in_rust.Mutation.Tests.{two_bytes}
use hypervisor_101_in_rust.Mutation
use hypervisor_101_in_rust.Corpus
use hypervisor_101_in_rust.Stats
use hypervisor_101_in_rust.Stats.{RunStats}
use hypervisor_101_in_rust.Hypervisor.{
  VmExitResult, Setup, Machine, Exit, handle_nested_page_fault, run_exits,
}
use hypervisor_101_in_rust.Hypervisor.Counts.{Counted, run_exits-Counted}
use hypervisor_101_in_rust.Hypervisor.Faults.{IsAccurate, handle_nested_page_fault-Keeps}

abbrev pub setup : Setup
setup = record { file = file; patches = patches; corpus = Corpus.with_largest 3 2 (two_bytes ∷ []) }

abbrev pub engine : MutationEngine
engine = Mutation.new 0x50_0000 1

abbrev pub machine : Machine Unit
machine = record { vm = empty_vm; snapshot = unread; memory = memory }

abbrev pub write_fault : NestedPageFaultQualification
write_fault = record { rip = 0x1000; gpa = 0x1004; missing_translation = true; write_access = true }

abbrev pub exits : List (Exit Unit)
exits =
    record {
      vt = tt;
      memory = memory;
      reason = nested_page_fault write_fault;
      host_start_tsc = 100;
      handler_tsc = 110;
      host_end_tsc = 120;
      stop_tsc = 130;
    }
    ∷ record {
      vt = tt;
      memory = memory;
      reason = external_interrupt_or_pause;
      host_start_tsc = 300_000_000;
      handler_tsc = 300_000_010;
      host_end_tsc = 300_000_020;
      stop_tsc = 300_000_030;
    }
    ∷ []

abbrev stats : RunStats
stats = Stats.new 50

few : stats.vmexit_count + 2 < 2 ^ 64
unfolding Stats.new
few = omega arith

pub none_dirty : empty_vm.used_dirty_page_count ≡ 0
unfolding Vm.new
none_dirty = refl

run_exits-Counted_example :
    Satisfies
      (Counted ⦃hw = svm⦄ setup engine exits machine stats)
      (run_exits ⦃hw = svm⦄ setup engine exits machine stats)
run_exits-Counted_example = run_exits-Counted ⦃hw = svm⦄ setup engine exits machine stats few

pub machine-Keeps : Keeps ⦃hw = svm⦄ empty_vm machine.vm
machine-Keeps =
    Changes-Keeps ⦃hw = svm⦄ {mem = memory} svm_vt-IsLawful empty_vm-IsSound none_dirty unchanged

write_fault-IsAccurate : IsAccurate ⦃hw = svm⦄ svm_vt-IsLawful machine.vm write_fault
unfolding IsAccurate
write_fault-IsAccurate missing = absurd (cc)

handle_nested_page_fault-Keeps_example :
    Satisfies
      (λ (r : Machine Unit × VmExitResult). Keeps ⦃hw = svm⦄ empty_vm r.0.vm)
      (handle_nested_page_fault ⦃hw = svm⦄ setup engine machine write_fault)
handle_nested_page_fault-Keeps_example =
    handle_nested_page_fault-Keeps ⦃hw = svm⦄ svm_vt-IsLawful setup engine machine write_fault
      write_fault-IsAccurate machine-Keeps
