-- ===== src/Hypervisor/Coverage/Tests.antt =====
-- A breakpoint on the page that the guest has written to.
use hypervisor_101_in_rust.Prelude.{◌≡◌, refl, some, ◌++◌, ◌∷◌, [], Satisfies, Satisfies-ok}
use hypervisor_101_in_rust.HardwareVt.{
  break_point, ExceptionQualification, exception, nested_page_fault,
}
use hypervisor_101_in_rust.HardwareVt.Entry.{address}
use hypervisor_101_in_rust.Vm.{translation}
use hypervisor_101_in_rust.Vm.Tests.{svm, svm_vt-IsLawful}
use hypervisor_101_in_rust.Vm.Paging.{leaf}
use hypervisor_101_in_rust.Vm
use hypervisor_101_in_rust.Patch.{find}
use hypervisor_101_in_rust.Patch.Tests.{breakpoint}
use hypervisor_101_in_rust.Stats
use hypervisor_101_in_rust.Stats.{RunStats}
use hypervisor_101_in_rust.Mutation
use hypervisor_101_in_rust.Mutation.{map_and_mutate_input}
use hypervisor_101_in_rust.Hypervisor.{VmExitResult, resume_vm, Machine, handle_exit, prepare}
use hypervisor_101_in_rust.Hypervisor.Tests.{setup, write_fault}
use hypervisor_101_in_rust.Hypervisor.Iterations.Tests.{prepared}
use hypervisor_101_in_rust.Hypervisor.Fuzzing.Tests.{handled, handling, mapped, prepared-IsFaithful}
use hypervisor_101_in_rust.Hypervisor.Lasting.{handle_exit-lasts}
use hypervisor_101_in_rust.Hypervisor.Contents.{IsFaithful, IsFaithful-IsLasting}
use hypervisor_101_in_rust.Hypervisor.Coverage.{handle_exit-copied}

abbrev at_patch : ExceptionQualification
at_patch = record { rip = 0x1004; exception_code = break_point }

handled-IsFaithful :
    IsFaithful ⦃hw = svm⦄ svm_vt-IsLawful setup prepared.0 prepared.1.vm handled.0.snapshot
      handled.0.vm handled.0.memory
unfolding prepare Vm.revert_dirty_memory Vm.new map_and_mutate_input Mutation.new leaf
handled-IsFaithful =
    Satisfies-ok _
      (handle_exit ⦃hw = svm⦄ setup prepared.0 prepared.1 (Stats.new 50) 110
        (nested_page_fault write_fault))
      (handle_exit-lasts ⦃hw = svm⦄ svm_vt-IsLawful
        (IsFaithful-IsLasting ⦃hw = svm⦄ svm_vt-IsLawful setup prepared.0 prepared.1.vm) prepared.1
        (Stats.new 50) 110 (nested_page_fault write_fault)
        (record { missing = refl; denied = refl }) tt prepared-IsFaithful)
      handling

found : find setup.patches 0x1004 ≡ some breakpoint
unfolding find
found = refl

handle_exit-copied_example :
    Satisfies
      (λ (r : Machine Unit × RunStats × VmExitResult).
        (r.2 ≡ resume_vm)
        × (r.1.newly_executed_basic_blks ≡ (Stats.new 50).newly_executed_basic_blks ++ 0x1004 ∷ [])
        × (r.0.vm ≡ handled.0.vm)
        × (r.0.memory (address (translation handled.0.vm 0x1004))
            ≡ handled.0.memory (address (translation handled.0.vm 0x1004))))
      (handle_exit ⦃hw = svm⦄ setup prepared.0 handled.0 (Stats.new 50) 200 (exception at_patch))
handle_exit-copied_example =
    handle_exit-copied ⦃hw = svm⦄ svm_vt-IsLawful setup prepared.0 prepared.1.vm handled.0
      (Stats.new 50) 200 at_patch breakpoint 0x1004 handled-IsFaithful found refl mapped
