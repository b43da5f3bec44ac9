-- ===== src/Hypervisor/Sources.antt =====
-- Which results the handling of a VM exit can have, by the reason of the exit. The documentation of
-- `AbortReason` names a source for each reason.
use hypervisor_101_in_rust.Prelude.{
  ℕ, ◌/◌, ◌^◌, ◌≡◌, ◌⊎◌, refl, Bool, true, false, Option, none, some, inl, inr, ok, Satisfies,
  Satisfies->>=, Satisfies-ok, panic, ◌≢◌, ◌<◌, ◌≤◌, arith, ◌==◌, if◌then◌else◌, Bool-cases,
}
use hypervisor_101_in_rust.Config.{guest_exec_timeout_in_tsc}
use hypervisor_101_in_rust.Memory.{Memory}
use hypervisor_101_in_rust.HardwareVt.{
  GuestException, break_point, invalid_opcode, page_fault, NestedPageFaultQualification,
  VmExitReason, nested_page_fault, exception, external_interrupt_or_pause, timer_expiration,
  shutdown, unexpected, HardwareVt,
}
use hypervisor_101_in_rust.Vm.{Vm, build_translation, copy_on_write}
use hypervisor_101_in_rust.Patch.{PatchEntry, PatchSet, find, revert}
use hypervisor_101_in_rust.Snapshot.{Snapshot, resolve_page_from_snapshot}
use hypervisor_101_in_rust.Mutation.{MutationEngine, resolve_page_from_input_data}
use hypervisor_101_in_rust.Stats.{RunStats}
use hypervisor_101_in_rust.Hypervisor.{
  unhandled_vm_exit, end_marker, invalid_page_access, null_page_access, negative_page_access,
  invalid_instruction, unexpected_breakpoint, unexpected_page_fault, excessive_memory_write, hang,
  VmExitResult, resume_vm, abort_vm, panic_with, Setup, Machine, or_unbacked, or_input_data,
  resolve_pa_for_gpa, resume, give_access, map_page, handle_nested_page_fault, guest_spent_tsc,
  after_copy,
}

-- The results that the documentation of `AbortReason` allows for a nested page fault, each with what
-- it tells of the fault.
unfoldable pub Explained : NestedPageFaultQualification → VmExitResult → Type 0
Explained q resume_vm = Unit
Explained q (abort_vm null_page_access) = q.gpa / 2 ^ 12 ≡ 0
Explained q (abort_vm negative_page_access) = q.gpa / 2 ^ 12 ≡ 0xf_ffff_ffff_ffff
Explained q (abort_vm invalid_page_access) =
    (q.gpa / 2 ^ 12 ≢ 0) × (q.gpa / 2 ^ 12 ≢ 0xf_ffff_ffff_ffff)
Explained q (abort_vm excessive_memory_write) = q.write_access ≡ true
Explained q result = ⊥

-- The result for an exception, by whether there is a patch at the address.
unfoldable pub result_of_exception : (patched : Bool) → GuestException → VmExitResult
result_of_exception true break_point = resume_vm
result_of_exception true invalid_opcode = abort_vm end_marker
result_of_exception true page_fault = abort_vm unexpected_page_fault
result_of_exception false break_point = abort_vm unexpected_breakpoint
result_of_exception false invalid_opcode = abort_vm invalid_instruction
result_of_exception false page_fault = abort_vm unexpected_page_fault

abbrev is_some : {A : Type 0} → Option A → Bool
is_some (some a) = true
is_some none = false

-- The results for each reason of an exit.
unfoldable pub Documented : PatchSet → RunStats → (tsc : ℕ) → VmExitReason → VmExitResult → Type 0
unfolding Explained
Documented patches stats tsc (nested_page_fault q) result = Explained q result
Documented patches stats tsc (exception q) result =
    result ≡ result_of_exception (is_some (find patches q.rip)) q.exception_code
Documented patches stats tsc external_interrupt_or_pause result =
    ((result ≡ resume_vm) × (guest_spent_tsc tsc stats < guest_exec_timeout_in_tsc))
    ⊎ ((result ≡ abort_vm hang) × (guest_exec_timeout_in_tsc ≤ guest_spent_tsc tsc stats))
Documented patches stats tsc timer_expiration result = result ≡ abort_vm hang
Documented patches stats tsc (shutdown code) result = result ≡ panic_with code
Documented patches stats tsc (unexpected code) result = result ≡ abort_vm unhandled_vm_exit

-- What `resolve_pa_for_gpa` resolves to, an address or a result that is documented.
IsResolution : (pfn : ℕ) → ℕ ⊎ VmExitResult → Type 0
IsResolution pfn (inl pa) = Unit
IsResolution pfn (inr result) =
    (q : NestedPageFaultQualification) → q.gpa / 2 ^ 12 ≡ pfn → Explained q result

or_unbacked-IsResolution : (pfn : ℕ) (page : Option ℕ) → IsResolution pfn (or_unbacked pfn page)
unfolding or_unbacked Explained IsResolution
or_unbacked-IsResolution pfn (some pa) = tt
or_unbacked-IsResolution pfn none = elim (Bool-cases (pfn == 0)) [
  | inl y ↦ rw y (λ q at. ground (arith, at))
  | inr n ↦ elim (Bool-cases (pfn == 0xf_ffff_ffff_ffff)) [
    | inl y ↦ rw (n, y) (λ q at. ground (arith, at))
    | inr m ↦ rw (n, m) (λ q at. (ground (arith, at), ground (arith, at)))
  ]
]

or_input_data-IsResolution :
    (g : Setup) (e : MutationEngine) (pfn : ℕ) (page : Option ℕ)
    → Satisfies (IsResolution pfn) (or_input_data g e pfn page)
unfolding or_input_data IsResolution
or_input_data-IsResolution g e pfn (some pa) = tt
or_input_data-IsResolution g e pfn none =
    Satisfies->>= _ (resolve_page_from_input_data g.corpus.first_page g.corpus.end_page pfn e) _
      (λ page h. or_unbacked-IsResolution pfn page)

resolve_pa_for_gpa-IsResolution :
    (g : Setup) (e : MutationEngine) (s : Snapshot) (mem : Memory) (gpa : ℕ)
    → Satisfies (λ r. IsResolution (gpa / 2 ^ 12) (r.2)) (resolve_pa_for_gpa g e s mem gpa)
unfolding resolve_pa_for_gpa
resolve_pa_for_gpa-IsResolution g e s mem gpa =
    Satisfies->>= _ (resolve_page_from_snapshot g.file g.patches s mem (gpa / 2 ^ 12)) _ (λ x h.
      Satisfies->>= _ (or_input_data g e (gpa / 2 ^ 12) x.2) _
        (λ r h'. Satisfies-ok _ _ (or_input_data-IsResolution g e (gpa / 2 ^ 12) x.2) h'))

module _ {V : Type 0} ⦃hw : HardwareVt V⦄ where
  after_copy-documented :
      (vm : Vm V) (s : Snapshot) (mem : Memory) (q : NestedPageFaultQualification) (copied : Bool)
      → q.write_access ≡ true
      → Satisfies (λ r. Explained q r.1) (after_copy vm s mem copied)
  unfolding after_copy resume Explained
  after_copy-documented vm s mem q true written =
      Satisfies->>= _ (hw.invalidate_caches vm.vt) _ (λ vt h. tt)
  after_copy-documented vm s mem q false written = written

  give_access-documented :
      (vm : Vm V) (s : Snapshot) (mem : Memory) (q : NestedPageFaultQualification) (pa : ℕ)
      (write : Bool)
      → q.write_access ≡ write
      → Satisfies (λ r. Explained q r.1) (give_access vm s mem q.gpa pa write)
  unfolding give_access resume Explained
  give_access-documented vm s mem q pa false read =
      Satisfies->>= _ (hw.invalidate_caches vm.vt) _ (λ vt h. tt)
  give_access-documented vm s mem q pa true written =
      Satisfies->>= _ (copy_on_write vm mem q.gpa pa) _
        (λ x h. after_copy-documented x.0 s x.1 q x.2 written)

  map_page-documented :
      (vm : Vm V) (s : Snapshot) (mem : Memory) (q : NestedPageFaultQualification)
      (resolved : ℕ ⊎ VmExitResult)
      → IsResolution (q.gpa / 2 ^ 12) resolved
      → Satisfies (λ r. Explained q r.1) (map_page vm s mem q resolved)
  unfolding map_page IsResolution
  map_page-documented vm s mem q (inr err) h = h q refl
  map_page-documented vm s mem q (inl pa) h =
      Satisfies->>= _ (if q.missing_translation then build_translation vm q.gpa pa else ok vm) _
        (λ vm' h'. give_access-documented vm' s mem q pa q.write_access refl)

  pub handle_nested_page_fault-documented :
      (g : Setup) (e : MutationEngine) (m : Machine V) (q : NestedPageFaultQualification)
      → Satisfies (λ r. Explained q r.1) (handle_nested_page_fault g e m q)
  unfolding handle_nested_page_fault
  handle_nested_page_fault-documented g e m q =
      Satisfies->>= _ (resolve_pa_for_gpa g e m.snapshot m.memory q.gpa) _ (λ x h.
        map_page-documented m.vm x.0 x.1 q x.2
          (Satisfies-ok _ _ (resolve_pa_for_gpa-IsResolution g e m.snapshot m.memory q.gpa) h))

  -- Why the handling of an exit does not end.
  unfoldable pub Panics : Setup → MutationEngine → Machine V → VmExitReason → Type 0
  Panics g e m (nested_page_fault q) = handle_nested_page_fault g e m q ≡ panic
  Panics g e m (exception q) =
      (q.exception_code ≡ break_point)
      × (entry : PatchEntry) × (find g.patches q.rip ≡ some entry)
      × (revert entry m.snapshot.memory m.snapshot.page_count m.memory ≡ panic)
  Panics g e m reason = ⊥
