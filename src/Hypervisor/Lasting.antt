-- ===== src/Hypervisor/Lasting.antt =====
-- hypervisor/src/hypervisor.rs: properties that last through the loop of `start_vm`.
use hypervisor_101_in_rust.Prelude.{
  ℕ, ◌≡◌, ◌⊎◌, inl, inr, refl, ap, ◌∙◌, Option, some, List, [], ◌∷◌, Exec, ok, Satisfies,
  Satisfies->>=, Satisfies-then, Option-cases,
}
use hypervisor_101_in_rust.Memory.{Memory}
use hypervisor_101_in_rust.HardwareVt.{
  GuestException, break_point, invalid_opcode, page_fault, ExceptionQualification, VmExitReason,
  nested_page_fault, exception, external_interrupt_or_pause, timer_expiration, shutdown, unexpected,
  HardwareVt, IsLawful,
}
use hypervisor_101_in_rust.Vm.{Vm}
use hypervisor_101_in_rust.Vm.Mappings.{IsMapped}
use hypervisor_101_in_rust.Patch.{PatchEntry, find, revert}
use hypervisor_101_in_rust.Snapshot.{Snapshot}
use hypervisor_101_in_rust.Mutation.{MutationEngine}
use hypervisor_101_in_rust.Stats.{RunStats}
use hypervisor_101_in_rust.Hypervisor.{
  AbortReason, VmExitResult, resume_vm, abort_vm, panic_with, Setup, Machine, Exit, handle_exit,
  handle_at_patch, resolve_pa_for_gpa, handle_nested_page_fault, handle_interrupt_or_exception,
  count_exit, after_exit, run_exits,
}
use hypervisor_101_in_rust.Hypervisor.Faults.{IsKept, IsSourced, handle_nested_page_fault-keeps}
use hypervisor_101_in_rust.Hypervisor.Progress.{IsFault, IsFault-IsAccurate}

module _ {V : Type 0} ⦃hw : HardwareVt V⦄ where
  -- The machine when the guest has run and exited.
  abbrev pub exited : Exit V → Machine V → Machine V
  exited x m = record m { vm = record (m.vm) { vt = x.vt }; memory = x.memory }

  -- Each exit is as `P` says, for the machine that the handling of those before it leaves.
  unfoldable pub AreSuch :
      (P : Machine V → Exit V → Type 0)
      → Setup
      → MutationEngine
      → List (Exit V)
      → Machine V
      → RunStats
      → Type 0
  unfolding count_exit
  AreSuch P g e [] m stats = Unit
  AreSuch P g e (x ∷ xs) m stats =
      P m x
      × ((m' : Machine V) (stats' : RunStats)
          → handle_exit g e (exited x m) stats x.handler_tsc x.reason ≡ ok (m', stats', resume_vm)
          → AreSuch P g e xs m' (count_exit x stats'))

  module _ (law : IsLawful hw) where
    -- What the processor reports of a VM-exit.
    abbrev pub IsGenuine : Vm V → VmExitReason → Type 0
    IsGenuine vm (nested_page_fault q) = IsFault law vm q
    IsGenuine vm (exception q) = Unit
    IsGenuine vm external_interrupt_or_pause = Unit
    IsGenuine vm timer_expiration = Unit
    IsGenuine vm (shutdown code) = Unit
    IsGenuine vm (unexpected code) = Unit

    -- The address of a nested page fault is one that the guest can use.
    abbrev pub IsWithin : (Usable : ℕ → Type 0) → VmExitReason → Type 0
    IsWithin Usable (nested_page_fault q) = Usable q.gpa
    IsWithin Usable (exception q) = Unit
    IsWithin Usable external_interrupt_or_pause = Unit
    IsWithin Usable timer_expiration = Unit
    IsWithin Usable (shutdown code) = Unit
    IsWithin Usable (unexpected code) = Unit

    abbrev pub Any : ℕ → Type 0
    Any gpa = Unit

    pub IsWithin-Any : (reason : VmExitReason) → IsWithin Any reason
    IsWithin-Any (nested_page_fault q) = tt
    IsWithin-Any (exception q) = tt
    IsWithin-Any external_interrupt_or_pause = tt
    IsWithin-Any timer_expiration = tt
    IsWithin-Any (shutdown code) = tt
    IsWithin-Any (unexpected code) = tt

    -- A property that the guest, whose exits are as `P` says, and the handling of its exits keep.
    pub record IsLasting (g : Setup) (e : MutationEngine) (Usable : ℕ → Type 0)
        (P : Machine V → Exit V → Type 0) (Source : Snapshot → (gpa pa : ℕ) → Type 0)
        (Inv : Snapshot → Vm V → Memory → Type 0) : Type 0 where
      pub kept : IsKept law Source Inv
      pub mapped : (s : Snapshot) (vm : Vm V) (mem : Memory) → Inv s vm mem → IsMapped vm
      pub genuine : (m : Machine V) (x : Exit V) → P m x → IsGenuine (exited x m).vm x.reason
      pub within : (m : Machine V) (x : Exit V) → P m x → IsWithin Usable x.reason
      pub on_run :
          (m : Machine V) (x : Exit V)
          → P m x
          → Inv m.snapshot m.vm m.memory
          → Inv m.snapshot (exited x m).vm x.memory
      pub on_resolve :
          (s : Snapshot) (vm : Vm V) (mem : Memory) (gpa : ℕ)
          → Usable gpa
          → Inv s vm mem
          → Satisfies
              (λ (x : Snapshot × Memory × (ℕ ⊎ VmExitResult)).
                Inv x.0 vm x.1 × IsSourced law Source x.0 gpa x.2)
              (resolve_pa_for_gpa g e s mem gpa)
      pub on_revert :
          (s : Snapshot) (vm : Vm V) (mem mem' : Memory) (entry : PatchEntry) (rip : ℕ)
          → find g.patches rip ≡ some entry
          → revert entry s.memory s.page_count mem ≡ ok mem'
          → Inv s vm mem
          → Inv s vm mem'

    module _ {g : Setup} {e : MutationEngine} {Usable : ℕ → Type 0}
        {P : Machine V → Exit V → Type 0} {Source : Snapshot → (gpa pa : ℕ) → Type 0}
        {Inv : Snapshot → Vm V → Memory → Type 0} (inv : IsLasting g e Usable P Source Inv) where
      abbrev Holds : Machine V → Type 0
      Holds m = Inv m.snapshot m.vm m.memory

      at_patch-lasts :
          (entry : PatchEntry) (s : Snapshot) (vm : Vm V) (mem : Memory) (stats : RunStats)
          (rip : ℕ) (code : GuestException)
          → find g.patches rip ≡ some entry
          → Inv s vm mem
          → Satisfies
              (λ (r : Memory × RunStats × VmExitResult). Inv s vm r.0)
              (handle_at_patch entry s mem stats rip code)
      unfolding handle_at_patch
      at_patch-lasts entry s vm mem stats rip break_point found h =
          Satisfies->>= _ (revert entry s.memory s.page_count mem) _
            (λ mem' did. inv.on_revert s vm mem mem' entry rip found did h)
      at_patch-lasts entry s vm mem stats rip invalid_opcode found h = h
      at_patch-lasts entry s vm mem stats rip page_fault found h = h

      handle_exception-lasts :
          (s : Snapshot) (vm : Vm V) (mem : Memory) (stats : RunStats) (q : ExceptionQualification)
          → Inv s vm mem
          → Satisfies
              (λ (r : Memory × RunStats × VmExitResult). Inv s vm r.0)
              (handle_interrupt_or_exception g.patches s mem stats q)
      unfolding handle_interrupt_or_exception
      handle_exception-lasts s vm mem stats q h = elim (Option-cases (find g.patches q.rip)) [
        | inl none_found ↦ rw (none_found, handle_interrupt_or_exception) h
        | inr (entry, found) ↦
            rw (found, handle_interrupt_or_exception)
              (at_patch-lasts entry s vm mem stats q.rip q.exception_code found h)
      ]

      pub handle_exit-lasts :
          (m : Machine V) (stats : RunStats) (tsc : ℕ) (reason : VmExitReason)
          → IsGenuine m.vm reason
          → IsWithin Usable reason
          → Holds m
          → Satisfies
              (λ (r : Machine V × RunStats × VmExitResult). Holds r.0)
              (handle_exit g e m stats tsc reason)
      unfolding handle_exit
      handle_exit-lasts m stats tsc (nested_page_fault q) genuine within h =
          Satisfies-then _ _ (handle_nested_page_fault g e m q) _
            (handle_nested_page_fault-keeps law inv.kept g e m q
              (IsFault-IsAccurate law m.vm q (inv.mapped m.snapshot m.vm m.memory h) genuine)
              (inv.on_resolve m.snapshot m.vm m.memory q.gpa within h))
            (λ x did h'. h')
      handle_exit-lasts m stats tsc (exception q) genuine within h =
          Satisfies-then _ _ (handle_interrupt_or_exception g.patches m.snapshot m.memory stats q) _
            (handle_exception-lasts m.snapshot m.vm m.memory stats q h) (λ x did h'. h')
      handle_exit-lasts m stats tsc external_interrupt_or_pause genuine within h = h
      handle_exit-lasts m stats tsc timer_expiration genuine within h = h
      handle_exit-lasts m stats tsc (shutdown code) genuine within h = h
      handle_exit-lasts m stats tsc (unexpected code) genuine within h = h

      abbrev Ended : Machine V × RunStats × Option AbortReason → Type 0
      Ended r = Holds r.0

      after_exit-lasts :
          (x : Exit V) (m : Machine V) (stats : RunStats) (result : VmExitResult)
          (rest : Machine V → RunStats → Exec (Machine V × RunStats × Option AbortReason))
          → Holds m
          → (result ≡ resume_vm → Satisfies Ended (rest m stats))
          → Satisfies Ended (after_exit x m stats result rest)
      unfolding after_exit
      after_exit-lasts x m stats resume_vm rest h later = later refl
      after_exit-lasts x m stats (abort_vm reason) rest h later = h
      after_exit-lasts x m stats (panic_with code) rest h later = tt

      pub run_exits-lasts :
          (exits : List (Exit V)) (m : Machine V) (stats : RunStats)
          → AreSuch P g e exits m stats
          → Holds m
          → Satisfies Ended (run_exits g e exits m stats)
      unfolding run_exits AreSuch
      run_exits-lasts [] m stats such h = h
      run_exits-lasts (x ∷ xs) m stats (here, later) h =
          Satisfies-then _ _ (handle_exit g e (exited x m) stats x.handler_tsc x.reason) _
            (handle_exit-lasts (exited x m) stats x.handler_tsc x.reason (inv.genuine m x here)
              (inv.within m x here) (inv.on_run m x here h))
            (λ (m', stats', result) did h'.
              after_exit-lasts x m' (count_exit x stats') result (run_exits g e xs) h' (λ this.
                run_exits-lasts xs m' (count_exit x stats')
                  (later m' stats' (did ∙ ap (λ y. ok (m', stats', y)) this)) h'))
