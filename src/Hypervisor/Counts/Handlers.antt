-- ===== src/Hypervisor/Counts/Handlers.antt =====
-- hypervisor/src/hypervisor.rs: what each handler changes of the statistics.
use hypervisor_101_in_rust.Prelude.{
  ℕ, ◌≡◌, ◌≢◌, refl, Option, none, some, inl, inr, List, [], ◌∷◌, ◌++◌, Satisfies, Satisfies->>=,
  ltb, Bool-cases, Option-cases,
}
use hypervisor_101_in_rust.Config.{guest_exec_timeout_in_tsc}
use hypervisor_101_in_rust.Memory.{Memory}
use hypervisor_101_in_rust.HardwareVt.{
  GuestException, break_point, invalid_opcode, page_fault, NestedPageFaultQualification,
  ExceptionQualification,
}
use hypervisor_101_in_rust.Patch.{PatchEntry, PatchSet, find, revert}
use hypervisor_101_in_rust.Snapshot.{Snapshot}
use hypervisor_101_in_rust.Stats.{RunStats}
use hypervisor_101_in_rust.Hypervisor.{
  AbortReason, unhandled_vm_exit, end_marker, invalid_page_access, null_page_access,
  negative_page_access, invalid_instruction, unexpected_breakpoint, unexpected_page_fault,
  excessive_memory_write, hang, VmExitResult, resume_vm, abort_vm, panic_with, handle_at_patch,
  abort_on, handle_interrupt_or_exception, handle_timer_expiration,
  handle_external_interrupt_or_pause, guest_spent_tsc,
}
use hypervisor_101_in_rust.Hypervisor.Sources.{Explained}

-- The number of hangs after an iteration, by its reason to end: a hang sets it to 1.
abbrev pub hangs_after : Option AbortReason → ℕ → ℕ
hangs_after (some hang) n = 1
hangs_after reason n = n

abbrev pub reason_of : VmExitResult → Option AbortReason
reason_of (abort_vm reason) = some reason
reason_of result = none

-- Every address has a patch.
abbrev pub ArePatched : PatchSet → List ℕ → Type 0
ArePatched patches [] = Unit
ArePatched patches (rip ∷ rips) = (find patches rip ≢ none) × ArePatched patches rips

pub ArePatched-append :
    (patches : PatchSet) (rips : List ℕ) (rip : ℕ)
    → ArePatched patches rips
    → find patches rip ≢ none
    → ArePatched patches (rips ++ (rip ∷ []))
ArePatched-append patches [] rip h p = (p, tt)
ArePatched-append patches (x ∷ xs) rip h p = (h.0, ArePatched-append patches xs rip h.1 p)

-- What a handler may change of the statistics.
pub record Handled (patches : PatchSet) (stats stats' : RunStats) (result : VmExitResult)
    : Type 0 where
  pub counted : stats'.vmexit_count ≡ stats.vmexit_count
  pub hangs : stats'.hang_count ≡ hangs_after (reason_of result) stats.hang_count
  pub covered :
      ArePatched patches stats.newly_executed_basic_blks
      → ArePatched patches stats'.newly_executed_basic_blks

pub no_hang :
    (q : NestedPageFaultQualification) (result : VmExitResult) (n : ℕ)
    → Explained q result
    → hangs_after (reason_of result) n ≡ n
unfolding Explained
no_hang q resume_vm n h = refl
no_hang q (panic_with code) n h = refl
no_hang q (abort_vm unhandled_vm_exit) n h = refl
no_hang q (abort_vm end_marker) n h = refl
no_hang q (abort_vm invalid_page_access) n h = refl
no_hang q (abort_vm null_page_access) n h = refl
no_hang q (abort_vm negative_page_access) n h = refl
no_hang q (abort_vm invalid_instruction) n h = refl
no_hang q (abort_vm unexpected_breakpoint) n h = refl
no_hang q (abort_vm unexpected_page_fault) n h = refl
no_hang q (abort_vm excessive_memory_write) n h = refl
no_hang q (abort_vm hang) n h = absurd h

pub handle_at_patch-Handled :
    (patches : PatchSet) (entry : PatchEntry) (s : Snapshot) (mem : Memory) (stats : RunStats)
    (rip : ℕ) (code : GuestException)
    → find patches rip ≡ some entry
    → Satisfies (λ r. Handled patches stats r.1 r.2) (handle_at_patch entry s mem stats rip code)
unfolding handle_at_patch
handle_at_patch-Handled patches entry s mem stats rip break_point f =
    Satisfies->>= _ (revert entry s.memory s.page_count mem) _ (λ mem' h. record {
      counted = refl;
      hangs = refl;
      covered = λ c. ArePatched-append patches stats.newly_executed_basic_blks rip c (λ e. cc);
    })
handle_at_patch-Handled patches entry s mem stats rip invalid_opcode f = record {
  counted = refl;
  hangs = refl;
  covered = λ c. c;
}
handle_at_patch-Handled patches entry s mem stats rip page_fault f = record {
  counted = refl;
  hangs = refl;
  covered = λ c. c;
}

pub abort_on-Handled :
    (patches : PatchSet) (stats : RunStats) (code : GuestException)
    → Handled patches stats stats (abort_on code)
unfolding abort_on
abort_on-Handled patches stats break_point = record {
  counted = refl;
  hangs = refl;
  covered = λ c. c;
}
abort_on-Handled patches stats invalid_opcode = record {
  counted = refl;
  hangs = refl;
  covered = λ c. c;
}
abort_on-Handled patches stats page_fault = record {
  counted = refl;
  hangs = refl;
  covered = λ c. c;
}

pub handle_interrupt_or_exception-Handled :
    (patches : PatchSet) (s : Snapshot) (mem : Memory) (stats : RunStats)
    (q : ExceptionQualification)
    → Satisfies
        (λ r. Handled patches stats r.1 r.2)
        (handle_interrupt_or_exception patches s mem stats q)
unfolding handle_interrupt_or_exception
handle_interrupt_or_exception-Handled patches s mem stats q =
    elim (Option-cases (find patches q.rip)) [
      | inl f ↦
          rw (f, handle_interrupt_or_exception) (abort_on-Handled patches stats q.exception_code)
      | inr (entry, f) ↦
          rw (f, handle_interrupt_or_exception)
            (handle_at_patch-Handled patches entry s mem stats q.rip q.exception_code f)
    ]

pub external-Handled :
    (patches : PatchSet) (tsc : ℕ) (stats : RunStats)
    → Handled patches stats
        (handle_external_interrupt_or_pause tsc stats).0
        (handle_external_interrupt_or_pause tsc stats).1
unfolding handle_external_interrupt_or_pause handle_timer_expiration
external-Handled patches tsc stats =
    elim (Bool-cases (ltb (guest_spent_tsc tsc stats) guest_exec_timeout_in_tsc)) [
      | inl y ↦ rw y (record { counted = refl; hangs = refl; covered = λ c. c })
      | inr n ↦ rw n (record { counted = refl; hangs = refl; covered = λ c. c })
    ]
