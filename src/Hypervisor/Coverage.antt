-- ===== src/Hypervisor/Coverage.antt =====
-- hypervisor/src/hypervisor.rs: breakpoints on pages that the guest has modified.
mod Tests
use hypervisor_101_in_rust.Prelude.{
  ℕ, ◌+◌, ◌*◌, ◌<◌, ◌≡◌, ◌≢◌, refl, sym, ap, ◌∙◌, some, ◌∷◌, [], ◌++◌, ok, ◌>>=◌, Satisfies,
  Satisfies->>=, Satisfies-then, arith,
}
use hypervisor_101_in_rust.Memory.{page_size, Memory}
use hypervisor_101_in_rust.HardwareVt.{
  break_point, ExceptionQualification, exception, HardwareVt, IsLawful,
}
use hypervisor_101_in_rust.HardwareVt.Entry.{address}
use hypervisor_101_in_rust.Vm.{Vm, translation}
use hypervisor_101_in_rust.Vm.Private.{IsWritable}
use hypervisor_101_in_rust.Patch.{PatchEntry, PatchSet, find, revert}
use hypervisor_101_in_rust.Snapshot.{Snapshot, page_address}
use hypervisor_101_in_rust.Snapshot.Intact.{revert-eq-ok}
use hypervisor_101_in_rust.Mutation.{MutationEngine}
use hypervisor_101_in_rust.Stats.{RunStats}
use hypervisor_101_in_rust.Hypervisor.{
  VmExitResult, resume_vm, Setup, Machine, handle_at_patch, handle_interrupt_or_exception,
  handle_exit,
}
use hypervisor_101_in_rust.Hypervisor.Contents.{IsFaithful}

at_breakpoint :
    (patches : PatchSet) (s : Snapshot) (mem : Memory) (stats : RunStats)
    (q : ExceptionQualification) (entry : PatchEntry)
    → find patches q.rip ≡ some entry
    → q.exception_code ≡ break_point
    → handle_interrupt_or_exception patches s mem stats q
      ≡ handle_at_patch entry s mem stats q.rip break_point
unfolding handle_interrupt_or_exception handle_at_patch
at_breakpoint patches s mem stats q entry found code =
    rw (found, handle_interrupt_or_exception) (ap (handle_at_patch entry s mem stats q.rip) code)

reverted :
    (entry : PatchEntry) (s : Snapshot) (mem : Memory) (stats : RunStats) (rip a : ℕ)
    → ((mem' : Memory) → revert entry s.memory s.page_count mem ≡ ok mem' → mem' a ≡ mem a)
    → Satisfies
        (λ (r : Memory × RunStats × VmExitResult).
          (r.2 ≡ resume_vm)
          × (r.1.newly_executed_basic_blks ≡ stats.newly_executed_basic_blks ++ rip ∷ [])
          × (r.0 a ≡ mem a))
        (handle_at_patch entry s mem stats rip break_point)
unfolding handle_at_patch
reverted entry s mem stats rip a same =
    Satisfies->>= _ (revert entry s.memory s.page_count mem) _
      (λ mem' did. (refl, refl, same mem' did))

module _ {V : Type 0} ⦃hw : HardwareVt V⦄ (law : IsLawful hw) where
  -- A breakpoint at a patch is recorded and the guest resumes, but the patch is reverted in the
  -- snapshot alone: a page that the guest has modified, and so has a copy of, stays as it is.
  pub handle_exit-copied :
      (g : Setup) (e : MutationEngine) (start : Vm V) (m : Machine V) (stats : RunStats) (tsc : ℕ)
      (q : ExceptionQualification) (entry : PatchEntry) (gpa : ℕ)
      → IsFaithful law g e start m.snapshot m.vm m.memory
      → find g.patches q.rip ≡ some entry
      → q.exception_code ≡ break_point
      → IsWritable m.vm gpa
      → Satisfies
          (λ (r : Machine V × RunStats × VmExitResult).
            (r.2 ≡ resume_vm)
            × (r.1.newly_executed_basic_blks ≡ stats.newly_executed_basic_blks ++ q.rip ∷ [])
            × (r.0.vm ≡ m.vm)
            × (r.0.memory (address (translation m.vm gpa))
                ≡ m.memory (address (translation m.vm gpa))))
          (handle_exit g e m stats tsc (exception q))
  unfolding handle_exit
  handle_exit-copied g e start m stats tsc q entry gpa f found code w =
      let s = m.snapshot in
      rw (at_breakpoint g.patches s m.memory stats q entry found code) (
        Satisfies-then _ _ (handle_at_patch entry s m.memory stats q.rip break_point) _
          (reverted entry s m.memory stats q.rip (address (translation m.vm gpa)) (λ mem did.
            let (inside, now) =
              revert-eq-ok g.file g.patches s m.memory f.intact entry s.memory s.page_count did in
            let (k, used, own) = f.private.owned gpa w in
            let in_range = f.backed.runs.keeps.sound.tracked.in_range in
            let other = f.apart.from_dirty _ k inside (omega arith) in
            ap (λ (x : Memory). x (address (translation m.vm gpa))) now ∙ ground arith))
          (λ (mem, stats', result) did (resumes, counted, same). (resumes, counted, refl, same)))
