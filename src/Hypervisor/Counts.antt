-- ===== src/Hypervisor/Counts.antt =====
-- hypervisor/src/hypervisor.rs: the statistics that a sequence of VM exits leaves.
mod Handlers
pub use Handlers.{hangs_after, ArePatched}
use Handlers.{
  reason_of, ArePatched-append, Handled, no_hang, handle_at_patch-Handled, abort_on-Handled,
  handle_interrupt_or_exception-Handled, external-Handled,
}
use hypervisor_101_in_rust.Prelude.{
  ℕ, suc, ◌+◌, ◌^◌, ◌≤◌, ◌<◌, ◌≡◌, ◌≢◌, refl, sym, ap, ◌∙◌, true, Option, none, some, inl, inr,
  take, ok, subst, zero, arith, List, [], ◌∷◌, ◌++◌, Exec, Satisfies, Satisfies->>=, Satisfies-ok,
  Satisfies-map, ltb, Bool-cases, Option-cases, length,
}
use hypervisor_101_in_rust.Config.{guest_exec_timeout_in_tsc}
use hypervisor_101_in_rust.Memory.{Memory}
use hypervisor_101_in_rust.HardwareVt.{
  GuestException, break_point, invalid_opcode, page_fault, NestedPageFaultQualification,
  ExceptionQualification, VmExitReason, nested_page_fault, exception, external_interrupt_or_pause,
  timer_expiration, shutdown, unexpected, HardwareVt,
}
use hypervisor_101_in_rust.Patch.{PatchEntry, PatchSet, find, revert}
use hypervisor_101_in_rust.Snapshot.{Snapshot}
use hypervisor_101_in_rust.Mutation.{MutationEngine}
use hypervisor_101_in_rust.Stats.{RunStats}
use hypervisor_101_in_rust.Hypervisor.{
  AbortReason, unhandled_vm_exit, end_marker, invalid_page_access, null_page_access,
  negative_page_access, invalid_instruction, unexpected_breakpoint, unexpected_page_fault,
  excessive_memory_write, hang, VmExitResult, resume_vm, abort_vm, panic_with, Setup, Machine, Exit,
  handle_at_patch, abort_on, count_exit, after_exit, handle_interrupt_or_exception,
  handle_timer_expiration, handle_external_interrupt_or_pause, handle_nested_page_fault,
  handle_exit, guest_spent_tsc, run_exits,
}
use hypervisor_101_in_rust.Hypervisor.Sources.{handle_nested_page_fault-documented}

module _ {V : Type 0} ⦃hw : HardwareVt V⦄ where
  handle_exit-Handled :
      (g : Setup) (e : MutationEngine) (m : Machine V) (stats : RunStats) (tsc : ℕ)
      (reason : VmExitReason)
      → Satisfies (λ r. Handled g.patches stats r.1 r.2) (handle_exit g e m stats tsc reason)
  unfolding handle_exit handle_timer_expiration
  handle_exit-Handled g e m stats tsc (nested_page_fault q) =
      Satisfies->>= _ (handle_nested_page_fault g e m q) _ (λ r h. record {
        counted = refl;
        hangs = sym (
            no_hang q r.1 stats.hang_count
              (Satisfies-ok _ _ (handle_nested_page_fault-documented g e m q) h));
        covered = λ c. c;
      })
  handle_exit-Handled g e m stats tsc (exception q) =
      Satisfies->>= _ (handle_interrupt_or_exception g.patches m.snapshot m.memory stats q) _
        (λ r h.
          Satisfies-ok _ _
            (handle_interrupt_or_exception-Handled g.patches m.snapshot m.memory stats q) h)
  handle_exit-Handled g e m stats tsc external_interrupt_or_pause =
      external-Handled g.patches tsc stats
  handle_exit-Handled g e m stats tsc timer_expiration = record {
    counted = refl;
    hangs = refl;
    covered = λ c. c;
  }
  handle_exit-Handled g e m stats tsc (shutdown code) = record {
    counted = refl;
    hangs = refl;
    covered = λ c. c;
  }
  handle_exit-Handled g e m stats tsc (unexpected code) = record {
    counted = refl;
    hangs = refl;
    covered = λ c. c;
  }

  -- What a sequence of exits leaves: the first `handled` of them have the same result as all, and
  -- the guest has run on after any fewer of them.
  pub record Counted (g : Setup) (e : MutationEngine) (exits : List (Exit V)) (m : Machine V)
      (stats : RunStats) (r : Machine V × RunStats × Option AbortReason) : Type 0 where
    pub handled : ℕ
    pub no_more : handled ≤ length exits
    pub all_handled : r.2 ≡ none → handled ≡ length exits
    pub ends : run_exits g e (take handled exits) m stats ≡ ok r
    pub goes_on :
        (k : ℕ)
        → k < handled
        → (m' : Machine V) × (stats' : RunStats) × (run_exits g e (take k exits) m stats
            ≡ ok (m', stats', none))
    pub counted : r.1.vmexit_count ≡ stats.vmexit_count + handled
    pub hangs : r.1.hang_count ≡ hangs_after r.2 stats.hang_count
    pub covered :
        ArePatched g.patches stats.newly_executed_basic_blks
        → ArePatched g.patches r.1.newly_executed_basic_blks

  -- The machine when the guest has run and exited.
  abbrev left : Exit V → Machine V → Machine V
  left x m = record m { vm = record (m.vm) { vt = x.vt }; memory = x.memory }

  run_exits-resumed :
      (g : Setup) (e : MutationEngine) (x : Exit V) (xs : List (Exit V)) (m m' : Machine V)
      (stats stats' : RunStats)
      → handle_exit g e (left x m) stats x.handler_tsc x.reason ≡ ok (m', stats', resume_vm)
      → run_exits g e (x ∷ xs) m stats ≡ run_exits g e xs m' (count_exit x stats')
  unfolding run_exits after_exit
  run_exits-resumed g e x xs m m' stats stats' did = rw did refl

  run_exits-aborted :
      (g : Setup) (e : MutationEngine) (x : Exit V) (xs : List (Exit V)) (m m' : Machine V)
      (stats stats' : RunStats) (reason : AbortReason)
      → handle_exit g e (left x m) stats x.handler_tsc x.reason ≡ ok (m', stats', abort_vm reason)
      → run_exits g e (x ∷ xs) m stats
        ≡ after_exit x m' (count_exit x stats') (abort_vm reason) (run_exits g e xs)
  unfolding run_exits
  run_exits-aborted g e x xs m m' stats stats' reason did = rw did refl

  goes_on_after :
      (g : Setup) (e : MutationEngine) (x : Exit V) (xs : List (Exit V)) (m m' : Machine V)
      (stats stats' : RunStats) (r : Machine V × RunStats × Option AbortReason)
      → handle_exit g e (left x m) stats x.handler_tsc x.reason ≡ ok (m', stats', resume_vm)
      → (c : Counted g e xs m' (count_exit x stats') r) → (k : ℕ) → k < suc c.handled
      → (m₁ : Machine V) × (stats₁ : RunStats) × (run_exits g e (take k (x ∷ xs)) m stats
          ≡ ok (m₁, stats₁, none))
  unfolding run_exits
  goes_on_after g e x xs m m' stats stats' r did c zero l = (m, stats, refl)
  goes_on_after g e x xs m m' stats stats' r did c (suc k) l =
      let (m₁, stats₁, same) = c.goes_on k (omega arith) in
      (m₁, stats₁, run_exits-resumed g e x (take k xs) m m' stats stats' did ∙ same)

  after_exit-Counted :
      (g : Setup) (e : MutationEngine) (x : Exit V) (xs : List (Exit V)) (m m' : Machine V)
      (stats stats' : RunStats) (result : VmExitResult)
      → stats.vmexit_count + suc (length xs) < 2 ^ 64
      → handle_exit g e (left x m) stats x.handler_tsc x.reason ≡ ok (m', stats', result)
      → Handled g.patches stats stats' result
      → ((m₁ : Machine V) (s : RunStats)
          → s.vmexit_count + length xs < 2 ^ 64
          → Satisfies (Counted g e xs m₁ s) (run_exits g e xs m₁ s))
      → Satisfies
          (Counted g e (x ∷ xs) m stats)
          (after_exit x m' (count_exit x stats') result (run_exits g e xs))
  unfolding after_exit count_exit
  after_exit-Counted g e x xs m m' stats stats' resume_vm bound did h ih =
      Satisfies-map _ _ (run_exits g e xs m' (count_exit x stats'))
        (λ r c. record {
          handled = suc c.handled;
          no_more = omega (arith, c.no_more);
          all_handled = λ z. omega (arith, c.all_handled z);
          ends = run_exits-resumed g e x (take c.handled xs) m m' stats stats' did ∙ c.ends;
          goes_on = goes_on_after g e x xs m m' stats stats' r did c;
          counted = omega (arith, c.counted, h.counted);
          hangs = c.hangs ∙ ap (hangs_after r.2) h.hangs;
          covered = λ y. c.covered (h.covered y);
        })
        (ih m' (count_exit x stats') (omega (arith, h.counted)))
  after_exit-Counted g e x xs m m' stats stats' (abort_vm reason) bound did h ih = record {
    handled = 1;
    no_more = omega arith;
    all_handled = λ z. absurd (cc);
    ends = run_exits-aborted g e x [] m m' stats stats' reason did;
    goes_on = λ k l.
        subst
          (λ n.
            (m₁ : Machine V) × (stats₁ : RunStats) × (run_exits g e (take n (x ∷ xs)) m stats
              ≡ ok (m₁, stats₁, none)))
          (the_first k l) (m, stats, refl_none g e m stats);
    counted = omega (arith, h.counted);
    hangs = h.hangs;
    covered = h.covered;
  }
    where
      the_first : (k : ℕ) → k < 1 → 0 ≡ k
      the_first k l = omega arith

      refl_none :
          (g : Setup) (e : MutationEngine) (m : Machine V) (stats : RunStats)
          → run_exits g e [] m stats ≡ ok (m, stats, none)
      refl_none g e m stats = unfold run_exits in refl
  after_exit-Counted g e x xs m m' stats stats' (panic_with code) bound did h ih = tt

  -- An iteration counts each exit that it handles once, up to and with the one that aborts it, before
  -- which the guest runs on after every exit; it handles all if none does. The hang count is set to 1
  -- if the guest timed out and is left alone otherwise; and the basic blocks recorded as newly
  -- executed all have a patch. The counter must not overflow.
  pub run_exits-Counted :
      (g : Setup) (e : MutationEngine) (exits : List (Exit V)) (m : Machine V) (stats : RunStats)
      → stats.vmexit_count + length exits < 2 ^ 64
      → Satisfies (Counted g e exits m stats) (run_exits g e exits m stats)
  unfolding run_exits
  run_exits-Counted g e [] m stats bound = record {
    handled = 0;
    no_more = omega arith;
    all_handled = λ h. refl;
    ends = refl;
    goes_on = λ k l. absurd (omega arith);
    counted = omega arith;
    hangs = refl;
    covered = λ c. c;
  }
  run_exits-Counted g e (x ∷ xs) m stats bound =
      Satisfies->>= _ (handle_exit g e (left x m) stats x.handler_tsc x.reason) _ (λ r did.
        after_exit-Counted g e x xs m r.0 stats r.1 r.2 bound did
          (Satisfies-ok _ _ (handle_exit-Handled g e (left x m) stats x.handler_tsc x.reason) did)
          (run_exits-Counted g e xs))
