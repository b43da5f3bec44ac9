-- ===== src/Hypervisor/Fuzzing.antt =====
-- hypervisor/src/hypervisor.rs: what the guest reads at the start of each iteration of the fuzzing
-- loop, and what it can write.
mod Start
pub mod Tests
pub use Start.{Sees, IsReady}
use Start.{Prepared, prepare-IsLocated, Prepared-Sees}
use hypervisor_101_in_rust.Prelude.{
  ℕ, ◌+◌, ◌*◌, ◌/◌, ◌%◌, ◌^◌, ◌≤◌, ◌<◌, ◌≡◌, ◌≢◌, refl, sym, ap, ◌∙◌, subst, true, Option, List,
  Exec, ok, Satisfies, Satisfies->>=, Satisfies-then, Satisfies-ok, Satisfies-map, arith, length,
}
use hypervisor_101_in_rust.Config.{Features}
use hypervisor_101_in_rust.Input.{InputFile}
use hypervisor_101_in_rust.Memory.{page_size, Memory}
use hypervisor_101_in_rust.HardwareVt.{HardwareVt, IsLawful, rx_write_back}
use hypervisor_101_in_rust.HardwareVt.Entry.{address, set_translation}
use hypervisor_101_in_rust.HardwareVt.Entry.Laws.{fields-set_translation}
use hypervisor_101_in_rust.Vm.{Vm, translation, revert_dirty_memory}
use hypervisor_101_in_rust.Vm.Translation.{page_of}
use hypervisor_101_in_rust.Vm.Restore.{rx_flags, clean_translation}
use hypervisor_101_in_rust.Vm.Iteration.{reset, revert_dirty_memory-reset, clean_at_start}
use hypervisor_101_in_rust.Vm.Rounds.{IsStart, Runs-start, reset-IsStart, IsStart-vt}
use hypervisor_101_in_rust.Vm.Private.{IsWritable, IsPrivate}
use hypervisor_101_in_rust.Snapshot.{Snapshot, contains, page_address}
use hypervisor_101_in_rust.Snapshot.Paged.{gdt_pfn}
use hypervisor_101_in_rust.Snapshot.Intact.{Shows, IsIntact-same}
use hypervisor_101_in_rust.Mutation.{MutationEngine, map_and_mutate_input, size}
use hypervisor_101_in_rust.Mutation.Writes.{IsFitting, Wrote, map_and_mutate_input-Wrote}
use hypervisor_101_in_rust.Stats
use hypervisor_101_in_rust.Stats.{RunStats}
use hypervisor_101_in_rust.Hypervisor.{
  AbortReason, Setup, Machine, Exit, run_exits, prepare, start_vm,
}
use hypervisor_101_in_rust.Hypervisor.Lasting.{AreSuch, run_exits-lasts}
use hypervisor_101_in_rust.Hypervisor.Located.{IsGpa, IsOwn, IsLocated-IsLasting}
use hypervisor_101_in_rust.Hypervisor.Contents.{
  IsPagedIn, IsApart-moved, IsFaithful, IsProper, IsFaithful-IsLasting,
}

module _ {V : Type 0} ⦃hw : HardwareVt V⦄ where
  module _ (law : IsLawful hw) where
    start_vm-IsReady :
        (features : Features) (g : Setup) (tsc : ℕ → ℕ) (next : InputFile) (start_tsc : ℕ)
        (exits : List (Exit V)) (e : MutationEngine) (m : Machine V)
        → length next.bytes ≤ e.input_page_count * page_size
        → ((e' : MutationEngine) (m' : Machine V)
            → prepare features g tsc next e m ≡ ok (e', m')
            → AreSuch (IsOwn law) g e' exits m' (Stats.new start_tsc))
        → IsReady law g e m
        → Satisfies
            (λ (r : MutationEngine × Machine V × RunStats × Option AbortReason).
              IsReady law g r.0 r.1)
            (start_vm features g tsc next start_tsc exits e m)
    unfolding start_vm
    start_vm-IsReady features g tsc next start_tsc exits e m next_fits proper r =
        Satisfies-then _ _ (prepare features g tsc next e m) _
          (prepare-IsLocated law features g tsc next e m next_fits r)
          (λ (e', m') did (f, fits, _).
            Satisfies-then _ _ (run_exits g e' exits m' (Stats.new start_tsc)) _
              (run_exits-lasts law (IsLocated-IsLasting law g e' m'.vm) exits m'
                (Stats.new start_tsc) (proper e' m' did) f)
              (λ x _ f'. record { start = m'.vm; located = f'; fitting = fits }))

    -- One round of the loop of `start_hypervisor`, with the exits that the processor reports of a
    -- guest that is confined.
    pub record Round (g : Setup) (e : MutationEngine) (m : Machine V) (e'' : MutationEngine)
        (m'' : Machine V) : Type 0 where
      pub features : Features
      pub tsc : ℕ → ℕ
      pub next : InputFile
      pub next_fits : length next.bytes ≤ e.input_page_count * page_size
      pub start_tsc : ℕ
      pub exits : List (Exit V)
      pub stats : RunStats
      pub reason : Option AbortReason
      pub done : start_vm features g tsc next start_tsc exits e m ≡ ok (e'', m'', stats, reason)
      pub proper :
          (e' : MutationEngine) (m' : Machine V)
          → prepare features g tsc next e m ≡ ok (e', m')
          → AreSuch (IsOwn law) g e' exits m' (Stats.new start_tsc)

    pub data Rounds (g : Setup) (e : MutationEngine) (m : Machine V)
        : MutationEngine → Machine V → Type 0 where
      not_started : Rounds g e m e m
      then_round :
          {e₁ e₂ : MutationEngine} {m₁ m₂ : Machine V}
          → Rounds g e m e₁ m₁
          → Round g e₁ m₁ e₂ m₂
          → Rounds g e m e₂ m₂

    Rounds-IsReady :
        {g : Setup} {e : MutationEngine} {m : Machine V} {e' : MutationEngine} {m' : Machine V}
        → IsReady law g e m
        → Rounds g e m e' m'
        → IsReady law g e' m'
    Rounds-IsReady r not_started = r
    Rounds-IsReady {g} r (then_round {e₁} {m₁} rounds i) =
        Satisfies-ok _ (start_vm i.features g i.tsc i.next i.start_tsc i.exits e₁ m₁)
          (start_vm-IsReady i.features g i.tsc i.next i.start_tsc i.exits e₁ m₁ i.next_fits i.proper
            (Rounds-IsReady r rounds))
          i.done

    -- However many iterations there have been, whatever inputs they took and whatever the guest did in
    -- them, in the next one the guest starts with its own memory: at each address that is translated
    -- and whose frame is in the snapshot, but for that of its GDT, it reads the contents of the
    -- snapshot file for the frame with the patches applied, but where a patch has been reverted. The
    -- exits must be those of a guest that uses addresses of 48 bits and writes through writable
    -- translations alone, its faults genuine, the allocations apart, and each file must fit the input
    -- data pages.
    pub Rounds-Sees :
        (features : Features) (g : Setup) (tsc : ℕ → ℕ) (next : InputFile) (e e' : MutationEngine)
        (m m' : Machine V)
        → IsReady law g e m
        → Rounds g e m e' m'
        → length next.bytes ≤ e'.input_page_count * page_size
        → Satisfies
            (λ (r : MutationEngine × Machine V).
              (gpa : ℕ)
              → IsGpa gpa
              → translation r.1.vm gpa ≢ 0
              → contains r.1.snapshot (gpa / 2 ^ 12) ≡ true
              → gpa / 2 ^ 12 ≢ gdt_pfn r.1.snapshot
              → Sees g r.1 gpa)
            (prepare features g tsc next e' m')
    Rounds-Sees features g tsc next e e' m m' r rounds next_fits =
        Satisfies-map _ _ (prepare features g tsc next e' m')
          (λ (e'', m'') p. Prepared-Sees law g e'' m'' p)
          (prepare-IsLocated law features g tsc next e' m' next_fits (Rounds-IsReady r rounds))

    -- Whatever exits a confined guest makes in an iteration, each page that it can write afterwards is a
    -- dirty page in use that belongs to one of its pages alone, and none is a page of the snapshot.
    pub run_exits-isolates :
        (g : Setup) (e : MutationEngine) (start : Vm V) (exits : List (Exit V)) (m : Machine V)
        (stats : RunStats)
        → AreSuch (IsProper law) g e exits m stats
        → IsFaithful law g e start m.snapshot m.vm m.memory
        → Satisfies
            (λ (r : Machine V × RunStats × Option AbortReason).
              IsPrivate r.0.vm
              × ((gpa pfn : ℕ)
                  → IsWritable r.0.vm gpa
                  → pfn < r.0.snapshot.page_count
                  → address (translation r.0.vm gpa) ≢ page_address r.0.snapshot pfn))
            (run_exits g e exits m stats)
    run_exits-isolates g e start exits m stats proper f =
        Satisfies-map _ _ (run_exits g e exits m stats)
          (λ (m', stats', reason) f'. (
            f'.private,
            λ gpa pfn w l same.
                let (k, used, own) = f'.private.owned gpa w in
                let in_range = f'.backed.runs.keeps.sound.tracked.in_range in
                f'.apart.from_dirty pfn k l (omega arith) (sym same ∙ own),
          ))
          (run_exits-lasts law (IsFaithful-IsLasting law g e start) exits m stats proper f)
