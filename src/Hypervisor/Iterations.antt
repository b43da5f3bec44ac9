-- ===== src/Hypervisor/Iterations.antt =====
-- hypervisor/src/hypervisor.rs: the fuzzing loop, one iteration after the other.
pub mod Tests
use hypervisor_101_in_rust.Prelude.{
  ℕ, ◌≡◌, ◌≢◌, refl, sym, ◌∙◌, Option, List, [], ◌∷◌, Exec, ok, ap, Satisfies, Satisfies->>=,
  Satisfies-then, Satisfies-ok, Satisfies-map, subst,
}
use hypervisor_101_in_rust.Config.{Features}
use hypervisor_101_in_rust.Input.{InputFile}
use hypervisor_101_in_rust.HardwareVt.{
  VmExitReason, nested_page_fault, exception, external_interrupt_or_pause, timer_expiration,
  shutdown, unexpected, HardwareVt, IsLawful,
}
use hypervisor_101_in_rust.Vm.{Vm, translation, revert_dirty_memory}
use hypervisor_101_in_rust.Vm.Iteration.{reset, revert_dirty_memory-reset}
use hypervisor_101_in_rust.Vm.Rounds.{
  IsStart, Runs, Runs-start, Runs-vt, Runs-build, Runs-copy, reset-IsStart, IsStart-vt,
}
use hypervisor_101_in_rust.Mutation.{MutationEngine, map_and_mutate_input, size}
use hypervisor_101_in_rust.Stats
use hypervisor_101_in_rust.Stats.{RunStats}
use hypervisor_101_in_rust.Hypervisor.{
  AbortReason, VmExitResult, resume_vm, abort_vm, panic_with, Setup, Machine, Exit, handle_exit,
  resolve_pa_for_gpa, handle_nested_page_fault, handle_interrupt_or_exception, count_exit,
  after_exit, run_exits, prepare, start_vm,
}
use hypervisor_101_in_rust.Hypervisor.Faults.{Anything, resolved_anyhow, built-mapped}
use hypervisor_101_in_rust.Hypervisor.Lasting.{
  exited, AreSuch, IsGenuine, Any, IsWithin-Any, IsLasting, run_exits-lasts,
}

module _ {V : Type 0} ⦃hw : HardwareVt V⦄ (law : IsLawful hw) where
  -- Each exit is genuine for the VM that the handling of those before it leaves.
  abbrev pub AreGenuine : Setup → MutationEngine → List (Exit V) → Machine V → RunStats → Type 0
  AreGenuine = AreSuch (λ m x. IsGenuine law (exited x m).vm x.reason)

  Runs-IsLasting :
      (start : Vm V) (g : Setup) (e : MutationEngine)
      → IsLasting law g e
          (Any law)
          (λ m x. IsGenuine law (exited x m).vm x.reason)
          (Anything law)
          (λ s vm mem. Runs start vm)
  Runs-IsLasting start g e = record {
    kept = record {
      on_vt = λ s vm mem. Runs-vt law start vm;
      on_build = λ s vm vm' mem gpa pa did _. Runs-build law start vm vm' gpa pa did;
      on_copy = λ s. Runs-copy law start;
      on_built = λ s vm vm' mem gpa pa did r. built-mapped law gpa pa r.keeps did;
    };
    mapped = λ s vm mem r. r.mapped;
    genuine = λ m x this. this;
    within = λ m x this. IsWithin-Any law x.reason;
    on_run = λ m x _. Runs-vt law start m.vm x.vt;
    on_resolve = λ s vm mem gpa any.
        resolved_anyhow law (λ x. x.0) (Runs start vm) gpa (λ x. x.2)
          (resolve_pa_for_gpa g e s mem gpa);
    on_revert = λ s vm mem mem' entry rip found did r. r;
  }

  -- `s` translates every page that `vm` translates, with the same entry.
  abbrev pub Extends : (vm s : Vm V) → Type 0
  Extends vm s = (g : ℕ) → translation vm g ≢ 0 → translation s g ≡ translation vm g

  prepare-IsStart :
      (start : Vm V) (features : Features) (g : Setup) (tsc : ℕ → ℕ) (next : InputFile)
      (e : MutationEngine) (m : Machine V)
      → Runs start m.vm
      → Satisfies
          (λ (r : MutationEngine × Machine V). IsStart r.1.vm × Extends start r.1.vm)
          (prepare features g tsc next e m)
  unfolding prepare
  prepare-IsStart start features g tsc next e m r =
      Satisfies-then _ _ (revert_dirty_memory m.vm) _ (revert_dirty_memory-reset m.vm)
        (λ vm _ (vt, same).
          Satisfies->>= _ (hw.revert_registers vm.vt m.snapshot m.memory) _ (λ vt₁ _.
            Satisfies->>= _ (map_and_mutate_input features tsc next e m.memory) _ (λ (e', mem) _.
              Satisfies->>= _ (hw.adjust_registers vt₁ g.corpus.data_gva (size e'.current_input)) _
                (λ vt₂ _. ready vm vt vt₂ same))))
    where
      ready :
          (vm : Vm V) (vt vt₂ : V)
          → vm ≡ reset m.vm vt
          → IsStart (record vm { vt = vt₂ }) × Extends start (record vm { vt = vt₂ })
      ready vm vt vt₂ same =
          subst
            (λ (v : Vm V). IsStart (record v { vt = vt₂ }) × Extends start (record v { vt = vt₂ }))
            (sym same)
            (IsStart-vt law (reset m.vm vt) vt₂ (reset-IsStart law start m.vm vt r), r.keeps.kept)

  -- One round of the loop of `start_hypervisor`, with the exits that the processor reports.
  pub record Iteration (g : Setup) (m m'' : Machine V) : Type 0 where
    pub features : Features
    pub tsc : ℕ → ℕ
    pub next : InputFile
    pub start_tsc : ℕ
    pub exits : List (Exit V)
    pub before : MutationEngine
    pub after : MutationEngine
    pub stats : RunStats
    pub reason : Option AbortReason
    pub done :
        start_vm features g tsc next start_tsc exits before m ≡ ok (after, m'', stats, reason)
    pub genuine :
        (e' : MutationEngine) (m' : Machine V)
        → prepare features g tsc next before m ≡ ok (e', m')
        → AreGenuine g e' exits m' (Stats.new start_tsc)

  pub data Iterations (g : Setup) (m : Machine V) : Machine V → Type 0 where
    no_round : Iterations g m m
    round : {m₁ m₂ : Machine V} → Iterations g m m₁ → Iteration g m₁ m₂ → Iterations g m m₂

  start_vm-Runs :
      (start : Vm V) (features : Features) (g : Setup) (tsc : ℕ → ℕ) (next : InputFile)
      (start_tsc : ℕ) (exits : List (Exit V)) (e : MutationEngine) (m : Machine V)
      → ((e' : MutationEngine) (m' : Machine V)
          → prepare features g tsc next e m ≡ ok (e', m')
          → AreGenuine g e' exits m' (Stats.new start_tsc))
      → Runs start m.vm
      → Satisfies
          (λ (r : MutationEngine × Machine V × RunStats × Option AbortReason).
            (s : Vm V) × IsStart s × Extends start s × Runs s r.1.vm)
          (start_vm features g tsc next start_tsc exits e m)
  unfolding start_vm
  start_vm-Runs start features g tsc next start_tsc exits e m genuine r =
      Satisfies-then _ _ (prepare features g tsc next e m) _
        (prepare-IsStart start features g tsc next e m r)
        (λ (e', m') did (ready, extends).
          Satisfies-then _ _ (run_exits g e' exits m' (Stats.new start_tsc)) _
            (run_exits-lasts law (Runs-IsLasting m'.vm g e') exits m' (Stats.new start_tsc)
              (genuine e' m' did) (Runs-start law m'.vm ready))
            (λ x _ r'. (m'.vm, ready, extends, r')))

  -- The last of the iterations has started with a VM without dirty pages, and what holds of a VM
  -- within an iteration holds of what it leaves.
  Iterations-Runs :
      (s : Vm V) (g : Setup) (m m' : Machine V)
      → Runs s m.vm
      → IsStart s
      → Iterations g m m'
      → (s' : Vm V) × IsStart s' × Extends s s' × Runs s' m'.vm
  Iterations-Runs s g m m' r ready no_round = (s, ready, λ h _. refl, r)
  Iterations-Runs s g m m' r ready (round {m₁} rounds i) =
      let (s₁, ready₁, extends₁, r₁) = Iterations-Runs s g m m₁ r ready rounds in
      let (s₂, ready₂, extends₂, r₂) =
        Satisfies-ok _ (start_vm i.features g i.tsc i.next i.start_tsc i.exits i.before m₁)
          (start_vm-Runs s₁ i.features g i.tsc i.next i.start_tsc i.exits i.before m₁ i.genuine r₁)
          i.done in
      (s₂, ready₂, λ h ne. extends₂ h (λ z. ne (sym (extends₁ h ne) ∙ z)) ∙ extends₁ h ne, r₂)

  -- However many iterations there have been, whatever inputs they took and whatever the guest did in
  -- them, the VM that the guest is run with in the next one has no dirty page, only read-only
  -- translations, and gives each page that was translated at the start of the first iteration the
  -- same entry. The faults that the processor reports must be genuine.
  pub Iterations-IsStart :
      (s : Vm V) (g : Setup) (m m' : Machine V) (features : Features) (tsc : ℕ → ℕ)
      (next : InputFile) (e : MutationEngine)
      → Runs s m.vm
      → IsStart s
      → Iterations g m m'
      → Satisfies
          (λ (r : MutationEngine × Machine V). IsStart r.1.vm × Extends s r.1.vm)
          (prepare features g tsc next e m')
  Iterations-IsStart s g m m' features tsc next e r ready rounds =
      let (s', ready', extends, r') = Iterations-Runs s g m m' r ready rounds in
      Satisfies-map _ _ (prepare features g tsc next e m')
        (λ x (ready'', extends').
          (ready'', λ h ne. extends' h (λ z. ne (sym (extends h ne) ∙ z)) ∙ extends h ne))
        (prepare-IsStart s' features g tsc next e m' r')
