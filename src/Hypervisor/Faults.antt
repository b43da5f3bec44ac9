-- ===== src/Hypervisor/Faults.antt =====
-- hypervisor/src/hypervisor.rs: nested page faults and what `revert_dirty_memory` gives back after them.
use hypervisor_101_in_rust.Prelude.{
  Satisfies-then, Exec, panic, ℕ, ◌≡◌, ◌⊎◌, refl, ap, ◌∙◌, subst, Bool, true, false, inl, inr, ok,
  Satisfies, Satisfies->>=, Bool-cases,
}
use hypervisor_101_in_rust.Memory.{Memory}
use hypervisor_101_in_rust.HardwareVt.{
  NestedPageFaultQualification, HardwareVt, IsLawful, rx_write_back,
}
use hypervisor_101_in_rust.HardwareVt.Entry.{set_translation}
use hypervisor_101_in_rust.Vm.{Vm, translation, build_translation, copy_on_write}
use hypervisor_101_in_rust.Vm.Translation.{build_translation-Built}
use hypervisor_101_in_rust.Vm.Restore.{rx_flags}
use hypervisor_101_in_rust.Vm.Iteration.{Keeps, Keeps-vt, build, copy, Change-Keeps}
use hypervisor_101_in_rust.Snapshot.{Snapshot}
use hypervisor_101_in_rust.Mutation.{MutationEngine}
use hypervisor_101_in_rust.Hypervisor.{
  Setup, Machine, VmExitResult, resolve_pa_for_gpa, resume, after_copy, give_access, map_page,
  handle_nested_page_fault,
}

module _ {V : Type 0} ⦃hw : HardwareVt V⦄ (law : IsLawful hw) where
  -- A write that faults on a page that is translated faults since the entry is read-only.
  unfoldable pub IsAccurate : Vm V → NestedPageFaultQualification → Type 0
  IsAccurate vm q =
      q.missing_translation ≡ false
      → q.write_access ≡ true
      → (pa : ℕ) × (translation vm q.gpa ≡ set_translation 0 pa (rx_flags vm))

  pub built-mapped :
      {start vm vm' : Vm V} (gpa pa : ℕ)
      → Keeps start vm
      → build_translation vm gpa pa ≡ ok vm'
      → translation vm' gpa ≡ set_translation 0 pa (rx_flags vm')
  built-mapped {vm} {vm'} gpa pa keeps e =
      let s = keeps.sound in
      elim (build_translation-Built vm s.level gpa pa s.placed s.tree) [
        | inl (empty, after, did, b) ↦
            let this : after ≡ vm' = cc in
            subst (λ (v : Vm V). translation v gpa ≡ set_translation 0 pa (rx_flags vm')) this
              (b.mapped ∙ ap (set_translation 0 pa) (law.stateless vm.vt vm'.vt rx_write_back))
        | inr (p, why) ↦ absurd (cc)
      ]

  -- A property of the snapshot, the VM and memory that every change in an iteration keeps, where
  -- `Source` says of the address that backs a GPA what the property relies on.
  pub record IsKept (Source : Snapshot → (gpa pa : ℕ) → Type 0)
      (Inv : Snapshot → Vm V → Memory → Type 0) : Type 0 where
    pub on_vt :
        (s : Snapshot) (vm : Vm V) (mem : Memory) (vt : V)
        → Inv s vm mem
        → Inv s (record vm { vt = vt }) mem
    pub on_build :
        (s : Snapshot) (vm vm' : Vm V) (mem : Memory) (gpa pa : ℕ)
        → build_translation vm gpa pa ≡ ok vm'
        → Source s gpa pa
        → Inv s vm mem
        → Inv s vm' mem
    pub on_copy :
        (s : Snapshot) (vm vm' : Vm V) (mem mem' : Memory) (gpa from pa : ℕ) (done : Bool)
        → translation vm gpa ≡ set_translation 0 pa (rx_flags vm)
        → copy_on_write vm mem gpa from ≡ ok (vm', mem', done)
        → Inv s vm mem
        → Inv s vm' mem'
    pub on_built :
        (s : Snapshot) (vm vm' : Vm V) (mem : Memory) (gpa pa : ℕ)
        → build_translation vm gpa pa ≡ ok vm'
        → Inv s vm mem
        → translation vm' gpa ≡ set_translation 0 pa (rx_flags vm')

  abbrev pub IsSourced :
      (Source : Snapshot → (gpa pa : ℕ) → Type 0) → Snapshot → (gpa : ℕ) → ℕ ⊎ VmExitResult → Type 0
  IsSourced Source s gpa (inl pa) = Source s gpa pa
  IsSourced Source s gpa (inr err) = Unit

  module _ {Source : Snapshot → (gpa pa : ℕ) → Type 0} {Inv : Snapshot → Vm V → Memory → Type 0}
      (inv : IsKept Source Inv) where
    abbrev Holds : Machine V × VmExitResult → Type 0
    Holds r = Inv r.0.snapshot r.0.vm r.0.memory

    resume-keeps :
        (vm : Vm V) (s : Snapshot) (mem : Memory) → Inv s vm mem → Satisfies Holds (resume vm s mem)
    unfolding resume
    resume-keeps vm s mem h =
        Satisfies->>= Holds (hw.invalidate_caches vm.vt) _ (λ vt e. inv.on_vt s vm mem vt h)

    after_copy-keeps :
        (vm : Vm V) (s : Snapshot) (mem : Memory) (copied : Bool)
        → Inv s vm mem
        → Satisfies Holds (after_copy vm s mem copied)
    unfolding after_copy
    after_copy-keeps vm s mem true h = resume-keeps vm s mem h
    after_copy-keeps vm s mem false h = h

    give_access-keeps :
        (vm : Vm V) (s : Snapshot) (mem : Memory) (gpa from : ℕ) (write : Bool)
        → ((write ≡ true) → (pa : ℕ) × (translation vm gpa ≡ set_translation 0 pa (rx_flags vm)))
        → Inv s vm mem
        → Satisfies Holds (give_access vm s mem gpa from write)
    unfolding give_access
    give_access-keeps vm s mem gpa from false clean h = resume-keeps vm s mem h
    give_access-keeps vm s mem gpa from true clean h =
        let (pa, c) = clean refl in
        Satisfies->>= Holds (copy_on_write vm mem gpa from) _ (λ (vm', mem', done) e.
          after_copy-keeps vm' s mem' done (inv.on_copy s vm vm' mem mem' gpa from pa done c e h))

    map_page-keeps :
        (vm : Vm V) (s : Snapshot) (mem : Memory) (q : NestedPageFaultQualification)
        (resolved : ℕ ⊎ VmExitResult)
        → IsAccurate vm q
        → IsSourced Source s q.gpa resolved
        → Inv s vm mem
        → Satisfies Holds (map_page vm s mem q resolved)
    unfolding map_page IsAccurate
    map_page-keeps vm s mem q (inr err) accurate sourced h = h
    map_page-keeps vm s mem q (inl pa) accurate sourced h =
        elim (Bool-cases q.missing_translation) [
          | inl missing ↦ rw missing (
              Satisfies->>= Holds (build_translation vm q.gpa pa) _ (λ vm' e.
                give_access-keeps vm' s mem q.gpa pa q.write_access
                  (λ w. (pa, inv.on_built s vm vm' mem q.gpa pa e h))
                  (inv.on_build s vm vm' mem q.gpa pa e sourced h)))
          | inr present ↦
              rw present (give_access-keeps vm s mem q.gpa pa q.write_access (accurate present) h)
        ]

    pub handle_nested_page_fault-keeps :
        (g : Setup) (e : MutationEngine) (m : Machine V) (q : NestedPageFaultQualification)
        → IsAccurate m.vm q
        → Satisfies
            (λ (x : Snapshot × Memory × (ℕ ⊎ VmExitResult)).
              Inv x.0 m.vm x.1 × IsSourced Source x.0 q.gpa x.2)
            (resolve_pa_for_gpa g e m.snapshot m.memory q.gpa)
        → Satisfies Holds (handle_nested_page_fault g e m q)
    unfolding handle_nested_page_fault
    handle_nested_page_fault-keeps g e m q accurate resolved =
        Satisfies-then _ Holds (resolve_pa_for_gpa g e m.snapshot m.memory q.gpa) _ resolved
          (λ x _ (h, sourced). map_page-keeps m.vm (x.0) (x.1) q (x.2) accurate sourced h)

  -- A property of the VM alone, which does not depend on what backs its pages.
  abbrev pub Anything : Snapshot → (gpa pa : ℕ) → Type 0
  Anything s gpa pa = Unit

  pub resolved_anyhow :
      {A : Type 0} (s : A → Snapshot) (Inv : Type 0) (gpa : ℕ) (r : A → ℕ ⊎ VmExitResult)
      (m : Exec A)
      → Inv
      → Satisfies (λ x. Inv × IsSourced Anything (s x) gpa (r x)) m
  resolved_anyhow s Inv gpa r (ok x) h = (h, anything (r x))
    where
      anything : (resolved : ℕ ⊎ VmExitResult) → IsSourced Anything (s x) gpa resolved
      anything (inl pa) = tt
      anything (inr err) = tt
  resolved_anyhow s Inv gpa r panic h = tt

  Keeps-IsKept : (start : Vm V) → IsKept Anything (λ s vm mem. Keeps start vm)
  Keeps-IsKept start = record {
    on_vt = λ s vm mem vt. Keeps-vt law vt;
    on_build = λ s vm vm' mem gpa pa e _. Change-Keeps law (build {mem = mem} gpa pa e);
    on_copy =
        λ s vm vm' mem mem' gpa from pa done c e. Change-Keeps law (copy gpa from pa done c e);
    on_built = λ s vm vm' mem gpa pa e h. built-mapped gpa pa h e;
  }

  -- Handling a nested page fault keeps the VM sound, and keeps what reverting its dirty memory gives
  -- back: the translations of the VM at the start of the iteration.
  pub handle_nested_page_fault-Keeps :
      {start : Vm V} (g : Setup) (e : MutationEngine) (m : Machine V)
      (q : NestedPageFaultQualification)
      → IsAccurate m.vm q
      → Keeps start m.vm
      → Satisfies
          (λ (r : Machine V × VmExitResult). Keeps start r.0.vm)
          (handle_nested_page_fault g e m q)
  handle_nested_page_fault-Keeps {start} g e m q accurate keeps =
      handle_nested_page_fault-keeps (Keeps-IsKept start) g e m q accurate (
        resolved_anyhow (λ x. x.0) (Keeps start m.vm) q.gpa (λ x. x.2)
          (resolve_pa_for_gpa g e m.snapshot m.memory q.gpa) keeps)
