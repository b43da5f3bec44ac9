-- ===== src/Vm/Iteration.antt =====
-- hypervisor/src/vm.rs: the changes that one fuzzing iteration makes to a VM, and the return to its
-- start.
mod Sound
pub use Sound.*
use hypervisor_101_in_rust.Prelude.{
  ℕ, ◌/◌, ◌%◌, ◌^◌, ◌≡◌, ◌≢◌, refl, sym, ap, subst, ◌∙◌, Bool, some, inl, inr, arith, ok, ◌==◌,
  Bool-cases, Satisfies, Satisfies->>=,
}
use hypervisor_101_in_rust.Memory.{Memory}
use hypervisor_101_in_rust.HardwareVt.{HardwareVt, IsLawful, rx_write_back, rwx_write_back}
use hypervisor_101_in_rust.HardwareVt.Entry.{Entry, set_translation}
use hypervisor_101_in_rust.Vm.{
  Vm, directory, pti, translation, build_translation, copy_on_write, revert_entries,
  revert_dirty_memory,
}
use hypervisor_101_in_rust.Vm.Paging.{Tables, set_entry, find_table, leaf, leaf-find_table}
use hypervisor_101_in_rust.Vm.Tree.{IsTree, level-find_table, IsTree-set_entry}
use hypervisor_101_in_rust.Vm.Tree.Write.{leaf-set_entry_self, leaf-set_entry_ne}
use hypervisor_101_in_rust.Vm.Walk.{IsPlaced, VmTree, with_tables, Walked}
use hypervisor_101_in_rust.Vm.Translation.{page_of, distinct_path, build_translation-eq-ok}
use hypervisor_101_in_rust.Vm.Revert.{
  revert-Untouched, revert-set_entry, IsTree-revert, find_table-revert,
}
use hypervisor_101_in_rust.Vm.Restore.{
  rx_flags, reverted, clean_translation, IsTracked, IsTracked-walk, clean-walk, empty-Untouched,
}
use hypervisor_101_in_rust.Vm.CopyOnWrite.{copy_on_write-Copied}

module _ {V : Type 0} ⦃hw : HardwareVt V⦄ where
  -- The changes that the handling of nested page faults makes to a VM and to memory: a translation
  -- is added, or a page that is mapped and clean is copied, or could not be.
  pub data Change : Vm V → Memory → Vm V → Memory → Type 0 where
    build :
        {vm vm' : Vm V} {mem : Memory} (gpa pa : ℕ)
        → build_translation vm gpa pa ≡ ok vm'
        → Change vm mem vm' mem
    copy :
        {vm vm' : Vm V} {mem mem' : Memory} (gpa from pa : ℕ) (done : Bool)
        → translation vm gpa ≡ set_translation 0 pa (rx_flags vm)
        → copy_on_write vm mem gpa from ≡ ok (vm', mem', done)
        → Change vm mem vm' mem'

  pub data Changes (vm : Vm V) (mem : Memory) : Vm V → Memory → Type 0 where
    unchanged : Changes vm mem vm mem
    then_change :
        {vm₁ vm₂ : Vm V} {mem₁ mem₂ : Memory}
        → Changes vm mem vm₁ mem₁
        → Change vm₁ mem₁ vm₂ mem₂
        → Changes vm mem vm₂ mem₂

  build-Keeps :
      {start vm vm' : Vm V} (gpa pa : ℕ)
      → IsLawful hw
      → build_translation vm gpa pa ≡ ok vm'
      → Keeps start vm
      → Keeps start vm'
  build-Keeps {start} {vm} gpa pa law e keeps =
      let s = keeps.sound in
      let (tb, used, u, level', w, z, same) =
        build_translation-eq-ok vm s.level gpa pa s.placed s.tree e in
      subst (Keeps start) (sym same) (
        Keeps-built law vm s.level gpa pa tb used u level' s.tree s.tracked w z s.placed keeps.kept)

  copy-Keeps :
      {start vm vm' : Vm V} (mem : Memory) {mem' : Memory} (gpa from pa : ℕ) (done : Bool)
      → IsLawful hw
      → translation vm gpa ≡ set_translation 0 pa (rx_flags vm)
      → copy_on_write vm mem gpa from ≡ ok (vm', mem', done)
      → Keeps start vm
      → Keeps start vm'
  copy-Keeps {start} {vm} {vm'} mem {mem'} gpa from pa done law clean e keeps =
      let s = keeps.sound in
      elim (copy_on_write-Copied law vm mem s.level gpa from pa s.placed s.tree s.tracked clean) [
        | inl (full, same) ↦ let unchanged : vm ≡ vm' = cc in subst (Keeps start) unchanged keeps
        | inr (room, after, mem₁, did, c, in_place, in_tree, in_track) ↦
            let this : after ≡ vm' = cc in
            subst (Keeps start) this (record {
              sound = record {
                level = s.level;
                placed = in_place;
                tree = in_tree;
                tracked = in_track;
              };
              kept = λ g ne. c.reverts g ∙ keeps.kept g ne;
            })
      ]

  -- Every change keeps what reverting gives back.
  pub Change-Keeps :
      {start vm vm' : Vm V} {mem mem' : Memory}
      → IsLawful hw
      → Change vm mem vm' mem'
      → Keeps start vm
      → Keeps start vm'
  Change-Keeps law (build gpa pa e) keeps = build-Keeps gpa pa law e keeps
  Change-Keeps law (copy {mem} gpa from pa done clean e) keeps =
      copy-Keeps mem gpa from pa done law clean e keeps

  pub clean_at_start :
      (vm : Vm V)
      → vm.used_dirty_page_count ≡ 0
      → (g : ℕ) → clean_translation vm g ≡ translation vm g
  unfolding revert_entries
  clean_at_start vm z g =
      ap
        (λ n.
          leaf (revert_entries vm.dirty_entries (rx_flags vm) n vm.tables) vm.nested_pml4
            (directory g) (pti g))
        z

  pub IsSound-vt : IsLawful hw → {vm : Vm V} (vt : V) → IsSound vm → IsSound (record vm { vt = vt })
  IsSound-vt law {vm} vt s = record {
    level = s.level;
    placed = record {
      nps_aligned = s.placed.nps_aligned;
      nps_nonnull = s.placed.nps_nonnull;
      nps_fits = s.placed.nps_fits;
      dirty_aligned = s.placed.dirty_aligned;
      dirty_nonnull = s.placed.dirty_nonnull;
      dirty_fits = s.placed.dirty_fits;
    };
    tree = s.tree;
    tracked = record {
      in_range = s.tracked.in_range;
      in_pt = s.tracked.in_pt;
      writable = λ k l.
          s.tracked.writable k l
          ∙ ap (λ f. f.permission % 2 ^ 3) (law.stateless vm.vt vt rwx_write_back);
    };
  }

  pub clean-vt :
      IsLawful hw
      → (vm : Vm V) (vt : V) (g : ℕ)
      → clean_translation (record vm { vt = vt }) g ≡ clean_translation vm g
  clean-vt law vm vt g =
      ap
        (λ f.
          leaf (revert_entries vm.dirty_entries f vm.used_dirty_page_count vm.tables) vm.nested_pml4
            (directory g) (pti g))
        (law.stateless vt vm.vt rx_write_back)

  pub Keeps-vt :
      IsLawful hw
      → {start vm : Vm V} (vt : V) → Keeps start vm
      → Keeps start (record vm { vt = vt })
  Keeps-vt law {start} {vm} vt keeps = record {
    sound = IsSound-vt law vt keeps.sound;
    kept = λ g ne. clean-vt law vm vt g ∙ keeps.kept g ne;
  }

  pub Changes-Keeps :
      {start : Vm V} {mem : Memory} {vm : Vm V} {mem' : Memory}
      → IsLawful hw
      → IsSound start
      → start.used_dirty_page_count ≡ 0
      → Changes start mem vm mem'
      → Keeps start vm
  Changes-Keeps {start} law s z unchanged = record {
    sound = s;
    kept = λ g ne. clean_at_start start z g;
  }
  Changes-Keeps law s z (then_change cs c) = Change-Keeps law c (Changes-Keeps law s z cs)

  -- The VM after `revert_dirty_memory`, if `vt` is what `invalidate_caches` returns.
  abbrev pub reset : Vm V → V → Vm V
  reset vm vt = record vm { vt = vt; tables = reverted vm; used_dirty_page_count = 0 }

  pub revert-reset :
      (vm : Vm V) {v : V}
      → hw.invalidate_caches vm.vt ≡ ok v
      → (vt : V) × (revert_dirty_memory vm ≡ ok (reset vm vt))
  unfolding revert_dirty_memory
  revert-reset vm {v} e = elim (Bool-cases (vm.used_dirty_page_count == 0)) [
    | inl z ↦
        let zero : vm.used_dirty_page_count ≡ 0 = ground arith in
        (
          vm.vt,
          rw z (ap (λ n. ok (record vm { tables = reverted vm; used_dirty_page_count = n })) zero),
        )
    | inr n ↦ (v, rw (n, e))
  ]

  -- Whatever `revert_dirty_memory` returns is a reset VM.
  pub revert_dirty_memory-reset :
      (vm : Vm V)
      → Satisfies (λ (vm' : Vm V). (vt : V) × (vm' ≡ reset vm vt)) (revert_dirty_memory vm)
  unfolding revert_dirty_memory
  revert_dirty_memory-reset vm = elim (Bool-cases (vm.used_dirty_page_count == 0)) [
    | inl z ↦
        let zero : vm.used_dirty_page_count ≡ 0 = ground arith in
        rw z (vm.vt, ap (λ n. record vm { tables = reverted vm; used_dirty_page_count = n }) zero)
    | inr n ↦ rw n (Satisfies->>= _ (hw.invalidate_caches vm.vt) _ (λ vt did. (vt, refl)))
  ]

  pub reset-IsSound : {vm : Vm V} → IsSound vm → (vt : V) → IsSound (reset vm vt)
  reset-IsSound {vm} s vt = record {
    level = s.level;
    placed = record {
      nps_aligned = s.placed.nps_aligned;
      nps_nonnull = s.placed.nps_nonnull;
      nps_fits = s.placed.nps_fits;
      dirty_aligned = s.placed.dirty_aligned;
      dirty_nonnull = s.placed.dirty_nonnull;
      dirty_fits = s.placed.dirty_fits;
    };
    tree =
        IsTree-revert (rx_flags vm) vm.dirty_entries vm.used_dirty_page_count vm.tables s.tree
          s.tracked.in_pt;
    tracked = record {
      in_range = omega arith;
      in_pt = λ k l. absurd (omega arith);
      writable = λ k l. absurd (omega arith);
    };
  }

  -- Whatever translations are added and pages copied during an iteration that starts with no dirty
  -- page, `revert_dirty_memory` gives every GPA that was translated at the start its entry back,
  -- frees all dirty pages and leaves a sound VM, provided that invalidating the caches succeeds.
  pub revert_dirty_memory-restores :
      {start vm : Vm V} {mem mem' : Memory} {v : V}
      → IsLawful hw
      → IsSound start
      → start.used_dirty_page_count ≡ 0
      → Changes start mem vm mem'
      → hw.invalidate_caches vm.vt ≡ ok v
      → (vm' : Vm V) × (revert_dirty_memory vm ≡ ok vm')
        × (vm'.used_dirty_page_count ≡ 0)
        × IsSound vm'
        × ((g : ℕ) → translation start g ≢ 0 → translation vm' g ≡ translation start g)
  revert_dirty_memory-restores {vm} law s z cs e =
      let keeps = Changes-Keeps law s z cs in
      let (vt, did) = revert-reset vm e in
      (reset vm vt, did, refl, reset-IsSound keeps.sound vt, keeps.kept)
