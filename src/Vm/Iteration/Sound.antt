-- ===== src/Vm/Iteration/Sound.antt =====
-- hypervisor/src/vm.rs: what holds of a VM throughout an iteration, and that `Vm::build_translation`
-- keeps it.
use hypervisor_101_in_rust.Prelude.{
  ℕ, ◌/◌, ◌%◌, ◌^◌, ◌≡◌, ◌≢◌, refl, sym, ap, ◌∙◌, some, inl, inr, arith, ◌==◌, Bool-cases,
}
use hypervisor_101_in_rust.HardwareVt.{HardwareVt, IsLawful}
use hypervisor_101_in_rust.HardwareVt.Entry.{Entry, set_translation}
use hypervisor_101_in_rust.Vm.{Vm, directory, pti, translation}
use hypervisor_101_in_rust.Vm.Paging.{Tables, set_entry, find_table, leaf, leaf-find_table}
use hypervisor_101_in_rust.Vm.Tree.{IsTree, level-find_table, IsTree-set_entry}
use hypervisor_101_in_rust.Vm.Tree.Write.{leaf-set_entry_self, leaf-set_entry_ne}
use hypervisor_101_in_rust.Vm.Walk.{IsPlaced, VmTree, with_tables, Walked}
use hypervisor_101_in_rust.Vm.Translation.{page_of, distinct_path}
use hypervisor_101_in_rust.Vm.Revert.{
  revert-Untouched, revert-set_entry, IsTree-revert, find_table-revert,
}
use hypervisor_101_in_rust.Vm.Restore.{
  rx_flags, reverted, clean_translation, IsTracked, IsTracked-walk, clean-walk, empty-Untouched,
}

pub same_leaf :
    (tb : Tables) (root g h : ℕ)
    → page_of g ≡ page_of h
    → leaf tb root (directory g) (pti g) ≡ leaf tb root (directory h) (pti h)
same_leaf tb root g h e =
    let a : g / 2 ^ 39 % 2 ^ 9 ≡ h / 2 ^ 39 % 2 ^ 9 = omega arith in
    let b : g / 2 ^ 30 % 2 ^ 9 ≡ h / 2 ^ 30 % 2 ^ 9 = omega arith in
    let c : g / 2 ^ 21 % 2 ^ 9 ≡ h / 2 ^ 21 % 2 ^ 9 = omega arith in
    let d : g / 2 ^ 12 % 2 ^ 9 ≡ h / 2 ^ 12 % 2 ^ 9 = omega arith in rw (a, b, c, d)

module _ {V : Type 0} ⦃hw : HardwareVt V⦄ where
  -- What holds of a VM throughout an iteration.
  pub record IsSound (vm : Vm V) : Type 0 where
    pub level : ℕ → ℕ
    pub placed : IsPlaced vm
    pub tree : VmTree vm level
    pub tracked : IsTracked vm level

  -- The VM is sound, and reverting gives back every translation of the VM `start`.
  pub record Keeps (start vm : Vm V) : Type 0 where
    pub sound : IsSound vm
    pub kept : (g : ℕ) → translation start g ≢ 0 → clean_translation vm g ≡ translation start g

  -- `clean_translation` after `build_translation`.
  module _ (law : IsLawful hw) (vm : Vm V) (level : ℕ → ℕ) (gpa pa : ℕ) (tb : Tables) (used u : ℕ)
      (level' : ℕ → ℕ) (tree : VmTree vm level) (tr : IsTracked vm level)
      (w : Walked vm level vm.nested_pml4 (directory gpa) tb used u level')
      (empty : tb u (pti gpa) ≡ 0) where
    abbrev walked : Vm V
    walked = with_tables vm tb used

    abbrev pte : Entry
    pte = set_translation 0 pa (rx_flags vm)

    abbrev built : Vm V
    built = with_tables vm (set_entry tb u (pti gpa) pte) used

    tracked : IsTracked walked level'
    tracked = IsTracked-walk law vm level _ _ tb used u level' tree tr w

    u_is_pt : level' u ≡ 3
    u_is_pt = omega (
      arith,
      w.tree.at_root,
      level-find_table w.tree vm.nested_pml4 (directory gpa) {u = u} (omega (arith, w.tree.at_root))
          w.found,
    )

    reverted-built : reverted built ≡ set_entry (reverted walked) u (pti gpa) pte
    reverted-built =
        revert-set_entry (rx_flags vm) vm.dirty_entries vm.used_dirty_page_count tb u (pti gpa) pte
          (empty-Untouched law vm level _ _ tb used u level' tree tr w u (pti gpa) empty)

    reverted-IsTree :
        IsTree vm.nested_pml4 vm.nested_paging_structures vm.nps_count used (reverted walked) level'
    reverted-IsTree =
        IsTree-revert (rx_flags vm) vm.dirty_entries vm.used_dirty_page_count tb w.tree
          tracked.in_pt

    reverted_found : find_table (reverted walked) vm.nested_pml4 (directory gpa) ≡ some u
    reverted_found =
        find_table-revert (rx_flags vm) vm.dirty_entries vm.used_dirty_page_count tb w.tree
          tracked.in_pt vm.nested_pml4 (directory gpa) (omega (arith, w.tree.at_root))
        ∙ w.found

    pub clean-built_self : clean_translation built gpa ≡ pte
    clean-built_self =
        ap (λ t. leaf t vm.nested_pml4 (directory gpa) (pti gpa)) reverted-built
        ∙ leaf-set_entry_self reverted-IsTree (directory gpa) u (pti gpa) pte refl reverted_found

    pub clean-built_ne :
        (g : ℕ) → page_of g ≢ page_of gpa → clean_translation built g ≡ clean_translation vm g
    clean-built_ne g ne =
        ap (λ t. leaf t vm.nested_pml4 (directory g) (pti g)) reverted-built
        ∙ leaf-set_entry_ne reverted-IsTree (directory gpa) u (pti gpa) pte refl reverted_found
            (directory g) (pti g) refl (distinct_path g gpa ne)
        ∙ clean-walk law vm level _ _ tb used u level' tree tr w g

    pub clean_empty : clean_translation vm gpa ≡ 0
    clean_empty =
        sym (clean-walk law vm level _ _ tb used u level' tree tr w gpa)
        ∙ leaf-find_table (reverted walked) vm.nested_pml4 (directory gpa) (pti gpa) reverted_found
        ∙ revert-Untouched (rx_flags vm) vm.dirty_entries vm.used_dirty_page_count tb u (pti gpa)
            (empty-Untouched law vm level _ _ tb used u level' tree tr w u (pti gpa) empty)
        ∙ empty

    pub IsTracked-built : IsTracked built level'
    IsTracked-built = record {
      in_range = tracked.in_range;
      in_pt = tracked.in_pt;
      writable = λ k l. ground (
        arith,
        tracked.writable k l,
        λ (a : (vm.dirty_entries k).table ≡ u) (b : (vm.dirty_entries k).index ≡ pti gpa).
            empty-Untouched law vm level _ _ tb used u level' tree tr w u (pti gpa) empty k l
              (a, b),
      );
    }

    pub Keeps-built :
        {start : Vm V}
        → IsPlaced vm
        → ((g : ℕ) → translation start g ≢ 0 → clean_translation vm g ≡ translation start g)
        → Keeps start built
    Keeps-built placed kept = record {
      sound = record {
        level = level';
        placed = record {
          nps_aligned = placed.nps_aligned;
          nps_nonnull = placed.nps_nonnull;
          nps_fits = placed.nps_fits;
          dirty_aligned = placed.dirty_aligned;
          dirty_nonnull = placed.dirty_nonnull;
          dirty_fits = placed.dirty_fits;
        };
        tree = IsTree-set_entry w.tree u (pti gpa) pte u_is_pt;
        tracked = IsTracked-built;
      };
      kept = λ g ne. elim (Bool-cases (page_of g == page_of gpa)) [
        | inl y ↦
            let same : page_of g ≡ page_of gpa = ground arith in
            absurd (
              ne
                (sym (kept g ne) ∙ same_leaf (reverted vm) vm.nested_pml4 g gpa same ∙ clean_empty))
        | inr n ↦ clean-built_ne g (ground arith) ∙ kept g ne
      ];
    }
