-- ===== src/Vm/Restore.antt =====
-- What `Vm::revert_dirty_memory` would restore at each point of an iteration.
use mathlib.Core.Path.{subst₂}
use hypervisor_101_in_rust.Prelude.{
  ℕ, ◌%◌, ◌^◌, ◌≤◌, ◌<◌, ◌≡◌, refl, sym, ap, ◌∙◌, List, [], none, some, inl, inr, arith, length,
  Option-cases,
}
use hypervisor_101_in_rust.HardwareVt.{HardwareVt, IsLawful, rwx_write_back, rx_write_back}
use hypervisor_101_in_rust.HardwareVt.Entry.{Flags, Entry, permission}
use hypervisor_101_in_rust.Vm.{Vm, directory, pti, revert_entries}
use hypervisor_101_in_rust.Vm.Paging.{Tables, find_table, leaf, leaf-find_table, leaf-none}
use hypervisor_101_in_rust.Vm.Tree.{level-find_table}
use hypervisor_101_in_rust.Vm.Walk.{VmTree, with_tables, Walked, find_table-Walked}
use hypervisor_101_in_rust.Vm.Revert.{Untouched, revert-Untouched, find_table-revert, revert_local}

module _ {V : Type 0} ⦃hw : HardwareVt V⦄ where
  abbrev pub rx_flags : Vm V → Flags
  rx_flags vm = hw.nps_entry_flags vm.vt rx_write_back

  abbrev pub rwx_flags : Vm V → Flags
  rwx_flags vm = hw.nps_entry_flags vm.vt rwx_write_back

  -- The tables that the loop of `revert_dirty_memory` leaves.
  abbrev pub reverted : Vm V → Tables
  reverted vm = revert_entries vm.dirty_entries (rx_flags vm) vm.used_dirty_page_count vm.tables

  -- The entry that translates a GPA once the dirty memory has been reverted.
  abbrev pub clean_translation : Vm V → ℕ → Entry
  clean_translation vm gpa = leaf (reverted vm) vm.nested_pml4 (directory gpa) (pti gpa)

  -- The recorded entries are entries of PTs and are writable, and their number is in range.
  pub record IsTracked (vm : Vm V) (level : ℕ → ℕ) : Type 0 where
    pub in_range : vm.used_dirty_page_count ≤ vm.dirty_page_count
    pub in_pt : (k : ℕ) → k < vm.used_dirty_page_count → level (vm.dirty_entries k).table ≡ 3
    pub writable :
        (k : ℕ)
        → k < vm.used_dirty_page_count
        → permission (vm.tables (vm.dirty_entries k).table (vm.dirty_entries k).index)
          ≡ (rwx_flags vm).permission % 2 ^ 3

  reverted-leaf-some :
      (vm : Vm V) (level : ℕ → ℕ) (q : List ℕ) (j : ℕ) {w : ℕ}
      → VmTree vm level
      → IsTracked vm level
      → length q ≡ 3
      → find_table vm.tables vm.nested_pml4 q ≡ some w
      → leaf (reverted vm) vm.nested_pml4 q j ≡ reverted vm w j
  reverted-leaf-some vm level q j tree tr n f = leaf-find_table (reverted vm) vm.nested_pml4 q j (
      find_table-revert (rx_flags vm) vm.dirty_entries vm.used_dirty_page_count vm.tables tree
        tr.in_pt vm.nested_pml4 q (omega (arith, tree.at_root))
      ∙ f)

  reverted-leaf-none :
      (vm : Vm V) (level : ℕ → ℕ) (q : List ℕ) (j : ℕ)
      → VmTree vm level
      → IsTracked vm level
      → length q ≡ 3
      → find_table vm.tables vm.nested_pml4 q ≡ none
      → leaf (reverted vm) vm.nested_pml4 q j ≡ 0
  reverted-leaf-none vm level q j tree tr n f = leaf-none (reverted vm) vm.nested_pml4 q j (
      find_table-revert (rx_flags vm) vm.dirty_entries vm.used_dirty_page_count vm.tables tree
        tr.in_pt vm.nested_pml4 q (omega (arith, tree.at_root))
      ∙ f)

  module _ (law : IsLawful hw) (vm : Vm V) (level : ℕ → ℕ) (t : ℕ) (path : List ℕ) (tb : Tables)
      (used u : ℕ) (level' : ℕ → ℕ) (tree : VmTree vm level) (tr : IsTracked vm level)
      (w : Walked vm level t path tb used u level') where
    pts_kept : (s j : ℕ) → level s ≡ 3 → tb s j ≡ vm.tables s j
    unfolding leaf
    pts_kept s j l = w.leaves s [] j (omega arith)

    pub IsTracked-walk : IsTracked (with_tables vm tb used) level'
    IsTracked-walk = record {
      in_range = tr.in_range;
      in_pt = λ k l. omega (arith, tr.in_pt k l, w.levels (vm.dirty_entries k).table);
      writable = λ k l.
          ap permission
            (pts_kept (vm.dirty_entries k).table (vm.dirty_entries k).index (tr.in_pt k l))
          ∙ tr.writable k l;
    }

    -- An empty entry is none of the recorded ones, which are writable.
    pub empty-Untouched :
        (x j : ℕ) → tb x j ≡ 0 → Untouched vm.dirty_entries vm.used_dirty_page_count x j
    empty-Untouched x j z k l (a, b) =
        let d = vm.dirty_entries k in
        let e : tb d.table d.index ≡ 0 = subst₂ (λ x j. tb x j ≡ 0) (sym a) (sym b) z in
        let p = tr.writable k l in
        omega (arith, law.writable vm.vt, p, pts_kept d.table d.index (tr.in_pt k l), e)

    clean_same :
        (q : List ℕ) (j : ℕ)
        → length q ≡ 3
        → leaf (reverted (with_tables vm tb used)) vm.nested_pml4 q j
          ≡ leaf (reverted vm) vm.nested_pml4 q j
    clean_same q j n = elim (Option-cases (find_table vm.tables vm.nested_pml4 q)) [
      | inr (x, f) ↦
          reverted-leaf-some (with_tables vm tb used) level' q j w.tree IsTracked-walk n
            (find_table-Walked tree w vm.nested_pml4 q (omega (arith, tree.at_root)) f)
          ∙ revert_local (rx_flags vm) level vm.dirty_entries vm.used_dirty_page_count tb vm.tables
              tr.in_pt pts_kept x j
              (omega (
                arith,
                tree.at_root,
                level-find_table tree vm.nested_pml4 q {u = x} (omega (arith, tree.at_root)) f,
              ))
          ∙ sym (reverted-leaf-some vm level q j tree tr n f)
      | inl f ↦ elim (Option-cases (find_table tb vm.nested_pml4 q)) [
        | inl g ↦
            reverted-leaf-none (with_tables vm tb used) level' q j w.tree IsTracked-walk n g
            ∙ sym (reverted-leaf-none vm level q j tree tr n f)
        | inr (x, g) ↦
            let z : tb x j ≡ 0 =
              sym (leaf-find_table tb vm.nested_pml4 q j g)
              ∙ w.leaves vm.nested_pml4 q j (omega (arith, tree.at_root))
              ∙ leaf-none vm.tables vm.nested_pml4 q j f in
            reverted-leaf-some (with_tables vm tb used) level' q j w.tree IsTracked-walk n g
            ∙ revert-Untouched (rx_flags vm) vm.dirty_entries vm.used_dirty_page_count tb x j
                (empty-Untouched x j z)
            ∙ z
            ∙ sym (reverted-leaf-none vm level q j tree tr n f)
      ]
    ]

    -- A walk changes no translation of the reverted tables.
    pub clean-walk : (g : ℕ) → clean_translation (with_tables vm tb used) g ≡ clean_translation vm g
    clean-walk g = clean_same (directory g) (pti g) refl
