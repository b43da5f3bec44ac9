-- ===== src/Vm/Redirect.antt =====
-- hypervisor/src/vm.rs: the PTE that `Vm::copy_on_write` redirects, and the loop that sets it back.
use mathlib.Core.Path.{fun_ext, subst₂}
use hypervisor_101_in_rust.Prelude.{
  ℕ, suc, ◌+◌, ◌*◌, ◌%◌, ◌^◌, ◌<◌, ◌≡◌, ap, ◌∙◌, some, inl, inr, arith, ◌==◌, Bool-cases,
}
use hypervisor_101_in_rust.HardwareVt.{HardwareVt, IsLawful}
use hypervisor_101_in_rust.HardwareVt.Entry.{Flags, Entry, permission, pfn, set_translation}
use hypervisor_101_in_rust.HardwareVt.Entry.Laws.{fields-set_translation}
use hypervisor_101_in_rust.Vm.{
  Vm, DirtyEntry, directory, pti, revert_entries, dirty_address, redirect,
}
use hypervisor_101_in_rust.Vm.Paging.{Tables, set_entry, find_table}
use hypervisor_101_in_rust.Vm.Tree.{level-find_table}
use hypervisor_101_in_rust.Vm.Walk.{VmTree}
use hypervisor_101_in_rust.Vm.Revert.{Untouched, revert-Untouched, revert-set_entry, revert_cong}
use hypervisor_101_in_rust.Vm.Restore.{rx_flags, rwx_flags, reverted, IsTracked}

-- Redirecting a clean entry to a dirty page and setting it back gives the clean entry.
set_translation_back :
    (pa dirty : ℕ) (rx rwx : Flags)
    → let e = set_translation 0 pa rx in
      set_translation (set_translation e dirty rwx) (pfn e * 2 ^ 12) rx ≡ e
unfolding set_translation
set_translation_back pa dirty rx rwx = omega arith

module _ {V : Type 0} ⦃hw : HardwareVt V⦄ (law : IsLawful hw) (vm : Vm V) (level : ℕ → ℕ)
    (gpa pa u : ℕ) (tree : VmTree vm level) (tr : IsTracked vm level)
    (found : find_table vm.tables vm.nested_pml4 (directory gpa) ≡ some u)
    (clean : vm.tables u (pti gpa) ≡ set_translation 0 pa (rx_flags vm)) where
  abbrev pte : Entry
  pte = set_translation 0 pa (rx_flags vm)

  abbrev dirty_pte : Entry
  dirty_pte = set_translation pte (dirty_address vm vm.used_dirty_page_count) (rwx_flags vm)

  level_u : level u ≡ 3
  level_u = omega (
    arith,
    tree.at_root,
    level-find_table tree vm.nested_pml4 (directory gpa) {u = u} (omega (arith, tree.at_root))
        found,
  )

  -- A recorded entry is writable, and the entry of `gpa` is not.
  slot-Untouched : Untouched vm.dirty_entries vm.used_dirty_page_count u (pti gpa)
  slot-Untouched k l (a, b) =
      let p =
        subst₂ (λ t i. permission (vm.tables t i) ≡ (rwx_flags vm).permission % 2 ^ 3) a b
          (tr.writable k l) in
      let q = fields-set_translation 0 pa (rx_flags vm) (omega arith) in
      omega (arith, p, ap permission clean, q.1, law.writable vm.vt, law.read_only vm.vt)

  abbrev vm' : Vm V
  vm' = redirect vm u (pti gpa)

  tables-redirect : vm'.tables ≡ set_entry vm.tables u (pti gpa) dirty_pte
  unfolding redirect
  tables-redirect = rw clean

  loop : (ℕ → DirtyEntry) → Tables → Tables
  loop dirty tb = revert_entries dirty (rx_flags vm) vm.used_dirty_page_count tb

  loop-redirect : loop vm'.dirty_entries vm'.tables ≡ set_entry (reverted vm) u (pti gpa) dirty_pte
  unfolding redirect loop
  loop-redirect =
      revert_cong (rx_flags vm) vm'.dirty_entries vm.dirty_entries vm.used_dirty_page_count
        vm'.tables (λ k l. ground arith)
      ∙ ap (loop vm.dirty_entries) tables-redirect
      ∙ revert-set_entry (rx_flags vm) vm.dirty_entries vm.used_dirty_page_count vm.tables u
          (pti gpa) dirty_pte slot-Untouched

  -- What the loop of `revert_dirty_memory` leaves is not changed by the redirection.
  pub reverted-redirect : reverted vm' ≡ reverted vm
  unfolding redirect revert_entries loop
  reverted-redirect =
      ap (λ m. revert_entries vm'.dirty_entries (rx_flags vm) m vm'.tables) one_more
      ∙ last_round
      ∙ ap (λ tb. set_entry tb u (pti gpa) (back (tb u (pti gpa)))) loop-redirect
      ∙ fun_ext λ t. fun_ext λ i. at t i
    where
      one_more : vm.used_dirty_page_count + 1 ≡ suc vm.used_dirty_page_count
      one_more = omega arith

      back : Entry → Entry
      back e = set_translation e (pfn (vm.tables u (pti gpa)) * 2 ^ 12) (rx_flags vm)

      newest :
          vm'.dirty_entries vm.used_dirty_page_count
          ≡ record { table = u; index = pti gpa; original_pfn = pfn (vm.tables u (pti gpa)) }
      newest = ground arith

      last_round :
          revert_entries vm'.dirty_entries (rx_flags vm) (suc vm.used_dirty_page_count) vm'.tables
          ≡ set_entry
              (loop vm'.dirty_entries vm'.tables)
              u
              (pti gpa)
              (back (loop vm'.dirty_entries vm'.tables u (pti gpa)))
      last_round =
          let tb = loop vm'.dirty_entries vm'.tables in
          ap
            (λ (d : DirtyEntry).
              set_entry tb d.table d.index
                (set_translation (tb d.table d.index) (d.original_pfn * 2 ^ 12) (rx_flags vm)))
            newest

      at :
          (t i : ℕ)
          → set_entry
              (set_entry (reverted vm) u (pti gpa) dirty_pte)
              u
              (pti gpa)
              (back (set_entry (reverted vm) u (pti gpa) dirty_pte u (pti gpa)))
              t
              i
            ≡ reverted vm t i
      at t i = ground (
        arith,
        clean,
        revert-Untouched (rx_flags vm) vm.dirty_entries vm.used_dirty_page_count vm.tables u
            (pti gpa) slot-Untouched,
        set_translation_back pa (dirty_address vm vm.used_dirty_page_count) (rx_flags vm)
            (rwx_flags vm),
      )

  pub IsTracked-redirect : vm.used_dirty_page_count < vm.dirty_page_count → IsTracked vm' level
  unfolding redirect
  IsTracked-redirect room =
      let f =
        fields-set_translation pte (dirty_address vm vm.used_dirty_page_count) (rwx_flags vm)
          (fields-set_translation 0 pa (rx_flags vm) (omega arith)).5 in
      record {
        in_range = omega arith;
        in_pt = λ k l. ground (arith, level_u, tr.in_pt k);
        writable = λ k l. elim (Bool-cases (k == vm.used_dirty_page_count)) [
          | inl y ↦ ground (arith, f.1, clean)
          | inr n ↦
              let old : k < vm.used_dirty_page_count = ground arith in
              ground (
                arith,
                tr.writable k old,
                λ (a : (vm.dirty_entries k).table ≡ u) (b : (vm.dirty_entries k).index ≡ pti gpa).
                    slot-Untouched k old (a, b),
              )
        ];
      }
