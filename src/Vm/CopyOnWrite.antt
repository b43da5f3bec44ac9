-- ===== src/Vm/CopyOnWrite.antt =====
-- hypervisor/src/vm.rs: `Vm::copy_on_write` on a page that `build_translation` has mapped.
use hypervisor_101_in_rust.Prelude.{
  ℕ, ◌+◌, ◌^◌, ◌<◌, ◌≡◌, ◌≢◌, ◌⊎◌, refl, sym, ap, subst, ◌∙◌, true, false, some, inl, inr, arith,
  ok, leb, Option-cases, Bool-cases,
}
use hypervisor_101_in_rust.Memory.{Memory, write_page}
use hypervisor_101_in_rust.HardwareVt.{HardwareVt, IsLawful}
use hypervisor_101_in_rust.HardwareVt.Entry.{Entry, permission, set_translation, address}
use hypervisor_101_in_rust.HardwareVt.Entry.Laws.{fields-set_translation}
use hypervisor_101_in_rust.Vm.{
  Vm, directory, pti, translation, walk, dirty_address, redirect, copy_on_write,
}
use hypervisor_101_in_rust.Vm.Paging.{find_table, leaf, leaf-find_table, leaf-none}
use hypervisor_101_in_rust.Vm.Tree.{level-find_table, IsTree-set_entry}
use hypervisor_101_in_rust.Vm.Tree.Write.{leaf-set_entry_self, leaf-set_entry_ne}
use hypervisor_101_in_rust.Vm.Walk.{IsPlaced, VmTree, walk_found}
use hypervisor_101_in_rust.Vm.Translation.{page_of, distinct_path}
use hypervisor_101_in_rust.Vm.Restore.{rx_flags, rwx_flags, clean_translation, IsTracked}
use hypervisor_101_in_rust.Vm.Redirect.{reverted-redirect, IsTracked-redirect}

-- `vm'` and `mem'` after a successful copy-on-write of the page of `gpa` from the page at `from`.
pub record Copied {V : Type 0} ⦃hw : HardwareVt V⦄ (vm : Vm V) (mem : Memory) (gpa from : ℕ)
    (vm' : Vm V) (mem' : Memory) : Type 0 where
  -- The guest writes to the next dirty page,
  pub own_page : address (translation vm' gpa) ≡ dirty_address vm vm.used_dirty_page_count
  pub own_page_writable : permission (translation vm' gpa) ≡ 7
  -- which holds a copy of the page at `from`; no other page of memory has changed,
  pub copied : mem' (dirty_address vm vm.used_dirty_page_count) ≡ mem from
  pub unshared : (a : ℕ) → a ≢ dirty_address vm vm.used_dirty_page_count → mem' a ≡ mem a
  -- and no other translation.
  pub others : (g : ℕ) → page_of g ≢ page_of gpa → translation vm' g ≡ translation vm g
  -- Reverting the dirty memory gives the same translations as before.
  pub reverts : (g : ℕ) → clean_translation vm' g ≡ clean_translation vm g
  pub counted : vm'.used_dirty_page_count ≡ vm.used_dirty_page_count + 1
  pub same_pages : (vm'.dirty_pages ≡ vm.dirty_pages) × (vm'.dirty_page_count ≡ vm.dirty_page_count)

module _ {V : Type 0} ⦃hw : HardwareVt V⦄ where
  copy-ok :
      (vm : Vm V) (mem : Memory) (gpa from u : ℕ)
      → vm.used_dirty_page_count < vm.dirty_page_count
      → walk vm vm.nested_pml4 (directory gpa) ≡ ok (vm, u)
      → copy_on_write vm mem gpa from
        ≡ ok (
          redirect vm u (pti gpa),
          write_page mem (dirty_address vm vm.used_dirty_page_count) (mem from),
          true,
        )
  unfolding copy_on_write
  copy-ok vm mem gpa from u room w = ground (arith, w)

  copy_full :
      (vm : Vm V) (mem : Memory) (gpa from : ℕ)
      → leb vm.dirty_page_count vm.used_dirty_page_count ≡ true
      → copy_on_write vm mem gpa from ≡ ok (vm, mem, false)
  unfolding copy_on_write
  copy_full vm mem gpa from full = rw full

  module _ (law : IsLawful hw) (vm : Vm V) (mem : Memory) (level : ℕ → ℕ) (gpa from pa u : ℕ)
      (placed : IsPlaced vm) (tree : VmTree vm level) (tr : IsTracked vm level)
      (found : find_table vm.tables vm.nested_pml4 (directory gpa) ≡ some u)
      (clean : vm.tables u (pti gpa) ≡ set_translation 0 pa (rx_flags vm))
      (room : vm.used_dirty_page_count < vm.dirty_page_count) where
    abbrev entry : Entry
    entry =
        set_translation (vm.tables u (pti gpa)) (dirty_address vm vm.used_dirty_page_count)
          (rwx_flags vm)

    u_is_pt : level u ≡ 3
    u_is_pt = omega (
      arith,
      tree.at_root,
      level-find_table tree vm.nested_pml4 (directory gpa) {u = u} (omega (arith, tree.at_root))
          found,
    )

    IsPlaced-redirect : IsPlaced (redirect vm u (pti gpa))
    unfolding redirect
    IsPlaced-redirect = record {
      nps_aligned = placed.nps_aligned;
      nps_nonnull = placed.nps_nonnull;
      nps_fits = placed.nps_fits;
      dirty_aligned = placed.dirty_aligned;
      dirty_nonnull = placed.dirty_nonnull;
      dirty_fits = placed.dirty_fits;
    }

    tree-redirect : VmTree (redirect vm u (pti gpa)) level
    unfolding redirect
    tree-redirect = IsTree-set_entry tree u (pti gpa) entry u_is_pt

    new-translation : translation (redirect vm u (pti gpa)) gpa ≡ entry
    unfolding redirect
    new-translation = leaf-set_entry_self tree (directory gpa) u (pti gpa) entry refl found

    entry_fields :
        (address entry ≡ dirty_address vm vm.used_dirty_page_count) × (permission entry ≡ 7)
    entry_fields =
        let a = fields-set_translation 0 pa (rx_flags vm) (omega arith) in
        let b =
          fields-set_translation (vm.tables u (pti gpa)) (dirty_address vm vm.used_dirty_page_count)
            (rwx_flags vm) (subst (λ e. e < 2 ^ 64) (sym clean) a.5) in
        omega (arith, b.0, b.1, law.writable vm.vt, placed.dirty_aligned, placed.dirty_fits)

    clean-redirect :
        (g : ℕ) → clean_translation (redirect vm u (pti gpa)) g ≡ clean_translation vm g
    unfolding redirect
    clean-redirect g =
        ap (λ tb. leaf tb vm.nested_pml4 (directory g) (pti g))
          (reverted-redirect law vm level gpa pa u tree tr found clean)

    Copied-redirect :
        Copied vm mem gpa from
          (redirect vm u (pti gpa))
          (write_page mem (dirty_address vm vm.used_dirty_page_count) (mem from))
    unfolding redirect
    Copied-redirect = record {
      own_page = ap address new-translation ∙ entry_fields.0;
      own_page_writable = ap permission new-translation ∙ entry_fields.1;
      copied = ground arith;
      unshared = λ a ne. ground arith;
      others = λ g ne.
          leaf-set_entry_ne tree (directory gpa) u (pti gpa) entry refl found (directory g) (pti g)
            refl (distinct_path g gpa ne);
      reverts = clean-redirect;
      counted = refl;
      same_pages = (refl, refl);
    }

  -- On a page that is mapped and clean, `copy_on_write` gives the guest a writable copy of its own,
  -- changes no other page or translation, and keeps what reverting restores. It reports failure, and
  -- changes nothing, exactly when the dirty pages are used up. It does not panic.
  pub copy_on_write-Copied :
      IsLawful hw
      → (vm : Vm V) (mem : Memory) (level : ℕ → ℕ) (gpa from pa : ℕ) → IsPlaced vm
      → VmTree vm level
      → IsTracked vm level
      → translation vm gpa ≡ set_translation 0 pa (rx_flags vm)
      → ((vm.used_dirty_page_count ≡ vm.dirty_page_count)
          × (copy_on_write vm mem gpa from ≡ ok (vm, mem, false)))
        ⊎ ((vm.used_dirty_page_count < vm.dirty_page_count)
            × (vm' : Vm V) × (mem' : Memory) × (copy_on_write vm mem gpa from
                ≡ ok (vm', mem', true))
            × Copied vm mem gpa from vm' mem'
            × IsPlaced vm'
            × VmTree vm' level
            × IsTracked vm' level)
  copy_on_write-Copied law vm mem level gpa from pa placed tree tr clean =
      elim (Option-cases (find_table vm.tables vm.nested_pml4 (directory gpa))) [
        | inl f ↦ absurd (
            omega (
              arith,
              law.read_only vm.vt,
              (fields-set_translation 0 pa (rx_flags vm) (omega arith)).1,
              ap permission
                  (sym clean ∙ leaf-none vm.tables vm.nested_pml4 (directory gpa) (pti gpa) f),
            ))
        | inr (u, f) ↦ elim (Bool-cases (leb vm.dirty_page_count vm.used_dirty_page_count)) [
          | inl full ↦ inl (ground (arith, tr.in_range), copy_full vm mem gpa from full)
          | inr more ↦
              let room : vm.used_dirty_page_count < vm.dirty_page_count = ground arith in
              let here =
                sym (leaf-find_table vm.tables vm.nested_pml4 (directory gpa) (pti gpa) f)
                ∙ clean in
              inr (
                room,
                redirect vm u (pti gpa),
                write_page mem (dirty_address vm vm.used_dirty_page_count) (mem from),
                copy-ok vm mem gpa from u room (
                    walk_found vm level vm.nested_pml4 (directory gpa) tree
                      (omega (arith, tree.at_root)) f),
                Copied-redirect law vm mem level gpa from pa u placed tree tr f here room,
                IsPlaced-redirect law vm mem level gpa from pa u placed tree tr f here room,
                tree-redirect law vm mem level gpa from pa u placed tree tr f here room,
                IsTracked-redirect law vm level gpa pa u tree tr f here room,
              )
        ]
      ]
