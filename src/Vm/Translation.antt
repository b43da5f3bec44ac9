-- ===== src/Vm/Translation.antt =====
-- hypervisor/src/vm.rs: `Vm::build_translation` on the map from guest pages to entries.
use hypervisor_101_in_rust.Prelude.{
  ℕ, ◌+◌, ◌/◌, ◌%◌, ◌^◌, ◌<◌, ◌≡◌, ◌≢◌, ◌⊎◌, refl, sym, ap, ◌∙◌, false, inl, inr, arith, get_or, ok,
  panic, ◌==◌, Bool-cases,
}
use hypervisor_101_in_rust.HardwareVt.{HardwareVt, rx_write_back}
use hypervisor_101_in_rust.HardwareVt.Entry.{set_translation}
use hypervisor_101_in_rust.Vm.{Vm, directory, pti, translation, walk, build_translation}
use hypervisor_101_in_rust.Vm.Paging.{Tables, set_entry, leaf-find_table}
use hypervisor_101_in_rust.Vm.Tree.{level-find_table, IsTree-set_entry}
use hypervisor_101_in_rust.Vm.Tree.Write.{leaf-set_entry_self, leaf-set_entry_ne}
use hypervisor_101_in_rust.Vm.Walk.{IsPlaced, VmTree, with_tables, Walked, WalkOutcome, walk_lem}

-- The guest page that an address lies on, in the 48 bits that four levels translate.
abbrev pub page_of : ℕ → ℕ
page_of gpa = gpa / 2 ^ 12 % 2 ^ 36

page_of-injective : (g h : ℕ) → directory g ≡ directory h → pti g ≡ pti h → page_of g ≡ page_of h
page_of-injective g h d p =
    omega (arith, ap (λ l. get_or l 0 0) d, ap (λ l. get_or l 1 0) d, ap (λ l. get_or l 2 0) d)

pub distinct_path :
    (g h : ℕ) → page_of g ≢ page_of h → ¬ ((directory g ≡ directory h) × (pti g ≡ pti h))
distinct_path g h ne (d, p) = ne (page_of-injective g h d p)

module _ {V : Type 0} ⦃hw : HardwareVt V⦄ where
  -- `vm'` translates the page of `gpa` to `pa`, read and execute only, and differs from `vm` in
  -- nothing else that a guest or the rest of the program can see.
  pub record Built (vm : Vm V) (gpa pa : ℕ) (vm' : Vm V) : Type 0 where
    pub mapped : translation vm' gpa ≡ set_translation 0 pa (hw.nps_entry_flags vm.vt rx_write_back)
    pub others : (g : ℕ) → page_of g ≢ page_of gpa → translation vm' g ≡ translation vm g
    pub tree : (level : ℕ → ℕ) × VmTree vm' level
    pub frame : vm' ≡ with_tables vm vm'.tables vm'.used_nps_count

  after_walk :
      (vm : Vm V) (gpa pa : ℕ) (tb : Tables) (used u : ℕ)
      → walk vm vm.nested_pml4 (directory gpa) ≡ ok (with_tables vm tb used, u)
      → tb u (pti gpa) ≡ 0
      → build_translation vm gpa pa
        ≡ ok (
            with_tables vm
              (set_entry tb u
                (pti gpa)
                (set_translation 0 pa (hw.nps_entry_flags vm.vt rx_write_back)))
              used)
  unfolding build_translation
  after_walk vm gpa pa tb used u w z = rw (w, z)

  build_panics :
      (vm : Vm V) (gpa pa : ℕ) (tb : Tables) (used u : ℕ)
      → walk vm vm.nested_pml4 (directory gpa) ≡ ok (with_tables vm tb used, u)
      → (tb u (pti gpa) == 0) ≡ false
      → build_translation vm gpa pa ≡ panic
  unfolding build_translation
  build_panics vm gpa pa tb used u w z = rw (w, z)

  Built-intro :
      (vm : Vm V) (level : ℕ → ℕ) (gpa pa : ℕ) (tb : Tables) (used u : ℕ) (level' : ℕ → ℕ)
      → VmTree vm level
      → Walked vm level vm.nested_pml4 (directory gpa) tb used u level'
      → Built vm gpa pa (
          with_tables vm
            (set_entry tb u
              (pti gpa)
              (set_translation 0 pa (hw.nps_entry_flags vm.vt rx_write_back)))
            used)
  Built-intro vm level gpa pa tb used u level' tree w =
      let pte = set_translation 0 pa (hw.nps_entry_flags vm.vt rx_write_back) in
      record {
        mapped = leaf-set_entry_self w.tree (directory gpa) u (pti gpa) pte refl w.found;
        others = λ g ne.
            leaf-set_entry_ne w.tree (directory gpa) u (pti gpa) pte refl w.found (directory g)
              (pti g) refl (distinct_path g gpa ne)
            ∙ w.leaves vm.nested_pml4 (directory g) (pti g) (omega (arith, tree.at_root));
        tree = (
          level',
          IsTree-set_entry w.tree u (pti gpa) pte (
              omega (
                arith,
                w.tree.at_root,
                level-find_table w.tree vm.nested_pml4 (directory gpa) {u = u}
                    (omega (arith, w.tree.at_root)) w.found,
              )),
        );
        frame = refl;
      }

  exhausted_panics :
      (vm : Vm V) (gpa pa : ℕ)
      → walk vm vm.nested_pml4 (directory gpa) ≡ panic
      → build_translation vm gpa pa ≡ panic
  unfolding build_translation
  exhausted_panics vm gpa pa w = rw w

  -- On a well-formed VM `build_translation` either finds the page untranslated and adds exactly
  -- its translation, or panics: because the page is translated already, or because fewer than
  -- three preallocated structures are left.
  pub build_translation-Built :
      (vm : Vm V) (level : ℕ → ℕ) (gpa pa : ℕ)
      → IsPlaced vm
      → VmTree vm level
      → ((translation vm gpa ≡ 0)
          × (vm' : Vm V) × (build_translation vm gpa pa ≡ ok vm')
          × Built vm gpa pa vm')
        ⊎ ((build_translation vm gpa pa ≡ panic)
            × ((translation vm gpa ≢ 0) ⊎ (vm.nps_count < vm.used_nps_count + 3)))
  build_translation-Built vm level gpa pa placed tree =
      by_walk
        (walk_lem vm level vm.nested_pml4 (directory gpa) placed tree (omega (arith, tree.at_root)))
    where
      by_walk :
          WalkOutcome vm level vm.nested_pml4 (directory gpa)
          → ((translation vm gpa ≡ 0)
              × (vm' : Vm V) × (build_translation vm gpa pa ≡ ok vm')
              × Built vm gpa pa vm')
            ⊎ ((build_translation vm gpa pa ≡ panic)
                × ((translation vm gpa ≢ 0) ⊎ (vm.nps_count < vm.used_nps_count + 3)))
      by_walk (inl (p, full)) = inr (exhausted_panics vm gpa pa p, inr full)
      by_walk (inr (tb, used, u, level', p, w)) =
          let here : translation vm gpa ≡ tb u (pti gpa) =
            sym (w.leaves vm.nested_pml4 (directory gpa) (pti gpa) (omega (arith, tree.at_root)))
            ∙ leaf-find_table tb vm.nested_pml4 (directory gpa) (pti gpa) w.found in
          elim (Bool-cases (tb u (pti gpa) == 0)) [
            | inl z ↦
                let zero : tb u (pti gpa) ≡ 0 = ground arith in
                inl (
                  here ∙ zero,
                  _,
                  after_walk vm gpa pa tb used u p zero,
                  Built-intro vm level gpa pa tb used u level' tree w,
                )
            | inr f ↦
                inr (build_panics vm gpa pa tb used u p f, inl (λ y. ground (arith, sym here ∙ y)))
          ]

  -- A call that returns has walked to a PT with an empty entry, and has written that entry.
  pub build_translation-eq-ok :
      (vm : Vm V) (level : ℕ → ℕ) (gpa pa : ℕ) {vm' : Vm V}
      → IsPlaced vm
      → VmTree vm level
      → build_translation vm gpa pa ≡ ok vm'
      → (tb : Tables) × (used : ℕ) × (u : ℕ) × (level' : ℕ → ℕ) × Walked vm level vm.nested_pml4
          (directory gpa)
          tb
          used
          u
          level'
        × (tb u (pti gpa) ≡ 0)
        × (vm'
            ≡ with_tables vm
                (set_entry tb u
                  (pti gpa)
                  (set_translation 0 pa (hw.nps_entry_flags vm.vt rx_write_back)))
                used)
  build_translation-eq-ok vm level gpa pa {vm'} placed tree e =
      elim (walk_lem vm level vm.nested_pml4 (directory gpa) placed tree
        (omega (arith, tree.at_root))) [
          | inl (p, full) ↦ cc (exhausted_panics vm gpa pa p)
          | inr (tb, used, u, level', p, w) ↦ elim (Bool-cases (tb u (pti gpa) == 0)) [
            | inl z ↦
                let zero : tb u (pti gpa) ≡ 0 = ground arith in
                (tb, used, u, level', w, zero, cc (after_walk vm gpa pa tb used u p zero))
            | inr f ↦ cc (build_panics vm gpa pa tb used u p f)
          ]
        ]
