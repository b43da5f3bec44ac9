-- ===== src/Vm/Walk.antt =====
-- hypervisor/src/vm.rs: what `Vm::walk_table` and the walks of `build_translation` and `copy_on_write` do
-- to the nested paging structures.
mod Steps
pub use Steps.{IsPlaced, VmTree, with_tables, Walked, find_table-Walked}
use Steps.{Walked-cons}
use hypervisor_101_in_rust.Prelude.{
  ℕ, suc, ◌+◌, ◌*◌, ◌%◌, ◌^◌, ◌≤◌, ◌<◌, ◌≡◌, ◌≢◌, ◌⊎◌, refl, sym, subst, ◌∙◌, List, [], ◌∷◌, some,
  inl, inr, arith, ok, panic, ◌==◌, ltb, Bool-cases, length, update,
}
use hypervisor_101_in_rust.Memory.{page_size}
use hypervisor_101_in_rust.HardwareVt.{HardwareVt, rwx}
use hypervisor_101_in_rust.HardwareVt.Entry.{address, set_translation, next_table}
use hypervisor_101_in_rust.HardwareVt.Entry.Laws.{fields-set_translation}
use hypervisor_101_in_rust.Vm.{Vm, nps_address, walk_table, walk}
use hypervisor_101_in_rust.Vm.Paging.{Tables, set_entry, find_table, leaf}
use hypervisor_101_in_rust.Vm.Tree.{IsTree}
use hypervisor_101_in_rust.Vm.Tree.Link.{IsTree-link, leaf-link}

module _ {V : Type 0} ⦃hw : HardwareVt V⦄ where
  abbrev pub WalkOutcome : Vm V → (ℕ → ℕ) → ℕ → List ℕ → Type 0
  WalkOutcome vm level t path =
      ((walk vm t path ≡ panic) × (vm.nps_count < vm.used_nps_count + length path))
      ⊎ ((tb : Tables) × (used : ℕ) × (u : ℕ) × (level' : ℕ → ℕ) × (walk vm t path
            ≡ ok (with_tables vm tb used, u))
          × Walked vm level t path tb used u level')

  walk-present :
      (vm : Vm V) (t i : ℕ) (path : List ℕ)
      → vm.tables t i ≢ 0
      → address (vm.tables t i) ≢ 0
      → walk vm t (i ∷ path) ≡ walk vm (address (vm.tables t i)) path
  unfolding walk walk_table next_table
  walk-present vm t i path ne na = ground arith

  -- The entry that `walk_table` writes.
  abbrev link_entry : Vm V → ℕ
  link_entry vm =
      set_translation 0 (nps_address vm vm.used_nps_count) (hw.nps_entry_flags vm.vt rwx)

  abbrev linked : Vm V → ℕ → ℕ → Vm V
  linked vm t i = with_tables vm (set_entry vm.tables t i (link_entry vm)) (vm.used_nps_count + 1)

  walk-link :
      (vm : Vm V) (t i : ℕ) (path : List ℕ)
      → vm.tables t i ≡ 0
      → vm.used_nps_count < vm.nps_count
      → address (link_entry vm) ≢ 0
      → walk vm t (i ∷ path) ≡ walk (linked vm t i) (address (link_entry vm)) path
  unfolding walk walk_table next_table
  walk-link vm t i path z room na = ground arith

  walk-exhausted :
      (vm : Vm V) (t i : ℕ) (path : List ℕ)
      → vm.tables t i ≡ 0
      → vm.nps_count ≤ vm.used_nps_count
      → walk vm t (i ∷ path) ≡ panic
  unfolding walk walk_table
  walk-exhausted vm t i path z full = ground arith

  address-link_entry :
      (vm : Vm V)
      → IsPlaced vm
      → vm.used_nps_count < vm.nps_count
      → (address (link_entry vm) ≡ nps_address vm vm.used_nps_count) × (link_entry vm ≢ 0)
  address-link_entry vm placed room =
      let f =
        fields-set_translation 0 (nps_address vm vm.used_nps_count) (hw.nps_entry_flags vm.vt rwx)
          (omega arith) in
      let e : address (link_entry vm) ≡ nps_address vm vm.used_nps_count =
        omega (arith, f.0, placed.nps_aligned, placed.nps_fits) in
      (e, λ z. omega (arith, f.0, placed.nps_nonnull, placed.nps_aligned, placed.nps_fits))

  present_cons :
      (vm : Vm V) (level : ℕ → ℕ) (t i : ℕ) (path : List ℕ)
      → VmTree vm level
      → level t + suc (length path) ≤ 3
      → vm.tables t i ≢ 0
      → WalkOutcome vm level (address (vm.tables t i)) path
      → WalkOutcome vm level t (i ∷ path)
  present_cons vm level t i path tree h ne (inl (p, full)) =
      inl (walk-present vm t i path ne na ∙ p, omega arith)
    where
      na : address (vm.tables t i) ≢ 0
      na = λ z. ground (arith, tree.null, tree.next t i (omega arith) ne)
  present_cons vm level t i path tree h ne (inr (tb, used, u, level', p, w)) = inr (
    tb,
    used,
    u,
    level',
    walk-present vm t i path ne na ∙ p,
    Walked-cons vm level t i path vm.tables vm.used_nps_count level tb used u level' (omega arith) h
        ne (λ s l. refl) (λ s j l n. refl) (λ s q j l. refl) (omega arith) w,
  )
    where
      na : address (vm.tables t i) ≢ 0
      na = λ z. ground (arith, tree.null, tree.next t i (omega arith) ne)

  linked_level : Vm V → (ℕ → ℕ) → ℕ → ℕ → ℕ
  linked_level vm level t = update level (nps_address vm vm.used_nps_count) (suc (level t))

  link_cons :
      (vm : Vm V) (level : ℕ → ℕ) (t i : ℕ) (path : List ℕ)
      → IsPlaced vm
      → VmTree vm level
      → level t + suc (length path) ≤ 3
      → vm.tables t i ≡ 0
      → vm.used_nps_count < vm.nps_count
      → WalkOutcome (linked vm t i) (linked_level vm level t) (address (link_entry vm)) path
      → WalkOutcome vm level t (i ∷ path)
  unfolding linked_level
  link_cons vm level t i path placed tree h z room (inl (p, full)) =
      inl (walk-link vm t i path z room na ∙ p, omega arith)
    where
      na : address (link_entry vm) ≢ 0
      na = omega (arith, (address-link_entry vm placed room).0, placed.nps_nonnull)
  link_cons vm level t i path placed tree h z room (inr (tb, used, u, level', p, w)) = inr (
    tb,
    used,
    u,
    level',
    walk-link vm t i path z room na ∙ p,
    Walked-cons vm level t i path (linked vm t i).tables (vm.used_nps_count + 1)
        (linked_level vm level t) tb used u level' (omega arith) h (λ y. points.1 (sym here ∙ y))
        (λ s l. ground (arith, tree.unused vm.used_nps_count (omega arith) room))
        (λ s j l n. ground arith)
        (λ s q j l.
          leaf-link tree t i (link_entry vm) (omega arith) z room points.0 points.1
            placed.nps_nonnull s q j l)
        (omega arith)
        (subst
          (λ e. Walked (linked vm t i) (linked_level vm level t) (address e) path tb used u level')
          (sym here) w),
  )
    where
      points : (address (link_entry vm) ≡ nps_address vm vm.used_nps_count) × (link_entry vm ≢ 0)
      points = address-link_entry vm placed room

      na : address (link_entry vm) ≢ 0
      na = omega (arith, points.0, placed.nps_nonnull)

      here : (linked vm t i).tables t i ≡ link_entry vm
      here = ground arith

  -- A walk that does not leave the four levels reaches a structure along `path` and keeps the tree
  -- and every translation; it panics only if fewer structures are left than the walk has steps.
  pub walk_lem :
      (vm : Vm V) (level : ℕ → ℕ) (t : ℕ) (path : List ℕ)
      → IsPlaced vm
      → VmTree vm level
      → level t + length path ≤ 3
      → WalkOutcome vm level t path
  unfolding walk find_table linked_level
  walk_lem vm level t [] placed tree h = inr (
    vm.tables,
    vm.used_nps_count,
    t,
    level,
    refl,
    record {
      tree = tree;
      found = refl;
      levels = λ s l. refl;
      entries = λ s j l ne. refl;
      leaves = λ s q j l. refl;
      more = omega arith;
    },
  )
  walk_lem vm level t (i ∷ path) placed tree h = elim (Bool-cases (vm.tables t i == 0)) [
    | inr z ↦
        let ne : vm.tables t i ≢ 0 = ground arith in
        present_cons vm level t i path tree h ne (
          walk_lem vm level (address (vm.tables t i)) path placed tree
            (omega (arith, tree.next t i (omega arith) ne)))
    | inl y ↦ elim (Bool-cases (ltb vm.used_nps_count vm.nps_count)) [
      | inr f ↦ inl (walk-exhausted vm t i path (ground arith) (ground arith), ground arith)
      | inl room ↦
          let z : vm.tables t i ≡ 0 = ground arith in
          let lt : vm.used_nps_count < vm.nps_count = ground arith in
          let points = address-link_entry vm placed lt in
          link_cons vm level t i path placed tree h z lt (
            walk_lem (linked vm t i) (linked_level vm level t) (address (link_entry vm)) path
              (record {
                nps_aligned = placed.nps_aligned;
                nps_nonnull = placed.nps_nonnull;
                nps_fits = placed.nps_fits;
                dirty_aligned = placed.dirty_aligned;
                dirty_nonnull = placed.dirty_nonnull;
                dirty_fits = placed.dirty_fits;
              })
              (IsTree-link tree t i (link_entry vm) (omega arith) z lt points.0 points.1
                placed.nps_nonnull)
              (ground (arith, points.0)))
    ]
  ]

  -- A walk along structures that are there changes nothing.
  pub walk_found :
      (vm : Vm V) (level : ℕ → ℕ) (t : ℕ) (path : List ℕ) {u : ℕ}
      → VmTree vm level
      → level t + length path ≤ 3
      → find_table vm.tables t path ≡ some u
      → walk vm t path ≡ ok (vm, u)
  unfolding walk find_table
  walk_found vm level t [] {u} tree h f = ground arith
  walk_found vm level t (i ∷ path) {u} tree h f = elim (Bool-cases (vm.tables t i == 0)) [
    | inl z ↦ ground arith
    | inr z ↦
        let ne : vm.tables t i ≢ 0 = ground arith in
        let n = tree.next t i (omega arith) ne in
        walk-present vm t i path ne (λ y. ground (arith, tree.null, n, y))
        ∙ walk_found vm level (address (vm.tables t i)) path {u = u} tree (omega (arith, n))
            (ground arith)
  ]
