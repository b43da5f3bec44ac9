-- ===== src/Vm/Walk/Steps.antt =====
-- hypervisor/src/vm.rs: a walk of the nested paging structures, step by step.
use hypervisor_101_in_rust.Prelude.{
  ℕ, suc, ◌+◌, ◌*◌, ◌%◌, ◌^◌, ◌≤◌, ◌<◌, ◌≡◌, ◌≢◌, ◌∙◌, List, [], ◌∷◌, some, inl, inr, arith, ◌==◌,
  Bool-cases, length,
}
use hypervisor_101_in_rust.Memory.{page_size}
use hypervisor_101_in_rust.HardwareVt.Entry.{address}
use hypervisor_101_in_rust.Vm.{Vm}
use hypervisor_101_in_rust.Vm.Paging.{Tables, find_table, leaf}
use hypervisor_101_in_rust.Vm.Tree.{IsTree}

-- What the allocator and `#[repr(align(4096))]` provide: structures and dirty pages start at page
-- boundaries, not at null, and physical addresses fit an entry.
pub record IsPlaced {V : Type 0} (vm : Vm V) : Type 0 where
  pub nps_aligned : vm.nested_paging_structures % page_size ≡ 0
  pub nps_nonnull : 0 < vm.nested_paging_structures
  pub nps_fits : vm.nested_paging_structures + vm.nps_count * page_size ≤ 2 ^ 59
  pub dirty_aligned : vm.dirty_pages % page_size ≡ 0
  pub dirty_nonnull : 0 < vm.dirty_pages
  pub dirty_fits : vm.dirty_pages + vm.dirty_page_count * page_size ≤ 2 ^ 59

abbrev pub VmTree : {V : Type 0} → Vm V → (ℕ → ℕ) → Type 0
VmTree vm level =
    IsTree vm.nested_pml4 vm.nested_paging_structures vm.nps_count vm.used_nps_count vm.tables level

abbrev pub with_tables : {V : Type 0} → Vm V → Tables → ℕ → Vm V
with_tables vm tb used = record vm { tables = tb; used_nps_count = used }

-- The structures `tb`, `used` of them in use, after a walk from `t` along `path` that ends at `u`.
pub record Walked {V : Type 0} (vm : Vm V) (level : ℕ → ℕ) (t : ℕ) (path : List ℕ) (tb : Tables)
    (used u : ℕ) (level' : ℕ → ℕ) : Type 0 where
  pub tree : VmTree (with_tables vm tb used) level'
  pub found : find_table tb t path ≡ some u
  pub levels : (s : ℕ) → level s < 4 → level' s ≡ level s
  pub entries : (s j : ℕ) → level s < 3 → vm.tables s j ≢ 0 → tb s j ≡ vm.tables s j
  pub leaves :
      (s : ℕ) (q : List ℕ) (j : ℕ) → level s + length q ≡ 3 → leaf tb s q j ≡ leaf vm.tables s q j
  pub more : vm.used_nps_count ≤ used

-- What could be found before a walk is found after it.
pub find_table-Walked :
    {V : Type 0} {vm : Vm V} {level : ℕ → ℕ} {t : ℕ} {path : List ℕ} {tb : Tables} {used u : ℕ}
    {level' : ℕ → ℕ}
    → VmTree vm level
    → Walked vm level t path tb used u level'
    → (s : ℕ) (q : List ℕ) {x : ℕ} → level s + length q ≤ 3
    → find_table vm.tables s q ≡ some x
    → find_table tb s q ≡ some x
unfolding find_table
find_table-Walked tree w s [] h f = f
find_table-Walked {vm} tree w s (j ∷ q) {x} h f = elim (Bool-cases (vm.tables s j == 0)) [
  | inl z ↦ ground arith
  | inr z ↦
      let ne : vm.tables s j ≢ 0 = ground arith in
      ground (
        arith,
        w.entries s j (omega arith) ne,
        find_table-Walked tree w (address (vm.tables s j)) q {x = x}
            (omega (arith, tree.next s j (omega arith) ne)),
      )
]

-- One step of a walk, then the rest of it.
pub Walked-cons :
    {V : Type 0} (vm : Vm V) (level : ℕ → ℕ) (t i : ℕ) (path : List ℕ) (tb₁ : Tables) (n₁ : ℕ)
    (level₁ : ℕ → ℕ) (tb : Tables) (used u : ℕ) (level' : ℕ → ℕ)
    → level t < 3
    → level t + suc (length path) ≤ 3
    → tb₁ t i ≢ 0
    → ((s : ℕ) → level s < 4 → level₁ s ≡ level s)
    → ((s j : ℕ) → level s < 3 → vm.tables s j ≢ 0 → tb₁ s j ≡ vm.tables s j)
    → ((s : ℕ) (q : List ℕ) (j : ℕ)
        → level s + length q ≡ 3
        → leaf tb₁ s q j ≡ leaf vm.tables s q j)
    → vm.used_nps_count ≤ n₁
    → Walked (with_tables vm tb₁ n₁) level₁ (address (tb₁ t i)) path tb used u level'
    → Walked vm level t (i ∷ path) tb used u level'
unfolding find_table
Walked-cons vm level t i path tb₁ n₁ level₁ tb used u level' lt depth ne ls es vs more w = record {
  tree = w.tree;
  found =
      let e = w.entries t i (omega (arith, ls t (omega arith))) ne in ground (arith, e, w.found);
  levels = λ s l. ground (arith, ls s l, w.levels s);
  entries = λ s j l n. ground (arith, ls s (omega arith), es s j l n, w.entries s j);
  leaves = λ s q j l. w.leaves s q j (omega (arith, ls s (omega arith))) ∙ vs s q j l;
  more = omega (arith, more, w.more);
}
