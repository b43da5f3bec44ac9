-- ===== src/Vm/Tree.antt =====
-- The invariant of the nested paging structures: they form a tree of four levels, in which every
-- structure in use is the target of one entry, and the unused structures are empty.
pub mod Link
pub mod Write
use mathlib.Core.Path.{ap₂}
use hypervisor_101_in_rust.Prelude.{
  ℕ, suc, ◌+◌, ◌*◌, ◌/◌, ◌%◌, ◌^◌, ◌≤◌, ◌<◌, ◌≡◌, ◌≢◌, refl, Bool, true, false, ◌&&◌, List, [], ◌∷◌,
  Option, none, some, inl, inr, arith, ◌==◌, if◌then◌else◌, Bool-cases, length, update,
}
use hypervisor_101_in_rust.Memory.{page_size}
use hypervisor_101_in_rust.HardwareVt.Entry.{Entry, address}
use hypervisor_101_in_rust.Vm.Paging.{Tables, set_entry, find_table, leaf, leaf-empty}

-- `level` is 0 for the PML4, up to 3 for a PT, and at least 4 for what is not in use. The array of
-- structures starts at `base`; `count` is its length, and the first `used` are in use.
pub record IsTree (root base count used : ℕ) (tb : Tables) (level : ℕ → ℕ) : Type 0 where
  pub null : 4 ≤ level 0
  pub at_root : level root ≡ 0
  pub next : (t i : ℕ) → level t < 3 → tb t i ≢ 0 → level (address (tb t i)) ≡ suc (level t)
  pub once :
      (t u i j : ℕ)
      → level t < 3
      → level u < 3
      → tb t i ≢ 0
      → tb u j ≢ 0
      → address (tb t i) ≡ address (tb u j)
      → (t ≡ u) × (i ≡ j)
  pub unused : (k : ℕ) → used ≤ k → k < count → 4 ≤ level (base + k * page_size)
  pub blank : (k i : ℕ) → used ≤ k → k < count → tb (base + k * page_size) i ≡ 0

module _ {root base count used : ℕ} {tb : Tables} {level : ℕ → ℕ}
    (tree : IsTree root base count used tb level) where
  pub level-find_table :
      (t : ℕ) (path : List ℕ) {u : ℕ}
      → level t + length path ≤ 3
      → find_table tb t path ≡ some u
      → level u ≡ level t + length path
  unfolding find_table
  level-find_table t [] {u} h e = ground arith
  level-find_table t (i ∷ path) {u} h e = elim (Bool-cases (tb t i == 0)) [
    | inl z ↦ ground arith
    | inr z ↦ ground (
      arith,
      tree.next t i (omega arith) (ground arith),
      level-find_table (address (tb t i)) path {u = u},
    )
  ]

  -- Where two walks of one length from one level end in the same structure, they are the same walk.
  pub find_table-injective :
      (t s : ℕ) (p q : List ℕ) {u : ℕ}
      → length p ≡ length q
      → level t ≡ level s
      → level t + length p ≤ 3
      → find_table tb t p ≡ some u
      → find_table tb s q ≡ some u
      → (t ≡ s) × (p ≡ q)
  unfolding find_table
  find_table-injective t s [] [] {u} n l h e f = (ground arith, refl)
  find_table-injective t s [] (j ∷ q) {u} n l h e f = absurd (omega arith)
  find_table-injective t s (i ∷ p) [] {u} n l h e f = absurd (omega arith)
  find_table-injective t s (i ∷ p) (j ∷ q) {u} n l h e f = elim (Bool-cases (tb t i == 0)) [
    | inl z ↦ ground arith
    | inr y ↦ elim (Bool-cases (tb s j == 0)) [
      | inl z ↦ ground arith
      | inr z ↦
          let a = tree.next t i (omega arith) (ground arith) in
          let b = tree.next s j (omega arith) (ground arith) in
          let (same, rest) =
            find_table-injective (address (tb t i)) (address (tb s j)) p q {u = u} (omega arith)
              (omega arith) (omega arith) (ground arith) (ground arith) in
          let (c, d) =
            tree.once t s i j (omega arith) (omega arith) (ground arith) (ground arith) same in
          (c, ap₂ ◌∷◌ d rest)
    ]
  ]

  -- A write to a PT moves no structure.
  pub find_table-set_entry :
      (u k : ℕ) (e : Entry) (t : ℕ) (path : List ℕ)
      → 3 ≤ level u
      → level t + length path ≤ 3
      → find_table (set_entry tb u k e) t path ≡ find_table tb t path
  unfolding find_table
  find_table-set_entry u k e t [] lu h = refl
  find_table-set_entry u k e t (i ∷ path) lu h = elim (Bool-cases (tb t i == 0)) [
    | inl z ↦ ground arith
    | inr z ↦ ground (
      arith,
      tree.next t i (omega arith) (ground arith),
      find_table-set_entry u k e (address (tb t i)) path,
    )
  ]

  -- A write to an entry of a PT keeps the tree.
  pub IsTree-set_entry :
      (u k : ℕ) (e : Entry) → level u ≡ 3 → IsTree root base count used (set_entry tb u k e) level
  IsTree-set_entry u k e lu = record {
    null = tree.null;
    at_root = tree.at_root;
    next = λ t i h ne. ground (arith, tree.next t i h);
    once = λ t s i j h l ne nf same. ground (arith, tree.once t s i j h l);
    unused = tree.unused;
    blank = λ n i h l. ground (arith, tree.unused n h l, tree.blank n i h l);
  }
