-- ===== src/Vm/Tree/Link.antt =====
-- hypervisor/src/vm.rs: linking an unused structure at an empty entry, in `Vm::walk_table`.
use hypervisor_101_in_rust.Prelude.{
  ℕ, suc, ◌+◌, ◌*◌, ◌≤◌, ◌<◌, ◌≡◌, ◌≢◌, ◌&&◌, List, [], ◌∷◌, inl, inr, arith, ◌==◌, Bool-cases,
  length, update,
}
use hypervisor_101_in_rust.Memory.{page_size}
use hypervisor_101_in_rust.HardwareVt.Entry.{Entry, address}
use hypervisor_101_in_rust.Vm.Paging.{Tables, set_entry, leaf, leaf-empty}
use hypervisor_101_in_rust.Vm.Tree.{IsTree}

module _ {root base count used : ℕ} {tb : Tables} {level : ℕ → ℕ}
    (tree : IsTree root base count used tb level) (t i : ℕ) (e : Entry) (inner : level t < 3)
    (empty : tb t i ≡ 0) (room : used < count) (points : address e ≡ base + used * page_size)
    (nonzero : e ≢ 0) (mapped : 0 < base) where
  abbrev tb' : Tables
  tb' = set_entry tb t i e

  abbrev level' : ℕ → ℕ
  level' = update level (base + used * page_size) (suc (level t))

  new_unused : 4 ≤ level (base + used * page_size)
  new_unused = tree.unused used (omega arith) room

  new_blank : (j : ℕ) → tb' (base + used * page_size) j ≡ 0
  new_blank j = ground (arith, new_unused, tree.blank used j (omega arith) room)

  link-next : (s j : ℕ) → level' s < 3 → tb' s j ≢ 0 → level' (address (tb' s j)) ≡ suc (level' s)
  link-next s j h ne = elim (Bool-cases (s == base + used * page_size)) [
    | inl y ↦ ground (arith, new_blank j)
    | inr n ↦ ground (arith, new_unused, tree.next s j)
  ]

  link-once :
      (s u j k : ℕ)
      → level' s < 3
      → level' u < 3
      → tb' s j ≢ 0
      → tb' u k ≢ 0
      → address (tb' s j) ≡ address (tb' u k)
      → (s ≡ u) × (j ≡ k)
  link-once s u j k hs hu ns nu same =
      ground (
        arith,
        new_unused,
        new_blank j,
        new_blank k,
        tree.next s j,
        tree.next u k,
        tree.once s u j k,
      )

  pub IsTree-link : IsTree root base count (used + 1) tb' level'
  IsTree-link = record {
    null = ground (arith, tree.null);
    at_root = ground (arith, new_unused, tree.at_root);
    next = link-next;
    once = link-once;
    unused = λ k h l. ground (arith, tree.unused k (omega arith) l);
    blank =
        λ k j h l. ground (arith, tree.unused k (omega arith) l, tree.blank k j (omega arith) l);
  }

  -- No translation changes.
  pub leaf-link :
      (s : ℕ) (path : List ℕ) (j : ℕ)
      → level s + length path ≡ 3
      → leaf tb' s path j ≡ leaf tb s path j
  unfolding leaf
  leaf-link s [] j h = ground arith
  leaf-link s (k ∷ path) j h = elim (Bool-cases (tb s k == 0)) [
    | inl z ↦ elim (Bool-cases (s == t && k == i)) [
      | inl y ↦ ground (arith, points, leaf-empty tb' (base + used * page_size) path j new_blank)
      | inr n ↦ ground arith
    ]
    | inr z ↦
        ground
          (arith, tree.next s k (omega arith) (ground arith), leaf-link (address (tb s k)) path j)
  ]
