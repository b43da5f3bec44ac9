-- ===== src/Vm/Tree/Write.antt =====
-- hypervisor/src/vm.rs: writes to the final entry of a walk.
use hypervisor_101_in_rust.Prelude.{
  ℕ, ◌≡◌, sym, ap, ◌∙◌, List, some, inl, inr, arith, length, Option-cases,
}
use hypervisor_101_in_rust.HardwareVt.Entry.{Entry}
use hypervisor_101_in_rust.Vm.Paging.{
  Tables, set_entry, find_table, leaf, leaf-find_table, leaf-none,
}
use hypervisor_101_in_rust.Vm.Tree.{
  IsTree, level-find_table, find_table-injective, find_table-set_entry,
}

module _ {root base count used : ℕ} {tb : Tables} {level : ℕ → ℕ}
    (tree : IsTree root base count used tb level) (p : List ℕ) (u k : ℕ) (e : Entry)
    (three : length p ≡ 3) (found : find_table tb root p ≡ some u) where
  level_u : level u ≡ 3
  level_u = omega (
    arith,
    tree.at_root,
    level-find_table tree root p {u = u} (omega (arith, tree.at_root)) found,
  )

  kept : (q : List ℕ) → length q ≡ 3 → find_table (set_entry tb u k e) root q ≡ find_table tb root q
  kept q n =
      find_table-set_entry tree u k e root q (omega (arith, level_u)) (omega (arith, tree.at_root))

  pub leaf-set_entry_self : leaf (set_entry tb u k e) root p k ≡ e
  leaf-set_entry_self =
      leaf-find_table (set_entry tb u k e) root p k (kept p three ∙ found) ∙ ground arith

  pub leaf-set_entry_ne :
      (q : List ℕ) (j : ℕ)
      → length q ≡ 3
      → ¬ ((q ≡ p) × (j ≡ k))
      → leaf (set_entry tb u k e) root q j ≡ leaf tb root q j
  leaf-set_entry_ne q j n other = elim (Option-cases (find_table tb root q)) [
    | inl z ↦ leaf-none (set_entry tb u k e) root q j (kept q n ∙ z) ∙ sym (leaf-none tb root q j z)
    | inr (w, f) ↦
        leaf-find_table (set_entry tb u k e) root q j (kept q n ∙ f)
        ∙ miss w f
        ∙ sym (leaf-find_table tb root q j f)
  ]
    where
      miss : (w : ℕ) → find_table tb root q ≡ some w → set_entry tb u k e w j ≡ tb w j
      miss w f = ground (
        arith,
        λ (same : w ≡ u) (hit : j ≡ k). other (
          (find_table-injective tree root root q p (n ∙ sym three) (omega arith)
              (omega (arith, tree.at_root)) (f ∙ ap some same) found).1,
          hit,
        ),
      )
