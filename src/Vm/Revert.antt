-- ===== src/Vm/Revert.antt =====
-- The loop of `Vm::revert_dirty_memory`: which entries it rewrites, and which it leaves alone.
use mathlib.Core.Path.{fun_ext}
use hypervisor_101_in_rust.Prelude.{
  ℕ, zero, suc, ◌+◌, ◌≤◌, ◌<◌, ◌≡◌, refl, ◌∙◌, List, arith, length,
}
use hypervisor_101_in_rust.HardwareVt.Entry.{Flags, Entry}
use hypervisor_101_in_rust.Vm.{DirtyEntry, revert_entries}
use hypervisor_101_in_rust.Vm.Paging.{Tables, set_entry, find_table}
use hypervisor_101_in_rust.Vm.Tree.{IsTree, find_table-set_entry, IsTree-set_entry}

-- The entry at `(t, i)` is none of the first `n` recorded ones.
abbrev pub Untouched : (ℕ → DirtyEntry) → ℕ → ℕ → ℕ → Type 0
Untouched dirty n t i = (k : ℕ) → k < n → ¬ (((dirty k).table ≡ t) × ((dirty k).index ≡ i))

module _ (flags : Flags) where
  pub revert-Untouched :
      (dirty : ℕ → DirtyEntry) (n : ℕ) (tb : Tables) (t i : ℕ)
      → Untouched dirty n t i
      → revert_entries dirty flags n tb t i ≡ tb t i
  unfolding revert_entries
  revert-Untouched dirty zero tb t i h = refl
  revert-Untouched dirty (suc n) tb t i h =
      let ih = revert-Untouched dirty n tb t i (λ k l. h k (omega arith)) in
      ground
        (arith, ih, λ (a : (dirty n).table ≡ t) (b : (dirty n).index ≡ i). h n (omega arith) (a, b))

  -- A write to an entry that is not recorded commutes with the loop.
  pub revert-set_entry :
      (dirty : ℕ → DirtyEntry) (n : ℕ) (tb : Tables) (u j : ℕ) (e : Entry)
      → Untouched dirty n u j
      → revert_entries dirty flags n (set_entry tb u j e)
        ≡ set_entry (revert_entries dirty flags n tb) u j e
  unfolding revert_entries
  revert-set_entry dirty zero tb u j e h = refl
  revert-set_entry dirty (suc n) tb u j e h =
      rw (revert-set_entry dirty n tb u j e (λ k l. h k (omega arith))) (
        fun_ext λ t. fun_ext λ i.
          ground (
            arith,
            λ (a : (dirty n).table ≡ u) (b : (dirty n).index ≡ j). h n (omega arith) (a, b),
          ))

  -- The loop reads no more than the first `n` records.
  pub revert_cong :
      (d d' : ℕ → DirtyEntry) (n : ℕ) (tb : Tables)
      → ((k : ℕ) → k < n → d k ≡ d' k)
      → revert_entries d flags n tb ≡ revert_entries d' flags n tb
  unfolding revert_entries
  revert_cong d d' zero tb h = refl
  revert_cong d d' (suc n) tb h =
      rw (revert_cong d d' n tb (λ k l. h k (omega arith)), h n (omega arith))

  -- Where the records name entries of PTs, the loop moves no structure.
  pub IsTree-revert :
      {root base count used : ℕ} {level : ℕ → ℕ} (dirty : ℕ → DirtyEntry) (n : ℕ) (tb : Tables)
      → IsTree root base count used tb level
      → ((k : ℕ) → k < n → level (dirty k).table ≡ 3)
      → IsTree root base count used (revert_entries dirty flags n tb) level
  unfolding revert_entries
  IsTree-revert dirty zero tb tree h = tree
  IsTree-revert dirty (suc n) tb tree h =
      IsTree-set_entry (IsTree-revert dirty n tb tree (λ k l. h k (omega arith))) (dirty n).table
        (dirty n).index _ (h n (omega arith))

  pub find_table-revert :
      {root base count used : ℕ} {level : ℕ → ℕ} (dirty : ℕ → DirtyEntry) (n : ℕ) (tb : Tables)
      → IsTree root base count used tb level
      → ((k : ℕ) → k < n → level (dirty k).table ≡ 3)
      → (t : ℕ) (path : List ℕ) → level t + length path ≤ 3
      → find_table (revert_entries dirty flags n tb) t path ≡ find_table tb t path
  unfolding revert_entries
  find_table-revert dirty zero tb tree h t path l = refl
  find_table-revert dirty (suc n) tb tree h t path l =
      find_table-set_entry (IsTree-revert dirty n tb tree (λ k l. h k (omega arith)))
        (dirty n).table (dirty n).index _ t path (omega (arith, h n (omega arith))) l
      ∙ find_table-revert dirty n tb tree (λ k l. h k (omega arith)) t path l

  -- On PTs the loop depends only on the PTs.
  pub revert_local :
      (level : ℕ → ℕ) (dirty : ℕ → DirtyEntry) (n : ℕ) (tb tb' : Tables)
      → ((k : ℕ) → k < n → level (dirty k).table ≡ 3)
      → ((s j : ℕ) → level s ≡ 3 → tb s j ≡ tb' s j)
      → (s j : ℕ) → level s ≡ 3
      → revert_entries dirty flags n tb s j ≡ revert_entries dirty flags n tb' s j
  unfolding revert_entries
  revert_local level dirty zero tb tb' h same s j l = same s j l
  revert_local level dirty (suc n) tb tb' h same s j l =
      let ih = revert_local level dirty n tb tb' (λ k m. h k (omega arith)) same in
      ground (arith, ih s j l, ih (dirty n).table (dirty n).index (h n (omega arith)))
