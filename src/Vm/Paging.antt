-- ===== src/Vm/Paging.antt =====
-- The contents of nested paging structures, and the translation that a processor reads from them.
use hypervisor_101_in_rust.Prelude.{
  ℕ, ◌≡◌, ◌&&◌, List, [], ◌∷◌, Option, none, some, arith, ◌==◌, if◌then◌else◌,
}
use hypervisor_101_in_rust.HardwareVt.Entry.{Entry, address}

-- The entry at an index of the structure at an address.
abbrev pub Tables : Type 0
Tables = ℕ → ℕ → Entry

abbrev pub set_entry : Tables → ℕ → ℕ → Entry → Tables
set_entry tb t i e u j = if u == t && j == i then e else tb u j

-- The structure that the indices `path` lead to from `t`, if no entry on the way is empty.
unfoldable pub find_table : Tables → ℕ → List ℕ → Option ℕ
find_table tb t [] = some t
find_table tb t (i ∷ path) = if tb t i == 0 then none else find_table tb (address (tb t i)) path

-- The final entry that the processor reads, or 0 if an entry on the way to it is empty.
unfoldable pub leaf : Tables → ℕ → List ℕ → ℕ → Entry
leaf tb t [] i = tb t i
leaf tb t (j ∷ path) i = if tb t j == 0 then 0 else leaf tb (address (tb t j)) path i

pub leaf-find_table :
    (tb : Tables) (t : ℕ) (path : List ℕ) (i : ℕ) {u : ℕ}
    → find_table tb t path ≡ some u
    → leaf tb t path i ≡ tb u i
unfolding find_table leaf
leaf-find_table tb t [] i {u} h = ground arith
leaf-find_table tb t (j ∷ path) i {u} h =
    ground (arith, leaf-find_table tb (address (tb t j)) path i {u = u})

pub leaf-none :
    (tb : Tables) (t : ℕ) (path : List ℕ) (i : ℕ)
    → find_table tb t path ≡ none
    → leaf tb t path i ≡ 0
unfolding find_table leaf
leaf-none tb t [] i h = ground arith
leaf-none tb t (j ∷ path) i h = ground (arith, leaf-none tb (address (tb t j)) path i)

-- An empty structure translates nothing.
pub leaf-empty :
    (tb : Tables) (t : ℕ) (path : List ℕ) (i : ℕ) → ((j : ℕ) → tb t j ≡ 0) → leaf tb t path i ≡ 0
unfolding leaf
leaf-empty tb t [] i h = h i
leaf-empty tb t (j ∷ path) i h = ground (arith, h j)
