-- ===== src/Vm.antt =====
-- hypervisor/src/vm.rs: the nested paging structures of a VM and its dirty pages.
--
-- The three boxed arrays are known by their addresses, which the allocator chooses; the contents
-- of `nested_pml4` and of `nested_paging_structures` are `tables`, by the address of the structure
-- and the index of the entry. A `*mut NestedPagingStructureEntry` is such an address and index.
pub mod Paging
pub mod Tree
pub mod Walk
pub mod Translation
pub mod Revert
pub mod Restore
pub mod Redirect
pub mod CopyOnWrite
pub mod Iteration
pub mod Mappings
pub mod Rounds
pub mod Private
pub mod Tests
use hypervisor_101_in_rust.Prelude.{
  ℕ, zero, suc, ◌+◌, ◌*◌, ◌/◌, ◌%◌, ◌^◌, Bool, true, false, List, [], ◌∷◌, Exec, ok, ◌>>=◌, ◌>>◌,
  assert, ◌==◌, ltb, leb, if◌then◌else◌, update,
}
use hypervisor_101_in_rust.Memory.{page_size, Memory, write_page}
use hypervisor_101_in_rust.HardwareVt.{EntryType, rwx, rwx_write_back, rx_write_back, HardwareVt}
use hypervisor_101_in_rust.HardwareVt.Entry.{Flags, Entry, pfn, set_translation, next_table}
use Paging.{Tables, set_entry, leaf}

-- An element of `dirty_entries`: the pointer to a modified PTE, and its original frame number.
pub record DirtyEntry : Type 0 where
  pub table : ℕ
  pub index : ℕ
  pub original_pfn : ℕ

pub record Vm (V : Type 0) : Type 0 where
  pub vt : V
  pub nested_pml4 : ℕ
  pub nested_paging_structures : ℕ
  pub nps_count : ℕ
  pub used_nps_count : ℕ
  pub dirty_pages : ℕ
  pub dirty_page_count : ℕ
  pub dirty_entries : ℕ → DirtyEntry
  pub used_dirty_page_count : ℕ
  pub tables : Tables

-- `DIRTY_PAGE_COUNT` and `NPS_COUNT`
abbrev pub default_dirty_page_count : ℕ
default_dirty_page_count = 1024

abbrev pub default_nps_count : ℕ
default_nps_count = 1024

-- `Vm::new`, given the vendor's `vt` and the addresses of the zeroed allocations.
unfoldable pub new : {V : Type 0} → V → (pml4 nps dirty : ℕ) → Vm V
new vt pml4 nps dirty = record {
  vt = vt;
  nested_pml4 = pml4;
  nested_paging_structures = nps;
  nps_count = default_nps_count;
  used_nps_count = 0;
  dirty_pages = dirty;
  dirty_page_count = default_dirty_page_count;
  dirty_entries = λ i. record { table = 0; index = 0; original_pfn = 0 };
  used_dirty_page_count = 0;
  tables = λ t i. 0;
}

-- The four indices into the structures that a GPA is split into.
abbrev pub pml4i : ℕ → ℕ
pml4i gpa = gpa / 2 ^ 39 % 2 ^ 9

abbrev pub pdpti : ℕ → ℕ
pdpti gpa = gpa / 2 ^ 30 % 2 ^ 9

abbrev pub pdi : ℕ → ℕ
pdi gpa = gpa / 2 ^ 21 % 2 ^ 9

abbrev pub pti : ℕ → ℕ
pti gpa = gpa / 2 ^ 12 % 2 ^ 9

abbrev pub directory : ℕ → List ℕ
directory gpa = pml4i gpa ∷ pdpti gpa ∷ pdi gpa ∷ []

-- The address of element `k` of `nested_paging_structures`.
abbrev pub nps_address : {V : Type 0} → Vm V → ℕ → ℕ
nps_address vm k = vm.nested_paging_structures + k * page_size

abbrev pub dirty_address : {V : Type 0} → Vm V → ℕ → ℕ
dirty_address vm k = vm.dirty_pages + k * page_size

-- The loop of `revert_dirty_memory` over the first `n` elements of `dirty_entries`.
unfoldable pub revert_entries : (ℕ → DirtyEntry) → Flags → (n : ℕ) → Tables → Tables
revert_entries dirty flags zero tb = tb
revert_entries dirty flags (suc n) tb =
    let tb' = revert_entries dirty flags n tb in
    let d = dirty n in
    set_entry tb' d.table d.index
      (set_translation (tb' d.table d.index) (d.original_pfn * 2 ^ 12) flags)

module _ {V : Type 0} ⦃hw : HardwareVt V⦄ where
  -- The branch of `walk_table` for an empty entry: an unused structure becomes the next one.
  link : Vm V → (table index : ℕ) → Exec (Vm V × Entry)
  link vm table index = do
    assert (ltb vm.used_nps_count vm.nps_count)
    let next = nps_address vm vm.used_nps_count
    let entry = set_translation (vm.tables table index) next (hw.nps_entry_flags vm.vt rwx)
    ok (
      record vm {
        tables = set_entry vm.tables table index entry;
        used_nps_count = vm.used_nps_count + 1;
      },
      entry,
    )

  unfoldable pub walk_table : Vm V → (table index : ℕ) → Exec (Vm V × Entry)
  unfolding link
  walk_table vm table index =
      if vm.tables table index == 0 then link vm table index else ok (vm, vm.tables table index)

  -- The calls of `walk_table` and `next_table_mut` in a row, one for each index.
  unfoldable pub walk : Vm V → (table : ℕ) → List ℕ → Exec (Vm V × ℕ)
  walk vm table [] = ok (vm, table)
  walk vm table (index ∷ path) = do
    (vm', entry) ← walk_table vm table index
    next ← next_table entry
    walk vm' next path

  -- `build_translation`: from the PML4 through PDPT and PD to the PT, then the PTE.
  unfoldable pub build_translation : Vm V → (gpa pa : ℕ) → Exec (Vm V)
  build_translation vm gpa pa = do
    (vm', pt) ← walk vm vm.nested_pml4 (directory gpa)
    assert (vm'.tables pt (pti gpa) == 0)
    let flags = hw.nps_entry_flags vm'.vt rx_write_back
    let pte = set_translation (vm'.tables pt (pti gpa)) pa flags
    ok (record vm' { tables = set_entry vm'.tables pt (pti gpa) pte })

  -- The effect of `copy_on_write` on the PTE at `pt` and `index` and on the bookkeeping.
  pub redirect : Vm V → (pt index : ℕ) → Vm V
  redirect vm pt index =
      let flags = hw.nps_entry_flags vm.vt rwx_write_back in
      let pte = vm.tables pt index in
      let n = vm.used_dirty_page_count in
      record vm {
        dirty_entries =
            update vm.dirty_entries n
              (record { table = pt; index = index; original_pfn = pfn pte });
        tables = set_entry vm.tables pt index (set_translation pte (dirty_address vm n) flags);
        used_dirty_page_count = n + 1;
      }

  -- `copy_on_write`, with the contents of memory, and whether a dirty page was left.
  unfoldable pub copy_on_write : Vm V → Memory → (gpa copy_from : ℕ) → Exec (Vm V × Memory × Bool)
  unfolding redirect
  copy_on_write vm mem gpa copy_from =
      if leb vm.dirty_page_count vm.used_dirty_page_count then ok (vm, mem, false) else do
        (vm', pt) ← walk vm vm.nested_pml4 (directory gpa)
        let new_page = dirty_address vm' vm'.used_dirty_page_count
        ok (redirect vm' pt (pti gpa), write_page mem new_page (mem copy_from), true)

  unfoldable pub revert_dirty_memory : Vm V → Exec (Vm V)
  unfolding revert_entries
  revert_dirty_memory vm =
      let flags = hw.nps_entry_flags vm.vt rx_write_back in
      let tb = revert_entries vm.dirty_entries flags vm.used_dirty_page_count vm.tables in
      if vm.used_dirty_page_count == 0 then ok (record vm { tables = tb }) else do
        vt ← hw.invalidate_caches vm.vt
        ok (record vm { vt = vt; tables = tb; used_dirty_page_count = 0 })

-- The entry that translates a GPA, 0 if there is none.
abbrev pub translation : {V : Type 0} → Vm V → ℕ → Entry
translation vm gpa = leaf vm.tables vm.nested_pml4 (directory gpa) (pti gpa)
