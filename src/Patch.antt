-- ===== src/Patch.antt =====
-- hypervisor/src/patch.rs: the patches of the snapshot. Files and JSON are read by other crates:
-- `PatchSet::new` is modelled from the parsed entries on.
pub mod Select
pub mod Bytes
pub mod Tests
use hypervisor_101_in_rust.Prelude.{
  ℕ, suc, ◌+◌, ◌-◌, ◌*◌, ◌/◌, ◌%◌, ◌^◌, Bool, ◌&&◌, Option, none, some, List, [], ◌∷◌, Exec, ok,
  panic, ◌>>=◌, ltb, leb, ◌==◌, if◌then◌else◌, take, drop,
}
use hypervisor_101_in_rust.Memory.{page_size, Page, Memory, write_page}

pub record PatchEntry : Type 0 where
  pub address : ℕ
  pub length : ℕ
  pub patch : ℕ
  pub original : ℕ

abbrev pub PatchSet : Type 0
PatchSet = List PatchEntry

-- The place of an entry in a list sorted by address; among equal addresses the first stays first.
unfoldable pub insert_entry : PatchEntry → PatchSet → PatchSet
insert_entry e [] = e ∷ []
insert_entry e (d ∷ ds) = if ltb d.address e.address then d ∷ insert_entry e ds else e ∷ d ∷ ds

-- `PatchSet::new` on the parsed entries: `sort_by` address, a stable sort.
unfoldable pub new : List PatchEntry → PatchSet
unfolding insert_entry
new [] = []
new (e ∷ es) = insert_entry e (new es)

abbrev pub to_pfn : ℕ → ℕ
to_pfn address = address / 2 ^ 12

-- `partition_point` of a slice on which `test` holds up to some index and nowhere after it.
unfoldable pub partition_point : (PatchEntry → Bool) → PatchSet → ℕ
partition_point test [] = 0
partition_point test (e ∷ es) = if test e then suc (partition_point test es) else 0

-- The page after `length` bytes of `word`, the lowest first, have been copied to `page_offset`.
abbrev pub overwrite : (page_offset length word : ℕ) → Page → Page
overwrite page_offset length word page i =
    if leb page_offset i && ltb i (page_offset + length)
    then word / 2 ^ (8 * (i - page_offset)) % 2 ^ 8
    else page i

-- `page.0[offset..offset + length].copy_from_slice(&word.to_le_bytes()[..length])`, with the
-- bounds checks of the two slices.
unfoldable pub write_word : (address length word : ℕ) → Page → Exec Page
write_word address length word page =
    let page_offset = address % 2 ^ 12 in
    if leb (page_offset + length) page_size && leb length 4
    then ok (overwrite page_offset length word page)
    else panic

unfoldable pub apply_entries : PatchSet → Page → Exec Page
unfolding write_word
apply_entries [] page = ok page
apply_entries (e ∷ es) page = write_word e.address e.length e.patch page >>= apply_entries es

-- `self.entries[low..high]`
unfoldable pub select : PatchSet → (pfn : ℕ) → PatchSet
unfolding partition_point
select entries pfn =
    let low = partition_point (λ e. ltb (to_pfn e.address) pfn) entries in
    let high = partition_point (λ e. leb (to_pfn e.address) pfn) entries in
    drop low (take high entries)

-- `PatchSet::apply`
unfoldable pub apply : PatchSet → (pfn : ℕ) → Page → Exec Page
unfolding select apply_entries
apply entries pfn page = apply_entries (select entries pfn) page

-- `PatchSet::find`
unfoldable pub find : PatchSet → (rip : ℕ) → Option PatchEntry
find [] rip = none
find (e ∷ es) rip = if e.address == rip then some e else find es rip

-- `PatchEntry::revert` on the snapshot, of `count` pages from the address `base` on.
unfoldable pub revert : PatchEntry → (base count : ℕ) → Memory → Exec Memory
unfolding write_word
revert e base count mem =
    let pfn = e.address / 2 ^ 12 in
    let pa = base + pfn * page_size in
    if ltb pfn count
    then (write_word e.address e.length e.original (mem pa) >>= λ page. ok (write_page mem pa page))
    else panic
