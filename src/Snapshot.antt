-- ===== src/Snapshot.antt =====
-- hypervisor/src/snapshot.rs and hypervisor/src/disk.rs (`read_page_from_snapshot`): the snapshot,
-- whose pages are read from the file on demand.
--
-- The file protocol of UEFI is a parameter: `read_at` takes a position to what `set_position` and
-- `read` into a page return, the number of bytes and the page, or an error. The slice `memory` is
-- known by its address and its length; its contents stand in the store of memory pages.
pub mod Metadata
pub mod Creation
pub mod Paged
pub mod Intact
pub mod Tests
use hypervisor_101_in_rust.Prelude.{
  ℕ, zero, suc, ◌+◌, ◌-◌, ◌*◌, ◌/◌, ◌%◌, ◌^◌, Bool, true, false, ◌&&◌, ◌||◌, not, Option, none,
  some, List, [], ◌∷◌, Exec, ok, panic, ◌>>=◌, ◌>>◌, unwrap, ltb, leb, ◌==◌, wrapping_add,
  wrapping_sub, if◌then◌else◌, update,
}
use hypervisor_101_in_rust.Memory.{page_size, Page, Memory, write_page, size_to_pages}
use hypervisor_101_in_rust.Patch.{PatchSet, apply}
use Metadata.{
  SnapshotRegisters, SnapshotMemoryRange, SnapshotMetadata, metadata_of_page, snapshot_signature,
}

pub record Snapshot : Type 0 where
  pub memory : ℕ
  pub page_count : ℕ
  pub registers : SnapshotRegisters
  pub memory_ranges : List SnapshotMemoryRange
  pub read_bitmap : ℕ → Bool
  pub resolved_page_count : ℕ

abbrev pub File : Type 0
File = ℕ → Option (ℕ × Page)

-- `read_page_from_snapshot`, with `none` for its two errors.
unfoldable pub read_page_from_snapshot : File → (pfn : ℕ) → Option Page
read_page_from_snapshot read_at pfn = elim (read_at (pfn * 2 ^ 12 % 2 ^ 64)) [
  | none ↦ none
  | some (bytes_read, page) ↦ if bytes_read == page_size then some page else none
]

-- The ranges that `new` pushes.
unfoldable pub nonempty_ranges : List SnapshotMemoryRange → List SnapshotMemoryRange
nonempty_ranges [] = []
nonempty_ranges (r ∷ rs) = if r.page_count == 0 then nonempty_ranges rs else r ∷ nonempty_ranges rs

unfoldable pub contains_page : List SnapshotMemoryRange → (pfn : ℕ) → Bool
contains_page [] pfn = false
contains_page (r ∷ rs) pfn =
    (leb (r.page_base / 2 ^ 12) pfn && ltb pfn (wrapping_add (r.page_base / 2 ^ 12) r.page_count))
    || contains_page rs pfn

abbrev pub contains : Snapshot → (pfn : ℕ) → Bool
contains s pfn = contains_page s.memory_ranges pfn

-- The address of `memory[pfn]`.
abbrev pub page_address : Snapshot → (pfn : ℕ) → ℕ
page_address s pfn = s.memory + pfn * page_size

-- What `resolve_page` does to the bitmap and the counter.
unfoldable pub mark_read : Snapshot → (pfn : ℕ) → Snapshot
mark_read s pfn = record s {
  read_bitmap = update s.read_bitmap pfn true;
  resolved_page_count = s.resolved_page_count + 1;
}

-- `Snapshot::resolve_page`, with `none` for its error.
unfoldable pub resolve_page :
    File → Snapshot → Memory → (pfn : ℕ) → Exec (Option (Snapshot × Memory))
unfolding mark_read
resolve_page file s mem pfn =
    if ltb pfn s.page_count
    then (elim (read_page_from_snapshot file pfn) [
      | none ↦ ok none
      | some page ↦ ok (some (mark_read s pfn, write_page mem (page_address s pfn) page))
    ])
    else panic

-- The snapshot that `new` builds before it reads the guest's GDT.
unfoldable pub empty_snapshot : (address page_count : ℕ) → SnapshotMetadata → Snapshot
empty_snapshot address page_count m = record {
  memory = address;
  page_count = page_count;
  registers = m.registers;
  memory_ranges = nonempty_ranges m.memory_ranges;
  read_bitmap = λ pfn. false;
  resolved_page_count = 0;
}

-- `Snapshot::new` from the read of the metadata page on, which is that at index `last`, with
-- `memory` allocated at `address`.
unfoldable pub read_metadata :
    File → (last address : ℕ) → Memory → Exec (Option (Snapshot × Memory))
unfolding empty_snapshot resolve_page
read_metadata file last address mem = elim (read_page_from_snapshot file last) [
  | none ↦ ok none
  | some page ↦
      let m = metadata_of_page page in
      if m.magic == snapshot_signature
      then resolve_page file (empty_snapshot address last m) mem (m.registers.gdtr.base / 2 ^ 12)
      else ok none
]

-- `Snapshot::new` on an open file of `size` bytes.
unfoldable pub new : File → (size address : ℕ) → Memory → Exec (Option (Snapshot × Memory))
unfolding read_metadata
new file size address mem =
    if size_to_pages size == 1 || not (size % page_size == 0)
    then ok none
    else read_metadata file (wrapping_sub (size_to_pages size) 1) address mem

-- The branch of `resolve_page_from_snapshot` for a page that is read for the first time: the
-- patches are applied to the page that was read.
unfoldable pub page_in : File → PatchSet → Snapshot → Memory → (pfn : ℕ) → Exec (Snapshot × Memory)
unfolding resolve_page
page_in file patches s mem pfn = do
  resolved ← resolve_page file s mem pfn
  (s', mem') ← unwrap resolved
  page ← apply patches pfn (mem' (page_address s' pfn))
  ok (s', write_page mem' (page_address s' pfn) page)

-- `resolve_page_from_snapshot`: the address of the page, if the snapshot contains it. Indexing the
-- bitmap or the slice outside of it panics.
unfoldable pub resolve_page_from_snapshot :
    File → PatchSet → Snapshot → Memory → (pfn : ℕ) → Exec (Snapshot × Memory × Option ℕ)
resolve_page_from_snapshot file patches s mem pfn =
    if contains s pfn
    then (if ltb pfn s.page_count
        then (if s.read_bitmap pfn
            then ok (s, mem, some (page_address s pfn))
            else (page_in file patches s mem pfn >>= λ (s', mem').
                ok (s', mem', some (page_address s' pfn))))
        else panic)
    else ok (s, mem, none)
