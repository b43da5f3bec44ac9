-- ===== src/Snapshot/Tests.antt =====
-- A snapshot file whose pages all have the signature.
use hypervisor_101_in_rust.Prelude.{
  ◌-◌, ◌*◌, ◌/◌, ◌%◌, ◌^◌, ◌≤◌, ◌≡◌, ◌⊎◌, refl, arith, true, false, none, some, [], ◌∷◌, ok, panic,
  ltb, if◌then◌else◌,
}
use hypervisor_101_in_rust.Memory.{page_size, Page, Memory, size_to_pages}
use hypervisor_101_in_rust.Patch.{PatchSet, apply}
use hypervisor_101_in_rust.Patch.Tests.{breakpoint}
use hypervisor_101_in_rust.Snapshot.{
  Snapshot, File, read_page_from_snapshot, contains, page_address, resolve_page_from_snapshot, new,
}
use hypervisor_101_in_rust.Snapshot.Metadata.{registers_at, metadata_of_page, snapshot_signature}
use hypervisor_101_in_rust.Snapshot.Paged.{
  count_set, IsCounted, Resolved, resolve_page_from_snapshot-Resolved,
}
use hypervisor_101_in_rust.Snapshot.Creation.{Created, Refused, new-Created}

abbrev pub signed_page : Page
signed_page offset = if ltb offset 8 then snapshot_signature / 2 ^ (8 * offset) % 2 ^ 8 else 0

abbrev pub file : File
file position = some (page_size, signed_page)

abbrev pub memory : Memory
memory address offset = 0

new-Created_example :
    ((s : Snapshot) × (mem' : Memory) × (new file 0x4000 0x10_0000 memory ≡ ok (some (s, mem')))
      × Created file 0x4000 0x10_0000 memory s mem')
    ⊎ (((new file 0x4000 0x10_0000 memory ≡ ok none) × Refused file 0x4000)
        ⊎ ((new file 0x4000 0x10_0000 memory ≡ panic)
            × (last : Page) × (read_page_from_snapshot file (size_to_pages 0x4000 - 1) ≡ some last)
            × (size_to_pages 0x4000 - 1 ≤ (metadata_of_page last).registers.gdtr.base / 2 ^ 12)))
new-Created_example = new-Created file 0x4000 0x10_0000 memory (omega arith) (omega arith)

-- A snapshot of three pages, none of them read.
abbrev pub unread : Snapshot
unread = record {
  memory = 0x10_0000;
  page_count = 3;
  registers = registers_at signed_page 0x300;
  memory_ranges = record { page_base = 0; page_count = 3 } ∷ [];
  read_bitmap = λ pfn. false;
  resolved_page_count = 0;
}

abbrev pub patches : PatchSet
patches = breakpoint ∷ []

unread-IsCounted : IsCounted unread
unfolding count_set
unread-IsCounted = refl

resolve_page_from_snapshot-Resolved_example :
    ((contains unread 1 ≡ false)
      × (resolve_page_from_snapshot file patches unread memory 1 ≡ ok (unread, memory, none)))
    ⊎ (((contains unread 1 ≡ true)
          × (s' : Snapshot) × (mem' : Memory) × (resolve_page_from_snapshot file patches unread
                memory 1
              ≡ ok (s', mem', some (page_address unread 1)))
          × Resolved file patches unread memory 1 s' mem')
        ⊎ ((resolve_page_from_snapshot file patches unread memory 1 ≡ panic)
            × ((unread.page_count ≤ 1)
                ⊎ ((read_page_from_snapshot file 1 ≡ none)
                    ⊎ ((page : Page) × (read_page_from_snapshot file 1 ≡ some page)
                        × (apply patches 1 page ≡ panic))))))
resolve_page_from_snapshot-Resolved_example =
    resolve_page_from_snapshot-Resolved file patches unread memory 1 unread-IsCounted
