-- ===== src/Memory.antt =====
-- hypervisor/src/main.rs: the type `Page` and `size_to_pages`. The pages of the snapshot, of the
-- input data and the dirty pages stand in one store, by physical address, since raw pointers to
-- them are mixed; UEFI maps memory one to one, so a pointer is a physical address.
pub mod Laws
mod Tests
use hypervisor_101_in_rust.Prelude.{ℕ, ◌+◌, ◌/◌, ◌%◌, ◌^◌, ◌==◌, if◌then◌else◌}

abbrev pub page_size : ℕ
page_size = 0x1000

-- `Page([u8; BASE_PAGE_SIZE])`: the byte at each offset below `page_size`.
abbrev pub Page : Type 0
Page = ℕ → ℕ

-- The page at each page-aligned address.
abbrev pub Memory : Type 0
Memory = ℕ → Page

abbrev pub write_page : Memory → ℕ → Page → Memory
write_page mem pa page a = if a == pa then page else mem a

-- `Page::new`
abbrev pub zero_page : Page
zero_page offset = 0

-- `size_to_pages`, with `size & 0xfff` as a remainder.
unfoldable pub size_to_pages : ℕ → ℕ
size_to_pages size = size / 2 ^ 12 + (if size % 2 ^ 12 == 0 then 0 else 1)
