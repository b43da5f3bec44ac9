-- ===== src/Memory/Tests.antt =====
-- The number of pages of a size that is no multiple of a page.
use hypervisor_101_in_rust.Prelude.{ℕ, ◌*◌, ◌≤◌}
use hypervisor_101_in_rust.Memory.{page_size, size_to_pages}
use hypervisor_101_in_rust.Memory.Laws.{size_to_pages-least}

size_to_pages-least_example :
    (4100 ≤ size_to_pages 4100 * page_size)
    × ((n : ℕ) → 4100 ≤ n * page_size → size_to_pages 4100 ≤ n)
size_to_pages-least_example = size_to_pages-least 4100
