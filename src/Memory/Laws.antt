-- ===== src/Memory/Laws.antt =====
-- hypervisor/src/main.rs: rounding in `size_to_pages`.
use hypervisor_101_in_rust.Prelude.{ℕ, ◌*◌, ◌≤◌, arith}
use hypervisor_101_in_rust.Memory.{page_size, size_to_pages}

-- `size_to_pages` is the least number of pages that holds `size` bytes: so many pages suffice, and
-- any number of pages that suffices is no smaller.
pub size_to_pages-least :
    (size : ℕ)
    → (size ≤ size_to_pages size * page_size)
      × ((n : ℕ) → size ≤ n * page_size → size_to_pages size ≤ n)
unfolding size_to_pages
size_to_pages-least size = (ground arith, λ n h. ground arith)
