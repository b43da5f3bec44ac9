-- ===== src/Mutation/Pages.antt =====
-- The bytes of consecutive pages.
use hypervisor_101_in_rust.Prelude.{
  ℕ, zero, suc, ◌+◌, ◌*◌, ◌/◌, ◌%◌, ◌<◌, ◌≡◌, refl, ap, ◌∙◌, List, [], ◌∷◌, arith, ◌==◌,
  if◌then◌else◌, update, length, get_or,
}
use hypervisor_101_in_rust.Memory.{page_size, Memory, write_page, zero_page}

abbrev pub page_address : ℕ → ℕ → ℕ
page_address base i = base + i * page_size

-- Byte `k` of the pages from `base` on.
abbrev pub read_byte : Memory → ℕ → ℕ → ℕ
read_byte mem base k = mem (page_address base (k / page_size)) (k % page_size)

abbrev pub write_byte : Memory → ℕ → ℕ → ℕ → Memory
write_byte mem base k v =
    let address = page_address base (k / page_size) in
    write_page mem address (update (mem address) (k % page_size) v)

-- `copy_nonoverlapping` of bytes to offset `k` of the pages.
unfoldable pub copy_bytes : Memory → ℕ → ℕ → List ℕ → Memory
copy_bytes mem base k [] = mem
copy_bytes mem base k (x ∷ xs) = copy_bytes (write_byte mem base k x) base (suc k) xs

-- `page.0.fill(0)` for the first `n` pages.
unfoldable pub zero_pages : Memory → ℕ → ℕ → Memory
zero_pages mem base zero = mem
zero_pages mem base (suc n) = write_page (zero_pages mem base n) (page_address base n) zero_page

pub read-write_byte :
    (mem : Memory) (base k v j : ℕ)
    → read_byte (write_byte mem base k v) base j ≡ (if j == k then v else read_byte mem base j)
read-write_byte mem base k v j = ground arith

-- Copying leaves the bytes before it alone.
pub read-copy_bytes_below :
    (mem : Memory) (base k : ℕ) (xs : List ℕ) (j : ℕ)
    → j < k
    → read_byte (copy_bytes mem base k xs) base j ≡ read_byte mem base j
unfolding copy_bytes
read-copy_bytes_below mem base k [] j h = refl
read-copy_bytes_below mem base k (x ∷ xs) j h =
    read-copy_bytes_below (write_byte mem base k x) base (suc k) xs j (omega arith)
    ∙ ground (arith, read-write_byte mem base k x j)

-- Copied bytes are read back.
pub read-copy_bytes :
    (mem : Memory) (base k : ℕ) (xs : List ℕ) (j : ℕ)
    → j < length xs
    → read_byte (copy_bytes mem base k xs) base (k + j) ≡ get_or xs j 0
unfolding copy_bytes
read-copy_bytes mem base k [] j h = absurd (omega arith)
read-copy_bytes mem base k (x ∷ xs) zero h =
    ap (read_byte (copy_bytes (write_byte mem base k x) base (suc k) xs) base) (omega arith)
    ∙ read-copy_bytes_below (write_byte mem base k x) base (suc k) xs k (omega arith)
    ∙ ground (arith, read-write_byte mem base k x k)
read-copy_bytes mem base k (x ∷ xs) (suc j) h =
    ap (read_byte (copy_bytes (write_byte mem base k x) base (suc k) xs) base) (omega arith)
    ∙ read-copy_bytes (write_byte mem base k x) base (suc k) xs j (omega arith)
