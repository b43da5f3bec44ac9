-- ===== src/Patch/Bytes.antt =====
-- hypervisor/src/patch.rs: the bytes that a patch writes, and those that `PatchEntry::revert` writes.
use hypervisor_101_in_rust.Prelude.{
  ℕ, ◌+◌, ◌-◌, ◌*◌, ◌/◌, ◌%◌, ◌^◌, ◌≤◌, ◌<◌, ◌≡◌, ◌≢◌, sym, ap, ◌∙◌, ◌&&◌, arith, ok, ltb, leb, inl,
  inr, Bool-cases,
}
use hypervisor_101_in_rust.Memory.{page_size, Page, Memory, write_page}
use hypervisor_101_in_rust.Patch.{PatchEntry, to_pfn, overwrite, write_word, revert}

-- The entry lies within a page and is at most a 32-bit word, and `original` is what `page` holds.
pub record Fits (e : PatchEntry) (page : Page) : Type 0 where
  pub in_page : e.address % 2 ^ 12 + e.length ≤ page_size
  pub in_word : e.length ≤ 4
  pub saved :
      (i : ℕ) → i < e.length → page (e.address % 2 ^ 12 + i) ≡ e.original / 2 ^ (8 * i) % 2 ^ 8

write_word-ok :
    (e : PatchEntry) (word : ℕ) (page : Page) {old : Page}
    → Fits e old
    → write_word e.address e.length word page
      ≡ ok (overwrite (e.address % 2 ^ 12) e.length word page)
unfolding write_word
write_word-ok e word page f = ground arith

revert-ok :
    (e : PatchEntry) (base count : ℕ) (mem : Memory) {old : Page}
    → Fits e old
    → to_pfn e.address < count
    → revert e base count mem
      ≡ ok (
          write_page mem (base + to_pfn e.address * page_size) (
            overwrite
              (e.address % 2 ^ 12)
              e.length
              e.original
              (mem (base + to_pfn e.address * page_size))))
unfolding revert write_word
revert-ok e base count mem f h = ground arith

-- Writing the original bytes over the patch gives the page.
back :
    (e : PatchEntry) (page : Page)
    → Fits e page
    → (i : ℕ)
    → overwrite
        (e.address % 2 ^ 12)
        e.length
        e.original
        (overwrite (e.address % 2 ^ 12) e.length e.patch page)
        i
      ≡ page i
back e page f i = elim (Bool-cases (leb off i && ltb i (off + e.length))) [
  | inl inside ↦
      let d : off + (i - off) ≡ i = ground arith in
      let l : i - off < e.length = ground arith in rw inside (sym (f.saved (i - off) l) ∙ ap page d)
  | inr outside ↦ rw outside
]
  where
    off : ℕ
    off = e.address % 2 ^ 12

-- Reverting an applied patch gives back every byte of the page, if the patch file holds the
-- original bytes; neither step panics. No other page changes.
pub revert-write_word :
    (e : PatchEntry) (base count : ℕ) (page : Page)
    → Fits e page
    → to_pfn e.address < count
    → (patched : Page) × (write_word e.address e.length e.patch page ≡ ok patched)
      × ((mem : Memory)
          → mem (base + to_pfn e.address * page_size) ≡ patched
          → (mem' : Memory) × (revert e base count mem ≡ ok mem')
            × ((i : ℕ) → mem' (base + to_pfn e.address * page_size) i ≡ page i)
            × ((a : ℕ) → a ≢ base + to_pfn e.address * page_size → mem' a ≡ mem a))
revert-write_word e base count page f h =
    let off = e.address % 2 ^ 12 in
    (
      overwrite off e.length e.patch page,
      write_word-ok e e.patch page f,
      λ mem same.
          let patched = mem (base + to_pfn e.address * page_size) in
          (
            write_page mem (base + to_pfn e.address * page_size)
                (overwrite off e.length e.original patched),
            revert-ok e base count mem f h,
            λ i. ground (
              arith,
              back e page f i,
              ap (λ (p : Page). overwrite off e.length e.original p i) same,
            ),
            λ a ne. ground arith,
          ),
    )
