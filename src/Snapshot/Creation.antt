-- ===== src/Snapshot/Creation.antt =====
-- hypervisor/src/snapshot.rs: what `Snapshot::new` returns on a file.
use hypervisor_101_in_rust.Prelude.{
  ℕ, zero, suc, ◌+◌, ◌-◌, ◌*◌, ◌/◌, ◌%◌, ◌^◌, ◌≤◌, ◌<◌, ◌≡◌, ◌≢◌, ◌⊎◌, refl, ap, ◌∙◌, true, false,
  none, some, inl, inr, arith, ok, panic, ltb, ◌==◌, ◌||◌, ◌&&◌, not, leb, List, [], ◌∷◌, sym,
  wrapping_add, Bool-cases, Option-cases, ltb→lt, wrapping_sub,
}
use hypervisor_101_in_rust.Memory.{page_size, Page, Memory, write_page, size_to_pages}
use hypervisor_101_in_rust.Snapshot.{
  contains, contains_page, nonempty_ranges, Snapshot, File, read_page_from_snapshot, page_address,
  mark_read, resolve_page, empty_snapshot, read_metadata, new,
}
use hypervisor_101_in_rust.Snapshot.Metadata.{
  SnapshotMemoryRange, metadata_of_page, snapshot_signature,
}
use hypervisor_101_in_rust.Snapshot.Paged.{count_set, count_set-update, gdt_pfn, IsCounted}

count_set-none : (n : ℕ) → count_set (λ i. false) n ≡ 0
unfolding count_set
count_set-none zero = refl
count_set-none (suc n) = ground (arith, count_set-none n)

-- What `new` returns on a file of `size` bytes.
pub record Created (file : File) (size address : ℕ) (mem : Memory) (s : Snapshot) (mem' : Memory)
    : Type 0 where
  pub placed : s.memory ≡ address
  pub whole_pages : size ≡ (s.page_count + 1) * page_size
  pub not_empty : 1 ≤ s.page_count
  pub signed :
      (page : Page) × (read_page_from_snapshot file s.page_count ≡ some page)
      × ((metadata_of_page page).magic ≡ snapshot_signature)
      × (s.registers ≡ (metadata_of_page page).registers)
      × ((pfn : ℕ) → contains s pfn ≡ contains_page (metadata_of_page page).memory_ranges pfn)
  pub gdt_inside : gdt_pfn s < s.page_count
  pub gdt_read : s.read_bitmap (gdt_pfn s) ≡ true
  pub gdt :
      (page : Page) × (read_page_from_snapshot file (gdt_pfn s) ≡ some page)
      × (mem' (page_address s (gdt_pfn s)) ≡ page)
  pub rest_unread : (pfn : ℕ) → pfn ≢ gdt_pfn s → s.read_bitmap pfn ≡ false
  pub others : (a : ℕ) → a ≢ page_address s (gdt_pfn s) → mem' a ≡ mem a
  pub counted : IsCounted s

-- Why a file of `size` bytes is refused: it has no page before that of the metadata, or a part of a
-- page, or one of the two pages cannot be read, or the signature is missing.
pub data Refused (file : File) (size : ℕ) : Type 0 where
  too_small : size ≤ page_size → Refused file size
  partial : size % page_size ≢ 0 → Refused file size
  no_metadata : read_page_from_snapshot file (size_to_pages size - 1) ≡ none → Refused file size
  unsigned :
      (page : Page)
      → read_page_from_snapshot file (size_to_pages size - 1) ≡ some page
      → (metadata_of_page page).magic ≢ snapshot_signature
      → Refused file size
  no_gdt :
      (page : Page)
      → read_page_from_snapshot file (size_to_pages size - 1) ≡ some page
      → read_page_from_snapshot file ((metadata_of_page page).registers.gdtr.base / 2 ^ 12) ≡ none
      → Refused file size

bad_size :
    (size : ℕ)
    → (size_to_pages size == 1 || not (size % page_size == 0)) ≡ true
    → (file : File) → Refused file size
unfolding size_to_pages
bad_size size bad file = elim (Bool-cases (size % page_size == 0)) [
  | inl whole ↦ too_small (ground arith)
  | inr part ↦ partial (ground arith)
]

-- Leaving out the empty ranges changes nothing of what the ranges contain.
contains_page-nonempty_ranges :
    (ranges : List SnapshotMemoryRange) (pfn : ℕ)
    → contains_page (nonempty_ranges ranges) pfn ≡ contains_page ranges pfn
unfolding contains_page nonempty_ranges
contains_page-nonempty_ranges [] pfn = refl
contains_page-nonempty_ranges (r ∷ rs) pfn =
    let ih = contains_page-nonempty_ranges rs pfn in
    elim (Bool-cases (r.page_count == 0)) [
      | inl empty ↦ rw empty (ih ∙ ap (λ b. b || contains_page rs pfn) (sym (outside r empty)))
      | inr some_pages ↦ rw (some_pages, ih) refl
    ]
  where
    outside :
        (r : SnapshotMemoryRange)
        → (r.page_count == 0) ≡ true
        → (leb (r.page_base / 2 ^ 12) pfn
            && ltb pfn (wrapping_add (r.page_base / 2 ^ 12) r.page_count))
          ≡ false
    outside r empty = ground arith

size_in_pages :
    (size : ℕ)
    → (size_to_pages size == 1 || not (size % page_size == 0)) ≡ false
    → 1 ≤ size
    → (size ≡ (size_to_pages size - 1 + 1) * page_size) × (1 ≤ size_to_pages size - 1)
unfolding size_to_pages
size_in_pages size good positive = (ground arith, ground arith)

last_page :
    (size : ℕ)
    → 1 ≤ size
    → size < 2 ^ 64
    → wrapping_sub (size_to_pages size) 1 ≡ size_to_pages size - 1
unfolding size_to_pages
last_page size positive small = ground arith

Created-intro :
    (file : File) (size address : ℕ) (mem : Memory) (last gdt_page : Page) (pages : ℕ)
    → (size ≡ (pages + 1) * page_size) × (1 ≤ pages)
    → read_page_from_snapshot file pages ≡ some last
    → (metadata_of_page last).magic ≡ snapshot_signature
    → (metadata_of_page last).registers.gdtr.base / 2 ^ 12 < pages
    → read_page_from_snapshot file ((metadata_of_page last).registers.gdtr.base / 2 ^ 12)
      ≡ some gdt_page
    → let s = empty_snapshot address pages (metadata_of_page last) in
      Created file size address mem
        (mark_read s (gdt_pfn s))
        (write_page mem (page_address s (gdt_pfn s)) gdt_page)
unfolding mark_read empty_snapshot
Created-intro file size address mem last gdt_page pages whole r magic fits g =
    let gdt = (metadata_of_page last).registers.gdtr.base / 2 ^ 12 in
    let added = count_set-update (λ i. false) gdt pages fits refl in
    record {
      placed = refl;
      whole_pages = whole.0;
      not_empty = whole.1;
      signed = (
        last,
        r,
        magic,
        refl,
        contains_page-nonempty_ranges (metadata_of_page last).memory_ranges,
      );
      gdt_inside = fits;
      gdt_read = ground arith;
      gdt = (gdt_page, g, ground arith);
      rest_unread = λ pfn ne. ground arith;
      others = λ a ne. ground arith;
      counted = added ∙ ap (λ n. n + 1) (count_set-none pages);
    }

read_metadata-Created :
    (file : File) (size address : ℕ) (mem : Memory) (pages : ℕ)
    → pages ≡ size_to_pages size - 1
    → (size ≡ (pages + 1) * page_size) × (1 ≤ pages)
    → ((s : Snapshot) × (mem' : Memory) × (read_metadata file pages address mem
          ≡ ok (some (s, mem')))
        × Created file size address mem s mem')
      ⊎ (((read_metadata file pages address mem ≡ ok none) × Refused file size)
          ⊎ ((read_metadata file pages address mem ≡ panic)
              × (last : Page) × (read_page_from_snapshot file pages ≡ some last)
              × (pages ≤ (metadata_of_page last).registers.gdtr.base / 2 ^ 12)))
unfolding read_metadata resolve_page empty_snapshot
read_metadata-Created file size address mem pages at_end whole =
    elim (Option-cases (read_page_from_snapshot file pages)) [
      | inl e ↦ inr (inl (rw (e, read_metadata) refl, no_metadata (rw (sym at_end) e)))
      | inr (last, r) ↦
          let gdt = (metadata_of_page last).registers.gdtr.base / 2 ^ 12 in
          elim (Bool-cases ((metadata_of_page last).magic == snapshot_signature)) [
            | inr n ↦ inr (
                inl
                  (rw (read_metadata, r, n) refl, unsigned last (rw (sym at_end) r) (ground arith)))
            | inl signed ↦ elim (Bool-cases (ltb gdt pages)) [
              | inr out ↦ inr (inr (rw (read_metadata, r, signed, out) refl, last, r, ground arith))
              | inl fits ↦ elim (Option-cases (read_page_from_snapshot file gdt)) [
                | inl e ↦ inr (
                    inl (
                      rw (read_metadata, r, signed, fits, e) refl,
                      no_gdt last (rw (sym at_end) r) e,
                    ))
                | inr (gdt_page, g) ↦ inl (
                  _,
                  _,
                  rw (read_metadata, r, signed, fits, g) refl,
                  Created-intro file size address mem last gdt_page pages whole r (ground arith)
                      (ltb→lt gdt pages fits) g,
                )
              ]
            ]
          ]
    ]

-- A file of whole pages whose last page has the signature gives a snapshot of the pages before it,
-- with the registers and the ranges of that page; the page of the guest's GDT is the only one read.
-- A file is refused only if it has less than two pages or a part of one, if its last page or that of
-- the GDT cannot be read, or if the signature is missing; and `new` panics only if the page of the
-- GDT is out of the slice. The file must not be empty.
pub new-Created :
    (file : File) (size address : ℕ) (mem : Memory)
    → 1 ≤ size
    → size < 2 ^ 64
    → ((s : Snapshot) × (mem' : Memory) × (new file size address mem ≡ ok (some (s, mem')))
        × Created file size address mem s mem')
      ⊎ (((new file size address mem ≡ ok none) × Refused file size)
          ⊎ ((new file size address mem ≡ panic)
              × (last : Page) × (read_page_from_snapshot file (size_to_pages size - 1) ≡ some last)
              × (size_to_pages size - 1 ≤ (metadata_of_page last).registers.gdtr.base / 2 ^ 12)))
unfolding new
new-Created file size address mem positive small =
    elim (Bool-cases (size_to_pages size == 1 || not (size % page_size == 0))) [
      | inl bad ↦ inr (inl (rw bad refl, bad_size size bad file))
      | inr good ↦
          rw (good, last_page size positive small)
            (read_metadata-Created file size address mem (size_to_pages size - 1) refl
              (size_in_pages size good positive))
    ]
