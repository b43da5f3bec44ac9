-- ===== src/Patch/Tests.antt =====
-- A patch set of two breakpoints on page 1.
use mathlib.Core.List.{Perm}
use hypervisor_101_in_rust.Prelude.{ℕ, ◌+◌, ◌*◌, ◌≡◌, ◌≢◌, refl, arith, ◌/◌, ◌%◌, ◌^◌, [], ◌∷◌, ok}
use hypervisor_101_in_rust.Memory.{page_size, Page, Memory}
use hypervisor_101_in_rust.Patch.{PatchEntry, to_pfn, new, select, write_word, revert}
use hypervisor_101_in_rust.Patch.Select.{on_page, select-new}
use hypervisor_101_in_rust.Patch.Bytes.{Fits, revert-write_word}

abbrev pub breakpoint : PatchEntry
breakpoint = record { address = 0x1004; length = 1; patch = 0xcc; original = 0x90 }

abbrev pub end_marker : PatchEntry
end_marker = record { address = 0x2000; length = 2; patch = 0x0b0f; original = 0x9090 }

abbrev code : Page
code offset = 0x90

select-new_example :
    Perm (new (end_marker ∷ breakpoint ∷ [])) (end_marker ∷ breakpoint ∷ [])
    × (select (new (end_marker ∷ breakpoint ∷ [])) 1
        ≡ new (on_page (end_marker ∷ breakpoint ∷ []) 1))
select-new_example = select-new (end_marker ∷ breakpoint ∷ []) 1

breakpoint-Fits : Fits breakpoint code
breakpoint-Fits = record {
  in_page = omega arith;
  in_word = omega arith;
  saved = λ i l. first i (omega arith);
}
  where
    first : (i : ℕ) → i ≡ 0 → 0x90 ≡ 0x90 / 2 ^ (8 * i) % 2 ^ 8
    first i z = rw z refl

revert-write_word_example :
    (patched : Page) × (write_word breakpoint.address breakpoint.length breakpoint.patch code
      ≡ ok patched)
    × ((mem : Memory)
        → mem (0x10_0000 + to_pfn breakpoint.address * page_size) ≡ patched
        → (mem' : Memory) × (revert breakpoint 0x10_0000 2 mem ≡ ok mem')
          × ((i : ℕ) → mem' (0x10_0000 + to_pfn breakpoint.address * page_size) i ≡ code i)
          × ((a : ℕ) → a ≢ 0x10_0000 + to_pfn breakpoint.address * page_size → mem' a ≡ mem a))
revert-write_word_example =
    revert-write_word breakpoint 0x10_0000 2 code breakpoint-Fits (omega arith)
