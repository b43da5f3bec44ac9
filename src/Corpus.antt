-- ===== src/Corpus.antt =====
-- hypervisor/src/corpus.rs: the type `Corpus`. The files of the directory are read by UEFI: `new` is
-- modelled from the files that `read_files_in_directory` returns on. `consume_file` is in `Threads`,
-- since it waits for other processors.

pub mod Layout
pub mod Threads
mod Tests
use hypervisor_101_in_rust.Prelude.{
  ℕ, suc, ◌+◌, ◌*◌, ◌/◌, ◌%◌, ◌^◌, Bool, ◌&&◌, Option, none, some, List, [], ◌∷◌, ◌++◌, Exec, ok,
  panic, ◌>>=◌, unwrap, ltb, leb, ◌==◌, if◌then◌else◌, length, get_elem?,
}
use hypervisor_101_in_rust.Memory.{page_size, size_to_pages}
use hypervisor_101_in_rust.Input.{InputFile}

-- `data_pages` is the range from `first_page` up to `end_page`, `end_page` excluded.
pub record Corpus : Type 0 where
  pub files : List InputFile
  pub data_gva : ℕ
  pub first_page : ℕ
  pub end_page : ℕ

-- `input_files.iter().map(|f| f.data.len()).max()`
unfoldable pub largest : List InputFile → Option ℕ
largest [] = none
largest (f ∷ fs) = elim (largest fs) [
  | none ↦ some (length f.bytes)
  | some n ↦ some (if ltb n (length f.bytes) then length f.bytes else n)
]

-- The corpus for a largest file of `size` bytes and a snapshot of `page_count` pages.
unfoldable pub with_largest : (page_count size : ℕ) → List InputFile → Corpus
with_largest page_count size files = record {
  files = files;
  data_gva = (page_count + 1) * page_size % 2 ^ 64;
  first_page = page_count + 1;
  end_page = page_count + 1 + size_to_pages size;
}

-- `Corpus::new`, with `none` for the error on an empty directory.
unfoldable pub new : (page_count : ℕ) → List InputFile → Option Corpus
unfolding largest with_largest
new page_count files = elim (largest files) [
  | none ↦ none
  | some size ↦ some (with_largest page_count size files)
]

unfoldable pub remaining_files_count : Corpus → ℕ
remaining_files_count c = length c.files

-- `select_file`, where `tsc` is what `rdtsc` returns. The remainder by 0 panics.
unfoldable pub select_file : (tsc : ℕ) → Corpus → Exec InputFile
select_file tsc c =
    if length c.files == 0 then panic else unwrap (get_elem? c.files (tsc % length c.files))

unfoldable pub add_file : InputFile → Corpus → Corpus
add_file input c = record c { files = c.files ++ (input ∷ []) }
