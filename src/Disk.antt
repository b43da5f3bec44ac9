-- ===== src/Disk.antt =====
-- hypervisor/src/disk.rs: files and directories. The Simple File System protocol of UEFI is a
-- parameter: what it returns on the calls that the program makes.
pub mod Statuses
use Prim.Native.String.{String}
use hypervisor_101_in_rust.Prelude.{
  ℕ, ◌+◌, ◌*◌, ◌%◌, ◌^◌, Bool, true, false, Option, none, some, List, Exec, ok, panic, ◌==◌,
  if◌then◌else◌, length,
}
use hypervisor_101_in_rust.Memory.{page_size, Page}
use hypervisor_101_in_rust.Snapshot.{File}

-- The codes of `uefi::Status` that the program uses, and those that only UEFI returns.
pub data Status : Type 0 where
  invalid_parameter device_error end_of_file not_found : Status
  of_uefi : ℕ → Status

-- `Result<A, uefi::Error>`, or a panic.
pub data Outcome {ℓ} (A : Type ℓ) : Type ℓ where
  done : A → Outcome A
  failed : Status → Outcome A
  panicked : Outcome A

-- The operator `?`, and `unwrap` of what panics.
infixl 5 ◌>>=◌
abbrev pub ◌>>=◌ {ℓ κ} : {A : Type ℓ} {B : Type κ} → Outcome A → (A → Outcome B) → Outcome B
done a >>= f = f a
failed status >>= f = failed status
panicked >>= f = panicked

abbrev pub or_else {ℓ} : {A : Type ℓ} → Option A → Status → Outcome A
or_else none status = failed status
or_else (some a) status = done a

-- `RegularFile`: `file_size` of its information, what `read` into a buffer of some size returns, if
-- it does not fail, and what `set_position` and then `read` into a page do.
pub record RegularFile : Type 0 where
  pub file_size : Outcome ℕ
  pub read : (size : ℕ) → Option (List ℕ)
  pub set_position : ℕ → Option Status
  pub read_page : (position : ℕ) → Option (ℕ × Page)

-- `FileType`, with directories known by their handles.
pub data FileType : Type 0 where
  regular : RegularFile → FileType
  dir : ℕ → FileType

-- What `read_entry` returns before the end of the directory: an entry, with its name if that is
-- representable, the size of the buffer that it needs, or an error without it.
pub data DirEntry : Type 0 where
  entry : (is_directory : Bool) → Option String → DirEntry
  needs_buffer : ℕ → DirEntry
  unreadable : DirEntry

pub record FileSystem : Type 0 where
  -- `CStr16::from_str_with_buf` with a buffer of 256 elements
  pub is_name : String → Bool
  -- `open` and `into_type`
  pub open_in : (parent : ℕ) → String → Outcome FileType
  pub entries : (handle : ℕ) → List DirEntry

-- `open`
unfoldable pub open_any : FileSystem → (parent : ℕ) → String → Outcome FileType
open_any fs parent name =
    if fs.is_name name then fs.open_in parent name else failed invalid_parameter

unfoldable pub as_file : FileType → Outcome RegularFile
as_file (regular file) = done file
as_file (dir handle) = failed invalid_parameter

unfoldable pub as_dir : FileType → Outcome ℕ
as_dir (regular file) = failed invalid_parameter
as_dir (dir handle) = done handle

unfoldable pub open_file : FileSystem → (parent : ℕ) → String → Outcome RegularFile
unfolding open_any as_file
open_file fs parent name = open_any fs parent name >>= as_file

unfoldable pub open_dir : FileSystem → (parent : ℕ) → String → Outcome ℕ
unfolding open_any as_dir
open_dir fs parent name = open_any fs parent name >>= as_dir

-- `read_file_to_vec`
unfoldable pub read_file_to_vec : RegularFile → Outcome (List ℕ)
read_file_to_vec file = do
  size ← file.file_size
  bytes ← or_else (file.read size) device_error
  if length bytes == size then done bytes else failed end_of_file

-- `read_page_from_snapshot`, with its errors.
unfoldable pub read_snapshot_page : RegularFile → (pfn : ℕ) → Outcome Page
read_snapshot_page file pfn =
    let position = pfn * 2 ^ 12 % 2 ^ 64 in
    elim (file.set_position position) [
      | some status ↦ failed status
      | none ↦ (do
        (bytes_read, page) ← or_else (file.read_page position) device_error
        if bytes_read == page_size then done page else failed end_of_file)
    ]

-- The file as the snapshot reads it later, when an error's status does not matter.
unfoldable pub on_demand : RegularFile → File
on_demand file position = elim (file.set_position position) [
  | some status ↦ none
  | none ↦ file.read_page position
]

-- An outcome without the status of an error.
abbrev pub forget {ℓ} : {A : Type ℓ} → Outcome A → Exec (Option A)
forget (done a) = ok (some a)
forget (failed status) = ok none
forget panicked = panic
