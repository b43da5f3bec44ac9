-- ===== src/Startup.antt =====
-- hypervisor/src/main.rs (`efi_main`), hypervisor/src/global_state.rs (`GlobalState::new`), and the
-- parts of `Snapshot::new`, `PatchSet::new` and `Corpus::new` that read files.
--
-- The services of UEFI and the JSON parser are parameters, by what they return to these calls. The
-- logger, the image report and the initialization of the system table are left out.
pub mod Loaded
pub mod SnapshotErrors
pub mod Refusals
mod Tests
use Prim.Native.String.{String}
use hypervisor_101_in_rust.Prelude.{
  ℕ, ◌+◌, ◌*◌, ◌/◌, ◌%◌, ◌^◌, Bool, true, false, ◌||◌, ◌&&◌, not, Option, none, some, List, [], ◌∷◌,
  ltb, ◌==◌, wrapping_sub, if◌then◌else◌,
}
use hypervisor_101_in_rust.Memory.{page_size, Memory, write_page, size_to_pages}
use hypervisor_101_in_rust.Input.{InputFile, file_name}
use hypervisor_101_in_rust.Disk.{
  Status, invalid_parameter, device_error, not_found, Outcome, done, failed, panicked, ◌>>=◌,
  or_else, RegularFile, DirEntry, entry, needs_buffer, unreadable, FileSystem, open_file, open_dir,
  read_file_to_vec, read_snapshot_page,
}
use hypervisor_101_in_rust.Snapshot.{Snapshot, page_address, mark_read, empty_snapshot}
use hypervisor_101_in_rust.Snapshot.Metadata.{
  SnapshotMetadata, metadata_of_page, snapshot_signature,
}
use hypervisor_101_in_rust.Patch
use hypervisor_101_in_rust.Patch.{PatchEntry, PatchSet}
use hypervisor_101_in_rust.Corpus
use hypervisor_101_in_rust.Corpus.{Corpus}
use hypervisor_101_in_rust.Stats
use hypervisor_101_in_rust.Stats.{Totals}

-- What the calls of UEFI and of the allocator return.
pub record Services : Type 0 where
  pub arguments_by_interface : Option (List String)
  pub arguments_by_parameters : Option (List String)
  pub open_mp_services : Outcome (Unit {0})
  pub open_volume : Outcome ℕ
  pub files : FileSystem
  pub allocate_pages : (count : ℕ) → ℕ
  pub parse : List ℕ → Option (List PatchEntry)
  pub enabled_processors : Outcome ℕ
  -- whether the MP services can be opened again, and whether `startup_all_aps` returns
  pub mp_services_remain : Bool
  pub startup_all_aps_returns : Bool
  pub tsc : ℕ
  pub time : ℕ

pub record GlobalState : Type 0 where
  pub active_thread_count : ℕ
  pub snapshot : Snapshot
  pub snapshot_file : RegularFile
  pub corpus : Corpus
  pub totals : Totals
  pub patch_set : PatchSet
  pub number_of_cores : ℕ
  pub start_time : ℕ

-- `Snapshot::resolve_page` of the GDT's page in `Snapshot::new`.
unfoldable pub read_gdt : RegularFile → Snapshot → Memory → (pfn : ℕ) → Outcome (Snapshot × Memory)
read_gdt file s mem pfn =
    if ltb pfn s.page_count
    then (do
      page ← read_snapshot_page file pfn
      done (mark_read s pfn, write_page mem (page_address s pfn) page))
    else panicked

-- `Snapshot::new` from the size of the open file on, with `memory` allocated at `address`.
unfoldable pub load_snapshot :
    RegularFile → (size address : ℕ) → Memory → Outcome (Snapshot × Memory)
unfolding read_gdt
load_snapshot file size address mem =
    let last = wrapping_sub (size_to_pages size) 1 in
    if size_to_pages size == 1 || not (size % page_size == 0) then failed invalid_parameter else (do
      page ← read_snapshot_page file last
      let m = metadata_of_page page
      if m.magic == snapshot_signature
          then read_gdt file (empty_snapshot address last m) mem (m.registers.gdtr.base / 2 ^ 12)
          else failed invalid_parameter)

-- `PatchSet::new`
unfoldable pub load_patches : Services → (volume : ℕ) → String → Outcome PatchSet
load_patches u volume path = do
  file ← open_file u.files volume path
  contents ← read_file_to_vec file
  entries ← or_else (u.parse contents) device_error
  done (Patch.new entries)

-- The loop of `Corpus::read_files_in_directory`, over the results of `read_entry`.
unfoldable pub read_entries :
    FileSystem → (directory : ℕ) → List DirEntry → Outcome (List InputFile)
read_entries fs directory [] = done []
read_entries fs directory (needs_buffer size ∷ rest) = read_entries fs directory rest
read_entries fs directory (unreadable ∷ rest) = panicked
read_entries fs directory (entry true name ∷ rest) = read_entries fs directory rest
read_entries fs directory (entry false none ∷ rest) = failed invalid_parameter
read_entries fs directory (entry false (some name) ∷ rest) = do
  file ← open_file fs directory name
  bytes ← read_file_to_vec file
  files ← read_entries fs directory rest
  done (record { bytes = bytes; name = file_name name } ∷ files)

-- `Corpus::new`
unfoldable pub load_corpus : Services → (volume : ℕ) → String → (page_count : ℕ) → Outcome Corpus
unfolding read_entries
load_corpus u volume path page_count = do
  directory ← open_dir u.files volume path
  files ← read_entries u.files directory (u.files.entries directory)
  or_else (Corpus.new page_count files) not_found

-- `Snapshot::new`
unfoldable pub open_snapshot :
    Services → (volume : ℕ) → String → Memory → Outcome (RegularFile × Snapshot × Memory)
unfolding load_snapshot
open_snapshot u volume path mem = do
  file ← open_file u.files volume path
  size ← file.file_size
  let address = u.allocate_pages (wrapping_sub (size_to_pages size) 1)
  (s, mem') ← load_snapshot file size address mem
  done (file, s, mem')

-- `GlobalState::new`
unfoldable pub new_global_state :
    Services
    → (snapshot_path patch_path corpus_path : String) → Memory
    → Outcome (GlobalState × Memory)
unfolding open_snapshot load_patches load_corpus
new_global_state u snapshot_path patch_path corpus_path mem = do
  mp ← u.open_mp_services
  volume ← u.open_volume
  (file, s, mem') ← open_snapshot u volume snapshot_path mem
  corpus ← load_corpus u volume corpus_path s.page_count
  patches ← load_patches u volume patch_path
  cores ← u.enabled_processors
  done (
    record {
      active_thread_count = 0;
      snapshot = s;
      snapshot_file = file;
      corpus = corpus;
      totals = record { overall_stats = Stats.new u.tsc; iteration_count = 0 };
      patch_set = patches;
      number_of_cores = cores;
      start_time = u.time;
    },
    mem',
  )

-- `get_args`: the second protocol is tried if the first is missing, and must be there then.
unfoldable pub get_args : Services → Outcome (List String)
get_args u = elim u.arguments_by_interface [
  | some args ↦ done args
  | none ↦ elim u.arguments_by_parameters [ some args ↦ done args | none ↦ panicked ]
]

-- Where `start_hypervisor` runs: on the boot processor, or on all others.
pub data Mode : Type 0 where
  on_this_processor on_other_processors : Mode

-- What becomes of the program: `efi_main` returns, fuzzing starts and never ends but by a panic, or
-- there is a panic before.
pub data Launch : Type 0 where
  returned : Status → Launch
  fuzzing : Mode → GlobalState → Memory → Launch
  crashed : Launch

-- `start_hypervisor_on_all_processors`: it panics if the services cannot be opened, or if
-- `startup_all_aps` returns, be it an error or not.
unfoldable pub start_on_all : Services → GlobalState → Memory → Launch
start_on_all u global mem =
    if global.number_of_cores == 1
    then fuzzing on_this_processor global mem
    else if u.mp_services_remain && not u.startup_all_aps_returns
    then fuzzing on_other_processors global mem
    else crashed

unfoldable pub launch : Services → Outcome (GlobalState × Memory) → Launch
unfolding start_on_all
launch u (done (global, mem)) = start_on_all u global mem
launch u (failed status) = returned status
launch u panicked = crashed

-- `efi_main` on its arguments, the name of the program being the first.
unfoldable pub with_args : Services → List String → Memory → Launch
unfolding launch
with_args u (name ∷ snapshot_path ∷ patch_path ∷ corpus_path ∷ []) mem =
    launch u (new_global_state u snapshot_path patch_path corpus_path mem)
with_args u args mem = returned invalid_parameter

unfoldable pub efi_main : Services → Memory → Launch
unfolding with_args
efi_main u mem = elim (get_args u) [
  | done args ↦ with_args u args mem
  | failed status ↦ crashed
  | panicked ↦ crashed
]
