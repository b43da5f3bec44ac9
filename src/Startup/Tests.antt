-- ===== src/Startup/Tests.antt =====
-- A volume with a snapshot of three pages, a patch file and a directory of one input file.
use Prim.Native.String.{String}
use text.Mathlib.Text.{◌==◌}
use hypervisor_101_in_rust.Prelude.{
  ℕ, ◌≤◌, ◌<◌, ◌^◌, ◌≡◌, ◌≢◌, ◌⊎◌, refl, arith, true, false, none, some, List, [], ◌∷◌,
  if◌then◌else◌, length,
}
use hypervisor_101_in_rust.Memory.{page_size, Memory, size_to_pages}
use hypervisor_101_in_rust.Disk.{
  invalid_parameter, not_found, Outcome, done, failed, panicked, RegularFile, FileType, regular,
  dir, entry, needs_buffer, open_file, open_dir, read_file_to_vec, read_snapshot_page,
}
use hypervisor_101_in_rust.Snapshot.{empty_snapshot}
use hypervisor_101_in_rust.Snapshot.Metadata.{metadata_of_page}
use hypervisor_101_in_rust.Corpus
use hypervisor_101_in_rust.Snapshot.Tests.{signed_page, memory, unread}
use hypervisor_101_in_rust.Stats
use hypervisor_101_in_rust.Disk.Statuses.{done-injective}
use hypervisor_101_in_rust.Patch.Tests.{breakpoint}
use hypervisor_101_in_rust.Startup.{
  Services, GlobalState, get_args, returned, new_global_state, efi_main,
}
use hypervisor_101_in_rust.Startup.Loaded.{Loaded, new_global_state-Loaded}
use hypervisor_101_in_rust.Startup.Refusals.{Refused, efi_main-returned}

abbrev snapshot_file : RegularFile
snapshot_file = record {
  file_size = done 0x4000;
  read = λ size. none;
  set_position = λ position. none;
  read_page = λ position. some (page_size, signed_page);
}

abbrev small_file : RegularFile
small_file = record {
  file_size = done 2;
  read = λ size. some (0x41 ∷ 0x42 ∷ []);
  set_position = λ position. none;
  read_page = λ position. none;
}

abbrev file_named : String → Outcome FileType
file_named name =
    if name == "snapshot"
    then done (regular snapshot_file)
    else if name == "corpus"
    then done (dir 1)
    else if name == "missing"
    then failed not_found
    else done (regular small_file)

abbrev services : (arguments : List String) → Services
services arguments = record {
  arguments_by_interface = none;
  arguments_by_parameters = some arguments;
  open_mp_services = done tt;
  open_volume = done 0;
  files = record {
    is_name = λ name. true;
    open_in = λ parent name. file_named name;
    entries = λ handle. entry true (some ".") ∷ needs_buffer 200 ∷ entry false (some "input") ∷ [];
  };
  allocate_pages = λ count. 0x10_0000;
  parse = λ bytes. some (breakpoint ∷ []);
  enabled_processors = done 4;
  mp_services_remain = true;
  startup_all_aps_returns = false;
  tsc = 1000;
  time = 0;
}

abbrev arguments : List String
arguments = "rhv.efi" ∷ "snapshot" ∷ "patches" ∷ "corpus" ∷ []

abbrev unloaded : GlobalState × Memory
unloaded = (
  record {
    active_thread_count = 0;
    snapshot = unread;
    snapshot_file = small_file;
    corpus = record { files = []; data_gva = 0; first_page = 0; end_page = 0 };
    totals = record { overall_stats = Stats.new 0; iteration_count = 0 };
    patch_set = [];
    number_of_cores = 0;
    start_time = 0;
  },
  memory,
)

abbrev loaded : GlobalState × Memory
loaded = loaded_of (new_global_state (services arguments) "snapshot" "patches" "corpus" memory)
  where
    loaded_of : Outcome (GlobalState × Memory) → GlobalState × Memory
    loaded_of (done r) = r
    loaded_of (failed status) = unloaded
    loaded_of panicked = unloaded

loading : new_global_state (services arguments) "snapshot" "patches" "corpus" memory ≡ done loaded
unfolding new_global_state open_file open_dir read_file_to_vec read_snapshot_page size_to_pages
    metadata_of_page empty_snapshot Corpus.new
loading = refl

loaded_size :
    (size : ℕ) → loaded.0.snapshot_file.file_size ≡ done size → (1 ≤ size) × (size < 2 ^ 64)
unfolding new_global_state open_file open_dir read_file_to_vec read_snapshot_page size_to_pages
    metadata_of_page empty_snapshot Corpus.new
loaded_size size e = let same : 0x4000 ≡ size = done-injective e in omega (arith, same)

new_global_state-Loaded_example : Loaded (services arguments) loaded.0 memory loaded.1
new_global_state-Loaded_example =
    new_global_state-Loaded (services arguments) "snapshot" "patches" "corpus" memory loaded.0
      loaded.1 loaded_size loading

abbrev no_snapshot : List String
no_snapshot = "rhv.efi" ∷ "missing" ∷ "patches" ∷ "corpus" ∷ []

refusal : efi_main (services no_snapshot) memory ≡ returned not_found
unfolding efi_main get_args new_global_state open_file
refusal = refl

efi_main-returned_example :
    (args : List String) × (get_args (services no_snapshot) ≡ done args)
    × (((length args ≢ 4) × (not_found ≡ invalid_parameter))
        ⊎ ((name : String) × (snapshot_path : String) × (patch_path : String)
            × (corpus_path : String) × (args ≡ name ∷ snapshot_path ∷ patch_path ∷ corpus_path ∷ [])
            × Refused (services no_snapshot) snapshot_path patch_path corpus_path memory not_found))
efi_main-returned_example = efi_main-returned (services no_snapshot) memory not_found refusal
