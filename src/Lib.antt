-- ===== src/Lib.antt =====
-- Hypervisor-101-in-Rust, a hypervisor for fuzzing with snapshots: a UEFI program that runs one VM per
-- processor from a snapshot of memory and registers, each time with a mutated input, until the VM
-- aborts. The sources are those of hypervisor/src.
--
-- The parts and how they interact. `start_hypervisor` and `start_vm` (hypervisor.rs) repeat iterations:
-- `revert_dirty_memory` (vm.rs) undoes the writes of the last one, `map_and_mutate_input`
-- (mutation_engine.rs) copies or mutates an input of the corpus (corpus.rs), and the VM runs until an
-- exit aborts it. A nested page fault is resolved to a page of the snapshot (snapshot.rs), which is read
-- from the file and patched (patch.rs) on demand, or of the input data; `build_translation` maps it
-- read-only, and `copy_on_write` gives the VM a page of its own to write to. A breakpoint at a patch
-- records a newly executed basic block and reverts the patch. The counters are in stats.rs and
-- global_state.rs. hardware_vt holds the interface to VMX and SVM and their implementations.
--
-- The files. Each module opens with the source that it models, and its definitions have the names of the
-- source in antt's spelling; a method `new` is `new` of its module, `MutatingInput::new` is `of_file` and
-- `MutatingInput::data` is `to_file`.
--   Prelude         tests, slices, `Exec` for computations that may panic, words and bits of the Rust
--                   core library
--   Memory          main.rs: pages, `size_to_pages`
--   Allocator       allocator.rs, with the boot services as a parameter; below it Blocks
--   Config, Input   config.rs; the input files of corpus.rs
--   HardwareVt      hardware_vt/mod.rs; below it Entry (the entries of nested paging structures),
--                   Segments (descriptors), Svm (svm.rs, with ControlBlock, Guest and Exits) and Vmx
--                   (vmx.rs, with Vmcs, Controls, HostGdt, Guest and Exits)
--   Vm              vm.rs; below it Paging, Tree, Walk, Translation, Revert, Restore, Redirect,
--                   CopyOnWrite, Iteration, Mappings, Rounds and Private with its laws
--   Patch           patch.rs; below it Select and Bytes
--   Snapshot        snapshot.rs and a part of disk.rs; below it Metadata (the last page of the file),
--                   Creation, Paged and Intact
--   Mutation        mutation_engine.rs; below it Pages, Flip, Schedule, Changes,
--                   Writes and Exhaust (the choice of the next input on a single processor)
--   Corpus          corpus.rs; below it Layout and Threads (`consume_file`)
--   Disk            disk.rs, with the statuses of errors; below it Statuses
--   Startup         main.rs (`efi_main`), shell.rs (`get_args`), global_state.rs (`GlobalState::new`)
--                   and what the constructors of the snapshot, the patches and the corpus read
--                   from files; below it Loaded, SnapshotErrors and Refusals
--   Stats           stats.rs and the counters of global_state.rs; below it Report (what is printed)
--                   and Overall (the sums and averages of all iterations)
--   Hypervisor      hypervisor.rs; below it Results, Sources, Counts, Faults, Progress,
--                   Lasting, Backed, Backing, Iterations, Contents, Located, Fuzzing, Coverage and
--                   Reports (the end of an iteration)
-- The witnesses stand in the modules called Tests.
--
-- How state is modelled. Raw pointers to pages of the snapshot, the input data and the dirty pages are
-- mixed in the source, so all pages stand in one store, by physical address. The nested paging
-- structures stand in another, by address and index. Each operation takes its state and returns the new
-- one; a panic is the value `panic` of `Exec`. The loop of `start_vm` runs on a sequence of exits, which
-- say what each run of the guest leaves; it is a recursion on that sequence, and no definition needs
-- fuel. `consume_file` is a relation of steps of all processors, and a function where there is one only.
-- The theorems on the contents of memory are about one processor, which alone reads pages into the
-- snapshot and reverts patches. The `u64` counters of the statistics
-- wrap around; a count that a file or an allocation bounds is written without the wrap.
--
-- The processor. MSRs are a function from their numbers, and other registers that are read are given by
-- their values. A VMCB and a VMCS are records of the fields that the source names. `run` is modelled
-- from the VM-exit on: VMRUN, VMLAUNCH and VMRESUME are the processor's, and INVEPT is given by the flags
-- that it leaves.
--
-- Not modelled: UEFI services and the JSON parser (what they return is a parameter of `Disk`, `Startup` and
-- `Snapshot`), what the processor does in guest mode, the layout of the shell protocols and of texts, the logger, the
-- panic handler, the lock of the system table, and xtask, which builds the program and starts emulators.
pub mod Prelude
pub mod HardwareVt
pub mod Memory
pub mod Vm
pub mod Config
pub mod Allocator
pub mod Input
pub mod Mutation
pub mod Patch
pub mod Snapshot
pub mod Corpus
pub mod Disk
pub mod Startup
pub mod Stats
pub mod Hypervisor
