-- ===== src/Hypervisor/Reports.antt =====
-- hypervisor/src/hypervisor.rs: what `start_hypervisor` does after an iteration, with what it reports,
-- and hypervisor/src/mutation_engine.rs: the description of an input in the log.
mod Tests
use hypervisor_101_in_rust.Prelude.{
  ℕ, ◌+◌, ◌-◌, ◌*◌, ◌/◌, ◌%◌, ◌≡◌, ◌≢◌, ◌⊎◌, Bool, ◌&&◌, not, List, [], ◌∷◌, ◌++◌, Exec, ok, panic,
  ◌>>=◌, if◌then◌else◌,
}
use hypervisor_101_in_rust.Config.{Features}
use hypervisor_101_in_rust.Input.{InputFile, Name}
use hypervisor_101_in_rust.Mutation.{MutatingInput, MutationEngine, is_mutated, to_file}
use hypervisor_101_in_rust.Corpus.{Corpus, add_file, remaining_files_count}
use hypervisor_101_in_rust.Stats.{RunStats, Totals, update_stats, is_empty}
use hypervisor_101_in_rust.Stats.Report
use hypervisor_101_in_rust.Stats.Report.{Time, Overview, Output}
use hypervisor_101_in_rust.Hypervisor.{AbortReason}
use hypervisor_101_in_rust.Hypervisor.Results as Results

-- What the `Debug` output of a `MutatingInput` names. The offsets and the saved bytes are arrays.
pub data Description : Type 0 where
  changed_bytes : Name → (mutation_count : ℕ) → (offsets original : ℕ → ℕ) → Description
  flipped_bit : Name → (mutation_count bit offset : ℕ) → Description

-- `impl fmt::Debug for MutatingInput`
unfoldable pub describe : Features → MutatingInput → Description
describe features m =
    if features.random_byte_modification
    then changed_bytes m.input.name m.max_mutation_count m.offsets m.original
    else flipped_bit m.input.name m.mutation_count ((m.mutation_count - 1) % 8)
        (m.mutation_count / 8)

-- What is reported of an iteration: the statistics, and the level and the input of the reason.
pub record Log : Type 0 where
  pub outputs : List Output
  pub reason : Results.Report
  pub input : Description

-- The circumstances of a report: whether traces are logged, the fields of `GlobalState` that are
-- read, and the results of `time`.
pub record Occasion : Type 0 where
  pub trace : Bool
  pub start_time : ℕ
  pub active_thread_count : ℕ
  pub serial_time : Time
  pub console_time : Time

-- The body of the loop of `start_hypervisor` after `start_vm`: the overall statistics are updated,
-- the iteration is reported, and an input that executed a new basic block is added to the corpus.
unfoldable pub finish_iteration :
    Features
    → Occasion
    → MutationEngine
    → (used_dirty_page_count : ℕ) → RunStats
    → AbortReason
    → Totals
    → Corpus
    → Exec (Totals × Corpus × Log)
unfolding update_stats is_empty remaining_files_count add_file is_mutated to_file describe
    Results.report Report.report
finish_iteration features o e used_dirty_page_count stats reason t c = do
  let (t', iter_count) = update_stats stats t
  let global : Overview = record {
    overall_stats = t'.overall_stats;
    start_time = o.start_time;
    remaining_files_count = remaining_files_count c;
    active_thread_count = o.active_thread_count;
  }
  outputs ←
      Report.report features o.trace global stats o.serial_time o.console_time used_dirty_page_count
        iter_count
  ok (
    t',
    if not (is_empty stats.newly_executed_basic_blks) && is_mutated e.current_input
        then add_file (to_file e.current_input) c
        else c,
    record {
      outputs = outputs;
      reason = Results.report reason;
      input = describe features e.current_input;
    },
  )

-- What the end of an iteration leaves: the iteration is counted, and the file of the input is added
-- to the corpus exactly if it was mutated and executed a new basic block.
pub record Finished (e : MutationEngine) (stats : RunStats) (t : Totals) (c : Corpus) (t' : Totals)
    (c' : Corpus) : Type 0 where
  pub counted : t'.iteration_count ≡ t.iteration_count + 1
  pub blocks :
      t'.overall_stats.newly_executed_basic_blks
      ≡ t.overall_stats.newly_executed_basic_blks ++ stats.newly_executed_basic_blks
  pub corpus :
      ((stats.newly_executed_basic_blks ≢ [])
        × (e.current_input.mutation_count ≢ 0)
        × (c'.files ≡ c.files ++ (to_file e.current_input ∷ [])))
      ⊎ (((stats.newly_executed_basic_blks ≡ []) ⊎ (e.current_input.mutation_count ≡ 0)) × (c' ≡ c))

-- The corpus after the iteration.
abbrev grown : MutationEngine → RunStats → Corpus → Corpus
grown e stats c =
    if not (is_empty stats.newly_executed_basic_blks) && is_mutated e.current_input
    then add_file (to_file e.current_input) c
    else c
