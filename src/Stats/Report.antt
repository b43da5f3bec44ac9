-- ===== src/Stats/Report.antt =====
-- hypervisor/src/stats.rs: what the reports print, as a sequence of outputs with their numbers. The
-- layout of the text is left out, and writing to the console succeeds.
use hypervisor_101_in_rust.Prelude.{
  ℕ, ◌+◌, ◌*◌, ◌/◌, List, [], ◌∷◌, ◌++◌, Bool, not, ◌==◌, ltb, if◌then◌else◌, Exec, ok, ◌>>=◌, ◌>>◌,
  assert, length, wrapping_sub,
}
use hypervisor_101_in_rust.Config.{Features}
use hypervisor_101_in_rust.Stats.{
  RunStats, is_empty, reports_to_serial, reports_to_console, guest_tsc,
}

-- The numbers that are read of what `time` returns.
pub record Time : Type 0 where
  pub hour : ℕ
  pub minute : ℕ
  pub second : ℕ

-- `time_to_u64`
unfoldable pub time_to_u64 : Time → ℕ
time_to_u64 time = time.hour * 3600 + time.minute * 60 + time.second

-- `elapsed_seconds` of `RunStats::stdout`
unfoldable pub elapsed_seconds : (start_time time : ℕ) → ℕ
elapsed_seconds start_time time = if ltb start_time time then wrapping_sub time start_time else 1

-- The line about one iteration.
pub record Line : Type 0 where
  pub time : Time
  pub iter_count : ℕ
  pub used_dirty_page_count : ℕ
  pub newly_executed_basic_blks : ℕ
  pub total_tsc : ℕ
  pub guest_tsc : ℕ
  pub vmexit_count : ℕ

-- The text about all iterations.
pub record Screen : Type 0 where
  pub last_update : Time
  pub total_iteration : ℕ
  pub executed_basic_blocks : ℕ
  pub hang_count : ℕ
  pub remaining_corpus_files : ℕ
  pub active_thread_count : ℕ
  pub average_vmexit_count : ℕ
  pub iterations_per_second : ℕ
  pub overall_cycle_per_iteration : ℕ
  pub guest_cycle_per_iteration : ℕ

-- What `GlobalState` returns to `RunStats::stdout`.
pub record Overview : Type 0 where
  pub overall_stats : RunStats
  pub start_time : ℕ
  pub remaining_files_count : ℕ
  pub active_thread_count : ℕ

-- `RunStats::stdout`, without the output. A division by 0 panics.
unfoldable pub stdout : Overview → Time → (iter_count : ℕ) → Exec Screen
unfolding guest_tsc time_to_u64 elapsed_seconds
stdout global time iter_count = do
  let stats = global.overall_stats
  let elapsed = elapsed_seconds global.start_time (time_to_u64 time)
  assert (not (iter_count == 0))
  assert (not (elapsed == 0))
  ok (record {
    last_update = time;
    total_iteration = iter_count;
    executed_basic_blocks = length stats.newly_executed_basic_blks;
    hang_count = stats.hang_count;
    remaining_corpus_files = global.remaining_files_count;
    active_thread_count = global.active_thread_count;
    average_vmexit_count = stats.vmexit_count / iter_count;
    iterations_per_second = iter_count / elapsed;
    overall_cycle_per_iteration = stats.total_tsc / iter_count;
    guest_cycle_per_iteration = guest_tsc stats / iter_count;
  })

pub data Output : Type 0 where
  disabled : Output
  heading : Output
  line : Line → Output
  coverage : List ℕ → Output
  screen : Screen → Output

-- The outputs of `RunStats::report` at the first iteration.
unfoldable pub at_first : Features → (iter_count : ℕ) → List Output
at_first features iter_count =
    if iter_count == 1
    then (if not features.stdout_stats_report then disabled ∷ [] else []) ++ (heading ∷ [])
    else []

-- Those to the serial port.
unfoldable pub to_serial : RunStats → Time → (used_dirty_page_count iter_count : ℕ) → List Output
unfolding guest_tsc is_empty
to_serial stats time used_dirty_page_count iter_count =
    line (record {
      time = time;
      iter_count = iter_count;
      used_dirty_page_count = used_dirty_page_count;
      newly_executed_basic_blks = length stats.newly_executed_basic_blks;
      total_tsc = stats.total_tsc;
      guest_tsc = guest_tsc stats;
      vmexit_count = stats.vmexit_count;
    })
    ∷ (if not (is_empty stats.newly_executed_basic_blks)
        then coverage stats.newly_executed_basic_blks ∷ []
        else [])

-- `RunStats::report`; `serial_time` and `console_time` are what its calls of `time` return.
unfoldable pub report :
    Features
    → (trace : Bool) → Overview
    → RunStats
    → (serial_time console_time : Time) → (used_dirty_page_count iter_count : ℕ)
    → Exec (List Output)
unfolding at_first to_serial reports_to_serial reports_to_console stdout
report features trace global stats serial_time console_time used_dirty_page_count iter_count =
    let printed =
      at_first features iter_count
      ++ (if reports_to_serial trace stats iter_count
          then to_serial stats serial_time used_dirty_page_count iter_count
          else []) in
    if reports_to_console features iter_count
    then (stdout global console_time iter_count >>= λ text. ok (printed ++ (screen text ∷ [])))
    else ok printed
