-- ===== src/Stats.antt =====
-- hypervisor/src/stats.rs: the statistics of an iteration, and hypervisor/src/global_state.rs: those
-- of all iterations. The counters are of type `u64`.

pub mod Report
pub mod Overall
pub mod Tests
use hypervisor_101_in_rust.Prelude.{
  ℕ, ◌+◌, ◌*◌, ◌/◌, ◌%◌, Bool, true, false, ◌&&◌, ◌||◌, not, List, [], ◌∷◌, ◌++◌, ◌==◌, ltb,
  if◌then◌else◌, wrapping_add, wrapping_sub,
}
use hypervisor_101_in_rust.Config.{Features, serial_output_interval, console_output_interval}

pub record RunStats : Type 0 where
  pub start_tsc : ℕ
  pub total_tsc : ℕ
  pub host_spent_tsc : ℕ
  pub vmexit_count : ℕ
  pub newly_executed_basic_blks : List ℕ
  pub hang_count : ℕ

-- `RunStats::new`, where `tsc` is what `rdtsc` returns.
unfoldable pub new : (tsc : ℕ) → RunStats
new tsc = record {
  start_tsc = tsc;
  total_tsc = 0;
  host_spent_tsc = 0;
  vmexit_count = 0;
  newly_executed_basic_blks = [];
  hang_count = 0;
}

-- The fields of `GlobalState` that `update_stats` changes.
pub record Totals : Type 0 where
  pub overall_stats : RunStats
  pub iteration_count : ℕ

-- `GlobalState::update_stats`, with the number of iterations that it returns.
unfoldable pub update_stats : RunStats → Totals → Totals × ℕ
update_stats stats t =
    let total = t.overall_stats in
    (
      record {
        overall_stats = record total {
          total_tsc = wrapping_add total.total_tsc stats.total_tsc;
          host_spent_tsc = wrapping_add total.host_spent_tsc stats.host_spent_tsc;
          vmexit_count = wrapping_add total.vmexit_count stats.vmexit_count;
          newly_executed_basic_blks =
              total.newly_executed_basic_blks ++ stats.newly_executed_basic_blks;
          hang_count = wrapping_add total.hang_count stats.hang_count;
        };
        iteration_count = wrapping_add t.iteration_count 1;
      },
      wrapping_add t.iteration_count 1,
    )

unfoldable pub is_empty : List ℕ → Bool
is_empty [] = true
is_empty (rip ∷ rips) = false

-- The condition of the serial output in `RunStats::report`; `trace` tells if that level is logged.
unfoldable pub reports_to_serial : (trace : Bool) → RunStats → (iter_count : ℕ) → Bool
unfolding is_empty
reports_to_serial trace stats iter_count =
    trace
    || not (is_empty stats.newly_executed_basic_blks)
    || iter_count % serial_output_interval == 0

-- The condition of the console output.
unfoldable pub reports_to_console : Features → (iter_count : ℕ) → Bool
reports_to_console features iter_count =
    features.stdout_stats_report && (iter_count == 1 || iter_count % console_output_interval == 0)

-- The time that the guest ran, as the reports compute it.
unfoldable pub guest_tsc : RunStats → ℕ
guest_tsc stats = wrapping_sub stats.total_tsc stats.host_spent_tsc
