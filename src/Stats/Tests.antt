-- ===== src/Stats/Tests.antt =====
-- hypervisor/src/stats.rs: tests of the reports.
use hypervisor_101_in_rust.Prelude.{◌≡◌, refl, true, false, List, [], ◌∷◌, ok, arith}
use hypervisor_101_in_rust.Config.{Features}
use hypervisor_101_in_rust.Stats
use hypervisor_101_in_rust.Stats.{RunStats, Totals}
use hypervisor_101_in_rust.Stats.Report.{
  Time, Screen, Overview, heading, line, coverage, screen, stdout, report,
}
use hypervisor_101_in_rust.Stats.Overall.{
  AreCounted, IsTime, update_all, no_iterations, overview, averaged, stdout-averaged,
}

abbrev pub first_run : RunStats
first_run = record {
  start_tsc = 100;
  total_tsc = 900;
  host_spent_tsc = 300;
  vmexit_count = 7;
  newly_executed_basic_blks = 0x1000 ∷ 0x1010 ∷ [];
  hang_count = 0;
}

abbrev second_run : RunStats
second_run = record {
  start_tsc = 1100;
  total_tsc = 1100;
  host_spent_tsc = 200;
  vmexit_count = 4;
  newly_executed_basic_blks = [];
  hang_count = 1;
}

abbrev runs : List RunStats
runs = first_run ∷ second_run ∷ []

abbrev pub now : Time
now = record { hour = 1; minute = 2; second = 3 }

abbrev global : Overview
global = record {
  overall_stats = first_run;
  start_time = 3600;
  remaining_files_count = 5;
  active_thread_count = 2;
}

runs-AreCounted : AreCounted runs
runs-AreCounted = record {
  iterations = omega arith;
  exits = omega arith;
  hangs = omega arith;
  cycles = omega arith;
  host = omega arith;
}

now-IsTime : IsTime now
now-IsTime = record { hour = omega arith; minute = omega arith; second = omega arith }

stdout-averaged_example :
    stdout (overview runs 0 global) now (update_all runs (no_iterations 0)).iteration_count
    ≡ ok (averaged runs global now)
stdout-averaged_example = stdout-averaged runs 0 global now (omega arith) runs-AreCounted now-IsTime

shown : Screen
shown = record {
  last_update = now;
  total_iteration = 2;
  executed_basic_blocks = 2;
  hang_count = 1;
  remaining_corpus_files = 5;
  active_thread_count = 2;
  average_vmexit_count = 5;
  iterations_per_second = 0;
  overall_cycle_per_iteration = 1000;
  guest_cycle_per_iteration = 750;
}

averaged-shown :
    stdout (overview runs 0 global) now (update_all runs (no_iterations 0)).iteration_count
    ≡ ok shown
unfolding shown stdout update_all Stats.new
averaged-shown = refl

-- The first iteration reports the heading, its line and the addresses that it executed first.
report-first :
    (features : Features)
    → features.stdout_stats_report ≡ true
    → report features false global first_run now now 3 1
      ≡ ok (
          heading
          ∷ line (record {
            time = now;
            iter_count = 1;
            used_dirty_page_count = 3;
            newly_executed_basic_blks = 2;
            total_tsc = 900;
            guest_tsc = 600;
            vmexit_count = 7;
          })
          ∷ coverage (0x1000 ∷ 0x1010 ∷ [])
          ∷ screen (record {
            last_update = now;
            total_iteration = 1;
            executed_basic_blocks = 2;
            hang_count = 0;
            remaining_corpus_files = 5;
            active_thread_count = 2;
            average_vmexit_count = 7;
            iterations_per_second = 0;
            overall_cycle_per_iteration = 900;
            guest_cycle_per_iteration = 600;
          })
          ∷ [])
unfolding report
report-first features e = rw e refl
