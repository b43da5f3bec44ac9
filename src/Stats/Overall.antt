-- ===== src/Stats/Overall.antt =====
-- hypervisor/src/stats.rs and hypervisor/src/global_state.rs: the overall statistics after a
-- sequence of iterations. The lock around them puts the updates of all processors in a sequence.
use hypervisor_101_in_rust.Prelude.{
  ℕ, ◌+◌, ◌-◌, ◌/◌, ◌%◌, ◌^◌, ◌<◌, ◌≤◌, ◌≡◌, refl, ◌∙◌, true, not, List, [], ◌∷◌, ◌==◌, ok, length,
  length-append, arith, wrapping_add,
}
use hypervisor_101_in_rust.Stats
use hypervisor_101_in_rust.Stats.{RunStats, Totals, update_stats, guest_tsc}
use hypervisor_101_in_rust.Stats.Report.{
  Time, Screen, Overview, time_to_u64, elapsed_seconds, stdout,
}

-- `update_stats` for one iteration after the other.
unfoldable pub update_all : List RunStats → Totals → Totals
unfolding update_stats
update_all [] t = t
update_all (stats ∷ rest) t = update_all rest (update_stats stats t).0

-- The sum of a number over the iterations.
abbrev pub sum : (RunStats → ℕ) → List RunStats → ℕ
sum number [] = 0
sum number (stats ∷ rest) = number stats + sum number rest

-- A counter is the sum of what the iterations add to it, modulo 2 ^ 64.
summed :
    (counter : Totals → ℕ) (number : RunStats → ℕ)
    → ((stats : RunStats) (t : Totals)
        → counter (update_stats stats t).0 ≡ wrapping_add (counter t) (number stats))
    → (runs : List RunStats) (t : Totals) → counter t < 2 ^ 64
    → counter (update_all runs t) ≡ (counter t + sum number runs) % 2 ^ 64
unfolding update_all
summed counter number step [] t b = omega arith
summed counter number step (stats ∷ rest) t b =
    let t' = (update_stats stats t).0 in
    omega (arith, step stats t, summed counter number step rest t' (omega (arith, step stats t)))

-- The overall statistics as `GlobalState::new` sets them.
abbrev pub no_iterations : (tsc : ℕ) → Totals
no_iterations tsc = record { overall_stats = Stats.new tsc; iteration_count = 0 }

-- The counters of iterations that do not overflow, and in which the guest's time is not negative.
pub record AreCounted (runs : List RunStats) : Type 0 where
  pub iterations : length runs < 2 ^ 64
  pub exits : sum (λ s. s.vmexit_count) runs < 2 ^ 64
  pub hangs : sum (λ s. s.hang_count) runs < 2 ^ 64
  pub cycles : sum (λ s. s.total_tsc) runs < 2 ^ 64
  pub host : sum (λ s. s.host_spent_tsc) runs ≤ sum (λ s. s.total_tsc) runs

sum-one : (runs : List RunStats) → sum (λ s. 1) runs ≡ length runs
sum-one [] = refl
sum-one (stats ∷ rest) = omega (arith, sum-one rest)

blocks :
    (runs : List RunStats) (t : Totals)
    → length (update_all runs t).overall_stats.newly_executed_basic_blks
      ≡ length t.overall_stats.newly_executed_basic_blks
        + sum (λ s. length s.newly_executed_basic_blks) runs
unfolding update_all update_stats
blocks [] t = omega arith
blocks (stats ∷ rest) t = omega (
  arith,
  blocks rest (update_stats stats t).0,
  length-append t.overall_stats.newly_executed_basic_blks stats.newly_executed_basic_blks,
)

pub record IsTime (time : Time) : Type 0 where
  pub hour : time.hour < 2 ^ 8
  pub minute : time.minute < 2 ^ 8
  pub second : time.second < 2 ^ 8

pub elapsed-pos :
    (start_time : ℕ) (time : Time) → IsTime time → 0 < elapsed_seconds start_time (time_to_u64 time)
unfolding elapsed_seconds time_to_u64
elapsed-pos start_time time v = grind (arith, v.hour, v.minute, v.second)

-- The numbers of the text, given those of the iterations.
abbrev pub averaged : List RunStats → Overview → Time → Screen
averaged runs global time = record {
  last_update = time;
  total_iteration = length runs;
  executed_basic_blocks = sum (λ s. length s.newly_executed_basic_blks) runs;
  hang_count = sum (λ s. s.hang_count) runs;
  remaining_corpus_files = global.remaining_files_count;
  active_thread_count = global.active_thread_count;
  average_vmexit_count = sum (λ s. s.vmexit_count) runs / length runs;
  iterations_per_second = length runs / elapsed_seconds global.start_time (time_to_u64 time);
  overall_cycle_per_iteration = sum (λ s. s.total_tsc) runs / length runs;
  guest_cycle_per_iteration =
      (sum (λ s. s.total_tsc) runs - sum (λ s. s.host_spent_tsc) runs) / length runs;
}

pub stdout-ok :
    (global : Overview) (time : Time) (iter_count : ℕ)
    → not (iter_count == 0) ≡ true
    → not (elapsed_seconds global.start_time (time_to_u64 time) == 0) ≡ true
    → stdout global time iter_count
      ≡ ok (record {
        last_update = time;
        total_iteration = iter_count;
        executed_basic_blocks = length global.overall_stats.newly_executed_basic_blks;
        hang_count = global.overall_stats.hang_count;
        remaining_corpus_files = global.remaining_files_count;
        active_thread_count = global.active_thread_count;
        average_vmexit_count = global.overall_stats.vmexit_count / iter_count;
        iterations_per_second = iter_count / elapsed_seconds global.start_time (time_to_u64 time);
        overall_cycle_per_iteration = global.overall_stats.total_tsc / iter_count;
        guest_cycle_per_iteration = guest_tsc global.overall_stats / iter_count;
      })
unfolding stdout
stdout-ok global time iter_count n e = rw (n, e) refl

pub not-zero : (n : ℕ) → 0 < n → not (n == 0) ≡ true
not-zero n p = ground arith

-- What `stdout` reads after the iterations, of which none is reported in between.
abbrev pub overview : List RunStats → (tsc : ℕ) → Overview → Overview
overview runs tsc global = record global {
  overall_stats = (update_all runs (no_iterations tsc)).overall_stats;
}

-- A counter that does not overflow is the sum.
exact :
    (counter : Totals → ℕ) (number : RunStats → ℕ)
    → ((stats : RunStats) (t : Totals)
        → counter (update_stats stats t).0 ≡ wrapping_add (counter t) (number stats))
    → (runs : List RunStats) (t : Totals) → counter t ≡ 0
    → sum number runs < 2 ^ 64
    → counter (update_all runs t) ≡ sum number runs
exact counter number step runs t z b =
    omega (arith, summed counter number step runs t (omega (arith, z)))

-- If no counter overflows, the console shows the sums over all iterations and the averages of them,
-- however the processors' updates are ordered, and never divides by 0.
pub stdout-averaged :
    (runs : List RunStats) (tsc : ℕ) (global : Overview) (time : Time)
    → 0 < length runs
    → AreCounted runs
    → IsTime time
    → stdout (overview runs tsc global) time (update_all runs (no_iterations tsc)).iteration_count
      ≡ ok (averaged runs global time)
unfolding update_stats Stats.new guest_tsc
stdout-averaged runs tsc global time p c v =
    let t = no_iterations tsc in
    let n : (update_all runs t).iteration_count ≡ length runs = omega (
      arith,
      sum-one runs,
      c.iterations,
      exact (λ t. t.iteration_count) (λ s. 1) (λ s t. refl) runs t refl
          (omega (arith, sum-one runs, c.iterations)),
    ) in
    let exits =
      exact (λ t. t.overall_stats.vmexit_count) (λ s. s.vmexit_count) (λ s t. refl) runs t refl
        c.exits in
    let hangs =
      exact (λ t. t.overall_stats.hang_count) (λ s. s.hang_count) (λ s t. refl) runs t refl
        c.hangs in
    let cycles =
      exact (λ t. t.overall_stats.total_tsc) (λ s. s.total_tsc) (λ s t. refl) runs t refl
        c.cycles in
    let host =
      exact (λ t. t.overall_stats.host_spent_tsc) (λ s. s.host_spent_tsc) (λ s t. refl) runs t refl
        (omega (arith, c.host, c.cycles)) in
    let guest : guest_tsc (update_all runs t).overall_stats
        ≡ sum (λ s. s.total_tsc) runs - sum (λ s. s.host_spent_tsc) runs =
      omega (arith, cycles, host, c.host, c.cycles) in
    let found : length (update_all runs t).overall_stats.newly_executed_basic_blks
        ≡ sum (λ s. length s.newly_executed_basic_blks) runs =
      omega (arith, blocks runs t) in
    let elapsed = not-zero _ (elapsed-pos global.start_time time v) in
    stdout-ok (overview runs tsc global) time (update_all runs t).iteration_count
      (not-zero _ (omega (arith, n, p))) elapsed
    ∙ rw (n, guest, exits, hangs, cycles, found) refl
