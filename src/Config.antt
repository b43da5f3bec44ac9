-- ===== src/Config.antt =====
-- hypervisor/src/config.rs: the constants that the behaviour depends on, and the Cargo features.
use hypervisor_101_in_rust.Prelude.{ℕ, Bool}

abbrev pub serial_output_interval : ℕ
serial_output_interval = 500

abbrev pub console_output_interval : ℕ
console_output_interval = 1000

abbrev pub guest_exec_timeout_in_tsc : ℕ
guest_exec_timeout_in_tsc = 200_000_000

abbrev pub max_iteration_count_per_file : ℕ
max_iteration_count_per_file = 10_000

-- hypervisor/Cargo.toml: the features of the package that `cfg!` tests.
pub record Features : Type 0 where
  pub random_byte_modification : Bool
  pub stdout_stats_report : Bool
  pub trace_log : Bool
