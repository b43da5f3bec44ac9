-- ===== src/Hypervisor/Results.antt =====
-- hypervisor/src/hypervisor.rs: the results of handling a VM exit, and the state that it works on.
use hypervisor_101_in_rust.Prelude.{ℕ}
use hypervisor_101_in_rust.Memory.{Memory}
use hypervisor_101_in_rust.HardwareVt.{
  GuestException, break_point, invalid_opcode, page_fault, VmExitReason,
}
use hypervisor_101_in_rust.Vm.{Vm}
use hypervisor_101_in_rust.Patch.{PatchSet}
use hypervisor_101_in_rust.Snapshot.{Snapshot, File}
use hypervisor_101_in_rust.Corpus.{Corpus}

pub data AbortReason : Type 0 where
  unhandled_vm_exit end_marker invalid_page_access null_page_access negative_page_access :
      AbortReason
  invalid_instruction unexpected_breakpoint unexpected_page_fault excessive_memory_write hang :
      AbortReason

pub data VmExitResult : Type 0 where
  resume_vm : VmExitResult
  abort_vm : AbortReason → VmExitResult
  panic_with : ℕ → VmExitResult

-- What `AbortReason::report` writes to the log, by its level.
pub data Report : Type 0 where
  silent traced debugged warned : Report

unfoldable pub report : AbortReason → Report
report unhandled_vm_exit = silent
report invalid_page_access = silent
report end_marker = traced
report null_page_access = warned
report negative_page_access = warned
report invalid_instruction = warned
report unexpected_breakpoint = warned
report unexpected_page_fault = warned
report excessive_memory_write = warned
report hang = debugged

-- `impl From<GuestException> for AbortReason`
unfoldable pub from_exception : GuestException → AbortReason
from_exception break_point = unexpected_breakpoint
from_exception invalid_opcode = invalid_instruction
from_exception page_fault = invalid_page_access

-- The parts of `GlobalState` that no handler changes.
pub record Setup : Type 0 where
  pub file : File
  pub patches : PatchSet
  pub corpus : Corpus

-- The state that the handlers change: the VM of this processor, the snapshot and memory.
pub record Machine (V : Type 0) : Type 0 where
  pub vm : Vm V
  pub snapshot : Snapshot
  pub memory : Memory

pub record Exit (V : Type 0) : Type 0 where
  pub vt : V
  pub memory : Memory
  pub reason : VmExitReason
  pub host_start_tsc : ℕ
  pub handler_tsc : ℕ
  pub host_end_tsc : ℕ
  pub stop_tsc : ℕ
