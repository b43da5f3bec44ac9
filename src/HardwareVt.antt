-- ===== src/HardwareVt.antt =====
-- hypervisor/src/hardware_vt/mod.rs: the vendor-independent types of hardware-assisted
-- virtualization, and the trait `HardwareVt` as a record of operations.
pub mod Entry
pub mod Segments
pub mod Svm
pub mod Vmx
mod Tests
use hypervisor_101_in_rust.Prelude.{
  ◌+◌, ◌^◌, ℕ, ◌<◌, ◌≡◌, Bool, Option, none, some, Exec, ◌==◌, if◌then◌else◌,
}
use hypervisor_101_in_rust.Memory.{Memory}
use hypervisor_101_in_rust.Snapshot.{Snapshot}
use Entry.{Flags}

-- `NestedPagingStructureEntryType`
pub data EntryType : Type 0 where
  rwx rwx_write_back rx_write_back : EntryType

-- `GuestException`
pub data GuestException : Type 0 where
  break_point invalid_opcode page_fault : GuestException

pub record NestedPageFaultQualification : Type 0 where
  pub rip : ℕ
  pub gpa : ℕ
  pub missing_translation : Bool
  pub write_access : Bool

pub record ExceptionQualification : Type 0 where
  pub rip : ℕ
  pub exception_code : GuestException

pub data VmExitReason : Type 0 where
  nested_page_fault : NestedPageFaultQualification → VmExitReason
  exception : ExceptionQualification → VmExitReason
  external_interrupt_or_pause : VmExitReason
  timer_expiration : VmExitReason
  shutdown : ℕ → VmExitReason
  unexpected : ℕ → VmExitReason

-- `impl TryFrom<u8> for GuestException`. The vectors are those of the x86 architecture.
unfoldable pub exception_of_vector : ℕ → Option GuestException
exception_of_vector vector =
    if vector == 3
    then some break_point
    else if vector == 6
    then some invalid_opcode
    else if vector == 14
    then some page_fault
    else none

-- `GuestRegisters`
pub record GuestRegisters : Type 0 where
  pub rax : ℕ
  pub rbx : ℕ
  pub rcx : ℕ
  pub rdx : ℕ
  pub rdi : ℕ
  pub rsi : ℕ
  pub rbp : ℕ
  pub r8 : ℕ
  pub r9 : ℕ
  pub r10 : ℕ
  pub r11 : ℕ
  pub r12 : ℕ
  pub r13 : ℕ
  pub r14 : ℕ
  pub r15 : ℕ
  pub rip : ℕ
  pub rsp : ℕ
  pub rflags : ℕ

-- `GuestRegisters::default`
abbrev pub zero_registers : GuestRegisters
zero_registers = record {
  rax = 0;
  rbx = 0;
  rcx = 0;
  rdx = 0;
  rdi = 0;
  rsi = 0;
  rbp = 0;
  r8 = 0;
  r9 = 0;
  r10 = 0;
  r11 = 0;
  r12 = 0;
  r13 = 0;
  r14 = 0;
  r15 = 0;
  rip = 0;
  rsp = 0;
  rflags = 0;
}

-- The MSRs of a processor, by their numbers, which are those of the x86 architecture.
abbrev pub Msrs : Type 0
Msrs = ℕ → ℕ

abbrev pub ia32_efer : ℕ
ia32_efer = 0xc000_0080

abbrev pub ia32_pat : ℕ
ia32_pat = 0x277

-- The bits of #BP, #UD and #PF, which both vendors intercept.
abbrev pub exception_bitmap : ℕ
exception_bitmap = 2 ^ 3 + 2 ^ 6 + 2 ^ 14

-- The operations of the trait that are called on a `Box<dyn HardwareVt>` once it is set up. What
-- `run` returns is in the `Exit` of the module `Hypervisor`.
pub record HardwareVt (V : Type 0) : Type 0 where
  pub nps_entry_flags : V → EntryType → Flags
  pub invalidate_caches : V → Exec V
  pub revert_registers : V → Snapshot → Memory → Exec V
  pub adjust_registers : V → (input_addr input_size : ℕ) → Exec V

-- What `Vm` relies on: the flags do not depend on the state, final entries are readable and
-- executable, and writable exactly if the type says so.
pub record IsLawful {V : Type 0} (hw : HardwareVt V) : Type 0 where
  pub stateless :
      (v w : V) (type : EntryType) → hw.nps_entry_flags v type ≡ hw.nps_entry_flags w type
  pub writable : (v : V) → (hw.nps_entry_flags v rwx_write_back).permission ≡ 7
  pub read_only : (v : V) → (hw.nps_entry_flags v rx_write_back).permission ≡ 5
  pub type_fits : (v : V) (type : EntryType) → (hw.nps_entry_flags v type).memory_type < 8
