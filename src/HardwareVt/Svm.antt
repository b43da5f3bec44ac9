-- ===== src/HardwareVt/Svm.antt =====
-- hypervisor/src/hardware_vt/svm.rs: SVM. The MSRs of the processor are a function of their numbers,
-- and VMRUN is left to the environment: `after_run` is `run` from the #VMEXIT on.
pub mod ControlBlock
pub mod Guest
pub mod Exits
use hypervisor_101_in_rust.Prelude.{
  ℕ, suc, ◌+◌, ◌-◌, ◌*◌, ◌/◌, ◌%◌, ◌^◌, ◌<◌, ◌≡◌, refl, sym, ap, subst, ◌∙◌, Bool, not, ◌&&◌, ◌||◌,
  Exec, ok, panic, ◌>>=◌, unwrap, ltb, leb, ◌==◌, if◌then◌else◌, arith, bit_and, bit_or, update,
}
use hypervisor_101_in_rust.Memory.{Memory}
use hypervisor_101_in_rust.Snapshot.{Snapshot, page_address}
use hypervisor_101_in_rust.Snapshot.Metadata.{SnapshotRegisters}
use hypervisor_101_in_rust.HardwareVt.{
  EntryType, rwx, rwx_write_back, rx_write_back, HardwareVt, IsLawful, VmExitReason,
  nested_page_fault, exception, external_interrupt_or_pause, shutdown, unexpected,
  exception_of_vector, GuestRegisters, zero_registers, Msrs, ia32_efer, ia32_pat, exception_bitmap,
}
use hypervisor_101_in_rust.HardwareVt.Entry.{Flags}
use hypervisor_101_in_rust.HardwareVt.Segments.{svm_access_right, get_segment_limit}
use ControlBlock.{Vmcb, ControlArea, StateSaveArea, zero_vmcb}

-- `host_state` is the address of the state-save area.
pub record Svm : Type 0 where
  pub vmcb : Vmcb
  pub host_state : ℕ
  pub registers : GuestRegisters

-- `Svm::new`, given the address of the allocation for the host state.
unfoldable pub new : (host_state : ℕ) → Svm
new host_state = record { vmcb = zero_vmcb; host_state = host_state; registers = zero_registers }

abbrev pub efer_svme : ℕ
efer_svme = 2 ^ 12

abbrev pub cr4_vmxe : ℕ
cr4_vmxe = 2 ^ 13

abbrev pub svm_msr_vm_hsave_pa : ℕ
svm_msr_vm_hsave_pa = 0xc001_0117

unfoldable pub enable : Msrs → Msrs
enable msrs = update msrs ia32_efer (bit_or (msrs ia32_efer) efer_svme)

-- `initialize`: the bits of the intercepts are distinct, and `|` of them is their sum.
unfoldable pub initialize : (nested_pml4_addr : ℕ) → Svm → Msrs → Svm × Msrs
initialize nested_pml4_addr s msrs =
    let control = s.vmcb.control_area in
    (
      record s {
        vmcb = record (s.vmcb) {
          control_area = record control {
            intercept_misc1 = 2 ^ 0 + 2 ^ 23 + 2 ^ 31;
            intercept_misc2 = 2 ^ 0;
            pause_filter_count = 2 ^ 16 - 1;
            guest_asid = 1;
            np_enable = 2 ^ 0;
            ncr3 = nested_pml4_addr;
            intercept_exception = exception_bitmap;
          };
        };
      },
      update msrs svm_msr_vm_hsave_pa s.host_state,
    )

-- The state-save area that `revert_registers` writes; `gdt` is the address of the guest's GDT and
-- `pat` the value of the MSR.
unfoldable pub save_registers :
    (pat : ℕ) → Memory → (gdt : ℕ) → SnapshotRegisters → StateSaveArea → StateSaveArea
save_registers pat mem gdt r area = record area {
  es_selector = r.es;
  cs_selector = r.cs;
  ss_selector = r.ss;
  ds_selector = r.ds;
  fs_selector = r.fs;
  gs_selector = r.gs;
  tr_selector = r.tr;
  ldtr_selector = r.ldtr;
  es_attrib = svm_access_right mem gdt r.es;
  cs_attrib = svm_access_right mem gdt r.cs;
  ss_attrib = svm_access_right mem gdt r.ss;
  ds_attrib = svm_access_right mem gdt r.ds;
  fs_attrib = svm_access_right mem gdt r.fs;
  gs_attrib = svm_access_right mem gdt r.gs;
  tr_attrib = svm_access_right mem gdt r.tr;
  ldtr_attrib = svm_access_right mem gdt r.ldtr;
  es_limit = get_segment_limit mem gdt r.es;
  cs_limit = get_segment_limit mem gdt r.cs;
  ss_limit = get_segment_limit mem gdt r.ss;
  ds_limit = get_segment_limit mem gdt r.ds;
  fs_limit = get_segment_limit mem gdt r.fs;
  gs_limit = get_segment_limit mem gdt r.gs;
  tr_limit = get_segment_limit mem gdt r.tr;
  ldtr_limit = get_segment_limit mem gdt r.ldtr;
  fs_base = r.fs_base;
  gs_base = r.gs_base;
  tr_base = r.tr_base;
  ldtr_base = r.ldtr_base;
  gdtr_base = r.gdtr.base;
  gdtr_limit = r.gdtr.limit;
  idtr_base = r.idtr.base;
  idtr_limit = r.idtr.limit;
  sysenter_cs = r.sysenter_cs;
  sysenter_esp = r.sysenter_esp;
  sysenter_eip = r.sysenter_eip;
  efer = bit_or r.efer efer_svme;
  cr0 = r.cr0;
  cr3 = r.cr3;
  cr4 = bit_and r.cr4 (2 ^ 64 - 1 - cr4_vmxe);
  rip = r.rip;
  rsp = r.rsp;
  rflags = r.rflags;
  rax = r.rax;
  gpat = pat;
}

-- `revert_registers` on the address of the guest's GDT.
unfoldable pub load_snapshot : (pat : ℕ) → Memory → (gdt : ℕ) → SnapshotRegisters → Svm → Svm
unfolding save_registers
load_snapshot pat mem gdt r s = record s {
  vmcb = record (s.vmcb) { state_save_area = save_registers pat mem gdt r s.vmcb.state_save_area };
  registers = record (s.registers) {
    rbx = r.rbx;
    rcx = r.rcx;
    rdx = r.rdx;
    rdi = r.rdi;
    rsi = r.rsi;
    rbp = r.rbp;
    r8 = r.r8;
    r9 = r.r9;
    r10 = r.r10;
    r11 = r.r11;
    r12 = r.r12;
    r13 = r.r13;
    r14 = r.r14;
    r15 = r.r15;
  };
}

-- `revert_registers`, which indexes the slice of the snapshot's pages.
unfoldable pub revert_registers : Msrs → Svm → Snapshot → Memory → Exec Svm
unfolding load_snapshot
revert_registers msrs s snapshot mem =
    let r = snapshot.registers in
    let gdt_pfn = r.gdtr.base / 2 ^ 12 in
    if ltb gdt_pfn snapshot.page_count
    then ok (load_snapshot (msrs ia32_pat) mem (page_address snapshot gdt_pfn) r s)
    else panic

unfoldable pub adjust_registers : Svm → (input_addr input_size : ℕ) → Svm
adjust_registers s input_addr input_size = record s {
  registers = record (s.registers) { rdi = input_addr; rsi = input_size };
}

unfoldable pub invalidate_caches : Svm → Svm
invalidate_caches s = record s {
  vmcb = record (s.vmcb) { control_area = record (s.vmcb.control_area) { tlb_control = 3 } };
}

-- `run` between the #VMEXIT and the `match`.
unfoldable pub copy_registers : Svm → Svm
copy_registers s =
    let area = s.vmcb.state_save_area in
    record s {
      vmcb = record (s.vmcb) { control_area = record (s.vmcb.control_area) { tlb_control = 0 } };
      registers = record (s.registers) {
        rax = area.rax;
        rip = area.rip;
        rsp = area.rsp;
        rflags = area.rflags;
      };
    }

-- The `match` of `run`
unfoldable pub exit_reason : Svm → Exec VmExitReason
exit_reason s =
    let x = s.vmcb.control_area in
    if leb 0x40 x.exit_code && leb x.exit_code 0x5f
    then (unwrap (exception_of_vector ((x.exit_code - 0x40) % 2 ^ 8)) >>= λ code.
        ok (exception (record { rip = s.registers.rip; exception_code = code })))
    else if x.exit_code == 0x400
    then ok (
        nested_page_fault (record {
          rip = s.registers.rip;
          gpa = x.exit_info2;
          missing_translation = x.exit_info1 % 2 == 0;
          write_access = not (x.exit_info1 / 2 % 2 == 0);
        }))
    else if x.exit_code == 0x60 || x.exit_code == 0x77
    then ok external_interrupt_or_pause
    else if x.exit_code == 0x7f
    then ok (shutdown x.exit_code)
    else ok (unexpected x.exit_code)

-- `run` on the state that VMRUN leaves.
unfoldable pub after_run : Svm → Exec (Svm × VmExitReason)
unfolding copy_registers exit_reason
after_run s = do let s' = copy_registers s; reason ← exit_reason s'; ok (s', reason)

-- `nps_entry_flags`
unfoldable pub nps_entry_flags : EntryType → Flags
nps_entry_flags rwx = record { permission = 7; memory_type = 0 }
nps_entry_flags rwx_write_back = record { permission = 7; memory_type = 0 }
nps_entry_flags rx_write_back = record { permission = 5; memory_type = 0 }

-- `impl HardwareVt for Svm`, on a processor with these MSRs.
abbrev pub hardware_vt : Msrs → HardwareVt Svm
hardware_vt msrs = record {
  nps_entry_flags = λ s type. nps_entry_flags type;
  invalidate_caches = λ s. ok (invalidate_caches s);
  revert_registers = revert_registers msrs;
  adjust_registers = λ s input_addr input_size. ok (adjust_registers s input_addr input_size);
}

-- SVM is an implementation that `Vm` can rely on: its flags depend on the type alone, and make final
-- entries readable and executable, and writable if the type says so.
pub svm-IsLawful : (msrs : Msrs) → IsLawful (hardware_vt msrs)
unfolding nps_entry_flags
svm-IsLawful msrs = record {
  stateless = λ s t type. refl;
  writable = λ s. refl;
  read_only = λ s. refl;
  type_fits = λ s type. fits type;
}
  where
    fits : (type : EntryType) → (nps_entry_flags type).memory_type < 8
    fits rwx = omega arith
    fits rwx_write_back = omega arith
    fits rx_write_back = omega arith
