-- ===== src/HardwareVt/Svm/Guest.antt =====
-- hypervisor/src/hardware_vt/svm.rs: the registers that the guest starts an iteration with.
use hypervisor_101_in_rust.Prelude.{
  ℕ, ◌-◌, ◌/◌, ◌^◌, ◌≤◌, ◌≡◌, ◌⊎◌, refl, inl, inr, arith, ok, panic, ltb, Bool-cases, bit_and,
  bit_or,
}
use hypervisor_101_in_rust.Memory.{Memory}
use hypervisor_101_in_rust.Snapshot.{Snapshot, page_address}
use hypervisor_101_in_rust.Snapshot.Metadata.{SnapshotRegisters}
use hypervisor_101_in_rust.HardwareVt.{Msrs, ia32_pat}
use hypervisor_101_in_rust.HardwareVt.Svm.{
  Svm, efer_svme, cr4_vmxe, save_registers, load_snapshot, revert_registers, adjust_registers,
}

-- The registers of the guest, as a snapshot captures them.
unfoldable pub captured : Svm → SnapshotRegisters
captured s =
    let a = s.vmcb.state_save_area in
    record {
      gdtr = record { limit = a.gdtr_limit; base = a.gdtr_base };
      idtr = record { limit = a.idtr_limit; base = a.idtr_base };
      es = a.es_selector;
      cs = a.cs_selector;
      ss = a.ss_selector;
      ds = a.ds_selector;
      fs = a.fs_selector;
      gs = a.gs_selector;
      ldtr = a.ldtr_selector;
      tr = a.tr_selector;
      efer = a.efer;
      sysenter_cs = a.sysenter_cs;
      cr0 = a.cr0;
      cr3 = a.cr3;
      cr4 = a.cr4;
      fs_base = a.fs_base;
      gs_base = a.gs_base;
      ldtr_base = a.ldtr_base;
      tr_base = a.tr_base;
      rsp = a.rsp;
      rip = a.rip;
      rflags = a.rflags;
      sysenter_esp = a.sysenter_esp;
      sysenter_eip = a.sysenter_eip;
      rax = a.rax;
      rbx = s.registers.rbx;
      rcx = s.registers.rcx;
      rdx = s.registers.rdx;
      rdi = s.registers.rdi;
      rsi = s.registers.rsi;
      rbp = s.registers.rbp;
      r8 = s.registers.r8;
      r9 = s.registers.r9;
      r10 = s.registers.r10;
      r11 = s.registers.r11;
      r12 = s.registers.r12;
      r13 = s.registers.r13;
      r14 = s.registers.r14;
      r15 = s.registers.r15;
    }

-- Those of the snapshot, with SVM enabled, without the bit of CR4 that does not exist on AMD, and with
-- the input in RDI and RSI.
abbrev pub started : SnapshotRegisters → (input_addr input_size : ℕ) → SnapshotRegisters
started r input_addr input_size = record r {
  efer = bit_or r.efer efer_svme;
  cr4 = bit_and r.cr4 (2 ^ 64 - 1 - cr4_vmxe);
  rdi = input_addr;
  rsi = input_size;
}

-- Whatever the guest has done to its registers, it starts the next iteration with all those that the
-- snapshot captured, but for the two bits that AMD demands and the address and size of the input;
-- what is intercepted stays as it is. Only a GDT outside of the snapshot makes this panic.
pub svm_revert-captured :
    (msrs : Msrs) (s : Svm) (snapshot : Snapshot) (mem : Memory) (input_addr input_size : ℕ)
    → ((s' : Svm) × (revert_registers msrs s snapshot mem ≡ ok s')
        × (captured (adjust_registers s' input_addr input_size)
            ≡ started snapshot.registers input_addr input_size)
        × ((adjust_registers s' input_addr input_size).vmcb.control_area ≡ s.vmcb.control_area))
      ⊎ ((revert_registers msrs s snapshot mem ≡ panic)
          × (snapshot.page_count ≤ snapshot.registers.gdtr.base / 2 ^ 12))
unfolding captured load_snapshot revert_registers save_registers adjust_registers
svm_revert-captured msrs s snapshot mem input_addr input_size =
    let gdt = page_address snapshot (snapshot.registers.gdtr.base / 2 ^ 12) in
    elim (Bool-cases (ltb (snapshot.registers.gdtr.base / 2 ^ 12) snapshot.page_count)) [
      | inl fits ↦
          inl (load_snapshot (msrs ia32_pat) mem gdt snapshot.registers s, rw fits refl, refl, refl)
      | inr out ↦ inr (rw out refl, ground arith)
    ]
