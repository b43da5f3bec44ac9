-- ===== src/HardwareVt/Vmx/Guest.antt =====
-- hypervisor/src/hardware_vt/vmx.rs: the registers that the guest starts an iteration with, and the
-- time that it may run.
use hypervisor_101_in_rust.Prelude.{
  ℕ, ◌/◌, ◌^◌, ◌≤◌, ◌≡◌, ◌⊎◌, refl, inl, inr, arith, ok, panic, ltb, Bool-cases,
}
use hypervisor_101_in_rust.Memory.{Memory}
use hypervisor_101_in_rust.Snapshot.{Snapshot, page_address}
use hypervisor_101_in_rust.Snapshot.Metadata.{SnapshotRegisters}
use hypervisor_101_in_rust.HardwareVt.Vmx.{
  Vmx, guest_fields, load_snapshot, revert_registers, adjust_registers, timer_value,
}

-- The registers of the guest, as a snapshot captures them.
unfoldable pub captured : Vmx → SnapshotRegisters
captured s =
    let f = s.vmcs.guest in
    record {
      gdtr = record { limit = f.gdtr_limit; base = f.gdtr_base };
      idtr = record { limit = f.idtr_limit; base = f.idtr_base };
      es = f.es_selector;
      cs = f.cs_selector;
      ss = f.ss_selector;
      ds = f.ds_selector;
      fs = f.fs_selector;
      gs = f.gs_selector;
      ldtr = f.ldtr_selector;
      tr = f.tr_selector;
      efer = f.ia32_efer;
      sysenter_cs = f.ia32_sysenter_cs;
      sysenter_esp = f.ia32_sysenter_esp;
      sysenter_eip = f.ia32_sysenter_eip;
      cr0 = f.cr0;
      cr3 = f.cr3;
      cr4 = f.cr4;
      fs_base = f.fs_base;
      gs_base = f.gs_base;
      ldtr_base = f.ldtr_base;
      tr_base = f.tr_base;
      rsp = f.rsp;
      rip = f.rip;
      rflags = f.rflags;
      rax = s.registers.rax;
      rbx = s.registers.rbx;
      rcx = s.registers.rcx;
      rdx = s.registers.rdx;
      rdi = s.registers.rdi;
      rsi = s.registers.rsi;
      rbp = s.registers.rbp;
      r8 = s.registers.r8;
      r9 = s.registers.r9;
      r10 = s.registers.r10;
      r11 = s.registers.r11;
      r12 = s.registers.r12;
      r13 = s.registers.r13;
      r14 = s.registers.r14;
      r15 = s.registers.r15;
    }

abbrev pub with_input : SnapshotRegisters → (input_addr input_size : ℕ) → SnapshotRegisters
with_input r input_addr input_size = record r { rdi = input_addr; rsi = input_size }

-- Whatever the guest has done to its registers, it starts the next iteration with all those that the
-- snapshot captured, but for the address and the size of the input; the controls and the host's
-- fields stay as they are, and the timer is set again. Only a GDT outside of the snapshot makes this
-- panic.
pub vmx_revert-captured :
    (s : Vmx) (snapshot : Snapshot) (mem : Memory) (input_addr input_size : ℕ)
    → ((s' : Vmx) × (revert_registers s snapshot mem ≡ ok s')
        × (captured (adjust_registers s' input_addr input_size)
            ≡ with_input snapshot.registers input_addr input_size)
        × (s'.vmcs.control ≡ s.vmcs.control)
        × (s'.vmcs.host ≡ s.vmcs.host)
        × (s'.vmcs.guest.vmx_preemption_timer_value
            ≡ timer_value s.timer_scale s.vmcs.guest.vmx_preemption_timer_value))
      ⊎ ((revert_registers s snapshot mem ≡ panic)
          × (snapshot.page_count ≤ snapshot.registers.gdtr.base / 2 ^ 12))
unfolding captured load_snapshot revert_registers guest_fields adjust_registers
vmx_revert-captured s snapshot mem input_addr input_size =
    let gdt = page_address snapshot (snapshot.registers.gdtr.base / 2 ^ 12) in
    elim (Bool-cases (ltb (snapshot.registers.gdtr.base / 2 ^ 12) snapshot.page_count)) [
      | inl fits ↦
          inl (load_snapshot mem gdt snapshot.registers s, rw fits refl, refl, refl, refl, refl)
      | inr out ↦ inr (rw out refl, ground arith)
    ]
