-- ===== src/HardwareVt/Vmx/GuestState.antt =====
-- hypervisor/src/hardware_vt/vmx.rs: the guest-state area of the VMCS as the snapshot has it.
use hypervisor_101_in_rust.Prelude.{ℕ, ◌-◌, ◌/◌, ◌^◌, Option, none, some}
use hypervisor_101_in_rust.Config.{guest_exec_timeout_in_tsc}
use hypervisor_101_in_rust.Memory.{Memory}
use hypervisor_101_in_rust.Snapshot.Metadata.{SnapshotRegisters}
use hypervisor_101_in_rust.HardwareVt.Segments.{vmx_access_right, get_segment_limit}
use hypervisor_101_in_rust.HardwareVt.Vmx.Vmcs.{GuestFields}

-- The VMX-preemption timer is written only if it is supported.
abbrev pub timer_value : Option ℕ → (old : ℕ) → ℕ
timer_value none old = old
timer_value (some scale) old = guest_exec_timeout_in_tsc / scale

-- The guest-state fields that `revert_registers` writes.
unfoldable pub guest_fields :
    Memory → (gdt : ℕ) → SnapshotRegisters → Option ℕ → GuestFields → GuestFields
guest_fields mem gdt r timer_scale old = record {
  es_selector = r.es;
  cs_selector = r.cs;
  ss_selector = r.ss;
  ds_selector = r.ds;
  fs_selector = r.fs;
  gs_selector = r.gs;
  tr_selector = r.tr;
  ldtr_selector = r.ldtr;
  es_access_rights = vmx_access_right mem gdt r.es;
  cs_access_rights = vmx_access_right mem gdt r.cs;
  ss_access_rights = vmx_access_right mem gdt r.ss;
  ds_access_rights = vmx_access_right mem gdt r.ds;
  fs_access_rights = vmx_access_right mem gdt r.fs;
  gs_access_rights = vmx_access_right mem gdt r.gs;
  tr_access_rights = vmx_access_right mem gdt r.tr;
  ldtr_access_rights = vmx_access_right mem gdt r.ldtr;
  es_limit = get_segment_limit mem gdt r.es;
  cs_limit = get_segment_limit mem gdt r.cs;
  ss_limit = get_segment_limit mem gdt r.ss;
  ds_limit = get_segment_limit mem gdt r.ds;
  fs_limit = get_segment_limit mem gdt r.fs;
  gs_limit = get_segment_limit mem gdt r.gs;
  tr_limit = get_segment_limit mem gdt r.tr;
  ldtr_limit = get_segment_limit mem gdt r.ldtr;
  fs_base = r.fs_base;
  gs_base = r.gs_base;
  tr_base = r.tr_base;
  ldtr_base = r.ldtr_base;
  gdtr_base = r.gdtr.base;
  gdtr_limit = r.gdtr.limit;
  idtr_base = r.idtr.base;
  idtr_limit = r.idtr.limit;
  ia32_sysenter_cs = r.sysenter_cs;
  ia32_sysenter_esp = r.sysenter_esp;
  ia32_sysenter_eip = r.sysenter_eip;
  ia32_efer = r.efer;
  cr0 = r.cr0;
  cr3 = r.cr3;
  cr4 = r.cr4;
  rip = r.rip;
  rsp = r.rsp;
  rflags = r.rflags;
  link_ptr = 2 ^ 64 - 1;
  vmx_preemption_timer_value = timer_value timer_scale old.vmx_preemption_timer_value;
}
