-- ===== src/HardwareVt/Vmx/Vmcs.antt =====
-- hypervisor/src/hardware_vt/vmx.rs: the fields of the current VMCS that the program uses, by the
-- groups of `x86::vmx::vmcs`. VMREAD and VMWRITE are the uses and updates of the fields: all fields are
-- ones that the processor supports, and so neither fails.
use hypervisor_101_in_rust.Prelude.{ℕ}

pub record GuestFields : Type 0 where
  pub es_selector : ℕ
  pub cs_selector : ℕ
  pub ss_selector : ℕ
  pub ds_selector : ℕ
  pub fs_selector : ℕ
  pub gs_selector : ℕ
  pub tr_selector : ℕ
  pub ldtr_selector : ℕ
  pub es_access_rights : ℕ
  pub cs_access_rights : ℕ
  pub ss_access_rights : ℕ
  pub ds_access_rights : ℕ
  pub fs_access_rights : ℕ
  pub gs_access_rights : ℕ
  pub tr_access_rights : ℕ
  pub ldtr_access_rights : ℕ
  pub es_limit : ℕ
  pub cs_limit : ℕ
  pub ss_limit : ℕ
  pub ds_limit : ℕ
  pub fs_limit : ℕ
  pub gs_limit : ℕ
  pub tr_limit : ℕ
  pub ldtr_limit : ℕ
  pub fs_base : ℕ
  pub gs_base : ℕ
  pub tr_base : ℕ
  pub ldtr_base : ℕ
  pub gdtr_base : ℕ
  pub gdtr_limit : ℕ
  pub idtr_base : ℕ
  pub idtr_limit : ℕ
  pub ia32_sysenter_cs : ℕ
  pub ia32_sysenter_esp : ℕ
  pub ia32_sysenter_eip : ℕ
  pub ia32_efer : ℕ
  pub cr0 : ℕ
  pub cr3 : ℕ
  pub cr4 : ℕ
  pub rip : ℕ
  pub rsp : ℕ
  pub rflags : ℕ
  pub link_ptr : ℕ
  pub vmx_preemption_timer_value : ℕ

pub record HostFields : Type 0 where
  pub cs_selector : ℕ
  pub tr_selector : ℕ
  pub cr0 : ℕ
  pub cr3 : ℕ
  pub cr4 : ℕ
  pub tr_base : ℕ
  pub gdtr_base : ℕ
  pub idtr_base : ℕ

pub record ControlFields : Type 0 where
  pub vmexit_controls : ℕ
  pub vmentry_controls : ℕ
  pub pinbased_exec_controls : ℕ
  pub primary_procbased_exec_controls : ℕ
  pub secondary_procbased_exec_controls : ℕ
  pub eptp : ℕ
  pub exception_bitmap : ℕ

pub record ReadOnlyFields : Type 0 where
  pub exit_reason : ℕ
  pub vmexit_interruption_info : ℕ
  pub exit_qualification : ℕ
  pub guest_physical_addr : ℕ

pub record Fields : Type 0 where
  pub guest : GuestFields
  pub host : HostFields
  pub control : ControlFields
  pub ro : ReadOnlyFields

-- The fields of a VMCS region that is zero.
abbrev pub zero_fields : Fields
zero_fields = record {
  guest = record {
    es_selector = 0;
    cs_selector = 0;
    ss_selector = 0;
    ds_selector = 0;
    fs_selector = 0;
    gs_selector = 0;
    tr_selector = 0;
    ldtr_selector = 0;
    es_access_rights = 0;
    cs_access_rights = 0;
    ss_access_rights = 0;
    ds_access_rights = 0;
    fs_access_rights = 0;
    gs_access_rights = 0;
    tr_access_rights = 0;
    ldtr_access_rights = 0;
    es_limit = 0;
    cs_limit = 0;
    ss_limit = 0;
    ds_limit = 0;
    fs_limit = 0;
    gs_limit = 0;
    tr_limit = 0;
    ldtr_limit = 0;
    fs_base = 0;
    gs_base = 0;
    tr_base = 0;
    ldtr_base = 0;
    gdtr_base = 0;
    gdtr_limit = 0;
    idtr_base = 0;
    idtr_limit = 0;
    ia32_sysenter_cs = 0;
    ia32_sysenter_esp = 0;
    ia32_sysenter_eip = 0;
    ia32_efer = 0;
    cr0 = 0;
    cr3 = 0;
    cr4 = 0;
    rip = 0;
    rsp = 0;
    rflags = 0;
    link_ptr = 0;
    vmx_preemption_timer_value = 0;
  };
  host = record {
    cs_selector = 0;
    tr_selector = 0;
    cr0 = 0;
    cr3 = 0;
    cr4 = 0;
    tr_base = 0;
    gdtr_base = 0;
    idtr_base = 0;
  };
  control = record {
    vmexit_controls = 0;
    vmentry_controls = 0;
    pinbased_exec_controls = 0;
    primary_procbased_exec_controls = 0;
    secondary_procbased_exec_controls = 0;
    eptp = 0;
    exception_bitmap = 0;
  };
  ro = record {
    exit_reason = 0;
    vmexit_interruption_info = 0;
    exit_qualification = 0;
    guest_physical_addr = 0;
  };
}
