-- ===== src/Snapshot/Metadata.antt =====
-- hypervisor/src/snapshot.rs: the last page of the snapshot file. `transmute` to a `repr(C)` struct is
-- reading its fields at their offsets, the lowest byte first; `DescriptorTablePointer` is packed, a
-- `u16` before a `u64`. The paddings are left out.
use hypervisor_101_in_rust.Prelude.{ℕ, zero, suc, ◌+◌, ◌*◌, ◌^◌, List, [], ◌∷◌, ◌++◌}
use hypervisor_101_in_rust.Memory.{Page}

pub record DescriptorTable : Type 0 where
  pub limit : ℕ
  pub base : ℕ

pub record SnapshotRegisters : Type 0 where
  pub gdtr : DescriptorTable
  pub idtr : DescriptorTable
  pub es : ℕ
  pub cs : ℕ
  pub ss : ℕ
  pub ds : ℕ
  pub fs : ℕ
  pub gs : ℕ
  pub ldtr : ℕ
  pub tr : ℕ
  pub efer : ℕ
  pub sysenter_cs : ℕ
  pub cr0 : ℕ
  pub cr3 : ℕ
  pub cr4 : ℕ
  pub fs_base : ℕ
  pub gs_base : ℕ
  pub ldtr_base : ℕ
  pub tr_base : ℕ
  pub rsp : ℕ
  pub rip : ℕ
  pub rflags : ℕ
  pub sysenter_esp : ℕ
  pub sysenter_eip : ℕ
  pub rax : ℕ
  pub rbx : ℕ
  pub rcx : ℕ
  pub rdx : ℕ
  pub rdi : ℕ
  pub rsi : ℕ
  pub rbp : ℕ
  pub r8 : ℕ
  pub r9 : ℕ
  pub r10 : ℕ
  pub r11 : ℕ
  pub r12 : ℕ
  pub r13 : ℕ
  pub r14 : ℕ
  pub r15 : ℕ

pub record SnapshotMemoryRange : Type 0 where
  pub page_base : ℕ
  pub page_count : ℕ

-- `SnapshotMetadataRaw`
pub record SnapshotMetadata : Type 0 where
  pub magic : ℕ
  pub memory_ranges : List SnapshotMemoryRange
  pub registers : SnapshotRegisters

-- The number that the `n` bytes from an offset on spell.
unfoldable pub number_at : (n : ℕ) → Page → (offset : ℕ) → ℕ
number_at zero page offset = 0
number_at (suc n) page offset = page offset + 2 ^ 8 * number_at n page (offset + 1)

abbrev u16_at : Page → (offset : ℕ) → ℕ
u16_at = number_at 2

abbrev u64_at : Page → (offset : ℕ) → ℕ
u64_at = number_at 8

-- `SNAPSHOT_SIGNATURE`, `MAX_MEMORY_DESCRIPTOR_COUNT`
abbrev pub snapshot_signature : ℕ
snapshot_signature = 0x544F_4853_5041_4E53

abbrev pub max_memory_descriptor_count : ℕ
max_memory_descriptor_count = 47

-- The first `n` elements of the array of memory ranges.
unfoldable pub ranges_at : (n : ℕ) → Page → List SnapshotMemoryRange
unfolding number_at
ranges_at zero page = []
ranges_at (suc n) page =
    ranges_at n page
    ++ (record { page_base = u64_at page (0x10 + 16 * n); page_count = u64_at page (0x18 + 16 * n) }
        ∷ [])

-- The registers stand at 0x300, after the magic value, a padding and the ranges.
unfoldable pub registers_at : Page → (offset : ℕ) → SnapshotRegisters
unfolding number_at
registers_at page at = record {
  gdtr = record { limit = u16_at page at; base = u64_at page (at + 2) };
  idtr = record { limit = u16_at page (at + 0x10); base = u64_at page (at + 0x12) };
  es = u16_at page (at + 0x20);
  cs = u16_at page (at + 0x22);
  ss = u16_at page (at + 0x24);
  ds = u16_at page (at + 0x26);
  fs = u16_at page (at + 0x28);
  gs = u16_at page (at + 0x2a);
  ldtr = u16_at page (at + 0x2c);
  tr = u16_at page (at + 0x2e);
  efer = u64_at page (at + 0x30);
  sysenter_cs = u64_at page (at + 0x38);
  cr0 = u64_at page (at + 0x40);
  cr3 = u64_at page (at + 0x48);
  cr4 = u64_at page (at + 0x50);
  fs_base = u64_at page (at + 0x58);
  gs_base = u64_at page (at + 0x60);
  ldtr_base = u64_at page (at + 0x68);
  tr_base = u64_at page (at + 0x70);
  rsp = u64_at page (at + 0x78);
  rip = u64_at page (at + 0x80);
  rflags = u64_at page (at + 0x88);
  sysenter_esp = u64_at page (at + 0x90);
  sysenter_eip = u64_at page (at + 0x98);
  rax = u64_at page (at + 0xa0);
  rbx = u64_at page (at + 0xa8);
  rcx = u64_at page (at + 0xb0);
  rdx = u64_at page (at + 0xb8);
  rdi = u64_at page (at + 0xc0);
  rsi = u64_at page (at + 0xc8);
  rbp = u64_at page (at + 0xd0);
  r8 = u64_at page (at + 0xd8);
  r9 = u64_at page (at + 0xe0);
  r10 = u64_at page (at + 0xe8);
  r11 = u64_at page (at + 0xf0);
  r12 = u64_at page (at + 0xf8);
  r13 = u64_at page (at + 0x100);
  r14 = u64_at page (at + 0x108);
  r15 = u64_at page (at + 0x110);
}

unfoldable pub metadata_of_page : Page → SnapshotMetadata
unfolding number_at ranges_at registers_at
metadata_of_page page = record {
  magic = u64_at page 0;
  memory_ranges = ranges_at max_memory_descriptor_count page;
  registers = registers_at page 0x300;
}
