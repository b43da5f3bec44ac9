-- ===== src/HardwareVt/Entry.antt =====
-- hypervisor/src/hardware_vt/mod.rs: `NestedPagingStructureEntry`, a 64-bit word. Its fields are
-- the bit ranges that the `bitfield!` declaration names: permission 2:0, memory type 5:3,
-- flags 11:6, page frame number 58:12, flags 63:59.
pub mod Laws
use hypervisor_101_in_rust.Prelude.{
  ℕ, ◌+◌, ◌-◌, ◌*◌, ◌/◌, ◌%◌, ◌^◌, Exec, ok, panic, ◌==◌, if◌then◌else◌,
}

-- `NestedPagingStructureEntryFlags`
pub record Flags : Type 0 where
  pub permission : ℕ
  pub memory_type : ℕ

abbrev pub Entry : Type 0
Entry = ℕ

abbrev pub permission : Entry → ℕ
permission e = e % 2 ^ 3

abbrev pub memory_type : Entry → ℕ
memory_type e = e / 2 ^ 3 % 2 ^ 3

abbrev pub flags1 : Entry → ℕ
flags1 e = e / 2 ^ 6 % 2 ^ 6

abbrev pub pfn : Entry → ℕ
pfn e = e / 2 ^ 12 % 2 ^ 47

abbrev pub flags2 : Entry → ℕ
flags2 e = e / 2 ^ 59

abbrev set_permission : Entry → ℕ → Entry
set_permission e v = e - permission e + v % 2 ^ 3

abbrev set_memory_type : Entry → ℕ → Entry
set_memory_type e v = e - memory_type e * 2 ^ 3 + v % 2 ^ 3 * 2 ^ 3

abbrev set_pfn : Entry → ℕ → Entry
set_pfn e v = e - pfn e * 2 ^ 12 + v % 2 ^ 47 * 2 ^ 12

unfoldable pub set_translation : Entry → ℕ → Flags → Entry
set_translation e pa flags =
    set_memory_type (set_permission (set_pfn e (pa / 2 ^ 12)) flags.permission) flags.memory_type

-- The address that an entry holds.
abbrev pub address : Entry → ℕ
address e = pfn e * 2 ^ 12

-- `next_table_mut`: the address of the next structure, after the assertion that it is not null.
unfoldable pub next_table : Entry → Exec ℕ
next_table e = if address e == 0 then panic else ok (address e)
