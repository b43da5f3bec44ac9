-- ===== src/HardwareVt/Entry/Laws.antt =====
-- What `set_translation` writes, and what it leaves alone.
use hypervisor_101_in_rust.Prelude.{ℕ, ◌+◌, ◌*◌, ◌/◌, ◌%◌, ◌^◌, ◌<◌, ◌≡◌, arith}
use hypervisor_101_in_rust.HardwareVt.Entry.{
  Flags, permission, memory_type, flags1, flags2, pfn, set_translation,
}

set_translation_sum :
    (e pa : ℕ) (f : Flags)
    → e < 2 ^ 64
    → set_translation e pa f
      ≡ flags2 e * 2 ^ 59
        + pa / 2 ^ 12 % 2 ^ 47 * 2 ^ 12
        + flags1 e * 2 ^ 6
        + f.memory_type % 2 ^ 3 * 2 ^ 3
        + f.permission % 2 ^ 3
unfolding set_translation
set_translation_sum e pa f h = omega arith

-- `set_translation` sets the frame number, the permission and the memory type to what it is given,
-- cut to the widths of the fields, and keeps all other bits of a 64-bit entry.
pub fields-set_translation :
    (e pa : ℕ) (f : Flags)
    → e < 2 ^ 64
    → (pfn (set_translation e pa f) ≡ pa / 2 ^ 12 % 2 ^ 47)
      × (permission (set_translation e pa f) ≡ f.permission % 2 ^ 3)
      × (memory_type (set_translation e pa f) ≡ f.memory_type % 2 ^ 3)
      × (flags1 (set_translation e pa f) ≡ flags1 e)
      × (flags2 (set_translation e pa f) ≡ flags2 e)
      × (set_translation e pa f < 2 ^ 64)
fields-set_translation e pa f h = omega (arith, set_translation_sum e pa f h)
