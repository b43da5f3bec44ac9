-- ===== src/HardwareVt/Segments.antt =====
-- hypervisor/src/hardware_vt/mod.rs, svm.rs and vmx.rs: segment descriptors in the guest's GDT. Masks
-- and shifts are remainders, quotients and products, and `|` of disjoint bits is a sum.
use hypervisor_101_in_rust.Prelude.{
  ℕ, zero, suc, ◌+◌, ◌-◌, ◌*◌, ◌/◌, ◌%◌, ◌^◌, ◌<◌, ◌≡◌, refl, Bool, true, false, inl, inr, ◌&&◌,
  arith, Bool-cases, ◌==◌, if◌then◌else◌,
}
use hypervisor_101_in_rust.Memory.{page_size, Memory}

abbrev byte_at : Memory → (address : ℕ) → ℕ
byte_at mem address = mem (address - address % page_size) (address % page_size)

-- The number that the `n` bytes from an address on spell, the lowest first.
unfoldable pub read_number : (n : ℕ) → Memory → (address : ℕ) → ℕ
read_number zero mem address = 0
read_number (suc n) mem address = byte_at mem address + 2 ^ 8 * read_number n mem (address + 1)

-- `SegmentSelector::index`
abbrev index : (selector : ℕ) → ℕ
index selector = selector / 2 ^ 3

unfoldable pub get_segment_descriptor_value : Memory → (table_base selector : ℕ) → ℕ
unfolding read_number
get_segment_descriptor_value mem table_base selector =
    read_number 8 mem ((table_base + index selector * 8) % 2 ^ 64)

abbrev pub is_null : (selector : ℕ) → Bool
is_null selector = index selector == 0 && selector / 2 ^ 2 == 0

-- `get_segment_limit` from the value of the descriptor on.
unfoldable pub limit_of_descriptor : ℕ → ℕ
limit_of_descriptor d =
    let limit = d % 2 ^ 16 + d / 2 ^ (32 + 16) % 2 ^ 4 * 2 ^ 16 in
    (if d / 2 ^ (32 + 23) % 2 == 0 then limit else (limit + 1) * 2 ^ 12 - 1) % 2 ^ 32

unfoldable pub get_segment_limit : Memory → (table_base selector : ℕ) → ℕ
unfolding limit_of_descriptor
get_segment_limit mem table_base selector =
    if is_null selector
    then 0
    else limit_of_descriptor (get_segment_descriptor_value mem table_base selector)

-- `get_segment_access_right` of svm.rs: the bits of the limit are cut out of the access rights.
unfoldable pub svm_access_right : Memory → (table_base selector : ℕ) → ℕ
svm_access_right mem table_base selector =
    let ar = get_segment_descriptor_value mem table_base selector / 2 ^ 40 % 2 ^ 16 in
    ar % 2 ^ 8 + ar / 2 ^ 4 / 2 ^ 8 % 2 ^ 4 * 2 ^ 8

-- `get_segment_access_right` of vmx.rs: the bits of the limit are cleared.
unfoldable pub vmx_access_right : Memory → (table_base selector : ℕ) → ℕ
vmx_access_right mem table_base selector =
    if is_null selector
    then 2 ^ 16
    else (let value = get_segment_descriptor_value mem table_base selector / 2 ^ 40 in
        value % 2 ^ 8 + value / 2 ^ 12 % 2 ^ 4 * 2 ^ 12)

-- The number of bytes that a descriptor lets a segment have: its limit of 20 bits, plus 1, in bytes
-- or in pages.
pub segment_size : ℕ → ℕ
segment_size d =
    (d % 2 ^ 16 + d / 2 ^ 48 % 2 ^ 4 * 2 ^ 16 + 1) * (if d / 2 ^ 55 % 2 == 0 then 1 else page_size)

-- The limit of a segment is its size less 1, of a null selector 0; the cast to `u32` cuts nothing
-- off.
pub get_segment_limit_lem :
    (mem : Memory) (table_base selector : ℕ)
    → ((is_null selector ≡ true) → get_segment_limit mem table_base selector ≡ 0)
      × ((is_null selector ≡ false)
          → get_segment_limit mem table_base selector + 1
            ≡ segment_size (get_segment_descriptor_value mem table_base selector))
unfolding get_segment_limit limit_of_descriptor segment_size
get_segment_limit_lem mem table_base selector =
    let d = get_segment_descriptor_value mem table_base selector in
    (
      λ h. rw h refl,
      λ h. rw h (elim (Bool-cases (d / 2 ^ 55 % 2 == 0)) [
        | inl y ↦ rw y (omega arith)
        | inr n ↦ rw n (omega arith)
      ]),
    )

-- Both vendors get the same access rights of a segment, at different places: the low byte at bit 0,
-- and the four flags above the limit at bit 8 on SVM and at bit 12 on VMX.
pub access_right-agree :
    (mem : Memory) (table_base selector : ℕ)
    → is_null selector ≡ false
    → let svm = svm_access_right mem table_base selector in
      let vmx = vmx_access_right mem table_base selector in
      (svm % 2 ^ 8 ≡ vmx % 2 ^ 8)
      × (svm / 2 ^ 8 ≡ vmx / 2 ^ 12)
      × (vmx / 2 ^ 8 % 2 ^ 4 ≡ 0)
      × (svm < 2 ^ 12)
unfolding svm_access_right vmx_access_right
access_right-agree mem table_base selector h =
    rw h (omega arith, omega arith, omega arith, omega arith)
