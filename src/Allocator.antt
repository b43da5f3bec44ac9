-- ===== src/Allocator.antt =====
-- hypervisor/src/allocator.rs: the global allocator on the UEFI boot services.
--
-- The boot services are a parameter. Of memory, the words that hold pointers are kept, by address.
pub mod Blocks
mod Tests
use hypervisor_101_in_rust.Prelude.{
  ℕ, ◌+◌, ◌-◌, ◌*◌, ◌%◌, ◌^◌, ◌≤◌, ◌<◌, ◌≡◌, ◌≢◌, Option, none, some, Exec, ok, panic, ◌>>=◌, ltb,
  ◌==◌, if◌then◌else◌, update, wrapping_add,
}
use hypervisor_101_in_rust.Memory.{page_size, size_to_pages}

-- `core::alloc::Layout`
pub record Layout : Type 0 where
  pub size : ℕ
  pub align : ℕ

-- The boot services that are called, on a state `S` of theirs.
pub record BootServices (S : Type 0) : Type 0 where
  pub allocate_pages : S → (count : ℕ) → S × Option ℕ
  pub allocate_pool : S → (size : ℕ) → S × Option ℕ
  pub free_pages : S → (address count : ℕ) → Exec S
  pub free_pool : S → (address : ℕ) → Exec S

pub record Heap (S : Type 0) : Type 0 where
  pub services : S
  pub words : ℕ → ℕ

-- `align_offset` of a `*mut u8`
abbrev pub align_offset : (ptr align : ℕ) → ℕ
align_offset ptr align = (align - ptr % align) % align

-- What is added to the address of an allocation that is larger by the alignment.
unfoldable pub offset_of : (ptr align : ℕ) → ℕ
offset_of ptr align = if align_offset ptr align == 0 then align else align_offset ptr align

abbrev pub or_null : Option ℕ → ℕ
or_null none = 0
or_null (some ptr) = ptr

module _ {S : Type 0} (bs : BootServices S) where
  -- The rest of the branch of `alloc` that allocates more space, on what `allocate_pool` returns.
  abbrev pub align_up : Layout → Heap S → S × Option ℕ → Heap S × ℕ
  align_up layout h (s, none) = (record h { services = s }, 0)
  align_up layout h (s, some ptr) =
      let return_ptr = ptr + offset_of ptr layout.align in
      (record { services = s; words = update h.words (return_ptr - 8) ptr }, return_ptr)

  -- `alloc`; 0 is the null pointer.
  unfoldable pub alloc : Layout → Heap S → Heap S × ℕ
  alloc layout h =
      if layout.align % 0x1000 == 0
      then (let (s, ptr) = bs.allocate_pages h.services (size_to_pages layout.size) in
          (record h { services = s }, or_null ptr))
      else if ltb 8 layout.align
      then align_up layout h (bs.allocate_pool h.services (wrapping_add layout.size layout.align))
      else (let (s, ptr) = bs.allocate_pool h.services layout.size in
          (record h { services = s }, or_null ptr))

  -- `dealloc`
  unfoldable pub dealloc : (ptr : ℕ) → Layout → Heap S → Exec (Heap S)
  dealloc ptr layout h = do
    s ←
        if layout.align % 0x1000 == 0
        then bs.free_pages h.services ptr (size_to_pages layout.size)
        else if ltb 8 layout.align
        then bs.free_pool h.services (h.words (ptr - 8))
        else bs.free_pool h.services ptr
    ok (record h { services = s })

-- What the UEFI specification says of the boot services, where `pages` and `pool` give the size of
-- the allocation at an address.
pub record IsUefi {S : Type 0} (bs : BootServices S) : Type 0 where
  pub pages : S → ℕ → Option ℕ
  pub pool : S → ℕ → Option ℕ
  pub page_aligned :
      {s s' : S} {count ptr : ℕ} → bs.allocate_pages s count ≡ (s', some ptr) → ptr % 0x1000 ≡ 0
  pub pages_taken :
      {s s' : S} {count ptr : ℕ}
      → bs.allocate_pages s count ≡ (s', some ptr)
      → pages s' ptr ≡ some count
  pub pool_aligned :
      {s s' : S} {size ptr : ℕ} → bs.allocate_pool s size ≡ (s', some ptr) → ptr % 8 ≡ 0
  pub pool_taken :
      {s s' : S} {size ptr : ℕ} → bs.allocate_pool s size ≡ (s', some ptr) → pool s' ptr ≡ some size
  pub pages_freed :
      (s : S) (ptr count : ℕ)
      → pages s ptr ≡ some count
      → (s' : S) × (bs.free_pages s ptr count ≡ ok s') × (pages s' ptr ≡ none)
  pub pool_freed :
      (s : S) (ptr size : ℕ)
      → pool s ptr ≡ some size
      → (s' : S) × (bs.free_pool s ptr ≡ ok s') × (pool s' ptr ≡ none)
