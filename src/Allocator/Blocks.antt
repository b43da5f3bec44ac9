-- ===== src/Allocator/Blocks.antt =====
-- hypervisor/src/allocator.rs: where allocations lie, and what `dealloc` frees.
mod Alignment
pub use Alignment.{IsLayout}
use Alignment.{
  offset_of-distance, aligned-distance, eighth, distance-room, small_power, small_aligned,
}
use native.Mathlib.Nat.{
  mul-mod_left, mod_self, mod-eq_of_lt, pow-succ', pow-le-pow_right, one-le-pow,
}
use hypervisor_101_in_rust.Prelude.{
  ℕ, zero, suc, ◌+◌, ◌-◌, ◌*◌, ◌/◌, ◌%◌, ◌^◌, ◌≤◌, ◌<◌, ◌≡◌, ◌≢◌, ◌⊎◌, refl, sym, ap, ◌∙◌, true,
  false, inl, inr, Option, none, some, ok, ltb, ◌==◌, if◌then◌else◌, wrapping_add, arith,
  Bool-cases,
}
use hypervisor_101_in_rust.Memory.{size_to_pages}
use hypervisor_101_in_rust.Memory.Laws.{size_to_pages-least}
use hypervisor_101_in_rust.Allocator.{
  Layout, BootServices, Heap, offset_of, or_null, align_up, alloc, dealloc, IsUefi,
}

module _ {S : Type 0} (bs : BootServices S) (uefi : IsUefi bs) where
  -- The address that the boot services know the block at `ptr` by.
  abbrev pub owner : Layout → Heap S → (ptr : ℕ) → ℕ
  owner l h ptr =
      if l.align % 0x1000 == 0 then ptr else if ltb 8 l.align then h.words (ptr - 8) else ptr

  -- The allocation at an address, of the kind that the layout asks for.
  abbrev pub held : Layout → S → (address : ℕ) → Option ℕ
  held l s address = if l.align % 0x1000 == 0 then uefi.pages s address else uefi.pool s address

  -- The size that is allocated, in pages or bytes.
  abbrev pub amount : Layout → ℕ
  amount l =
      if l.align % 0x1000 == 0
      then size_to_pages l.size
      else if ltb 8 l.align
      then l.size + l.align
      else l.size

  abbrev pub bytes : Layout → ℕ
  bytes l = if l.align % 0x1000 == 0 then amount l * 0x1000 else amount l

  -- The block at `ptr` is aligned and lies in the allocation that is recorded for it, behind the word
  -- that holds the owner's address.
  pub record Placed (l : Layout) (h : Heap S) (ptr : ℕ) : Type 0 where
    pub aligned : l.align ≤ 0x1000 → ptr % l.align ≡ 0
    pub taken : held l h.services (owner l h ptr) ≡ some (amount l)
    pub from_owner : owner l h ptr ≤ ptr
    pub behind_word :
        (l.align % 0x1000 == 0) ≡ false → ltb 8 l.align ≡ true → owner l h ptr + 8 ≤ ptr
    pub fits : ptr + l.size ≤ owner l h ptr + bytes l

  pages-Placed :
      (l : Layout) (h : Heap S) (s : S) (ptr : ℕ)
      → IsLayout l
      → (l.align % 0x1000 == 0) ≡ true
      → bs.allocate_pages h.services (size_to_pages l.size) ≡ (s, some ptr)
      → Placed l (record h { services = s }) ptr
  pages-Placed l h s ptr layout paged e = record {
    aligned = λ most.
        let positive = one-le-pow layout.log 2 (omega arith) in
        let multiple : l.align % 0x1000 ≡ 0 = ground arith in
        let exact : l.align ≡ 0x1000 = omega (arith, layout.power) in
        ap (λ a. ptr % a) exact ∙ uefi.page_aligned e;
    taken = rw paged (uefi.pages_taken e);
    from_owner = rw paged (omega arith);
    behind_word = λ pooled large. absurd (cc);
    fits = rw paged (omega (arith, size_to_pages-least l.size));
  }

  pool-Placed :
      (l : Layout) (h : Heap S) (s : S) (ptr : ℕ)
      → IsLayout l
      → (l.align % 0x1000 == 0) ≡ false
      → ltb 8 l.align ≡ false
      → bs.allocate_pool h.services l.size ≡ (s, some ptr)
      → Placed l (record h { services = s }) ptr
  pool-Placed l h s ptr layout pooled small e = record {
    aligned = λ most.
        let few : 2 ^ layout.log ≤ 8 = ground (arith, layout.power) in
        ap (λ a. ptr % a) layout.power
        ∙ small_aligned ptr layout.log (small_power layout.log few) (uefi.pool_aligned e);
    taken = rw (pooled, small) (uefi.pool_taken e);
    from_owner = rw (pooled, small) (omega arith);
    behind_word = λ _ large. absurd (cc);
    fits = rw (pooled, small) (omega arith);
  }

  align_up-Placed :
      (l : Layout) (h : Heap S) (s : S) (base : ℕ)
      → IsLayout l
      → (l.align % 0x1000 == 0) ≡ false
      → ltb 8 l.align ≡ true
      → bs.allocate_pool h.services (l.size + l.align) ≡ (s, some base)
      → let (h', ptr) = align_up bs l h (s, some base) in Placed l h' ptr
  align_up-Placed l h s base layout pooled large e =
      let big : 8 < l.align = ground arith in
      let (c, eight) = eighth layout.log (omega (arith, layout.power)) in
      let distance = offset_of-distance base l.align (omega arith) in
      let room =
        distance-room base l.align c (layout.power ∙ eight) (omega arith) (uefi.pool_aligned e) in
      let (h', ptr) = align_up bs l h (s, some base) in
      let header : h'.words (ptr - 8) ≡ base = ground arith in
      record {
        aligned = λ most.
            ap (λ o. (base + o) % l.align) distance ∙ aligned-distance base l.align (omega arith);
        taken = rw (pooled, large, header) (uefi.pool_taken e);
        from_owner = rw (pooled, large, header) (omega arith);
        behind_word = λ _ _. rw (pooled, large, header) (omega arith);
        fits = rw (pooled, large, header) (omega arith);
      }

  -- A block that `alloc` returns has the alignment and the size of its layout and lies in memory that
  -- the boot services have given for it, or the pointer is null. Alignments above a page are not
  -- covered.
  pub alloc-Placed :
      (l : Layout) (h : Heap S)
      → IsLayout l
      → ((alloc bs l h).1 ≡ 0) ⊎ Placed l (alloc bs l h).0 (alloc bs l h).1
  unfolding alloc
  alloc-Placed l h layout = elim (Bool-cases (l.align % 0x1000 == 0)) [
    | inl paged ↦
        rw paged (by_pages paged (bs.allocate_pages h.services (size_to_pages l.size)) refl)
    | inr pooled ↦ elim (Bool-cases (ltb 8 l.align)) [
      | inl large ↦
          let whole : wrapping_add l.size l.align ≡ l.size + l.align =
            mod-eq_of_lt layout.bounded in
          rw (pooled, large, whole)
            (by_align_up pooled large (bs.allocate_pool h.services (l.size + l.align)) refl)
      | inr small ↦
          rw (pooled, small) (by_pool pooled small (bs.allocate_pool h.services l.size) refl)
    ]
  ]
    where
      by_pages :
          (l.align % 0x1000 == 0) ≡ true
          → (r : S × Option ℕ) → bs.allocate_pages h.services (size_to_pages l.size) ≡ r
          → (or_null r.1 ≡ 0) ⊎ Placed l (record h { services = r.0 }) (or_null r.1)
      by_pages paged (s, none) e = inl refl
      by_pages paged (s, some ptr) e = inr (pages-Placed l h s ptr layout paged e)

      by_pool :
          (l.align % 0x1000 == 0) ≡ false
          → ltb 8 l.align ≡ false
          → (r : S × Option ℕ) → bs.allocate_pool h.services l.size ≡ r
          → (or_null r.1 ≡ 0) ⊎ Placed l (record h { services = r.0 }) (or_null r.1)
      by_pool pooled small (s, none) e = inl refl
      by_pool pooled small (s, some ptr) e = inr (pool-Placed l h s ptr layout pooled small e)

      by_align_up :
          (l.align % 0x1000 == 0) ≡ false
          → ltb 8 l.align ≡ true
          → (r : S × Option ℕ) → bs.allocate_pool h.services (l.size + l.align) ≡ r
          → ((align_up bs l h r).1 ≡ 0) ⊎ Placed l (align_up bs l h r).0 (align_up bs l h r).1
      by_align_up pooled large (s, none) e = inl refl
      by_align_up pooled large (s, some base) e =
          inr (align_up-Placed l h s base layout pooled large e)

  -- The word that holds the owner's address is outside of the block.
  owner-kept :
      (l : Layout) (h h' : Heap S) (ptr : ℕ)
      → Placed l h ptr
      → ((a : ℕ) → (a + 8 ≤ ptr) ⊎ (ptr + l.size ≤ a) → h'.words a ≡ h.words a)
      → owner l h' ptr ≡ owner l h ptr
  owner-kept l h h' ptr placed kept = elim (Bool-cases (l.align % 0x1000 == 0)) [
    | inl paged ↦ rw paged refl
    | inr pooled ↦ elim (Bool-cases (ltb 8 l.align)) [
      | inl large ↦
          let apart = placed.behind_word pooled large in
          rw (pooled, large) (kept (ptr - 8) (inl (omega arith)))
      | inr small ↦ rw (pooled, small) refl
    ]
  ]

  dealloc-frees :
      (l : Layout) (h : Heap S) (ptr : ℕ)
      → held l h.services (owner l h ptr) ≡ some (amount l)
      → (h' : Heap S) × (dealloc bs ptr l h ≡ ok h') × (held l h'.services (owner l h ptr) ≡ none)
  unfolding dealloc
  dealloc-frees l h ptr taken = elim (Bool-cases (l.align % 0x1000 == 0)) [
    | inl paged ↦
        let (s, did, free) =
          uefi.pages_freed h.services ptr (size_to_pages l.size) (rw paged at taken) in
        (record h { services = s }, rw (paged, did) refl, rw paged free)
    | inr pooled ↦ elim (Bool-cases (ltb 8 l.align)) [
      | inl large ↦
          let (s, did, free) =
            uefi.pool_freed h.services (h.words (ptr - 8)) (l.size + l.align)
              (rw (pooled, large) at taken) in
          (record h { services = s }, rw (pooled, large, did) refl, rw (pooled, large) free)
      | inr small ↦
          let (s, did, free) =
            uefi.pool_freed h.services ptr l.size (rw (pooled, small) at taken) in
          (record h { services = s }, rw (pooled, small, did) refl, rw (pooled, small) free)
    ]
  ]

  -- As long as the program writes only to the block that `alloc` has returned, and its allocation has
  -- not been given back, `dealloc` does not panic, and frees the allocation.
  pub dealloc-alloc :
      (l : Layout) (h h' : Heap S)
      → IsLayout l
      → (alloc bs l h).1 ≢ 0
      → ((a : ℕ)
          → (a + 8 ≤ (alloc bs l h).1) ⊎ ((alloc bs l h).1 + l.size ≤ a)
          → h'.words a ≡ (alloc bs l h).0.words a)
      → (let (after, ptr) = alloc bs l h in
          held l h'.services (owner l after ptr) ≡ held l after.services (owner l after ptr))
      → (let (after, ptr) = alloc bs l h in
          (freed : Heap S) × (dealloc bs ptr l h' ≡ ok freed)
          × (held l freed.services (owner l after ptr) ≡ none))
  dealloc-alloc l h h' layout there kept still = elim (alloc-Placed l h layout) [
    | inl null ↦ absurd (there null)
    | inr placed ↦
        let (after, ptr) = alloc bs l h in
        let same = owner-kept l after h' ptr placed kept in
        let (freed, did, free) =
          dealloc-frees l h' ptr (ap (held l h'.services) same ∙ still ∙ placed.taken) in
        (freed, did, ap (held l freed.services) (sym same) ∙ free)
  ]
