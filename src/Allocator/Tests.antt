-- ===== src/Allocator/Tests.antt =====
-- Boot services that give out one page after the other, and a block that is aligned to 16 bytes.
use hypervisor_101_in_rust.Prelude.{
  ℕ, ◌+◌, ◌*◌, ◌%◌, ◌≡◌, ◌≢◌, ◌⊎◌, refl, sym, ap, ◌∙◌, Option, none, some, Exec, ok, panic, update,
  arith,
}
use hypervisor_101_in_rust.Allocator.{
  Layout, BootServices, Heap, IsUefi, alloc, dealloc, offset_of, or_null,
}
use hypervisor_101_in_rust.Allocator.Blocks.{
  IsLayout, owner, held, Placed, alloc-Placed, dealloc-alloc,
}

-- The blocks that are in use, and the number of the next page.
record Blocks : Type 0 where
  next : ℕ
  sizes : ℕ → Option ℕ

abbrev take : Blocks → (size count : ℕ) → Blocks × Option ℕ
take s size count = (
  record { next = s.next + count + 1; sizes = update s.sizes (s.next * 0x1000) (some size) },
  some (s.next * 0x1000),
)

abbrev give_back_if : Option ℕ → Blocks → (address : ℕ) → Exec Blocks
give_back_if (some size) s address = ok (record s { sizes = update s.sizes address none })
give_back_if none s address = panic

abbrev give_back : Blocks → (address : ℕ) → Exec Blocks
give_back s address = give_back_if (s.sizes address) s address

abbrev services : BootServices Blocks
services = record {
  allocate_pages = λ s count. take s count count;
  allocate_pool = λ s size. take s size size;
  free_pages = λ s address count. give_back s address;
  free_pool = λ s address. give_back s address;
}

taken :
    (s s' : Blocks) (size count ptr : ℕ)
    → take s size count ≡ (s', some ptr)
    → (ptr % 0x1000 ≡ 0) × (s'.sizes ptr ≡ some size)
taken s s' size count ptr e =
    let here : s.next * 0x1000 ≡ ptr = ap (λ (r : Blocks × Option ℕ). or_null r.1) e in
    let state = ap (λ (r : Blocks × Option ℕ). r.0.sizes ptr) (sym e) in
    (omega arith, state ∙ ground arith)

freed :
    (s : Blocks) (ptr size : ℕ)
    → s.sizes ptr ≡ some size
    → (s' : Blocks) × (give_back s ptr ≡ ok s') × (s'.sizes ptr ≡ none)
freed s ptr size e = (record s { sizes = update s.sizes ptr none }, rw e refl, ground arith)

services-IsUefi : IsUefi services
services-IsUefi = record {
  pages = λ s. s.sizes;
  pool = λ s. s.sizes;
  page_aligned = λ {s} {s'} {count} {ptr} e. (taken s s' count count ptr e).0;
  pages_taken = λ {s} {s'} {count} {ptr} e. (taken s s' count count ptr e).1;
  pool_aligned = λ {s} {s'} {size} {ptr} e. omega (arith, (taken s s' size size ptr e).0);
  pool_taken = λ {s} {s'} {size} {ptr} e. (taken s s' size size ptr e).1;
  pages_freed = freed;
  pool_freed = freed;
}

abbrev layout : Layout
layout = record { size = 40; align = 16 }

layout-IsLayout : IsLayout layout
layout-IsLayout = record { log = 4; power = refl; bounded = omega arith }

abbrev heap : Heap Blocks
heap = record { services = record { next = 9; sizes = λ a. none }; words = λ a. 0 }

alloc-Placed_example :
    ((alloc services layout heap).1 ≡ 0)
    ⊎ Placed services services-IsUefi layout
        (alloc services layout heap).0
        (alloc services layout heap).1
alloc-Placed_example = alloc-Placed services services-IsUefi layout heap layout-IsLayout

abbrev after : Heap Blocks
after = (alloc services layout heap).0

not_null : (alloc services layout heap).1 ≢ 0
unfolding alloc offset_of
not_null z = absurd (omega arith)

dealloc-alloc_example :
    let (h, ptr) = alloc services layout heap in
    (h' : Heap Blocks) × (dealloc services ptr layout h ≡ ok h')
    × (held services services-IsUefi layout h'.services
          (owner services services-IsUefi layout h ptr)
        ≡ none)
dealloc-alloc_example =
    dealloc-alloc services services-IsUefi layout heap (alloc services layout heap).0
      layout-IsLayout not_null (λ a out. refl) refl
