-- ===== src/Hypervisor/Contents/Apart.antt =====
-- hypervisor/src/hypervisor.rs: where the pages of the snapshot, the dirty pages and the input data are.
use hypervisor_101_in_rust.Prelude.{
  ℕ, ◌+◌, ◌*◌, ◌/◌, ◌%◌, ◌^◌, ◌≤◌, ◌<◌, ◌≡◌, ◌≢◌, sym, ap, ◌∙◌, true, arith,
}
use hypervisor_101_in_rust.Memory.{page_size}
use hypervisor_101_in_rust.Vm.{Vm, dirty_address}
use hypervisor_101_in_rust.Snapshot.{Snapshot, contains, contains_page, page_address}
use hypervisor_101_in_rust.Snapshot.Intact.{Extended}
use hypervisor_101_in_rust.Mutation.{MutationEngine}
use hypervisor_101_in_rust.Mutation.Pages

-- A frame that the snapshot contains is backed by its page, which has been read.
abbrev pub IsPagedIn : Snapshot → (gpa pa : ℕ) → Type 0
IsPagedIn s gpa pa =
    contains s (gpa / 2 ^ 12) ≡ true
    → (pa ≡ page_address s (gpa / 2 ^ 12)) × (s.read_bitmap (gpa / 2 ^ 12) ≡ true)

pub IsPagedIn-Extended :
    (s s' : Snapshot) → Extended s s' → (gpa pa : ℕ) → IsPagedIn s gpa pa → IsPagedIn s' gpa pa
IsPagedIn-Extended s s' x gpa pa paged y =
    let pfn = gpa / 2 ^ 12 in
    let (at, was_read) = paged (ap (λ r. contains_page r pfn) (sym x.memory_ranges) ∙ y) in
    (at ∙ ap (λ base. base + pfn * page_size) (sym x.memory), x.more pfn was_read)

-- The snapshot is allocated in whole pages that a translation can hold the address of, which are
-- neither dirty pages nor pages of the input data.
pub record IsApart {V : Type 0} (s : Snapshot) (vm : Vm V) (e : MutationEngine) : Type 0 where
  pub aligned : s.memory % page_size ≡ 0
  pub fits : s.memory + s.page_count * page_size ≤ 2 ^ 52
  pub from_dirty :
      (pfn k : ℕ)
      → pfn < s.page_count
      → k < vm.dirty_page_count
      → page_address s pfn ≢ dirty_address vm k
  pub from_input :
      (pfn i : ℕ)
      → pfn < s.page_count
      → i < e.input_page_count
      → page_address s pfn ≢ Pages.page_address e.input_pages i

-- That depends on where they are, and how many pages they have.
pub IsApart-moved :
    {V : Type 0} (s s' : Snapshot) (vm vm' : Vm V) (e e' : MutationEngine)
    → (s'.memory ≡ s.memory) × (s'.page_count ≡ s.page_count)
    → (vm'.dirty_pages ≡ vm.dirty_pages) × (vm'.dirty_page_count ≡ vm.dirty_page_count)
    → (e'.input_pages ≡ e.input_pages) × (e'.input_page_count ≡ e.input_page_count)
    → IsApart s vm e
    → IsApart s' vm' e'
IsApart-moved s s' vm vm' e e' (sm, sc) (dm, dc) (im, ic) apart = record {
  aligned = ap (λ a. a % page_size) sm ∙ apart.aligned;
  fits = omega (arith, apart.fits);
  from_dirty = λ pfn k l l' same. apart.from_dirty pfn k (omega arith) (omega arith) (omega arith);
  from_input = λ pfn i l l' same. apart.from_input pfn i (omega arith) (omega arith) (omega arith);
}
