-- ===== src/HardwareVt/Vmx/HostGdt.antt =====
-- hypervisor/src/hardware_vt/vmx.rs: `HostGdt`, a copy of the current GDT with a descriptor for a TSS.
use hypervisor_101_in_rust.Prelude.{
  ℕ, zero, suc, ◌+◌, ◌-◌, ◌*◌, ◌/◌, ◌%◌, ◌^◌, ◌≤◌, ◌<◌, ◌≡◌, ◌≢◌, refl, sym, ap, ◌∙◌, arith, some,
  List, [], ◌∷◌, ◌++◌, Exec, ok, panic, ltb, lt→ltb, if◌then◌else◌, length, inl, inr, true,
  get_elem?, length-append,
}
use hypervisor_101_in_rust.Prelude.Bits.{lt-cases}

-- `HostGdt`: `tss` is the address of the TSS, `gdtr_base` that of the vector.
pub record Tables : Type 0 where
  pub gdt : List ℕ
  pub gdtr_base : ℕ
  pub gdtr_limit : ℕ
  pub tss : ℕ
  pub tr : ℕ
  pub cs : ℕ

-- `HostGdt::default`
abbrev pub no_tables : (tss : ℕ) → Tables
no_tables tss = record { gdt = []; gdtr_base = 0; gdtr_limit = 0; tss = tss; tr = 0; cs = 0 }

-- What is read of the processor: the limit of the current GDT and its elements, CS, the address that
-- the allocator gives the new vector, and the descriptor that `task_segment_descriptor` builds with
-- the crate x86.
pub record Current : Type 0 where
  pub limit : ℕ
  pub element : ℕ → ℕ
  pub cs : ℕ
  pub allocated : ℕ
  pub tss_descriptor : ℕ

-- `from_raw_parts(...).to_vec()`: the first `n` elements.
unfoldable pub elements : (ℕ → ℕ) → (n : ℕ) → List ℕ
elements element zero = []
elements element (suc n) = elements element n ++ (element n ∷ [])

-- `SegmentSelector::new` on ring 0 is a shift by 3 bits.
unfoldable pub initialize_from_current : Current → Tables → Exec Tables
unfolding elements
initialize_from_current c t =
    let gdt = elements c.element ((c.limit + 1) % 2 ^ 16 / 8) ++ (c.tss_descriptor ∷ []) in
    if ltb (length gdt * 8 - 1) (2 ^ 16)
    then ok (record t {
      gdt = gdt;
      gdtr_base = c.allocated;
      gdtr_limit = length gdt * 8 - 1;
      tr = (length gdt % 2 ^ 16 - 1) * 2 ^ 3 % 2 ^ 16;
      cs = c.cs;
    })
    else panic

length-elements : (element : ℕ → ℕ) (n : ℕ) → length (elements element n) ≡ n
unfolding elements
length-elements element zero = refl
length-elements element (suc n) =
    omega (arith, length-append (elements element n) (element n ∷ []), length-elements element n)

get-append : (xs ys : List ℕ) (i : ℕ) → i < length xs → get_elem? (xs ++ ys) i ≡ get_elem? xs i
get-append [] ys i h = absurd (omega arith)
get-append (x ∷ xs) ys zero h = refl
get-append (x ∷ xs) ys (suc i) h = get-append xs ys i (omega arith)

get-last : (xs : List ℕ) (y : ℕ) → get_elem? (xs ++ (y ∷ [])) (length xs) ≡ some y
get-last [] y = refl
get-last (x ∷ xs) y = get-last xs y

get-elements :
    (element : ℕ → ℕ) (n i : ℕ) → i < n → get_elem? (elements element n) i ≡ some (element i)
unfolding elements
get-elements element zero i h = absurd (omega arith)
get-elements element (suc n) i h = elim (lt-cases i n h) [
  | inl before ↦
      get-append (elements element n) (element n ∷ []) i (omega (arith, length-elements element n))
      ∙ get-elements element n i before
  | inr there ↦
      let here : i ≡ length (elements element n) = omega (arith, length-elements element n) in
      ap (get_elem? (elements element n ++ (element n ∷ []))) here
      ∙ get-last (elements element n) (element n)
      ∙ ap (λ k. some (element k)) (sym there)
]

-- The host's GDT has every descriptor of the current one at its place and that of the TSS behind
-- them, which TR selects; TR is not null, as the processor demands, and GDTR covers the table. The
-- current GDT must have at least one descriptor and leave room for one more.
pub initialize_from_current_lem :
    (c : Current) (t : Tables) (n : ℕ)
    → c.limit + 1 ≡ 8 * n
    → 1 ≤ n
    → n < 2 ^ 13 - 1
    → (t' : Tables) × (initialize_from_current c t ≡ ok t')
      × ((i : ℕ) → i < n → get_elem? t'.gdt i ≡ some (c.element i))
      × (get_elem? t'.gdt (t'.tr / 2 ^ 3) ≡ some c.tss_descriptor)
      × (t'.tr ≢ 0)
      × (t'.tr % 2 ^ 3 ≡ 0)
      × (t'.gdtr_limit + 1 ≡ 8 * length t'.gdt)
unfolding initialize_from_current
initialize_from_current_lem c t n e some_there room =
    let gdt = elements c.element n ++ (c.tss_descriptor ∷ []) in
    let count : (c.limit + 1) % 2 ^ 16 / 8 ≡ n = omega arith in
    let size : length gdt ≡ n + 1 =
      length-append (elements c.element n) (c.tss_descriptor ∷ [])
      ∙ ap (λ k. k + 1) (length-elements c.element n) in
    let fits : ltb (length gdt * 8 - 1) (2 ^ 16) ≡ true =
      lt→ltb (length gdt * 8 - 1) (2 ^ 16) (omega arith) in
    let selector = (length gdt % 2 ^ 16 - 1) * 2 ^ 3 % 2 ^ 16 in
    let at_end : selector ≡ 8 * n = omega arith in
    let index : selector / 2 ^ 3 ≡ length (elements c.element n) =
      omega (arith, length-elements c.element n) in
    (
      record t {
        gdt = gdt;
        gdtr_base = c.allocated;
        gdtr_limit = length gdt * 8 - 1;
        tr = selector;
        cs = c.cs;
      },
      rw (count, fits) refl,
      λ i l.
          get-append (elements c.element n) (c.tss_descriptor ∷ []) i
            (omega (arith, length-elements c.element n))
          ∙ get-elements c.element n i l,
      ap (get_elem? gdt) index ∙ get-last (elements c.element n) c.tss_descriptor,
      λ z. absurd (omega arith),
      omega arith,
      omega arith,
    )
