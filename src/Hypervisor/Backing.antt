-- ===== src/Hypervisor/Backing.antt =====
-- hypervisor/src/hypervisor.rs: which page of memory the guest sees for each of its own.
use hypervisor_101_in_rust.Prelude.{
  ℕ, ◌+◌, ◌-◌, ◌*◌, ◌/◌, ◌^◌, ◌≤◌, ◌<◌, ◌≡◌, ◌⊎◌, refl, sym, ap, ◌∙◌, true, false, Option, none,
  some, inl, inr, ok, ltb, leb, ◌==◌, ◌&&◌, Satisfies, Satisfies->>=, Satisfies-then, Satisfies-map,
  Bool-cases, Option-cases, arith, ◌>>=◌,
}
use hypervisor_101_in_rust.Memory.{page_size, Memory, write_page}
use hypervisor_101_in_rust.HardwareVt.{NestedPageFaultQualification, HardwareVt, IsLawful}
use hypervisor_101_in_rust.Vm.{Vm}
use hypervisor_101_in_rust.Patch.{PatchSet, apply}
use hypervisor_101_in_rust.Snapshot.{
  Snapshot, File, contains, contains_page, page_address, resolve_page, page_in,
  resolve_page_from_snapshot, read_page_from_snapshot, mark_read,
}
use hypervisor_101_in_rust.Mutation.{MutationEngine, resolve_page_from_input_data}
use hypervisor_101_in_rust.Mutation.Pages
use hypervisor_101_in_rust.Hypervisor.{
  Setup, Machine, VmExitResult, or_unbacked, or_input_data, resolve_pa_for_gpa,
  handle_nested_page_fault,
}
use hypervisor_101_in_rust.Hypervisor.Faults.{IsSourced, handle_nested_page_fault-keeps}
use hypervisor_101_in_rust.Hypervisor.Backed.{IsBackedBy, IsBackedBy-IsKept, IsBackedBy-moved}
use hypervisor_101_in_rust.Hypervisor.Progress.{IsFault, IsFault-IsAccurate}

-- The page that backs a GPA: that of the snapshot if it contains the frame, else that of the input.
unfoldable pub IsSource : Setup → MutationEngine → Snapshot → (gpa pa : ℕ) → Type 0
IsSource g e s gpa pa =
    ((contains s (gpa / 2 ^ 12) ≡ true) × (pa ≡ page_address s (gpa / 2 ^ 12)))
    ⊎ ((contains s (gpa / 2 ^ 12) ≡ false)
        × (g.corpus.first_page ≤ gpa / 2 ^ 12)
        × (gpa / 2 ^ 12 < g.corpus.end_page)
        × (pa ≡ Pages.page_address e.input_pages (gpa / 2 ^ 12 - g.corpus.first_page)))

-- What paging-in leaves of a snapshot.
pub record IsSame (s s' : Snapshot) : Type 0 where
  pub memory : s'.memory ≡ s.memory
  pub memory_ranges : s'.memory_ranges ≡ s.memory_ranges

page_in-IsSame :
    (file : File) (patches : PatchSet) (s : Snapshot) (mem : Memory) (pfn : ℕ)
    → Satisfies (λ (r : Snapshot × Memory). IsSame s r.0) (page_in file patches s mem pfn)
unfolding page_in resolve_page mark_read
page_in-IsSame file patches s mem pfn = elim (Bool-cases (ltb pfn s.page_count)) [
  | inl y ↦ elim (Option-cases (read_page_from_snapshot file pfn)) [
    | inl f ↦ rw (y, f) tt
    | inr (page, f) ↦
        rw (y, f)
          (Satisfies->>= _
            (apply patches pfn (write_page mem (page_address s pfn) page (page_address s pfn))) _
            (λ patched _. record { memory = refl; memory_ranges = refl }))
  ]
  | inr n ↦ rw n tt
]

-- What `resolve_page_from_snapshot` returns for a frame of the snapshot, and for any other.
abbrev IsResolved : Snapshot → (pfn : ℕ) → Option ℕ → Type 0
IsResolved s pfn page =
    ((contains s pfn ≡ true) × (page ≡ some (page_address s pfn)))
    ⊎ ((contains s pfn ≡ false) × (page ≡ none))

resolve_page_from_snapshot-IsResolved :
    (file : File) (patches : PatchSet) (s : Snapshot) (mem : Memory) (pfn : ℕ)
    → Satisfies
        (λ (r : Snapshot × Memory × Option ℕ). IsSame s r.0 × IsResolved s pfn r.2)
        (resolve_page_from_snapshot file patches s mem pfn)
unfolding resolve_page_from_snapshot
resolve_page_from_snapshot-IsResolved file patches s mem pfn = elim (Bool-cases (contains s pfn)) [
  | inl y ↦ elim (Bool-cases (ltb pfn s.page_count)) [
    | inl l ↦ elim (Bool-cases (s.read_bitmap pfn)) [
      | inl r ↦ rw (y, l, r) (record { memory = refl; memory_ranges = refl }, inl (refl, refl))
      | inr n ↦
          rw (y, l, n)
            (Satisfies-then _ _ (page_in file patches s mem pfn) _
              (page_in-IsSame file patches s mem pfn)
              (λ x _ same.
                (same, inl (refl, ap (λ base. some (base + pfn * page_size)) same.memory))))
    ]
    | inr m ↦ rw (y, m) tt
  ]
  | inr n ↦ rw n (record { memory = refl; memory_ranges = refl }, inr (refl, refl))
]

module _ {V : Type 0} ⦃hw : HardwareVt V⦄ (law : IsLawful hw) where
  or_unbacked-none :
      (s : Snapshot) (g : Setup) (e : MutationEngine) (gpa pfn : ℕ)
      → IsSourced law (IsSource g e) s gpa (or_unbacked pfn none)
  unfolding or_unbacked
  or_unbacked-none s g e gpa pfn = elim (Bool-cases (pfn == 0)) [
    | inl y ↦ rw y tt
    | inr n ↦ elim (Bool-cases (pfn == 0xf_ffff_ffff_ffff)) [
      | inl y ↦ rw (n, y) tt
      | inr m ↦ rw (n, m) tt
    ]
  ]

  or_input_data-IsSourced :
      (g : Setup) (e : MutationEngine) (s : Snapshot) (gpa : ℕ)
      → contains s (gpa / 2 ^ 12) ≡ false
      → Satisfies (IsSourced law (IsSource g e) s gpa) (or_input_data g e (gpa / 2 ^ 12) none)
  unfolding or_input_data or_unbacked resolve_page_from_input_data resolve_page IsSource
  or_input_data-IsSourced g e s gpa outside =
      let first = g.corpus.first_page in
      let pfn = gpa / 2 ^ 12 in
      elim (Bool-cases (leb first pfn && ltb pfn g.corpus.end_page)) [
        | inl y ↦ elim (Bool-cases (ltb (pfn - first) e.input_page_count)) [
          | inl l ↦ rw (y, l) (inr (outside, ground arith, ground arith, refl))
          | inr m ↦ rw (y, m) tt
        ]
        | inr n ↦ rw n (or_unbacked-none s g e gpa pfn)
      ]

  IsSource-same :
      (g : Setup) (e : MutationEngine) (s s' : Snapshot) (gpa pa : ℕ)
      → IsSame s s'
      → IsSource g e s gpa pa
      → IsSource g e s' gpa pa
  unfolding IsSource
  IsSource-same g e s s' gpa pa same source =
      let pfn = gpa / 2 ^ 12 in
      let ranges : contains s' pfn ≡ contains s pfn =
        ap (λ r. contains_page r pfn) same.memory_ranges in
      elim source [
        | inl (y, at) ↦ inl (ranges ∙ y, at ∙ ap (λ b. b + pfn * page_size) (sym same.memory))
        | inr (n, low, high, at) ↦ inr (ranges ∙ n, low, high, at)
      ]

  resolve_pa_for_gpa-IsSourced :
      (g : Setup) (e : MutationEngine) (s : Snapshot) (mem : Memory) (gpa : ℕ)
      → Satisfies
          (λ (x : Snapshot × Memory × (ℕ ⊎ VmExitResult)).
            IsSame s x.0 × IsSourced law (IsSource g e) x.0 gpa x.2)
          (resolve_pa_for_gpa g e s mem gpa)
  unfolding resolve_pa_for_gpa or_input_data IsSource
  resolve_pa_for_gpa-IsSourced g e s mem gpa =
      Satisfies-then _ _ (resolve_page_from_snapshot g.file g.patches s mem (gpa / 2 ^ 12)) _
        (resolve_page_from_snapshot-IsResolved g.file g.patches s mem (gpa / 2 ^ 12))
        (λ (s', mem', page) _ (same, resolved). by_page s' mem' page same resolved)
    where
      by_page :
          (s' : Snapshot) (mem' : Memory) (page : Option ℕ)
          → IsSame s s'
          → IsResolved s (gpa / 2 ^ 12) page
          → Satisfies
              (λ (x : Snapshot × Memory × (ℕ ⊎ VmExitResult)).
                IsSame s x.0 × IsSourced law (IsSource g e) x.0 gpa x.2)
              (or_input_data g e (gpa / 2 ^ 12) page >>= λ resolved. ok (s', mem', resolved))
      by_page s' mem' (some pa) same (inl (y, is)) =
          let at : pa ≡ page_address s (gpa / 2 ^ 12) = cc in
          (same, IsSource-same g e s s' gpa pa same (inl (y, at)))
      by_page s' mem' (some pa) same (inr (n, is)) = absurd (cc)
      by_page s' mem' none same (inl (y, is)) = absurd (cc)
      by_page s' mem' none same (inr (n, is)) =
          let ranges = ap (λ r. contains_page r (gpa / 2 ^ 12)) same.memory_ranges in
          Satisfies-then _ _ (or_input_data g e (gpa / 2 ^ 12) none) _
            (or_input_data-IsSourced g e s' gpa (ranges ∙ n))
            (λ resolved _ sourced. (same, sourced))

  -- Every page that `revert_dirty_memory` would give the guest is read-only and the one that backs its
  -- frame.
  abbrev pub IsBacked : Setup → MutationEngine → (start : Vm V) → Snapshot → Vm V → Type 0
  IsBacked g e = IsBackedBy law (IsSource g e)

  -- If every page that `revert_dirty_memory` would give the guest is read-only and the page that backs
  -- its frame, that of the snapshot if it contains the frame and else that of the input, then this
  -- holds after a genuine nested page fault has been handled, whatever it was for.
  pub handle_nested_page_fault-IsBacked :
      (g : Setup) (e : MutationEngine) (start : Vm V) (m : Machine V)
      (q : NestedPageFaultQualification)
      → IsFault law m.vm q
      → IsBacked g e start m.snapshot m.vm
      → Satisfies
          (λ (r : Machine V × VmExitResult). IsBacked g e start r.0.snapshot r.0.vm)
          (handle_nested_page_fault g e m q)
  handle_nested_page_fault-IsBacked g e start m q fault b =
      handle_nested_page_fault-keeps law (IsBackedBy-IsKept law (IsSource g e) start) g e m q
        (IsFault-IsAccurate law m.vm q b.runs.mapped fault)
        (Satisfies-map _ _ (resolve_pa_for_gpa g e m.snapshot m.memory q.gpa)
          (λ x (same, sourced). (
            IsBackedBy-moved law m.snapshot x.0
                (λ gpa pa. IsSource-same g e m.snapshot x.0 gpa pa same) b,
            sourced,
          ))
          (resolve_pa_for_gpa-IsSourced g e m.snapshot m.memory q.gpa))
