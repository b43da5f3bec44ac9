-- ===== src/Startup/Loaded.antt =====
-- hypervisor/src/global_state.rs: what `GlobalState::new` builds.
use Prim.Native.String.{String}
use hypervisor_101_in_rust.Prelude.{
  ℕ, ◌+◌, ◌-◌, ◌*◌, ◌/◌, ◌%◌, ◌^◌, ◌≤◌, ◌<◌, ◌≡◌, refl, sym, ap, ◌∙◌, subst, ◌||◌, not, Option,
  none, some, List, [], ◌∷◌, inl, inr, arith, ltb, ◌==◌, Bool-cases, wrapping_sub,
}
use hypervisor_101_in_rust.Memory.{page_size, Memory, size_to_pages}
use hypervisor_101_in_rust.Input.{InputFile}
use hypervisor_101_in_rust.Disk.{
  Status, device_error, not_found, done, or_else, RegularFile, open_file, open_dir, on_demand,
  forget, read_file_to_vec,
}
use hypervisor_101_in_rust.Disk.Statuses.{done-injective, >>=-eq-done, read_snapshot_page-cases}
use hypervisor_101_in_rust.Snapshot
use hypervisor_101_in_rust.Snapshot.{
  Snapshot, File, read_page_from_snapshot, empty_snapshot, read_metadata, resolve_page,
}
use hypervisor_101_in_rust.Snapshot.Metadata.{metadata_of_page, snapshot_signature}
use hypervisor_101_in_rust.Snapshot.Creation.{Created, new-Created}
use hypervisor_101_in_rust.Snapshot.Paged.{gdt_pfn}
use hypervisor_101_in_rust.Snapshot.Intact.{IsIntact}
use hypervisor_101_in_rust.Patch
use hypervisor_101_in_rust.Patch.{PatchSet}
use hypervisor_101_in_rust.Patch.Select.{IsSorted, new-IsSorted}
use hypervisor_101_in_rust.Corpus
use hypervisor_101_in_rust.Corpus.{Corpus}
use hypervisor_101_in_rust.Corpus.Layout.{AreWithin, new_lem}
use hypervisor_101_in_rust.Stats
use hypervisor_101_in_rust.Startup.{
  Services, GlobalState, read_gdt, load_snapshot, load_patches, read_entries, load_corpus,
  open_snapshot, new_global_state,
}

forget-read_gdt :
    (file : RegularFile) (s : Snapshot) (mem : Memory) (pfn : ℕ)
    → forget (read_gdt file s mem pfn) ≡ resolve_page (on_demand file) s mem pfn
unfolding read_gdt resolve_page
forget-read_gdt file s mem pfn = elim (Bool-cases (ltb pfn s.page_count)) [
  | inr n ↦ rw n refl
  | inl y ↦ elim (read_snapshot_page-cases file pfn) [
    | inl (page, e, e') ↦ rw (y, e, e') refl
    | inr (status, e, e') ↦ rw (y, e, e') refl
  ]
]

-- Loading a snapshot is `Snapshot::new` with the statuses of its errors.
forget-load_snapshot :
    (file : RegularFile) (size address : ℕ) (mem : Memory)
    → forget (load_snapshot file size address mem) ≡ Snapshot.new (on_demand file) size address mem
unfolding load_snapshot Snapshot.new read_metadata
forget-load_snapshot file size address mem =
    let last = wrapping_sub (size_to_pages size) 1 in
    elim (Bool-cases (size_to_pages size == 1 || not (size % page_size == 0))) [
      | inl bad ↦ rw bad refl
      | inr good ↦ elim (read_snapshot_page-cases file last) [
        | inr (status, e, e') ↦ rw (good, e, e', read_metadata) refl
        | inl (page, e, e') ↦
            let m = metadata_of_page page in
            elim (Bool-cases (m.magic == snapshot_signature)) [
              | inr n ↦ rw (good, e, read_metadata, e', n) refl
              | inl y ↦
                  rw (good, e, read_metadata, e', y)
                    (forget-read_gdt file (empty_snapshot address last m) mem
                      (m.registers.gdtr.base / 2 ^ 12))
            ]
      ]
    ]

load_snapshot-Created :
    (file : RegularFile) (size address : ℕ) (mem : Memory) (s : Snapshot) (mem' : Memory)
    → 1 ≤ size
    → size < 2 ^ 64
    → load_snapshot file size address mem ≡ done (s, mem')
    → Created (on_demand file) size address mem s mem'
load_snapshot-Created file size address mem s mem' positive small did =
    let same = sym (ap forget did) ∙ forget-load_snapshot file size address mem in
    elim (new-Created (on_demand file) size address mem positive small) [
      | inl (s₁, mem₁, e, c) ↦
          let this : s₁ ≡ s = cc in
          let now : mem₁ ≡ mem' = cc in
          subst (Created (on_demand file) size address mem s) now
            (subst (λ x. Created (on_demand file) size address mem x mem₁) this c)
      | inr (inl (e, why)) ↦ absurd (cc)
      | inr (inr (e, last, r, out)) ↦ absurd (cc)
    ]

-- The only page that has been read is that of the GDT.
Created-IsIntact :
    (file : File) (size address : ℕ) (mem : Memory) (s : Snapshot) (mem' : Memory)
    → Created file size address mem s mem'
    → (patches : PatchSet) → IsIntact file patches s mem'
Created-IsIntact file size address mem s mem' c patches = record {
  inside = λ pfn y. elim (Bool-cases (pfn == gdt_pfn s)) [
    | inl here ↦ let same : pfn ≡ gdt_pfn s = ground arith in omega (arith, same, c.gdt_inside)
    | inr other ↦ absurd (cc (c.rest_unread pfn (ground arith)))
  ];
  shows = λ pfn y ne. absurd (cc (c.rest_unread pfn ne));
}

corpus-files :
    (page_count : ℕ) (files : List InputFile) (c : Corpus)
    → page_count + 1 < 2 ^ 52
    → Corpus.new page_count files ≡ some c
    → AreWithin ((c.end_page - c.first_page) * page_size) c.files
      × (c.first_page ≡ page_count + 1)
      × (c.data_gva ≡ c.first_page * page_size)
unfolding Corpus.new Corpus.largest
corpus-files page_count [] c small did = absurd (cc)
corpus-files page_count (f ∷ fs) c small did =
    let (c', e, files, within, least, first, gva, aligned) = new_lem page_count f fs small in
    let same : c' ≡ c = cc in
    subst
      (λ (x : Corpus).
        AreWithin ((x.end_page - x.first_page) * page_size) x.files
        × (x.first_page ≡ page_count + 1)
        × (x.data_gva ≡ x.first_page * page_size))
      same (within, first, omega (arith, gva, aligned))

-- What fuzzing starts with, for the memory before and after the snapshot is loaded.
pub record Loaded (u : Services) (g : GlobalState) (before after : Memory) : Type 0 where
  pub size : ℕ
  pub sized : g.snapshot_file.file_size ≡ done size
  pub address : ℕ
  pub allocated : address ≡ u.allocate_pages g.snapshot.page_count
  pub created : Created (on_demand g.snapshot_file) size address before g.snapshot after
  pub intact : IsIntact (on_demand g.snapshot_file) g.patch_set g.snapshot after
  pub within : AreWithin ((g.corpus.end_page - g.corpus.first_page) * page_size) g.corpus.files
  pub behind : g.corpus.first_page ≡ g.snapshot.page_count + 1
  pub gva : g.corpus.data_gva ≡ g.corpus.first_page * page_size
  pub sorted : IsSorted g.patch_set
  pub cores : u.enabled_processors ≡ done g.number_of_cores
  pub none_active : g.active_thread_count ≡ 0
  pub none_run : g.totals.iteration_count ≡ 0

load_patches-IsSorted :
    (u : Services) (volume : ℕ) (path : String) (patches : PatchSet)
    → load_patches u volume path ≡ done patches
    → IsSorted patches
unfolding load_patches
load_patches-IsSorted u volume path patches did =
    let (file, _, did₁) = >>=-eq-done (open_file u.files volume path) _ did in
    let (contents, _, did₂) = >>=-eq-done (read_file_to_vec file) _ did₁ in
    let (entries, _, did₃) = >>=-eq-done (or_else (u.parse contents) device_error) _ did₂ in
    let same : Patch.new entries ≡ patches = cc in subst IsSorted same (new-IsSorted entries)

or_else-done :
    {A : Type 0} (o : Option A) (status : Status) {a : A} → or_else o status ≡ done a → o ≡ some a
or_else-done none status e = cc
or_else-done (some a) status e = cc

load_corpus-within :
    (u : Services) (volume : ℕ) (path : String) (page_count : ℕ) (c : Corpus)
    → page_count + 1 < 2 ^ 52
    → load_corpus u volume path page_count ≡ done c
    → AreWithin ((c.end_page - c.first_page) * page_size) c.files
      × (c.first_page ≡ page_count + 1)
      × (c.data_gva ≡ c.first_page * page_size)
unfolding load_corpus
load_corpus-within u volume path page_count c small did =
    let (directory, _, did₁) = >>=-eq-done (open_dir u.files volume path) _ did in
    let (files, _, did₂) =
      >>=-eq-done (read_entries u.files directory (u.files.entries directory)) _ did₁ in
    corpus-files page_count files c small
      (or_else-done (Corpus.new page_count files) not_found did₂)

pages_before :
    (size pages : ℕ)
    → size ≡ (pages + 1) * page_size
    → 1 ≤ pages
    → size < 2 ^ 64
    → wrapping_sub (size_to_pages size) 1 ≡ pages
unfolding size_to_pages
pages_before size pages e p small = ground (arith, e)

open_snapshot-Created :
    (u : Services) (volume : ℕ) (path : String) (mem : Memory) (file : RegularFile) (s : Snapshot)
    (mem' : Memory)
    → ((size : ℕ) → file.file_size ≡ done size → (1 ≤ size) × (size < 2 ^ 64))
    → open_snapshot u volume path mem ≡ done (file, s, mem')
    → (size : ℕ) × (address : ℕ) × (size < 2 ^ 64)
      × (file.file_size ≡ done size)
      × (address ≡ u.allocate_pages s.page_count)
      × Created (on_demand file) size address mem s mem'
unfolding open_snapshot
open_snapshot-Created u volume path mem file s mem' sized did =
    let (opened, _, did₁) = >>=-eq-done (open_file u.files volume path) _ did in
    let (size, e, did₂) = >>=-eq-done opened.file_size _ did₁ in
    let address = u.allocate_pages (wrapping_sub (size_to_pages size) 1) in
    let ((s₁, mem₁), loaded, did₃) = >>=-eq-done (load_snapshot opened size address mem) _ did₂ in
    let this : opened ≡ file = cc in
    let loaded' : load_snapshot file size address mem ≡ done (s, mem') =
      ap (λ f. load_snapshot f size address mem) (sym this) ∙ loaded ∙ cc in
    let (positive, small) = sized size (ap (λ (f : RegularFile). f.file_size) (sym this) ∙ e) in
    let created = load_snapshot-Created file size address mem s mem' positive small loaded' in
    (
      size,
      address,
      small,
      ap (λ (f : RegularFile). f.file_size) (sym this) ∙ e,
      ap u.allocate_pages
          (pages_before size s.page_count created.whole_pages created.not_empty small),
      created,
    )

abbrev assembled : Services → RegularFile → Snapshot → Corpus → PatchSet → (cores : ℕ) → GlobalState
assembled u file s corpus patches cores = record {
  active_thread_count = 0;
  snapshot = s;
  snapshot_file = file;
  corpus = corpus;
  totals = record { overall_stats = Stats.new u.tsc; iteration_count = 0 };
  patch_set = patches;
  number_of_cores = cores;
  start_time = u.time;
}

-- If `GlobalState::new` succeeds on a snapshot file that is not empty, the file has the signature in
-- its last page, and the snapshot has the pages of the file before that one, in the memory allocated
-- for as many, with the registers and the memory ranges of that page; only the page of the guest's
-- GDT has been read; the input data pages hold every file of the corpus and start one page behind
-- the snapshot, at the address for the guest; the patches are sorted; the number of cores is that of
-- the enabled processors; and no processor is active and no iteration has been run.
pub new_global_state-Loaded :
    (u : Services) (snapshot_path patch_path corpus_path : String) (mem : Memory) (g : GlobalState)
    (mem' : Memory)
    → ((size : ℕ) → g.snapshot_file.file_size ≡ done size → (1 ≤ size) × (size < 2 ^ 64))
    → new_global_state u snapshot_path patch_path corpus_path mem ≡ done (g, mem')
    → Loaded u g mem mem'
unfolding new_global_state
new_global_state-Loaded u snapshot_path patch_path corpus_path mem g mem' sized did =
    let (mp, _, did₁) = >>=-eq-done u.open_mp_services _ did in
    let (volume, _, did₂) = >>=-eq-done u.open_volume _ did₁ in
    let ((file, s, mem₁), opened, did₃) =
      >>=-eq-done (open_snapshot u volume snapshot_path mem) _ did₂ in
    let (corpus, c, did₄) = >>=-eq-done (load_corpus u volume corpus_path s.page_count) _ did₃ in
    let (patches, p, did₅) = >>=-eq-done (load_patches u volume patch_path) _ did₄ in
    let (cores, counted, did₆) = >>=-eq-done u.enabled_processors _ did₅ in
    let g₀ : GlobalState = assembled u file s corpus patches cores in
    let both = done-injective did₆ in
    let same : g₀ ≡ g = ap (λ (r : GlobalState × Memory). r.0) both in
    let now : mem₁ ≡ mem' = ap (λ (r : GlobalState × Memory). r.1) both in
    let own : file ≡ g.snapshot_file = ap (λ (x : GlobalState). x.snapshot_file) same in
    let (size, address, bound, has_size, here, created) =
      open_snapshot-Created u volume snapshot_path mem file s mem₁
        (λ n e. sized n (ap (λ (f : RegularFile). f.file_size) (sym own) ∙ e)) opened in
    let small : s.page_count + 1 < 2 ^ 52 = omega (arith, created.whole_pages) in
    let (within, behind, gva) =
      load_corpus-within u volume corpus_path s.page_count corpus small c in
    subst (λ x. Loaded u x mem mem') same
      (subst (Loaded u g₀ mem) now (record {
        size = size;
        sized = has_size;
        address = address;
        allocated = here;
        created = created;
        intact = Created-IsIntact (on_demand file) size address mem s mem₁ created patches;
        within = within;
        behind = behind;
        gva = gva;
        sorted = load_patches-IsSorted u volume patch_path patches p;
        cores = counted;
        none_active = refl;
        none_run = refl;
      }))
