-- ===== src/Startup/SnapshotErrors.antt =====
-- hypervisor/src/snapshot.rs: why `Snapshot::new` refuses a file.
use Prim.Native.String.{String}
use hypervisor_101_in_rust.Prelude.{
  ℕ, ◌/◌, ◌%◌, ◌^◌, ◌≡◌, ◌≢◌, ◌⊎◌, refl, sym, Bool, true, false, ◌||◌, not, inl, inr, arith, ltb,
  ◌==◌, Bool-cases, wrapping_sub, if◌then◌else◌,
}
use hypervisor_101_in_rust.Memory.{page_size, Page, Memory, size_to_pages}
use hypervisor_101_in_rust.Disk.{
  Status, invalid_parameter, Outcome, done, failed, panicked, RegularFile, open_file,
  read_snapshot_page,
}
use hypervisor_101_in_rust.Disk.Statuses.{>>=-eq-failed}
use hypervisor_101_in_rust.Snapshot.{Snapshot, empty_snapshot}
use hypervisor_101_in_rust.Snapshot.Metadata.{metadata_of_page, snapshot_signature}
use hypervisor_101_in_rust.Startup.{Services, read_gdt, load_snapshot, open_snapshot}

-- Why a snapshot is refused, with the status.
pub data SnapshotError (u : Services) (volume : ℕ) (path : String) (status : Status) : Type 0 where
  not_opened : open_file u.files volume path ≡ failed status → SnapshotError u volume path status
  no_size :
      (file : RegularFile)
      → open_file u.files volume path ≡ done file
      → file.file_size ≡ failed status
      → SnapshotError u volume path status
  bad_size :
      (file : RegularFile) (size : ℕ)
      → open_file u.files volume path ≡ done file
      → file.file_size ≡ done size
      → (size_to_pages size ≡ 1) ⊎ (size % page_size ≢ 0)
      → status ≡ invalid_parameter
      → SnapshotError u volume path status
  unsigned :
      (file : RegularFile) (size : ℕ) (page : Page)
      → open_file u.files volume path ≡ done file
      → file.file_size ≡ done size
      → read_snapshot_page file (wrapping_sub (size_to_pages size) 1) ≡ done page
      → (metadata_of_page page).magic ≢ snapshot_signature
      → status ≡ invalid_parameter
      → SnapshotError u volume path status
  page_unread :
      (file : RegularFile) (pfn : ℕ)
      → open_file u.files volume path ≡ done file
      → read_snapshot_page file pfn ≡ failed status
      → SnapshotError u volume path status

if-failed :
    {A : Type 0} (b : Bool) (x y : Outcome A) {status : Status}
    → (if b then x else y) ≡ failed status
    → ((b ≡ true) × (x ≡ failed status)) ⊎ ((b ≡ false) × (y ≡ failed status))
if-failed true x y e = inl (refl, e)
if-failed false x y e = inr (refl, e)

failed-injective : {A : Type 0} {a b : Status} → ◌≡◌ {A = Outcome A} (failed a) (failed b) → a ≡ b
failed-injective e = cc

sizes : (m n : ℕ) → (m == 1 || not (n == 0)) ≡ true → (m ≡ 1) ⊎ (n ≢ 0)
sizes m n h = elim (Bool-cases (m == 1)) [
  | inl y ↦ inl (ground arith)
  | inr x ↦ inr (λ z. ground arith)
]

module _ (u : Services) (volume : ℕ) (path : String) (file : RegularFile) (size : ℕ)
    {status : Status} (opened : open_file u.files volume path ≡ done file)
    (sized : file.file_size ≡ done size) where
  read_gdt-failed :
      (s : Snapshot) (mem : Memory) (pfn : ℕ)
      → read_gdt file s mem pfn ≡ failed status
      → SnapshotError u volume path status
  unfolding read_gdt
  read_gdt-failed s mem pfn did = elim (if-failed (ltb pfn s.page_count) _ panicked did) [
    | inl (inside, did') ↦ elim (>>=-eq-failed (read_snapshot_page file pfn) _ did') [
      | inl e ↦ page_unread file pfn opened e
      | inr (page, r, e) ↦ cc
    ]
    | inr (outside, e) ↦ cc
  ]

  load_snapshot-failed :
      (address : ℕ) (mem : Memory)
      → load_snapshot file size address mem ≡ failed status
      → SnapshotError u volume path status
  unfolding load_snapshot
  load_snapshot-failed address mem did =
      let last = wrapping_sub (size_to_pages size) 1 in
      let bad = size_to_pages size == 1 || not (size % page_size == 0) in
      elim (if-failed bad (failed invalid_parameter) _ did) [
        | inl (b, e) ↦
            bad_size file size opened sized (sizes (size_to_pages size) (size % page_size) b)
              (sym (failed-injective e))
        | inr (good, did₁) ↦ elim (>>=-eq-failed (read_snapshot_page file last) _ did₁) [
          | inl e ↦ page_unread file last opened e
          | inr (page, r, did₂) ↦
              let m = metadata_of_page page in
              elim (if-failed (m.magic == snapshot_signature) _ (failed invalid_parameter) did₂) [
                | inl (signed, did₃) ↦
                    read_gdt-failed (empty_snapshot address last m) mem
                      (m.registers.gdtr.base / 2 ^ 12) did₃
                | inr (not_signed, e) ↦
                    unsigned file size page opened sized r (ground arith) (sym (failed-injective e))
              ]
        ]
      ]

pub open_snapshot-failed :
    (u : Services) (volume : ℕ) (path : String) (mem : Memory) {status : Status}
    → open_snapshot u volume path mem ≡ failed status
    → SnapshotError u volume path status
unfolding open_snapshot
open_snapshot-failed u volume path mem did =
    elim (>>=-eq-failed (open_file u.files volume path) _ did) [
      | inl e ↦ not_opened e
      | inr (file, opened, did₁) ↦ elim (>>=-eq-failed file.file_size _ did₁) [
        | inl e ↦ no_size file opened e
        | inr (size, sized, did₂) ↦
            let address = u.allocate_pages (wrapping_sub (size_to_pages size) 1) in
            elim (>>=-eq-failed (load_snapshot file size address mem) _ did₂) [
              | inl e ↦ load_snapshot-failed u volume path file size opened sized address mem e
              | inr (loaded, _, e) ↦ cc
            ]
      ]
    ]
