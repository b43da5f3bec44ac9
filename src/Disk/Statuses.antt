-- ===== src/Disk/Statuses.antt =====
-- hypervisor/src/disk.rs: reading a page with and without the statuses of errors.
use hypervisor_101_in_rust.Prelude.{
  ℕ, ◌*◌, ◌%◌, ◌^◌, ◌≡◌, ◌⊎◌, refl, none, some, inl, inr, ◌==◌, Bool-cases, Option-cases,
}
use hypervisor_101_in_rust.Memory.{page_size, Page}
use hypervisor_101_in_rust.Snapshot.{read_page_from_snapshot}
use hypervisor_101_in_rust.Disk.{
  Status, device_error, end_of_file, Outcome, done, failed, panicked, ◌>>=◌, RegularFile,
  read_snapshot_page, on_demand,
}

pub done-injective {ℓ} : {A : Type ℓ} {a b : A} → done a ≡ done b → a ≡ b
done-injective e = cc

pub Outcome-cases {ℓ} :
    {A : Type ℓ} (m : Outcome A)
    → ((a : A) × (m ≡ done a)) ⊎ (((status : Status) × (m ≡ failed status)) ⊎ (m ≡ panicked))
Outcome-cases (done a) = inl (a, refl)
Outcome-cases (failed status) = inr (inl (status, refl))
Outcome-cases panicked = inr (inr refl)

-- Inversion of a sequence that succeeds.
pub >>=-eq-done {ℓ κ} :
    {A : Type ℓ} {B : Type κ} (m : Outcome A) (f : A → Outcome B) {b : B}
    → (m >>= f) ≡ done b
    → (a : A) × (m ≡ done a) × (f a ≡ done b)
>>=-eq-done (done a) f h = (a, refl, h)
>>=-eq-done (failed status) f h = cc
>>=-eq-done panicked f h = cc

-- Inversion of one that fails: its first part does, or the second after it.
pub >>=-eq-failed {ℓ κ} :
    {A : Type ℓ} {B : Type κ} (m : Outcome A) (f : A → Outcome B) {status : Status}
    → (m >>= f) ≡ failed status
    → (m ≡ failed status) ⊎ ((a : A) × (m ≡ done a) × (f a ≡ failed status))
>>=-eq-failed (done a) f h = inr (a, refl, h)
>>=-eq-failed (failed status) f h = inl (cc)
>>=-eq-failed panicked f h = cc

-- What the snapshot reads on demand is what `read_snapshot_page` reads, its errors without status.
pub read_snapshot_page-cases :
    (file : RegularFile) (pfn : ℕ)
    → ((page : Page) × (read_snapshot_page file pfn ≡ done page)
        × (read_page_from_snapshot (on_demand file) pfn ≡ some page))
      ⊎ ((status : Status) × (read_snapshot_page file pfn ≡ failed status)
          × (read_page_from_snapshot (on_demand file) pfn ≡ none))
unfolding read_snapshot_page read_page_from_snapshot on_demand
read_snapshot_page-cases file pfn =
    let position = pfn * 2 ^ 12 % 2 ^ 64 in
    elim (Option-cases (file.set_position position)) [
      | inr (status, e) ↦
          inr (
            status,
            rw (e, read_snapshot_page) refl,
            rw (e, read_page_from_snapshot, on_demand) refl,
          )
      | inl e ↦ elim (Option-cases (file.read_page position)) [
        | inl r ↦ inr (
          device_error,
          rw (e, r, read_snapshot_page) refl,
          rw (e, r, read_page_from_snapshot, on_demand) refl,
        )
        | inr ((bytes_read, page), r) ↦ elim (Bool-cases (bytes_read == page_size)) [
          | inl y ↦ inl (
            page,
            rw (e, r, y, read_snapshot_page) refl,
            rw (e, r, y, read_page_from_snapshot, on_demand) refl,
          )
          | inr n ↦ inr (
            end_of_file,
            rw (e, r, n, read_snapshot_page) refl,
            rw (e, r, n, read_page_from_snapshot, on_demand) refl,
          )
        ]
      ]
    ]
