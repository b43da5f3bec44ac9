-- ===== src/Snapshot/Paged.antt =====
-- hypervisor/src/snapshot.rs: which pages of the snapshot have been read, and what they hold.
use hypervisor_101_in_rust.Prelude.{
  ℕ, zero, suc, ◌+◌, ◌/◌, ◌^◌, ◌≤◌, ◌<◌, ◌≡◌, ◌≢◌, ◌⊎◌, refl, sym, ap, ◌∙◌, Bool, true, false, none,
  some, inl, inr, arith, ok, panic, ltb, ◌==◌, if◌then◌else◌, Bool-cases, Option-cases, Exec-cases,
  update, lt→ltb, ltb→lt,
}
use hypervisor_101_in_rust.Memory.{Page, Memory, write_page}
use hypervisor_101_in_rust.Patch.{PatchSet, apply}
use hypervisor_101_in_rust.Snapshot.{
  Snapshot, File, read_page_from_snapshot, contains, page_address, mark_read, resolve_page, page_in,
  resolve_page_from_snapshot,
}

-- The number of bits that are set below `n`.
unfoldable pub count_set : (ℕ → Bool) → (n : ℕ) → ℕ
count_set bits zero = 0
count_set bits (suc n) = count_set bits n + (if bits n then 1 else 0)

-- The frame of the guest's GDT, which `Snapshot::new` pages in without patches.
abbrev pub gdt_pfn : Snapshot → ℕ
gdt_pfn s = s.registers.gdtr.base / 2 ^ 12

-- The page at `pfn` is that of the file with the patches applied.
unfoldable pub IsPatched : File → PatchSet → Snapshot → Memory → ℕ → Type 0
IsPatched file patches s mem pfn =
    (page : Page) × (read_page_from_snapshot file pfn ≡ some page)
    × (apply patches pfn page ≡ ok (mem (page_address s pfn)))

-- The number of pages that are read is counted.
abbrev pub IsCounted : Snapshot → Type 0
IsCounted s = count_set s.read_bitmap s.page_count ≡ s.resolved_page_count

-- What a call that returns the page at `pfn` leaves.
pub record Resolved (file : File) (patches : PatchSet) (s : Snapshot) (mem : Memory) (pfn : ℕ)
    (s' : Snapshot) (mem' : Memory) : Type 0 where
  pub is_read : s'.read_bitmap pfn ≡ true
  pub fresh : s.read_bitmap pfn ≡ false → (s' ≡ mark_read s pfn) × IsPatched file patches s mem' pfn
  pub once : s.read_bitmap pfn ≡ true → (s' ≡ s) × (mem' ≡ mem)
  pub others : (a : ℕ) → a ≢ page_address s pfn → mem' a ≡ mem a
  pub counted : IsCounted s'
  pub in_bounds : s'.resolved_page_count ≤ s'.page_count

count_set-above :
    (bits : ℕ → Bool) (i n : ℕ) → n ≤ i → count_set (update bits i true) n ≡ count_set bits n
unfolding count_set
count_set-above bits i zero h = refl
count_set-above bits i (suc n) h = ground (arith, count_set-above bits i n (omega arith))

pub count_set-update :
    (bits : ℕ → Bool) (i n : ℕ)
    → i < n
    → bits i ≡ false
    → count_set (update bits i true) n ≡ count_set bits n + 1
unfolding count_set
count_set-update bits i zero h f = omega arith
count_set-update bits i (suc n) h f = elim (Bool-cases (n == i)) [
  | inl y ↦
      let e : n ≡ i = ground arith in
      let p = count_set-above bits i n (omega arith) in
      let q : bits n ≡ false = ap bits e ∙ f in rw (y, p, q) (omega arith)
  | inr m ↦ let p = count_set-update bits i n (ground arith) f in rw (m, p) (omega arith)
]

count_set-bound : (bits : ℕ → Bool) (n : ℕ) → count_set bits n ≤ n
unfolding count_set
count_set-bound bits zero = omega arith
count_set-bound bits (suc n) = ground (arith, count_set-bound bits n)

written : (mem : Memory) (a : ℕ) (page : Page) → write_page mem a page a ≡ page
written mem a page = ground arith

pub page_in-cases :
    (file : File) (patches : PatchSet) (s : Snapshot) (mem : Memory) (pfn : ℕ)
    → pfn < s.page_count
    → ((page : Page) × (patched : Page) × (read_page_from_snapshot file pfn ≡ some page)
        × (apply patches pfn page ≡ ok patched)
        × (page_in file patches s mem pfn
            ≡ ok (
              mark_read s pfn,
              write_page (write_page mem (page_address s pfn) page) (page_address s pfn) patched,
            )))
      ⊎ ((page_in file patches s mem pfn ≡ panic)
          × ((read_page_from_snapshot file pfn ≡ none)
              ⊎ ((page : Page) × (read_page_from_snapshot file pfn ≡ some page)
                  × (apply patches pfn page ≡ panic))))
unfolding page_in resolve_page
page_in-cases file patches s mem pfn h =
    let in_slice = lt→ltb pfn s.page_count h in
    elim (Option-cases (read_page_from_snapshot file pfn)) [
      | inl f ↦ inr (rw (in_slice, f) refl, inl f)
      | inr (page, f) ↦
          let same = written mem (page_address s pfn) page in
          elim (Exec-cases (apply patches pfn page)) [
            | inl p ↦ inr (rw (in_slice, f, same, p) refl, inr (page, f, p))
            | inr (patched, p) ↦ inl (page, patched, f, p, rw (in_slice, f, same, p) refl)
          ]
    ]

page_in-Resolved :
    (file : File) (patches : PatchSet) (s : Snapshot) (mem : Memory) (pfn : ℕ) (page patched : Page)
    → pfn < s.page_count
    → s.read_bitmap pfn ≡ false
    → read_page_from_snapshot file pfn ≡ some page
    → apply patches pfn page ≡ ok patched
    → IsCounted s
    → Resolved file patches s mem pfn
        (mark_read s pfn)
        (write_page (write_page mem (page_address s pfn) page) (page_address s pfn) patched)
unfolding IsPatched mark_read
page_in-Resolved file patches s mem pfn page patched h f r p counted =
    let bits = update s.read_bitmap pfn true in
    let after_read = write_page mem (page_address s pfn) page in
    let added = count_set-update s.read_bitmap pfn s.page_count h f in
    record {
      is_read = ground arith;
      fresh =
          λ n. (refl, (page, r, p ∙ ap ok (sym (written after_read (page_address s pfn) patched))));
      once = λ y. absurd (cc);
      others = λ a ne. ground arith;
      counted = omega (arith, added, counted);
      in_bounds = omega (arith, count_set-bound bits s.page_count, added, counted);
    }

-- A page that the snapshot does not contain is left alone. Otherwise `resolve_page_from_snapshot`
-- returns the address of the page: if it has not been read before, it then holds the contents of the
-- file with the patches applied, and is marked and counted; if it has, be it with or without
-- patches, nothing at all changes. No other page changes, and the pages read are at most those of
-- the file. It panics only if the ranges exceed the file, the file cannot be read or a patch crosses
-- the end of a page.
pub resolve_page_from_snapshot-Resolved :
    (file : File) (patches : PatchSet) (s : Snapshot) (mem : Memory) (pfn : ℕ)
    → IsCounted s
    → ((contains s pfn ≡ false)
        × (resolve_page_from_snapshot file patches s mem pfn ≡ ok (s, mem, none)))
      ⊎ (((contains s pfn ≡ true)
            × (s' : Snapshot) × (mem' : Memory) × (resolve_page_from_snapshot file patches s mem pfn
                ≡ ok (s', mem', some (page_address s pfn)))
            × Resolved file patches s mem pfn s' mem')
          ⊎ ((resolve_page_from_snapshot file patches s mem pfn ≡ panic)
              × ((s.page_count ≤ pfn)
                  ⊎ ((read_page_from_snapshot file pfn ≡ none)
                      ⊎ ((page : Page) × (read_page_from_snapshot file pfn ≡ some page)
                          × (apply patches pfn page ≡ panic))))))
unfolding resolve_page_from_snapshot mark_read
resolve_page_from_snapshot-Resolved file patches s mem pfn counted =
    elim (Bool-cases (contains s pfn)) [
      | inl c ↦ elim (Bool-cases (ltb pfn s.page_count)) [
        | inl l ↦ elim (Bool-cases (s.read_bitmap pfn)) [
          | inl y ↦ inr (
              inl (
                c,
                s,
                mem,
                rw (c, l, y) refl,
                record {
                  is_read = y;
                  fresh = λ n. absurd (cc);
                  once = λ z. (refl, refl);
                  others = λ a ne. refl;
                  counted = counted;
                  in_bounds = omega (arith, count_set-bound s.read_bitmap s.page_count, counted);
                },
              ))
          | inr n ↦ elim (page_in-cases file patches s mem pfn (ltb→lt pfn s.page_count l)) [
            | inl (page, patched, r, p, e) ↦ inr (
                inl (
                  c,
                  _,
                  _,
                  rw (c, l, n, e) refl,
                  page_in-Resolved file patches s mem pfn page patched (ltb→lt pfn s.page_count l) n
                      r p counted,
                ))
            | inr (e, why) ↦ inr (inr (rw (c, l, n, e) refl, inr why))
          ]
        ]
        | inr l ↦ inr (inr (rw (c, l) refl, inl (ground arith)))
      ]
      | inr c ↦ inl (c, rw c refl)
    ]
