-- ===== src/Snapshot/Intact.antt =====
-- hypervisor/src/snapshot.rs, hypervisor/src/patch.rs: what the pages of the snapshot hold while
-- patches are reverted.
use hypervisor_101_in_rust.Prelude.{
  ℕ, ◌+◌, ◌-◌, ◌*◌, ◌/◌, ◌%◌, ◌^◌, ◌≤◌, ◌<◌, ◌≡◌, ◌≢◌, ◌⊎◌, refl, sym, ap, ◌∙◌, subst, true, false,
  Option, none, some, inl, inr, arith, ok, ltb, leb, ltb→lt, ◌==◌, ◌&&◌, Satisfies, Satisfies-then,
  Bool-cases,
}
use hypervisor_101_in_rust.Memory.{page_size, Page, Memory, write_page}
use hypervisor_101_in_rust.Patch.{
  PatchEntry, PatchSet, to_pfn, overwrite, write_word, find, apply, revert,
}
use hypervisor_101_in_rust.Patch.Select.{find_lem}
use hypervisor_101_in_rust.Snapshot.{
  Snapshot, File, read_page_from_snapshot, contains, page_address, mark_read, page_in,
  resolve_page_from_snapshot,
}
use hypervisor_101_in_rust.Snapshot.Paged.{gdt_pfn, page_in-cases}

-- The byte is one that reverting a patch of the set has written.
pub record IsReverted (patches : PatchSet) (pfn i byte : ℕ) : Type 0 where
  pub entry : PatchEntry
  pub found : find patches entry.address ≡ some entry
  pub on_page : to_pfn entry.address ≡ pfn
  pub low : entry.address % 2 ^ 12 ≤ i
  pub high : i < entry.address % 2 ^ 12 + entry.length
  pub original : byte ≡ entry.original / 2 ^ (8 * (i - entry.address % 2 ^ 12)) % 2 ^ 8

-- The page holds the contents of the file with the patches applied, but where a patch has been
-- reverted.
pub record Shows (file : File) (patches : PatchSet) (pfn : ℕ) (shown : Page) : Type 0 where
  pub page : Page
  pub patched : Page
  pub of_file : read_page_from_snapshot file pfn ≡ some page
  pub applied : apply patches pfn page ≡ ok patched
  pub bytes : (i : ℕ) → (shown i ≡ patched i) ⊎ IsReverted patches pfn i (shown i)

-- Every page that has been read does, but for that of the guest's GDT, which has no patches.
pub record IsIntact (file : File) (patches : PatchSet) (s : Snapshot) (mem : Memory) : Type 0 where
  pub inside : (pfn : ℕ) → s.read_bitmap pfn ≡ true → pfn < s.page_count
  pub shows :
      (pfn : ℕ)
      → s.read_bitmap pfn ≡ true
      → pfn ≢ gdt_pfn s
      → Shows file patches pfn (mem (page_address s pfn))

-- What does not touch the pages of the snapshot keeps their contents.
pub IsIntact-same :
    (file : File) (patches : PatchSet) (s : Snapshot) (mem mem' : Memory)
    → ((pfn : ℕ) → pfn < s.page_count → mem' (page_address s pfn) ≡ mem (page_address s pfn))
    → IsIntact file patches s mem
    → IsIntact file patches s mem'
IsIntact-same file patches s mem mem' same h = record {
  inside = h.inside;
  shows = λ pfn was_read ne.
      subst (Shows file patches pfn) (sym (same pfn (h.inside pfn was_read)))
        (h.shows pfn was_read ne);
}

-- A byte of the page after a patch of the set has been reverted.
overwritten :
    (patches : PatchSet) (e : PatchEntry) (pfn i : ℕ) (old patched : Page)
    → find patches e.address ≡ some e
    → to_pfn e.address ≡ pfn
    → (old i ≡ patched i) ⊎ IsReverted patches pfn i (old i)
    → (overwrite (e.address % 2 ^ 12) e.length e.original old i ≡ patched i)
      ⊎ IsReverted patches pfn i (overwrite (e.address % 2 ^ 12) e.length e.original old i)
overwritten patches e pfn i old patched found on_page before =
    let off = e.address % 2 ^ 12 in
    elim (Bool-cases (leb off i && ltb i (off + e.length))) [
      | inl y ↦ rw y (
          inr (record {
            entry = e;
            found = found;
            on_page = on_page;
            low = ground arith;
            high = ground arith;
            original = refl;
          }))
      | inr n ↦ rw n before
    ]

-- A snapshot in which more pages have been read.
pub record Extended (s s' : Snapshot) : Type 0 where
  pub memory : s'.memory ≡ s.memory
  pub page_count : s'.page_count ≡ s.page_count
  pub memory_ranges : s'.memory_ranges ≡ s.memory_ranges
  pub more : (pfn : ℕ) → s.read_bitmap pfn ≡ true → s'.read_bitmap pfn ≡ true

-- What returning the page at `pfn` leaves.
pub record Backs (file : File) (patches : PatchSet) (s : Snapshot) (pfn : ℕ) (s' : Snapshot)
    (mem' : Memory) : Type 0 where
  pub extended : Extended s s'
  pub is_read : s'.read_bitmap pfn ≡ true
  pub intact : IsIntact file patches s' mem'

module _ (file : File) (patches : PatchSet) (s : Snapshot) (mem : Memory)
    (intact : IsIntact file patches s mem) where
  read-IsIntact :
      (pfn : ℕ) (page patched : Page)
      → pfn < s.page_count
      → read_page_from_snapshot file pfn ≡ some page
      → apply patches pfn page ≡ ok patched
      → Backs file patches s pfn
          (mark_read s pfn)
          (write_page (write_page mem (page_address s pfn) page) (page_address s pfn) patched)
  unfolding mark_read
  read-IsIntact pfn page patched inside r p =
      let mem' =
        write_page (write_page mem (page_address s pfn) page) (page_address s pfn) patched in
      record {
        extended = record {
          memory = refl;
          page_count = refl;
          memory_ranges = refl;
          more = λ q was_read. ground arith;
        };
        is_read = ground arith;
        intact = record {
          inside = λ q is_read. ground (arith, intact.inside q);
          shows = λ q is_read ne. elim (Bool-cases (q == pfn)) [
            | inl y ↦
                let here : pfn ≡ q = ground arith in
                let now : mem' (page_address s pfn) ≡ patched = ground arith in
                subst (λ x. Shows file patches x (mem' (page_address s x))) here
                  (record {
                    page = page;
                    patched = patched;
                    of_file = r;
                    applied = p;
                    bytes = λ i. inl (ap (λ (shown : Page). shown i) now);
                  })
            | inr n ↦
                let still : mem' (page_address s q) ≡ mem (page_address s q) = ground arith in
                subst (Shows file patches q) (sym still) (intact.shows q (ground arith) ne)
          ];
        };
      }

  page_in-IsIntact :
      (pfn : ℕ)
      → pfn < s.page_count
      → Satisfies
          (λ (r : Snapshot × Memory). Backs file patches s pfn r.0 r.1)
          (page_in file patches s mem pfn)
  page_in-IsIntact pfn inside = elim (page_in-cases file patches s mem pfn inside) [
    | inl (page, patched, r, p, e) ↦ rw e (read-IsIntact pfn page patched inside r p)
    | inr (e, why) ↦ rw e tt
  ]

  -- The page that is returned has been read and all pages hold what they should.
  abbrev pub Answers : (pfn : ℕ) → Snapshot × Memory × Option ℕ → Type 0
  Answers pfn (s', mem', some pa) =
      (contains s pfn ≡ true) × (pa ≡ page_address s pfn) × Backs file patches s pfn s' mem'
  Answers pfn (s', mem', none) =
      (contains s pfn ≡ false) × Extended s s' × IsIntact file patches s' mem'

  pub resolve_page_from_snapshot-IsIntact :
      (pfn : ℕ) → Satisfies (Answers pfn) (resolve_page_from_snapshot file patches s mem pfn)
  unfolding resolve_page_from_snapshot
  resolve_page_from_snapshot-IsIntact pfn =
      let unchanged : Extended s s = record {
        memory = refl;
        page_count = refl;
        memory_ranges = refl;
        more = λ q was_read. was_read;
      } in
      elim (Bool-cases (contains s pfn)) [
        | inl y ↦ elim (Bool-cases (ltb pfn s.page_count)) [
          | inl l ↦ elim (Bool-cases (s.read_bitmap pfn)) [
            | inl r ↦
                rw (y, l, r)
                  (y, refl, record { extended = unchanged; is_read = r; intact = intact })
            | inr n ↦
                rw (y, l, n)
                  (Satisfies-then _ _ (page_in file patches s mem pfn) _
                    (page_in-IsIntact pfn (ltb→lt pfn s.page_count l))
                    (λ (s', mem') did b.
                      (y, ap (λ base. base + pfn * page_size) b.extended.memory, b)))
          ]
          | inr m ↦ rw (y, m) tt
        ]
        | inr n ↦ rw n (n, unchanged, intact)
      ]

  pub revert-eq-ok :
      (e : PatchEntry) (base count : ℕ) {mem' : Memory}
      → revert e base count mem ≡ ok mem'
      → let pa = base + to_pfn e.address * page_size in
        (to_pfn e.address < count)
        × (mem' ≡ write_page mem pa (overwrite (e.address % 2 ^ 12) e.length e.original (mem pa)))
  unfolding revert write_word
  revert-eq-ok e base count {mem'} did =
      let fits = leb (e.address % 2 ^ 12 + e.length) page_size && leb e.length 4 in
      elim (Bool-cases (ltb (to_pfn e.address) count)) [
        | inl y ↦ elim (Bool-cases fits) [ inl z ↦ (ltb→lt _ _ y, cc) | inr z ↦ cc ]
        | inr n ↦ cc
      ]

  -- Reverting a patch of the set keeps the contents of all pages up to reverted patches.
  pub revert-IsIntact :
      (entry : PatchEntry) (rip : ℕ) {mem' : Memory}
      → find patches rip ≡ some entry
      → revert entry s.memory s.page_count mem ≡ ok mem'
      → IsIntact file patches s mem'
  revert-IsIntact entry rip {mem'} found did = record { inside = intact.inside; shows = shows }
    where
      written : Page
      written =
          overwrite (entry.address % 2 ^ 12) entry.length entry.original
            (mem (page_address s (to_pfn entry.address)))

      now : mem' ≡ write_page mem (page_address s (to_pfn entry.address)) written
      now = (revert-eq-ok entry s.memory s.page_count did).1

      at : entry.address ≡ rip
      at = elim (find_lem patches rip) [
        | inl (missing, _) ↦ absurd (cc)
        | inr (e, before, after, f, here, split, none_before) ↦
            let same : e ≡ entry = cc in ap (λ (x : PatchEntry). x.address) (sym same) ∙ here
      ]

      itself : find patches entry.address ≡ some entry
      itself = ap (find patches) at ∙ found

      shows :
          (pfn : ℕ)
          → s.read_bitmap pfn ≡ true
          → pfn ≢ gdt_pfn s
          → Shows file patches pfn (mem' (page_address s pfn))
      shows pfn is_read ne =
          let old = intact.shows pfn is_read ne in
          elim (Bool-cases (pfn == to_pfn entry.address)) [
            | inr n ↦
                let still : mem' (page_address s pfn) ≡ mem (page_address s pfn) =
                  ap (λ (m : Memory). m (page_address s pfn)) now ∙ ground arith in
                subst (Shows file patches pfn) (sym still) old
            | inl y ↦
                let here : mem' (page_address s pfn) ≡ written =
                  ap (λ (m : Memory). m (page_address s pfn)) now ∙ ground arith in
                subst (Shows file patches pfn) (sym here) (record {
                  page = old.page;
                  patched = old.patched;
                  of_file = old.of_file;
                  applied = old.applied;
                  bytes = λ i.
                      overwritten patches entry pfn i (mem (page_address s (to_pfn entry.address)))
                        old.patched itself (ground arith)
                        (subst
                          (λ n.
                            (mem (page_address s n) i ≡ old.patched i)
                            ⊎ IsReverted patches pfn i (mem (page_address s n) i))
                          (ground arith) (old.bytes i));
                })
          ]
