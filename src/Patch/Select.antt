-- ===== src/Patch/Select.antt =====
-- hypervisor/src/patch.rs: the binary searches of `PatchSet::apply`, compared with a linear scan, and
-- `PatchSet::find`.
use mathlib.Core.List.{Perm}
use mathlib.Core.List.Perm
use hypervisor_101_in_rust.Prelude.{
  ℕ, ◌≤◌, ◌<◌, ◌≡◌, ◌≢◌, ◌⊎◌, refl, sym, ap, ◌∙◌, ◌++◌, true, false, List, [], ◌∷◌, none, some, inl,
  inr, arith, ltb, leb, ◌==◌, if◌then◌else◌, Bool-cases, take, drop,
}
use hypervisor_101_in_rust.Patch.{
  PatchEntry, PatchSet, to_pfn, insert_entry, new, partition_point, select, find,
}

-- Every entry satisfies `P`.
abbrev pub All : (PatchEntry → Type 0) → PatchSet → Type 0
All P [] = Unit
All P (e ∷ es) = P e × All P es

abbrev pub IsSorted : PatchSet → Type 0
IsSorted [] = Unit
IsSorted (e ∷ es) = All (λ d. e.address ≤ d.address) es × IsSorted es

-- The entries of a page, by a linear scan.
unfoldable pub on_page : PatchSet → ℕ → PatchSet
on_page [] pfn = []
on_page (e ∷ es) pfn = if to_pfn e.address == pfn then e ∷ on_page es pfn else on_page es pfn

All-mono :
    {P Q : PatchEntry → Type 0} (es : PatchSet)
    → ((e : PatchEntry) → P e → Q e)
    → All P es
    → All Q es
All-mono [] f h = tt
All-mono (e ∷ es) f h = (f e h.0, All-mono es f h.1)

All-insert_entry :
    (P : PatchEntry → Type 0) (e : PatchEntry) (es : PatchSet)
    → P e
    → All P es
    → All P (insert_entry e es)
unfolding insert_entry
All-insert_entry P e [] h hs = (h, tt)
All-insert_entry P e (d ∷ ds) h hs = elim (Bool-cases (ltb d.address e.address)) [
  | inl y ↦ rw y (hs.0, All-insert_entry P e ds h hs.1)
  | inr n ↦ rw n (h, hs)
]

insert_entry-IsSorted :
    (e : PatchEntry) (es : PatchSet) → IsSorted es → IsSorted (insert_entry e es)
unfolding insert_entry
insert_entry-IsSorted e [] h = (tt, tt)
insert_entry-IsSorted e (d ∷ ds) h = elim (Bool-cases (ltb d.address e.address)) [
  | inl y ↦ rw y (
    All-insert_entry (λ x. d.address ≤ x.address) e ds (ground arith) h.0,
    insert_entry-IsSorted e ds h.1,
  )
  | inr n ↦
      let le : e.address ≤ d.address = ground arith in
      rw n ((le, All-mono ds (λ x q. omega arith) h.0), h)
]

pub new-IsSorted : (es : List PatchEntry) → IsSorted (new es)
unfolding new
new-IsSorted [] = tt
new-IsSorted (e ∷ es) = insert_entry-IsSorted e (new es) (new-IsSorted es)

on_page-above :
    (es : PatchSet) (pfn : ℕ) → All (λ e. pfn < to_pfn e.address) es → on_page es pfn ≡ []
unfolding on_page
on_page-above [] pfn h = refl
on_page-above (e ∷ es) pfn h = ground (arith, on_page-above es pfn h.1)

partition-above :
    (es : PatchSet) (pfn : ℕ)
    → All (λ e. pfn < to_pfn e.address) es
    → partition_point (λ e. leb (to_pfn e.address) pfn) es ≡ 0
unfolding partition_point
partition-above [] pfn h = refl
partition-above (e ∷ es) pfn h = ground arith

partition-from :
    (es : PatchSet) (pfn : ℕ)
    → All (λ e. pfn ≤ to_pfn e.address) es
    → partition_point (λ e. ltb (to_pfn e.address) pfn) es ≡ 0
unfolding partition_point
partition-from [] pfn h = refl
partition-from (e ∷ es) pfn h = ground arith

-- On a sorted list the two binary searches select the entries of the page, no more and no fewer.
pub select-on_page : (es : PatchSet) (pfn : ℕ) → IsSorted es → select es pfn ≡ on_page es pfn
unfolding select on_page partition_point
select-on_page [] pfn h = refl
select-on_page (e ∷ es) pfn h = elim (Bool-cases (ltb (to_pfn e.address) pfn)) [
  | inl below ↦
      let le : leb (to_pfn e.address) pfn ≡ true = ground arith in
      let ne : (to_pfn e.address == pfn) ≡ false = ground arith in
      rw (below, le, ne) (select-on_page es pfn h.1)
  | inr n ↦ elim (Bool-cases (to_pfn e.address == pfn)) [
    | inl here ↦
        let le : leb (to_pfn e.address) pfn ≡ true = ground arith in
        let z = partition-from es pfn (All-mono es (λ d q. ground (arith, q)) h.0) in
        let ih = select-on_page es pfn h.1 in
        rw (n, le, here)
          (ap (◌∷◌ e) (
            ap (λ k. drop k (take (partition_point (λ d. leb (to_pfn d.address) pfn) es) es))
              (sym z)
            ∙ ih))
    | inr m ↦
        let le : leb (to_pfn e.address) pfn ≡ false = ground arith in
        rw (n, le, m) (sym (on_page-above es pfn (All-mono es (λ d q. ground (arith, q)) h.0)))
  ]
]

insert_entry-Perm : (e : PatchEntry) (es : PatchSet) → Perm (insert_entry e es) (e ∷ es)
unfolding insert_entry
insert_entry-Perm e [] = Perm.rfl
insert_entry-Perm e (d ∷ ds) = elim (Bool-cases (ltb d.address e.address)) [
  | inl y ↦ rw y (Perm.trans (Perm.cons d (insert_entry-Perm e ds)) (Perm.swap e d ds))
  | inr n ↦ rw n (Perm.rfl)
]

-- Sorting the entries neither drops nor adds any.
new-Perm : (es : List PatchEntry) → Perm (new es) es
unfolding new
new-Perm [] = Perm.rfl
new-Perm (e ∷ es) = Perm.trans (insert_entry-Perm e (new es)) (Perm.cons e (new-Perm es))

insert_entry-least :
    (e : PatchEntry) (es : PatchSet)
    → All (λ d. e.address ≤ d.address) es
    → insert_entry e es ≡ e ∷ es
unfolding insert_entry
insert_entry-least e [] h = refl
insert_entry-least e (d ∷ ds) h = ground (arith, h.0)

All-on_page :
    (P : PatchEntry → Type 0) (es : PatchSet) (pfn : ℕ) → All P es → All P (on_page es pfn)
unfolding on_page
All-on_page P [] pfn h = tt
All-on_page P (e ∷ es) pfn h = elim (Bool-cases (to_pfn e.address == pfn)) [
  | inl y ↦ rw y (h.0, All-on_page P es pfn h.1)
  | inr n ↦ rw n (All-on_page P es pfn h.1)
]

-- Inserting an entry and taking those of a page can be exchanged.
on_page-insert_entry :
    (e : PatchEntry) (es : PatchSet) (pfn : ℕ)
    → IsSorted es
    → on_page (insert_entry e es) pfn
      ≡ (if to_pfn e.address == pfn then insert_entry e (on_page es pfn) else on_page es pfn)
unfolding on_page insert_entry
on_page-insert_entry e [] pfn h = refl
on_page-insert_entry e (d ∷ ds) pfn h = elim (Bool-cases (ltb d.address e.address)) [
  | inl y ↦
      let ih = on_page-insert_entry e ds pfn h.1 in
      elim (Bool-cases (to_pfn e.address == pfn)) [
        | inl here ↦ elim (Bool-cases (to_pfn d.address == pfn)) [
          | inl both ↦ rw (y, here, both) (rw (y) (ap (◌∷◌ d) (rw here at ih)))
          | inr alone ↦ rw (y, here, alone) (rw here at ih)
        ]
        | inr there ↦ elim (Bool-cases (to_pfn d.address == pfn)) [
          | inl other ↦ rw (y, there, other) (ap (◌∷◌ d) (rw there at ih))
          | inr neither ↦ rw (y, there, neither) (rw there at ih)
        ]
      ]
  | inr n ↦
      let le : e.address ≤ d.address = ground arith in
      let all =
        All-on_page (λ x. e.address ≤ x.address) (d ∷ ds) pfn
          (le, All-mono ds (λ x q. omega arith) h.0) in
      rw n (
        ap (λ x. if to_pfn e.address == pfn then x else on_page (d ∷ ds) pfn)
          (sym (insert_entry-least e (on_page (d ∷ ds) pfn) all)))
]

on_page-new : (es : List PatchEntry) (pfn : ℕ) → on_page (new es) pfn ≡ new (on_page es pfn)
unfolding new on_page
on_page-new [] pfn = refl
on_page-new (e ∷ es) pfn =
    on_page-insert_entry e (new es) pfn (new-IsSorted es)
    ∙ elim (Bool-cases (to_pfn e.address == pfn)) [
      | inl here ↦ rw (here, on_page-new es pfn) refl
      | inr there ↦ rw (there, on_page-new es pfn) refl
    ]

-- `PatchSet::new` keeps all entries of the patch file and no others, and the patches that
-- `PatchSet::apply` then writes to a page are the entries of the file on that page, in the order of
-- their addresses.
pub select-new :
    (es : List PatchEntry) (pfn : ℕ)
    → Perm (new es) es × (select (new es) pfn ≡ new (on_page es pfn))
select-new es pfn =
    (new-Perm es, select-on_page (new es) pfn (new-IsSorted es) ∙ on_page-new es pfn)

-- `find` returns the first entry at `rip`; it returns none exactly if no entry is there.
pub find_lem :
    (es : PatchSet) (rip : ℕ)
    → ((find es rip ≡ none) × All (λ e. e.address ≢ rip) es)
      ⊎ ((e : PatchEntry) × (before : PatchSet) × (after : PatchSet) × (find es rip ≡ some e)
          × (e.address ≡ rip)
          × (es ≡ before ++ e ∷ after)
          × All (λ d. d.address ≢ rip) before)
unfolding find
find_lem [] rip = inl (refl, tt)
find_lem (e ∷ es) rip = elim (Bool-cases (e.address == rip)) [
  | inl y ↦ inr (e, [], es, rw y, ground arith, refl, tt)
  | inr n ↦ elim (find_lem es rip) [
    | inl (z, h) ↦ inl (rw n z, (ground arith, h))
    | inr (d, before, after, found, at_rip, split, h) ↦
        inr (d, e ∷ before, after, rw n found, at_rip, ap (◌∷◌ e) split, (ground arith, h))
  ]
]
