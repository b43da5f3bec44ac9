-- ===== src/Corpus/Layout.antt =====
-- hypervisor/src/corpus.rs: the place that `Corpus::new` gives the input data pages.
use hypervisor_101_in_rust.Prelude.{
  ℕ, ◌+◌, ◌-◌, ◌%◌, ◌*◌, ◌/◌, ◌^◌, ◌≤◌, ◌<◌, ◌≡◌, refl, inl, inr, arith, some, List, [], ◌∷◌,
  Bool-cases, ltb, length,
}
use hypervisor_101_in_rust.Memory.{page_size}
use hypervisor_101_in_rust.Memory.Laws.{size_to_pages-least}
use hypervisor_101_in_rust.Input.{InputFile}
use hypervisor_101_in_rust.Corpus.{Corpus, largest, with_largest, new}

-- Every file has at most `n` bytes.
abbrev pub AreWithin : ℕ → List InputFile → Type 0
AreWithin n [] = Unit
AreWithin n (f ∷ fs) = (length f.bytes ≤ n) × AreWithin n fs

AreWithin-mono : (m n : ℕ) (fs : List InputFile) → m ≤ n → AreWithin m fs → AreWithin n fs
AreWithin-mono m n [] l h = tt
AreWithin-mono m n (f ∷ fs) l h = (omega (arith, h.0), AreWithin-mono m n fs l h.1)

-- `largest` is the least bound of the lengths.
largest_lem :
    (f : InputFile) (fs : List InputFile)
    → (n : ℕ) × (largest (f ∷ fs) ≡ some n)
      × AreWithin n (f ∷ fs)
      × ((m : ℕ) → AreWithin m (f ∷ fs) → n ≤ m)
unfolding largest
largest_lem f [] = (length f.bytes, refl, (omega arith, tt), λ m h. h.0)
largest_lem f (g ∷ gs) =
    let (k, e, all, least) = largest_lem g gs in
    elim (Bool-cases (ltb k (length f.bytes))) [
      | inl y ↦ (
        length f.bytes,
        rw (e, y) refl,
        (omega arith, AreWithin-mono k (length f.bytes) (g ∷ gs) (ground arith) all),
        λ m h. h.0,
      )
      | inr n ↦ (k, rw (e, n) refl, (ground arith, all), λ m h. least m h.1)
    ]

-- The corpus of a directory that is not empty has input data pages for its largest file and no more;
-- they start one page behind the last of the snapshot, at the address given to the guest.
pub new_lem :
    (page_count : ℕ) (f : InputFile) (fs : List InputFile)
    → page_count + 1 < 2 ^ 52
    → (c : Corpus) × (new page_count (f ∷ fs) ≡ some c)
      × (c.files ≡ f ∷ fs)
      × AreWithin ((c.end_page - c.first_page) * page_size) c.files
      × ((n : ℕ) → AreWithin (n * page_size) c.files → c.end_page ≤ c.first_page + n)
      × (c.first_page ≡ page_count + 1)
      × (c.data_gva / 2 ^ 12 ≡ c.first_page)
      × (c.data_gva % 2 ^ 12 ≡ 0)
unfolding new with_largest
new_lem page_count f fs fits =
    let (n, e, all, least) = largest_lem f fs in
    let (enough, smallest) = size_to_pages-least n in
    (
      with_largest page_count n (f ∷ fs),
      rw (e, new) refl,
      refl,
      AreWithin-mono n _ (f ∷ fs) (ground (arith, enough)) all,
      λ k h. ground (arith, smallest k (least _ h)),
      refl,
      ground arith,
      ground arith,
    )
