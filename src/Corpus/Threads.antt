-- ===== src/Corpus/Threads.antt =====
-- hypervisor/src/corpus.rs (`consume_file`) and hypervisor/src/hypervisor.rs (the increment of
-- `active_thread_count` in `start_hypervisor`): the processors that share the corpus. Each atomic
-- operation and each use of the lock is one step, and the steps of the processors interleave freely.
use hypervisor_101_in_rust.Prelude.{
  ℕ, zero, suc, ◌+◌, ◌^◌, ◌≤◌, ◌<◌, ◌≡◌, ◌≢◌, refl, sym, ap, ◌∙◌, false, inl, inr, arith, none,
  some, List, [], ◌∷◌, ◌++◌, ◌==◌, Bool-cases, update, pop, wrapping_add, wrapping_sub,
}
use hypervisor_101_in_rust.Input.{InputFile}

-- Where a processor is: before `start_hypervisor`, fuzzing, in the loop of `consume_file` before it
-- takes the lock or after it found no file, behind the loop with a file, or panicked.
pub data Phase : Type 0 where
  idle fuzzing searching empty_handed stopped : Phase
  holding : InputFile → Phase

pub record Shared : Type 0 where
  pub files : List InputFile
  pub active_thread_count : ℕ
  pub phases : ℕ → Phase

abbrev pub move : Shared → ℕ → Phase → (active : ℕ) → List InputFile → Shared
move s i phase active files = record {
  files = files;
  active_thread_count = active;
  phases = update s.phases i phase;
}

-- The steps of processor `i`, one of `cores`.
pub data Step (cores : ℕ) (s : Shared) : Shared → Type 0 where
  -- `fetch_add` of `start_hypervisor`
  start :
      (i : ℕ)
      → i < cores
      → s.phases i ≡ idle
      → Step cores s (move s i fuzzing (wrapping_add s.active_thread_count 1) s.files)
  -- `add_file`
  add :
      (i : ℕ) (f : InputFile)
      → i < cores
      → s.phases i ≡ fuzzing
      → Step cores s (move s i fuzzing s.active_thread_count (s.files ++ (f ∷ [])))
  -- `fetch_sub`
  enter :
      (i : ℕ)
      → i < cores
      → s.phases i ≡ fuzzing
      → Step cores s (move s i searching (wrapping_sub s.active_thread_count 1) s.files)
  -- `pop`
  take :
      (i : ℕ) (f : InputFile) (rest : List InputFile)
      → i < cores
      → s.phases i ≡ searching
      → pop s.files ≡ some (f, rest)
      → Step cores s (move s i (holding f) s.active_thread_count rest)
  miss :
      (i : ℕ)
      → i < cores
      → s.phases i ≡ searching
      → pop s.files ≡ none
      → Step cores s (move s i empty_handed s.active_thread_count s.files)
  -- the assertion
  retry :
      (i : ℕ)
      → i < cores
      → s.phases i ≡ empty_handed
      → 0 < s.active_thread_count
      → Step cores s (move s i searching s.active_thread_count s.files)
  give_up :
      (i : ℕ)
      → i < cores
      → s.phases i ≡ empty_handed
      → s.active_thread_count ≡ 0
      → Step cores s (move s i stopped s.active_thread_count s.files)
  -- `fetch_add` behind the loop
  leave :
      (i : ℕ) (f : InputFile)
      → i < cores
      → s.phases i ≡ holding f
      → Step cores s (move s i fuzzing (wrapping_add s.active_thread_count 1) s.files)

abbrev pub initial : List InputFile → Shared
initial files = record { files = files; active_thread_count = 0; phases = λ i. idle }

pub data Reachable (cores : ℕ) (files : List InputFile) : Shared → Type 0 where
  initially : Reachable cores files (initial files)
  then_step : {s s' : Shared} → Reachable cores files s → Step cores s s' → Reachable cores files s'

abbrev fuzzes : Phase → ℕ
fuzzes fuzzing = 1
fuzzes phase = 0

unfoldable pub count_fuzzing : (ℕ → Phase) → (n : ℕ) → ℕ
count_fuzzing phases zero = 0
count_fuzzing phases (suc n) = count_fuzzing phases n + fuzzes (phases n)

count_fuzzing-above :
    (phases : ℕ → Phase) (i : ℕ) (p : Phase) (n : ℕ)
    → n ≤ i
    → count_fuzzing (update phases i p) n ≡ count_fuzzing phases n
unfolding count_fuzzing
count_fuzzing-above phases i p zero h = refl
count_fuzzing-above phases i p (suc n) h =
    let ne : (n == i) ≡ false = ground arith in
    rw (ne, count_fuzzing-above phases i p n (omega arith))

count_fuzzing-update :
    (phases : ℕ → Phase) (i : ℕ) (p : Phase) (n : ℕ)
    → i < n
    → count_fuzzing (update phases i p) n + fuzzes (phases i) ≡ count_fuzzing phases n + fuzzes p
unfolding count_fuzzing
count_fuzzing-update phases i p zero h = absurd (omega arith)
count_fuzzing-update phases i p (suc n) h = elim (Bool-cases (n == i)) [
  | inl y ↦
      let e : n ≡ i = ground arith in
      let same : fuzzes (phases n) ≡ fuzzes (phases i) = ap (λ k. fuzzes (phases k)) e in
      rw (y, count_fuzzing-above phases i p n (omega arith)) (omega (arith, same))
  | inr m ↦ rw m (omega (arith, count_fuzzing-update phases i p n (ground arith)))
]

count_fuzzing-bound : (phases : ℕ → Phase) (n : ℕ) → count_fuzzing phases n ≤ n
unfolding count_fuzzing
count_fuzzing-bound phases zero = omega arith
count_fuzzing-bound phases (suc n) =
    omega (arith, count_fuzzing-bound phases n, fuzzes-bound (phases n))
  where
    fuzzes-bound : (p : Phase) → fuzzes p ≤ 1
    fuzzes-bound idle = omega arith
    fuzzes-bound fuzzing = omega arith
    fuzzes-bound searching = omega arith
    fuzzes-bound empty_handed = omega arith
    fuzzes-bound stopped = omega arith
    fuzzes-bound (holding f) = omega arith

-- How the number changes when processor `i` moves.
moved :
    (cores : ℕ) (s : Shared) (i : ℕ) (old new : Phase)
    → i < cores
    → s.phases i ≡ old
    → count_fuzzing (update s.phases i new) cores + fuzzes old
      ≡ count_fuzzing s.phases cores + fuzzes new
moved cores s i old new l p =
    ap (λ q. count_fuzzing (update s.phases i new) cores + fuzzes q) (sym p)
    ∙ count_fuzzing-update s.phases i new cores l

-- The counter agrees with the phases.
abbrev pub IsCounted : (cores : ℕ) → Shared → Type 0
IsCounted cores s = s.active_thread_count ≡ count_fuzzing s.phases cores

Step-IsCounted :
    (cores : ℕ) {s s' : Shared}
    → cores < 2 ^ 64
    → IsCounted cores s
    → Step cores s s'
    → IsCounted cores s'
Step-IsCounted cores {s} bound h (start i l p) =
    omega (
      arith,
      moved cores s i idle fuzzing l p,
      count_fuzzing-bound (update s.phases i fuzzing) cores,
    )
Step-IsCounted cores {s} bound h (add i f l p) = omega (arith, moved cores s i fuzzing fuzzing l p)
Step-IsCounted cores {s} bound h (enter i l p) =
    omega (arith, moved cores s i fuzzing searching l p, count_fuzzing-bound s.phases cores)
Step-IsCounted cores {s} bound h (take i f rest l p q) =
    omega (arith, moved cores s i searching (holding f) l p)
Step-IsCounted cores {s} bound h (miss i l p q) =
    omega (arith, moved cores s i searching empty_handed l p)
Step-IsCounted cores {s} bound h (retry i l p q) =
    omega (arith, moved cores s i empty_handed searching l p)
Step-IsCounted cores {s} bound h (give_up i l p q) =
    omega (arith, moved cores s i empty_handed stopped l p)
Step-IsCounted cores {s} bound h (leave i f l p) = omega (
  arith,
  moved cores s i (holding f) fuzzing l p,
  count_fuzzing-bound (update s.phases i fuzzing) cores,
)

none_fuzzing :
    (phases : ℕ → Phase) (n i : ℕ) → count_fuzzing phases n ≡ 0 → i < n → phases i ≢ fuzzing
unfolding count_fuzzing
none_fuzzing phases zero i h l p = absurd (omega arith)
none_fuzzing phases (suc n) i h l p = elim (Bool-cases (i == n)) [
  | inl y ↦
      let e : i ≡ n = ground arith in
      let one : fuzzes (phases n) ≡ 1 = ap (λ k. fuzzes (phases k)) (sym e) ∙ ap fuzzes p in
      absurd (omega (arith, one))
  | inr m ↦ none_fuzzing phases n i (omega arith) (ground arith) p
]

-- However the steps of the processors interleave, `active_thread_count` is the number of processors
-- that are fuzzing; so a processor whose assertion fails, as it finds the counter at 0, panics only
-- when no processor is fuzzing.
pub Reachable-IsCounted :
    (cores : ℕ) (files : List InputFile) {s : Shared}
    → cores < 2 ^ 64
    → Reachable cores files s
    → (s.active_thread_count ≡ count_fuzzing s.phases cores)
      × ((s.active_thread_count ≡ 0) → (i : ℕ) → i < cores → s.phases i ≢ fuzzing)
unfolding count_fuzzing
Reachable-IsCounted cores files bound initially = (sym (none_yet cores), λ z i l p. absurd (cc))
  where
    none_yet : (n : ℕ) → count_fuzzing (λ i. idle) n ≡ 0
    none_yet zero = refl
    none_yet (suc n) = omega (arith, none_yet n)
Reachable-IsCounted cores files {s} bound (then_step r step) =
    let counted = Step-IsCounted cores bound (Reachable-IsCounted cores files bound r).0 step in
    (counted, λ z i l. none_fuzzing s.phases cores i (sym counted ∙ z) l)
