-- ===== src/Mutation/Exhaust.antt =====
-- hypervisor/src/mutation_engine.rs (`map_and_mutate_input`) and hypervisor/src/corpus.rs
-- (`consume_file`): how long the corpus lasts on a single processor.
mod Tests
use hypervisor_101_in_rust.Prelude.{
  ℕ, zero, suc, ◌+◌, ◌-◌, ◌*◌, ◌≤◌, ◌<◌, ◌≡◌, ◌≢◌, ◌⊎◌, refl, sym, ap, ◌∙◌, subst, false, inl, inr,
  arith, Option, none, some, List, [], ◌∷◌, Exec, ok, panic, ◌>>=◌, ◌==◌, if◌then◌else◌, Bool-cases,
  Option-cases, Satisfies-ok, length, get_or, pop,
}
use hypervisor_101_in_rust.Config.{Features}
use hypervisor_101_in_rust.Memory.{page_size, Memory}
use hypervisor_101_in_rust.Input.{InputFile}
use hypervisor_101_in_rust.Corpus.{Corpus, select_file}
use hypervisor_101_in_rust.Mutation.{
  MutatingInput, MutationEngine, of_file, is_done, map_and_mutate_input,
}
use hypervisor_101_in_rust.Mutation.Flip.{IsFlipped}
use hypervisor_101_in_rust.Mutation.Writes.{Wrote, map_and_mutate_input-Wrote}
use hypervisor_101_in_rust.Mutation.Schedule.{map_and_mutate_input-IsFlipped}

-- `consume_file` on the only processor that fuzzes: it is not active in the loop, so the assertion
-- fails if there is no file.
unfoldable pub consume_file : Corpus → Exec (InputFile × Corpus)
consume_file c = elim (pop c.files) [
  | none ↦ panic
  | some (file, rest) ↦ ok (file, record c { files = rest })
]

-- The choice of the next file in `map_and_mutate_input`, where `tsc` is for `select_file`.
unfoldable pub next_file : Features → (tsc : ℕ) → Corpus → Exec (InputFile × Corpus)
unfolding consume_file
next_file features tsc c =
    if features.random_byte_modification
    then (select_file tsc c >>= λ file. ok (file, c))
    else consume_file c

-- `map_and_mutate_input` with the corpus that it takes a file from.
unfoldable pub map_next :
    Features
    → (tsc : ℕ → ℕ) → Corpus
    → MutationEngine
    → Memory
    → Exec (Corpus × MutationEngine × Memory)
unfolding next_file
map_next features tsc c e mem =
    if is_done features e.current_input
    then (do
      (file, c') ← next_file features (tsc 0) c
      (e', mem') ← map_and_mutate_input features tsc file e mem
      ok (c', e', mem'))
    else (do
      (e', mem') ← map_and_mutate_input features tsc e.current_input.input e mem
      ok (c, e', mem'))

-- The first `n` iterations as far as they choose and mutate inputs, if none of them adds a file.
pub map_inputs :
    Features
    → (tsc : ℕ → ℕ → ℕ) → (n : ℕ) → Corpus
    → MutationEngine
    → Memory
    → Exec (Corpus × MutationEngine × Memory)
map_inputs features tsc zero c e mem = ok (c, e, mem)
map_inputs features tsc (suc n) c e mem = do
  (c', e', mem') ← map_next features (tsc n) c e mem
  map_inputs features tsc n c' e' mem'

-- A file is run once as it is, and once for each of its bits.
unfoldable pub runs_of : List InputFile → ℕ
runs_of [] = 0
runs_of (file ∷ files) = length file.bytes * 8 + 1 + runs_of files

-- The iterations that the current input and the files of the corpus are left for.
abbrev pub remaining : Corpus → MutationEngine → ℕ
remaining c e = e.current_input.total_bits - e.current_input.mutation_count + runs_of c.files

-- The files fit `count` pages and hold bytes.
abbrev pub AllFit : (count : ℕ) → List InputFile → Type 0
AllFit count [] = Unit
AllFit count (file ∷ files) =
    (length file.bytes ≤ count * page_size)
    × ((j : ℕ) → get_or file.bytes j 0 < 256)
    × AllFit count files

-- What taking a file off leaves.
pub record Popped (count : ℕ) (files : List InputFile) (file : InputFile) (rest : List InputFile)
    : Type 0 where
  pub fits : length file.bytes ≤ count * page_size
  pub octets : (j : ℕ) → get_or file.bytes j 0 < 256
  pub others : AllFit count rest
  pub runs : runs_of files ≡ length file.bytes * 8 + 1 + runs_of rest

pop-cases :
    (count : ℕ) (files : List InputFile)
    → AllFit count files
    → ((pop files ≡ none) × (runs_of files ≡ 0))
      ⊎ ((file : InputFile) × (rest : List InputFile) × (pop files ≡ some (file, rest))
          × Popped count files file rest)
unfolding runs_of
pop-cases count [] fit = inl (refl, refl)
pop-cases count (x ∷ xs) (fits, octets, fit) = elim (pop-cases count xs fit) [
  | inl (empty, no_runs) ↦ inr (
    x,
    [],
    rw empty refl,
    record { fits = fits; octets = octets; others = tt; runs = omega arith },
  )
  | inr (file, rest, more, p) ↦ inr (
    file,
    x ∷ rest,
    rw more refl,
    record {
      fits = p.fits;
      octets = p.octets;
      others = (fits, octets, p.others);
      runs = omega (arith, p.runs);
    },
  )
]

is_done-bits :
    (features : Features) (m : MutatingInput)
    → features.random_byte_modification ≡ false
    → is_done features m ≡ (m.mutation_count == m.total_bits)
unfolding is_done
is_done-bits features m bits = rw bits refl

next_file-popped :
    (features : Features) (tsc : ℕ) (c : Corpus) (popped : Option (InputFile × List InputFile))
    → features.random_byte_modification ≡ false
    → pop c.files ≡ popped
    → next_file features tsc c
      ≡ elim popped [ none ↦ panic | some (file, rest) ↦ ok (file, record c { files = rest }) ]
unfolding next_file consume_file
next_file-popped features tsc c popped bits e = rw bits (rw (e, consume_file) refl)

-- One iteration: it uses up one of the remaining ones, or there is none, and it panics.
map_next-cases :
    (features : Features) (tsc : ℕ → ℕ) (c : Corpus) (e : MutationEngine) (mem : Memory)
    → features.random_byte_modification ≡ false
    → IsFlipped e mem
    → AllFit e.input_page_count c.files
    → ((remaining c e ≡ 0) × (map_next features tsc c e mem ≡ panic))
      ⊎ ((c' : Corpus) × (e' : MutationEngine) × (mem' : Memory) × (map_next features tsc c e mem
            ≡ ok (c', e', mem'))
          × IsFlipped e' mem'
          × AllFit e'.input_page_count c'.files
          × (remaining c e ≡ remaining c' e' + 1))
unfolding map_next of_file
map_next-cases features tsc c e mem bits v fit =
    let done = is_done-bits features e.current_input bits in
    elim (Bool-cases (e.current_input.mutation_count == e.current_input.total_bits)) [
      | inl y ↦ elim (pop-cases e.input_page_count c.files fit) [
        | inl (empty, no_runs) ↦
            inl
              (ground arith, rw (done, y, next_file-popped features (tsc 0) c none bits empty) refl)
        | inr (file, rest, popped, p) ↦
            let (e', mem', did, v', how) =
              map_and_mutate_input-IsFlipped features tsc file e mem bits p.fits p.octets v in
            let w = mapped e' mem' file p.fits did in
            elim how [
              | inl (last, now) ↦ inr (
                record c { files = rest },
                e',
                mem',
                rw
                    (
                      done,
                      y,
                      next_file-popped features (tsc 0) c (some (file, rest)) bits popped,
                      did,
                    )
                    refl,
                v',
                subst (λ n. AllFit n rest) (sym w.count) p.others,
                omega (
                  arith,
                  p.runs,
                  ap (λ (m : MutatingInput). m.total_bits) now,
                  ap (λ (m : MutatingInput). m.mutation_count) now,
                ),
              )
              | inr (more, _, _) ↦ absurd (ground arith)
            ]
      ]
      | inr n ↦
          let file = e.current_input.input in
          let (e', mem', did, v', how) =
            map_and_mutate_input-IsFlipped features tsc file e mem bits v.fits v.octets v in
          let w = mapped e' mem' file v.fits did in
          elim how [
            | inl (last, now) ↦ absurd (ground arith)
            | inr (more, same, count) ↦ inr (
              c,
              e',
              mem',
              rw (done, n, did) refl,
              v',
              subst (λ k. AllFit k c.files) (sym w.count) fit,
              omega (arith, v.total, v'.total, ap (λ (f : InputFile). length f.bytes) same),
            )
          ]
    ]
  where
    mapped :
        (e' : MutationEngine) (mem' : Memory) (file : InputFile)
        → length file.bytes ≤ e.input_page_count * page_size
        → map_and_mutate_input features tsc file e mem ≡ ok (e', mem')
        → Wrote e mem e' mem'
    mapped e' mem' file fits did =
        Satisfies-ok _ (map_and_mutate_input features tsc file e mem)
          (map_and_mutate_input-Wrote e v.fits features tsc file mem fits) did

-- With sequential bit flipping on a single processor, and while no file is added, fuzzing goes on for
-- exactly as many iterations as remain: one for each bit that is left of the current input, and for
-- each file of the corpus one as it is and one for each of its bits. It does not panic before, and
-- panics then.
pub map_inputs-ends :
    (features : Features) (tsc : ℕ → ℕ → ℕ) (n : ℕ) (c : Corpus) (e : MutationEngine) (mem : Memory)
    → features.random_byte_modification ≡ false
    → IsFlipped e mem
    → AllFit e.input_page_count c.files
    → ((remaining c e < n) × (map_inputs features tsc n c e mem ≡ panic))
      ⊎ ((c' : Corpus) × (e' : MutationEngine) × (mem' : Memory) × (map_inputs features tsc n c e
              mem
            ≡ ok (c', e', mem'))
          × (remaining c e ≡ remaining c' e' + n))
unfolding map_inputs
map_inputs-ends features tsc zero c e mem bits v fit = inr (c, e, mem, refl, omega arith)
map_inputs-ends features tsc (suc n) c e mem bits v fit =
    elim (map_next-cases features (tsc n) c e mem bits v fit) [
      | inl (none_left, did) ↦ inl (omega arith, rw did refl)
      | inr (c₁, e₁, mem₁, did, v₁, fit₁, one) ↦
          elim (map_inputs-ends features tsc n c₁ e₁ mem₁ bits v₁ fit₁) [
            | inl (few, did') ↦ inl (omega arith, rw did did')
            | inr (c₂, e₂, mem₂, did', left) ↦ inr (c₂, e₂, mem₂, rw did did', omega arith)
          ]
    ]
