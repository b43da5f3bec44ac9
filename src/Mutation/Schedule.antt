-- ===== src/Mutation/Schedule.antt =====
-- The iterations over one input file, in the order of `map_and_mutate_input`.
use mathlib.Core.Path.{ap₂}
use hypervisor_101_in_rust.Prelude.{
  ℕ, zero, suc, ◌+◌, ◌-◌, ◌*◌, ◌/◌, ◌%◌, ◌≤◌, ◌<◌, ◌≡◌, ◌≢◌, ◌⊎◌, refl, sym, ap, ◌∙◌, false, inl,
  inr, arith, Exec, ok, ◌>>=◌, ◌==◌, Bool-cases, length, get_or,
}
use hypervisor_101_in_rust.Config.{Features}
use hypervisor_101_in_rust.Memory.{page_size, Memory}
use hypervisor_101_in_rust.Input.{InputFile}
use hypervisor_101_in_rust.Mutation.{
  MutationEngine, of_file, to_file, is_done, mutate_input, count_mutation,
  copy_input_to_guest_memory, map_and_mutate_input,
}
use hypervisor_101_in_rust.Mutation.Pages.{read_byte, read-copy_bytes}
use hypervisor_101_in_rust.Mutation.Flip.{flip_bit-ne, seen, IsFlipped, bit_flip_input-seen}

copied-IsFlipped :
    (e : MutationEngine) (mem : Memory) (next : InputFile)
    → length next.bytes ≤ e.input_page_count * page_size
    → ((j : ℕ) → get_or next.bytes j 0 < 256)
    → IsFlipped (record e { current_input = of_file next }) (copy_input_to_guest_memory e mem next)
unfolding of_file copy_input_to_guest_memory
copied-IsFlipped e mem next fits octets = record {
  fits = fits;
  octets = octets;
  total = refl;
  bounded = omega arith;
  shown = λ j l.
      ap (read_byte (copy_input_to_guest_memory e mem next) e.input_pages) (omega arith)
      ∙ read-copy_bytes _ e.input_pages 0 next.bytes j l;
}

-- With sequential bit flipping, `map_and_mutate_input` does not panic and keeps `IsFlipped`. If all
-- bits of the current file have been flipped, it goes on to the next file, which the guest first
-- sees unmutated; otherwise it goes on to the next bit of the same file.
pub map_and_mutate_input-IsFlipped :
    (features : Features) (tsc : ℕ → ℕ) (next : InputFile) (e : MutationEngine) (mem : Memory)
    → features.random_byte_modification ≡ false
    → length next.bytes ≤ e.input_page_count * page_size
    → ((j : ℕ) → get_or next.bytes j 0 < 256)
    → IsFlipped e mem
    → (e' : MutationEngine) × (mem' : Memory) × (map_and_mutate_input features tsc next e mem
        ≡ ok (e', mem'))
      × IsFlipped e' mem'
      × (((e.current_input.mutation_count ≡ e.current_input.total_bits)
            × (e'.current_input ≡ of_file next))
          ⊎ ((e.current_input.mutation_count < e.current_input.total_bits)
              × (e'.current_input.input ≡ e.current_input.input)
              × (e'.current_input.mutation_count ≡ e.current_input.mutation_count + 1)))
unfolding map_and_mutate_input mutate_input is_done of_file
map_and_mutate_input-IsFlipped features tsc next e mem bits fits octets v =
    elim (Bool-cases (e.current_input.mutation_count == e.current_input.total_bits)) [
      | inl y ↦ (
        record e { current_input = of_file next },
        copy_input_to_guest_memory e mem next,
        rw (bits, y),
        copied-IsFlipped e mem next fits octets,
        inl (ground arith, refl),
      )
      | inr n ↦
          let more : e.current_input.mutation_count < e.current_input.total_bits =
            ground (arith, v.bounded) in
          let (mem', did, read) = bit_flip_input-seen e mem v more in
          (
            count_mutation e,
            mem',
            rw (bits, n, did),
            record {
              fits = v.fits;
              octets = v.octets;
              total = v.total;
              bounded = omega arith;
              shown = read;
            },
            inr (more, refl, refl),
          )
    ]

-- The iterations on one file: the first copies it, and each later one mutates it.
pub iterate :
    Features → (ℕ → ℕ) → InputFile → ℕ → MutationEngine → Memory → Exec (MutationEngine × Memory)
iterate features tsc file zero e mem =
    ok (record e { current_input = of_file file }, copy_input_to_guest_memory e mem file)
iterate features tsc file (suc k) e mem = do
  (e', mem') ← iterate features tsc file k e mem
  mutate_input features tsc e' mem'

iterate-IsFlipped :
    (features : Features) (tsc : ℕ → ℕ) (file : InputFile) (k : ℕ) (e : MutationEngine)
    (mem : Memory)
    → features.random_byte_modification ≡ false
    → length file.bytes ≤ e.input_page_count * page_size
    → ((j : ℕ) → get_or file.bytes j 0 < 256)
    → k ≤ length file.bytes * 8
    → (e' : MutationEngine) × (mem' : Memory) × (iterate features tsc file k e mem ≡ ok (e', mem'))
      × IsFlipped e' mem'
      × (e'.current_input.input ≡ file)
      × (e'.current_input.mutation_count ≡ k)
      × (e'.input_pages ≡ e.input_pages)
unfolding iterate of_file mutate_input count_mutation
iterate-IsFlipped features tsc file zero e mem bits fits octets h = (
  record e { current_input = of_file file },
  copy_input_to_guest_memory e mem file,
  refl,
  copied-IsFlipped e mem file fits octets,
  refl,
  refl,
  refl,
)
iterate-IsFlipped features tsc file (suc k) e mem bits fits octets h =
    let (e₁, mem₁, did, v, same, count, pages) =
      iterate-IsFlipped features tsc file k e mem bits fits octets (omega arith) in
    let more : e₁.current_input.mutation_count < e₁.current_input.total_bits =
      omega (arith, v.total, count, ap (λ (f : InputFile). length f.bytes) same) in
    let (mem₂, flipped, read) = bit_flip_input-seen e₁ mem₁ v more in
    (
      count_mutation e₁,
      mem₂,
      rw (did, bits, flipped),
      record {
        fits = v.fits;
        octets = v.octets;
        total = v.total;
        bounded = omega arith;
        shown = read;
      },
      same,
      omega (arith, count),
      pages,
    )

-- After `k` mutations of a file that fits the input data pages, `k` at most the number of its bits,
-- the guest sees each byte of the file as it is but for bit number `k - 1`, which is flipped, and
-- nothing panics.
pub iterate-seen :
    (features : Features) (tsc : ℕ → ℕ) (file : InputFile) (k : ℕ) (e : MutationEngine)
    (mem : Memory)
    → features.random_byte_modification ≡ false
    → length file.bytes ≤ e.input_page_count * page_size
    → ((j : ℕ) → get_or file.bytes j 0 < 256)
    → k ≤ length file.bytes * 8
    → (e' : MutationEngine) × (mem' : Memory) × (iterate features tsc file k e mem ≡ ok (e', mem'))
      × ((j : ℕ) → j < length file.bytes → read_byte mem' e.input_pages j ≡ seen file.bytes k j)
iterate-seen features tsc file k e mem bits fits octets h =
    let (e', mem', did, v, same, count, pages) =
      iterate-IsFlipped features tsc file k e mem bits fits octets h in
    (
      e',
      mem',
      did,
      λ j l.
          ap (λ base. read_byte mem' base j) (sym pages)
          ∙ v.shown j (omega (arith, ap (λ (f : InputFile). length f.bytes) same))
          ∙ ap₂ (λ (f : InputFile) n. seen f.bytes n j) same count,
    )

-- What `MutatingInput::data` saves for the corpus after at least one mutation is not what the guest
-- has run on: it is the file with no bit flipped, which differs from the input data pages at the
-- byte of the flipped bit.
pub to_file-unmutated :
    (e : MutationEngine) (mem : Memory)
    → IsFlipped e mem
    → 0 < e.current_input.mutation_count
    → ((to_file e.current_input).bytes ≡ e.current_input.input.bytes)
      × (let j = (e.current_input.mutation_count - 1) / 8 in
          (j < length (to_file e.current_input).bytes)
          × (read_byte mem e.input_pages j ≢ get_or (to_file e.current_input).bytes j 0))
unfolding to_file
to_file-unmutated e mem v mutated =
    let k = e.current_input.mutation_count in
    let j = (k - 1) / 8 in
    let l : j < length e.current_input.input.bytes = omega (arith, v.bounded, v.total) in
    (
      refl,
      (
        l,
        λ same. ground (
          arith,
          v.shown j l,
          same,
          flip_bit-ne (get_or e.current_input.input.bytes j 0) ((k - 1) % 8) (v.octets j)
              (omega arith),
        ),
      ),
    )
