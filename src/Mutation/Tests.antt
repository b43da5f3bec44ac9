-- ===== src/Mutation/Tests.antt =====
-- Sequential bit flipping of a file of two bytes.
use hypervisor_101_in_rust.Prelude.{
  ℕ, ◌+◌, ◌-◌, ◌*◌, ◌/◌, ◌≤◌, ◌<◌, ◌≡◌, ◌≢◌, ◌⊎◌, refl, sym, subst, arith, true, false, ap, ◌==◌,
  if◌then◌else◌, [], ◌∷◌, length, get_or, ok, zero, suc,
}
use hypervisor_101_in_rust.Config.{Features}
use hypervisor_101_in_rust.Memory.{page_size, Memory}
use hypervisor_101_in_rust.Input.{InputFile, file_name}
use hypervisor_101_in_rust.Mutation.{
  MutationEngine, new, of_file, to_file, is_done, copy_input_to_guest_memory, map_and_mutate_input,
}
use hypervisor_101_in_rust.Mutation.Pages.{read_byte, copy_bytes, zero_pages}
use hypervisor_101_in_rust.Mutation.Changes.{
  IsChanged, IsShown, IsDistinct, draw, map_and_mutate_input-IsChanged,
}
use hypervisor_101_in_rust.Mutation.Flip.{seen, IsFlipped}
use hypervisor_101_in_rust.Mutation.Schedule.{
  map_and_mutate_input-IsFlipped, iterate, iterate-seen, to_file-unmutated,
}

abbrev pub bit_flipping : Features
bit_flipping = record {
  random_byte_modification = false;
  stdout_stats_report = false;
  trace_log = false;
}

abbrev pub tsc : ℕ → ℕ
tsc k = 100 + k

abbrev pub two_bytes : InputFile
two_bytes = record { bytes = 0xa5 ∷ 0x01 ∷ []; name = file_name "input" }

abbrev pub fresh : MutationEngine
fresh = new 0x50_0000 1

abbrev pub memory : Memory
memory address offset = 0

pub fits : length two_bytes.bytes ≤ fresh.input_page_count * page_size
unfolding new
fits = omega arith

pub octets : (j : ℕ) → get_or two_bytes.bytes j 0 < 256
octets zero = omega arith
octets (suc zero) = omega arith
octets (suc (suc j)) = omega arith

pub fresh-IsFlipped : IsFlipped fresh memory
unfolding new
fresh-IsFlipped = record {
  fits = omega arith;
  octets = λ j. omega arith;
  total = refl;
  bounded = omega arith;
  shown = λ j l. absurd (omega arith);
}

map_and_mutate_input-IsFlipped_example :
    (e' : MutationEngine) × (mem' : Memory) × (map_and_mutate_input bit_flipping tsc two_bytes fresh
        memory
      ≡ ok (e', mem'))
    × IsFlipped e' mem'
    × (((fresh.current_input.mutation_count ≡ fresh.current_input.total_bits)
          × (e'.current_input ≡ of_file two_bytes))
        ⊎ ((fresh.current_input.mutation_count < fresh.current_input.total_bits)
            × (e'.current_input.input ≡ fresh.current_input.input)
            × (e'.current_input.mutation_count ≡ fresh.current_input.mutation_count + 1)))
map_and_mutate_input-IsFlipped_example =
    map_and_mutate_input-IsFlipped bit_flipping tsc two_bytes fresh memory refl fits octets
      fresh-IsFlipped

iterate-seen_example :
    (e' : MutationEngine) × (mem' : Memory) × (iterate bit_flipping tsc two_bytes 9 fresh memory
      ≡ ok (e', mem'))
    × ((j : ℕ)
        → j < length two_bytes.bytes
        → read_byte mem' fresh.input_pages j ≡ seen two_bytes.bytes 9 j)
iterate-seen_example =
    iterate-seen bit_flipping tsc two_bytes 9 fresh memory refl fits octets (omega arith)

-- The engine after a file of one byte has been copied and its first bit flipped.
abbrev mutated : MutationEngine
mutated = record {
  current_input = record (of_file (record { bytes = 4 ∷ []; name = file_name "input" })) {
    mutation_count = 1;
  };
  input_pages = 0x50_0000;
  input_page_count = 1;
}

abbrev flipped : Memory
flipped address offset = 5

mutated-IsFlipped : IsFlipped mutated flipped
unfolding of_file
mutated-IsFlipped = record {
  fits = omega arith;
  octets = small;
  total = refl;
  bounded = omega arith;
  shown = λ j l. at_start j (omega arith);
}
  where
    small : (j : ℕ) → get_or (4 ∷ []) j 0 < 256
    small zero = omega arith
    small (suc j) = omega arith

    at_start : (j : ℕ) → j ≡ 0 → 5 ≡ seen (4 ∷ []) 1 j
    at_start j z = subst (λ (x : ℕ). 5 ≡ seen (4 ∷ []) 1 x) (sym z) refl

to_file-unmutated_example :
    ((to_file mutated.current_input).bytes ≡ mutated.current_input.input.bytes)
    × (let j = (mutated.current_input.mutation_count - 1) / 8 in
        (j < length (to_file mutated.current_input).bytes)
        × (read_byte flipped mutated.input_pages j
            ≢ get_or (to_file mutated.current_input).bytes j 0))
to_file-unmutated_example = to_file-unmutated mutated flipped mutated-IsFlipped (omega arith)

abbrev byte_changing : Features
byte_changing = record {
  random_byte_modification = true;
  stdout_stats_report = false;
  trace_log = false;
}

-- Time stamps that draw two bytes, at the offsets 0 and 1.
abbrev two_draws : ℕ → ℕ
two_draws k = if k == 0 then 1 else k / 2

abbrev copied : MutationEngine
copied = record fresh { current_input = of_file two_bytes }

abbrev copied_memory : Memory
copied_memory = copy_input_to_guest_memory fresh memory two_bytes

copied-IsShown : IsShown copied copied_memory
unfolding new of_file copy_input_to_guest_memory copy_bytes zero_pages
copied-IsShown zero l = refl
copied-IsShown (suc zero) l = refl
copied-IsShown (suc (suc j)) l = absurd (omega arith)

copied-IsChanged : IsChanged copied copied_memory
unfolding of_file
copied-IsChanged = record {
  few = omega arith;
  fresh = λ z. refl;
  within = λ i l. absurd (omega arith);
  saved = λ i l. absurd (omega arith);
  shown = λ j l avoids. copied-IsShown j l;
}

two_draws-IsDistinct : IsDistinct two_draws copied
unfolding of_file
two_draws-IsDistinct i j l m =
    let first : i ≡ 0 = omega arith in
    let second : j ≡ 1 = omega arith in
    λ e. absurd (cc (ap (draw two_draws 2) first, ap (draw two_draws 2) second))

map_and_mutate_input-IsChanged_example :
    (e' : MutationEngine) × (mem' : Memory) × (map_and_mutate_input byte_changing two_draws
        two_bytes copied copied_memory
      ≡ ok (e', mem'))
    × IsChanged e' mem'
    × (((is_done byte_changing copied.current_input ≡ true)
          × (e'.current_input ≡ of_file two_bytes))
        ⊎ ((is_done byte_changing copied.current_input ≡ false)
            × (e'.current_input.input ≡ copied.current_input.input)
            × (e'.current_input.mutation_count ≡ copied.current_input.mutation_count + 1)))
map_and_mutate_input-IsChanged_example =
    map_and_mutate_input-IsChanged byte_changing two_draws two_bytes copied copied_memory refl
      two_draws-IsDistinct copied-IsChanged
