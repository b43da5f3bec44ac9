-- ===== src/Mutation.antt =====
-- hypervisor/src/mutation_engine.rs: the input file of an iteration, its copy in the guest's input
-- data pages, and the two ways to mutate it.
--
-- The pages stand in the store of memory pages, from the address `input_pages` on. Reading a byte
-- of the slice that starts there is `read_byte`. The arrays of 8 elements are functions on indices
-- below 8.
pub mod Flip
pub mod Schedule
pub mod Pages
pub mod Changes
pub mod Writes
pub mod Exhaust
pub mod Tests
use hypervisor_101_in_rust.Prelude.{
  ℕ, zero, suc, ◌+◌, ◌-◌, ◌*◌, ◌/◌, ◌%◌, ◌^◌, Bool, true, false, ◌||◌, not, Option, none, some,
  List, [], ◌∷◌, bit_xor, Exec, ok, panic, ◌>>=◌, ◌>>◌, assert, ltb, leb, ◌==◌, if◌then◌else◌,
  update, length, ◌&&◌,
}
use hypervisor_101_in_rust.Config.{Features, max_iteration_count_per_file}
use hypervisor_101_in_rust.Memory.{page_size, Page, Memory, write_page, zero_page}
use hypervisor_101_in_rust.Input.{InputFile, Name, file_name, numbered}
use Pages.{page_address, read_byte, write_byte, copy_bytes, zero_pages}

pub record MutatingInput : Type 0 where
  pub input : InputFile
  pub mutation_count : ℕ
  pub max_mutation_count : ℕ
  pub offsets : ℕ → ℕ
  pub original : ℕ → ℕ
  pub total_bits : ℕ

pub record MutationEngine : Type 0 where
  pub current_input : MutatingInput
  pub input_pages : ℕ
  pub input_page_count : ℕ

-- `MutatingInput::new`
unfoldable pub of_file : InputFile → MutatingInput
of_file input = record {
  input = input;
  mutation_count = 0;
  max_mutation_count = 0;
  offsets = λ i. 0;
  original = λ i. 0;
  total_bits = length input.bytes * 8;
}

-- `MutatingInput::default`
abbrev pub no_input : MutatingInput
no_input = record {
  input = record { bytes = []; name = file_name "" };
  mutation_count = 0;
  max_mutation_count = 0;
  offsets = λ i. 0;
  original = λ i. 0;
  total_bits = 0;
}

-- `MutationEngine::new`, given the address of the allocation and `corpus.data_pages().len()`.
unfoldable pub new : (address count : ℕ) → MutationEngine
new address count = record {
  current_input = no_input;
  input_pages = address;
  input_page_count = count;
}

unfoldable pub is_mutated : MutatingInput → Bool
is_mutated m = not (m.mutation_count == 0)

-- `MutatingInput::data`
unfoldable pub to_file : MutatingInput → InputFile
to_file m = record { bytes = m.input.bytes; name = numbered m.input.name m.mutation_count }

unfoldable pub size : MutatingInput → ℕ
size m = length m.input.bytes

unfoldable pub is_done : Features → MutatingInput → Bool
is_done features m =
    if features.random_byte_modification
    then m.mutation_count == max_iteration_count_per_file || length m.input.bytes == 0
    else m.mutation_count == m.total_bits

-- `MutationEngine::resolve_page`: the address of a page, after the bounds check of the index.
unfoldable pub resolve_page : MutationEngine → ℕ → Exec ℕ
resolve_page e index =
    if ltb index e.input_page_count then ok (page_address e.input_pages index) else panic

-- `resolve_page_from_input_data`, with `corpus.data_pages()` as its two ends.
unfoldable pub resolve_page_from_input_data :
    (start end : ℕ) → (pfn : ℕ) → MutationEngine → Exec (Option ℕ)
unfolding resolve_page
resolve_page_from_input_data start end pfn e =
    if leb start pfn && ltb pfn end
    then (resolve_page e (pfn - start) >>= λ address. ok (some address))
    else ok none

-- `copy_input_to_guest_memory`
unfoldable pub copy_input_to_guest_memory : MutationEngine → Memory → InputFile → Memory
copy_input_to_guest_memory e mem input =
    copy_bytes (zero_pages mem e.input_pages e.input_page_count) e.input_pages 0 input.bytes

-- `input_pages[page].0[byte] ^= 1 << bit` at the position of bit number `n`.
unfoldable pub flip : MutationEngine → Memory → ℕ → Exec Memory
flip e mem n =
    let page_offset = n / 8 / 4096 in
    let byte_offset = n / 8 % 4096 in
    let bit_offset = n % 8 in
    if ltb page_offset e.input_page_count
    then (let address = page_address e.input_pages page_offset in
        let page = mem address in
        ok (
          write_page mem address
            (update page byte_offset (bit_xor (page byte_offset) (2 ^ bit_offset)))))
    else panic

-- `bit_flip_input`
unfoldable pub bit_flip_input : MutationEngine → Memory → Exec Memory
unfolding flip
bit_flip_input e mem = do
  mem' ← flip e mem e.current_input.mutation_count
  if leb 1 e.current_input.mutation_count
      then flip e mem' (e.current_input.mutation_count - 1)
      else ok mem'

-- The loop of `byte_change_input` that restores the first `n` bytes of the previous mutation. The
-- slice has the length of the input file, and the arrays have 8 elements.
unfoldable pub restore_bytes : MutationEngine → (n : ℕ) → Memory → Exec Memory
restore_bytes e zero mem = ok mem
restore_bytes e (suc n) mem = do
  mem' ← restore_bytes e n mem
  assert (ltb n 8 && ltb (e.current_input.offsets n) (length e.current_input.input.bytes))
  ok (write_byte mem' e.input_pages (e.current_input.offsets n) (e.current_input.original n))

-- The loop that changes `n` bytes; `tsc k` is what the `k`-th `rdtsc` of the call returns.
unfoldable pub change_bytes :
    (tsc : ℕ → ℕ) → MutationEngine → (n : ℕ) → Memory → Exec (MutationEngine × Memory)
change_bytes tsc e zero mem = ok (e, mem)
change_bytes tsc e (suc n) mem = do
  (e', mem') ← change_bytes tsc e n mem
  let m = e'.current_input
  assert (not (length m.input.bytes == 0))
  let mutation_offset = tsc (2 * n + 1) % length m.input.bytes
  assert (ltb n 8)
  let m' = record m {
    offsets = update m.offsets n mutation_offset;
    original = update m.original n (read_byte mem' e'.input_pages mutation_offset);
  }
  ok (
    record e' { current_input = m' },
    write_byte mem' e'.input_pages mutation_offset (tsc (2 * n + 2) % 2 ^ 8),
  )

-- `byte_change_input`
unfoldable pub byte_change_input :
    (tsc : ℕ → ℕ) → MutationEngine → Memory → Exec (MutationEngine × Memory)
unfolding restore_bytes change_bytes
byte_change_input tsc e mem = do
  mem' ←
      if leb 1 e.current_input.mutation_count
      then restore_bytes e e.current_input.max_mutation_count mem
      else ok mem
  let max_mutation_count = 1 + tsc 0 % 8
  let m = record (e.current_input) { max_mutation_count = max_mutation_count }
  change_bytes tsc (record e { current_input = m }) max_mutation_count mem'

count_mutation : MutationEngine → MutationEngine
count_mutation e = record e {
  current_input = record (e.current_input) { mutation_count = e.current_input.mutation_count + 1 };
}

-- `mutate_input`
unfoldable pub mutate_input :
    Features → (tsc : ℕ → ℕ) → MutationEngine → Memory → Exec (MutationEngine × Memory)
unfolding byte_change_input bit_flip_input count_mutation
mutate_input features tsc e mem =
    (if features.random_byte_modification
      then byte_change_input tsc e mem
      else (bit_flip_input e mem >>= λ mem'. ok (e, mem')))
    >>= λ (e', mem'). ok (count_mutation e', mem')

-- `map_and_mutate_input`, where `next` is the file that `corpus.select_file` or
-- `corpus.consume_file` returns if it is called.
unfoldable pub map_and_mutate_input :
    Features
    → (tsc : ℕ → ℕ) → (next : InputFile) → MutationEngine
    → Memory
    → Exec (MutationEngine × Memory)
unfolding mutate_input copy_input_to_guest_memory is_done of_file
map_and_mutate_input features tsc next e mem =
    if is_done features e.current_input
    then ok (record e { current_input = of_file next }, copy_input_to_guest_memory e mem next)
    else mutate_input features tsc e mem
