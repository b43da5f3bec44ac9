-- ===== src/Mutation/Flip.antt =====
-- hypervisor/src/mutation_engine.rs: sequential bit flipping, and what the guest sees of the file.
use hypervisor_101_in_rust.Prelude.{
  ℕ, ◌+◌, ◌-◌, ◌*◌, ◌/◌, ◌%◌, ◌^◌, ◌≤◌, ◌<◌, ◌≡◌, ◌≢◌, refl, true, List, inl, inr, arith, bit_xor,
  ok, leb, ◌==◌, if◌then◌else◌, ==_iff, Bool-cases, length, get_or, not,
}
use hypervisor_101_in_rust.Prelude.Bits.{holds_under, holds_under→}
use hypervisor_101_in_rust.Memory.{page_size, Memory}
use hypervisor_101_in_rust.Mutation.{MutationEngine, flip, bit_flip_input}
use hypervisor_101_in_rust.Mutation.Pages.{read_byte, write_byte, read-write_byte}

-- A byte with one bit flipped.
abbrev pub flip_bit : ℕ → ℕ → ℕ
flip_bit d i = bit_xor d (2 ^ i)

twice_table : holds_under (λ d. holds_under (λ i. flip_bit (flip_bit d i) i == d) 8) 256 ≡ true
unfolding holds_under
twice_table = refl

pub flip_bit_twice : (d i : ℕ) → d < 256 → i < 8 → flip_bit (flip_bit d i) i ≡ d
flip_bit_twice d i hd hi =
    (==_iff _ d).0 (holds_under→ _ 8 (holds_under→ _ 256 twice_table d hd) i hi)

ne_table : holds_under (λ d. holds_under (λ i. not (flip_bit d i == d)) 8) 256 ≡ true
unfolding holds_under
ne_table = refl

pub flip_bit-ne : (d i : ℕ) → d < 256 → i < 8 → flip_bit d i ≢ d
flip_bit-ne d i hd hi e =
    ground (arith, e, holds_under→ _ 8 (holds_under→ _ 256 ne_table d hd) i hi)

-- Setting a new bit before the previous one is undone is the same as undoing it first.
swap_table :
    holds_under
      (λ d.
        holds_under
          (λ i. holds_under (λ j. flip_bit (flip_bit (flip_bit d i) j) i == flip_bit d j) 8)
          8)
      256
    ≡ true
unfolding holds_under
swap_table = refl

pub flip_bit_swap :
    (d i j : ℕ) → d < 256 → i < 8 → j < 8 → flip_bit (flip_bit (flip_bit d i) j) i ≡ flip_bit d j
flip_bit_swap d i j hd hi hj =
    (==_iff _ _).0
      (holds_under→ _ 8 (holds_under→ _ 8 (holds_under→ _ 256 swap_table d hd) i hi) j hj)

-- `flip` changes one bit of one byte, and panics only beyond the input data pages.
pub flip_lem :
    (e : MutationEngine) (mem : Memory) (n : ℕ)
    → n / 8 / 4096 < e.input_page_count
    → (mem' : Memory) × (flip e mem n ≡ ok mem')
      × ((j : ℕ)
          → read_byte mem' e.input_pages j ≡ (
              if j == n / 8
              then flip_bit (read_byte mem e.input_pages j) (n % 8)
              else read_byte mem e.input_pages j))
unfolding flip
flip_lem e mem n h =
    let v = flip_bit (read_byte mem e.input_pages (n / 8)) (n % 8) in
    (
      write_byte mem e.input_pages (n / 8) v,
      ground arith,
      λ j. ground (arith, read-write_byte mem e.input_pages (n / 8) v j),
    )

-- Byte `j` of the file `bytes` as the guest sees it in iteration `k`.
abbrev pub seen : List ℕ → ℕ → ℕ → ℕ
seen bytes k j =
    if k == 0
    then get_or bytes j 0
    else if j == (k - 1) / 8
    then flip_bit (get_or bytes j 0) ((k - 1) % 8)
    else get_or bytes j 0

-- The file fits the input data pages and consists of bytes, and the pages show it as `seen`.
pub record IsFlipped (e : MutationEngine) (mem : Memory) : Type 0 where
  pub fits : length e.current_input.input.bytes ≤ e.input_page_count * page_size
  pub octets : (j : ℕ) → get_or e.current_input.input.bytes j 0 < 256
  pub total : e.current_input.total_bits ≡ length e.current_input.input.bytes * 8
  pub bounded : e.current_input.mutation_count ≤ e.current_input.total_bits
  pub shown :
      (j : ℕ)
      → j < length e.current_input.input.bytes
      → read_byte mem e.input_pages j
        ≡ seen e.current_input.input.bytes e.current_input.mutation_count j

-- Below the total, `bit_flip_input` does not panic, and shows the next bit flipped.
pub bit_flip_input-seen :
    (e : MutationEngine) (mem : Memory)
    → IsFlipped e mem
    → e.current_input.mutation_count < e.current_input.total_bits
    → (mem' : Memory) × (bit_flip_input e mem ≡ ok mem')
      × ((j : ℕ)
          → j < length e.current_input.input.bytes
          → read_byte mem' e.input_pages j
            ≡ seen e.current_input.input.bytes (e.current_input.mutation_count + 1) j)
unfolding bit_flip_input
bit_flip_input-seen e mem v more =
    let k = e.current_input.mutation_count in
    let (mem₁, did₁, read₁) = flip_lem e mem k (omega (arith, v.fits, v.total)) in
    elim (Bool-cases (leb 1 k)) [
      | inr first ↦ (mem₁, rw (did₁, first), λ j l. ground (arith, read₁ j, v.shown j l))
      | inl later ↦
          let (mem₂, did₂, read₂) = flip_lem e mem₁ (k - 1) (omega (arith, v.fits, v.total)) in
          (
            mem₂,
            rw (did₁, later) did₂,
            λ j l. ground (
              arith,
              read₂ j,
              read₁ j,
              v.shown j l,
              flip_bit_twice (get_or e.current_input.input.bytes j 0) ((k - 1) % 8) (v.octets j)
                  (omega arith),
              flip_bit_swap (get_or e.current_input.input.bytes j 0) ((k - 1) % 8) (k % 8)
                  (v.octets j) (omega arith) (omega arith),
            ),
          )
    ]
