-- ===== src/Mutation/Changes.antt =====
-- hypervisor/src/mutation_engine.rs: `byte_change_input`, which restores and changes bytes.
mod Loops
pub use Loops.{IsChanged, IsShown, draw}
use Loops.{restore_bytes-shown, with_arrays, change_bytes-saved}
use hypervisor_101_in_rust.Prelude.{
  ℕ, zero, suc, ◌+◌, ◌*◌, ◌%◌, ◌^◌, ◌≤◌, ◌<◌, ◌≡◌, ◌≢◌, ◌⊎◌, refl, sym, ap, ◌∙◌, true, false, not,
  inl, inr, arith, ok, leb, ◌==◌, lt→ltb, if◌then◌else◌, update, Bool-cases, length, get_or,
}
use hypervisor_101_in_rust.Config.{Features}
use hypervisor_101_in_rust.Memory.{Memory}
use hypervisor_101_in_rust.Input.{InputFile}
use hypervisor_101_in_rust.Mutation.{
  MutationEngine, of_file, is_done, restore_bytes, change_bytes, byte_change_input, mutate_input,
  count_mutation, copy_input_to_guest_memory, map_and_mutate_input,
}
use hypervisor_101_in_rust.Mutation.Pages.{read_byte, write_byte, read-write_byte, read-copy_bytes}

-- The next call of `byte_change_input` draws no offset twice.
abbrev pub IsDistinct : (tsc : ℕ → ℕ) → MutationEngine → Type 0
IsDistinct tsc e =
    (i j : ℕ)
    → i < j
    → j < 1 + tsc 0 % 8
    → draw tsc (length e.current_input.input.bytes) i
      ≢ draw tsc (length e.current_input.input.bytes) j

-- Restoring gives the whole file back.
restored-IsShown :
    (e : MutationEngine) (mem : Memory)
    → IsChanged e mem
    → (mem' : Memory) × ((if leb 1 e.current_input.mutation_count
          then restore_bytes e e.current_input.max_mutation_count mem
          else ok mem)
        ≡ ok mem')
      × IsShown e mem'
restored-IsShown e mem c = elim (Bool-cases (leb 1 e.current_input.mutation_count)) [
  | inl more ↦
      let (mem', did, shown) =
        restore_bytes-shown e mem e.current_input.max_mutation_count c (omega arith) in
      (mem', rw more did, λ j l. shown j l (λ i low high. absurd (omega arith)))
  | inr first ↦
      let none : e.current_input.max_mutation_count ≡ 0 = c.fresh (ground arith) in
      (mem, rw first refl, λ j l. c.shown j l (λ i high. absurd (omega arith)))
]

mutate_input-IsChanged :
    (features : Features) (tsc : ℕ → ℕ) (e : MutationEngine) (mem : Memory)
    → features.random_byte_modification ≡ true
    → 1 ≤ length e.current_input.input.bytes
    → IsDistinct tsc e
    → IsChanged e mem
    → (e' : MutationEngine) × (mem' : Memory) × (mutate_input features tsc e mem ≡ ok (e', mem'))
      × IsChanged e' mem'
      × (e'.current_input.input ≡ e.current_input.input)
      × (e'.current_input.mutation_count ≡ e.current_input.mutation_count + 1)
unfolding mutate_input byte_change_input count_mutation
mutate_input-IsChanged features tsc e mem bytes some distinct c =
    let (mem₁, restored, shown) = restored-IsShown e mem c in
    let n = 1 + tsc 0 % 8 in
    let e₁ = record e { current_input = record (e.current_input) { max_mutation_count = n } } in
    let (offsets, original, mem', did, drawn, saved, kept) =
      change_bytes-saved tsc e₁ mem₁ n (omega arith) some distinct shown in
    (
      count_mutation (with_arrays e₁ offsets original),
      mem',
      rw (bytes, restored, did) refl,
      record {
        few = omega arith;
        fresh = λ z. absurd (omega arith);
        within = λ i l. omega (arith, drawn i l);
        saved = saved;
        shown = λ j l avoids. kept j l (λ i m same. avoids i m (same ∙ sym (drawn i m)));
      },
      refl,
      refl,
    )

copied-IsChanged :
    (e : MutationEngine) (mem : Memory) (next : InputFile)
    → IsChanged (record e { current_input = of_file next }) (copy_input_to_guest_memory e mem next)
unfolding of_file copy_input_to_guest_memory
copied-IsChanged e mem next = record {
  few = omega arith;
  fresh = λ z. refl;
  within = λ i l. absurd (omega arith);
  saved = λ i l. absurd (omega arith);
  shown = λ j l avoids.
      ap (read_byte (copy_input_to_guest_memory e mem next) e.input_pages) (omega arith)
      ∙ read-copy_bytes _ e.input_pages 0 next.bytes j l;
}

nonempty :
    (features : Features) (e : MutationEngine)
    → features.random_byte_modification ≡ true
    → is_done features e.current_input ≡ false
    → 1 ≤ length e.current_input.input.bytes
unfolding is_done
nonempty features e bytes more = ground (arith, rw bytes at more)

-- With random byte modification, `map_and_mutate_input` does not panic, and what the guest sees
-- differs from the file in at most 8 bytes, whose values in the file are saved, so that mutations do
-- not add up, provided that no call draws an offset twice. If the current file has been mutated as
-- often as configured, or is empty, it goes on to the next one, which the guest first sees unmutated.
pub map_and_mutate_input-IsChanged :
    (features : Features) (tsc : ℕ → ℕ) (next : InputFile) (e : MutationEngine) (mem : Memory)
    → features.random_byte_modification ≡ true
    → IsDistinct tsc e
    → IsChanged e mem
    → (e' : MutationEngine) × (mem' : Memory) × (map_and_mutate_input features tsc next e mem
        ≡ ok (e', mem'))
      × IsChanged e' mem'
      × (((is_done features e.current_input ≡ true) × (e'.current_input ≡ of_file next))
          ⊎ ((is_done features e.current_input ≡ false)
              × (e'.current_input.input ≡ e.current_input.input)
              × (e'.current_input.mutation_count ≡ e.current_input.mutation_count + 1)))
unfolding map_and_mutate_input
map_and_mutate_input-IsChanged features tsc next e mem bytes distinct c =
    elim (Bool-cases (is_done features e.current_input)) [
      | inl done ↦ (
        record e { current_input = of_file next },
        copy_input_to_guest_memory e mem next,
        rw done refl,
        copied-IsChanged e mem next,
        inl (done, refl),
      )
      | inr more ↦
          let (e', mem', did, c', same, count) =
            mutate_input-IsChanged features tsc e mem bytes (nonempty features e bytes more)
              distinct c in
          (e', mem', rw more did, c', inr (more, same, count))
    ]
