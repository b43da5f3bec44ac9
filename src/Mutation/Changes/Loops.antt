-- ===== src/Mutation/Changes/Loops.antt =====
-- hypervisor/src/mutation_engine.rs: the loops of `byte_change_input`.
use hypervisor_101_in_rust.Prelude.{
  ℕ, zero, suc, ◌+◌, ◌*◌, ◌%◌, ◌^◌, ◌≤◌, ◌<◌, ◌≡◌, ◌≢◌, refl, sym, ap, ◌∙◌, true, false, not, inl,
  inr, arith, ok, ◌==◌, lt→ltb, update, Bool-cases, length, get_or,
}
use hypervisor_101_in_rust.Memory.{Memory}
use hypervisor_101_in_rust.Mutation.{MutationEngine, restore_bytes, change_bytes}
use hypervisor_101_in_rust.Mutation.Pages.{read_byte, write_byte, read-write_byte}

-- What the guest sees where the input differs from the file, and what is saved to restore it.
pub record IsChanged (e : MutationEngine) (mem : Memory) : Type 0 where
  pub few : e.current_input.max_mutation_count ≤ 8
  pub fresh : e.current_input.mutation_count ≡ 0 → e.current_input.max_mutation_count ≡ 0
  pub within :
      (i : ℕ)
      → i < e.current_input.max_mutation_count
      → e.current_input.offsets i < length e.current_input.input.bytes
  pub saved :
      (i : ℕ)
      → i < e.current_input.max_mutation_count
      → e.current_input.original i
        ≡ get_or e.current_input.input.bytes (e.current_input.offsets i) 0
  pub shown :
      (j : ℕ)
      → j < length e.current_input.input.bytes
      → ((i : ℕ) → i < e.current_input.max_mutation_count → j ≢ e.current_input.offsets i)
      → read_byte mem e.input_pages j ≡ get_or e.current_input.input.bytes j 0

-- The guest sees the file.
abbrev pub IsShown : MutationEngine → Memory → Type 0
IsShown e mem =
    (j : ℕ)
    → j < length e.current_input.input.bytes
    → read_byte mem e.input_pages j ≡ get_or e.current_input.input.bytes j 0

pub restore_bytes-shown :
    (e : MutationEngine) (mem : Memory) (n : ℕ)
    → IsChanged e mem
    → n ≤ e.current_input.max_mutation_count
    → (mem' : Memory) × (restore_bytes e n mem ≡ ok mem')
      × ((j : ℕ)
          → j < length e.current_input.input.bytes
          → ((i : ℕ)
              → n ≤ i
              → i < e.current_input.max_mutation_count
              → j ≢ e.current_input.offsets i)
          → read_byte mem' e.input_pages j ≡ get_or e.current_input.input.bytes j 0)
unfolding restore_bytes
restore_bytes-shown e mem zero c h =
    (mem, refl, λ j l avoids. c.shown j l (λ i m. avoids i (omega arith) m))
restore_bytes-shown e mem (suc n) c h =
    let (mem', did, shown) = restore_bytes-shown e mem n c (omega arith) in
    let offset = e.current_input.offsets n in
    let original = e.current_input.original n in
    let some_element = lt→ltb n 8 (omega (arith, c.few)) in
    let some_byte = lt→ltb offset (length e.current_input.input.bytes) (c.within n (omega arith)) in
    (
      write_byte mem' e.input_pages offset original,
      rw (did, some_element, some_byte) refl,
      λ j l avoids.
          read-write_byte mem' e.input_pages offset original j ∙ elim (Bool-cases (j == offset)) [
            | inl y ↦
                let here : j ≡ offset = ground arith in
                rw y (
                  c.saved n (omega arith)
                  ∙ ap (λ k. get_or e.current_input.input.bytes k 0) (sym here))
            | inr m ↦
                let there : j ≢ offset = ground arith in
                rw m (
                  shown j l (λ i low high same. elim (Bool-cases (i == n)) [
                    | inl y ↦
                        let this : i ≡ n = ground arith in
                        there (same ∙ ap e.current_input.offsets this)
                    | inr other ↦ avoids i (ground arith) high same
                  ]))
          ],
    )

-- The offset of the `i`-th change.
abbrev pub draw : (tsc : ℕ → ℕ) → (size : ℕ) → ℕ → ℕ
draw tsc size i = tsc (2 * i + 1) % size

abbrev pub with_arrays : MutationEngine → (offsets original : ℕ → ℕ) → MutationEngine
with_arrays e offsets original = record e {
  current_input = record (e.current_input) { offsets = offsets; original = original };
}

pub change_bytes-saved :
    (tsc : ℕ → ℕ) (e : MutationEngine) (mem : Memory) (n : ℕ)
    → n ≤ 8
    → 1 ≤ length e.current_input.input.bytes
    → ((i j : ℕ)
        → i < j
        → j < n
        → draw tsc (length e.current_input.input.bytes) i
          ≢ draw tsc (length e.current_input.input.bytes) j)
    → IsShown e mem
    → (offsets : ℕ → ℕ) × (original : ℕ → ℕ) × (mem' : Memory) × (change_bytes tsc e n mem
        ≡ ok (with_arrays e offsets original, mem'))
      × ((i : ℕ) → i < n → offsets i ≡ draw tsc (length e.current_input.input.bytes) i)
      × ((i : ℕ) → i < n → original i ≡ get_or e.current_input.input.bytes (offsets i) 0)
      × ((j : ℕ)
          → j < length e.current_input.input.bytes
          → ((i : ℕ) → i < n → j ≢ draw tsc (length e.current_input.input.bytes) i)
          → read_byte mem' e.input_pages j ≡ get_or e.current_input.input.bytes j 0)
unfolding change_bytes
change_bytes-saved tsc e mem zero few some distinct shown = (
  e.current_input.offsets,
  e.current_input.original,
  mem,
  refl,
  λ i l. absurd (omega arith),
  λ i l. absurd (omega arith),
  λ j l avoids. shown j l,
)
change_bytes-saved tsc e mem (suc n) few some distinct shown =
    let size = length e.current_input.input.bytes in
    let (offsets, original, mem', did, drawn, saved, kept) =
      change_bytes-saved tsc e mem n (omega arith) some (λ i j l m. distinct i j l (omega arith))
        shown in
    let offset = draw tsc size n in
    let byte = read_byte mem' e.input_pages offset in
    let inside : offset < size = omega arith in
    let nonempty : not (size == 0) ≡ true = ground arith in
    let element = lt→ltb n 8 (omega arith) in
    (
      update offsets n offset,
      update original n byte,
      write_byte mem' e.input_pages offset (tsc (2 * n + 2) % 2 ^ 8),
      rw (did, nonempty, element) refl,
      λ i l. elim (Bool-cases (i == n)) [
        | inl y ↦ let this : n ≡ i = ground arith in rw y (ap (draw tsc size) this)
        | inr m ↦ rw m (drawn i (ground arith))
      ],
      λ i l. elim (Bool-cases (i == n)) [
        | inl y ↦ rw y (kept offset inside (λ k m same. distinct k n m (omega arith) (sym same)))
        | inr m ↦ rw m (saved i (ground arith))
      ],
      λ j l avoids.
          let other : (j == offset) ≡ false = ground (arith, avoids n (omega arith)) in
          read-write_byte mem' e.input_pages offset (tsc (2 * n + 2) % 2 ^ 8) j
          ∙ rw other (kept j l (λ i m. avoids i (omega arith))),
    )
