-- ===== src/Mutation/Writes.antt =====
-- hypervisor/src/mutation_engine.rs: which pages of memory a mutation writes to.
use hypervisor_101_in_rust.Prelude.{
  ℕ, zero, suc, ◌+◌, ◌-◌, ◌*◌, ◌/◌, ◌%◌, ◌^◌, ◌≤◌, ◌<◌, ◌≡◌, ◌≢◌, refl, ◌∙◌, Bool, true, false,
  if◌then◌else◌, List, [], ◌∷◌, inl, inr, arith, Exec, ok, ◌>>=◌, ltb, leb, ◌==◌, ◌&&◌, Satisfies,
  Satisfies-then, Satisfies-map, Bool-cases, length,
}
use hypervisor_101_in_rust.Config.{Features}
use hypervisor_101_in_rust.Memory.{page_size, Memory}
use hypervisor_101_in_rust.Input.{InputFile}
use hypervisor_101_in_rust.Mutation.{
  MutationEngine, of_file, is_done, flip, bit_flip_input, restore_bytes, change_bytes,
  byte_change_input, count_mutation, mutate_input, copy_input_to_guest_memory, map_and_mutate_input,
}
use hypervisor_101_in_rust.Mutation.Pages.{page_address, write_byte, copy_bytes, zero_pages}

-- Of `count` pages from `base` on and all others, only the former differ.
abbrev pub WritesOnly : (base count : ℕ) → (mem mem' : Memory) → Type 0
WritesOnly base count mem mem' =
    (a : ℕ) → ((i : ℕ) → i < count → a ≢ page_address base i) → mem' a ≡ mem a

-- The current file fits into the input data pages.
abbrev pub IsFitting : MutationEngine → Type 0
IsFitting e = length e.current_input.input.bytes ≤ e.input_page_count * page_size

-- What a call leaves of the engine and of memory.
pub record Wrote (e : MutationEngine) (mem : Memory) (e' : MutationEngine) (mem' : Memory)
    : Type 0 where
  pub pages : e'.input_pages ≡ e.input_pages
  pub count : e'.input_page_count ≡ e.input_page_count
  pub fitting : IsFitting e'
  pub only : WritesOnly e.input_pages e.input_page_count mem mem'

write_byte-WritesOnly :
    (base count : ℕ) (mem : Memory) (k v : ℕ)
    → k < count * page_size
    → WritesOnly base count mem (write_byte mem base k v)
write_byte-WritesOnly base count mem k v l a apart = ground (arith, apart (k / page_size))

copy_bytes-WritesOnly :
    (base count : ℕ) (mem : Memory) (k : ℕ) (xs : List ℕ)
    → k + length xs ≤ count * page_size
    → WritesOnly base count mem (copy_bytes mem base k xs)
unfolding copy_bytes
copy_bytes-WritesOnly base count mem k [] l a apart = refl
copy_bytes-WritesOnly base count mem k (x ∷ xs) l a apart =
    copy_bytes-WritesOnly base count (write_byte mem base k x) (suc k) xs (omega arith) a apart
    ∙ write_byte-WritesOnly base count mem k x (omega arith) a apart

zero_pages-WritesOnly :
    (base count : ℕ) (mem : Memory) (n : ℕ)
    → n ≤ count
    → WritesOnly base count mem (zero_pages mem base n)
unfolding zero_pages
zero_pages-WritesOnly base count mem zero l a apart = refl
zero_pages-WritesOnly base count mem (suc n) l a apart =
    ground
      (arith, apart n (omega arith), zero_pages-WritesOnly base count mem n (omega arith) a apart)

flip-WritesOnly :
    (e : MutationEngine) (mem : Memory) (n : ℕ)
    → Satisfies (WritesOnly e.input_pages e.input_page_count mem) (flip e mem n)
unfolding flip
flip-WritesOnly e mem n = elim (Bool-cases (ltb (n / 8 / 4096) e.input_page_count)) [
  | inl y ↦ rw y (λ a apart. ground (arith, apart (n / 8 / 4096)))
  | inr m ↦ rw m tt
]

bit_flip_input-WritesOnly :
    (e : MutationEngine) (mem : Memory)
    → Satisfies (WritesOnly e.input_pages e.input_page_count mem) (bit_flip_input e mem)
unfolding bit_flip_input
bit_flip_input-WritesOnly e mem =
    let n = e.current_input.mutation_count in
    Satisfies-then _ _ (flip e mem n) _ (flip-WritesOnly e mem n) (λ mem' did first.
      elim (Bool-cases (leb 1 n)) [
        | inl y ↦ rw y (
            Satisfies-map _ _ (flip e mem' (n - 1))
              (λ mem'' second a apart. second a apart ∙ first a apart)
              (flip-WritesOnly e mem' (n - 1)))
        | inr z ↦ rw z first
      ])

module _ (e : MutationEngine) (fits : IsFitting e) where
  abbrev Only : Memory → Memory → Type 0
  Only = WritesOnly e.input_pages e.input_page_count

  restore_bytes-WritesOnly : (n : ℕ) (mem : Memory) → Satisfies (Only mem) (restore_bytes e n mem)
  unfolding restore_bytes
  restore_bytes-WritesOnly zero mem = λ a apart. refl
  restore_bytes-WritesOnly (suc n) mem =
      let offset = e.current_input.offsets n in
      Satisfies-then _ _ (restore_bytes e n mem) _ (restore_bytes-WritesOnly n mem)
        (λ mem' did before.
          elim (Bool-cases (ltb n 8 && ltb offset (length e.current_input.input.bytes))) [
            | inl y ↦ rw y (λ a apart.
                write_byte-WritesOnly e.input_pages e.input_page_count mem' offset
                  (e.current_input.original n) (ground arith) a apart
                ∙ before a apart)
            | inr z ↦ rw z tt
          ])

  change_bytes-Wrote :
      (tsc : ℕ → ℕ) (n : ℕ) (mem : Memory)
      → Satisfies (λ (r : MutationEngine × Memory). Wrote e mem r.0 r.1) (change_bytes tsc e n mem)
  unfolding change_bytes
  change_bytes-Wrote tsc zero mem = record {
    pages = refl;
    count = refl;
    fitting = fits;
    only = λ a apart. refl;
  }
  change_bytes-Wrote tsc (suc n) mem =
      Satisfies-then _ _ (change_bytes tsc e n mem) _ (change_bytes-Wrote tsc n mem)
        (λ (e', mem') did w.
          let size = length e'.current_input.input.bytes in
          let offset = tsc (2 * n + 1) % size in
          let v = tsc (2 * n + 2) % 2 ^ 8 in
          elim (Bool-cases (size == 0)) [
            | inl y ↦ rw y tt
            | inr m ↦ elim (Bool-cases (ltb n 8)) [
              | inl l ↦
                  let inside : offset < e'.input_page_count * page_size =
                    grind (arith, w.fitting) in
                  rw (m, l)
                    (record {
                      pages = w.pages;
                      count = w.count;
                      fitting = w.fitting;
                      only = λ a apart.
                          write_byte-WritesOnly e'.input_pages e'.input_page_count mem' offset v
                            inside a (λ i l'. grind (arith, w.pages, w.count, apart i))
                          ∙ w.only a apart;
                    })
              | inr z ↦ rw (m, z) tt
            ]
          ])

module _ (e : MutationEngine) (fits : IsFitting e) where
  byte_change_input-Wrote :
      (tsc : ℕ → ℕ) (mem : Memory)
      → Satisfies
          (λ (r : MutationEngine × Memory). Wrote e mem r.0 r.1)
          (byte_change_input tsc e mem)
  unfolding byte_change_input
  byte_change_input-Wrote tsc mem =
      let drawn = 1 + tsc 0 % 8 in
      let m = record (e.current_input) { max_mutation_count = drawn } in
      Satisfies-then (Only e fits mem) _ (restored (leb 1 e.current_input.mutation_count)) _
        (restored-Only (leb 1 e.current_input.mutation_count))
        (λ mem' did before.
          Satisfies-map _ _ (change_bytes tsc (record e { current_input = m }) drawn mem')
            (λ (e'', mem'') w. record {
              pages = w.pages;
              count = w.count;
              fitting = w.fitting;
              only = λ a apart. w.only a apart ∙ before a apart;
            })
            (change_bytes-Wrote (record e { current_input = m }) fits tsc drawn mem'))
    where
      restored : Bool → Exec Memory
      restored mutated =
          if mutated then restore_bytes e e.current_input.max_mutation_count mem else ok mem

      restored-Only : (mutated : Bool) → Satisfies (Only e fits mem) (restored mutated)
      restored-Only true = restore_bytes-WritesOnly e fits e.current_input.max_mutation_count mem
      restored-Only false = λ a apart. refl

  mutate_input-Wrote :
      (features : Features) (tsc : ℕ → ℕ) (mem : Memory)
      → Satisfies
          (λ (r : MutationEngine × Memory). Wrote e mem r.0 r.1)
          (mutate_input features tsc e mem)
  unfolding mutate_input count_mutation
  mutate_input-Wrote features tsc mem = elim (Bool-cases features.random_byte_modification) [
    | inl y ↦ rw y (
        Satisfies-then _ _ (byte_change_input tsc e mem) _ (byte_change_input-Wrote tsc mem)
          (λ (e', mem') did w. record {
            pages = w.pages;
            count = w.count;
            fitting = w.fitting;
            only = w.only;
          }))
    | inr n ↦ rw n (
        Satisfies-then _ _ (bit_flip_input e mem >>= λ mem'. ok (e, mem')) _
          (Satisfies-then _ (λ (r : MutationEngine × Memory). Wrote e mem r.0 r.1)
            (bit_flip_input e mem) _ (bit_flip_input-WritesOnly e mem)
            (λ mem' did only. record { pages = refl; count = refl; fitting = fits; only = only }))
          (λ (e', mem') did w. record {
            pages = w.pages;
            count = w.count;
            fitting = w.fitting;
            only = w.only;
          }))
  ]

  -- `map_and_mutate_input` writes to the input data pages alone, if every file fits them.
  pub map_and_mutate_input-Wrote :
      (features : Features) (tsc : ℕ → ℕ) (next : InputFile) (mem : Memory)
      → length next.bytes ≤ e.input_page_count * page_size
      → Satisfies
          (λ (r : MutationEngine × Memory). Wrote e mem r.0 r.1)
          (map_and_mutate_input features tsc next e mem)
  unfolding map_and_mutate_input copy_input_to_guest_memory of_file
  map_and_mutate_input-Wrote features tsc next mem next_fits =
      elim (Bool-cases (is_done features e.current_input)) [
        | inl y ↦
            let zeroed = zero_pages mem e.input_pages e.input_page_count in
            rw y (record {
              pages = refl;
              count = refl;
              fitting = next_fits;
              only = λ a apart.
                  copy_bytes-WritesOnly e.input_pages e.input_page_count zeroed 0 next.bytes
                    (omega arith) a apart
                  ∙ zero_pages-WritesOnly e.input_pages e.input_page_count mem e.input_page_count
                      (omega arith) a apart;
            })
        | inr n ↦ rw n (mutate_input-Wrote features tsc mem)
      ]
