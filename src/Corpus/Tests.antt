-- ===== src/Corpus/Tests.antt =====
-- A corpus of one file, and a processor that starts.
use hypervisor_101_in_rust.Prelude.{
  ℕ, ◌+◌, ◌-◌, ◌*◌, ◌/◌, ◌%◌, ◌^◌, ◌≤◌, ◌<◌, ◌≡◌, ◌≢◌, refl, arith, some, [], ◌∷◌,
}
use hypervisor_101_in_rust.Memory.{page_size}
use hypervisor_101_in_rust.Input.{InputFile, file_name}
use hypervisor_101_in_rust.Corpus.{Corpus, new}
use hypervisor_101_in_rust.Corpus.Layout.{AreWithin, new_lem}
use hypervisor_101_in_rust.Corpus.Threads.{
  fuzzing, Shared, initial, move, start, Reachable, initially, then_step, count_fuzzing,
  Reachable-IsCounted,
}

abbrev input : InputFile
input = record { bytes = 1 ∷ 2 ∷ []; name = file_name "input" }

new_lem_example :
    (c : Corpus) × (new 10 (input ∷ []) ≡ some c)
    × (c.files ≡ input ∷ [])
    × AreWithin ((c.end_page - c.first_page) * page_size) c.files
    × ((n : ℕ) → AreWithin (n * page_size) c.files → c.end_page ≤ c.first_page + n)
    × (c.first_page ≡ 10 + 1)
    × (c.data_gva / 2 ^ 12 ≡ c.first_page)
    × (c.data_gva % 2 ^ 12 ≡ 0)
new_lem_example = new_lem 10 input [] (omega arith)

abbrev started : Shared
started = move (initial (input ∷ [])) 0 fuzzing 1 (input ∷ [])

started-Reachable : Reachable 2 (input ∷ []) started
started-Reachable = then_step initially (start 0 (omega arith) refl)

Reachable-IsCounted_example :
    (started.active_thread_count ≡ count_fuzzing started.phases 2)
    × ((started.active_thread_count ≡ 0) → (i : ℕ) → i < 2 → started.phases i ≢ fuzzing)
Reachable-IsCounted_example = Reachable-IsCounted 2 (input ∷ []) (omega arith) started-Reachable
