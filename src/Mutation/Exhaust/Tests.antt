-- ===== src/Mutation/Exhaust/Tests.antt =====
-- A corpus of one file of two bytes lasts for 17 iterations.
use hypervisor_101_in_rust.Prelude.{◌+◌, ◌<◌, ◌≡◌, ◌⊎◌, refl, [], ◌∷◌, ok, panic}
use hypervisor_101_in_rust.Memory.{Memory}
use hypervisor_101_in_rust.Corpus
use hypervisor_101_in_rust.Corpus.{Corpus}
use hypervisor_101_in_rust.Mutation
use hypervisor_101_in_rust.Mutation.{MutationEngine}
use hypervisor_101_in_rust.Mutation.Tests.{
  bit_flipping, two_bytes, fresh, memory, fits, octets, fresh-IsFlipped,
}
use hypervisor_101_in_rust.Mutation.Exhaust.{
  remaining, runs_of, AllFit, map_inputs, map_inputs-ends,
}

abbrev corpus : Corpus
corpus = Corpus.with_largest 3 2 (two_bytes ∷ [])

runs : remaining corpus fresh ≡ 17
unfolding runs_of Mutation.new Corpus.with_largest
runs = refl

corpus-AllFit : AllFit fresh.input_page_count corpus.files
unfolding Corpus.with_largest
corpus-AllFit = (fits, octets, tt)

map_inputs-ends_example :
    ((remaining corpus fresh < 18)
      × (map_inputs bit_flipping (λ n k. k) 18 corpus fresh memory ≡ panic))
    ⊎ ((c' : Corpus) × (e' : MutationEngine) × (mem' : Memory) × (map_inputs bit_flipping
            (λ n k. k)
            18
            corpus
            fresh
            memory
          ≡ ok (c', e', mem'))
        × (remaining corpus fresh ≡ remaining c' e' + 18))
map_inputs-ends_example =
    map_inputs-ends bit_flipping (λ n k. k) 18 corpus fresh memory refl fresh-IsFlipped
      corpus-AllFit
