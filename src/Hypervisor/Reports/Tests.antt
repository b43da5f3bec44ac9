-- ===== src/Hypervisor/Reports/Tests.antt =====
-- hypervisor/src/hypervisor.rs: the end of an iteration in which bit 8 of the input was flipped.
use hypervisor_101_in_rust.Prelude.{◌≡◌, refl, false, List, [], ◌∷◌, ok, ◌>>=◌}
use hypervisor_101_in_rust.Input.{InputFile, file_name}
use hypervisor_101_in_rust.Mutation.{MutatingInput, MutationEngine}
use hypervisor_101_in_rust.Mutation
use hypervisor_101_in_rust.Mutation.Tests.{two_bytes, bit_flipping}
use hypervisor_101_in_rust.Corpus
use hypervisor_101_in_rust.Corpus.{Corpus}
use hypervisor_101_in_rust.Stats.{Totals}
use hypervisor_101_in_rust.Stats.Report.{heading, line, coverage, disabled}
use hypervisor_101_in_rust.Stats.Overall.{no_iterations}
use hypervisor_101_in_rust.Stats.Tests.{first_run, now}
use hypervisor_101_in_rust.Hypervisor.{hang}
use hypervisor_101_in_rust.Hypervisor.Results.{Report, debugged}
use hypervisor_101_in_rust.Hypervisor.Reports.{
  Description, flipped_bit, Log, Occasion, finish_iteration,
}

abbrev flipped : MutationEngine
flipped =
    let e = Mutation.new 0x50_0000 1 in
    record e { current_input = record (Mutation.of_file two_bytes) { mutation_count = 9 } }

abbrev occasion : Occasion
occasion = record {
  trace = false;
  start_time = 3600;
  active_thread_count = 1;
  serial_time = now;
  console_time = now;
}

abbrev corpus : Corpus
corpus = Corpus.with_largest 3 2 []

abbrev summary : Totals × Corpus × Log → List InputFile × Report × Description
summary (t, c, log) = (c.files, log.reason, log.input)

-- The input is added to the corpus, and its description has the bit of the byte that was flipped.
finish_iteration-hang :
    (finish_iteration bit_flipping occasion flipped 3 first_run hang (no_iterations 0) corpus
      >>= λ result. ok (summary result))
    ≡ ok (
      Mutation.to_file flipped.current_input ∷ [],
      debugged,
      flipped_bit (file_name "input") 9 0 1,
    )
unfolding finish_iteration Corpus.with_largest Mutation.of_file
finish_iteration-hang = refl

-- The console is cleared once, and the first line shows the time of the guest.
finish_iteration-outputs :
    (finish_iteration bit_flipping occasion flipped 3 first_run hang (no_iterations 0) corpus
      >>= λ (t, c, log). ok log.outputs)
    ≡ ok (
        disabled
        ∷ heading
        ∷ line (record {
          time = now;
          iter_count = 1;
          used_dirty_page_count = 3;
          newly_executed_basic_blks = 2;
          total_tsc = 900;
          guest_tsc = 600;
          vmexit_count = 7;
        })
        ∷ coverage (0x1000 ∷ 0x1010 ∷ [])
        ∷ [])
unfolding finish_iteration
finish_iteration-outputs = refl
