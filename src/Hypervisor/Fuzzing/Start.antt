-- ===== src/Hypervisor/Fuzzing/Start.antt =====
-- hypervisor/src/hypervisor.rs: `start_vm` up to its loop, and what the guest reads then.
use hypervisor_101_in_rust.Prelude.{
  ℕ, ◌*◌, ◌/◌, ◌%◌, ◌^◌, ◌≤◌, ◌≡◌, ◌≢◌, refl, sym, ap, ◌∙◌, subst, true, Satisfies, Satisfies->>=,
  Satisfies-then, arith, length,
}
use hypervisor_101_in_rust.Config.{Features}
use hypervisor_101_in_rust.Input.{InputFile}
use hypervisor_101_in_rust.Memory.{page_size, Memory}
use hypervisor_101_in_rust.HardwareVt.{HardwareVt, IsLawful, rx_write_back}
use hypervisor_101_in_rust.HardwareVt.Entry.{address, set_translation}
use hypervisor_101_in_rust.HardwareVt.Entry.Laws.{fields-set_translation}
use hypervisor_101_in_rust.Vm.{Vm, translation, revert_dirty_memory}
use hypervisor_101_in_rust.Vm.Restore.{rx_flags, clean_translation}
use hypervisor_101_in_rust.Vm.Iteration.{reset, revert_dirty_memory-reset, clean_at_start}
use hypervisor_101_in_rust.Vm.Rounds.{IsStart, Runs-start, reset-IsStart, IsStart-vt}
use hypervisor_101_in_rust.Vm.Private.{IsStart-IsPrivate}
use hypervisor_101_in_rust.Snapshot.{Snapshot, contains, page_address}
use hypervisor_101_in_rust.Snapshot.Paged.{gdt_pfn}
use hypervisor_101_in_rust.Snapshot.Intact.{Shows, IsIntact-same}
use hypervisor_101_in_rust.Mutation.{MutationEngine, map_and_mutate_input, size}
use hypervisor_101_in_rust.Mutation.Writes.{IsFitting, Wrote, map_and_mutate_input-Wrote}
use hypervisor_101_in_rust.Hypervisor.{Setup, Machine, prepare}
use hypervisor_101_in_rust.Hypervisor.Contents.{IsPagedIn, IsApart-moved, IsFaithful}
use hypervisor_101_in_rust.Hypervisor.Backed.{IsBackedBy}
use hypervisor_101_in_rust.Hypervisor.Located.{IsGpa, IsLocatedAt, IsLocated}

module _ {V : Type 0} ⦃hw : HardwareVt V⦄ where
  -- The guest reads at the GPA what the snapshot has there: the contents of the file with the patches
  -- applied, but where a patch has been reverted.
  abbrev pub Sees : Setup → Machine V → (gpa : ℕ) → Type 0
  Sees g m gpa = Shows g.file g.patches (gpa / 2 ^ 12) (m.memory (address (translation m.vm gpa)))

  module _ (law : IsLawful hw) where
    -- What holds before an iteration.
    pub record IsReady (g : Setup) (e : MutationEngine) (m : Machine V) : Type 0 where
      pub start : Vm V
      pub located : IsLocated law g e start m.snapshot m.vm m.memory
      pub fitting : IsFitting e

    restarted-IsBackedBy :
        (Source : Snapshot → (gpa pa : ℕ) → Type 0) (start : Vm V) (m : Machine V) (vt vt' : V)
        → IsBackedBy law Source start m.snapshot m.vm
        → let vm = record (reset m.vm vt) { vt = vt' } in IsBackedBy law Source vm m.snapshot vm
    restarted-IsBackedBy Source start m vt vt' b =
        let vm = record (reset m.vm vt) { vt = vt' } in
        let ready : IsStart vm =
          IsStart-vt law (reset m.vm vt) vt' (reset-IsStart law start m.vm vt b.runs) in
        record {
          runs = Runs-start law vm ready;
          backed = λ h ne.
              let same = clean_at_start vm refl h in
              let (gpa, pa, page, source, at) = b.backed h (λ z. ne (same ∙ z)) in
              (
                gpa,
                pa,
                page,
                source,
                same ∙ at ∙ ap (set_translation 0 pa) (law.stateless m.vm.vt vt' rx_write_back),
              );
        }

    -- The VM after `revert_dirty_memory` and the two calls that set registers.
    restarted-IsFaithful :
        (g : Setup) (e e' : MutationEngine) (start : Vm V) (m : Machine V) (mem : Memory)
        (vt vt' : V)
        → IsFaithful law g e start m.snapshot m.vm m.memory
        → Wrote e m.memory e' mem
        → let vm = record (reset m.vm vt) { vt = vt' } in IsFaithful law g e' vm m.snapshot vm mem
    restarted-IsFaithful g e e' start m mem vt vt' f w =
        let vm = record (reset m.vm vt) { vt = vt' } in
        let ready : IsStart vm =
          IsStart-vt law (reset m.vm vt) vt' (reset-IsStart law start m.vm vt f.backed.runs) in
        record {
          backed = restarted-IsBackedBy IsPagedIn start m vt vt' f.backed;
          private = IsStart-IsPrivate law vm ready;
          apart =
              IsApart-moved m.snapshot m.snapshot m.vm vm e e' (refl, refl) (refl, refl)
                (w.pages, w.count) f.apart;
          intact =
              IsIntact-same g.file g.patches m.snapshot m.memory mem
                (λ pfn l.
                  w.only (page_address m.snapshot pfn) (λ i l'. f.apart.from_input pfn i l l'))
                f.intact;
        }

    abbrev pub Prepared : Setup → MutationEngine × Machine V → Type 0
    Prepared g (e, m) =
        IsLocated law g e m.vm m.snapshot m.vm m.memory
        × IsFitting e
        × ((gpa : ℕ) → translation m.vm gpa ≡ clean_translation m.vm gpa)

    pub prepare-IsLocated :
        (features : Features) (g : Setup) (tsc : ℕ → ℕ) (next : InputFile) (e : MutationEngine)
        (m : Machine V)
        → length next.bytes ≤ e.input_page_count * page_size
        → IsReady g e m
        → Satisfies (Prepared g) (prepare features g tsc next e m)
    unfolding prepare
    prepare-IsLocated features g tsc next e m next_fits r =
        Satisfies-then _ _ (revert_dirty_memory m.vm) _ (revert_dirty_memory-reset m.vm)
          (λ vm _ (vt, same).
            Satisfies->>= _ (hw.revert_registers vm.vt m.snapshot m.memory) _ (λ vt₁ _.
              Satisfies-then _ _ (map_and_mutate_input features tsc next e m.memory) _
                (map_and_mutate_input-Wrote e r.fitting features tsc next m.memory next_fits)
                (λ (e', mem) _ w.
                  Satisfies->>= _
                    (hw.adjust_registers vt₁ g.corpus.data_gva (size e'.current_input)) _
                    (λ vt₂ _.
                      subst
                        (λ (v : Vm V).
                          Prepared g (e', record m { vm = record v { vt = vt₂ }; memory = mem }))
                        (sym same)
                        (
                          record {
                            faithful =
                                restarted-IsFaithful g e e' r.start m mem vt vt₂ r.located.faithful
                                  w;
                            located =
                                restarted-IsBackedBy IsLocatedAt r.start m vt vt₂ r.located.located;
                          },
                          w.fitting,
                          λ gpa.
                              sym (clean_at_start (record (reset m.vm vt) { vt = vt₂ }) refl gpa),
                        )))))

    pub Prepared-Sees :
        (g : Setup) (e : MutationEngine) (m : Machine V)
        → Prepared g (e, m)
        → (gpa : ℕ) → IsGpa gpa
        → translation m.vm gpa ≢ 0
        → contains m.snapshot (gpa / 2 ^ 12) ≡ true
        → gpa / 2 ^ 12 ≢ gdt_pfn m.snapshot
        → Sees g m gpa
    Prepared-Sees g e m (f, fits, clean) gpa own ne y other =
        let (h, pa, page, (own', source), at) = f.located.backed gpa (λ z. ne (clean gpa ∙ z)) in
        let same : h / 2 ^ 12 ≡ gpa / 2 ^ 12 = omega (arith, page, own, own') in
        let (here, is_read) = source (ap (contains m.snapshot) same ∙ y) in
        let apart = f.faithful.apart in
        let field = fields-set_translation 0 pa (rx_flags m.vm) (omega arith) in
        let whole : pa / 2 ^ 12 % 2 ^ 47 * 2 ^ 12 ≡ pa =
          omega (
            arith,
            apart.aligned,
            apart.fits,
            f.faithful.intact.inside (h / 2 ^ 12) is_read,
            here,
          ) in
        let to : address (translation m.vm gpa) ≡ page_address m.snapshot (gpa / 2 ^ 12) =
          ap address (clean gpa ∙ at)
          ∙ ap (λ n. n * 2 ^ 12) field.0
          ∙ whole
          ∙ here
          ∙ ap (page_address m.snapshot) same in
        subst (λ a. Shows g.file g.patches (gpa / 2 ^ 12) (m.memory a)) (sym to)
          (f.faithful.intact.shows (gpa / 2 ^ 12) (ap m.snapshot.read_bitmap (sym same) ∙ is_read)
            other)
