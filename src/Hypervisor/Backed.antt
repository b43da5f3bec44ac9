-- ===== src/Hypervisor/Backed.antt =====
-- hypervisor/src/hypervisor.rs: what backs the pages that `revert_dirty_memory` gives the guest.
use hypervisor_101_in_rust.Prelude.{ℕ, ◌≡◌, ◌≢◌, ap, ◌∙◌, inl, inr}
use hypervisor_101_in_rust.HardwareVt.{HardwareVt, IsLawful, rx_write_back}
use hypervisor_101_in_rust.HardwareVt.Entry.{set_translation}
use hypervisor_101_in_rust.Vm.{Vm}
use hypervisor_101_in_rust.Vm.Translation.{page_of}
use hypervisor_101_in_rust.Vm.Restore.{rx_flags, clean_translation}
use hypervisor_101_in_rust.Vm.Iteration.{clean-vt}
use hypervisor_101_in_rust.Vm.Rounds.{
  Runs, Runs-vt, Runs-build, Runs-copy, clean_translation-build_translation,
  clean_translation-copy_on_write,
}
use hypervisor_101_in_rust.Snapshot.{Snapshot}
use hypervisor_101_in_rust.Hypervisor.Faults.{IsKept, built-mapped}

module _ {V : Type 0} ⦃hw : HardwareVt V⦄ (law : IsLawful hw) where
  -- Every page that `revert_dirty_memory` would give the guest is read-only and at an address of which
  -- `Source` holds.
  pub record IsBackedBy (Source : Snapshot → (gpa pa : ℕ) → Type 0) (start : Vm V) (s : Snapshot)
      (vm : Vm V) : Type 0 where
    pub runs : Runs start vm
    pub backed :
        (h : ℕ)
        → clean_translation vm h ≢ 0
        → (gpa : ℕ) × (pa : ℕ) × (page_of h ≡ page_of gpa)
          × Source s gpa pa
          × (clean_translation vm h ≡ set_translation 0 pa (rx_flags vm))

  pub IsBackedBy-IsKept :
      (Source : Snapshot → (gpa pa : ℕ) → Type 0) (start : Vm V)
      → IsKept law Source (λ s vm mem. IsBackedBy Source start s vm)
  IsBackedBy-IsKept Source start = record {
    on_vt = λ s vm mem vt b. record {
      runs = Runs-vt law start vm vt b.runs;
      backed = λ h ne.
          let (gpa, pa, page, source, at) = b.backed h (λ z. ne (clean-vt law vm vt h ∙ z)) in
          (
            gpa,
            pa,
            page,
            source,
            clean-vt law vm vt h
                ∙ at
                ∙ ap (set_translation 0 pa) (law.stateless vm.vt vt rx_write_back),
          );
    };
    on_build = λ s vm vm' mem gpa pa did source b. record {
      runs = Runs-build law start vm vm' gpa pa did b.runs;
      backed = λ h ne.
          let same_flags = law.stateless vm.vt vm'.vt rx_write_back in
          elim (clean_translation-build_translation law vm vm' gpa pa did b.runs.keeps.sound h) [
            | inl (page, new) ↦ (gpa, pa, page, source, new ∙ ap (set_translation 0 pa) same_flags)
            | inr old ↦
                let (gpa', pa', page, source', at) = b.backed h (λ z. ne (old ∙ z)) in
                (gpa', pa', page, source', old ∙ at ∙ ap (set_translation 0 pa') same_flags)
          ];
    };
    on_copy = λ s vm vm' mem mem' gpa from pa done c did b. record {
      runs = Runs-copy law start vm vm' mem mem' gpa from pa done c did b.runs;
      backed = λ h ne.
          let old =
            clean_translation-copy_on_write law vm vm' mem mem' gpa from pa done c did
              b.runs.keeps.sound h in
          let (gpa', pa', page, source, at) = b.backed h (λ z. ne (old ∙ z)) in
          (
            gpa',
            pa',
            page,
            source,
            old ∙ at ∙ ap (set_translation 0 pa') (law.stateless vm.vt vm'.vt rx_write_back),
          );
    };
    on_built = λ s vm vm' mem gpa pa did b. built-mapped law gpa pa b.runs.keeps did;
  }

  pub IsBackedBy-moved :
      {Source : Snapshot → (gpa pa : ℕ) → Type 0} {start : Vm V} (s s' : Snapshot) {vm : Vm V}
      → ((gpa pa : ℕ) → Source s gpa pa → Source s' gpa pa)
      → IsBackedBy Source start s vm
      → IsBackedBy Source start s' vm
  IsBackedBy-moved s s' move b = record {
    runs = b.runs;
    backed = λ h ne.
        let (gpa, pa, page, source, at) = b.backed h ne in (gpa, pa, page, move gpa pa source, at);
  }
