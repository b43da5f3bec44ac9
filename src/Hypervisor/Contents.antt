-- ===== src/Hypervisor/Contents.antt =====
-- hypervisor/src/hypervisor.rs: what the pages of the snapshot hold while the guest runs and its
-- exits are handled, on one processor.
mod Apart
pub use Apart.{IsPagedIn, IsApart, IsApart-moved}
use Apart.{IsPagedIn-Extended}
use hypervisor_101_in_rust.Prelude.{
  ℕ, ◌+◌, ◌*◌, ◌/◌, ◌%◌, ◌^◌, ◌≤◌, ◌<◌, ◌≡◌, ◌≢◌, ◌⊎◌, refl, sym, ap, ◌∙◌, subst, Bool, true, false,
  inl, inr, Option, none, some, ok, ◌>>=◌, Satisfies, Satisfies->>=, Satisfies-then, Satisfies-map,
  arith,
}
use hypervisor_101_in_rust.Memory.{page_size, Memory}
use hypervisor_101_in_rust.HardwareVt.{HardwareVt, IsLawful}
use hypervisor_101_in_rust.HardwareVt.Entry.{address, set_translation}
use hypervisor_101_in_rust.Vm.{Vm, dirty_address, translation, build_translation, copy_on_write}
use hypervisor_101_in_rust.Vm.Translation.{build_translation-Built}
use hypervisor_101_in_rust.Vm.Restore.{rx_flags}
use hypervisor_101_in_rust.Vm.CopyOnWrite.{copy_on_write-Copied}
use hypervisor_101_in_rust.Vm.Iteration.{IsSound}
use hypervisor_101_in_rust.Vm.Private.{IsWritable, IsPrivate, IsPrivate-build, IsPrivate-copy}
use hypervisor_101_in_rust.Snapshot.{
  Snapshot, contains, contains_page, page_address, resolve_page_from_snapshot,
}
use hypervisor_101_in_rust.Snapshot.Intact.{
  IsIntact, IsIntact-same, Extended, Answers, resolve_page_from_snapshot-IsIntact, revert-IsIntact,
}
use hypervisor_101_in_rust.Mutation.{MutationEngine}
use hypervisor_101_in_rust.Mutation.Pages
use hypervisor_101_in_rust.Hypervisor.{
  Setup, Machine, VmExitResult, Exit, or_input_data, resolve_pa_for_gpa,
}
use hypervisor_101_in_rust.Hypervisor.Faults.{IsSourced}
use hypervisor_101_in_rust.Hypervisor.Backed.{IsBackedBy, IsBackedBy-IsKept, IsBackedBy-moved}
use hypervisor_101_in_rust.Hypervisor.Lasting.{exited, IsGenuine, Any, IsWithin-Any, IsLasting}

module _ {V : Type 0} ⦃hw : HardwareVt V⦄ where
  -- The guest changes memory through translations that permit writing alone.
  abbrev pub IsConfined : Vm V → (mem mem' : Memory) → Type 0
  IsConfined vm mem mem' =
      (a : ℕ) → ((gpa : ℕ) → IsWritable vm gpa → a ≢ address (translation vm gpa)) → mem' a ≡ mem a

  module _ (law : IsLawful hw) where
    -- What holds in an iteration that has started with the VM `start`.
    pub record IsFaithful (g : Setup) (e : MutationEngine) (start : Vm V) (s : Snapshot) (vm : Vm V)
        (mem : Memory) : Type 0 where
      pub backed : IsBackedBy law IsPagedIn start s vm
      pub private : IsPrivate vm
      pub apart : IsApart s vm e
      pub intact : IsIntact g.file g.patches s mem

    -- An exit that is genuine, from a guest that is confined.
    abbrev pub IsProper : Machine V → Exit V → Type 0
    IsProper m x = IsGenuine law (exited x m).vm x.reason × IsConfined m.vm m.memory x.memory

    built-same :
        (vm vm' : Vm V) (gpa pa : ℕ)
        → build_translation vm gpa pa ≡ ok vm'
        → IsSound vm
        → (vm'.dirty_pages ≡ vm.dirty_pages) × (vm'.dirty_page_count ≡ vm.dirty_page_count)
    built-same vm vm' gpa pa did s =
        elim (build_translation-Built vm s.level gpa pa s.placed s.tree) [
          | inl (empty, after, did', b) ↦
              let this : after ≡ vm' = cc in
              (
                ap (λ (v : Vm V). v.dirty_pages) (sym this ∙ b.frame),
                ap (λ (v : Vm V). v.dirty_page_count) (sym this ∙ b.frame),
              )
          | inr (q, why) ↦ absurd (cc)
        ]

    module _ (g : Setup) (e : MutationEngine) (start : Vm V) where
      copy-IsFaithful :
          (s : Snapshot) (vm vm' : Vm V) (mem mem' : Memory) (gpa from pa : ℕ) (done : Bool)
          → translation vm gpa ≡ set_translation 0 pa (rx_flags vm)
          → copy_on_write vm mem gpa from ≡ ok (vm', mem', done)
          → IsFaithful g e start s vm mem
          → IsApart s vm' e × IsIntact g.file g.patches s mem'
      copy-IsFaithful s vm vm' mem mem' gpa from pa done c did f =
          let sound = f.backed.runs.keeps.sound in
          elim (copy_on_write-Copied law vm mem sound.level gpa from pa sound.placed sound.tree
            sound.tracked c) [
              | inl (full, same) ↦
                  let this : vm ≡ vm' = cc in
                  let still : mem ≡ mem' = cc in
                  (
                    subst (λ v. IsApart s v e) this f.apart,
                    subst (IsIntact g.file g.patches s) still f.intact,
                  )
              | inr (room, after, mem₁, did', copied, _, _, _) ↦
                  let this : after ≡ vm' = cc in
                  let now : mem₁ ≡ mem' = cc in
                  (
                    subst (λ v. IsApart s v e) this
                        (IsApart-moved s s vm after e e (refl, refl) copied.same_pages (refl, refl)
                          f.apart),
                    subst (IsIntact g.file g.patches s) now (
                        IsIntact-same g.file g.patches s mem mem₁
                          (λ pfn l.
                            copied.unshared (page_address s pfn)
                              (f.apart.from_dirty pfn vm.used_dirty_page_count l room))
                          f.intact),
                  )
            ]

      pub resolve_pa_for_gpa-IsFaithful :
          (s : Snapshot) (vm : Vm V) (mem : Memory) (gpa : ℕ)
          → IsFaithful g e start s vm mem
          → Satisfies
              (λ (x : Snapshot × Memory × (ℕ ⊎ VmExitResult)).
                IsFaithful g e start x.0 vm x.1
                × IsSourced law IsPagedIn x.0 gpa x.2
                × ((h pa : ℕ) → IsPagedIn s h pa → IsPagedIn x.0 h pa))
              (resolve_pa_for_gpa g e s mem gpa)
      unfolding resolve_pa_for_gpa or_input_data
      resolve_pa_for_gpa-IsFaithful s vm mem gpa f =
          Satisfies-then _ _ (resolve_page_from_snapshot g.file g.patches s mem pfn) _
            (resolve_page_from_snapshot-IsIntact g.file g.patches s mem f.intact pfn)
            (λ (s', mem', page) did answer. by_page s' mem' page answer)
        where
          pfn : ℕ
          pfn = gpa / 2 ^ 12

          moved :
              (s' : Snapshot) (mem' : Memory)
              → Extended s s'
              → IsIntact g.file g.patches s' mem'
              → IsFaithful g e start s' vm mem'
          moved s' mem' x intact = record {
            backed = IsBackedBy-moved law s s' (IsPagedIn-Extended s s' x) f.backed;
            private = f.private;
            apart =
                IsApart-moved s s' vm vm e e (x.memory, x.page_count) (refl, refl) (refl, refl)
                  f.apart;
            intact = intact;
          }

          unpaged :
              (s' : Snapshot) (resolved : ℕ ⊎ VmExitResult)
              → contains s pfn ≡ false
              → Extended s s'
              → IsSourced law IsPagedIn s' gpa resolved
          unpaged s' (inl pa) outside x =
              λ y. absurd (cc (ap (λ r. contains_page r pfn) x.memory_ranges))
          unpaged s' (inr err) outside x = tt

          by_page :
              (s' : Snapshot) (mem' : Memory) (page : Option ℕ)
              → Answers g.file g.patches s mem f.intact pfn (s', mem', page)
              → Satisfies
                  (λ (x : Snapshot × Memory × (ℕ ⊎ VmExitResult)).
                    IsFaithful g e start x.0 vm x.1
                    × IsSourced law IsPagedIn x.0 gpa x.2
                    × ((h pa : ℕ) → IsPagedIn s h pa → IsPagedIn x.0 h pa))
                  (or_input_data g e pfn page >>= λ resolved. ok (s', mem', resolved))
          by_page s' mem' (some pa) (y, at, b) = (
            moved s' mem' b.extended b.intact,
            λ y'. (at ∙ ap (λ base. base + pfn * page_size) (sym b.extended.memory), b.is_read),
            IsPagedIn-Extended s s' b.extended,
          )
          by_page s' mem' none (n, x, intact) =
              Satisfies->>= _ (or_input_data g e pfn none) _ (λ resolved did.
                (moved s' mem' x intact, unpaged s' resolved n x, IsPagedIn-Extended s s' x))

      pub run-IsFaithful :
          (m : Machine V) (x : Exit V)
          → IsProper m x
          → IsFaithful g e start m.snapshot m.vm m.memory
          → IsFaithful g e start m.snapshot (exited x m).vm x.memory
      run-IsFaithful m x (_, confined) f = record {
        backed =
            (IsBackedBy-IsKept law IsPagedIn start).on_vt m.snapshot m.vm m.memory x.vt f.backed;
        private = record { owned = f.private.owned; alone = f.private.alone };
        apart =
            IsApart-moved m.snapshot m.snapshot m.vm (exited x m).vm e e (refl, refl) (refl, refl)
              (refl, refl) f.apart;
        intact =
            IsIntact-same g.file g.patches m.snapshot m.memory x.memory
              (λ pfn l. confined (page_address m.snapshot pfn) (λ gpa w same.
                let (k, used, own) = f.private.owned gpa w in
                let in_range = f.backed.runs.keeps.sound.tracked.in_range in
                f.apart.from_dirty pfn k l (omega arith) (same ∙ own)))
              f.intact;
      }

      -- The handling of proper exits keeps all that.
      pub IsFaithful-IsLasting :
          IsLasting law g e (Any law) IsProper IsPagedIn (IsFaithful g e start)
      IsFaithful-IsLasting =
          let backing = IsBackedBy-IsKept law IsPagedIn start in
          record {
            kept = record {
              on_vt = λ s vm mem vt f. record {
                backed = backing.on_vt s vm mem vt f.backed;
                private = record { owned = f.private.owned; alone = f.private.alone };
                apart =
                    IsApart-moved s s vm (record vm { vt = vt }) e e (refl, refl) (refl, refl)
                      (refl, refl) f.apart;
                intact = f.intact;
              };
              on_build = λ s vm vm' mem gpa pa did paged f.
                  let sound = f.backed.runs.keeps.sound in
                  record {
                    backed = backing.on_build s vm vm' mem gpa pa did paged f.backed;
                    private = IsPrivate-build law vm vm' gpa pa did sound f.private;
                    apart =
                        IsApart-moved s s vm vm' e e (refl, refl)
                          (built-same vm vm' gpa pa did sound) (refl, refl) f.apart;
                    intact = f.intact;
                  };
              on_copy = λ s vm vm' mem mem' gpa from pa done c did f.
                  let sound = f.backed.runs.keeps.sound in
                  let (apart, intact) =
                    copy-IsFaithful s vm vm' mem mem' gpa from pa done c did f in
                  record {
                    backed = backing.on_copy s vm vm' mem mem' gpa from pa done c did f.backed;
                    private =
                        IsPrivate-copy law vm vm' mem mem' gpa from pa done c did sound f.private;
                    apart = apart;
                    intact = intact;
                  };
              on_built =
                  λ s vm vm' mem gpa pa did f. backing.on_built s vm vm' mem gpa pa did f.backed;
            };
            mapped = λ s vm mem f. f.backed.runs.mapped;
            genuine = λ m x (this, _). this;
            within = λ m x this. IsWithin-Any law x.reason;
            on_run = run-IsFaithful;
            on_resolve = λ s vm mem gpa any f.
                Satisfies-map _ _ (resolve_pa_for_gpa g e s mem gpa)
                  (λ x (f', sourced, _). (f', sourced))
                  (resolve_pa_for_gpa-IsFaithful s vm mem gpa f);
            on_revert = λ s vm mem mem' entry rip found did f. record {
              backed = f.backed;
              private = f.private;
              apart = f.apart;
              intact = revert-IsIntact g.file g.patches s mem f.intact entry rip found did;
            };
          }
