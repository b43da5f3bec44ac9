-- ===== src/Hypervisor/Located.antt =====
-- hypervisor/src/hypervisor.rs: at which guest physical addresses the guest has the pages of the
-- snapshot, where it uses the 48 bits of addresses that the nested paging structures translate.
use hypervisor_101_in_rust.Prelude.{ℕ, ◌^◌, ◌<◌, ◌⊎◌, Satisfies, Satisfies-map, inl, inr}
use hypervisor_101_in_rust.Memory.{Memory}
use hypervisor_101_in_rust.HardwareVt.{HardwareVt, IsLawful}
use hypervisor_101_in_rust.Vm.{Vm}
use hypervisor_101_in_rust.Snapshot.{Snapshot}
use hypervisor_101_in_rust.Mutation.{MutationEngine}
use hypervisor_101_in_rust.Hypervisor.{Setup, Machine, VmExitResult, Exit, resolve_pa_for_gpa}
use hypervisor_101_in_rust.Hypervisor.Faults.{IsSourced}
use hypervisor_101_in_rust.Hypervisor.Backed.{IsBackedBy, IsBackedBy-IsKept, IsBackedBy-moved}
use hypervisor_101_in_rust.Hypervisor.Lasting.{IsWithin, IsLasting}
use hypervisor_101_in_rust.Hypervisor.Contents.{
  IsPagedIn, IsFaithful, IsProper, run-IsFaithful, resolve_pa_for_gpa-IsFaithful,
  IsFaithful-IsLasting,
}

-- A guest physical address has 48 bits.
abbrev pub IsGpa : ℕ → Type 0
IsGpa gpa = gpa < 2 ^ 48

abbrev pub IsLocatedAt : Snapshot → (gpa pa : ℕ) → Type 0
IsLocatedAt s gpa pa = IsGpa gpa × IsPagedIn s gpa pa

module _ {V : Type 0} ⦃hw : HardwareVt V⦄ (law : IsLawful hw) where
  -- A proper exit whose fault is at an address of the guest.
  abbrev pub IsOwn : Machine V → Exit V → Type 0
  IsOwn m x = IsProper law m x × IsWithin law IsGpa x.reason

  pub record IsLocated (g : Setup) (e : MutationEngine) (start : Vm V) (s : Snapshot) (vm : Vm V)
      (mem : Memory) : Type 0 where
    pub faithful : IsFaithful law g e start s vm mem
    pub located : IsBackedBy law IsLocatedAt start s vm

  module _ (g : Setup) (e : MutationEngine) (start : Vm V) where
    resolve_pa_for_gpa-IsLocated :
        (s : Snapshot) (vm : Vm V) (mem : Memory) (gpa : ℕ)
        → IsGpa gpa
        → IsLocated g e start s vm mem
        → Satisfies
            (λ (x : Snapshot × Memory × (ℕ ⊎ VmExitResult)).
              IsLocated g e start x.0 vm x.1 × IsSourced law IsLocatedAt x.0 gpa x.2)
            (resolve_pa_for_gpa g e s mem gpa)
    resolve_pa_for_gpa-IsLocated s vm mem gpa own f =
        Satisfies-map _ _ (resolve_pa_for_gpa g e s mem gpa)
          (λ (s', mem', resolved) (faithful, sourced, more). (
            record {
              faithful = faithful;
              located =
                  IsBackedBy-moved law s s' (λ h pa (in_range, paged). (in_range, more h pa paged))
                    f.located;
            },
            at_gpa s' resolved sourced,
          ))
          (resolve_pa_for_gpa-IsFaithful law g e start s vm mem gpa f.faithful)
      where
        at_gpa :
            (s' : Snapshot) (resolved : ℕ ⊎ VmExitResult)
            → IsSourced law IsPagedIn s' gpa resolved
            → IsSourced law IsLocatedAt s' gpa resolved
        at_gpa s' (inl pa) sourced = (own, sourced)
        at_gpa s' (inr err) sourced = tt

    pub IsLocated-IsLasting : IsLasting law g e IsGpa IsOwn IsLocatedAt (IsLocated g e start)
    IsLocated-IsLasting =
        let lasting = IsFaithful-IsLasting law g e start in
        let whole = lasting.kept in
        let backing = IsBackedBy-IsKept law IsLocatedAt start in
        record {
          kept = record {
            on_vt = λ s vm mem vt f. record {
              faithful = whole.on_vt s vm mem vt f.faithful;
              located = backing.on_vt s vm mem vt f.located;
            };
            on_build = λ s vm vm' mem gpa pa did source f. record {
              faithful = whole.on_build s vm vm' mem gpa pa did source.1 f.faithful;
              located = backing.on_build s vm vm' mem gpa pa did source f.located;
            };
            on_copy = λ s vm vm' mem mem' gpa from pa done c did f. record {
              faithful = whole.on_copy s vm vm' mem mem' gpa from pa done c did f.faithful;
              located = backing.on_copy s vm vm' mem mem' gpa from pa done c did f.located;
            };
            on_built =
                λ s vm vm' mem gpa pa did f. whole.on_built s vm vm' mem gpa pa did f.faithful;
          };
          mapped = λ s vm mem f. f.faithful.backed.runs.mapped;
          genuine = λ m x ((this, _), _). this;
          within = λ m x (_, this). this;
          on_run = λ m x (proper, _) f. record {
            faithful = run-IsFaithful law g e start m x proper f.faithful;
            located = backing.on_vt m.snapshot m.vm m.memory x.vt f.located;
          };
          on_resolve = resolve_pa_for_gpa-IsLocated;
          on_revert = λ s vm mem mem' entry rip found did f. record {
            faithful = lasting.on_revert s vm mem mem' entry rip found did f.faithful;
            located = f.located;
          };
        }
