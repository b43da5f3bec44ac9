-- ===== src/Hypervisor/Progress.antt =====
-- hypervisor/src/hypervisor.rs: `handle_nested_page_fault` gives the guest the access that faulted.
use hypervisor_101_in_rust.Prelude.{
  ℕ, ◌+◌, ◌≤◌, ◌≡◌, refl, sym, ap, ◌∙◌, Bool, true, false, not, inl, inr, Exec, ok, Bool-cases,
  arith,
}
use hypervisor_101_in_rust.Memory.{Memory}
use hypervisor_101_in_rust.HardwareVt.{NestedPageFaultQualification, HardwareVt, IsLawful}
use hypervisor_101_in_rust.HardwareVt.Entry.{set_translation}
use hypervisor_101_in_rust.Vm.{Vm, translation}
use hypervisor_101_in_rust.Vm.Translation.{build_translation-Built}
use hypervisor_101_in_rust.Vm.Restore.{rx_flags}
use hypervisor_101_in_rust.Vm.CopyOnWrite.{copy_on_write-Copied}
use hypervisor_101_in_rust.Vm.Mappings.{
  permits, permits-writable, IsMapped, unreadable, unwritable, readable-clean,
}
use hypervisor_101_in_rust.Vm.Rounds.{Runs, Runs-vt, Runs-build, Runs-copy}
use hypervisor_101_in_rust.Snapshot.{Snapshot}
use hypervisor_101_in_rust.Mutation.{MutationEngine}
use hypervisor_101_in_rust.Hypervisor.{
  Setup, Machine, VmExitResult, resume_vm, abort_vm, excessive_memory_write, resolve_pa_for_gpa,
  resume, after_copy, give_access, map_page, handle_nested_page_fault,
}
use hypervisor_101_in_rust.Hypervisor.Faults.{IsAccurate, built-mapped}

not_present : (b c : Bool) → b ≡ not c → b ≡ true → c ≡ false
not_present b true e t = sym t ∙ e
not_present b false e t = refl

present : (b c : Bool) → b ≡ not c → b ≡ false → c ≡ true
present b true e f = refl
present b false e f = sym f ∙ e

module _ {V : Type 0} ⦃hw : HardwareVt V⦄ (law : IsLawful hw) where
  -- What the processor reports of a nested page fault: whether the entry is present, and an access
  -- that it does not permit.
  pub record IsFault (vm : Vm V) (q : NestedPageFaultQualification) : Type 0 where
    pub missing : q.missing_translation ≡ not (permits (translation vm q.gpa) false)
    pub denied : permits (translation vm q.gpa) q.write_access ≡ false

  -- The guest resumes on a VM that permits the access, or is aborted, for a write, since there is no
  -- dirty page left.
  pub data Served (start : Vm V) (gpa : ℕ) (write : Bool) (r : Exec (Machine V × VmExitResult))
      : Type 0 where
    resumed :
        (m : Machine V)
        → r ≡ ok (m, resume_vm)
        → permits (translation m.vm gpa) write ≡ true
        → Runs start m.vm
        → Served start gpa write r
    aborted :
        (m : Machine V)
        → r ≡ ok (m, abort_vm excessive_memory_write)
        → write ≡ true
        → m.vm.used_dirty_page_count ≡ m.vm.dirty_page_count
        → Runs start m.vm
        → Served start gpa write r

  -- Such a report is accurate: a write that faults on a page that is present faults on a clean one.
  pub IsFault-IsAccurate :
      (vm : Vm V) (q : NestedPageFaultQualification)
      → IsMapped vm
      → IsFault vm q
      → IsAccurate law vm q
  unfolding IsAccurate
  IsFault-IsAccurate vm q mapped fault there write =
      unwritable law vm q.gpa mapped
        (present q.missing_translation (permits (translation vm q.gpa) false) fault.missing there)
        (ap (permits (translation vm q.gpa)) (sym write) ∙ fault.denied)

  module _ (invalidated : (v : V) → (v' : V) × (hw.invalidate_caches v ≡ ok v'))
      (start : Vm V) where
    resume-Served :
        (vm : Vm V) (s : Snapshot) (mem : Memory) (gpa : ℕ) (write : Bool)
        → permits (translation vm gpa) write ≡ true
        → Runs start vm
        → Served start gpa write (resume vm s mem)
    unfolding resume
    resume-Served vm s mem gpa write granted runs =
        let (vt, e) = invalidated vm.vt in
        resumed (record { vm = record vm { vt = vt }; snapshot = s; memory = mem }) (rw e refl)
          granted (Runs-vt law start vm vt runs)

    give_access-Served :
        (vm : Vm V) (s : Snapshot) (mem : Memory) (gpa from pa : ℕ) (write : Bool)
        → translation vm gpa ≡ set_translation 0 pa (rx_flags vm)
        → Runs start vm
        → Served start gpa write (give_access vm s mem gpa from write)
    unfolding give_access after_copy
    give_access-Served vm s mem gpa from pa false clean runs =
        resume-Served vm s mem gpa false (readable-clean law vm gpa pa clean) runs
    give_access-Served vm s mem gpa from pa true clean runs =
        let sound = runs.keeps.sound in
        elim (copy_on_write-Copied law vm mem sound.level gpa from pa sound.placed sound.tree
          sound.tracked clean) [
            | inl (full, e) ↦
                aborted (record { vm = vm; snapshot = s; memory = mem }) (rw e refl) refl full runs
            | inr (room, vm', mem', e, c, in_place, in_tree, in_track) ↦ rw e (
                resume-Served vm' s mem' gpa true
                  (permits-writable (translation vm' gpa) true c.own_page_writable)
                  (Runs-copy law start vm vm' mem mem' gpa from pa true clean e runs))
          ]

    map_page-Served :
        (vm : Vm V) (s : Snapshot) (mem : Memory) (q : NestedPageFaultQualification) (pa : ℕ)
        → vm.used_nps_count + 3 ≤ vm.nps_count
        → IsFault vm q
        → Runs start vm
        → Served start q.gpa q.write_access (map_page vm s mem q (inl pa))
    unfolding map_page IsAccurate
    map_page-Served vm s mem q pa room fault runs =
        let readable = permits (translation vm q.gpa) false in
        elim (Bool-cases q.missing_translation) [
          | inl missing ↦
              let empty =
                unreadable law vm q.gpa runs.mapped
                  (not_present q.missing_translation readable fault.missing missing) in
              elim (build_translation-Built vm runs.keeps.sound.level q.gpa pa
                runs.keeps.sound.placed runs.keeps.sound.tree) [
                  | inl (_, vm', e, b) ↦
                      rw (missing, e)
                        (give_access-Served vm' s mem q.gpa pa pa q.write_access
                          (built-mapped law q.gpa pa runs.keeps e)
                          (Runs-build law start vm vm' q.gpa pa e runs))
                  | inr (_, inl there) ↦ absurd (there empty)
                  | inr (_, inr few) ↦ absurd (omega arith)
                ]
          | inr there ↦
              let granted = present q.missing_translation readable fault.missing there in
              elim (Bool-cases q.write_access) [
                | inl write ↦
                    let (pa', clean) = IsFault-IsAccurate vm q runs.mapped fault there write in
                    rw there (give_access-Served vm s mem q.gpa pa pa' q.write_access clean runs)
                | inr read ↦
                    let denied : readable ≡ false =
                      ap (permits (translation vm q.gpa)) (sym read) ∙ fault.denied in
                    absurd (cc)
              ]
        ]

    -- A genuine fault for which a page is found lets the guest go on: the handler neither panics nor
    -- aborts, but for a write without a dirty page, and when the VM resumes, it permits the access
    -- that faulted. What holds of the VM in an iteration holds of it again. At least three structures
    -- must be left, and invalidating the caches must succeed.
    pub handle_nested_page_fault-Served :
        (g : Setup) (e : MutationEngine) (m : Machine V) (q : NestedPageFaultQualification)
        {s : Snapshot} {mem : Memory} {pa : ℕ}
        → resolve_pa_for_gpa g e m.snapshot m.memory q.gpa ≡ ok (s, mem, inl pa)
        → m.vm.used_nps_count + 3 ≤ m.vm.nps_count
        → IsFault m.vm q
        → Runs start m.vm
        → Served start q.gpa q.write_access (handle_nested_page_fault g e m q)
    unfolding handle_nested_page_fault
    handle_nested_page_fault-Served g e m q {s} {mem} {pa} resolved room fault runs =
        rw resolved (map_page-Served m.vm s mem q pa room fault runs)
