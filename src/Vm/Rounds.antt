-- ===== src/Vm/Rounds.antt =====
-- hypervisor/src/vm.rs: what holds of a VM from one iteration to the next.
use hypervisor_101_in_rust.Prelude.{
  ℕ, ◌≡◌, ◌⊎◌, refl, sym, ap, subst, ◌∙◌, Bool, true, inl, inr, arith, ok, ◌==◌, Bool-cases,
}
use hypervisor_101_in_rust.Memory.{Memory}
use hypervisor_101_in_rust.HardwareVt.{HardwareVt, IsLawful, rx_write_back}
use hypervisor_101_in_rust.HardwareVt.Entry.{Flags, Entry, set_translation}
use hypervisor_101_in_rust.Vm.{Vm, translation, build_translation, copy_on_write}
use hypervisor_101_in_rust.Vm.Translation.{
  page_of, build_translation-Built, build_translation-eq-ok,
}
use hypervisor_101_in_rust.Vm.Restore.{rx_flags, clean_translation}
use hypervisor_101_in_rust.Vm.CopyOnWrite.{copy_on_write-Copied}
use hypervisor_101_in_rust.Vm.Iteration.{
  IsSound, IsSound-vt, Keeps, Keeps-vt, Change-Keeps, build, copy, same_leaf, clean_at_start,
  clean-vt, clean-built_self, clean-built_ne, reset, reset-IsSound,
}
use hypervisor_101_in_rust.Vm.Mappings.{
  unmapped, clean, IsMapped, IsMapped-vt, IsMapped-build, IsMapped-copy,
}

-- An entry that is empty or clean.
abbrev pub IsUnwritten : Flags → Entry → Type 0
IsUnwritten rx e = (e ≡ 0) ⊎ ((pa : ℕ) × (e ≡ set_translation 0 pa rx))

module _ {V : Type 0} ⦃hw : HardwareVt V⦄ where
  -- What holds of a VM at the start of an iteration.
  pub record IsStart (vm : Vm V) : Type 0 where
    pub sound : IsSound vm
    pub none_dirty : vm.used_dirty_page_count ≡ 0
    pub unwritten : (g : ℕ) → IsUnwritten (rx_flags vm) (translation vm g)

  -- What holds of it in an iteration that has started with the VM `start`.
  pub record Runs (start vm : Vm V) : Type 0 where
    pub keeps : Keeps start vm
    pub mapped : IsMapped vm
    pub unwritten : (g : ℕ) → IsUnwritten (rx_flags vm) (clean_translation vm g)

  module _ (law : IsLawful hw) where
    IsUnwritten-vt :
        (v w : V) (e : Entry)
        → IsUnwritten (hw.nps_entry_flags v rx_write_back) e
        → IsUnwritten (hw.nps_entry_flags w rx_write_back) e
    IsUnwritten-vt v w e = subst (λ rx. IsUnwritten rx e) (law.stateless v w rx_write_back)

    pub Runs-start : (vm : Vm V) → IsStart vm → Runs vm vm
    Runs-start vm s = record {
      keeps = record { sound = s.sound; kept = λ g ne. clean_at_start vm s.none_dirty g };
      mapped = λ g. elim (s.unwritten g) [ inl z ↦ unmapped z | inr (pa, e) ↦ clean pa e ];
      unwritten = λ g.
          subst (IsUnwritten (rx_flags vm)) (sym (clean_at_start vm s.none_dirty g))
            (s.unwritten g);
    }

    pub Runs-vt : (start vm : Vm V) (vt : V) → Runs start vm → Runs start (record vm { vt = vt })
    Runs-vt start vm vt r = record {
      keeps = Keeps-vt law vt r.keeps;
      mapped = IsMapped-vt law vm vt r.mapped;
      unwritten = λ g.
          IsUnwritten-vt vm.vt vt (clean_translation (record vm { vt = vt }) g)
            (subst (IsUnwritten (rx_flags vm)) (sym (clean-vt law vm vt g)) (r.unwritten g));
    }

    IsMapped-build_translation :
        (vm vm' : Vm V) (gpa pa : ℕ)
        → build_translation vm gpa pa ≡ ok vm'
        → IsSound vm
        → IsMapped vm
        → IsMapped vm'
    IsMapped-build_translation vm vm' gpa pa e s mapped =
        elim (build_translation-Built vm s.level gpa pa s.placed s.tree) [
          | inl (empty, after, did, b) ↦
              let this : after ≡ vm' = cc in
              subst (λ v. IsMapped v) this (IsMapped-build law vm after b mapped)
          | inr (p, why) ↦ absurd (cc)
        ]

    -- Of the entries that reverting gives, `build_translation` changes that of its page alone.
    pub clean_translation-build_translation :
        (vm vm' : Vm V) (gpa pa : ℕ)
        → build_translation vm gpa pa ≡ ok vm'
        → IsSound vm
        → (g : ℕ)
        → ((page_of g ≡ page_of gpa)
            × (clean_translation vm' g ≡ set_translation 0 pa (rx_flags vm)))
          ⊎ (clean_translation vm' g ≡ clean_translation vm g)
    clean_translation-build_translation vm vm' gpa pa e s g =
        let (tb, used, u, level', w, z, same) =
          build_translation-eq-ok vm s.level gpa pa s.placed s.tree e in
        let here = clean-built_self law vm s.level gpa pa tb used u level' s.tree s.tracked w z in
        let there = clean-built_ne law vm s.level gpa pa tb used u level' s.tree s.tracked w z g in
        elim (Bool-cases (page_of g == page_of gpa)) [
          | inl y ↦
              let same_page : page_of g ≡ page_of gpa = ground arith in
              inl (
                same_page,
                ap (λ (v : Vm V). clean_translation v g) same
                    ∙ same_leaf _ vm.nested_pml4 g gpa same_page
                    ∙ here,
              )
          | inr n ↦ inr (ap (λ (v : Vm V). clean_translation v g) same ∙ there (ground arith))
        ]

    IsUnwritten-build_translation :
        (vm vm' : Vm V) (gpa pa : ℕ)
        → build_translation vm gpa pa ≡ ok vm'
        → IsSound vm
        → ((g : ℕ) → IsUnwritten (rx_flags vm) (clean_translation vm g))
        → (g : ℕ) → IsUnwritten (rx_flags vm') (clean_translation vm' g)
    IsUnwritten-build_translation vm vm' gpa pa e s unwritten g =
        IsUnwritten-vt vm.vt vm'.vt (clean_translation vm' g)
          (elim (clean_translation-build_translation vm vm' gpa pa e s g) [
            | inl (_, new) ↦ inr (pa, new)
            | inr old ↦ subst (IsUnwritten (rx_flags vm)) (sym old) (unwritten g)
          ])

    pub Runs-build :
        (start vm vm' : Vm V) (gpa pa : ℕ)
        → build_translation vm gpa pa ≡ ok vm'
        → Runs start vm
        → Runs start vm'
    Runs-build start vm vm' gpa pa e r = record {
      keeps = Change-Keeps law (build {mem = λ a o. 0} gpa pa e) r.keeps;
      mapped = IsMapped-build_translation vm vm' gpa pa e r.keeps.sound r.mapped;
      unwritten = IsUnwritten-build_translation vm vm' gpa pa e r.keeps.sound r.unwritten;
    }

    pub clean_translation-copy_on_write :
        (vm vm' : Vm V) (mem mem' : Memory) (gpa from pa : ℕ) (done : Bool)
        → translation vm gpa ≡ set_translation 0 pa (rx_flags vm)
        → copy_on_write vm mem gpa from ≡ ok (vm', mem', done)
        → IsSound vm
        → (g : ℕ) → clean_translation vm' g ≡ clean_translation vm g
    clean_translation-copy_on_write vm vm' mem mem' gpa from pa done c e s g =
        elim (copy_on_write-Copied law vm mem s.level gpa from pa s.placed s.tree s.tracked c) [
          | inl (full, same) ↦
              let this : vm ≡ vm' = cc in ap (λ (v : Vm V). clean_translation v g) (sym this)
          | inr (room, after, mem₁, did, copied, _, _, _) ↦
              let this : after ≡ vm' = cc in
              ap (λ (v : Vm V). clean_translation v g) (sym this) ∙ copied.reverts g
        ]

    pub Runs-copy :
        (start vm vm' : Vm V) (mem mem' : Memory) (gpa from pa : ℕ) (done : Bool)
        → translation vm gpa ≡ set_translation 0 pa (rx_flags vm)
        → copy_on_write vm mem gpa from ≡ ok (vm', mem', done)
        → Runs start vm
        → Runs start vm'
    Runs-copy start vm vm' mem mem' gpa from pa done c e r =
        let s = r.keeps.sound in
        elim (copy_on_write-Copied law vm mem s.level gpa from pa s.placed s.tree s.tracked c) [
          | inl (full, same) ↦ let this : vm ≡ vm' = cc in subst (Runs start) this r
          | inr (room, after, mem₁, did, copied, in_place, in_tree, in_track) ↦
              let this : after ≡ vm' = cc in
              subst (Runs start) this (record {
                keeps = Change-Keeps law (copy gpa from pa true c did) r.keeps;
                mapped = IsMapped-copy law vm after copied r.mapped;
                unwritten = λ g.
                    IsUnwritten-vt vm.vt after.vt (clean_translation after g)
                      (subst (IsUnwritten (rx_flags vm)) (sym (copied.reverts g)) (r.unwritten g));
              })
        ]

    -- `revert_dirty_memory` ends every iteration with a VM that the next one can start with.
    pub reset-IsStart : (start vm : Vm V) (vt : V) → Runs start vm → IsStart (reset vm vt)
    reset-IsStart start vm vt r = record {
      sound = reset-IsSound r.keeps.sound vt;
      none_dirty = refl;
      unwritten = λ g. IsUnwritten-vt vm.vt vt (clean_translation vm g) (r.unwritten g);
    }

    pub IsStart-vt : (vm : Vm V) (vt : V) → IsStart vm → IsStart (record vm { vt = vt })
    IsStart-vt vm vt s = record {
      sound = IsSound-vt law vt s.sound;
      none_dirty = s.none_dirty;
      unwritten = λ g. IsUnwritten-vt vm.vt vt (translation vm g) (s.unwritten g);
    }
