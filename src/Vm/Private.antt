-- ===== src/Vm/Private.antt =====
-- hypervisor/src/vm.rs: the pages of memory that a guest can write.
use hypervisor_101_in_rust.Prelude.{
  ℕ, ◌+◌, ◌*◌, ◌<◌, ◌≡◌, ◌⊎◌, sym, ap, ◌∙◌, subst, Bool, true, false, inl, inr, ok, ◌==◌,
  Bool-cases, arith,
}
use hypervisor_101_in_rust.Memory.{page_size, Memory}
use hypervisor_101_in_rust.HardwareVt.{HardwareVt, IsLawful}
use hypervisor_101_in_rust.HardwareVt.Entry.{Entry, address, set_translation}
use hypervisor_101_in_rust.Vm.{Vm, dirty_address, translation, build_translation, copy_on_write}
use hypervisor_101_in_rust.Vm.Translation.{page_of, Built, build_translation-Built}
use hypervisor_101_in_rust.Vm.Restore.{rx_flags}
use hypervisor_101_in_rust.Vm.CopyOnWrite.{Copied, copy_on_write-Copied}
use hypervisor_101_in_rust.Vm.Iteration.{IsSound, same_leaf}
use hypervisor_101_in_rust.Vm.Mappings.{permits, permits-clean}
use hypervisor_101_in_rust.Vm.Rounds.{IsStart}

module _ {V : Type 0} ⦃hw : HardwareVt V⦄ where
  abbrev pub IsWritable : Vm V → (gpa : ℕ) → Type 0
  IsWritable vm gpa = permits (translation vm gpa) true ≡ true

  -- Each page that the guest can write is a dirty page in use, and belongs to one guest page alone.
  pub record IsPrivate (vm : Vm V) : Type 0 where
    pub owned :
        (gpa : ℕ)
        → IsWritable vm gpa
        → (k : ℕ) × (k < vm.used_dirty_page_count)
          × (address (translation vm gpa) ≡ dirty_address vm k)
    pub alone :
        (gpa gpa' : ℕ)
        → IsWritable vm gpa
        → IsWritable vm gpa'
        → address (translation vm gpa) ≡ address (translation vm gpa')
        → page_of gpa ≡ page_of gpa'

  same_entry : (vm : Vm V) (g h : ℕ) → page_of g ≡ page_of h → translation vm g ≡ translation vm h
  same_entry vm g h = same_leaf vm.tables vm.nested_pml4 g h

  module _ (law : IsLawful hw) where
    clean-unwritable :
        (vm : Vm V) (e : Entry) (pa : ℕ)
        → e ≡ set_translation 0 pa (rx_flags vm)
        → permits e true ≡ false
    clean-unwritable vm e pa c =
        ap (λ x. permits x true) c ∙ (permits-clean (rx_flags vm) pa (law.read_only vm.vt)).1

    pub IsStart-IsPrivate : (vm : Vm V) → IsStart vm → IsPrivate vm
    IsStart-IsPrivate vm s = record {
      owned = λ g w. absurd (cc (unwritable g));
      alone = λ g h w w' same. absurd (cc (unwritable g));
    }
      where
        unwritable : (g : ℕ) → permits (translation vm g) true ≡ false
        unwritable g = elim (s.unwritten g) [
          | inl z ↦ ap (λ e. permits e true) z
          | inr (pa, c) ↦ clean-unwritable vm (translation vm g) pa c
        ]

    Built-IsPrivate :
        (vm vm' : Vm V) (gpa pa : ℕ) → Built vm gpa pa vm' → IsPrivate vm → IsPrivate vm'
    Built-IsPrivate vm vm' gpa pa b p = record {
      owned = λ g w.
          let (k, l, own) = p.owned g (before g w) in
          (k, omega (arith, used), ap address (old g w) ∙ own ∙ same_address k);
      alone = λ g h w w' same.
          p.alone g h (before g w) (before h w')
            (ap address (sym (old g w)) ∙ same ∙ ap address (old h w'));
    }
      where
        used : vm'.used_dirty_page_count ≡ vm.used_dirty_page_count
        used = ap (λ (v : Vm V). v.used_dirty_page_count) b.frame

        same_address : (k : ℕ) → dirty_address vm k ≡ dirty_address vm' k
        same_address k = ap (λ (v : Vm V). dirty_address v k) (sym b.frame)

        old : (g : ℕ) → IsWritable vm' g → translation vm' g ≡ translation vm g
        old g w = elim (Bool-cases (page_of g == page_of gpa)) [
          | inl y ↦
              let same = same_entry vm' g gpa (ground arith) in
              absurd (cc (clean-unwritable vm (translation vm' g) pa (same ∙ b.mapped)))
          | inr n ↦ b.others g (ground arith)
        ]

        before : (g : ℕ) → IsWritable vm' g → IsWritable vm g
        before g w = ap (λ x. permits x true) (sym (old g w)) ∙ w

    pub IsPrivate-build :
        (vm vm' : Vm V) (gpa pa : ℕ)
        → build_translation vm gpa pa ≡ ok vm'
        → IsSound vm
        → IsPrivate vm
        → IsPrivate vm'
    IsPrivate-build vm vm' gpa pa e s p =
        elim (build_translation-Built vm s.level gpa pa s.placed s.tree) [
          | inl (empty, after, did, b) ↦
              let this : after ≡ vm' = cc in
              subst IsPrivate this (Built-IsPrivate vm after gpa pa b p)
          | inr (q, why) ↦ absurd (cc)
        ]

    Copied-IsPrivate :
        (vm vm' : Vm V) (mem mem' : Memory) (gpa from : ℕ)
        → Copied vm mem gpa from vm' mem'
        → IsPrivate vm
        → IsPrivate vm'
    Copied-IsPrivate vm vm' mem mem' gpa from c p = record {
      owned = λ g w. elim (place g w) [
        | inl (page, own) ↦ (
          vm.used_dirty_page_count,
          omega (arith, c.counted),
          own ∙ same_address vm.used_dirty_page_count,
        )
        | inr (k, l, own, w₀, same) ↦ (k, omega (arith, c.counted), own ∙ same_address k)
      ];
      alone = λ g h w w' same. elim (place g w) [
        | inl (page, own) ↦ elim (place h w') [
          | inl (page', own') ↦ page ∙ sym page'
          | inr (k, l, own', w₁, old') ↦ absurd (omega (arith, same, own, own'))
        ]
        | inr (k, l, own, w₀, old) ↦ elim (place h w') [
          | inl (page', own') ↦ absurd (omega (arith, same, own, own'))
          | inr (k', l', own', w₁, old') ↦
              p.alone g h w₀ w₁ (ap address (sym old) ∙ same ∙ ap address old')
        ]
      ];
    }
      where
        same_address : (k : ℕ) → dirty_address vm k ≡ dirty_address vm' k
        same_address k = ap (λ base. base + k * page_size) (sym (c.same_pages.0))

        place :
            (g : ℕ)
            → IsWritable vm' g
            → ((page_of g ≡ page_of gpa)
                × (address (translation vm' g) ≡ dirty_address vm vm.used_dirty_page_count))
              ⊎ ((k : ℕ) × (k < vm.used_dirty_page_count)
                  × (address (translation vm' g) ≡ dirty_address vm k)
                  × IsWritable vm g
                  × (translation vm' g ≡ translation vm g))
        place g w = elim (Bool-cases (page_of g == page_of gpa)) [
          | inl y ↦
              let page : page_of g ≡ page_of gpa = ground arith in
              inl (page, ap address (same_entry vm' g gpa page) ∙ c.own_page)
          | inr n ↦
              let old = c.others g (ground arith) in
              let w₀ : IsWritable vm g = ap (λ x. permits x true) (sym old) ∙ w in
              let (k, l, own) = p.owned g w₀ in inr (k, l, ap address old ∙ own, w₀, old)
        ]

    pub IsPrivate-copy :
        (vm vm' : Vm V) (mem mem' : Memory) (gpa from pa : ℕ) (done : Bool)
        → translation vm gpa ≡ set_translation 0 pa (rx_flags vm)
        → copy_on_write vm mem gpa from ≡ ok (vm', mem', done)
        → IsSound vm
        → IsPrivate vm
        → IsPrivate vm'
    IsPrivate-copy vm vm' mem mem' gpa from pa done c e s p =
        elim (copy_on_write-Copied law vm mem s.level gpa from pa s.placed s.tree s.tracked c) [
          | inl (full, same) ↦ let this : vm ≡ vm' = cc in subst IsPrivate this p
          | inr (room, after, mem₁, did, copied, _, _, _) ↦
              let this : after ≡ vm' = cc in
              subst IsPrivate this (Copied-IsPrivate vm after mem mem₁ gpa from copied p)
        ]
