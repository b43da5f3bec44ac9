-- ===== src/Vm/Mappings.antt =====
-- hypervisor/src/vm.rs: the entries that a guest page can have, and the accesses that they permit.
use hypervisor_101_in_rust.Prelude.{
  ℕ, ◌/◌, ◌%◌, ◌≡◌, ◌≢◌, sym, ap, subst, ◌∙◌, Bool, true, false, inl, inr, arith, ◌==◌,
  if◌then◌else◌, Bool-cases,
}
use hypervisor_101_in_rust.Memory.{Memory}
use hypervisor_101_in_rust.HardwareVt.{HardwareVt, IsLawful, rx_write_back}
use hypervisor_101_in_rust.HardwareVt.Entry.{Flags, Entry, permission, set_translation}
use hypervisor_101_in_rust.HardwareVt.Entry.Laws.{fields-set_translation}
use hypervisor_101_in_rust.Vm.{Vm, translation}
use hypervisor_101_in_rust.Vm.Translation.{page_of, Built}
use hypervisor_101_in_rust.Vm.Restore.{rx_flags}
use hypervisor_101_in_rust.Vm.CopyOnWrite.{Copied}
use hypervisor_101_in_rust.Vm.Iteration.{same_leaf}

-- The processor reads through an entry with bit 0, and writes through one with bit 1 as well.
abbrev pub permits : Entry → (write : Bool) → Bool
permits e write = if write then e / 2 % 2 == 1 else e % 2 == 1

-- What a guest page can have for an entry: none, a clean one, or a writable one.
pub data Mapping (rx : Flags) (e : Entry) : Type 0 where
  unmapped : e ≡ 0 → Mapping rx e
  clean : (pa : ℕ) → e ≡ set_translation 0 pa rx → Mapping rx e
  writable : permission e ≡ 7 → Mapping rx e

pub permits-writable : (e : Entry) (write : Bool) → permission e ≡ 7 → permits e write ≡ true
permits-writable e write p = ground arith

pub permits-clean :
    (rx : Flags) (pa : ℕ)
    → rx.permission ≡ 5
    → (permits (set_translation 0 pa rx) false ≡ true)
      × (permits (set_translation 0 pa rx) true ≡ false)
permits-clean rx pa p =
    let q = fields-set_translation 0 pa rx (omega arith) in
    let e = set_translation 0 pa rx in
    let low : e % 8 ≡ 5 = omega (arith, q.1) in (ground arith, ground arith)

-- What holds of the translations of a VM throughout an iteration.
abbrev pub IsMapped : {V : Type 0} ⦃hw : HardwareVt V⦄ → Vm V → Type 0
IsMapped vm = (g : ℕ) → Mapping (rx_flags vm) (translation vm g)

module _ {V : Type 0} ⦃hw : HardwareVt V⦄ (law : IsLawful hw) where
  same_translation :
      (vm : Vm V) (g h : ℕ) → page_of g ≡ page_of h → translation vm g ≡ translation vm h
  same_translation vm g h = same_leaf vm.tables vm.nested_pml4 g h

  -- A change of the entry of one page.
  IsMapped-change :
      (vm vm' : Vm V) (gpa : ℕ)
      → ((g : ℕ) → page_of g ≢ page_of gpa → translation vm' g ≡ translation vm g)
      → Mapping (rx_flags vm') (translation vm' gpa)
      → IsMapped vm
      → IsMapped vm'
  IsMapped-change vm vm' gpa others here mapped g = elim (Bool-cases (page_of g == page_of gpa)) [
    | inl y ↦ subst (Mapping (rx_flags vm')) (sym (same_translation vm' g gpa (ground arith))) here
    | inr n ↦
        subst (λ rx. Mapping rx (translation vm' g)) (law.stateless vm.vt vm'.vt rx_write_back)
          (subst (Mapping (rx_flags vm)) (sym (others g (ground arith))) (mapped g))
  ]

  pub IsMapped-vt : (vm : Vm V) (vt : V) → IsMapped vm → IsMapped (record vm { vt = vt })
  IsMapped-vt vm vt mapped g =
      subst (λ rx. Mapping rx (translation vm g)) (law.stateless vm.vt vt rx_write_back) (mapped g)

  pub IsMapped-build :
      (vm vm' : Vm V) {gpa pa : ℕ} → Built vm gpa pa vm' → IsMapped vm → IsMapped vm'
  IsMapped-build vm vm' {gpa} {pa} b =
      IsMapped-change vm vm' gpa b.others
        (clean pa (b.mapped ∙ ap (set_translation 0 pa) (law.stateless vm.vt vm'.vt rx_write_back)))

  pub IsMapped-copy :
      (vm vm' : Vm V) {mem mem' : Memory} {gpa from : ℕ}
      → Copied vm mem gpa from vm' mem'
      → IsMapped vm
      → IsMapped vm'
  IsMapped-copy vm vm' {mem} {mem'} {gpa} c =
      IsMapped-change vm vm' gpa c.others (writable c.own_page_writable)

  -- An entry that does not even permit reading is none.
  pub unreadable :
      (vm : Vm V) (g : ℕ)
      → IsMapped vm
      → permits (translation vm g) false ≡ false
      → translation vm g ≡ 0
  unreadable vm g mapped denied = elim (mapped g) [
    | unmapped z ↦ z
    | clean pa e ↦
        absurd (
          cc
            (ap (λ x. permits x false) e, (permits-clean (rx_flags vm) pa (law.read_only vm.vt)).0))
    | writable p ↦ absurd (cc (permits-writable (translation vm g) false p))
  ]

  -- An entry that permits reading but not writing is clean.
  pub unwritable :
      (vm : Vm V) (g : ℕ)
      → IsMapped vm
      → permits (translation vm g) false ≡ true
      → permits (translation vm g) true ≡ false
      → (pa : ℕ) × (translation vm g ≡ set_translation 0 pa (rx_flags vm))
  unwritable vm g mapped granted denied = elim (mapped g) [
    | unmapped z ↦ absurd (cc)
    | clean pa e ↦ (pa, e)
    | writable p ↦ absurd (cc (permits-writable (translation vm g) true p))
  ]

  pub readable-clean :
      (vm : Vm V) (g pa : ℕ)
      → translation vm g ≡ set_translation 0 pa (rx_flags vm)
      → permits (translation vm g) false ≡ true
  readable-clean vm g pa e =
      ap (λ x. permits x false) e ∙ (permits-clean (rx_flags vm) pa (law.read_only vm.vt)).0
