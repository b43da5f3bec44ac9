-- ===== src/Vm/Tests.antt =====
-- Runs of the operations of a VM, and the theorems about them on a VM with a mapped page.
use hypervisor_101_in_rust.Prelude.{
  ℕ, ◌+◌, ◌*◌, ◌<◌, ◌≤◌, ◌≡◌, ◌≢◌, ◌⊎◌, refl, arith, Bool, true, false, Exec, ok, panic, ◌==◌,
  if◌then◌else◌,
}
use hypervisor_101_in_rust.Memory.{Memory}
use hypervisor_101_in_rust.HardwareVt.{HardwareVt, IsLawful}
use hypervisor_101_in_rust.HardwareVt.Svm
use hypervisor_101_in_rust.HardwareVt.Entry.{set_translation, next_table}
use hypervisor_101_in_rust.Vm.{
  Vm, new, link, walk_table, walk, build_translation, redirect, copy_on_write, revert_dirty_memory,
  translation,
}
use hypervisor_101_in_rust.Vm.Paging.{leaf}
use hypervisor_101_in_rust.Vm.Walk.{IsPlaced, VmTree}
use hypervisor_101_in_rust.Vm.Translation.{Built, build_translation-Built}
use hypervisor_101_in_rust.Vm.Restore.{rx_flags, IsTracked}
use hypervisor_101_in_rust.Vm.CopyOnWrite.{Copied, copy_on_write-Copied}
use hypervisor_101_in_rust.Vm.Iteration.{
  IsSound, unchanged, then_change, build, copy, Keeps, Changes-Keeps, revert_dirty_memory-restores,
}

-- A vendor with the flags of SVM, and without state.
abbrev pub svm : HardwareVt Unit
svm = record {
  nps_entry_flags = λ v type. Svm.nps_entry_flags type;
  invalidate_caches = λ v. ok v;
  revert_registers = λ v s mem. ok v;
  adjust_registers = λ v a n. ok v;
}

pub svm_vt-IsLawful : IsLawful svm
unfolding Svm.nps_entry_flags
svm_vt-IsLawful = record {
  stateless = λ v w type. refl;
  writable = λ v. refl;
  read_only = λ v. refl;
  type_fits = λ v type. grind arith;
}

abbrev pub empty_vm : Vm Unit
empty_vm = new tt 0x1000 0x200_0000 0x400_0000

abbrev pub memory : Memory
memory address offset = address + offset

abbrev pub empty_level : ℕ → ℕ
empty_level t = if t == 0x1000 then 0 else 4

pub empty_vm-IsPlaced : IsPlaced empty_vm
unfolding new
empty_vm-IsPlaced = record {
  nps_aligned = refl;
  nps_nonnull = omega arith;
  nps_fits = omega arith;
  dirty_aligned = refl;
  dirty_nonnull = omega arith;
  dirty_fits = omega arith;
}

above : (k : ℕ) → 4 ≤ empty_level (0x200_0000 + k * 0x1000)
above k = ground arith

pub empty_vm-VmTree : VmTree empty_vm empty_level
unfolding new
empty_vm-VmTree = record {
  null = omega arith;
  at_root = refl;
  next = λ t i l ne. absurd (ne refl);
  once = λ t u i j l m ne. absurd (ne refl);
  unused = λ k l m. above k;
  blank = λ k i l m. refl;
}

pub empty_vm-IsSound : IsSound ⦃hw = svm⦄ empty_vm
unfolding new
empty_vm-IsSound = record {
  level = empty_level;
  placed = empty_vm-IsPlaced;
  tree = empty_vm-VmTree;
  tracked = record {
    in_range = omega arith;
    in_pt = λ k l. absurd (omega arith);
    writable = λ k l. absurd (omega arith);
  };
}

abbrev vm_of : Exec (Vm Unit) → Vm Unit
vm_of (ok vm) = vm
vm_of panic = empty_vm

-- The VM after page 5 is mapped to page 7.
abbrev pub mapped_vm : Vm Unit
mapped_vm = vm_of (build_translation ⦃hw = svm⦄ empty_vm 0x5123 0x7000)

pub mapped : build_translation ⦃hw = svm⦄ empty_vm 0x5123 0x7000 ≡ ok mapped_vm
unfolding build_translation walk walk_table link new set_translation leaf next_table
    Svm.nps_entry_flags
mapped = refl

pub clean : translation mapped_vm 0x5000 ≡ set_translation 0 0x7000 (rx_flags ⦃hw = svm⦄ mapped_vm)
unfolding build_translation walk walk_table link new set_translation leaf next_table
    Svm.nps_entry_flags
clean = refl

mapped-Keeps : Keeps ⦃hw = svm⦄ empty_vm mapped_vm
unfolding new
mapped-Keeps =
    Changes-Keeps ⦃hw = svm⦄ {mem = memory} svm_vt-IsLawful empty_vm-IsSound refl
      (then_change unchanged (build 0x5123 0x7000 mapped))

pub mapped_vm-IsSound : IsSound ⦃hw = svm⦄ mapped_vm
mapped_vm-IsSound = mapped-Keeps.sound

none_dirty : mapped_vm.used_dirty_page_count ≡ 0
unfolding build_translation walk walk_table link new set_translation next_table Svm.nps_entry_flags
none_dirty = refl

-- The VM after the guest has written to page 5.
abbrev copied : Vm Unit × Memory
copied = copy_of (copy_on_write ⦃hw = svm⦄ mapped_vm memory 0x5000 0x7000)
  where
    copy_of : Exec (Vm Unit × Memory × Bool) → Vm Unit × Memory
    copy_of (ok (vm, mem, done)) = (vm, mem)
    copy_of panic = (mapped_vm, memory)

copied_page :
    copy_on_write ⦃hw = svm⦄ mapped_vm memory 0x5000 0x7000 ≡ ok (copied.0, copied.1, true)
unfolding copy_on_write redirect build_translation walk walk_table link new set_translation
    next_table Svm.nps_entry_flags
copied_page = refl

build_translation-Built_example :
    ((translation empty_vm 0x5123 ≡ 0)
      × (vm' : Vm Unit) × (build_translation ⦃hw = svm⦄ empty_vm 0x5123 0x7000 ≡ ok vm')
      × Built ⦃hw = svm⦄ empty_vm 0x5123 0x7000 vm')
    ⊎ ((build_translation ⦃hw = svm⦄ empty_vm 0x5123 0x7000 ≡ panic)
        × ((translation empty_vm 0x5123 ≢ 0) ⊎ (empty_vm.nps_count < empty_vm.used_nps_count + 3)))
build_translation-Built_example =
    build_translation-Built ⦃hw = svm⦄ empty_vm empty_level 0x5123 0x7000 empty_vm-IsPlaced
      empty_vm-VmTree

copy_on_write-Copied_example :
    ((mapped_vm.used_dirty_page_count ≡ mapped_vm.dirty_page_count)
      × (copy_on_write ⦃hw = svm⦄ mapped_vm memory 0x5000 0x7000 ≡ ok (mapped_vm, memory, false)))
    ⊎ ((mapped_vm.used_dirty_page_count < mapped_vm.dirty_page_count)
        × (vm' : Vm Unit) × (mem' : Memory) × (copy_on_write ⦃hw = svm⦄ mapped_vm memory 0x5000
              0x7000
            ≡ ok (vm', mem', true))
        × Copied ⦃hw = svm⦄ mapped_vm memory 0x5000 0x7000 vm' mem'
        × IsPlaced vm'
        × VmTree vm' mapped_vm-IsSound.level
        × IsTracked ⦃hw = svm⦄ vm' mapped_vm-IsSound.level)
copy_on_write-Copied_example =
    copy_on_write-Copied ⦃hw = svm⦄ svm_vt-IsLawful mapped_vm memory mapped_vm-IsSound.level 0x5000
      0x7000 0x7000 mapped_vm-IsSound.placed mapped_vm-IsSound.tree mapped_vm-IsSound.tracked clean

revert_dirty_memory-restores_example :
    (vm' : Vm Unit) × (revert_dirty_memory ⦃hw = svm⦄ copied.0 ≡ ok vm')
    × (vm'.used_dirty_page_count ≡ 0)
    × IsSound ⦃hw = svm⦄ vm'
    × ((g : ℕ) → translation mapped_vm g ≢ 0 → translation vm' g ≡ translation mapped_vm g)
revert_dirty_memory-restores_example =
    revert_dirty_memory-restores ⦃hw = svm⦄ {start = mapped_vm} {mem = memory} {mem' = copied.1}
      svm_vt-IsLawful mapped_vm-IsSound none_dirty
      (then_change unchanged (copy 0x5000 0x7000 0x7000 true clean copied_page)) refl
