-- ===== src/Kernel/Vm/Tests.antt =====
-- Examples on a memory of two address spaces with empty page tables and a few free pages.
use operating_system_lab_pro.Prelude.{
  ℕ, ◌≤◌, ◌≡◌, refl, Bool, true, Option, none, some, List, [], ◌∷◌, ◌==◌, if◌then◌else◌, arith,
}
use operating_system_lab_pro.Kernel.Page.{decode, zero_pte, Ram, kinit}
use operating_system_lab_pro.Kernel.Vm.{maxva}
use operating_system_lab_pro.Kernel.Vm.User.{copyin, copyout}
use operating_system_lab_pro.Kernel.Vm.Own.{Owner, unowned, top, seen}
use operating_system_lab_pro.Kernel.Vm.Memory.{IsMemory}
use operating_system_lab_pro.Kernel.Vm.Bytes.{seen_bytes}
use operating_system_lab_pro.Kernel.Vm.Copyin.{Reads, copyin-Reads}
use operating_system_lab_pro.Kernel.Vm.Rounds.{Writes, copyout-Writes}
use operating_system_lab_pro.Kernel.Vm.RoundTrip.{copyin-copyout}
use operating_system_lab_pro.Kernel.Vm.Boot.{Boots, kinit-Boots}

abbrev kernel_end : ℕ
kernel_end = 40960

abbrev ram : Ram
ram = record {
  freelist = 102 ∷ 103 ∷ 104 ∷ 105 ∷ 106 ∷ [];
  ptes = λ p i. zero_pte;
  bytes = λ p o. 0;
}

abbrev root : ℕ → Option ℕ
root s = if s == 0 then some 100 else if s == 1 then some 101 else none

abbrev own : ℕ → Owner
own p = if p == 100 then top 0 else if p == 101 then top 1 else unowned

abbrev group : ℕ → ℕ
group s = s

ram-IsMemory : IsMemory kernel_end group root own ram
ram-IsMemory = record {
  owned = record {
    free = ground arith;
    distinct = ground arith;
    roots = λ s p e. ground (arith, e);
    points = λ t i e. absurd (ground (arith, e));
  };
  ram = ground arith;
}

in_range : 8192 ≤ maxva
in_range = omega arith

abbrev sent : List ℕ
sent = 7 ∷ 8 ∷ 9 ∷ []

copyin-Reads_example :
    Reads kernel_end group root 0 100 8192 in_range refl own ram 4094 3
      (copyin kernel_end 100 8192 4094 3 ram)
copyin-Reads_example =
    copyin-Reads kernel_end group root own ram ram-IsMemory 0 100 8192 4094 3 in_range refl

copyout-Writes_example :
    Writes kernel_end group root 0 100 8192 in_range refl ram 4094 sent
      (copyout kernel_end 100 8192 4094 sent ram)
copyout-Writes_example =
    copyout-Writes kernel_end group root own ram ram-IsMemory 0 100 8192 4094 sent in_range refl

-- A write across the end of a page, read back with a byte before and after.
abbrev there_and_back : Option (Ram × Bool) → List ℕ
there_and_back none = []
there_and_back (some (m, ok)) = if ok then seen_bytes 100 4093 5 m else []

crosses_page : there_and_back (copyout kernel_end 100 8192 4094 sent ram) ≡ 0 ∷ 7 ∷ 8 ∷ 9 ∷ 0 ∷ []
unfolding copyout seen_bytes seen decode
crosses_page = refl

abbrev ram_of : Option (Ram × Bool) → Ram
ram_of none = ram
ram_of (some (m, ok)) = m

sends :
    copyout kernel_end 100 8192 4094 sent ram
    ≡ some (ram_of (copyout kernel_end 100 8192 4094 sent ram), true)
unfolding copyout decode
sends = refl

copyin-copyout_example :
    (m : Ram) × (copyin kernel_end 100 8192 4094 3
        (ram_of (copyout kernel_end 100 8192 4094 sent ram))
      ≡ some (m, sent, true))
copyin-copyout_example =
    copyin-copyout kernel_end group root own ram ram-IsMemory 0 100 8192 4094 sent in_range refl
      (ram_of (copyout kernel_end 100 8192 4094 sent ram)) sends

kinit-Boots_example : Boots 2147618816 group (kinit 2147618816 ram)
kinit-Boots_example = kinit-Boots 2147618816 group ram

-- There is no memory past the size of the process.
too_far : there_and_back (copyout kernel_end 100 8192 8191 sent ram) ≡ []
unfolding copyout decode
too_far = refl
