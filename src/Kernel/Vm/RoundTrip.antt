-- ===== src/Kernel/Vm/RoundTrip.antt =====
-- `copyin` of what `copyout` wrote.
use operating_system_lab_pro.Prelude.{
  ℕ, suc, ◌+◌, ◌<◌, ◌≤◌, ◌≡◌, refl, sym, ap, ap₂, ◌∙◌, true, Option, some, List, [], ◌∷◌, arith,
  length, get_or, Bool-cases, inl, inr,
}
use operating_system_lab_pro.Kernel.Page.{Ram}
use operating_system_lab_pro.Kernel.Vm.{maxva}
use operating_system_lab_pro.Kernel.Vm.User.{copyin, copyout}
use operating_system_lab_pro.Kernel.Vm.Own.{Owner, seen}
use operating_system_lab_pro.Kernel.Vm.Memory.{IsMemory}
use operating_system_lab_pro.Kernel.Vm.Bytes.{seen_bytes}
use operating_system_lab_pro.Kernel.Vm.Copyin.{copyin-Reads}
use operating_system_lab_pro.Kernel.Vm.Rounds.{copyout-Writes}

seen_bytes_ext :
    (r va : ℕ) (m : Ram) (src : List ℕ)
    → ((i : ℕ) → i < length src → seen r (va + i) m ≡ get_or src i 0)
    → seen_bytes r va (length src) m ≡ src
unfolding seen_bytes
seen_bytes_ext r va m [] same = refl
seen_bytes_ext r va m (x ∷ src) same =
    let here : va + 0 ≡ va = omega arith in
    let first : seen r va m ≡ x = ap (λ a. seen r a m) (sym here) ∙ same 0 (omega arith) in
    let rest = seen_bytes_ext r (va + 1) m src (λ i below.
      let shift : va + suc i ≡ va + 1 + i = omega arith in
      ap (λ a. seen r a m) (sym shift) ∙ same (suc i) (omega (arith, below))) in
    ap (λ b. b ∷ seen_bytes r (va + 1) (length src) m) first ∙ ap (λ l. x ∷ l) rest

-- When all pages are free or in use as `own` says, and `sz` is at most MAXVA: what `copyout` wrote and returned 0 for,
-- `copyin` of the same range reads, and returns 0.
pub copyin-copyout :
    (kernel_end : ℕ) (group : ℕ → ℕ) (root : ℕ → Option ℕ) (own : ℕ → Owner) (m : Ram)
    (h : IsMemory kernel_end group root own m) (s r sz dstva : ℕ) (src : List ℕ)
    (small : sz ≤ maxva) (start : root s ≡ some r) (m1 : Ram)
    → copyout kernel_end r sz dstva src m ≡ some (m1, true)
    → (m2 : Ram) × (copyin kernel_end r sz dstva (length src) m1 ≡ some (m2, src, true))
copyin-copyout kernel_end group root own m h s r sz dstva src small start m1 e =
    let w = copyout-Writes kernel_end group root own m h s r sz dstva src small start in
    let ok_lem : w.ok ≡ true = ground (arith, w.returns, e) in
    let ram_lem : w.m' ≡ m1 = ground (arith, w.returns, e) in
    let all : w.k ≡ length src = w.full ok_lem in
    let rd =
      copyin-Reads kernel_end group root w.own' w.m' w.memory s r sz dstva (length src) small
        start in
    let wrote = w.wrote in
    let same : seen_bytes r dstva (length src) w.m' ≡ src =
      seen_bytes_ext r dstva w.m' src (λ i below. wrote.wrote i (omega (arith, below, all))) in
    let done : rd.ok ≡ true = elim (Bool-cases rd.ok) [
      | inl yes_lem ↦ yes_lem
      | inr failed ↦
          let (pte, low, at, user) =
            wrote.mapped (length rd.bytes) (omega (arith, rd.short failed, all)) in
          absurd (ground (arith, rd.stopped failed pte low at, user))
    ] in
    let bytes : rd.bytes ≡ src =
      rd.read ∙ ap (λ k. seen_bytes r dstva k w.m') (rd.full done) ∙ same in
    (
      rd.m',
      ap (λ x. copyin kernel_end r sz dstva (length src) x) (sym ram_lem)
          ∙ rd.returns
          ∙ ap₂ (λ b o. some (rd.m', b, o)) bytes done,
    )
