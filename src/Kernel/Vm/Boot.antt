-- ===== src/Kernel/Vm/Boot.antt =====
-- Memory after `kinit`.
use operating_system_lab_pro.Prelude.{
  ℕ, zero, suc, ◌+◌, ◌-◌, ◌*◌, ◌/◌, ◌<◌, ◌≤◌, ◌≡◌, ◌≢◌, refl, sym, true, Option, none, some, List,
  [], ◌∷◌, arith, All, ◌⊎◌, inl, inr, ℕ_discrete,
}
use mathlib.Core.Path.{subst}
use operating_system_lab_pro.Kernel.Page.{
  page_size, phystop, Ram, fill, kfree, freerange_from, freerange, kinit,
}
use operating_system_lab_pro.Kernel.Vm.Own.{unowned, Distinct}
use operating_system_lab_pro.Kernel.Vm.Memory.{in_ram, IsMemory}

-- The page numbers from `page` on in front of a list, the last first.
abbrev stack : (k page : ℕ) → List ℕ → List ℕ
stack zero page l = l
stack (suc k) page l = stack k (page + 1) (page ∷ l)

abbrev Member : ℕ → List ℕ → Type 0
Member p [] = ⊥
Member p (x ∷ xs) = (p ≡ x) ⊎ Member p xs

All-stack :
    (P : ℕ → Type 0) (k page : ℕ) (l : List ℕ)
    → ((q : ℕ) → page ≤ q → q < page + k → P q)
    → All P l
    → All P (stack k page l)
All-stack P zero page l new old = old
All-stack P (suc k) page l new old =
    All-stack P k (page + 1) (page ∷ l) (λ q a b. new q (omega (arith, a)) (omega (arith, b)))
      (new page (omega arith) (omega arith), old)

All-imp_lem : (page : ℕ) (l : List ℕ) → All (λ q. q < page) l → All (λ q. page ≢ q) l
All-imp_lem page [] a = ground arith
All-imp_lem page (x ∷ l) a = (λ e. omega (arith, e, a.0), All-imp_lem page l a.1)

below_suc : (page : ℕ) (l : List ℕ) → All (λ q. q < page) l → All (λ q. q < page + 1) l
below_suc page [] a = ground arith
below_suc page (x ∷ l) a = (omega (arith, a.0), below_suc page l a.1)

Distinct-stack :
    (k page : ℕ) (l : List ℕ) → All (λ q. q < page) l → Distinct l → Distinct (stack k page l)
Distinct-stack zero page l below d = d
Distinct-stack (suc k) page l below d =
    Distinct-stack k (page + 1) (page ∷ l) (omega arith, below_suc page l below)
      (All-imp_lem page l below, d)

stack_keeps : (k page : ℕ) (l : List ℕ) (q : ℕ) → Member q l → Member q (stack k page l)
stack_keeps zero page l q i = i
stack_keeps (suc k) page l q i = stack_keeps k (page + 1) (page ∷ l) q (inr i)

stack_has : (k page : ℕ) (l : List ℕ) (q : ℕ) → page ≤ q → q < page + k → Member q (stack k page l)
stack_has zero page l q a b = absurd (omega (arith, a, b))
stack_has (suc k) page l q a b = elim (ℕ_discrete q page) [
  | yes e ↦ stack_keeps k (page + 1) (page ∷ l) q (inl e)
  | no ne ↦ stack_has k (page + 1) (page ∷ l) q (omega (arith, a, ne)) (omega (arith, b))
]

module _ (kernel_end : ℕ) where
  freerange_from-stack :
      (k page : ℕ) (m : Ram)
      → ((q : ℕ) → page ≤ q → q < page + k → in_ram kernel_end q ≡ true)
      → (m' : Ram) × (freerange_from kernel_end k page m ≡ some m')
        × (m'.freelist ≡ stack k page m.freelist)
  unfolding freerange_from kfree
  freerange_from-stack zero page m good = (m, refl, refl)
  freerange_from-stack (suc k) page m good =
      let m1 : Ram = record (fill m page 1) { freelist = page ∷ m.freelist } in
      let here = good page (omega arith) (omega arith) in
      let (m', e, l) =
        freerange_from-stack k (page + 1) m1
          (λ q a b. good q (omega (arith, a)) (omega (arith, b))) in
      (m', ground (arith, here, e), l)

  -- It returns, with memory in order and every page of RAM on the free list.
  pub record Boots (group : ℕ → ℕ) (result : Option Ram) : Type 0 where
    pub m' : Ram
    pub returns : result ≡ some m'
    pub memory : IsMemory kernel_end group (λ s. none) (λ p. unowned) m'
    pub all : (p : ℕ) → kernel_end ≤ p * page_size → p * page_size < phystop → Member p m'.freelist

  -- `kinit` never panics. After it, the free list has every page that lies wholly between the end of the
  -- kernel and PHYSTOP, once, and no other page.
  pub kinit-Boots : (group : ℕ → ℕ) (m : Ram) → Boots group (kinit kernel_end m)
  unfolding kinit freerange
  kinit-Boots group m =
      let first = (kernel_end + page_size - 1) / page_size in
      let k = phystop / page_size - first in
      let good : (q : ℕ) → first ≤ q → q < first + k → in_ram kernel_end q ≡ true = λ q a b.
        let low : kernel_end ≤ q * page_size = omega (arith, a) in
        let high : q * page_size < phystop = omega (arith, b) in ground (arith, low, high) in
      let (m', e, l) = freerange_from-stack k first (record m { freelist = [] }) good in
      record {
        m' = m';
        returns = e;
        memory = record {
          owned = record {
            free =
                subst (λ l. All (λ p. unowned ≡ unowned) l) (sym l)
                  (All-stack (λ p. unowned ≡ unowned) k first [] (λ q a b. refl) (ground arith));
            distinct =
                subst Distinct (sym l) (Distinct-stack k first [] (ground arith) (ground arith));
            roots = λ s p f. absurd (ground (arith, f));
            points = λ t i f. absurd (ground (arith, f));
          };
          ram =
              subst (λ l. All (λ p. in_ram kernel_end p ≡ true) l) (sym l)
                (All-stack (λ p. in_ram kernel_end p ≡ true) k first [] good (ground arith));
        };
        all = λ p low high.
            subst (Member p) (sym l)
              (stack_has k first [] p (omega (arith, low)) (omega (arith, low, high)));
      }
