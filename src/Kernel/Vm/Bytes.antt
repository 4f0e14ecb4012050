-- ===== src/Kernel/Vm/Bytes.antt =====
-- The bytes of a range, as a process sees them and as they stand on a page.
use operating_system_lab_pro.Prelude.{
  ℕ, zero, suc, ◌+◌, ◌/◌, ◌%◌, ◌<◌, ◌≤◌, ◌≡◌, refl, ap, ◌∙◌, true, some, List, [], ◌∷◌, ◌++◌, arith,
  length,
}
use operating_system_lab_pro.Kernel.Page.{page_size, Pte, Ram}
use operating_system_lab_pro.Kernel.Vm.{maxva}
use operating_system_lab_pro.Kernel.Vm.User.{read_bytes}
use operating_system_lab_pro.Kernel.Vm.Own.{lookup, seen}
use operating_system_lab_pro.Kernel.Vm.Place.{lookup_page}

-- The `n` bytes that a process sees from `va` on.
unfoldable pub seen_bytes : (root va n : ℕ) → Ram → List ℕ
seen_bytes root va zero m = []
seen_bytes root va (suc n) m = seen root va m ∷ seen_bytes root (va + 1) n m

pub seen_bytes_append :
    (r va n k : ℕ) (m : Ram)
    → seen_bytes r va (n + k) m ≡ seen_bytes r va n m ++ seen_bytes r (va + n) k m
unfolding seen_bytes
seen_bytes_append r va zero k m =
    let before : 0 + k ≡ k = omega arith in
    let start : va ≡ va + 0 = omega arith in
    ap (λ c. seen_bytes r va c m) before ∙ ap (λ a. seen_bytes r a k m) start
seen_bytes_append r va (suc n) k m =
    let more : suc n + k ≡ suc (n + k) = omega arith in
    let shift : va + 1 + n ≡ va + suc n = omega arith in
    let rest =
      seen_bytes_append r (va + 1) n k m
      ∙ ap (λ a. seen_bytes r (va + 1) n m ++ seen_bytes r a k m) shift in
    ap (λ c. seen_bytes r va c m) more ∙ ap (λ l. seen r va m ∷ l) rest

pub length-seen_bytes : (r va n : ℕ) (m : Ram) → length (seen_bytes r va n m) ≡ n
unfolding seen_bytes
length-seen_bytes r va zero m = refl
length-seen_bytes r va (suc n) m = ap suc (length-seen_bytes r (va + 1) n m)

pub seen_bytes_ap :
    (r va n : ℕ) (m m' : Ram)
    → ((a : ℕ) → seen r a m' ≡ seen r a m)
    → seen_bytes r va n m' ≡ seen_bytes r va n m
unfolding seen_bytes
seen_bytes_ap r va zero m m' same = refl
seen_bytes_ap r va (suc n) m m' same = ground (arith, same va, seen_bytes_ap r (va + 1) n m m' same)

-- The byte at offset `o` of a page that a process has.
pub page_seen :
    (r va0 o : ℕ) (m : Ram) (e : Pte)
    → va0 % page_size ≡ 0
    → va0 < maxva
    → o < page_size
    → lookup r va0 m ≡ some e
    → e.u ≡ true
    → seen r (va0 + o) m ≡ m.bytes e.ppn o
unfolding seen
page_seen r va0 o m e aligned small within at user =
    let below : va0 + o < maxva = omega (arith, aligned, small, within) in
    let number : (va0 + o) / 4096 ≡ va0 / 4096 = omega (arith, aligned, within) in
    let offset : (va0 + o) % 4096 ≡ o = omega (arith, aligned, within) in
    ground (arith, below, offset, lookup_page r va0 (va0 + o) m number, at, user)

pub read_bytes_seen :
    (r va0 o n : ℕ) (m : Ram) (e : Pte)
    → va0 % page_size ≡ 0
    → va0 < maxva
    → o + n ≤ page_size
    → lookup r va0 m ≡ some e
    → e.u ≡ true
    → read_bytes m e.ppn o n ≡ seen_bytes r (va0 + o) n m
unfolding read_bytes seen_bytes
read_bytes_seen r va0 o zero m e aligned small within at user = refl
read_bytes_seen r va0 o (suc n) m e aligned small within at user =
    let shift : va0 + (o + 1) ≡ va0 + o + 1 = omega arith in
    let rest = read_bytes_seen r va0 (o + 1) n m e aligned small (omega (arith, within)) at user in
    ground (arith, shift, rest, page_seen r va0 o m e aligned small (omega (arith, within)) at user)

pub length-read_bytes : (m : Ram) (p o n : ℕ) → length (read_bytes m p o n) ≡ n
unfolding read_bytes
length-read_bytes m p o zero = refl
length-read_bytes m p o (suc n) = ap suc (length-read_bytes m p (o + 1) n)
