-- ===== src/Kernel/MsgQueue/Fifo.antt =====
-- A valid queue behaves as a FIFO of at most `MAX_MSGS` whole messages, oldest first.
use operating_system_lab_pro.Prelude.{
  ℕ, zero, suc, ◌+◌, ◌-◌, ◌%◌, ◌<◌, ◌≡◌, refl, ap, ap₂, ◌≢◌, List, [], ◌∷◌, ◌++◌, append-nil, arith,
  length, get_or, set, drop_all, All-get_or, get_or-set_self, get_or-set_ne, if◌then◌else◌, ◌==◌, ℤ,
  pos, minus_one,
}
use operating_system_lab_pro.Kernel.UserMemory.{UserMemory, overwrite}
use operating_system_lab_pro.Kernel.MsgQueue.{
  MsgQueue, max_msgs, max_msg_size, blank, send_locked, recv_locked,
}
use operating_system_lab_pro.Kernel.MsgQueue.Inv.{IsRow, IsValid}

abbrev pub Fifo : Type 0
Fifo = List (List ℕ)

module _ (um : UserMemory) where
  open um use {Mem, copyin, copyout}

  -- What `sys_msgq_send` promises: a full queue refuses, a faulting address changes nothing, and
  -- otherwise the message goes to the back.
  unfoldable pub offer : Mem → Fifo → ℕ → Mem × Fifo × ℤ
  offer m xs addr =
      if length xs == max_msgs
      then (m, xs, minus_one)
      else let (m', bytes, ok) = copyin m max_msg_size addr in
        if ok then (m', xs ++ (bytes ∷ []), pos 0) else (m', xs, minus_one)

  -- What `sys_msgq_recv` promises: an empty queue refuses, and the message at the front leaves only
  -- once it has been copied out.
  unfoldable pub poll : Mem → Fifo → ℕ → Mem × Fifo × ℤ
  poll m [] addr = (m, [], minus_one)
  poll m (x ∷ xs) addr =
      let (m', ok) = copyout m addr x in if ok then (m', xs, pos 0) else (m', x ∷ xs, minus_one)

-- The messages in the `n` slots from number `h` on; slot numbers count on past the end and are taken
-- modulo `MAX_MSGS`.
abbrev pub window : List (List ℕ) → ℕ → ℕ → Fifo
window msgs h zero = []
window msgs h (suc n) = get_or msgs (h % max_msgs) blank ∷ window msgs (suc h) n

abbrev pub contents : MsgQueue → Fifo
contents q = window q.msgs q.head q.count

length-window : (msgs : List (List ℕ)) (h n : ℕ) → length (window msgs h n) ≡ n
length-window msgs h zero = refl
length-window msgs h (suc n) = ap suc (length-window msgs (suc h) n)

window_mod :
    (msgs : List (List ℕ)) (h k n : ℕ)
    → h % max_msgs ≡ k % max_msgs
    → window msgs h n ≡ window msgs k n
window_mod msgs h k zero e = refl
window_mod msgs h k (suc n) e =
    ap₂ ◌∷◌ (ap (λ i. get_or msgs i blank) e) (window_mod msgs (suc h) (suc k) n (omega arith))

window_snoc :
    (msgs : List (List ℕ)) (h n : ℕ)
    → window msgs h (suc n) ≡ window msgs h n ++ (get_or msgs ((h + n) % max_msgs) blank ∷ [])
window_snoc msgs h zero = ap (λ i. get_or msgs (i % max_msgs) blank ∷ []) (omega arith)
window_snoc msgs h (suc n) =
    ap (λ r. get_or msgs (h % max_msgs) blank ∷ r) (rw (window_snoc msgs (suc h) n) shift)
  where
    shift :
        window msgs (suc h) n ++ (get_or msgs ((suc h + n) % max_msgs) blank ∷ [])
        ≡ window msgs (suc h) n ++ (get_or msgs ((h + suc n) % max_msgs) blank ∷ [])
    shift = ap (λ i. window msgs (suc h) n ++ (get_or msgs (i % max_msgs) blank ∷ [])) (omega arith)

-- A write to a slot outside the window does not show in it.
window-set :
    (msgs : List (List ℕ)) (x : List ℕ) (h n t d : ℕ)
    → n + d < max_msgs
    → t ≡ (h + n + d) % max_msgs
    → window (set msgs t x) h n ≡ window msgs h n
window-set msgs x h zero t d b e = refl
window-set msgs x h (suc n) t d b e =
    ap₂ ◌∷◌ (get_or-set_ne msgs t (h % max_msgs) x blank (omega arith))
      (window-set msgs x (suc h) n t d (omega arith) (omega arith))

window_push :
    (msgs : List (List ℕ)) (x : List ℕ) (h n t : ℕ)
    → length msgs ≡ max_msgs
    → n < max_msgs
    → t ≡ (h + n) % max_msgs
    → window (set msgs t x) h (suc n) ≡ window msgs h n ++ (x ∷ [])
window_push msgs x h n t l b e =
    rw (window_snoc (set msgs t x) h n)
      (ap₂ (λ (w : Fifo) (y : List ℕ). w ++ (y ∷ [])) outside here)
  where
    outside : window (set msgs t x) h n ≡ window msgs h n
    outside = window-set msgs x h n t 0 (omega arith) (omega arith)

    here : get_or (set msgs t x) ((h + n) % max_msgs) blank ≡ x
    here = rw (← e) (get_or-set_self msgs t x blank (omega arith))

overwrite_full :
    (row bytes : List ℕ) → IsRow row → length bytes ≡ max_msg_size → overwrite row bytes ≡ bytes
overwrite_full row bytes h e = rw (drop_all (length bytes) row (omega arith)) (append-nil bytes)

-- `window` matches on `suc`, the code tests `count == 0`.
window_front :
    (msgs : List (List ℕ)) (h n : ℕ)
    → n ≢ 0
    → h < max_msgs
    → window msgs h n ≡ get_or msgs h blank ∷ window msgs ((h + 1) % max_msgs) (n - 1)
window_front msgs h zero ne b = absurd (ne refl)
window_front msgs h (suc n) ne b = ap₂ ◌∷◌ (ap (λ i. get_or msgs i blank) (omega arith)) (
    rw (window_mod msgs (suc h) ((h + 1) % max_msgs) n (omega arith))
      (ap (window msgs ((h + 1) % max_msgs)) (omega arith)))

module _ (um : UserMemory) (m : um.Mem) (q : MsgQueue) (addr : ℕ) (v : IsValid q) where
  open um use {copyin, copyin_full}

  -- `sys_msgq_send` on a valid queue is `offer` on its messages: same memory, same messages, same
  -- return value.
  pub send_refines :
      let (m', q', r) = send_locked um m q addr in
      (m', contents q', r) ≡ offer um m (contents q) addr
  unfolding send_locked offer
  send_refines = ground (
    arith,
    length-window q.msgs q.head q.count,
    copyin_full m max_msg_size addr,
    overwrite_full (get_or q.msgs q.tail blank) (copyin m max_msg_size addr).1,
    All-get_or IsRow q.msgs q.tail blank v.rows refl,
    window_push q.msgs (overwrite (get_or q.msgs q.tail blank) (copyin m max_msg_size addr).1)
        q.head q.count q.tail,
    window-set q.msgs (overwrite (get_or q.msgs q.tail blank) (copyin m max_msg_size addr).1) q.head
        q.count q.tail 0,
  )

  -- So is `sys_msgq_recv` `poll`.
  pub recv_refines :
      let (m', q', r) = recv_locked um m q addr in
      (m', contents q', r) ≡ poll um m (contents q) addr
  unfolding recv_locked poll
  recv_refines = ground (arith, window_front q.msgs q.head q.count)
