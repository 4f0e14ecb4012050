-- ===== src/Kernel/MsgQueue/Table.antt =====
-- All queues at once, with the initialisation on first use: the two system calls against a table of
-- FIFOs, for every sequence of calls.
use mathlib.Core.Path.{subst}
use operating_system_lab_pro.Prelude.{
  ℕ, ◌≡◌, refl, ap, sym, ◌∙◌, true, false, List, [], ◌∷◌, map, arith, length, get_or, set,
  replicate, All, All-replicate, length-map, if◌then◌else◌, ℤ, pos_part, minus_one, Bool-cases, inl,
  inr,
}
use operating_system_lab_pro.Kernel.MsgQueue.{
  MsgQueue, MsgqState, max_msgs, blank, no_queue, num_queues, boot, reset_queue, msgq_init,
  ensure_init, bad_qid,
}
use operating_system_lab_pro.Kernel.MsgQueue.Inv.{IsRow, IsValid}
use operating_system_lab_pro.Kernel.MsgQueue.Fifo.{Fifo, contents}

pub record IsGood (s : MsgqState) : Type 0 where
  pub four : length s.queues ≡ num_queues
  pub valid : All IsValid s.queues

-- What a client may know of the state: the messages of each queue. Before the first use there are
-- none, whatever the static storage holds.
abbrev pub messages : MsgqState → List Fifo
messages s = if s.initialized then map contents s.queues else replicate num_queues []

pub no_queue-IsValid : IsValid no_queue
no_queue-IsValid = record {
  slots = refl;
  rows = All-replicate IsRow max_msgs blank refl;
  head_in = omega arith;
  tail_at = refl;
  fits = omega arith;
}

pub boot-IsGood : IsGood boot
unfolding boot
boot-IsGood = record {
  four = refl;
  valid = All-replicate IsValid num_queues no_queue no_queue-IsValid;
}

reset_queue-IsValid : (q : MsgQueue) → IsValid q → IsValid (reset_queue q)
unfolding reset_queue
reset_queue-IsValid q v = ground arith

reset-All : (qs : List MsgQueue) → All IsValid qs → All IsValid (map reset_queue qs)
reset-All [] v = tt
reset-All (q ∷ qs) v = (reset_queue-IsValid q v.0, reset-All qs v.1)

map-contents-reset :
    (qs : List MsgQueue) → map contents (map reset_queue qs) ≡ replicate (length qs) []
unfolding reset_queue
map-contents-reset [] = refl
map-contents-reset (q ∷ qs) = ap (λ r. [] ∷ r) (map-contents-reset qs)

pub msgq_init-IsGood : (s : MsgqState) → IsGood s → IsGood (msgq_init s)
unfolding msgq_init
msgq_init-IsGood s g = record {
  four = length-map s.queues reset_queue ∙ g.four;
  valid = reset-All s.queues g.valid;
}

pub messages-msgq_init :
    (s : MsgqState) → IsGood s → messages (msgq_init s) ≡ replicate num_queues []
unfolding msgq_init
messages-msgq_init s g = map-contents-reset s.queues ∙ ap (λ n. replicate n []) g.four

init_on : (s : MsgqState) → (msgq_init s).initialized ≡ true
unfolding msgq_init
init_on s = refl

pub record Ready (s s' : MsgqState) : Type 0 where
  pub good : IsGood s'
  pub same : messages s ≡ messages s'
  pub on : s'.initialized ≡ true

ensure_init_warm : (s : MsgqState) → s.initialized ≡ true → ensure_init s ≡ s
unfolding ensure_init
ensure_init_warm s e = ground arith

ensure_init_cold : (s : MsgqState) → s.initialized ≡ false → ensure_init s ≡ msgq_init s
unfolding ensure_init
ensure_init_cold s e = ground arith

pub ensure_init-Ready : (s : MsgqState) → IsGood s → Ready s (ensure_init s)
unfolding msgq_init
ensure_init-Ready s g = elim (Bool-cases s.initialized) [
  | inl e ↦ subst (Ready s) (sym (ensure_init_warm s e)) (record { good = g; same = refl; on = e })
  | inr e ↦ subst (Ready s) (sym (ensure_init_cold s e)) (record {
    good = msgq_init-IsGood s g;
    same = rw e (sym (messages-msgq_init s g));
    on = init_on s;
  })
]

-- An operation on one FIFO, lifted to the table: `-1` for a queue number out of range, else the
-- queue that `qid` names changes and no other.
unfoldable pub at_queue {ℓ} :
    {Mem : Type ℓ}
    → (Mem → Fifo → ℕ → Mem × Fifo × ℤ)
    → Mem
    → List Fifo
    → ℤ
    → ℕ
    → Mem × List Fifo × ℤ
at_queue act m t qid addr =
    if bad_qid qid
    then (m, t, minus_one)
    else let (m', xs, r) = act m (get_or t (pos_part qid) []) addr in
      (m', set t (pos_part qid) xs, r)
