-- ===== src/Kernel/MsgQueue.antt =====
-- kernel/sysproc.c, the message queues: `struct msg_queue`, `msgq_init`, `sys_msgq_send` and
-- `sys_msgq_recv`. Each handler holds the lock of its queue from the first test of `count` to the
-- return, so it is one function on the kernel's state.
pub mod Inv
pub mod Fifo
pub mod Table
pub mod Calls
mod Tests
use operating_system_lab_pro.Prelude.{
  ℕ, ◌+◌, ◌-◌, ◌%◌, ◌≡◌, ◌||◌, Bool, true, false, not, List, map, arith, length, get_or, set,
  replicate, if◌then◌else◌, ◌==◌, ℤ, pos, negsuc, minus_one, ltb_ℤ, leb_ℤ, pos_part,
}
use operating_system_lab_pro.Kernel.UserMemory.{UserMemory, overwrite}

abbrev pub max_msg_size : ℕ
max_msg_size = 64

abbrev pub max_msgs : ℕ
max_msgs = 8

abbrev pub num_queues : ℕ
num_queues = 4

-- A row of zero bytes: what a slot holds at boot.
abbrev pub blank : List ℕ
blank = replicate max_msg_size 0

-- `msgs` is `char msgs[MAX_MSGS][MAX_MSG_SIZE]`, a row of bytes for each slot.
pub record MsgQueue : Type 0 where
  pub msgs : List (List ℕ)
  pub head : ℕ
  pub tail : ℕ
  pub count : ℕ

-- `msgqueues` and `msgq_initialized`.
pub record MsgqState : Type 0 where
  pub queues : List MsgQueue
  pub initialized : Bool

-- `msgqueues` before anything has run: static storage is zero.
pub boot : MsgqState
boot = record {
  queues =
      replicate num_queues
        (record { msgs = replicate max_msgs blank; head = 0; tail = 0; count = 0 });
  initialized = false;
}

-- The body of the loop of `msgq_init`: the messages stay as they are.
reset_queue : MsgQueue → MsgQueue
reset_queue q = record q { head = 0; tail = 0; count = 0 }

pub msgq_init : MsgqState → MsgqState
unfolding reset_queue
msgq_init s = record { queues = map reset_queue s.queues; initialized = true }

-- `if(!msgq_initialized) msgq_init();`
pub ensure_init : MsgqState → MsgqState
unfolding msgq_init
ensure_init s = if s.initialized then s else msgq_init s

-- `qid < 0 || qid >= NUM_QUEUES`
pub bad_qid : ℤ → Bool
bad_qid qid = ltb_ℤ qid (pos 0) || leb_ℤ (pos num_queues) qid

abbrev pub no_queue : MsgQueue
no_queue = record { msgs = replicate max_msgs blank; head = 0; tail = 0; count = 0 }

module _ (um : UserMemory) where
  open um use {Mem, copyin, copyout}

  -- From `acquire(&q->lock)` to the return of `sys_msgq_send`.
  pub send_locked : Mem → MsgQueue → ℕ → Mem × MsgQueue × ℤ
  send_locked m q addr =
      if q.count == max_msgs
      then (m, q, minus_one)
      else let (m', bytes, ok) = copyin m max_msg_size addr in
        let q' = record q {
          msgs = set q.msgs q.tail (overwrite (get_or q.msgs q.tail blank) bytes);
        } in
        if ok
        then (m', record q' { tail = (q'.tail + 1) % max_msgs; count = q'.count + 1 }, pos 0)
        else (m', q', minus_one)

  -- From `acquire(&q->lock)` to the return of `sys_msgq_recv`.
  pub recv_locked : Mem → MsgQueue → ℕ → Mem × MsgQueue × ℤ
  recv_locked m q addr =
      if q.count == 0
      then (m, q, minus_one)
      else let (m', ok) = copyout m addr (get_or q.msgs q.head blank) in
        if ok
        then (m', record q { head = (q.head + 1) % max_msgs; count = q.count - 1 }, pos 0)
        else (m', q, minus_one)

  -- The parts that the two handlers share: the lazy initialisation, the test of `qid`, and the
  -- queue that it names.
  abbrev on_queue :
      (Mem → MsgQueue → ℕ → Mem × MsgQueue × ℤ) → Mem → MsgqState → ℤ → ℕ → Mem × MsgqState × ℤ
  on_queue act m s qid addr =
      let s' = ensure_init s in
      if bad_qid qid
      then (m, s', minus_one)
      else let i = pos_part qid in
        let (m', q, r) = act m (get_or s'.queues i no_queue) addr in
        (m', record s' { queues = set s'.queues i q }, r)

  pub sys_msgq_send : Mem → MsgqState → ℤ → ℕ → Mem × MsgqState × ℤ
  unfolding ensure_init bad_qid send_locked
  sys_msgq_send = on_queue send_locked

  pub sys_msgq_recv : Mem → MsgqState → ℤ → ℕ → Mem × MsgqState × ℤ
  unfolding ensure_init bad_qid recv_locked
  sys_msgq_recv = on_queue recv_locked
