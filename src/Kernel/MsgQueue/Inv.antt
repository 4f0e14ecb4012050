-- ===== src/Kernel/MsgQueue/Inv.antt =====
-- The representation invariant of `struct msg_queue`.
use operating_system_lab_pro.Prelude.{
  ℕ, ◌+◌, ◌%◌, ◌≤◌, ◌<◌, ◌≡◌, refl, List, arith, length, get_or, All, drop, All-set, All-get_or,
  length-set, length-append, length-drop,
}
use operating_system_lab_pro.Kernel.UserMemory.{UserMemory, overwrite}
use operating_system_lab_pro.Kernel.MsgQueue.{
  MsgQueue, max_msgs, max_msg_size, blank, send_locked, recv_locked,
}

abbrev pub IsRow : List ℕ → Type 0
IsRow row = length row ≡ max_msg_size

pub record IsValid (q : MsgQueue) : Type 0 where
  pub slots : length q.msgs ≡ max_msgs
  pub rows : All IsRow q.msgs
  pub head_in : q.head < max_msgs
  pub tail_at : q.tail ≡ (q.head + q.count) % max_msgs
  pub fits : q.count ≤ max_msgs

pub overwrite-IsRow :
    (row bytes : List ℕ) → IsRow row → length bytes ≤ max_msg_size → IsRow (overwrite row bytes)
overwrite-IsRow row bytes h b =
    omega (arith, length-append bytes (drop (length bytes) row), length-drop (length bytes) row)

module _ (um : UserMemory) (m : um.Mem) (q : MsgQueue) (addr : ℕ) (v : IsValid q) where
  open um use {copyin, copyin-le}

  abbrev written : List ℕ
  written = overwrite (get_or q.msgs q.tail blank) (copyin m max_msg_size addr).1

  written-IsRow : IsRow written
  written-IsRow =
      overwrite-IsRow (get_or q.msgs q.tail blank) (copyin m max_msg_size addr).1
        (All-get_or IsRow q.msgs q.tail blank v.rows refl) (copyin-le m max_msg_size addr)

  pub send_locked-IsValid : IsValid (send_locked um m q addr).1
  unfolding send_locked
  send_locked-IsValid = ground (
    arith,
    length-set q.msgs q.tail written,
    All-set IsRow q.msgs q.tail written v.rows written-IsRow,
  )

  pub recv_locked-IsValid : IsValid (recv_locked um m q addr).1
  unfolding recv_locked
  recv_locked-IsValid = ground arith
