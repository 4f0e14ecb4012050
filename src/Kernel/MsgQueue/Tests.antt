-- ===== src/Kernel/MsgQueue/Tests.antt =====
-- The message queues at concrete inputs.
use operating_system_lab_pro.Prelude.{ℕ, ◌≡◌, refl, List, [], ◌∷◌, ◌++◌, pos, negsuc, replicate}
use operating_system_lab_pro.Kernel.FlatMemory.{flat}
use operating_system_lab_pro.Kernel.MsgQueue.{boot, sys_msgq_send, sys_msgq_recv}
use operating_system_lab_pro.Kernel.MsgQueue.Table.{messages, boot-IsGood}
use operating_system_lab_pro.Kernel.MsgQueue.Calls.{Call, send, recv, run, run_spec, run_refines}

-- 64 bytes of 7 at address 0, then 64 bytes of 9.
abbrev memory : List ℕ
memory = replicate 64 7 ++ replicate 64 9

-- Two messages through queue 1, a receive from an empty queue, and a queue that does not exist.
abbrev script : List (Call flat)
script =
    send (pos 1) 0
    ∷ send (pos 1) 64
    ∷ recv (pos 2) 0
    ∷ recv (pos 1) 64
    ∷ send (pos 4) 0
    ∷ send (negsuc 0) 0
    ∷ []

replies :
    (run flat script memory boot).2 ≡ pos 0 ∷ pos 0 ∷ negsuc 0 ∷ pos 0 ∷ negsuc 0 ∷ negsuc 0 ∷ []
unfolding run boot sys_msgq_send sys_msgq_recv
replies = refl

delivered : (run flat script memory boot).0 ≡ replicate 128 7
unfolding run boot sys_msgq_send sys_msgq_recv
delivered = refl

run_refines_example :
    (
      (run flat script memory boot).0,
      messages (run flat script memory boot).1,
      (run flat script memory boot).2,
    )
    ≡ run_spec flat script memory (messages boot)
run_refines_example = run_refines flat script memory boot boot-IsGood

sent : (sys_msgq_send flat memory boot (pos 1) 0).2 ≡ pos 0
unfolding sys_msgq_send boot
sent = refl
