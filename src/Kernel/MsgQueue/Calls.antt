-- ===== src/Kernel/MsgQueue/Calls.antt =====
-- The two system calls on the whole state, alone and in any sequence.
use operating_system_lab_pro.Prelude.{
  ℕ, ◌≡◌, refl, ap, sym, ◌∙◌, List, [], ◌∷◌, map, get_or, set, All-set, All-get_or, length-set,
  map-set, get_or-map, ℤ, pos_part, minus_one, Bool-cases, inl, inr,
}
use operating_system_lab_pro.Kernel.UserMemory.{UserMemory}
use operating_system_lab_pro.Kernel.MsgQueue.{
  MsgQueue, MsgqState, no_queue, ensure_init, bad_qid, on_queue, send_locked, recv_locked,
  sys_msgq_send, sys_msgq_recv,
}
use operating_system_lab_pro.Kernel.MsgQueue.Inv.{IsValid, send_locked-IsValid, recv_locked-IsValid}
use operating_system_lab_pro.Kernel.MsgQueue.Fifo.{
  Fifo, contents, offer, poll, send_refines, recv_refines,
}
use operating_system_lab_pro.Kernel.MsgQueue.Table.{
  IsGood, messages, no_queue-IsValid, Ready, ensure_init-Ready, at_queue,
}

-- A handler that keeps valid queues valid, and acts on them as `spec` acts on their messages.
record Implements (um : UserMemory) (act : um.Mem → MsgQueue → ℕ → um.Mem × MsgQueue × ℤ)
    (spec : um.Mem → Fifo → ℕ → um.Mem × Fifo × ℤ) : Type 0 where
  keeps : (m : um.Mem) (q : MsgQueue) (addr : ℕ) → IsValid q → IsValid (act m q addr).1
  refines :
      (m : um.Mem) (q : MsgQueue) (addr : ℕ)
      → IsValid q
      → ((act m q addr).0, contents (act m q addr).1, (act m q addr).2) ≡ spec m (contents q) addr

pub record Outcome (um : UserMemory) (result : um.Mem × MsgqState × ℤ)
    (expected : um.Mem × List Fifo × ℤ) : Type 0 where
  pub good : IsGood result.1
  pub agrees : (result.0, messages result.1, result.2) ≡ expected

module _ (um : UserMemory) (act : um.Mem → MsgQueue → ℕ → um.Mem × MsgQueue × ℤ)
    (spec : um.Mem → Fifo → ℕ → um.Mem × Fifo × ℤ) (h : Implements um act spec) (m : um.Mem)
    (s : MsgqState) (qid : ℤ) (addr : ℕ) (g : IsGood s) where
  ready : Ready s (ensure_init s)
  ready = ensure_init-Ready s g

  abbrev table : List MsgQueue
  table = (ensure_init s).queues

  table-eq : messages s ≡ map contents table
  table-eq = ready.same ∙ rw ready.on

  abbrev chosen : MsgQueue
  chosen = get_or table (pos_part qid) no_queue

  abbrev after : um.Mem × MsgQueue × ℤ
  after = act m chosen addr

  chosen-IsValid : IsValid chosen
  chosen-IsValid =
      All-get_or IsValid table (pos_part qid) no_queue ready.good.valid no_queue-IsValid

  abbrev stored : MsgqState
  stored = record (ensure_init s) { queues = set table (pos_part qid) after.1 }

  stored-IsGood : IsGood stored
  stored-IsGood = record {
    four = length-set table (pos_part qid) after.1 ∙ ready.good.four;
    valid =
        All-set IsValid table (pos_part qid) after.1 ready.good.valid
          (h.keeps m chosen addr chosen-IsValid);
  }

  stored-messages : messages stored ≡ set (messages s) (pos_part qid) (contents after.1)
  stored-messages = rw (ready.on, table-eq) (map-set contents table (pos_part qid) after.1)

  chosen-messages : contents chosen ≡ get_or (messages s) (pos_part qid) []
  chosen-messages = rw table-eq (sym (get_or-map contents table (pos_part qid) no_queue))

  acted :
      let (m', xs, r) = spec m (get_or (messages s) (pos_part qid) []) addr in
      ◌≡◌ {A = um.Mem × List Fifo × ℤ}
        (after.0, messages stored, after.2)
        (m', set (messages s) (pos_part qid) xs, r)
  acted =
      ap (λ (t : List Fifo). (after.0, t, after.2)) stored-messages
      ∙ ap (λ (r : um.Mem × Fifo × ℤ). (r.0, set (messages s) (pos_part qid) r.1, r.2))
          (rw (← chosen-messages) (h.refines m chosen addr chosen-IsValid))

  on_queue-Outcome :
      Outcome um (on_queue um act m s qid addr) (at_queue spec m (messages s) qid addr)
  unfolding at_queue
  on_queue-Outcome = elim (Bool-cases (bad_qid qid)) [
    | inl e ↦ rw e (record {
      good = ready.good;
      agrees = ap (λ (t : List Fifo). (m, t, minus_one)) (sym ready.same);
    })
    | inr e ↦ rw e (record { good = stored-IsGood; agrees = acted })
  ]

module _ (um : UserMemory) where
  send-Implements : Implements um (send_locked um) (offer um)
  send-Implements = record { keeps = send_locked-IsValid um; refines = send_refines um }

  recv-Implements : Implements um (recv_locked um) (poll um)
  recv-Implements = record { keeps = recv_locked-IsValid um; refines = recv_refines um }

  -- A call by some process, or a step of user code, which changes user memory and no queue.
  pub data Call : Type 0 where
    send : (qid : ℤ) (addr : ℕ) → Call
    recv : (qid : ℤ) (addr : ℕ) → Call
    user : (um.Mem → um.Mem) → Call

  unfoldable pub run : List Call → um.Mem → MsgqState → um.Mem × MsgqState × List ℤ
  run [] m s = (m, s, [])
  run (send qid addr ∷ cs) m s =
      let (m', s', r) = sys_msgq_send um m s qid addr in
      let (m'', s'', rs) = run cs m' s' in (m'', s'', r ∷ rs)
  run (recv qid addr ∷ cs) m s =
      let (m', s', r) = sys_msgq_recv um m s qid addr in
      let (m'', s'', rs) = run cs m' s' in (m'', s'', r ∷ rs)
  run (user f ∷ cs) m s = run cs (f m) s

  unfoldable pub run_spec : List Call → um.Mem → List Fifo → um.Mem × List Fifo × List ℤ
  run_spec [] m t = (m, t, [])
  run_spec (send qid addr ∷ cs) m t =
      let (m', t', r) = at_queue (offer um) m t qid addr in
      let (m'', t'', rs) = run_spec cs m' t' in (m'', t'', r ∷ rs)
  run_spec (recv qid addr ∷ cs) m t =
      let (m', t', r) = at_queue (poll um) m t qid addr in
      let (m'', t'', rs) = run_spec cs m' t' in (m'', t'', r ∷ rs)
  run_spec (user f ∷ cs) m t = run_spec cs (f m) t

  pub send-Outcome :
      (m : um.Mem) (s : MsgqState) (qid : ℤ) (addr : ℕ)
      → IsGood s
      → Outcome um (sys_msgq_send um m s qid addr) (at_queue (offer um) m (messages s) qid addr)
  unfolding sys_msgq_send
  send-Outcome m s qid addr g =
      on_queue-Outcome um (send_locked um) (offer um) send-Implements m s qid addr g

  pub recv-Outcome :
      (m : um.Mem) (s : MsgqState) (qid : ℤ) (addr : ℕ)
      → IsGood s
      → Outcome um (sys_msgq_recv um m s qid addr) (at_queue (poll um) m (messages s) qid addr)
  unfolding sys_msgq_recv
  recv-Outcome m s qid addr g =
      on_queue-Outcome um (recv_locked um) (poll um) recv-Implements m s qid addr g

  abbrev seen : um.Mem × MsgqState × List ℤ → um.Mem × List Fifo × List ℤ
  seen r = (r.0, messages r.1, r.2)

  cons_reply : ℤ → um.Mem × List Fifo × List ℤ → um.Mem × List Fifo × List ℤ
  cons_reply r x = (x.0, x.1, r ∷ x.2)

  -- For every sequence of calls and user steps, from any well-formed state: user memory, the return
  -- values and the messages left are those of a table of bounded FIFOs.
  pub run_refines :
      (cs : List Call) (m : um.Mem) (s : MsgqState)
      → IsGood s
      → ((run cs m s).0, messages (run cs m s).1, (run cs m s).2) ≡ run_spec cs m (messages s)
  unfolding run run_spec cons_reply
  run_refines [] m s g = refl
  run_refines (send qid addr ∷ cs) m s g =
      let o = send-Outcome m s qid addr g in
      let r = sys_msgq_send um m s qid addr in
      rw (← o.agrees) (ap (cons_reply r.2) (run_refines cs r.0 r.1 o.good))
  run_refines (recv qid addr ∷ cs) m s g =
      let o = recv-Outcome m s qid addr g in
      let r = sys_msgq_recv um m s qid addr in
      rw (← o.agrees) (ap (cons_reply r.2) (run_refines cs r.0 r.1 o.good))
  run_refines (user f ∷ cs) m s g = run_refines cs (f m) s g
