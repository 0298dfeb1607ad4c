-- ===== src/NetIo/Limit.antt =====
-- `nl_accept` keeps to a bound on the connections.
use multithreaded_c_server.Common.{
  ℕ, suc, ◌+◌, ◌≤◌, ◌<◌, subst, ◌≡◌, refl, ap, inl, inr, Bool, Bool-cases, false, Option, some,
  List, [], ◌∷◌, arith, length, length-append, Ptr, Malloc, MallocLaw, ℤ, pos, success, failure,
  is_zero, is_some,
}
use multithreaded_c_server.Conn.{inbound_conn}
use multithreaded_c_server.EzQueue.{EzQueue, grown}
use multithreaded_c_server.EzQueue.Contents as QueueOf
use multithreaded_c_server.EzQueue.Contents.{length-contents}
use multithreaded_c_server.EzQueue.Fifo
use multithreaded_c_server.EzQueue.Fifo.{Fifo}
use multithreaded_c_server.EzQueue.Refine.{as_fifo}
use multithreaded_c_server.ConnMgr.{ConnMgr, World, ConnMemory, create_new_conn}
use multithreaded_c_server.ConnMgr.Create.{
  CreateEnds, no_context, no_mutex, unreported, answered, create_new_conn-CreateEnds,
}
use multithreaded_c_server.NetIo.{Errno, Run, done, pending}
use multithreaded_c_server.NetIo.Accept.{
  max_connections, is_minus_one, set_nonblocking, Accepted, queued, accepted, accept_failed,
  is_full, accept_loop, accept,
}

put_size :
    (granted : Bool) (f : Fifo) (item : Ptr)
    → length ((Fifo.put granted f item).1).waiting ≤ suc (length f.waiting)
unfolding Fifo.put
put_size granted f item = ground (arith, length-append f.waiting (item ∷ []))

-- What a call for an inbound connection leaves: at most one more that waits.
abbrev AddsOne : ConnMgr → EzQueue → Option (ℤ × Option ConnMgr × World) → Type 0
AddsOne mgr q out =
    (res : ℤ) × (mgr' : ConnMgr) × (w' : World) × (q' : EzQueue) × (out ≡ some (res, some mgr', w'))
    × (mgr'.num_active_conns ≡ mgr.num_active_conns)
    × (mgr'.p_new_conns ≡ some q')
    × QueueOf.IsValid q'
    × (q'.num_items ≤ suc q.num_items)

module _ (malloc : Malloc Ptr) (memory : ConnMemory) (fd : ℕ) (mgr : ConnMgr) (w : World)
    {q : EzQueue} (queue : mgr.p_new_conns ≡ some q) (valid : QueueOf.IsValid q) where
  unchanged : (res : ℤ) → AddsOne mgr q (some (res, some mgr, w))
  unchanged res = (res, mgr, w, q, refl, refl, queue, valid, omega arith)

  CreateEnds-AddsOne :
      {out : Option (ℤ × Option ConnMgr × World)}
      → CreateEnds malloc memory fd mgr w q out
      → AddsOne mgr q out
  CreateEnds-AddsOne (no_context e) = unchanged failure
  CreateEnds-AddsOne (no_mutex e bad) = unchanged memory.mutex_res
  CreateEnds-AddsOne (unreported e ok missing) = unchanged success
  CreateEnds-AddsOne (answered {p} ctx ok recv send (q', e, valid', same)) =
      let more = put_size (is_some (malloc (grown q.max_items))) (as_fifo q) p in
      (
        _,
        _,
        _,
        q',
        e,
        refl,
        refl,
        valid',
        omega (arith, length-contents q, length-contents q', ap (λ f. length f.waiting) same, more),
      )

  create_new_conn-AddsOne :
      MallocLaw malloc
      → AddsOne mgr q (create_new_conn malloc memory (pos fd) (some mgr) inbound_conn w)
  create_new_conn-AddsOne law =
      CreateEnds-AddsOne (create_new_conn-CreateEnds malloc memory fd mgr w q law queue valid)

-- The connections to come keep to a contract on malloc.
abbrev pub Lawful : List Accepted → Type 0
Lawful [] = Unit {0}
Lawful (accepted clifd get_flags set_flags malloc memory ∷ rs) = MallocLaw malloc × Lawful rs
Lawful (accept_failed e ∷ rs) = Lawful rs

-- A run that returns with `active` connections as before and, together with those that wait, at
-- most one more than the maximum; or one whose answers run out. It does not fault.
pub data Bounded (active : ℕ) : Run (ℤ × ConnMgr × World) → Type 0 where
  bounded :
      {res : ℤ} {mgr : ConnMgr} {w : World} (q : EzQueue)
      → mgr.num_active_conns ≡ active
      → mgr.p_new_conns ≡ some q
      → QueueOf.IsValid q
      → active + q.num_items ≤ max_connections + 1
      → Bounded active (done (res, mgr, w))
  unanswered : Bounded active pending

room_left :
    (mgr : ConnMgr) {q : EzQueue}
    → mgr.p_new_conns ≡ some q
    → mgr.num_active_conns + q.num_items ≤ max_connections + 1
    → is_full mgr ≡ false
    → mgr.num_active_conns + q.num_items < max_connections + 1
room_left mgr queue within e = ground (arith, ap queued queue)

accept_loop-Bounded :
    (rs : List Accepted) (errno : Errno) (mgr : ConnMgr) (w : World) {q : EzQueue}
    → Lawful rs
    → mgr.p_new_conns ≡ some q
    → QueueOf.IsValid q
    → mgr.num_active_conns + q.num_items ≤ max_connections + 1
    → Bounded mgr.num_active_conns (accept_loop rs errno mgr w)
unfolding accept_loop
accept_loop-Bounded [] errno mgr w {q} law queue valid within = elim (Bool-cases (is_full mgr)) [
  | inl e ↦ rw e (bounded q refl queue valid within)
  | inr e ↦ rw e unanswered
]
accept_loop-Bounded (accept_failed e ∷ rs) errno mgr w {q} law queue valid within =
    elim (Bool-cases (is_full mgr)) [
      | inl e ↦ rw e (bounded q refl queue valid within)
      | inr e ↦ rw e (bounded q refl queue valid within)
    ]
accept_loop-Bounded (accepted clifd get_flags set_flags malloc memory ∷ rs) errno mgr w {q}
      (law, laws) queue valid within =
    elim (Bool-cases (is_full mgr)) [
      | inl e ↦ rw e (bounded q refl queue valid within)
      | inr room ↦ elim (Bool-cases (is_minus_one (set_nonblocking get_flags set_flags))) [
        | inl e ↦ rw (room, e) (bounded q refl queue valid within)
        | inr e ↦
            let (res, mgr', w', q', made, same, queue', valid', more) =
              create_new_conn-AddsOne malloc memory clifd mgr w queue valid law in
            let below : mgr.num_active_conns + q.num_items < max_connections + 1 =
              room_left mgr queue within room in
            elim (Bool-cases (is_zero res)) [
              | inl z ↦
                  rw (room, e, made, z)
                    (subst (λ n. Bounded n (accept_loop rs errno mgr' w')) same
                      (accept_loop-Bounded rs errno mgr' w' laws queue' valid' (omega arith)))
              | inr z ↦ rw (room, e, made, z) (bounded q' same queue' valid' (omega arith))
            ]
      ]
    ]

-- `nl_accept` never faults, and when it returns, the connections and those that wait are at most
-- 1025, one more than MAX_CONNECTIONS, if they were before. It holds for a valid queue of those
-- that wait, where every malloc keeps its contract.
pub accept-Bounded :
    (rs : List Accepted) (errno : Errno) (mgr : ConnMgr) (w : World) {q : EzQueue}
    → Lawful rs
    → mgr.p_new_conns ≡ some q
    → QueueOf.IsValid q
    → mgr.num_active_conns + q.num_items ≤ max_connections + 1
    → Bounded mgr.num_active_conns (accept rs errno mgr w)
unfolding accept
accept-Bounded rs errno mgr w law queue valid within =
    accept_loop-Bounded rs errno mgr w law queue valid within
