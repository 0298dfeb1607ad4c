-- ===== src/ConnMgr/Tests.antt =====
-- The connection manager at concrete inputs.
use mathlib.Core.Option.{some-injective}
use multithreaded_c_server.Common.{
  ℕ, ◌-◌, ◌≡◌, refl, sym, ap, ◌∙◌, inr, none, some, [], ◌∷◌, ◌++◌, arith, length, length-append,
  length-take, length-replicate, replicate, take, Malloc, MallocLaw, Ptr, null, Realloc, ReallocLaw,
  pos, success, is_some, ◌==◌, if◌then◌else◌, inl, CallocLaw,
}
use multithreaded_c_server.Compact.{kept}
use multithreaded_c_server.Conn.{Conn, inbound_conn}
use multithreaded_c_server.EzArray.{EzArray, differs}
use multithreaded_c_server.EzArray.Contents as ArrayOf
use multithreaded_c_server.EzQueue.{EzQueue, grown}
use multithreaded_c_server.EzQueue.Contents as QueueOf
use multithreaded_c_server.EzQueue.Fifo
use multithreaded_c_server.EzQueue.Refine.{as_fifo}
use multithreaded_c_server.ConnMgr.{
  PollFd, ConnMgr, World, ConnMemory, create_new_conn, InitMemory, init, destroy_all_conns,
}
use multithreaded_c_server.ConnMgr.Update.{
  remove_closed_connections, add_new_connections, update_connections,
}
use multithreaded_c_server.ConnMgr.Step.{InStep, Grants}
use multithreaded_c_server.ConnMgr.Add.{AddsAll, Live, add_new_connections-AddsAll}
use multithreaded_c_server.ConnMgr.Remove.{Clean, Open, remove_closed_connections-InStep}
use multithreaded_c_server.ConnMgr.Create.{
  fresh_conn, Creates, create_new_conn-Creates, CreateEnds, create_new_conn-CreateEnds,
}
use multithreaded_c_server.ConnMgr.Destroy.{Owned, without_all, destroy_all_conns-without_all}
use multithreaded_c_server.ConnMgr.Start.{init-InStep}
use multithreaded_c_server.ConnMgr.Together.{Updates, update_connections-Updates}

abbrev pub conn : ℕ → Conn
conn fd = fresh_conn fd [] []

-- Four connections, at 5 to 8, with descriptors 15 to 18.
abbrev world : World
world = record {
  contexts = λ p.
      if p == 5
      then some (conn 15)
      else if p == 6
      then some (conn 16)
      else if p == 7
      then some (conn 17)
      else if p == 8
      then some (conn 18)
      else none;
  closed = [];
  destroyed = [];
}

-- The connection between the first two was closed.
abbrev conns : EzArray
conns = record { pp_buf = 5 ∷ 0 ∷ 6 ∷ []; num_items = 3; max_items = 3 }

abbrev pub new_conns : EzQueue
new_conns = record { pp_buf = 7 ∷ 8 ∷ []; num_items = 2; max_items = 2; idx_head = 0; idx_tail = 1 }

abbrev pub poll_of : ℕ → PollFd
poll_of fd = record { fd = pos fd; events = 1; revents = 0 }

abbrev manager : ConnMgr
manager = record {
  p_conns = some conns;
  p_pfds = poll_of 15 ∷ poll_of 0 ∷ poll_of 16 ∷ [];
  p_new_conns = some new_conns;
  max_conns = 3;
  num_active_conns = 3;
}

pub new_conns-IsValid : QueueOf.IsValid new_conns
new_conns-IsValid = record {
  storage = refl;
  positive = omega arith;
  fits = omega arith;
  count = omega arith;
  resting = λ e. absurd (omega arith);
  head_in = λ _. omega arith;
  tail_at = λ _. refl;
}

manager-InStep : InStep world manager conns new_conns
manager-InStep = record {
  conns_at = refl;
  queue_at = refl;
  conns_valid = omega arith;
  queue_valid = new_conns-IsValid;
  room = refl;
  max_same = refl;
  count_same = refl;
  fds = refl;
}

manager-Clean : Clean manager conns
manager-Clean = record { slots = tt; entries = tt }

conns-Open : Open world (ArrayOf.contents conns)
conns-Open = (refl, (refl, (refl, tt)))

new_conns-Live : Live world (QueueOf.contents new_conns)
new_conns-Live = ((conn 17, refl), ((conn 18, refl), tt))

-- A realloc that always has memory, with some value in the new slots.
module _ {A : Type 0} (junk : A) where
  abbrev pub larger : Realloc A
  larger b n = some (take n b ++ replicate (n - length b) junk)

  pub larger-ReallocLaw : ReallocLaw larger
  larger-ReallocLaw b n b' e = (
    replicate (n - length b) junk,
    sym (some-injective _ _ e),
    ap length (sym (some-injective _ _ e))
        ∙ omega (
          arith,
          length-append (take n b) (replicate (n - length b) junk),
          length-take n b,
          length-replicate {A = A} (n - length b) junk,
        ),
  )

  pub larger-Grants : Grants larger
  larger-Grants b n = (take n b ++ replicate (n - length b) junk, refl)

remove_closed_connections-InStep_example :
    (mgr' : ConnMgr) × (a' : EzArray) × (remove_closed_connections manager ≡ some (success, mgr'))
    × InStep world mgr' a' new_conns
    × (ArrayOf.contents a' ≡ kept (differs null) (ArrayOf.contents conns))
    × Clean mgr' a'
remove_closed_connections-InStep_example =
    remove_closed_connections-InStep manager-InStep manager-Clean conns-Open

add_new_connections-AddsAll_example :
    AddsAll world manager conns
      (7 ∷ 8 ∷ [])
      (add_new_connections (larger 9) (larger (poll_of 9)) 1 world manager)
add_new_connections-AddsAll_example =
    add_new_connections-AddsAll (larger 9) (larger (poll_of 9)) 1 world (larger-ReallocLaw 9)
      (larger-Grants 9) (larger-ReallocLaw (poll_of 9)) (larger-Grants (poll_of 9)) manager-InStep
      new_conns-Live (omega arith)

update_connections-Updates_example :
    Updates world
      (5 ∷ 0 ∷ 6 ∷ [])
      (7 ∷ 8 ∷ [])
      (update_connections (larger 9) (larger (poll_of 9)) 1 world (some manager))
update_connections-Updates_example =
    update_connections-Updates (larger 9) (larger (poll_of 9)) 1 world (larger-ReallocLaw 9)
      (larger-Grants 9) (larger-ReallocLaw (poll_of 9)) (larger-Grants (poll_of 9)) manager-InStep
      manager-Clean conns-Open new_conns-Live (omega arith)

-- A malloc that always has memory.
abbrev plenty : Malloc Ptr
plenty n = some (replicate n 9)

plenty-MallocLaw : MallocLaw plenty
plenty-MallocLaw n b e = ap length (sym (some-injective _ _ e)) ∙ length-replicate {A = Ptr} n 9

abbrev memory : ConnMemory
memory = record {
  ctx = some (4, conn 9);
  mutex_res = success;
  recv_buf = some [];
  send_buf = some [];
}

create_new_conn-Creates_example :
    Creates manager world 4
      (fresh_conn 14 [] [])
      (Fifo.put (is_some (plenty (grown 2))) (as_fifo new_conns) 4)
      (create_new_conn plenty memory (pos 14) (some manager) inbound_conn world)
create_new_conn-Creates_example =
    create_new_conn-Creates plenty memory 14 manager world plenty-MallocLaw refl new_conns-IsValid
      refl refl refl refl

create_new_conn-CreateEnds_example :
    CreateEnds plenty
      (record memory { send_buf = none })
      14
      manager
      world
      new_conns
      (create_new_conn plenty
        (record memory { send_buf = none })
        (pos 14)
        (some manager)
        inbound_conn
        world)
create_new_conn-CreateEnds_example =
    create_new_conn-CreateEnds plenty (record memory { send_buf = none }) 14 manager world new_conns
      plenty-MallocLaw refl new_conns-IsValid

world-Owned : Owned world (5 ∷ 0 ∷ 6 ∷ 7 ∷ 8 ∷ [])
world-Owned = (
  inr (
    conn 15,
    (λ e. omega arith),
    refl,
    ((λ e. omega arith), ((λ e. omega arith), ((λ e. omega arith), ((λ e. omega arith), tt)))),
  ),
  (
    inl refl,
    (
      inr (conn 16, (λ e. omega arith), refl, ((λ e. omega arith), ((λ e. omega arith), tt))),
      (
        inr (conn 17, (λ e. omega arith), refl, ((λ e. omega arith), tt)),
        (inr (conn 18, (λ e. omega arith), refl, tt), tt),
      ),
    ),
  ),
)

destroy_all_conns-without_all_example :
    (mgr' : ConnMgr) × (q' : EzQueue) × (destroy_all_conns (some manager) world
      ≡ some (success, some mgr', without_all (5 ∷ 0 ∷ 6 ∷ 7 ∷ 8 ∷ []) world))
    × (mgr'.p_new_conns ≡ some q')
    × (QueueOf.contents q' ≡ [])
destroy_all_conns-without_all_example = destroy_all_conns-without_all manager-InStep world-Owned

abbrev start : InitMemory
start = record {
  conns = some conns;
  conn_slots = λ n. some (replicate n null);
  pfds = λ n. some (replicate n (poll_of 9));
  queue = some new_conns;
  queue_slots = plenty;
}

zeroed-CallocLaw : CallocLaw null start.conn_slots
zeroed-CallocLaw n b e = sym (some-injective _ _ e)

init-InStep_example :
    (mgr' : ConnMgr) × (a' : EzArray) × (q' : EzQueue) × (init start (some manager) 4
      ≡ (success, some mgr'))
    × InStep world mgr' a' q'
    × (ArrayOf.contents a' ≡ [])
    × (QueueOf.contents q' ≡ [])
    × Clean mgr' a'
init-InStep_example =
    init-InStep start manager 4 world zeroed-CallocLaw plenty-MallocLaw (omega arith) (omega arith)
      refl refl refl refl refl
