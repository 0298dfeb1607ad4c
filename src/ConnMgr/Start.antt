-- ===== src/ConnMgr/Start.antt =====
-- `connmgr_init` sets up a manager that is in step.
use multithreaded_c_server.Common.{
  ℕ, zero, suc, ◌≤◌, ◌<◌, ◌≡◌, refl, ap, ◌∙◌, Bool, false, arith, some, List, [], length-replicate,
  replicate, Ptr, null, Malloc, MallocLaw, CallocLaw, success, uint16_max, ◌==◌,
}
use multithreaded_c_server.Compact.{NoneKept}
use multithreaded_c_server.EzArray
use multithreaded_c_server.EzArray.{EzArray, differs}
use multithreaded_c_server.EzArray.Contents as ArrayOf
use multithreaded_c_server.EzQueue.{EzQueue}
use multithreaded_c_server.EzQueue.Contents as QueueOf
use multithreaded_c_server.EzQueue.Life.{init-made}
use multithreaded_c_server.ConnMgr.{PollFd, no_poll, ConnMgr, World, InitMemory, init}
use multithreaded_c_server.ConnMgr.Update.{is_polled}
use multithreaded_c_server.ConnMgr.Step.{InStep}
use multithreaded_c_server.ConnMgr.Remove.{Clean}

NoneKept-replicate {ℓ} :
    {A : Type ℓ} (keep : A → Bool) (x : A) (n : ℕ) → keep x ≡ false → NoneKept keep (replicate n x)
NoneKept-replicate keep x zero e = tt
NoneKept-replicate keep x (suc n) e = (e, NoneKept-replicate keep x n e)

-- The array that `ezarr_init` sets up.
abbrev empty_array : ℕ → EzArray
empty_array n = record { pp_buf = replicate n null; num_items = 0; max_items = n }

init-empty_array :
    (calloc : Malloc Ptr) (a : EzArray) (n : ℕ) {block : List Ptr}
    → CallocLaw null calloc
    → 0 < n
    → calloc n ≡ some block
    → EzArray.init calloc (some a) n ≡ (success, some (empty_array n))
unfolding EzArray.init
init-empty_array calloc a n law positive e =
    let some_slots : (n == 0) ≡ false = ground arith in rw (some_slots, e, law n _ e)

-- With memory, and for a number of connections from 1 to 65535, `connmgr_init` succeeds, and the
-- manager is in step, with no connection, none that waits, and nothing behind them.
pub init-InStep :
    (memory : InitMemory) (mgr : ConnMgr) (n : ℕ) (w : World) {a : EzArray} {q : EzQueue}
    {conn_block queue_block : List Ptr} {pfd_block : List PollFd}
    → CallocLaw null memory.conn_slots
    → MallocLaw memory.queue_slots
    → 0 < n
    → n ≤ uint16_max
    → memory.conns ≡ some a
    → memory.queue ≡ some q
    → memory.conn_slots n ≡ some conn_block
    → memory.queue_slots n ≡ some queue_block
    → memory.pfds n ≡ some pfd_block
    → (mgr' : ConnMgr) × (a' : EzArray) × (q' : EzQueue) × (init memory (some mgr) n
        ≡ (success, some mgr'))
      × InStep w mgr' a' q'
      × (ArrayOf.contents a' ≡ [])
      × (QueueOf.contents q' ≡ [])
      × Clean mgr' a'
unfolding init
init-InStep memory mgr n w {a} {q} law law_queue positive small conns queue conn_slots queue_slots
      pfds =
    let (q', queued, qv, empty, same) =
      init-made memory.queue_slots q n law_queue positive small queue_slots in
    let some_slots : (n == 0) ≡ false = ground arith in
    (
      record {
        p_conns = some (empty_array n);
        p_pfds = replicate n no_poll;
        p_new_conns = some q';
        max_conns = n;
        num_active_conns = 0;
      },
      empty_array n,
      q',
      rw
          (
            some_slots,
            conns,
            init-empty_array memory.conn_slots a n law positive conn_slots,
            pfds,
            queue,
            queued,
          )
          (ap
            (λ o. (
              success,
              some (record {
                p_conns = o;
                p_pfds = replicate n no_poll;
                p_new_conns = some q';
                max_conns = n;
                num_active_conns = 0;
              }),
            ))
            (ap (λ o. (EzArray.init memory.conn_slots o n).1) conns
              ∙ ap (λ r. r.1) (init-empty_array memory.conn_slots a n law positive conn_slots))),
      record {
        conns_at = refl;
        queue_at = refl;
        conns_valid = omega (arith, length-replicate {A = Ptr} n null);
        queue_valid = qv;
        room = length-replicate {A = PollFd} n no_poll;
        max_same = refl;
        count_same = refl;
        fds = refl;
      },
      refl,
      empty,
      record {
        slots = NoneKept-replicate (differs null) null n refl;
        entries = NoneKept-replicate is_polled no_poll n refl;
      },
    )
