-- ===== src/NetIo/AcceptTests.antt =====
-- `nl_accept` with 1024 connections: it takes one more.
use mathlib.Core.Option.{some-injective}
use multithreaded_c_server.Common.{
  refl, sym, ap, ◌∙◌, arith, none, some, [], ◌∷◌, length, length-replicate, replicate, Malloc,
  MallocLaw, Ptr, pos, success,
}
use multithreaded_c_server.EzQueue.{EzQueue}
use multithreaded_c_server.EzQueue.Contents.{IsValid}
use multithreaded_c_server.ConnMgr.{ConnMgr, World, ConnMemory}
use multithreaded_c_server.ConnMgr.Create.{fresh_conn}
use multithreaded_c_server.NetIo.{ewouldblock}
use multithreaded_c_server.NetIo.Accept.{accepted, accept}
use multithreaded_c_server.NetIo.Limit.{Bounded, accept-Bounded}

abbrev one_waits : EzQueue
one_waits = record { pp_buf = 7 ∷ 9 ∷ []; num_items = 1; max_items = 2; idx_head = 0; idx_tail = 0 }

one_waits-IsValid : IsValid one_waits
one_waits-IsValid = record {
  storage = refl;
  positive = omega arith;
  fits = omega arith;
  count = omega arith;
  resting = λ e. absurd (omega arith);
  head_in = λ _. omega arith;
  tail_at = λ _. refl;
}

abbrev busy : ConnMgr
busy = record {
  p_conns = none;
  p_pfds = [];
  p_new_conns = some one_waits;
  max_conns = 1024;
  num_active_conns = 1023;
}

abbrev world : World
world = record { contexts = λ p. none; closed = []; destroyed = [] }

abbrev plenty : Malloc Ptr
plenty n = some (replicate n 9)

plenty-MallocLaw : MallocLaw plenty
plenty-MallocLaw n b e = ap length (sym (some-injective _ _ e)) ∙ length-replicate {A = Ptr} n 9

abbrev memory : ConnMemory
memory = record {
  ctx = some (4, fresh_conn 9 [] []);
  mutex_res = success;
  recv_buf = some [];
  send_buf = some [];
}

accept-Bounded_example :
    Bounded 1023 (accept (accepted 14 (pos 2) (pos 0) plenty memory ∷ []) ewouldblock busy world)
accept-Bounded_example =
    accept-Bounded (accepted 14 (pos 2) (pos 0) plenty memory ∷ []) ewouldblock busy world
      (plenty-MallocLaw, tt) refl one_waits-IsValid (omega arith)
