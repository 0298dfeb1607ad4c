-- ===== src/ConnMgr/Add.antt =====
-- The connections that wait are added, all of them and in their order.
use mathlib.Core.List.{map-append, append_assoc, append-nil}
use multithreaded_c_server.Common.{
  ℕ, zero, suc, ◌+◌, ◌≤◌, ◌<◌, ◌≡◌, refl, sym, ap, ap₂, subst, ◌∙◌, inl, inr, false, Option, none,
  some, List, [], ◌∷◌, ◌++◌, arith, map, length, length-append, take, Ptr, null, Realloc,
  ReallocLaw, ℤ, success, is_some, uint16_max, to_uint16, ◌==◌, if◌then◌else◌,
}
use multithreaded_c_server.Conn.{Conn}
use multithreaded_c_server.EzArray.{EzArray, push, grown}
use multithreaded_c_server.EzArray.Contents as ArrayOf
use multithreaded_c_server.EzArray.Push.{appends, refuses, push_lem}
use multithreaded_c_server.EzQueue.{EzQueue, dequeue}
use multithreaded_c_server.EzQueue.Contents as QueueOf
use multithreaded_c_server.EzQueue.Contents.{length-contents}
use multithreaded_c_server.EzQueue.Fifo
use multithreaded_c_server.EzQueue.Refine.{as_fifo, dequeue_refines, Dequeues}
use multithreaded_c_server.ConnMgr.{PollFd, ConnMgr, World}
use multithreaded_c_server.ConnMgr.Update.{new_max, add_one, add_loop, waiting, add_new_connections}
use multithreaded_c_server.ConnMgr.Step.{
  InStep, Grants, fd_of, descriptor, add_to_pollfd-Polls, entry, num_items-length, block_given,
}

-- The head of a queue that holds something is taken.
dequeue_next :
    {q : EzQueue} (p : Ptr) (rest : List Ptr)
    → QueueOf.IsValid q
    → QueueOf.contents q ≡ p ∷ rest
    → (q' : EzQueue) × (dequeue (some q) (some null) ≡ some (success, some q', some p))
      × QueueOf.IsValid q'
      × (QueueOf.contents q' ≡ rest)
unfolding Fifo.get
dequeue_next {q} p rest v e =
    let fifo : as_fifo q ≡ record { capacity = q.max_items; waiting = p ∷ rest } =
      ap (λ xs. record { capacity = q.max_items; waiting = xs }) e in
    let (q', done, w, same) =
      subst (λ f. Dequeues q null (Fifo.get f)) fifo (dequeue_refines null v) in
    (q', done, w, ap Fifo.Fifo.waiting same)

-- The contexts of the connections of a list are on the heap.
abbrev pub Live : World → List Ptr → Type 0
Live w [] = Unit {0}
Live w (p ∷ ps) = ((c : Conn) × (w.contexts p ≡ some c)) × Live w ps

module _ (w : World) where
  -- One more connection: the manager stays in step, with the connection behind the others.
  abbrev pub Adds :
      ConnMgr → EzArray → (p : Ptr) → (rest : List Ptr) → Option (ℤ × ConnMgr) → Type 0
  Adds mgr a p rest out =
      (mgr' : ConnMgr) × (a' : EzArray) × (q' : EzQueue) × (out ≡ some (success, mgr'))
      × InStep w mgr' a' q'
      × (ArrayOf.contents a' ≡ ArrayOf.contents a ++ p ∷ [])
      × (QueueOf.contents q' ≡ rest)

  -- All the connections of a list, one after the other.
  abbrev pub AddsAll : ConnMgr → EzArray → List Ptr → Option (ℤ × ConnMgr) → Type 0
  AddsAll mgr a ps out =
      (mgr' : ConnMgr) × (a' : EzArray) × (q' : EzQueue) × (out ≡ some (success, mgr'))
      × InStep w mgr' a' q'
      × (ArrayOf.contents a' ≡ ArrayOf.contents a ++ ps)
      × (QueueOf.contents q' ≡ [])

module _ (realloc : Realloc Ptr) (realloc_pfds : Realloc PollFd) (events : ℕ) (w : World)
    (law : ReallocLaw realloc) (grants : Grants realloc) (law_pfds : ReallocLaw realloc_pfds)
    (grants_pfds : Grants realloc_pfds) where
  -- What the array does with one more connection.
  push_next :
      {a : EzArray} (p : Ptr)
      → ArrayOf.IsValid a
      → a.num_items < uint16_max
      → (a' : EzArray) × (push realloc (some a) p ≡ some (success, some a'))
        × ArrayOf.IsValid a'
        × (ArrayOf.contents a' ≡ ArrayOf.contents a ++ p ∷ [])
        × (a'.max_items ≡ (if a.num_items == a.max_items then grown a.num_items else a.max_items))
  push_next {a} p v small = elim (push_lem realloc p law v) [
    | appends a' e v' held size ↦ (a', e, v', held, size)
    | refuses e full (inl largest) ↦ absurd (omega arith)
    | refuses e full (inr refused) ↦
        let (block, given) = grants a.pp_buf (grown a.num_items) in
        let clash : none ≡ some block = sym refused ∙ given in absurd (ground arith)
  ]

  num_items-push :
      {a a' : EzArray} (p : Ptr)
      → ArrayOf.IsValid a
      → ArrayOf.IsValid a'
      → ArrayOf.contents a' ≡ ArrayOf.contents a ++ p ∷ []
      → a'.num_items ≡ suc a.num_items
  num_items-push {a} {a'} p v v' held = omega (
    arith,
    num_items-length v,
    num_items-length v',
    ap length held,
    length-append (ArrayOf.contents a) (p ∷ []),
  )

  add_one-Adds :
      {mgr : ConnMgr} {a : EzArray} {q : EzQueue} (p : Ptr) (rest : List Ptr) (c : Conn)
      → InStep w mgr a q
      → QueueOf.contents q ≡ p ∷ rest
      → w.contexts p ≡ some c
      → a.num_items < uint16_max
      → Adds w mgr a p rest (add_one realloc realloc_pfds events w mgr)
  unfolding add_one new_max grown
  add_one-Adds {mgr} {a} {q} p rest c s e live small =
      let (q', taken, qv, left) = dequeue_next p rest s.queue_valid e in
      let (a', done, av, held, size) = push_next p s.conns_valid small in
      let (pfds', polled, grows, front) =
        add_to_pollfd-Polls realloc realloc_pfds events law_pfds grants_pfds c.fd mgr.p_pfds
          a.num_items a.max_items s.room s.conns_valid.count s.conns_valid.positive small in
      (
        record mgr {
          p_conns = some a';
          p_pfds = pfds';
          p_new_conns = some q';
          max_conns = a'.max_items;
          num_active_conns = to_uint16 (a.num_items + 1);
        },
        a',
        q',
        rw (s.queue_at, taken, s.conns_at, done, live, s.count_same, s.max_same, polled),
        record {
          conns_at = refl;
          queue_at = refl;
          conns_valid = av;
          queue_valid = qv;
          room = grows ∙ sym size;
          max_same = refl;
          count_same = omega (arith, num_items-push p s.conns_valid av held);
          fds =
              ap (λ n. map PollFd.fd (take n pfds')) (num_items-push p s.conns_valid av held)
              ∙ ap (map PollFd.fd) front
              ∙ map-append PollFd.fd (take a.num_items mgr.p_pfds)
                  (entry realloc realloc_pfds events c.fd ∷ [])
              ∙ ap₂ (λ xs d. xs ++ d ∷ []) s.fds (ap descriptor (sym live))
              ∙ sym (ap (map (fd_of w)) held ∙ map-append (fd_of w) (ArrayOf.contents a) (p ∷ []));
        },
        held,
        left,
      )

  add_loop-suc :
      (fuel : ℕ) (mgr : ConnMgr) {mgr1 : ConnMgr}
      → (waiting realloc realloc_pfds events mgr.p_new_conns == 0) ≡ false
      → add_one realloc realloc_pfds events w mgr ≡ some (success, mgr1)
      → add_loop realloc realloc_pfds events (suc fuel) w mgr
        ≡ add_loop realloc realloc_pfds events fuel w mgr1
  unfolding add_loop
  add_loop-suc fuel mgr some_left added = rw (some_left, added)

  add_loop-AddsAll :
      (ps : List Ptr) (fuel : ℕ) {mgr : ConnMgr} {a : EzArray} {q : EzQueue}
      → InStep w mgr a q
      → QueueOf.contents q ≡ ps
      → Live w ps
      → a.num_items + length ps ≤ uint16_max
      → length ps < fuel
      → AddsAll w mgr a ps (add_loop realloc realloc_pfds events fuel w mgr)
  unfolding add_loop
  add_loop-AddsAll ps zero s e live small enough = absurd (omega arith)
  add_loop-AddsAll [] (suc fuel) {mgr} {a} {q} s e live small enough =
      let none_left : q.num_items ≡ 0 = omega (arith, length-contents q, ap length e) in
      (mgr, a, q, rw (s.queue_at, none_left), s, sym (append-nil (ArrayOf.contents a)), e)
  add_loop-AddsAll (p ∷ ps) (suc fuel) {mgr} {a} {q} s e ((c, at), live) small enough =
      let some_left : (q.num_items == 0) ≡ false = ground (arith, length-contents q, ap length e) in
      let (mgr1, a1, q1, added, s1, held, left) = add_one-Adds p ps c s e at (omega arith) in
      let count = num_items-push p s.conns_valid s1.conns_valid held in
      let (mgr', a', q', done, s', all, none_left) =
        add_loop-AddsAll ps fuel s1 left live (omega arith) (omega arith) in
      (
        mgr',
        a',
        q',
        add_loop-suc fuel mgr
              (ap (λ o. waiting realloc realloc_pfds events o == 0) s.queue_at ∙ some_left) added
            ∙ done,
        s',
        all ∙ ap (λ xs. xs ++ ps) held ∙ append_assoc (ArrayOf.contents a) (p ∷ []) ps,
        none_left,
      )

  guards_pass :
      {mgr : ConnMgr} {a : EzArray} {q : EzQueue}
      → InStep w mgr a q
      → add_new_connections realloc realloc_pfds events w mgr
        ≡ add_loop realloc realloc_pfds events (suc q.num_items) w mgr
  unfolding add_new_connections
  guards_pass {mgr} s =
      rw
        (
          ap is_some s.queue_at,
          ap is_some s.conns_at,
          block_given mgr.p_pfds (omega (arith, s.room, s.conns_valid.positive)),
        )
        (ap
          (λ o.
            add_loop realloc realloc_pfds events (suc (waiting realloc realloc_pfds events o)) w
              mgr)
          s.queue_at)

  -- `connmgr_add_new_connections` ends and adds every connection that waits, in the order of the
  -- queue, behind those there are, each with its entry for poll. The array and the entries stay in
  -- step, also where both have to grow, as long as memory does not run out, the contexts are on
  -- the heap, and there are no more than 65535 connections in all.
  pub add_new_connections-AddsAll :
      {mgr : ConnMgr} {a : EzArray} {q : EzQueue}
      → InStep w mgr a q
      → Live w (QueueOf.contents q)
      → a.num_items + q.num_items ≤ uint16_max
      → AddsAll w mgr a (QueueOf.contents q) (add_new_connections realloc realloc_pfds events w mgr)
  add_new_connections-AddsAll {mgr} {a} {q} s live small =
      let (mgr', a', q', done, s', all, none_left) =
        add_loop-AddsAll (QueueOf.contents q) (suc q.num_items) s refl live
          (omega (arith, length-contents q)) (omega (arith, length-contents q)) in
      (mgr', a', q', guards_pass s ∙ done, s', all, none_left)
