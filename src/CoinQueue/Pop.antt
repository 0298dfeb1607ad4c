-- ===== src/CoinQueue/Pop.antt =====
-- `coin_queue_pop` takes the node at the front, and `coin_queue_destroy` all of them.
use multithreaded_c_server.Common.{
  ℕ, zero, suc, ◌<◌, ◌≡◌, refl, ap, ◌∙◌, true, false, none, some, List, [], ◌∷◌, ◌++◌, arith,
  length, Ptr, null, ◌==◌,
}
use mathlib.Core.List.{append_assoc, append-nil}
use multithreaded_c_server.CoinQueue.{
  coin_success, coin_empty_queue_error, CoinQueue, Heap, update, take_head, pop, destroy_loop,
  destroy,
}
use multithreaded_c_server.CoinQueue.Chain.{
  Cell, tasks, NotIn-last, Distinct, Chain, IsQueue, Chain-update,
}

take_head-IsQueue :
    {h : Heap} {q : CoinQueue} (c : Cell) (cs : List Cell) (next : Ptr)
    → IsQueue h q (c ∷ cs)
    → q.p_head ≡ c.0
    → Chain h next cs
    → IsQueue (update h c.0 none) (take_head q (record { p_task = c.1; p_next = next })) cs
unfolding take_head
take_head-IsQueue {h} {q} c [] next s e rest =
    let only : (q.p_head == q.p_tail) ≡ true = ground (arith, s.ends) in
    rw only
      (record { chain = refl; distinct = tt; ends = refl; counted = omega (arith, s.counted) })
take_head-IsQueue {h} {q} c (d ∷ cs) next s e rest =
    let more : (q.p_head == q.p_tail) ≡ false =
      ground (arith, s.ends, NotIn-last c.0 d cs s.distinct.0) in
    rw more (record {
      chain = Chain-update h c.0 none next (d ∷ cs) s.distinct.0 rest;
      distinct = s.distinct.1;
      ends = s.ends;
      counted = omega (arith, s.counted);
    })

pub pop_node :
    {h : Heap} {q : CoinQueue} (c : Cell) (cs : List Cell) (out : Ptr)
    → IsQueue h q (c ∷ cs)
    → (q' : CoinQueue) × (h' : Heap) × (pop (some q) (some out) h
        ≡ some (coin_success, some q', some c.1, h'))
      × IsQueue h' q' cs
unfolding pop
pop_node {h} {q} c cs out s =
    let (e, given, next, at, rest) = s.chain in
    let occupied : (q.p_head == null) ≡ false = ground arith in
    (
      take_head q (record { p_task = c.1; p_next = next }),
      update h c.0 none,
      rw (occupied, e, at),
      take_head-IsQueue c cs next s e rest,
    )

pub pop_nothing :
    {h : Heap} {q : CoinQueue} (out : Ptr)
    → IsQueue h q []
    → pop (some q) (some out) h ≡ some (coin_empty_queue_error, some q, some null, h)
unfolding pop
pop_nothing out s = ground (arith, s.chain)

-- The heap without the nodes of some cells.
abbrev pub freeing : Heap → List Cell → Heap
freeing h [] = h
freeing h (c ∷ cs) = freeing (update h c.0 none) cs

destroy_loop-freeing :
    (fuel : ℕ) (h : Heap) (p : Ptr) (cs : List Cell) (freed : List Ptr)
    → Chain h p cs
    → Distinct cs
    → length cs < fuel
    → destroy_loop fuel p h freed ≡ some (freeing h cs, freed ++ tasks cs)
unfolding destroy_loop
destroy_loop-freeing zero h p cs freed chain distinct enough = absurd (omega arith)
destroy_loop-freeing (suc fuel) h p [] freed chain distinct enough =
    let over : (p == null) ≡ true = ground arith in rw (over, append-nil freed)
destroy_loop-freeing (suc fuel) h p (c ∷ cs) freed (e, given, next, at, rest) (apart, distinct)
      enough =
    let occupied : (p == null) ≡ false = ground arith in
    rw (occupied, e, at)
      (destroy_loop-freeing fuel (update h c.0 none) next cs (freed ++ c.1 ∷ [])
          (Chain-update h c.0 none next cs apart rest) distinct (omega arith)
        ∙ ap (λ ts. some (freeing h (c ∷ cs), ts)) (append_assoc freed (c.1 ∷ []) (tasks cs)))

-- `coin_queue_destroy` ends and frees every task of the queue, in order, and its nodes, each of
-- them once, without touching a node that it has freed, and the queue is gone.
pub destroy-freeing :
    (fuel : ℕ) {h : Heap} {q : CoinQueue} (cs : List Cell)
    → IsQueue h q cs
    → length cs < fuel
    → destroy fuel (some q) h ≡ some (coin_success, none, freeing h cs, tasks cs)
unfolding destroy
destroy-freeing fuel cs s enough =
    rw (destroy_loop-freeing fuel _ _ cs [] s.chain s.distinct enough)
