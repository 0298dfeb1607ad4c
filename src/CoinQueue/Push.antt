-- ===== src/CoinQueue/Push.antt =====
-- `coin_queue_push` puts a node at the end of the list.
use native.Mathlib.Decide.{ℕ_discrete}
use multithreaded_c_server.Common.{
  ◌+◌, ◌%◌, ◌^◌, ◌≡◌, ◌≢◌, refl, sym, false, Option, none, some, List, [], ◌∷◌, ◌++◌, arith,
  length-append, Ptr, null, ◌==◌, if◌then◌else◌,
}
use multithreaded_c_server.CoinQueue.{
  coin_success, CoinQueue, Heap, update, set_next, append_node, push,
}
use multithreaded_c_server.CoinQueue.Chain.{
  Cell, NotIn, IsQueue, update_same, Chain-update, NotIn-of_free, Distinct-snoc, tail_of-snoc,
  Chain-snoc,
}

-- What an append of `d` to the queue of the cells `cs` leaves.
abbrev pub Appends : Heap → List Cell → Cell → Option (CoinQueue × Heap) → Type 0
Appends h cs d out =
    (q' : CoinQueue) × (h' : Heap) × (out ≡ some (q', h')) × IsQueue h' q' (cs ++ d ∷ [])

-- The two ways to reach the last node lead to the same.
either_end :
    (q : CoinQueue) (h : Heap) (p_node : Ptr)
    → (if q.p_head == q.p_tail then set_next h q.p_head p_node else set_next h q.p_tail p_node)
      ≡ set_next h q.p_tail p_node
either_end q h p_node = elim (ℕ_discrete q.p_head q.p_tail) [
  | yes same ↦ rw same (ground arith)
  | no other ↦ ground arith
]

append_node-Appends :
    {h : Heap} {q : CoinQueue} (cs : List Cell) (d : Cell)
    → IsQueue h q cs
    → d.0 ≢ null
    → NotIn d.0 cs
    → h d.0 ≡ some (record { p_task = d.1; p_next = null })
    → Appends h cs d (append_node q d.0 h)
unfolding append_node
append_node-Appends {h} {q} [] d s real apart new = (
  record { p_head = d.0; p_tail = d.0; size = (q.size + 1) % 2 ^ 64 },
  h,
  ground (arith, s.chain),
  record {
    chain = (refl, real, null, new, refl);
    distinct = (tt, tt);
    ends = refl;
    counted = omega (arith, s.counted);
  },
)
append_node-Appends {h} {q} (c ∷ cs) d s real apart new =
    let (e, given, next, at, rest) = s.chain in
    let (h', set, chain, same) = Chain-snoc h q.p_head c cs d s.chain s.distinct real apart new in
    let occupied : (q.p_head == null) ≡ false = ground arith in
    (
      record q { p_tail = d.0; size = (q.size + 1) % 2 ^ 64 },
      h',
      rw (occupied, either_end q h d.0, s.ends, set),
      record {
        chain = chain;
        distinct = Distinct-snoc (c ∷ cs) d s.distinct apart;
        ends = sym (tail_of-snoc (c ∷ cs) d);
        counted = omega (arith, s.counted, length-append cs (d ∷ []));
      },
    )

-- What calloc promises: a node's address is not NULL, and was not in use.
abbrev pub Fresh : (Heap → Option Ptr) → Type 0
Fresh calloc = (h : Heap) (p : Ptr) → calloc h ≡ some p → (p ≢ null) × (h p ≡ none)

-- The allocated node belongs to no queue yet.
with_node :
    {h : Heap} {q : CoinQueue} (cs : List Cell) (d : Cell)
    → IsQueue h q cs
    → h d.0 ≡ none
    → IsQueue (update h d.0 (some (record { p_task = d.1; p_next = null }))) q cs
with_node {h} {q} cs d s free = record {
  chain = Chain-update h d.0 _ q.p_head cs (NotIn-of_free h d.0 q.p_head cs free s.chain) s.chain;
  distinct = s.distinct;
  ends = s.ends;
  counted = s.counted;
}

pub push_node :
    (calloc : Heap → Option Ptr) {h : Heap} {q : CoinQueue} (cs : List Cell) (task p_node : Ptr)
    → Fresh calloc
    → IsQueue h q cs
    → task ≢ null
    → calloc h ≡ some p_node
    → (q' : CoinQueue) × (h' : Heap) × (push calloc (some q) task h
        ≡ some (coin_success, some q', h'))
      × IsQueue h' q' (cs ++ (p_node, task) ∷ [])
unfolding push
push_node calloc {h} {q} cs task p_node law s real given =
    let (address, free) = law h p_node given in
    let (q', h', e, s') =
      append_node-Appends cs (p_node, task) (with_node cs (p_node, task) s free) address
        (NotIn-of_free h p_node q.p_head cs free s.chain) (update_same h p_node _) in
    let present : (task == null) ≡ false = ground arith in (q', h', rw (present, given, e), s')
