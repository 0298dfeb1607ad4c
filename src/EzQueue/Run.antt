-- ===== src/EzQueue/Run.antt =====
-- Sequences of calls.
use multithreaded_c_server.Common.{
  ◌≡◌, refl, Option, some, List, [], ◌∷◌, Ptr, Malloc, MallocLaw, ℤ, is_some, get_or_else, ◌>>=◌,
}
use multithreaded_c_server.EzQueue.{EzQueue, grown, enqueue, dequeue}
use multithreaded_c_server.EzQueue.Contents.{IsValid}
use multithreaded_c_server.EzQueue.Fifo
use multithreaded_c_server.EzQueue.Fifo.{Fifo}
use multithreaded_c_server.EzQueue.Refine.{as_fifo, enqueue_refines, dequeue_refines}

-- The calls that a client makes, each enqueue with what malloc does in it.
pub data Op : Type 0 where
  enqueues : Malloc Ptr → Ptr → Op
  dequeues : Ptr → Op

-- The calls keep to malloc's contract.
abbrev pub Lawful : List Op → Type 0
Lawful [] = Unit {0}
Lawful (enqueues malloc item ∷ ops) = MallocLaw malloc × Lawful ops
Lawful (dequeues out ∷ ops) = Lawful ops

-- What the calls return and put into `*pp_out`; `none` if one of them leaves its block.
pub run : Option EzQueue → List Op → Option (List (ℤ × Ptr))
run p [] = some []
run p (enqueues malloc item ∷ ops) = do
  (res, p') ← enqueue malloc p item
  rest ← run p' ops
  some ((res, item) ∷ rest)
run p (dequeues out ∷ ops) = do
  (res, p', out') ← dequeue p (some out)
  rest ← run p' ops
  some ((res, get_or_else out' out) ∷ rest)

pub run_fifo : Fifo → List Op → List (ℤ × Ptr)
run_fifo f [] = []
run_fifo f (enqueues malloc item ∷ ops) =
    let (res, f') = Fifo.put (is_some (malloc (grown f.capacity))) f item in
    (res, item) ∷ run_fifo f' ops
run_fifo f (dequeues out ∷ ops) =
    let (res, item, f') = Fifo.get f in (res, get_or_else item out) ∷ run_fifo f' ops

-- No sequence of calls tells a valid queue from the abstract queue of its contents, and none of
-- them leaves its block, as long as malloc keeps its contract.
pub run_refines :
    (ops : List Op) {q : EzQueue}
    → Lawful ops
    → IsValid q
    → run (some q) ops ≡ some (run_fifo (as_fifo q) ops)
unfolding run run_fifo
run_refines [] law v = refl
run_refines (enqueues malloc item ∷ ops) {q} (keeps, law) v =
    let (q', e, w, same) = enqueue_refines malloc item keeps v in
    rw (e, run_refines ops law w, same)
run_refines (dequeues out ∷ ops) {q} law v =
    let (q', e, w, same) = dequeue_refines out v in rw (e, run_refines ops law w, same)
