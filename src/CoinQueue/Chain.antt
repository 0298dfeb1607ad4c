-- ===== src/CoinQueue/Chain.antt =====
-- The list of nodes that a task queue consists of, and what writes to the heap do to it.
use multithreaded_c_server.Common.{
  ◌%◌, ◌^◌, ◌≡◌, ◌≢◌, refl, sym, ap, ◌∙◌, Option, none, some, List, [], ◌∷◌, ◌++◌, arith, length,
  Ptr, null,
}
use multithreaded_c_server.CoinQueue.{Node, CoinQueue, Heap, update, set_next}

-- A node's address and its task.
abbrev pub Cell : Type 0
Cell = Ptr × Ptr

abbrev pub tasks : List Cell → List Ptr
tasks [] = []
tasks (c ∷ cs) = c.1 ∷ tasks cs

abbrev pub NotIn : Ptr → List Cell → Type 0
NotIn a [] = Unit {0}
NotIn a (c ∷ cs) = (a ≢ c.0) × NotIn a cs

abbrev pub Distinct : List Cell → Type 0
Distinct [] = Unit {0}
Distinct (c ∷ cs) = NotIn c.0 cs × Distinct cs

-- The nodes from `p` on, up to a NULL.
abbrev pub Chain : Heap → Ptr → List Cell → Type 0
Chain h p [] = p ≡ null
Chain h p (c ∷ cs) =
    (p ≡ c.0)
    × (c.0 ≢ null)
    × (next : Ptr) × (h c.0 ≡ some (record { p_task = c.1; p_next = next }))
    × Chain h next cs

-- The last address.
abbrev pub last : Cell → List Cell → Ptr
last c [] = c.0
last c (d ∷ cs) = last d cs

abbrev pub tail_of : List Cell → Ptr
tail_of [] = null
tail_of (c ∷ cs) = last c cs

pub record IsQueue (h : Heap) (q : CoinQueue) (cs : List Cell) : Type 0 where
  pub chain : Chain h q.p_head cs
  pub distinct : Distinct cs
  pub ends : q.p_tail ≡ tail_of cs
  pub counted : q.size ≡ length cs % 2 ^ 64

pub update_same : (h : Heap) (p : Ptr) (cell : Option Node) → update h p cell p ≡ cell
update_same h p cell = ground arith

pub update_ne : (h : Heap) (p p' : Ptr) (cell : Option Node) → p' ≢ p → update h p cell p' ≡ h p'
update_ne h p p' cell ne = ground arith

-- A write elsewhere leaves a chain as it is.
pub Chain-update :
    (h : Heap) (a : Ptr) (cell : Option Node) (p : Ptr) (cs : List Cell)
    → NotIn a cs
    → Chain h p cs
    → Chain (update h a cell) p cs
Chain-update h a cell p [] apart chain = chain
Chain-update h a cell p (c ∷ cs) (ne, apart) (e, given, next, at, rest) = (
  e,
  given,
  next,
  update_ne h a c.0 cell (λ x. ne (sym x)) ∙ at,
  Chain-update h a cell next cs apart rest,
)

-- An address that is not allocated is none of theirs.
pub NotIn-of_free :
    (h : Heap) (a : Ptr) (p : Ptr) (cs : List Cell) → h a ≡ none → Chain h p cs → NotIn a cs
NotIn-of_free h a p [] free chain = tt
NotIn-of_free h a p (c ∷ cs) free (e, given, next, at, rest) = (
  λ same.
      (let clash : none ≡ some (record { p_task = c.1; p_next = next }) =
          sym free ∙ ap h same ∙ at in
        absurd (ground arith)),
  NotIn-of_free h a next cs free rest,
)

pub NotIn-last : (a : Ptr) (c : Cell) (cs : List Cell) → NotIn a (c ∷ cs) → a ≢ last c cs
NotIn-last a c [] (ne, apart) = ne
NotIn-last a c (d ∷ cs) (ne, apart) = NotIn-last a d cs apart

pub NotIn-snoc :
    (a : Ptr) (cs : List Cell) (d : Cell) → NotIn a cs → a ≢ d.0 → NotIn a (cs ++ d ∷ [])
NotIn-snoc a [] d apart ne = (ne, tt)
NotIn-snoc a (c ∷ cs) d (first, apart) ne = (first, NotIn-snoc a cs d apart ne)

pub Distinct-snoc :
    (cs : List Cell) (d : Cell) → Distinct cs → NotIn d.0 cs → Distinct (cs ++ d ∷ [])
Distinct-snoc [] d distinct apart = (tt, tt)
Distinct-snoc (c ∷ cs) d (first, distinct) (ne, apart) =
    (NotIn-snoc c.0 cs d first (λ x. ne (sym x)), Distinct-snoc cs d distinct apart)

pub tail_of-snoc : (cs : List Cell) (d : Cell) → tail_of (cs ++ d ∷ []) ≡ d.0
tail_of-snoc [] d = refl
tail_of-snoc (c ∷ cs) d = go c cs
  where
    go : (c : Cell) (cs : List Cell) → last c (cs ++ d ∷ []) ≡ d.0
    go c [] = refl
    go c (e ∷ cs) = go e cs

pub tasks-append : (cs : List Cell) (d : Cell) → tasks (cs ++ d ∷ []) ≡ tasks cs ++ d.1 ∷ []
tasks-append [] d = refl
tasks-append (c ∷ cs) d = ap (◌∷◌ c.1) (tasks-append cs d)

-- The last node of a chain, its successor set to a new node behind it.
pub Chain-snoc :
    (h : Heap) (p : Ptr) (c : Cell) (cs : List Cell) (d : Cell)
    → Chain h p (c ∷ cs)
    → Distinct (c ∷ cs)
    → d.0 ≢ null
    → NotIn d.0 (c ∷ cs)
    → h d.0 ≡ some (record { p_task = d.1; p_next = null })
    → (h' : Heap) × (set_next h (last c cs) d.0 ≡ some h')
      × Chain h' p (c ∷ (cs ++ d ∷ []))
      × ((a : Ptr) → a ≢ last c cs → h' a ≡ h a)
unfolding set_next
Chain-snoc h p c [] d (e, given, next, at, rest) distinct real (ne, apart) new = (
  update h c.0 (some (record { p_task = c.1; p_next = d.0 })),
  rw at,
  (
    e,
    given,
    d.0,
    update_same h c.0 (some (record { p_task = c.1; p_next = d.0 })),
    (refl, real, null, update_ne h c.0 d.0 _ ne ∙ new, refl),
  ),
  λ a other. update_ne h c.0 a _ other,
)
Chain-snoc h p c (b ∷ cs) d (e, given, next, at, rest) (first, distinct) real (ne, apart) new =
    let (h', set, chain, same) = Chain-snoc h next b cs d rest distinct real apart new in
    (h', set, (e, given, next, same c.0 (NotIn-last c.0 b cs first) ∙ at, chain), same)
