-- ===== src/ConnMgr/Destroy.antt =====
-- `connmgr_destroy_all_conns` frees every context once.
use native.Mathlib.Decide.{ℕ_discrete}
use mathlib.Core.List.{append_assoc, foldl}
use multithreaded_c_server.Common.{
  Option, ℕ, suc, ◌+◌, ◌≤◌, ◌<◌, ◌≡◌, ◌≢◌, refl, sym, ap, ap₂, ◌∙◌, ◌⊎◌, inl, inr, false, arith,
  none, some, List, [], ◌∷◌, ◌++◌, length, take-append-drop, Ptr, null, ℤ, success, ◌==◌,
  if◌then◌else◌, load-append, store-append, length-snoc, replicate,
}
use multithreaded_c_server.Conn.{Conn}
use multithreaded_c_server.EzArray.{EzArray, get_at, set_at}
use multithreaded_c_server.EzArray.Contents as ArrayOf
use multithreaded_c_server.EzQueue.{EzQueue}
use multithreaded_c_server.EzQueue.Contents as QueueOf
use multithreaded_c_server.EzQueue.Life.{notify, non_null, clear_lem}
use multithreaded_c_server.ConnMgr.{
  ConnMgr, World, is_inbound, update, destroy_conn, destroy_next, destroy_loop, destroy_all_conns,
}
use multithreaded_c_server.ConnMgr.Step.{InStep, fd_of, num_items-length}

abbrev pub Apart : Ptr → List Ptr → Type 0
Apart p [] = Unit {0}
Apart p (p' ∷ ps) = (p ≢ p') × Apart p ps

-- The addresses of a list that are not NULL are those of contexts on the heap, each once.
abbrev pub Owned : World → List Ptr → Type 0
Owned w [] = Unit {0}
Owned w (p ∷ ps) =
    ((p ≡ null) ⊎ ((c : Conn) × (p ≢ null) × (w.contexts p ≡ some c) × Apart p ps)) × Owned w ps

-- The connections torn down, once the one at `p` is: an internal one has no buffers and no mutex.
abbrev pub torn_down : Ptr → Option Conn → List Ptr → List Ptr
torn_down p none ps = ps
torn_down p (some c) ps = if is_inbound c.type then p ∷ ps else ps

-- The world once a connection is closed, torn down and its context freed.
abbrev pub without : Ptr → World → World
without p w = if p == null then w else record w {
  contexts = update w.contexts p none;
  closed = fd_of w p ∷ w.closed;
  destroyed = torn_down p (w.contexts p) w.destroyed;
}

abbrev pub without_all : List Ptr → World → World
without_all [] w = w
without_all (p ∷ ps) w = without_all ps (without p w)

pub destroy_conn-without :
    (w : World) (p : Ptr) (ps : List Ptr) → Owned w (p ∷ ps) → destroy_conn p w ≡ some (without p w)
unfolding destroy_conn
destroy_conn-without w p ps (inl e, owned) = rw e
destroy_conn-without w p ps (inr (c, real, at, apart), owned) =
    let present : (p == null) ≡ false = ground arith in rw (present, at)

pub Owned-update :
    (w : World) (p : Ptr) (fds : List ℤ) (torn ps : List Ptr)
    → Apart p ps
    → Owned w ps
    → Owned (record { contexts = update w.contexts p none; closed = fds; destroyed = torn }) ps
Owned-update w p fds torn [] apart owned = tt
Owned-update w p fds torn (x ∷ ps) (ne, apart) (inl e, owned) =
    (inl e, Owned-update w p fds torn ps apart owned)
Owned-update w p fds torn (x ∷ ps) (ne, apart) (inr (c, real, at, alone), owned) =
    let other : (x == p) ≡ false = ground arith in
    (inr (c, real, rw other at, alone), Owned-update w p fds torn ps apart owned)

pub Owned-without :
    (w : World) (p : Ptr) (ps : List Ptr) → Owned w (p ∷ ps) → Owned (without p w) ps
Owned-without w p ps (inl e, owned) = rw e owned
Owned-without w p ps (inr (c, real, at, apart), owned) =
    let present : (p == null) ≡ false = ground arith in
    rw (present, at)
      (Owned-update w p (fd_of w p ∷ w.closed) (torn_down p (some c) w.destroyed) ps apart owned)

Owned-append : (w : World) (xs ys : List Ptr) → Owned w (xs ++ ys) → Owned (without_all xs w) ys
Owned-append w [] ys owned = owned
Owned-append w (x ∷ xs) ys owned =
    Owned-append (without x w) xs ys (Owned-without w x (xs ++ ys) owned)

without_all-append :
    (w : World) (xs ys : List Ptr) → without_all ys (without_all xs w) ≡ without_all (xs ++ ys) w
without_all-append w [] ys = refl
without_all-append w (x ∷ xs) ys = without_all-append (without x w) xs ys

non_null-cons :
    (p : Ptr) (ps : List Ptr) → (p == null) ≡ false → non_null (p ∷ ps) ≡ p ∷ non_null ps
non_null-cons p ps e = rw e

-- What the callback does on the items of the queue.
notify-without_all :
    (w : World) (ps : List Ptr)
    → Owned w ps
    → notify (some destroy_next) ps (some w) ≡ some (without_all ps w)
notify-without_all w [] owned = refl
notify-without_all w (p ∷ ps) (inl e, owned) = rw e (notify-without_all w ps owned)
notify-without_all w (p ∷ ps) (inr (c, real, at, apart), owned) =
    let present : (p == null) ≡ false = ground arith in
    let one = destroy_conn-without w p ps (inr (c, real, at, apart), owned) in
    ap (λ xs. foldl (λ t x. destroy_next x t) (some w) xs) (non_null-cons p ps present)
    ∙ ap (λ o. foldl (λ t x. destroy_next x t) o (non_null ps)) one
    ∙ notify-without_all (without p w) ps (Owned-without w p ps (inr (c, real, at, apart), owned))

-- The array whose block is `buf`.
abbrev pub with_block : EzArray → List Ptr → EzArray
with_block a buf = record a { pp_buf = buf }

-- One round of the loop: the slot behind `pre` is NULL afterwards.
destroy_loop-suc :
    (a : EzArray) (k : ℕ) (pre : List Ptr) (p : Ptr) (post : List Ptr) (ps : List Ptr) (w : World)
    → length pre < a.num_items
    → a.num_items ≤ a.max_items
    → Owned w (p ∷ ps)
    → destroy_loop (suc k) (length pre) (some (with_block a (pre ++ p ∷ post))) w
      ≡ destroy_loop k (length pre + 1) (some (with_block a (pre ++ null ∷ post))) (without p w)
unfolding destroy_loop get_at set_at
destroy_loop-suc a k pre p post ps w inside count owned =
    rw (found, destroy_conn-without w p ps owned)
      (elim (ℕ_discrete p null) [
        | yes e ↦ rw (e) refl
        | no real ↦ let present : (p == null) ≡ false = ground arith in rw (present, blanked) refl
      ])
  where
    found :
        get_at (some (with_block a (pre ++ p ∷ post))) (length pre) (some null)
        ≡ some (success, some p)
    found = ground (arith, load-append pre p post)

    blanked :
        set_at (some (with_block a (pre ++ p ∷ post))) (length pre) null
        ≡ some (success, some (with_block a (pre ++ null ∷ post)))
    blanked = ground (arith, store-append pre p post null)

destroy_loop-without_all :
    (a : EzArray) (pre ps post : List Ptr) (w : World)
    → length pre + length ps ≤ a.num_items
    → a.num_items ≤ a.max_items
    → Owned w ps
    → destroy_loop (length ps) (length pre) (some (with_block a (pre ++ (ps ++ post)))) w
      ≡ some (some (with_block a (pre ++ (replicate (length ps) null ++ post))), without_all ps w)
unfolding destroy_loop
destroy_loop-without_all a pre [] post w inside count owned = refl
destroy_loop-without_all a pre (p ∷ ps) post w inside count owned =
    destroy_loop-suc a (length ps) pre p (ps ++ post) ps w (omega arith) count owned
    ∙ ap₂ (λ n b. destroy_loop (length ps) n (some (with_block a b)) (without p w))
        (omega (arith, length-snoc pre null)) (sym (append_assoc pre (null ∷ []) (ps ++ post)))
    ∙ destroy_loop-without_all a (pre ++ null ∷ []) ps post (without p w)
        (omega (arith, length-snoc pre null)) count (Owned-without w p ps owned)
    ∙ ap (λ b. some (some (with_block a b), without_all (p ∷ ps) w))
        (append_assoc pre (null ∷ []) (replicate (length ps) null ++ post))

Owned-prefix : (w : World) (xs ys : List Ptr) → Owned w (xs ++ ys) → Owned w xs
Owned-prefix w [] ys owned = tt
Owned-prefix w (x ∷ xs) ys (inl e, owned) = (inl e, Owned-prefix w xs ys owned)
Owned-prefix w (x ∷ xs) ys (inr (c, real, at, apart), owned) =
    (inr (c, real, at, Apart-prefix x xs ys apart), Owned-prefix w xs ys owned)
  where
    Apart-prefix : (p : Ptr) (xs ys : List Ptr) → Apart p (xs ++ ys) → Apart p xs
    Apart-prefix p [] ys apart = tt
    Apart-prefix p (x ∷ xs) ys (ne, apart) = (ne, Apart-prefix p xs ys apart)

-- `connmgr_destroy_all_conns` succeeds on a manager in step: it closes and frees the connections
-- of the array and then those of the queue, an inbound one with its buffers and its mutex, in order, and no other, touching no context that it
-- has freed, and leaves the queue empty. The contexts must be on the heap, each listed once.
pub destroy_all_conns-without_all :
    {w : World} {mgr : ConnMgr} {a : EzArray} {q : EzQueue}
    → InStep w mgr a q
    → Owned w (ArrayOf.contents a ++ QueueOf.contents q)
    → (mgr' : ConnMgr) × (q' : EzQueue) × (destroy_all_conns (some mgr) w
        ≡ some (success, some mgr', without_all (ArrayOf.contents a ++ QueueOf.contents q) w))
      × (mgr'.p_new_conns ≡ some q')
      × (QueueOf.contents q' ≡ [])
unfolding destroy_all_conns
destroy_all_conns-without_all {w} {mgr} {a} {q} s owned =
    let cs = ArrayOf.contents a in
    let spare = ArrayOf.spare a in
    let w1 = without_all cs w in
    let size : length cs ≡ a.num_items = num_items-length s.conns_valid in
    let (q', cleared, v', empty, same) = clear_lem (some destroy_next) (some w1) s.queue_valid in
    let block = replicate (length cs) null ++ spare in
    let looped : destroy_loop mgr.num_active_conns 0 mgr.p_conns w
        ≡ some (some (with_block a block), w1) =
      ap₂ (λ n o. destroy_loop n 0 o w) (s.count_same ∙ sym size)
        (s.conns_at ∙ ap (λ b. some (with_block a b)) (sym (take-append-drop a.num_items a.pp_buf)))
      ∙ destroy_loop-without_all a [] cs spare w (omega (arith, size)) s.conns_valid.count
          (Owned-prefix w cs (QueueOf.contents q) owned) in
    (
      record mgr { p_conns = some (with_block a block); p_new_conns = some q' },
      q',
      rw
          (
            looped,
            s.queue_at,
            cleared,
            notify-without_all w1 (QueueOf.contents q)
                (Owned-append w cs (QueueOf.contents q) owned),
          )
          (ap
            (λ v. some (
              success,
              some (record mgr { p_conns = some (with_block a block); p_new_conns = some q' }),
              v,
            ))
            (without_all-append w cs (QueueOf.contents q))),
      refl,
      empty,
    )
