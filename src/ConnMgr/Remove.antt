-- ===== src/ConnMgr/Remove.antt =====
-- The connections that were closed are taken out, of the array and of the entries for poll.
use mathlib.Core.List.{append-nil}
use multithreaded_c_server.Common.{
  ℕ, ◌≡◌, refl, sym, ap, subst, ◌∙◌, inl, inr, Bool, not, Bool-cases, some, List, [], ◌∷◌, ◌++◌,
  arith, map, length, length-map, take, drop, take-append-drop, take-append_length,
  drop-append_length, Ptr, null, ℤ, is_zero, is_some, success, to_uint16,
}
use multithreaded_c_server.Compact.{kept, NoneKept, compact_loop}
use multithreaded_c_server.Compact.Rounds.{compact_loop_lem, kept-append, kept_of_NoneKept}
use multithreaded_c_server.EzArray.{EzArray, differs, compact}
use multithreaded_c_server.EzArray.Contents as ArrayOf
use multithreaded_c_server.EzArray.Access.{compact_lem}
use multithreaded_c_server.EzQueue.{EzQueue}
use multithreaded_c_server.ConnMgr.{PollFd, no_poll, ConnMgr, World}
use multithreaded_c_server.ConnMgr.Update.{is_polled, remove_closed_connections}
use multithreaded_c_server.ConnMgr.Step.{InStep, fd_of, num_items-length, block_given}

abbrev pub non_zero : ℤ → Bool
non_zero d = not (is_zero d)

-- The addresses that are not NULL, and no others, are those of connections whose descriptor is not
-- 0, which the code takes for the mark of an empty entry.
abbrev pub Open : World → List Ptr → Type 0
Open w [] = Unit {0}
Open w (p ∷ ps) = (non_zero (fd_of w p) ≡ differs null p) × Open w ps

-- No slot behind the connections, of the array or of the entries for poll, holds anything.
pub record Clean (mgr : ConnMgr) (a : EzArray) : Type 0 where
  pub slots : NoneKept (differs null) (ArrayOf.spare a)
  pub entries : NoneKept is_polled (drop a.num_items mgr.p_pfds)

kept-map {ℓ κ} :
    {A : Type ℓ} {B : Type κ} (f : A → B) (keep : B → Bool) (xs : List A)
    → map f (kept (λ x. keep (f x)) xs) ≡ kept keep (map f xs)
kept-map f keep [] = refl
kept-map f keep (x ∷ xs) = elim (Bool-cases (keep (f x))) [
  | inl e ↦ rw (e, kept-map f keep xs)
  | inr e ↦ rw (e, kept-map f keep xs)
]

kept-Open :
    (w : World) (ps : List Ptr)
    → Open w ps
    → kept (λ p. non_zero (fd_of w p)) ps ≡ kept (differs null) ps
kept-Open w [] open_ones = refl
kept-Open w (p ∷ ps) (same, open_ones) = rw (same, kept-Open w ps open_ones)

kept-take {ℓ} :
    {A : Type ℓ} (keep : A → Bool) (n : ℕ) (xs : List A)
    → NoneKept keep (drop n xs)
    → kept keep xs ≡ kept keep (take n xs)
kept-take keep n xs clean =
    ap (kept keep) (sym (take-append-drop n xs))
    ∙ kept-append keep (take n xs) (drop n xs)
    ∙ ap (◌++◌ (kept keep (take n xs))) (kept_of_NoneKept keep (drop n xs) clean)
    ∙ append-nil (kept keep (take n xs))

-- The entries that are kept are those of the connections that are kept.
kept_fds :
    {w : World} {mgr : ConnMgr} {a : EzArray} {q : EzQueue}
    → InStep w mgr a q
    → Clean mgr a
    → Open w (ArrayOf.contents a)
    → map PollFd.fd (kept is_polled mgr.p_pfds)
      ≡ map (fd_of w) (kept (differs null) (ArrayOf.contents a))
kept_fds {w} {mgr} {a} s clean open_ones =
    ap (map PollFd.fd) (kept-take is_polled a.num_items mgr.p_pfds clean.entries)
    ∙ kept-map PollFd.fd non_zero (take a.num_items mgr.p_pfds)
    ∙ ap (kept non_zero) s.fds
    ∙ sym (kept-map (fd_of w) non_zero (ArrayOf.contents a))
    ∙ ap (map (fd_of w)) (kept-Open w (ArrayOf.contents a) open_ones)

removing :
    {w : World} {mgr : ConnMgr} {a a' : EzArray} {q : EzQueue} {n : ℕ} {pfds : List PollFd}
    → InStep w mgr a q
    → compact (some a) null ≡ some (success, some a')
    → compact_loop is_polled no_poll (length mgr.p_pfds) 0 0 mgr.p_pfds ≡ some (n, pfds)
    → remove_closed_connections mgr
      ≡ some
          (success, record mgr { p_conns = some a'; p_pfds = pfds; num_active_conns = to_uint16 n })
unfolding remove_closed_connections
removing {mgr} {a} s compacted looped = rw (
  ap is_some s.conns_at,
  block_given mgr.p_pfds (omega (arith, s.room, s.conns_valid.positive)),
  s.conns_at,
  compacted,
  s.max_same ∙ sym s.room,
  looped,
)

-- `connmgr_remove_closed_connections` takes out the closed connections, those whose slot is NULL
-- and whose entry for poll has descriptor 0, and leaves the others in their order. The array and
-- the entries stay in step, and nothing is left behind them. It holds if the manager is in step
-- before the call (valid array and queue, an entry for poll with the connection's descriptor for
-- each slot, counts that agree), nothing lies behind the connections, and every slot that is not
-- NULL is that of a connection whose descriptor is not 0, and every NULL slot has descriptor 0 in
-- its entry: a live connection with descriptor 0 would lose its entry and keep its slot.
pub remove_closed_connections-InStep :
    {w : World} {mgr : ConnMgr} {a : EzArray} {q : EzQueue}
    → InStep w mgr a q
    → Clean mgr a
    → Open w (ArrayOf.contents a)
    → (mgr' : ConnMgr) × (a' : EzArray) × (remove_closed_connections mgr ≡ some (success, mgr'))
      × InStep w mgr' a' q
      × (ArrayOf.contents a' ≡ kept (differs null) (ArrayOf.contents a))
      × Clean mgr' a'
remove_closed_connections-InStep {w} {mgr} {a} {q} s clean open_ones =
    let (a', compacted, v', held, slots, size) = compact_lem null s.conns_valid in
    let (tail, looped, none_left, same_size) = compact_loop_lem is_polled no_poll mgr.p_pfds refl in
    let polled = kept is_polled mgr.p_pfds in
    let contents' : ArrayOf.contents a' ≡ kept (differs null) (ArrayOf.contents a) =
      held
      ∙ ap (◌++◌ (kept (differs null) (ArrayOf.contents a)))
          (kept_of_NoneKept (differs null) (ArrayOf.spare a) clean.slots)
      ∙ append-nil (kept (differs null) (ArrayOf.contents a)) in
    let fds = kept_fds s clean open_ones in
    let count : a'.num_items ≡ length polled = omega (
      arith,
      num_items-length v',
      ap length contents',
      ap length fds,
      length-map polled PollFd.fd,
      length-map (kept (differs null) (ArrayOf.contents a)) (fd_of w),
    ) in
    (
      record mgr {
        p_conns = some a';
        p_pfds = polled ++ tail;
        num_active_conns = to_uint16 (length polled);
      },
      a',
      removing s compacted looped,
      record {
        conns_at = refl;
        queue_at = s.queue_at;
        conns_valid = v';
        queue_valid = s.queue_valid;
        room = omega (arith, same_size, s.room, size);
        max_same = omega (arith, s.max_same, size);
        count_same = omega (arith, v'.count, v'.fits);
        fds =
            ap (λ n. map PollFd.fd (take n (polled ++ tail))) count
            ∙ ap (map PollFd.fd) (take-append_length polled tail)
            ∙ fds
            ∙ ap (map (fd_of w)) (sym contents');
      },
      contents',
      record {
        slots = slots;
        entries =
            subst (NoneKept is_polled)
              (sym (ap (λ n. drop n (polled ++ tail)) count ∙ drop-append_length polled tail))
              none_left;
      },
    )
