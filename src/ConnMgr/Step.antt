-- ===== src/ConnMgr/Step.antt =====
-- The connections and the poll entries in step, and what one more entry does to the latter.
use native.Mathlib.Decide.{dec_lt}
use multithreaded_c_server.Common.{
  ℕ, suc, ◌≤◌, ◌<◌, ◌≡◌, refl, sym, ap, subst, ◌∙◌, Option, none, some, List, [], ◌∷◌, ◌++◌, arith,
  map, false, length, length-take, take, set, length-set, take-set_next, take-append, take_all, Ptr,
  Realloc, ReallocLaw, ℤ, pos, success, uint16_max, ◌==◌, if◌then◌else◌,
}
use multithreaded_c_server.Conn.{Conn}
use multithreaded_c_server.EzArray.{EzArray}
use multithreaded_c_server.EzArray.Contents as ArrayOf
use multithreaded_c_server.EzQueue.{EzQueue}
use multithreaded_c_server.EzQueue.Contents as QueueOf
use multithreaded_c_server.ConnMgr.{PollFd, ConnMgr, World}
use multithreaded_c_server.ConnMgr.Update.{is_null_block, new_max, add_to_pollfd}

abbrev pub descriptor : Option Conn → ℤ
descriptor none = pos 0
descriptor (some c) = c.fd

-- The descriptor of the connection at an address, 0 where there is none.
abbrev pub fd_of : World → Ptr → ℤ
fd_of w p = descriptor (w.contexts p)

-- The manager's containers are `a` and `q`, and its entries for poll are those of the connections
-- in `a`, one for each and in the same order.
pub record InStep (w : World) (mgr : ConnMgr) (a : EzArray) (q : EzQueue) : Type 0 where
  pub conns_at : mgr.p_conns ≡ some a
  pub queue_at : mgr.p_new_conns ≡ some q
  pub conns_valid : ArrayOf.IsValid a
  pub queue_valid : QueueOf.IsValid q
  pub room : length mgr.p_pfds ≡ a.max_items
  pub max_same : mgr.max_conns ≡ a.max_items
  pub count_same : mgr.num_active_conns ≡ a.num_items
  pub fds : map PollFd.fd (take a.num_items mgr.p_pfds) ≡ map (fd_of w) (ArrayOf.contents a)

pub num_items-length : {a : EzArray} → ArrayOf.IsValid a → length (ArrayOf.contents a) ≡ a.num_items
num_items-length {a} v = omega (arith, length-take a.num_items a.pp_buf)

pub block_given : (b : List PollFd) → 0 < length b → is_null_block b ≡ false
block_given [] h = elim h [ ]
block_given (x ∷ xs) h = refl

-- A realloc that does not run out of memory.
abbrev pub Grants {ℓ} : {A : Type ℓ} → Realloc A → Type ℓ
Grants {A} realloc = (b : List A) (n : ℕ) → (b' : List A) × (realloc b n ≡ some b')

new_max_bounds : (n : ℕ) → 0 < n → n < uint16_max → n < new_max n
unfolding new_max
new_max_bounds n positive small = ground arith

module _ (realloc : Realloc Ptr) (realloc_pfds : Realloc PollFd) (events : ℕ) where
  abbrev pub entry : ℤ → PollFd
  entry fd = record { fd = fd; events = events; revents = 0 }

  -- What `add_to_pollfd` leaves: an entry behind the others, in a block of the right size.
  abbrev pub Polls : ℤ → List PollFd → (cur max : ℕ) → Type 0
  Polls fd pfds cur max =
      (pfds' : List PollFd) × (add_to_pollfd realloc realloc_pfds events fd pfds cur max
        ≡ some (success, pfds'))
      × (length pfds' ≡ (if cur == max then new_max cur else max))
      × (take (suc cur) pfds' ≡ take cur pfds ++ entry fd ∷ [])

  Polls-room :
      (fd : ℤ) (pfds : List PollFd) (cur max : ℕ)
      → length pfds ≡ max
      → cur < max
      → Polls fd pfds cur max
  unfolding add_to_pollfd
  Polls-room fd pfds cur max size room = (
    set pfds cur (entry fd),
    ground arith,
    ground (arith, length-set pfds cur (entry fd)),
    take-set_next cur pfds (entry fd) (omega arith),
  )

  Polls-growing :
      (fd : ℤ) (pfds block fresh : List PollFd) (cur : ℕ)
      → length pfds ≡ cur
      → 0 < cur
      → cur < uint16_max
      → realloc_pfds pfds (new_max cur) ≡ some block
      → block ≡ pfds ++ fresh
      → length block ≡ new_max cur
      → Polls fd pfds cur cur
  unfolding add_to_pollfd
  Polls-growing fd pfds block fresh cur size positive small given split grown =
      let bounds = new_max_bounds cur positive small in
      (
        set block cur (entry fd),
        ground arith,
        ground (arith, length-set block cur (entry fd)),
        take-set_next cur block (entry fd) (omega arith)
            ∙ ap (λ b. b ++ entry fd ∷ [])
                (ap (take cur) split ∙ take-append cur pfds fresh (omega arith)),
      )

  pub add_to_pollfd-Polls :
      ReallocLaw realloc_pfds
      → Grants realloc_pfds
      → (fd : ℤ) (pfds : List PollFd) (cur max : ℕ) → length pfds ≡ max
      → cur ≤ max
      → 0 < max
      → cur < uint16_max
      → Polls fd pfds cur max
  add_to_pollfd-Polls law grants fd pfds cur max size within positive small =
      elim (dec_lt cur max) [
        | yes room ↦ Polls-room fd pfds cur max size room
        | no full ↦
            let e : cur ≡ max = omega arith in
            let (block, given) = grants pfds (new_max cur) in
            let (fresh, split, grown) = law _ _ _ given in
            let bounds = new_max_bounds cur (omega arith) small in
            subst (λ m. Polls fd pfds cur m) e
              (Polls-growing fd pfds block fresh cur (size ∙ sym e) (omega arith) small given
                (split ∙ ap (λ b. b ++ fresh) (take_all (new_max cur) pfds (omega arith))) grown)
      ]
