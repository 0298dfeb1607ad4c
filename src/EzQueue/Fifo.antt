-- ===== src/EzQueue/Fifo.antt =====
-- The queue that `ezqueue_t` promises: a first-in-first-out list under a capacity that grows by
-- doubling, up to 65535.
use multithreaded_c_server.Common.{
  ℕ, ◌≡◌, ◌≢◌, ◌⊎◌, arith, Bool, true, false, Option, none, some, List, [], ◌∷◌, ◌++◌, length, Ptr,
  ℤ, success, failure, uint16_max, ◌==◌, if◌then◌else◌,
}
use multithreaded_c_server.EzQueue.{grown}

pub record Fifo : Type 0 where
  pub capacity : ℕ
  pub waiting : List Ptr

-- `granted` says whether memory for a larger buffer can be had.
unfoldable pub put : (granted : Bool) → Fifo → Ptr → ℤ × Fifo
put granted f item =
    if length f.waiting == f.capacity
    then if f.capacity == uint16_max
      then (failure, f)
      else if granted
      then (success, record f { capacity = grown f.capacity; waiting = f.waiting ++ item ∷ [] })
      else (failure, f)
    else (success, record f { waiting = f.waiting ++ item ∷ [] })

take_from : List Ptr → ℕ → ℤ × Option Ptr × Fifo
take_from [] capacity = (failure, none, record { capacity = capacity; waiting = [] })
take_from (x ∷ xs) capacity = (success, some x, record { capacity = capacity; waiting = xs })

-- The oldest item, if there is one.
unfoldable pub get : Fifo → ℤ × Option Ptr × Fifo
unfolding take_from
get f = take_from f.waiting f.capacity

pub put_with_room :
    (granted : Bool) (f : Fifo) (item : Ptr)
    → length f.waiting ≢ f.capacity
    → put granted f item ≡ (success, record f { waiting = f.waiting ++ item ∷ [] })
unfolding put
put_with_room granted f item room = ground arith

pub put_resizing :
    (f : Fifo) (item : Ptr)
    → length f.waiting ≡ f.capacity
    → f.capacity ≢ uint16_max
    → put true f item
      ≡ (success, record f { capacity = grown f.capacity; waiting = f.waiting ++ item ∷ [] })
unfolding put
put_resizing f item full small = ground arith

pub put_refused :
    (granted : Bool) (f : Fifo) (item : Ptr)
    → length f.waiting ≡ f.capacity
    → (f.capacity ≡ uint16_max) ⊎ (granted ≡ false)
    → put granted f item ≡ (failure, f)
unfolding put
put_refused granted f item full why = ground arith

pub get_nothing : (f : Fifo) → length f.waiting ≡ 0 → get f ≡ (failure, none, f)
unfolding get
get_nothing f e = ground arith
