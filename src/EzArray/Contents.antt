-- ===== src/EzArray/Contents.antt =====
-- What an `ezarray_t` holds, and what push, set, get and compact do to it.
use multithreaded_c_server.Common.{◌≤◌, ◌<◌, ◌≡◌, List, length, take, drop, Ptr, uint16_max}
use multithreaded_c_server.EzArray.{EzArray}

-- The invariant of an array between `ezarr_init` and `ezarr_deinit`.
pub record IsValid (a : EzArray) : Type 0 where
  pub storage : length a.pp_buf ≡ a.max_items
  pub positive : 0 < a.max_items
  pub fits : a.max_items ≤ uint16_max
  pub count : a.num_items ≤ a.max_items

-- The items, and the slots behind them.
abbrev pub contents : EzArray → List Ptr
contents a = take a.num_items a.pp_buf

abbrev pub spare : EzArray → List Ptr
spare a = drop a.num_items a.pp_buf
