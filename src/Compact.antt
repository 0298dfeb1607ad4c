-- ===== src/Compact.antt =====
-- The in-place compaction that ezarray.c and connmgr.c both write out: the slots that are kept
-- move to the front in their order, and each slot that was moved away is blanked.
pub mod Rounds
use multithreaded_c_server.Common.{
  ℕ, zero, suc, ◌+◌, ◌≡◌, Bool, true, false, Option, some, List, [], ◌∷◌, load, store, ◌>>=◌, ◌==◌,
  if◌then◌else◌,
}

module _ {ℓ} {A : Type ℓ} (keep : A → Bool) where
  -- The slots that are kept, in order.
  abbrev pub kept : List A → List A
  kept [] = []
  kept (x ∷ xs) = if keep x then x ∷ kept xs else kept xs

  -- No slot of the list would be kept.
  abbrev pub NoneKept : List A → Type 0
  NoneKept [] = Unit {0}
  NoneKept (x ∷ xs) = (keep x ≡ false) × NoneKept xs

  module _ (blank : A) where
    -- One round of the loop, on the item that `read_idx` holds.
    unfoldable pub compact_slot : A → (read_idx write_idx : ℕ) → List A → Option (ℕ × List A)
    compact_slot item read_idx write_idx buf =
        if keep item
        then if write_idx == read_idx
          then some (write_idx + 1, buf)
          else (store buf write_idx item >>= λ buf1.
              store buf1 read_idx blank >>= λ buf2. some (write_idx + 1, buf2))
        else some (write_idx, buf)

    -- The loop at `read_idx` and `write_idx`, with `k` rounds left. It returns `write_idx`.
    unfoldable pub compact_loop : (k read_idx write_idx : ℕ) → List A → Option (ℕ × List A)
    unfolding compact_slot
    compact_loop zero read_idx write_idx buf = some (write_idx, buf)
    compact_loop (suc k) read_idx write_idx buf = do
      item ← load buf read_idx
      (write_idx', buf') ← compact_slot item read_idx write_idx buf
      compact_loop k (read_idx + 1) write_idx' buf'
