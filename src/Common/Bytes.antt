-- ===== src/Common/Bytes.antt =====
-- Bytes in memory: blocks of them written at an offset, 16-bit fields, and the byte order of the
-- network.
use mathlib.Core.List.{append_assoc, append-nil}
use native.Mathlib.Decide.{dec_lt}
use Prim.Native.Nat.{ℕ, suc, ◌+◌, ◌*◌, ◌/◌, ◌%◌, ◌≤◌, ◌<◌}
use mathlib.Core.Path.{◌≡◌, refl, sym, ap, ◌∙◌}
use mathlib.Core.Option.{Option, none, some}
use mathlib.Core.List.{List, [], ◌∷◌, ◌++◌}
use native.Mathlib.Omega.{arith}
use multithreaded_c_server.Common.Lists.{length, set, take, length-set}
use multithreaded_c_server.Common.Memory.{store, ◌>>=◌}
use multithreaded_c_server.Common.Positions.{store_inside, store_outside}
use multithreaded_c_server.Common.Slices.{take-set_next}

module _ {ℓ} {A : Type ℓ} where
  -- `memcpy(buf + off, xs, …)`: slot by slot, so that a copy past the end of the block faults.
  unfoldable pub copy_in : List A → ℕ → List A → Option (List A)
  copy_in buf off [] = some buf
  copy_in buf off (x ∷ xs) = store buf off x >>= λ buf'. copy_in buf' (off + 1) xs

  -- The block after a copy that fits.
  pub overlay : List A → ℕ → List A → List A
  overlay buf off [] = buf
  overlay buf off (x ∷ xs) = overlay (set buf off x) (off + 1) xs

  pub overlay-nil : (buf : List A) (off : ℕ) → overlay buf off [] ≡ buf
  unfolding overlay
  overlay-nil buf off = refl

  pub length-overlay :
      (buf : List A) (off : ℕ) (xs : List A) → length (overlay buf off xs) ≡ length buf
  unfolding overlay
  length-overlay buf off [] = refl
  length-overlay buf off (x ∷ xs) =
      length-overlay (set buf off x) (off + 1) xs ∙ length-set buf off x

  pub copy_in-overlay :
      (buf : List A) (off : ℕ) (xs : List A)
      → off + length xs ≤ length buf
      → copy_in buf off xs ≡ some (overlay buf off xs)
  unfolding copy_in overlay
  copy_in-overlay buf off [] h = refl
  copy_in-overlay buf off (x ∷ xs) h =
      rw (store_inside buf off x (omega arith))
        (copy_in-overlay (set buf off x) (off + 1) xs (omega (arith, length-set buf off x)))

  -- A copy that goes past the end of the block is a fault.
  pub copy_in_fault :
      (buf : List A) (off : ℕ) (xs : List A)
      → length buf < off + length xs
      → off ≤ length buf
      → copy_in buf off xs ≡ none
  unfolding copy_in
  copy_in_fault buf off [] h k = absurd (omega arith)
  copy_in_fault buf off (x ∷ xs) h k = elim (dec_lt off (length buf)) [
    | yes inside ↦ rw (store_inside buf off x inside) (
        copy_in_fault (set buf off x) (off + 1) xs (omega (arith, length-set buf off x))
          (omega (arith, length-set buf off x)))
    | no outside ↦ rw (store_outside buf off x (omega arith))
  ]

  pub overlay-append :
      (buf : List A) (off : ℕ) (xs ys : List A)
      → overlay buf off (xs ++ ys) ≡ overlay (overlay buf off xs) (off + length xs) ys
  unfolding overlay
  overlay-append buf off [] ys = ap (λ n. overlay buf n ys) (omega arith)
  overlay-append buf off (x ∷ xs) ys =
      overlay-append (set buf off x) (off + 1) xs ys
      ∙ ap (λ n. overlay (overlay (set buf off x) (off + 1) xs) n ys) (omega arith)

  -- The block then begins with what was there up to `off`, and with what was copied.
  pub take-overlay :
      (buf : List A) (off : ℕ) (xs : List A)
      → off + length xs ≤ length buf
      → take (off + length xs) (overlay buf off xs) ≡ take off buf ++ xs
  unfolding overlay
  take-overlay buf off [] h =
      ap (λ n. take n buf) {y = off} (omega arith) ∙ sym (append-nil (take off buf))
  take-overlay buf off (x ∷ xs) h =
      ap (λ n. take n (overlay (set buf off x) (off + 1) xs)) {y = off + 1 + length xs}
        (omega arith)
      ∙ take-overlay (set buf off x) (off + 1) xs (omega (arith, length-set buf off x))
      ∙ ap (λ b. b ++ xs)
          (ap (λ n. take n (set buf off x)) {y = suc off} (omega arith)
            ∙ take-set_next off buf x (omega arith))
      ∙ append_assoc (take off buf) (x ∷ []) xs

abbrev pub Byte : Type 0
Byte = ℕ

-- A `uint16_t` in memory, on the little-endian machines that the code is written for: the low
-- byte first.
abbrev pub to_word : Byte → Byte → ℕ
to_word low high = low + 256 * high

abbrev pub low_byte : ℕ → Byte
low_byte w = w % 256

abbrev pub high_byte : ℕ → Byte
high_byte w = w / 256 % 256

-- `htons` and `ntohs`, of which POSIX says that they convert between the order of the host and
-- that of the network, where the high byte comes first.
pub record ByteOrder : Type 0 where
  pub htons : ℕ → ℕ
  pub ntohs : ℕ → ℕ
  pub htons_word : (a b : Byte) → a < 256 → b < 256 → htons (256 * a + b) ≡ to_word a b
  pub ntohs_word : (a b : Byte) → a < 256 → b < 256 → ntohs (to_word a b) ≡ 256 * a + b
