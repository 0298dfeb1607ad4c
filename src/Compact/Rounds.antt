-- ===== src/Compact/Rounds.antt =====
-- What the compaction loop leaves of a block.
use mathlib.Core.List.{append_assoc, append-nil}
use multithreaded_c_server.Common.{
  ℕ, suc, ◌+◌, ◌≡◌, refl, sym, ap, ap₂, ◌∙◌, inl, inr, Bool, true, false, Option, some, List, [],
  ◌∷◌, ◌++◌, arith, ◌==◌, Bool-cases, length, length-append, store-append, load-append_two,
  store-append_two, length-snoc,
}
use multithreaded_c_server.Compact.{kept, NoneKept, compact_slot, compact_loop}

module _ {ℓ} {A : Type ℓ} (keep : A → Bool) where
  pub NoneKept-append :
      (xs ys : List A) → NoneKept keep xs → NoneKept keep ys → NoneKept keep (xs ++ ys)
  NoneKept-append [] ys p q = q
  NoneKept-append (x ∷ xs) ys p q = (p.0, NoneKept-append xs ys p.1 q)

  pub kept-append : (xs ys : List A) → kept keep (xs ++ ys) ≡ kept keep xs ++ kept keep ys
  kept-append [] ys = refl
  kept-append (x ∷ xs) ys = elim (Bool-cases (keep x)) [
    | inl e ↦ rw e (ap (◌∷◌ x) (kept-append xs ys))
    | inr e ↦ rw e (kept-append xs ys)
  ]

  pub kept_of_NoneKept : (xs : List A) → NoneKept keep xs → kept keep xs ≡ []
  kept_of_NoneKept [] p = refl
  kept_of_NoneKept (x ∷ xs) p = rw (p.0) (kept_of_NoneKept xs p.1)

  regroup :
      (pre : List A) (x : A) (rest tail : List A)
      → ◌≡◌ {A = Option (ℕ × List A)}
          (some (
            length ((pre ++ kept keep (x ∷ [])) ++ kept keep rest),
            (pre ++ kept keep (x ∷ [])) ++ (kept keep rest ++ tail),
          ))
          (some (length (pre ++ kept keep (x ∷ rest)), pre ++ (kept keep (x ∷ rest) ++ tail)))
  regroup pre x rest tail =
      ap₂ (λ (n : ℕ) (b : List A). some (n, b))
        (ap length (append_assoc pre one (kept keep rest) ∙ ap (◌++◌ pre) (sym split)))
        (append_assoc pre one (kept keep rest ++ tail)
          ∙ ap (◌++◌ pre)
              (sym (append_assoc one (kept keep rest) tail) ∙ ap (λ b. b ++ tail) (sym split)))
    where
      one : List A
      one = kept keep (x ∷ [])

      split : kept keep (x ∷ rest) ≡ one ++ kept keep rest
      split = kept-append (x ∷ []) rest

  kept_size :
      (x : A) (rest tail all : List A)
      → length (kept keep (x ∷ [])) + length (kept keep rest ++ tail) ≡ length all
      → length (kept keep (x ∷ rest) ++ tail) ≡ length all
  kept_size x rest tail all e = omega (
    arith,
    ap length (kept-append (x ∷ []) rest),
    length-append (kept keep (x ∷ [])) (kept keep rest),
    length-append (kept keep (x ∷ rest)) tail,
    length-append (kept keep rest) tail,
  )

  module _ (blank : A) where
    -- What one round does to a block of `pre ++ gap ++ x ∷ rest`, of which the loop has passed
    -- `pre`, the slots kept keep so far, and `gap`, where nothing is to be kept.
    record Round (pre gap : List A) (x : A) (rest : List A) (out : Option (ℕ × List A))
        : Type ℓ where
      gap' : List A
      result :
          out
          ≡ some (length (pre ++ kept keep (x ∷ [])), (pre ++ kept keep (x ∷ [])) ++ (gap' ++ rest))
      none_kept : NoneKept keep gap'
      read_next : length (pre ++ kept keep (x ∷ [])) + length gap' ≡ length pre + length gap + 1
      size : length (kept keep (x ∷ [])) + length gap' ≡ suc (length gap)

    Round-skip :
        (pre gap : List A) (x : A) (rest : List A)
        → NoneKept keep gap
        → keep x ≡ false
        → Round pre gap x rest (
            compact_slot keep blank x
              (length pre + length gap)
              (length pre)
              (pre ++ (gap ++ x ∷ rest)))
    unfolding compact_slot
    Round-skip pre gap x rest clean e = record {
      gap' = gap ++ x ∷ [];
      result =
          rw (e, append-nil pre)
            (ap (λ b. some (length pre, pre ++ b)) (sym (append_assoc gap (x ∷ []) rest)));
      none_kept = NoneKept-append gap (x ∷ []) clean (e, tt);
      read_next = rw (e, append-nil pre) (omega (arith, length-snoc gap x));
      size = rw e (omega (arith, length-snoc gap x));
    }

    Round-keep :
        (pre gap : List A) (x : A) (rest : List A)
        → keep blank ≡ false
        → NoneKept keep gap
        → keep x ≡ true
        → Round pre gap x rest (
            compact_slot keep blank x
              (length pre + length gap)
              (length pre)
              (pre ++ (gap ++ x ∷ rest)))
    unfolding compact_slot
    Round-keep pre [] x rest off clean e = record {
      gap' = [];
      result =
          rw (e, here)
            (ap₂ (λ (n : ℕ) (b : List A). some (n, b)) (omega (arith, length-snoc pre x))
              (sym (append_assoc pre (x ∷ []) rest)));
      none_kept = tt;
      read_next = rw e (omega (arith, length-snoc pre x));
      size = rw e refl;
    }
      where
        here : (length pre == length pre + 0) ≡ true
        here = ground arith
    Round-keep pre (g ∷ gap) x rest off clean e = record {
      gap' = gap ++ blank ∷ [];
      result =
          rw
            (
              e,
              apart,
              store-append pre g (gap ++ x ∷ rest) x,
              store-append_two pre (x ∷ gap) x rest blank,
            )
            (ap₂ (λ (n : ℕ) (b : List A). some (n, b)) (omega (arith, length-snoc pre x))
              (sym (
                append_assoc pre (x ∷ []) ((gap ++ blank ∷ []) ++ rest)
                ∙ ap (λ b. pre ++ x ∷ b) (append_assoc gap (blank ∷ []) rest))));
      none_kept = NoneKept-append gap (blank ∷ []) clean.1 (off, tt);
      read_next = rw e (omega (arith, length-snoc pre x, length-snoc gap blank));
      size = rw e (omega (arith, length-snoc gap blank));
    }
      where
        apart : (length pre == length pre + suc (length gap)) ≡ false
        apart = ground arith

    compact_slot-Round :
        (pre gap : List A) (x : A) (rest : List A)
        → keep blank ≡ false
        → NoneKept keep gap
        → Round pre gap x rest (
            compact_slot keep blank x
              (length pre + length gap)
              (length pre)
              (pre ++ (gap ++ x ∷ rest)))
    compact_slot-Round pre gap x rest off clean = elim (Bool-cases (keep x)) [
      | inl e ↦ Round-keep pre gap x rest off clean e
      | inr e ↦ Round-skip pre gap x rest clean e
    ]

    -- What the loop leaves of a block of `pre ++ gap ++ rest`, of which it has passed `pre`, the
    -- slots kept keep so far, and `gap`, where nothing is to be kept.
    abbrev pub Compacts : List A → List A → List A → Option (ℕ × List A) → Type ℓ
    Compacts pre gap rest out =
        (tail : List A) × (out
          ≡ some (length (pre ++ kept keep rest), pre ++ (kept keep rest ++ tail)))
        × NoneKept keep tail
        × (length (kept keep rest ++ tail) ≡ length (gap ++ rest))

    pub compact_loop-Compacts :
        (pre gap rest : List A)
        → keep blank ≡ false
        → NoneKept keep gap
        → Compacts pre gap rest (
            compact_loop keep blank
              (length rest)
              (length pre + length gap)
              (length pre)
              (pre ++ (gap ++ rest)))
    unfolding compact_loop
    compact_loop-Compacts pre gap [] off clean = (
      gap,
      ap₂ (λ (n : ℕ) (b : List A). some (n, b)) (sym (ap length (append-nil pre)))
          (ap (◌++◌ pre) (append-nil gap)),
      clean,
      sym (ap length (append-nil gap)),
    )
    compact_loop-Compacts pre gap (x ∷ rest) off clean =
        let r = compact_slot-Round pre gap x rest off clean in
        let (tail, e, none_left, size) =
          compact_loop-Compacts (pre ++ kept keep (x ∷ [])) r.gap' rest off r.none_kept in
        (
          tail,
          rw (load-append_two pre gap x rest, r.result, ← r.read_next)
              (e ∙ regroup pre x rest tail),
          none_left,
          kept_size x rest tail (gap ++ x ∷ rest) (
              omega (
                arith,
                size,
                r.size,
                length-append r.gap' rest,
                length-append gap (x ∷ rest),
                length-append (kept keep rest) tail,
              )),
        )

    -- The whole loop: the slots that are kept keep come first, in their order, and behind them
    -- there is none.
    pub compact_loop_lem :
        (buf : List A)
        → keep blank ≡ false
        → (tail : List A) × (compact_loop keep blank (length buf) 0 0 buf
            ≡ some (length (kept keep buf), kept keep buf ++ tail))
          × NoneKept keep tail
          × (length (kept keep buf ++ tail) ≡ length buf)
    compact_loop_lem buf off = compact_loop-Compacts [] [] buf off tt
