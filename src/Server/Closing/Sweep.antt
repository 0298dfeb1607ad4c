-- ===== src/Server/Closing/Sweep.antt =====
-- The loop that closes connections.
use mathlib.Core.List.{append_assoc}
use multithreaded_c_server.Common.{
  ℕ, suc, ◌+◌, ◌≡◌, ◌≢◌, ◌<◌, refl, sym, ap, ap₂, subst, ◌∙◌, inl, inr, arith, Bool, Bool-cases,
  true, false, Option, none, some, List, [], ◌∷◌, ◌++◌, length, length-append, length-snoc, get_or,
  get_or-take, get_or-append, if◌then◌else◌, ◌==◌, Ptr, null, success,
}
use multithreaded_c_server.Compact.{kept}
use multithreaded_c_server.Conn.{Conn}
use multithreaded_c_server.EzArray.{EzArray, get_at}
use multithreaded_c_server.EzArray.Access.{get_at_lem}
use multithreaded_c_server.EzArray.Contents as ArrayOf
use multithreaded_c_server.EzQueue.{EzQueue}
use multithreaded_c_server.ConnMgr.{ConnMgr, World}
use multithreaded_c_server.ConnMgr.Step.{num_items-length}
use multithreaded_c_server.ConnMgr.Destroy.{Apart, Owned, without, without_all}
use multithreaded_c_server.Server.Closing.{LockResults, closable, close_slot, close_loop}
use multithreaded_c_server.Server.Closing.Step.{
  Tidy, blanked, Apart-behind, Apart-prefix, close_slot-Tidy,
}

abbrev pub closes_context : LockResults → Ptr → Option Conn → Bool
closes_context locks p none = false
closes_context locks p (some c) = closable locks p c

-- Whether the connection at an address is to be closed.
abbrev pub closes : LockResults → World → Ptr → Bool
closes locks w p = closes_context locks p (w.contexts p)

-- The slots of the connections afterwards.
abbrev pub swept : LockResults → World → List Ptr → List Ptr
swept locks w [] = []
swept locks w (p ∷ ps) = (if closes locks w p then null else p) ∷ swept locks w ps

-- The world afterwards.
abbrev pub left : LockResults → World → List Ptr → World
left locks w ps = without_all (kept (closes locks w) ps) w

-- The addresses are those of contexts on the heap.
abbrev pub Present : World → List Ptr → Type 0
Present w [] = Unit {0}
Present w (p ∷ ps) = ((c : Conn) × (p ≢ null) × (w.contexts p ≡ some c)) × Present w ps

module _ (w : World) (p : Ptr) where
  pub contexts-without : (x : Ptr) → p ≢ x → (without p w).contexts x ≡ w.contexts x
  contexts-without x other = elim (Bool-cases (p == null)) [
    | inl e ↦ rw e refl
    | inr e ↦ let apart : (x == p) ≡ false = ground arith in rw (e, apart) refl
  ]

  pub Present-without : (xs : List Ptr) → Apart p xs → Present w xs → Present (without p w) xs
  Present-without [] apart here = tt
  Present-without (x ∷ xs) (ne, apart) ((c, real, at), others) =
      ((c, real, contexts-without x ne ∙ at), Present-without xs apart others)

  swept-without :
      (locks : LockResults) (xs : List Ptr)
      → Apart p xs
      → swept locks (without p w) xs ≡ swept locks w xs
  swept-without locks [] apart = refl
  swept-without locks (x ∷ xs) (ne, apart) =
      ap₂ ◌∷◌ (ap (λ o. if closes_context locks x o then null else x) (contexts-without x ne))
        (swept-without locks xs apart)

  kept-without :
      (locks : LockResults) (xs : List Ptr)
      → Apart p xs
      → kept (closes locks (without p w)) xs ≡ kept (closes locks w) xs
  kept-without locks [] apart = refl
  kept-without locks (x ∷ xs) (ne, apart) =
      ap₂ (λ o ys. if closes_context locks x o then x ∷ ys else ys) (contexts-without x ne)
        (kept-without locks xs apart)

found_at :
    (mgr : ConnMgr) {a : EzArray} (p : Ptr) (pre rest : List Ptr)
    → mgr.p_conns ≡ some a
    → ArrayOf.IsValid a
    → ArrayOf.contents a ≡ pre ++ p ∷ rest
    → get_at mgr.p_conns (length pre) (some null) ≡ some (success, some p)
found_at mgr {a} p pre rest given v here =
    let below : length pre < a.num_items =
      omega (arith, ap length here, length-append pre (p ∷ rest), num_items-length v) in
    elim (get_at_lem (length pre) null v) [
      | inl (inside, e) ↦
          ap (λ o. get_at o (length pre) (some null)) given
          ∙ e
          ∙ ap (λ x. some (success, some x))
              (sym (get_or-take a.num_items (length pre) a.pp_buf null below)
                ∙ ap (λ xs. get_or xs (length pre) null) here
                ∙ get_or-append pre p rest null)
      | inr (outside, e) ↦ absurd (omega (arith, v.count))
    ]

-- What the loop over `post`, behind `pre`, leaves.
abbrev pub Sweeps :
    LockResults
    → World
    → (pre post more : List Ptr) → EzQueue
    → Option (Bool × ConnMgr × World)
    → Type 0
Sweeps locks w pre post more q out =
    (mgr' : ConnMgr) × (a' : EzArray) × (out ≡ some (true, mgr', left locks w post))
    × Tidy (left locks w post) mgr' a' q
    × (ArrayOf.contents a' ≡ pre ++ swept locks w post)
    × Owned (left locks w post) (pre ++ (swept locks w post ++ more))

one_further : (pre : List Ptr) (x : Ptr) → length pre + 1 ≡ length (pre ++ x ∷ [])
one_further pre x = omega (arith, length-snoc pre x)

-- A first round that leaves `x` in its slot, and the rest of the loop.
then_rest :
    (locks : LockResults) (w w' : World) (pre rest more : List Ptr) (p x : Ptr) (q : EzQueue)
    (mgr : ConnMgr)
    → left locks w' rest ≡ left locks w (p ∷ rest)
    → x ∷ swept locks w' rest ≡ swept locks w (p ∷ rest)
    → Sweeps locks w'
        (pre ++ x ∷ [])
        rest
        more
        q
        (close_loop locks (length rest) (length (pre ++ x ∷ [])) mgr w')
    → Sweeps locks w pre (p ∷ rest) more q (close_loop locks (length rest) (length pre + 1) mgr w')
then_rest locks w w' pre rest more p x q mgr worlds slots (mgr', a', e, t, held, owned) = (
  mgr',
  a',
  ap (λ n. close_loop locks (length rest) n mgr w') (one_further pre x)
      ∙ e
      ∙ ap (λ v. some (true, mgr', v)) worlds,
  subst (λ v. Tidy v mgr' a' q) worlds t,
  held ∙ append_assoc pre (x ∷ []) (swept locks w' rest) ∙ ap (◌++◌ pre) slots,
  subst (λ v. Owned v (pre ++ (swept locks w (p ∷ rest) ++ more))) worlds
      (subst (Owned (left locks w' rest))
        (append_assoc pre (x ∷ []) (swept locks w' rest ++ more)
          ∙ ap (λ xs. pre ++ (xs ++ more)) slots)
        owned),
)

close_loop-suc :
    (locks : LockResults) (k n : ℕ) (mgr mgr' : ConnMgr) (w w' : World) (p : Ptr) (c : Conn)
    → get_at mgr.p_conns n (some null) ≡ some (success, some p)
    → w.contexts p ≡ some c
    → (if closable locks p c then close_slot n p mgr w else some (mgr, w)) ≡ some (mgr', w')
    → close_loop locks (suc k) n mgr w ≡ close_loop locks k (n + 1) mgr' w'
unfolding close_loop
close_loop-suc locks k n mgr mgr' w w' p c found at next = rw (found, at, next) refl

pub close_loop-Sweeps :
    (locks : LockResults) (post pre more : List Ptr) {w : World} {mgr : ConnMgr} {a : EzArray}
    {q : EzQueue}
    → Tidy w mgr a q
    → ArrayOf.contents a ≡ pre ++ post
    → Owned w (pre ++ (post ++ more))
    → Present w post
    → Sweeps locks w pre post more q (close_loop locks (length post) (length pre) mgr w)
unfolding close_loop
close_loop-Sweeps locks [] pre more {mgr} {a} t here owned present = (mgr, a, refl, t, here, owned)
close_loop-Sweeps locks (p ∷ rest) pre more {w} {mgr} {a} {q} t here owned
      ((c, real, at), present) =
    let found = found_at mgr p pre rest t.in_step.conns_at t.in_step.conns_valid here in
    let behind = Apart-prefix p rest more (Apart-behind w p real pre (rest ++ more) owned) in
    elim (Bool-cases (closable locks p c)) [
      | inl e ↦
          let test : closes locks w p ≡ true = ap (closes_context locks p) at ∙ e in
          let (closed, t', held, owned') = close_slot-Tidy p pre rest more t real here owned in
          subst (Sweeps locks w pre (p ∷ rest) more q)
            (sym (
              close_loop-suc locks (length rest) (length pre) mgr (blanked mgr a (length pre)) w
                (without p w) p c found at
                (ap (λ b. if b then close_slot (length pre) p mgr w else some (mgr, w)) e
                  ∙ closed)))
            (then_rest locks w (without p w) pre rest more p null q (blanked mgr a (length pre))
              (ap (λ xs. without_all xs (without p w)) (kept-without w p locks rest behind)
                ∙ sym (
                    ap
                      (λ b.
                        without_all
                          (if b then p ∷ kept (closes locks w) rest else kept (closes locks w) rest)
                          w)
                      test))
              (ap₂ ◌∷◌ (sym (ap (λ b. if b then null else p) test))
                (swept-without w p locks rest behind))
              (close_loop-Sweeps locks rest (pre ++ null ∷ []) more t'
                (held ∙ sym (append_assoc pre (null ∷ []) rest))
                (subst (Owned (without p w)) (sym (append_assoc pre (null ∷ []) (rest ++ more)))
                  owned')
                (Present-without w p rest behind present)))
      | inr e ↦
          let test : closes locks w p ≡ false = ap (closes_context locks p) at ∙ e in
          subst (Sweeps locks w pre (p ∷ rest) more q)
            (sym (
              close_loop-suc locks (length rest) (length pre) mgr mgr w w p c found at
                (ap (λ b. if b then close_slot (length pre) p mgr w else some (mgr, w)) e)))
            (then_rest locks w w pre rest more p p q mgr
              (sym (
                ap
                  (λ b.
                    without_all
                      (if b then p ∷ kept (closes locks w) rest else kept (closes locks w) rest) w)
                  test))
              (ap (λ b. (if b then null else p) ∷ swept locks w rest) (sym test))
              (close_loop-Sweeps locks rest (pre ++ p ∷ []) more t
                (here ∙ sym (append_assoc pre (p ∷ []) rest))
                (subst (Owned w) (sym (append_assoc pre (p ∷ []) (rest ++ more))) owned) present))
    ]
