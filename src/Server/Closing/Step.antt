-- ===== src/Server/Closing/Step.antt =====
-- One connection is closed.
use multithreaded_c_server.Common.{
  ℕ, zero, suc, ◌≡◌, ◌≢◌, ◌<◌, refl, sym, ap, ap₂, subst, ◌∙◌, inl, inr, arith, false, none, some,
  List, [], ◌∷◌, ◌++◌, map, length, length-append, length-set, set, take, drop, take-set,
  set-append, lt→ltb, ◌==◌, Ptr, null, pos, success,
}
use multithreaded_c_server.Compact.{NoneKept}
use multithreaded_c_server.EzArray.{EzArray, set_at, differs}
use multithreaded_c_server.EzArray.Contents as ArrayOf
use multithreaded_c_server.EzQueue.{EzQueue}
use multithreaded_c_server.ConnMgr.{PollFd, no_poll, ConnMgr, World}
use multithreaded_c_server.ConnMgr.Update.{is_polled}
use multithreaded_c_server.ConnMgr.Step.{InStep, fd_of, descriptor, num_items-length}
use multithreaded_c_server.ConnMgr.Remove.{Clean, Open, non_zero}
use multithreaded_c_server.ConnMgr.Destroy.{
  Apart, Owned, without, destroy_conn-without, Owned-without,
}
use multithreaded_c_server.Server.Closing.{blank_entry, close_slot}

-- The manager is in step, nothing lies behind its connections, and nothing at NULL.
pub record Tidy (w : World) (mgr : ConnMgr) (a : EzArray) (q : EzQueue) : Type 0 where
  pub in_step : InStep w mgr a q
  pub clean : Clean mgr a
  pub open_ones : Open w (ArrayOf.contents a)
  pub no_null : w.contexts null ≡ none

module _ (w : World) (p : Ptr) (real : p ≢ null) where
  fd_of-without : (x : Ptr) → p ≢ x → fd_of (without p w) x ≡ fd_of w x
  fd_of-without x other =
      let present : (p == null) ≡ false = ground arith in
      let apart : (x == p) ≡ false = ground arith in rw (present, apart) refl

  without-null : w.contexts null ≡ none → (without p w).contexts null ≡ none
  without-null e =
      let present : (p == null) ≡ false = ground arith in
      let apart : (null == p) ≡ false = ground arith in rw (present, apart) e

  map-fd_of-without : (xs : List Ptr) → Apart p xs → map (fd_of (without p w)) xs ≡ map (fd_of w) xs
  map-fd_of-without [] apart = refl
  map-fd_of-without (x ∷ xs) (ne, apart) = rw (fd_of-without x ne, map-fd_of-without xs apart) refl

  Open-Apart : (xs : List Ptr) → Apart p xs → Open w xs → Open (without p w) xs
  Open-Apart [] apart open_ones = tt
  Open-Apart (x ∷ xs) (ne, apart) (here, others) =
      (ap non_zero (fd_of-without x ne) ∙ here, Open-Apart xs apart others)

  Open-without :
      (pre rest : List Ptr)
      → w.contexts null ≡ none
      → Apart p pre
      → Apart p rest
      → Open w (pre ++ p ∷ rest)
      → Open (without p w) (pre ++ null ∷ rest)
  Open-without [] rest e apart behind (here, others) =
      (ap (λ o. non_zero (descriptor o)) (without-null e), Open-Apart rest behind others)
  Open-without (x ∷ pre) rest e (ne, apart) behind (here, others) =
      (ap non_zero (fd_of-without x ne) ∙ here, Open-without pre rest e apart behind others)

  -- The descriptors of the connections, once that of `p` is blanked.
  fds-without :
      (pre rest : List Ptr)
      → w.contexts null ≡ none
      → Apart p pre
      → Apart p rest
      → set (map (fd_of w) (pre ++ p ∷ rest)) (length pre) (pos 0)
        ≡ map (fd_of (without p w)) (pre ++ null ∷ rest)
  fds-without [] rest e apart behind =
      ap₂ ◌∷◌ (sym (ap descriptor (without-null e))) (sym (map-fd_of-without rest behind))
  fds-without (x ∷ pre) rest e (ne, apart) behind =
      ap₂ ◌∷◌ (sym (fd_of-without x ne)) (fds-without pre rest e apart behind)

  pub Apart-behind : (pre rest : List Ptr) → Owned w (pre ++ p ∷ rest) → Apart p rest
  Apart-behind [] rest (inl e, owned) = absurd (real e)
  Apart-behind [] rest (inr (c, given, at, apart), owned) = apart
  Apart-behind (x ∷ pre) rest (here, owned) = Apart-behind pre rest owned

  Apart-before : (pre rest : List Ptr) → Owned w (pre ++ p ∷ rest) → Apart p pre
  Apart-before [] rest owned = tt
  Apart-before (x ∷ pre) rest (inl e, owned) =
      ((λ same. real (same ∙ e)), Apart-before pre rest owned)
  Apart-before (x ∷ pre) rest (inr (c, given, at, apart), owned) =
      ((λ same. among pre apart (sym same)), Apart-before pre rest owned)
    where
      among : (ys : List Ptr) → Apart x (ys ++ p ∷ rest) → x ≢ p
      among [] (ne, others) = ne
      among (y ∷ ys) (ne, others) = among ys others

  Apart-blank :
      (x : Ptr) (pre rest : List Ptr)
      → x ≢ null
      → Apart x (pre ++ p ∷ rest)
      → Apart x (pre ++ null ∷ rest)
  Apart-blank x [] rest given (ne, apart) = (given, apart)
  Apart-blank x (y ∷ pre) rest given (ne, apart) = (ne, Apart-blank x pre rest given apart)

  -- The contexts that are left are on the heap, each once.
  Owned-blank :
      (pre rest : List Ptr) → Owned w (pre ++ p ∷ rest) → Owned (without p w) (pre ++ null ∷ rest)
  Owned-blank [] rest (inl e, owned) = absurd (real e)
  Owned-blank [] rest (inr (c, given, at, apart), owned) =
      (inl refl, Owned-without w p rest (inr (c, given, at, apart), owned))
  Owned-blank (x ∷ pre) rest (inl e, owned) = (inl e, Owned-blank pre rest owned)
  Owned-blank (x ∷ pre) rest (inr (c, given, at, apart), owned) =
      let (other, before) = Apart-before (x ∷ pre) rest (inr (c, given, at, apart), owned) in
      let present : (p == null) ≡ false = ground arith in
      let ne : (x == p) ≡ false = ground arith in
      (
        inr (c, given, rw (present, ne) at, Apart-blank x pre rest given apart),
        Owned-blank pre rest owned,
      )

map-set {ℓ κ} :
    {A : Type ℓ} {B : Type κ} (f : A → B) (xs : List A) (i : ℕ) (v : A)
    → map f (set xs i v) ≡ set (map f xs) i (f v)
map-set f [] i v = refl
map-set f (x ∷ xs) zero v = refl
map-set f (x ∷ xs) (suc i) v = ap (◌∷◌ (f x)) (map-set f xs i v)

drop-set {ℓ} :
    {A : Type ℓ} (n i : ℕ) (xs : List A) (v : A) → i < n → drop n (set xs i v) ≡ drop n xs
drop-set zero i xs v below = absurd (omega arith)
drop-set (suc n) i [] v below = refl
drop-set (suc n) zero (x ∷ xs) v below = refl
drop-set (suc n) (suc i) (x ∷ xs) v below = drop-set n i xs v (omega arith)

-- The manager with slot `i` blanked.
abbrev pub blanked_array : EzArray → ℕ → EzArray
blanked_array a i = record a { pp_buf = set a.pp_buf i null }

abbrev pub blanked : ConnMgr → EzArray → ℕ → ConnMgr
blanked mgr a i = record mgr {
  p_conns = some (blanked_array a i);
  p_pfds = set mgr.p_pfds i no_poll;
}

Owned-drop : (w : World) (pre ps : List Ptr) → Owned w (pre ++ ps) → Owned w ps
Owned-drop w [] ps owned = owned
Owned-drop w (x ∷ pre) ps (here, owned) = Owned-drop w pre ps owned

set_at-blanked :
    {a : EzArray} (i : ℕ)
    → ArrayOf.IsValid a
    → i < a.num_items
    → set_at (some a) i null ≡ some (success, some (blanked_array a i))
unfolding set_at
set_at-blanked {a} i v below = ground (arith, v.storage, v.count)

pub Apart-prefix : (p : Ptr) (xs ys : List Ptr) → Apart p (xs ++ ys) → Apart p xs
Apart-prefix p [] ys apart = tt
Apart-prefix p (x ∷ xs) ys (ne, apart) = (ne, Apart-prefix p xs ys apart)

-- Closing the connection in a slot keeps the manager in step.
pub close_slot-Tidy :
    {w : World} {mgr : ConnMgr} {a : EzArray} {q : EzQueue} (p : Ptr) (pre rest more : List Ptr)
    → Tidy w mgr a q
    → p ≢ null
    → ArrayOf.contents a ≡ pre ++ p ∷ rest
    → Owned w (pre ++ p ∷ (rest ++ more))
    → (close_slot (length pre) p mgr w ≡ some (blanked mgr a (length pre), without p w))
      × Tidy (without p w) (blanked mgr a (length pre)) (blanked_array a (length pre)) q
      × (ArrayOf.contents (blanked_array a (length pre)) ≡ pre ++ null ∷ rest)
      × Owned (without p w) (pre ++ null ∷ (rest ++ more))
unfolding close_slot blank_entry
close_slot-Tidy {w} {mgr} {a} {q} p pre rest more t real here owned =
    let s = t.in_step in
    let v = s.conns_valid in
    let below : length pre < a.num_items =
      omega (arith, ap length here, length-append pre (p ∷ rest), num_items-length v) in
    let within : length pre < length mgr.p_pfds = omega (arith, s.room, v.count) in
    let before = Apart-before w p real pre (rest ++ more) owned in
    let behind = Apart-prefix p rest more (Apart-behind w p real pre (rest ++ more) owned) in
    let contents' : ArrayOf.contents (blanked_array a (length pre)) ≡ pre ++ null ∷ rest =
      take-set a.num_items (length pre) a.pp_buf null below
      ∙ ap (λ xs. set xs (length pre) null) here
      ∙ set-append pre p rest null in
    (
      rw
          (
            destroy_conn-without w p (rest ++ more) (Owned-drop w pre (p ∷ (rest ++ more)) owned),
            s.conns_at,
            set_at-blanked (length pre) v below,
            lt→ltb (length pre) (length mgr.p_pfds) within,
          )
          refl,
      record {
        in_step = record {
          conns_at = refl;
          queue_at = s.queue_at;
          conns_valid = record {
            storage = length-set a.pp_buf (length pre) null ∙ v.storage;
            positive = v.positive;
            fits = v.fits;
            count = v.count;
          };
          queue_valid = s.queue_valid;
          room = length-set mgr.p_pfds (length pre) no_poll ∙ s.room;
          max_same = s.max_same;
          count_same = s.count_same;
          fds =
              ap (map PollFd.fd) (take-set a.num_items (length pre) mgr.p_pfds no_poll below)
              ∙ map-set PollFd.fd (take a.num_items mgr.p_pfds) (length pre) no_poll
              ∙ ap (λ xs. set xs (length pre) (pos 0)) (s.fds ∙ ap (map (fd_of w)) here)
              ∙ fds-without w p real pre rest t.no_null before behind
              ∙ ap (map (fd_of (without p w))) (sym contents');
        };
        clean = record {
          slots =
              subst (NoneKept (differs null))
                (sym (drop-set a.num_items (length pre) a.pp_buf null below)) t.clean.slots;
          entries =
              subst (NoneKept is_polled)
                (sym (drop-set a.num_items (length pre) mgr.p_pfds no_poll below)) t.clean.entries;
        };
        open_ones = subst (Open (without p w)) (sym contents') (
            Open-without w p real pre rest t.no_null before behind
              (subst (Open w) here t.open_ones));
        no_null = without-null w p real t.no_null;
      },
      contents',
      Owned-blank w p real pre (rest ++ more) owned,
    )
