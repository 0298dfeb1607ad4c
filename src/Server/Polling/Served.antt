-- ===== src/Server/Polling/Served.antt =====
-- What a round does to its connection.
use mathlib.Core.List.{append_assoc, append-nil}
use multithreaded_c_server.Common.{
  ◌≡◌, ◌≢◌, refl, sym, ap, ◌∙◌, ◌⊎◌, inl, inr, arith, true, false, some, List, [], ◌∷◌, ◌++◌, ◌==◌,
  Ptr, ℤ,
}
use multithreaded_c_server.Conn.{Conn, ConnState, pending_close}
use multithreaded_c_server.Server.Polling.{
  one_up, Job, io_read, io_send, ServerState, write_conn, hold, with_job,
}

abbrev pub owner : Job → Ptr
owner (io_read p) = p
owner (io_send p) = p

-- A reference for each task of a list.
abbrev pub held_for : List Job → ℤ → ℤ
held_for [] n = n
held_for (j ∷ js) n = held_for js (one_up n)

abbrev pub AllFor : Ptr → List Job → Type 0
AllFor p [] = Unit {0}
AllFor p (j ∷ js) = (owner j ≡ p) × AllFor p js

-- The round submitted the tasks `js`, all of them for the connection at `p`, took a reference for
-- each, and left everything but that connection's count and state alone.
pub record Served (p : Ptr) (s s' : ServerState) (c c' : Conn) (js : List Job) : Type 0 where
  pub now : (s'.world).contexts p ≡ some c'
  pub others : (x : Ptr) → x ≢ p → (s'.world).contexts x ≡ (s.world).contexts x
  pub same_closed : (s'.world).closed ≡ (s.world).closed
  pub same_destroyed : (s'.world).destroyed ≡ (s.world).destroyed
  pub same_mgr : s'.conn_mgr ≡ s.conn_mgr
  pub added : s'.submitted ≡ s.submitted ++ js
  pub mine : AllFor p js
  pub count : c'.ref_count ≡ held_for js c.ref_count
  pub same_fd : c'.fd ≡ c.fd
  pub same_type : c'.type ≡ c.type
  pub state : (c'.state ≡ c.state) ⊎ (c'.state ≡ pending_close)

held_for-append : (js ks : List Job) (n : ℤ) → held_for (js ++ ks) n ≡ held_for ks (held_for js n)
held_for-append [] ks n = refl
held_for-append (j ∷ js) ks n = held_for-append js ks (one_up n)

AllFor-append : (p : Ptr) (js ks : List Job) → AllFor p js → AllFor p ks → AllFor p (js ++ ks)
AllFor-append p [] ks first second = second
AllFor-append p (j ∷ js) ks (e, first) second = (e, AllFor-append p js ks first second)

still :
    {a b c : ConnState}
    → (b ≡ a) ⊎ (b ≡ pending_close)
    → (c ≡ b) ⊎ (c ≡ pending_close)
    → (c ≡ a) ⊎ (c ≡ pending_close)
still (inl e) (inl e') = inl (e' ∙ e)
still (inr e) (inl e') = inr (e' ∙ e)
still before (inr e') = inr e'

pub unserved :
    {p : Ptr} {s : ServerState} {c : Conn} → (s.world).contexts p ≡ some c → Served p s s c c []
unserved {s} at = record {
  now = at;
  others = λ x other. refl;
  same_closed = refl;
  same_destroyed = refl;
  same_mgr = refl;
  added = sym (append-nil s.submitted);
  mine = tt;
  count = refl;
  same_fd = refl;
  same_type = refl;
  state = inl refl;
}

pub then-Served :
    {p : Ptr} {s s1 s2 : ServerState} {c c1 c2 : Conn} {js ks : List Job}
    → Served p s s1 c c1 js
    → Served p s1 s2 c1 c2 ks
    → Served p s s2 c c2 (js ++ ks)
then-Served {p} {s} {c} {js} {ks} a b = record {
  now = b.now;
  others = λ x other. b.others x other ∙ a.others x other;
  same_closed = b.same_closed ∙ a.same_closed;
  same_destroyed = b.same_destroyed ∙ a.same_destroyed;
  same_mgr = b.same_mgr ∙ a.same_mgr;
  added = b.added ∙ ap (λ xs. xs ++ ks) a.added ∙ append_assoc s.submitted js ks;
  mine = AllFor-append p js ks a.mine b.mine;
  count = b.count ∙ ap (held_for ks) a.count ∙ sym (held_for-append js ks c.ref_count);
  same_fd = b.same_fd ∙ a.same_fd;
  same_type = b.same_type ∙ a.same_type;
  state = still a.state b.state;
}

pub write_conn-others :
    (p : Ptr) (c : Conn) (s : ServerState) (x : Ptr)
    → x ≢ p
    → ((write_conn p c s).world).contexts x ≡ (s.world).contexts x
write_conn-others p c s x other = let apart : (x == p) ≡ false = ground arith in rw apart refl

pub write_conn-now :
    (p : Ptr) (c : Conn) (s : ServerState) → ((write_conn p c s).world).contexts p ≡ some c
write_conn-now p c s = let same : (p == p) ≡ true = ground arith in rw same refl

pub submitted_one :
    {p : Ptr} (c : Conn) (s : ServerState) (j : Job)
    → owner j ≡ p
    → Served p s (with_job j (write_conn p (hold c) s)) c (hold c) (j ∷ [])
submitted_one {p} c s j e = record {
  now = write_conn-now p (hold c) s;
  others = write_conn-others p (hold c) s;
  same_closed = refl;
  same_destroyed = refl;
  same_mgr = refl;
  added = refl;
  mine = (e, tt);
  count = refl;
  same_fd = refl;
  same_type = refl;
  state = inl refl;
}
