-- ===== src/Server/Refs.antt =====
-- Tasks give their references back, whatever happens.
use mathlib.Core.Option.{some-injective}
use multithreaded_c_server.Common.{
  ℕ, suc, ◌+◌, ◌≡◌, refl, ap, ◌∙◌, inl, inr, ◌&&◌, not, Bool, Bool-cases, Option, none, some, List,
  [], ◌∷◌, ◌++◌, length, arith, get_or_else, ℤ, pos, Byte, ByteOrder,
}
use multithreaded_c_server.Common.Run.{Run, done, fault, pending, ◌>>=◌}
use multithreaded_c_server.Conn.{Conn}
use multithreaded_c_server.NetIo.{Received, Sent}
use multithreaded_c_server.NetIo.Keeps.{
  SameConn, Kept, handle_sock_data_in-Kept, handle_sock_data_out-Kept,
}
use multithreaded_c_server.Server.{
  Task, read_task, send_task, run_tasks, less_one, reads, writes, release_ref, task_io_read,
  task_io_send,
}

-- If a run has a result, it is the same connection with `m` references.
abbrev pub Leaves : {A : Type 0} → (A → Conn) → ℕ → Conn → Run A → Type 0
Leaves get m c (done a) =
    ((get a).ref_count ≡ pos m) × ((get a).fd ≡ c.fd) × ((get a).type ≡ c.type)
Leaves get m c fault = Unit {0}
Leaves get m c pending = Unit {0}

-- The connection that a handler leaves, with one reference less.
released :
    (o : Option Conn) (c c' : Conn) (m : ℕ)
    → o ≡ some c'
    → SameConn c c'
    → c.ref_count ≡ pos (suc m)
    → ((release_ref (get_or_else o c)).ref_count ≡ pos m)
      × ((release_ref (get_or_else o c)).fd ≡ c.fd)
      × ((release_ref (get_or_else o c)).type ≡ c.type)
released none c c' m e same refs = absurd cc
released (some c2) c c' m e (count, fd, type) refs =
    let eq = some-injective _ _ e in
    (ap less_one (ap Conn.ref_count eq ∙ count ∙ refs), ap Conn.fd eq ∙ fd, ap Conn.type eq ∙ type)

read_result :
    (c : Conn) (m : ℕ) (r : Run (ℤ × Option Conn))
    → c.ref_count ≡ pos (suc m)
    → Kept (λ out. out.1) c r
    → Leaves (λ c'. c') m c (r >>= λ out. done (release_ref (get_or_else out.1 c)))
read_result c m (done out) refs (c', e, same) = released out.1 c c' m e same refs
read_result c m fault refs kept = tt
read_result c m pending refs kept = tt

send_result :
    (c : Conn) (m : ℕ) (r : Run (ℤ × Option Conn × List Byte))
    → c.ref_count ≡ pos (suc m)
    → Kept (λ out. out.1) c r
    → Leaves {A = Conn × List Byte}
        (λ out. out.0)
        m
        c
        (r >>= λ out. done (release_ref (get_or_else out.1 c), out.2))
send_result c m (done out) refs (c', e, same) = released out.1 c c' m e same refs
send_result c m fault refs kept = tt
send_result c m pending refs kept = tt

read_task-Leaves :
    (order : ByteOrder) (g_should_shutdown : Bool) (script : List Received) (c : Conn) (m : ℕ)
    → c.ref_count ≡ pos (suc m)
    → Leaves (λ c'. c') m c (task_io_read order g_should_shutdown script c)
unfolding task_io_read
read_task-Leaves order g_should_shutdown script c m refs =
    elim (Bool-cases (reads c.state && not g_should_shutdown)) [
      | inl e ↦ simp e (read_result c m _ refs (handle_sock_data_in-Kept order c script))
      | inr e ↦ simp e (ap less_one refs, refl, refl)
    ]

send_task-Leaves :
    (g_should_shutdown : Bool) (script : List Sent) (c : Conn) (m : ℕ)
    → c.ref_count ≡ pos (suc m)
    → Leaves (λ out. out.0) m c (task_io_send g_should_shutdown script c)
unfolding task_io_send
send_task-Leaves g_should_shutdown script c m refs =
    elim (Bool-cases (writes c.state && not g_should_shutdown)) [
      | inl e ↦ simp e (send_result c m _ refs (handle_sock_data_out-Kept c script))
      | inr e ↦ simp e (ap less_one refs, refl, refl)
    ]

onward :
    {A : Type 0} (get : A → Conn) (n : ℕ) (c c' : Conn) (r : Run A)
    → c'.fd ≡ c.fd
    → c'.type ≡ c.type
    → Leaves get n c' r
    → Leaves get n c r
onward get n c c' (done a) fd type (count, fd', type') = (count, fd' ∙ fd, type' ∙ type)
onward get n c c' fault fd type l = tt
onward get n c c' pending fd type l = tt

after_read :
    {A : Type 0} (get : A → Conn) (c : Conn) (m n : ℕ) (r : Run Conn) (f : Conn → Run A)
    → Leaves (λ c'. c') m c r
    → ((c' : Conn) → c'.ref_count ≡ pos m → Leaves get n c' (f c'))
    → Leaves get n c (r >>= f)
after_read get c m n (done c') f (count, fd, type) rest =
    onward get n c c' (f c') fd type (rest c' count)
after_read get c m n fault f first rest = tt
after_read get c m n pending f first rest = tt

abbrev Out : Type 0
Out = Conn × List Byte

-- What is sent later is put behind what was sent first.
behind :
    (n : ℕ) (c : Conn) (wire : List Byte) (r : Run Out)
    → Leaves {A = Out} (λ out. out.0) n c r
    → Leaves {A = Out} (λ out. out.0) n c (r >>= λ rest. done (rest.0, wire ++ rest.1))
behind n c wire (done out) l = l
behind n c wire fault l = tt
behind n c wire pending l = tt

after_send :
    (c : Conn) (m n : ℕ) (r : Run Out) (f : Conn → Run Out)
    → Leaves {A = Out} (λ out. out.0) m c r
    → ((c' : Conn) → c'.ref_count ≡ pos m → Leaves {A = Out} (λ out. out.0) n c' (f c'))
    → Leaves {A = Out}
        (λ out. out.0)
        n
        c
        (r >>= λ out. f out.0 >>= λ rest. done (rest.0, out.1 ++ rest.1))
after_send c m n (done out) f (count, fd, type) rest =
    onward (λ o. o.0) n c out.0 _ fd type (behind n out.0 out.1 (f out.0) (rest out.0 count))
after_send c m n fault f first rest = tt
after_send c m n pending f first rest = tt

-- Every task gives back one reference, in whatever state it finds the connection, whatever the
-- kernel answers and whether the server is shutting down or not: of a connection with a reference
-- for each of some tasks and `n` more, `n` are left when they have run, and descriptor and kind
-- are as before.
pub run_tasks-Leaves :
    (order : ByteOrder) (g_should_shutdown : Bool) (ts : List Task) (c : Conn) (n : ℕ)
    → c.ref_count ≡ pos (length ts + n)
    → Leaves (λ out. out.0) n c (run_tasks order g_should_shutdown ts c)
unfolding run_tasks
run_tasks-Leaves order g_should_shutdown [] c n refs = (refs ∙ ap pos (omega arith), refl, refl)
run_tasks-Leaves order g_should_shutdown (read_task script ∷ ts) c n refs =
    after_read (λ out. out.0) c (length ts + n) n _ (run_tasks order g_should_shutdown ts)
      (read_task-Leaves order g_should_shutdown script c (length ts + n)
        (refs ∙ ap pos (omega arith)))
      (λ c' count. run_tasks-Leaves order g_should_shutdown ts c' n count)
run_tasks-Leaves order g_should_shutdown (send_task script ∷ ts) c n refs =
    after_send c (length ts + n) n _ (run_tasks order g_should_shutdown ts)
      (send_task-Leaves g_should_shutdown script c (length ts + n) (refs ∙ ap pos (omega arith)))
      (λ c' count. run_tasks-Leaves order g_should_shutdown ts c' n count)
