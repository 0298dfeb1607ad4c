-- ===== src/Server/Tests.antt =====
-- A ping in three pieces that three reading tasks read, and a sending task answers.
use multithreaded_c_server.Common.{true, false, ◌≡◌, refl, [], ◌∷◌, arith, pos}
use multithreaded_c_server.Common.Run.{done}
use multithreaded_c_server.Conn.{Conn}
use multithreaded_c_server.NetIo.{took}
use multithreaded_c_server.NetIo.Message.{Holds}
use multithreaded_c_server.NetIo.Transmit.{takes, all_out}
use multithreaded_c_server.NetIo.Tests.{
  little_endian, fresh, fresh-Holds, ping, ping-IsMessage, pieces, pieces-Arrives,
}
use multithreaded_c_server.Pong.Reply.{reply_to}
use multithreaded_c_server.Server.{send_task, read_task, run_tasks}
use multithreaded_c_server.Server.Serve.{reads_of, request_served}
use multithreaded_c_server.Server.Refs.{Leaves, run_tasks-Leaves}

-- Four tasks hold the connection.
abbrev busy : Conn
busy = record fresh { ref_count = pos 4 }

busy-Holds : Holds busy ping 0
busy-Holds = record {
  recv_size = fresh-Holds.recv_size;
  send_size = fresh-Holds.send_size;
  nothing_to_send = fresh-Holds.nothing_to_send;
  within = fresh-Holds.within;
  counted = fresh-Holds.counted;
  front = fresh-Holds.front;
  in_header = fresh-Holds.in_header;
  in_content = fresh-Holds.in_content;
}

request_served_example :
    (c' : Conn) × (run_tasks little_endian false
        (reads_of pieces (send_task (took 11 ∷ []) ∷ []))
        busy
      ≡ done (c', reply_to ping))
    × Holds c' ping 0
    × (c'.ref_count ≡ pos 0)
request_served_example =
    request_served little_endian ping ping-IsMessage busy 0 busy-Holds pieces-Arrives
      (takes {left = 0} (omega arith) refl (all_out refl refl) refl) refl

run_tasks-Leaves_example :
    Leaves
      (λ out. out.0)
      2
      busy
      (run_tasks little_endian true (read_task [] ∷ send_task (took 3 ∷ []) ∷ []) busy)
run_tasks-Leaves_example =
    run_tasks-Leaves little_endian true (read_task [] ∷ send_task (took 3 ∷ []) ∷ []) busy 2 refl
