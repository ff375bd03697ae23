-- ===== src/Tests/Pipes.antt =====
-- The theorems on the Windows build, over a system whose state is the bytes to come and a clock.
use libagent.Base.{
  ℕ, suc, ◌+◌, min, ◌≡◌, refl, true, false, none, some, [], ◌∷◌, ◌++◌, arith, length, take, drop,
  ok,
}
use libagent.Text.{Bytes, codes, crlf}
use libagent.Io.{broken}
use libagent.Config.{not_present, Env}
use libagent.Manager.{AgentManager, fresh_slot}
use libagent.Process.{trace_agent_name}
use libagent.Manager.Readiness
use libagent.Manager.Readiness.{Probe}
use libagent.Winpipe.{Win32, object_0, broken_pipe}
use libagent.Winpipe.Overlapped.Writes.{IsWriter}
use libagent.Winpipe.Connection.{PipeConnection, write_all}
use libagent.Winpipe.Connection.Writes.{SendsAll, write_all-SendsAll}
use libagent.Winpipe.Pool
use libagent.Winpipe.Pool.{WorkItem, WorkerPool, Received, received}
use libagent.Winpipe.Pool.Spread.{FourOpen, queues, one_each, submit_all, four_spread}
use libagent.Ffi.{ValidArgs}

-- The time, the bytes that come from the server, and the bytes that were sent to it.
pub record Machine : Type 0 where
  pub time : ℕ
  pub input : Bytes
  pub output : Bytes
  pub flight : Bytes
  pub held : Bytes

-- Reading takes what the buffer holds; writing takes at most three bytes at a time.
abbrev pub machine : Win32 Machine
machine = record {
  now = λ s. (s.time, record s { time = suc s.time });
  sleep = λ d s. record s { time = s.time + d };
  get_last_error = λ s. broken_pipe;
  os_error = λ e. broken (codes "os error");
  encode_wide = λ path. path;
  create_file = λ path s. (some 5, s);
  set_read_mode = λ handle s. (true, s);
  close_handle = λ handle s. s;
  wait_named_pipe = λ path ms s. (true, s);
  create_event = λ s. (some 6, s);
  write_file = λ handle bytes event s. (
    some (min 3 (length bytes)),
    record s { output = s.output ++ take (min 3 (length bytes)) bytes },
  );
  read_file = λ handle n event s.
      (some (length (take n s.input)), record s { held = take n s.input; input = drop n s.input });
  buffer = λ n s. take n s.held;
  wait_for_single_object = λ event ms s. (object_0, s);
  get_overlapped_result = λ handle event s. (none, s);
  cancel_io = λ handle event s. s;
}

machine-IsWriter : IsWriter machine (λ s. s.output) (λ s. s.flight)
machine-IsWriter = record {
  write_moves = λ handle event bytes s. (omega arith, refl);
  write_pends = λ handle event bytes s. tt;
  result_moves = λ handle event s. tt;
  wait_keeps = λ event ms s. refl;
  wait_keeps_flight = λ event ms s. refl;
  now_keeps = λ s. refl;
  event_keeps = λ s. refl;
  close_keeps = λ handle s. refl;
}

abbrev answer : Bytes
answer =
    codes "HTTP/1.1 200 OK" ++ crlf ++ codes "Content-Length: 5" ++ crlf ++ crlf ++ codes "hello"

abbrev at_rest : Machine
at_rest = record { time = 7; input = answer; output = []; flight = []; held = [] }

abbrev connection : PipeConnection
connection = record { handle = 5; deadline = 100 }

write_all-SendsAll_example :
    SendsAll
      (λ (s : Machine). s.output)
      (codes "PUT /v0.4/traces")
      (write_all machine connection (codes "PUT /v0.4/traces") at_rest)
write_all-SendsAll_example =
    write_all-SendsAll machine (λ s. s.output) (λ s. s.flight) machine-IsWriter connection
      (codes "PUT /v0.4/traces") at_rest

abbrev item : WorkItem
item = record {
  pipe_name = codes "apm";
  method = codes "GET";
  path = codes "/info";
  headers = [];
  body = [];
  timeout = 1000;
}

-- The index is about to wrap around.
abbrev pool : WorkerPool
pool = record (Pool.new 4) { next_idx = 18446744073709551614 }

pool-FourOpen : FourOpen pool
unfolding Pool.new Pool.new_channels
pool-FourOpen = record { four = refl; all_open = (refl, (refl, (refl, (refl, tt)))) }

four_spread_example :
    (pool' : WorkerPool) × (submit_all (item ∷ item ∷ item ∷ item ∷ []) pool ≡ ok pool')
    × FourOpen pool'
    × (queues pool'.senders ≡ one_each (queues pool.senders))
four_spread_example = four_spread item item item item pool pool-FourOpen

-- A pipe that cannot be opened.
abbrev refusing : Probe ℕ
refusing = record { connect = λ path t. (false, t); now = λ t. (t, t); sleep = λ d t. t + d }

abbrev env : Env
env name = not_present

abbrev recv : WorkItem → Received
recv work = received (ok (record { status = 200; headers = []; body = [] }))

abbrev args : ValidArgs
args = record { method = codes "GET"; path = codes "/info"; headers = []; body = [] }

abbrev manager : AgentManager
manager = record {
  should_run = true;
  monitor_thread = true;
  agent_spec = none;
  trace_spec = record { name = trace_agent_name; program = codes "trace-agent"; args = [] };
  agent = fresh_slot;
  trace = record fresh_slot { child = some 42 };
  trace_agent_ready = true;
}
