-- ===== src/Tests/PipeExchange.antt =====
-- A whole exchange over a pipe, at a concrete input.
use libagent.Base.{min, none, some, [], ◌++◌, length, take, drop}
use libagent.Text.{Bytes, codes}
use libagent.Winpipe.{Win32, io_pending}
use libagent.Winpipe.Request.{build_request}
use libagent.Tests.Exchange.{chunked_head, wire, sized_head, hello}
use libagent.Tests.Pipes.{Machine, machine}

abbrev at_rest : Machine
at_rest = record { time = 7; input = sized_head ++ hello; output = []; flight = []; held = [] }

-- A system whose clock stands still, and whose reads are all waited for, eight bytes at most each.
abbrev waiting : Win32 Machine
waiting = record machine {
  now = λ s. (s.time, s);
  get_last_error = λ s. io_pending;
  read_file = λ handle n event s.
      (none, record s { held = take (min 8 n) s.input; input = drop (min 8 n) s.input });
  get_overlapped_result = λ handle event s. (some (length s.held), s);
}

abbrev put_request : Bytes
put_request = build_request (codes "PUT") (codes "/v0.4/traces") [] (codes "[]")

abbrev chunked_at_rest : Machine
chunked_at_rest = record at_rest { input = chunked_head ++ wire }
