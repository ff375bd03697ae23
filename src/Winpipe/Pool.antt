-- ===== src/Winpipe/Pool.antt =====
-- The pool of workers, and `request_over_named_pipe`, which hands its request to it. A channel is the
-- items in it and whether its worker still receives. That a lock is poisoned is left out.
pub mod Spread
use libagent.Base.{
  ℕ, zero, suc, ◌%◌, Bool, true, Option, none, some, List, [], ◌∷◌, ◌++◌, if◌then◌else◌, length, ok,
  err, ◌>>=◌,
}
use libagent.Text.{Bytes, starts_with, pipe_prefix}
use libagent.Http.{Header, Response}
use libagent.Metrics.{fetch_add_one}
use libagent.Winpipe.{
  PipeResult, request_timed_out, worker_disconnected, pool_shut_down, pool_not_initialized,
  channel_closed,
}

-- `WorkItem`; its result channel is the worker's answer to it.
pub record WorkItem : Type 0 where
  pub pipe_name : Bytes
  pub method : Bytes
  pub path : Bytes
  pub headers : List Header
  pub body : Bytes
  pub timeout : ℕ

pub record Channel : Type 0 where
  pub items : List WorkItem
  pub receives : Bool

pub record WorkerPool : Type 0 where
  pub senders : List Channel
  pub next_idx : ℕ

abbrev pub new_channel : Channel
new_channel = record { items = []; receives = true }

unfoldable pub new_channels : ℕ → List Channel
new_channels zero = []
new_channels (suc n) = new_channel ∷ new_channels n

unfoldable pub new : ℕ → WorkerPool
new num_workers = record { senders = new_channels num_workers; next_idx = 0 }

-- `send`: a channel whose worker is gone refuses the item.
unfoldable pub send : WorkItem → Channel → PipeResult Channel
send item c =
    if c.receives then ok (record c { items = c.items ++ item ∷ [] }) else err channel_closed

-- `send` on the channel at the index.
unfoldable pub send_at : ℕ → WorkItem → List Channel → PipeResult (List Channel)
send_at i item [] = err pool_shut_down
send_at zero item (c ∷ cs) = do c' ← send item c; ok (c' ∷ cs)
send_at (suc i) item (c ∷ cs) = do cs' ← send_at i item cs; ok (c ∷ cs')

-- The first worker is index 0; the index counts on, wrapping around, also when the channel refuses.
unfoldable pub submit_work : WorkItem → WorkerPool → PipeResult Unit × WorkerPool
submit_work item pool = submit_to (length pool.senders) item pool
  where
    sent : WorkerPool → PipeResult (List Channel) → PipeResult Unit × WorkerPool
    sent pool (ok senders) = (ok tt, record pool { senders = senders })
    sent pool (err e) = (err e, pool)

    submit_to : ℕ → WorkItem → WorkerPool → PipeResult Unit × WorkerPool
    submit_to zero item pool = (err pool_shut_down, pool)
    submit_to (suc n) item pool =
        sent (record pool { next_idx = fetch_add_one pool.next_idx })
          (send_at (pool.next_idx % suc n) item pool.senders)

unfoldable pub shutdown : WorkerPool → WorkerPool
shutdown pool = record pool { senders = []; next_idx = 0 }

-- `WORKER_POOL`.
abbrev pub PoolCell : Type 0
PoolCell = Option WorkerPool

unfoldable pub get_worker_pool : PoolCell → PoolCell
get_worker_pool none = some (new 4)
get_worker_pool (some pool) = some pool

unfoldable pub submit_work_to_pool : WorkItem → PoolCell → PipeResult Unit × PoolCell
submit_work_to_pool item none = (err pool_not_initialized, none)
submit_work_to_pool item (some pool) = let (r, pool') = submit_work item pool in (r, some pool')

-- A pool that is dropped has been shut down.
unfoldable pub shutdown_worker_pool : PoolCell → PoolCell
shutdown_worker_pool cell = none

-- A worker answers the items in the order of its channel, each by `perform_request`.
unfoldable pub worker_loop :
    (WorkItem → PipeResult Response) → List WorkItem → List (PipeResult Response)
worker_loop perform [] = []
worker_loop perform (item ∷ items) = perform item ∷ worker_loop perform items

-- What `recv_timeout` on the result channel gives.
pub data Received : Type 0 where
  received : PipeResult Response → Received
  receive_timeout receive_disconnected : Received

unfoldable pub on_received : ℕ → Received → PipeResult Response
on_received timeout (received result) = result
on_received timeout receive_timeout = err (request_timed_out timeout)
on_received timeout receive_disconnected = err worker_disconnected

unfoldable pub full_path_of : Bytes → Bytes
full_path_of pipe_name =
    if starts_with pipe_name pipe_prefix then pipe_name else pipe_prefix ++ pipe_name

unfoldable pub await :
    (WorkItem → Received) → WorkItem → PipeResult Unit × PoolCell → PipeResult Response × PoolCell
await recv item (ok done, cell) = (on_received item.timeout (recv item), cell)
await recv item (err e, cell) = (err e, cell)

unfoldable pub request_over_named_pipe :
    (WorkItem → Received)
    → Bytes
    → Bytes
    → Bytes
    → List Header
    → Bytes
    → ℕ
    → PoolCell
    → PipeResult Response × PoolCell
request_over_named_pipe recv pipe_name method path headers body timeout cell =
    let item : WorkItem = record {
      pipe_name = full_path_of pipe_name;
      method = method;
      path = path;
      headers = headers;
      body = body;
      timeout = timeout;
    } in
    await recv item (submit_work_to_pool item (get_worker_pool cell))
