-- ===== src/Winpipe/Pool/Spread.antt =====
-- How the pool spreads its work over the workers, and the answer to a request.
use libagent.Base.{
  ℕ, zero, suc, ◌+◌, ◌%◌, ◌<◌, ◌≡◌, refl, ap, ◌∙◌, true, none, some, List, [], ◌∷◌, ◌++◌, arith,
  length, length-append, All, ok, err,
}
use libagent.Text.{Bytes}
use libagent.Http.{Header}
use libagent.Metrics.{fetch_add_one}
use libagent.Winpipe.{PipeResult}
use libagent.Winpipe.Pool.{
  WorkItem, Channel, WorkerPool, new_channels, new, send, send_at, submit_work, PoolCell,
  get_worker_pool, submit_work_to_pool, Received, on_received, full_path_of, await,
  request_over_named_pipe,
}

-- A worker whose channel is open.
abbrev pub IsOpen : Channel → Type 0
IsOpen c = c.receives ≡ true

abbrev pub add_item : WorkItem → Channel → Channel
add_item item c = record c { items = c.items ++ item ∷ [] }

send_open : (item : WorkItem) (c : Channel) → IsOpen c → send item c ≡ ok (add_item item c)
unfolding send
send_open item c h = rw h refl

-- The pool as it is initialised: four workers, all open.
pub record FourOpen (pool : WorkerPool) : Type 0 where
  pub four : length pool.senders ≡ 4
  pub all_open : All IsOpen pool.senders

-- How many items each channel holds.
abbrev pub queues : List Channel → List ℕ
queues [] = []
queues (c ∷ cs) = length c.items ∷ queues cs

-- One more at the index.
abbrev pub one_at : ℕ → List ℕ → List ℕ
one_at i [] = []
one_at zero (n ∷ ns) = suc n ∷ ns
one_at (suc i) (n ∷ ns) = n ∷ one_at i ns

-- One more everywhere.
abbrev pub one_each : List ℕ → List ℕ
one_each [] = []
one_each (n ∷ ns) = suc n ∷ one_each ns

-- An item that was sent to the channel at the index.
record IsSent (item : WorkItem) (i : ℕ) (cs cs' : List Channel) : Type 0 where
  done : send_at i item cs ≡ ok cs'
  kept_length : length cs' ≡ length cs
  kept_open : All IsOpen cs'
  counts : queues cs' ≡ one_at i (queues cs)

send_at-IsSent :
    (item : WorkItem) (i : ℕ) (cs : List Channel)
    → All IsOpen cs
    → i < length cs
    → (cs' : List Channel) × IsSent item i cs cs'
unfolding send_at
send_at-IsSent item i [] h k = absurd (omega arith)
send_at-IsSent item zero (c ∷ cs) (p, h) k = (
  add_item item c ∷ cs,
  record {
    done = rw (send_open item c p) refl;
    kept_length = refl;
    kept_open = (p, h);
    counts =
        let e : length (c.items ++ item ∷ []) ≡ suc (length c.items) =
          omega (arith, length-append c.items (item ∷ [])) in
        ap (λ n. n ∷ queues cs) e;
  },
)
send_at-IsSent item (suc i) (c ∷ cs) (p, h) k =
    let (cs', t) = send_at-IsSent item i cs h (omega arith) in
    (
      c ∷ cs',
      record {
        done = rw t.done refl;
        kept_length = ap suc t.kept_length;
        kept_open = (p, t.kept_open);
        counts = ap (λ ns. length c.items ∷ ns) t.counts;
      },
    )

-- A submission that succeeded, and the pool after it.
record IsSubmitted (item : WorkItem) (pool pool' : WorkerPool) : Type 0 where
  done : submit_work item pool ≡ (ok tt, pool')
  kept : FourOpen pool'
  counts : queues pool'.senders ≡ one_at (pool.next_idx % 4) (queues pool.senders)
  moves : pool'.next_idx ≡ fetch_add_one pool.next_idx

submit_work-IsSubmitted :
    (item : WorkItem) (pool : WorkerPool)
    → FourOpen pool
    → (pool' : WorkerPool) × IsSubmitted item pool pool'
unfolding submit_work
submit_work-IsSubmitted item pool h =
    let (cs', t) =
      send_at-IsSent item (pool.next_idx % 4) pool.senders h.all_open (omega (arith, h.four)) in
    (
      record { senders = cs'; next_idx = fetch_add_one pool.next_idx },
      record {
        done = rw (h.four, t.done) refl;
        kept = record { four = t.kept_length ∙ h.four; all_open = t.kept_open };
        counts = t.counts;
        moves = refl;
      },
    )

-- Submissions one after another, up to the first that fails.
abbrev carry :
    (WorkerPool → PipeResult WorkerPool) → PipeResult Unit × WorkerPool → PipeResult WorkerPool
carry go (ok done, pool) = go pool
carry go (err e, pool) = err e

abbrev pub submit_all : List WorkItem → WorkerPool → PipeResult WorkerPool
submit_all [] pool = ok pool
submit_all (item ∷ items) pool = carry (λ p. submit_all items p) (submit_work item pool)

-- Four indices that follow each other modulo 4 are all of them.
cycle_of_four :
    (i : ℕ) (ns : List ℕ)
    → i < 4
    → length ns ≡ 4
    → one_at ((i + 3) % 4) (one_at ((i + 2) % 4) (one_at ((i + 1) % 4) (one_at i ns))) ≡ one_each ns
cycle_of_four i [] h l = absurd (omega arith)
cycle_of_four i (a ∷ []) h l = absurd (omega arith)
cycle_of_four i (a ∷ b ∷ []) h l = absurd (omega arith)
cycle_of_four i (a ∷ b ∷ c ∷ []) h l = absurd (omega arith)
cycle_of_four zero (a ∷ b ∷ c ∷ d ∷ []) h l = refl
cycle_of_four (suc zero) (a ∷ b ∷ c ∷ d ∷ []) h l = refl
cycle_of_four (suc (suc zero)) (a ∷ b ∷ c ∷ d ∷ []) h l = refl
cycle_of_four (suc (suc (suc zero))) (a ∷ b ∷ c ∷ d ∷ []) h l = refl
cycle_of_four (suc (suc (suc (suc i)))) (a ∷ b ∷ c ∷ d ∷ []) h l = absurd (omega arith)
cycle_of_four i (a ∷ b ∷ c ∷ d ∷ e ∷ ns) h l = absurd (omega arith)

length-queues : (cs : List Channel) → length (queues cs) ≡ length cs
length-queues [] = refl
length-queues (c ∷ cs) = ap suc (length-queues cs)

-- Counting on keeps the index modulo 4, also where it wraps around.
add_one_mod : (n i j : ℕ) → n % 4 ≡ i → (i + 1) % 4 ≡ j → fetch_add_one n % 4 ≡ j
add_one_mod n i j e f = omega arith

-- Any four submissions in a row to the four workers of the pool succeed, and give each worker one
-- more item, wherever the index stands and also where it wraps around.
pub four_spread :
    (a b c d : WorkItem) (pool : WorkerPool)
    → FourOpen pool
    → (pool' : WorkerPool) × (submit_all (a ∷ b ∷ c ∷ d ∷ []) pool ≡ ok pool')
      × FourOpen pool'
      × (queues pool'.senders ≡ one_each (queues pool.senders))
four_spread a b c d pool h =
    let i = pool.next_idx % 4 in
    let (p₁, s₁) = submit_work-IsSubmitted a pool h in
    let (p₂, s₂) = submit_work-IsSubmitted b p₁ s₁.kept in
    let (p₃, s₃) = submit_work-IsSubmitted c p₂ s₂.kept in
    let (p₄, s₄) = submit_work-IsSubmitted d p₃ s₃.kept in
    let i₁ : p₁.next_idx % 4 ≡ (i + 1) % 4 =
      ap (λ n. n % 4) s₁.moves ∙ add_one_mod pool.next_idx i ((i + 1) % 4) refl refl in
    let i₂ : p₂.next_idx % 4 ≡ (i + 2) % 4 =
      ap (λ n. n % 4) s₂.moves
      ∙ add_one_mod p₁.next_idx ((i + 1) % 4) ((i + 2) % 4) i₁ (omega arith) in
    let i₃ : p₃.next_idx % 4 ≡ (i + 3) % 4 =
      ap (λ n. n % 4) s₃.moves
      ∙ add_one_mod p₂.next_idx ((i + 2) % 4) ((i + 3) % 4) i₂ (omega arith) in
    (
      p₄,
      rw (s₁.done, s₂.done, s₃.done, s₄.done) refl,
      s₄.kept,
      rw (s₄.counts, i₃, s₃.counts, i₂, s₂.counts, i₁, s₁.counts)
          (cycle_of_four i (queues pool.senders) (omega arith)
            (length-queues pool.senders ∙ h.four)),
    )

-- The pool is not there yet, or it is as it was initialised.
abbrev pub IsServing : PoolCell → Type 0
IsServing none = Unit
IsServing (some pool) = FourOpen pool

get_worker_pool-FourOpen :
    (cell : PoolCell)
    → IsServing cell
    → (pool : WorkerPool) × (get_worker_pool cell ≡ some pool) × FourOpen pool
unfolding get_worker_pool new new_channels
get_worker_pool-FourOpen none h =
    (new 4, refl, record { four = refl; all_open = (refl, (refl, (refl, (refl, tt)))) })
get_worker_pool-FourOpen (some pool) h = (pool, refl, h)

-- A request over the pipe has the full path of the pipe and what the caller gave, it always reaches a
-- worker, and its result is the worker's answer, or the error of a time-out or of a worker that is
-- gone; the pool is initialised by the first request and serves on after each.
pub request_over_named_pipe_answers :
    (recv : WorkItem → Received) (pipe_name method path : Bytes) (headers : List Header)
    → (body : Bytes) (timeout : ℕ) (cell : PoolCell) → IsServing cell
    → (pool : WorkerPool) × FourOpen pool
      × (request_over_named_pipe recv pipe_name method path headers body timeout cell ≡ (
        on_received timeout (
            recv (record {
              pipe_name = full_path_of pipe_name;
              method = method;
              path = path;
              headers = headers;
              body = body;
              timeout = timeout;
            })),
        some pool,
      ))
unfolding request_over_named_pipe submit_work_to_pool await
request_over_named_pipe_answers recv pipe_name method path headers body timeout cell h =
    let item : WorkItem = record {
      pipe_name = full_path_of pipe_name;
      method = method;
      path = path;
      headers = headers;
      body = body;
      timeout = timeout;
    } in
    let (pool, e, serving) = get_worker_pool-FourOpen cell h in
    let (pool', s) = submit_work-IsSubmitted item pool serving in
    (pool', s.kept, rw (e, s.done) refl)
