-- ===== src/Winpipe/Connection/Delivers.antt =====
-- `PipeStream` over a system that hands over what the server sends: it delivers those bytes.
use libagent.Base.{
  ℕ, zero, suc, ◌-◌, ◌≤◌, ◌<◌, ◌≡◌, refl, ◌∙◌, inl, inr, Option, none, some, ◌++◌, arith, leb,
  Bool-cases, length, take, ok,
}
use libagent.Text.{Bytes}
use libagent.Io.{Delivery, IsSource}
use libagent.Winpipe.{
  broken_pipe, io_pending, object_0, Win32, Outcome, duration_to_millis, time_left,
}
use libagent.Winpipe.Overlapped.{
  is_broken_pipe, is_io_pending, transfer_size, on_result, on_wait, wait_overlapped, close_after,
  on_read, read_with, read_some,
}
use libagent.Winpipe.Connection.{PipeConnection, remaining, on_read_some, read_until_deadline, read}

module _ {S : Type 0} (w : Win32 S) (connection : PipeConnection) (Live : S → Type 0)
    (content : S → Bytes) where
  -- The bytes at the start of the caller's buffer of `n` bytes came from the input.
  pub record Given (n : ℕ) (s : S) (k : ℕ) (s' : S) : Type 0 where
    pub live : Live s'
    pub splits : take k (w.buffer n s') ++ content s' ≡ content s
    pub fits : length (take k (w.buffer n s')) ≤ n
    pub progress : 0 < length (content s) → 0 < length (take k (w.buffer n s'))

  -- What a transfer may come to: bytes at once; bytes later, when the event is signalled; or the end,
  -- where the server has closed the pipe.
  pub data Feeds (event n : ℕ) (s : S) : Option ℕ × S → Type 0 where
    at_once : {k : ℕ} {s' : S} → Given n s k s' → Feeds event n s (some k, s')
    later :
        {s' : S}
        → w.get_last_error s' ≡ io_pending
        → ((ms : ℕ)
            → (k : ℕ) × (s₂ : S) × (s₃ : S) × (w.wait_for_single_object event ms s'
                ≡ (object_0, s₂))
              × (w.get_overlapped_result connection.handle event s₂ ≡ (some k, s₃))
              × Given n s k s₃)
        → Feeds event n s (none, s')
    closed :
        {s' : S} → w.get_last_error s' ≡ broken_pipe → Given n s 0 s' → Feeds event n s (none, s')

  -- The server answers in time: the deadline has not passed while the stream is live, and the calls
  -- around a transfer leave the input alone.
  pub record IsFeed : Type 0 where
    pub in_time : (s : S) → Live s → (w.now s).0 ≤ connection.deadline
    pub now_live : (s : S) → Live s → Live (w.now s).1
    pub now_keeps : (s : S) → content (w.now s).1 ≡ content s
    pub event_made :
        (s : S)
        → Live s
        → (event : ℕ) × (s' : S) × (w.create_event s ≡ (some event, s'))
          × Live s'
          × (content s' ≡ content s)
    pub feeds :
        (event n m : ℕ) (s : S)
        → 0 < m
        → m ≤ n
        → Live s
        → Feeds event n s (w.read_file connection.handle m event s)
    pub close_gives :
        (event n k : ℕ) (s s' : S) → Given n s k s' → Given n s k (w.close_handle event s')

  module _ (feed : IsFeed) where
    -- The outcome of a read of `n` bytes.
    Gives : ℕ → S → Outcome S ℕ → Type 0
    Gives n s r = (k : ℕ) × (s' : S) × (r ≡ (ok k, s')) × Given n s k s'

    on_read-Gives :
        (event n timeout : ℕ) (s : S) (r : Option ℕ × S)
        → Feeds event n s r
        → Gives n s (on_read w connection.handle event timeout r)
    unfolding Gives on_read
    on_read-Gives event n timeout s (some k, s') (at_once g) =
        (k, w.close_handle event s', refl, feed.close_gives event n k s s' g)
    on_read-Gives event n timeout s (none, s') (later e more) =
        let (k, s₂, s₃, waits, results, g) = more (duration_to_millis timeout) in
        (
          k,
          w.close_handle event s₃,
          (rw e (
              unfold is_broken_pipe is_io_pending wait_overlapped in
              rw waits (unfold on_wait in rw results (unfold on_result close_after in refl)))),
          feed.close_gives event n k s s₃ g,
        )
    on_read-Gives event n timeout s (none, s') (closed e g) = (
      0,
      w.close_handle event s',
      (rw e (unfold is_broken_pipe in refl)),
      feed.close_gives event n 0 s s' g,
    )

    -- What a state with the same input gives.
    same_input : (n k : ℕ) (s t s' : S) → content t ≡ content s → Given n t k s' → Given n s k s'
    same_input n k s t s' e g = record {
      live = g.live;
      splits = g.splits ∙ e;
      fits = g.fits;
      progress = λ p. g.progress (rw e p);
    }

    read_some-Gives :
        (n timeout : ℕ) (s : S)
        → 0 < n
        → Live s
        → Gives n s (read_some w connection.handle n timeout s)
    unfolding Gives read_some read_with
    read_some-Gives n timeout s p l =
        let (event, s₁, made, l₁, same) = feed.event_made s l in
        let (k, s', e, g) =
          on_read-Gives event n timeout s₁
            (w.read_file connection.handle (transfer_size n) event s₁)
            (feed.feeds event n (transfer_size n) s₁ (omega arith) (omega arith) l₁) in
        (k, s', (rw made e), same_input n k s s₁ s' same g)

    remaining_in_time :
        (s : S)
        → Live s
        → remaining w connection s ≡ (ok (connection.deadline - (w.now s).0), (w.now s).1)
    unfolding remaining time_left
    remaining_in_time s l = elim (Bool-cases (leb (w.now s).0 connection.deadline)) [
      | inl e ↦ rw e refl
      | inr e ↦ let early = feed.in_time s l in absurd (ground arith)
    ]

    deliver : (n : ℕ) (s : S) → 0 < n → Live s → Delivery (read w connection) Live content n s
    unfolding Gives read read_until_deadline on_read_some
    deliver zero s p l = absurd (omega arith)
    deliver (suc n) s p l =
        let (k, s', e, g) =
          read_some-Gives (suc n) (connection.deadline - (w.now s).0) (w.now s).1 p
            (feed.now_live s l) in
        record {
          piece = take k (w.buffer (suc n) s');
          after = s';
          reads = rw (remaining_in_time s l) (rw e refl);
          live = g.live;
          splits = g.splits ∙ feed.now_keeps s;
          fits = g.fits;
          progress = λ q. g.progress (rw (feed.now_keeps s) q);
        }

    pub read-IsSource : IsSource (read w connection) Live content
    read-IsSource = record { deliver = deliver }
