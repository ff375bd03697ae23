-- ===== src/Metrics/Averages.antt =====
-- What any number of calls of `record_proxy_response` leaves: counts and moving averages by class.
use libagent.Base.{
  ℕ, suc, ◌+◌, ◌%◌, ◌<◌, ◌≡◌, refl, ap, ◌∙◌, inl, inr, List, [], ◌∷◌, arith, ◌==◌, ◌&&◌, leb, ltb,
  if◌then◌else◌, length, Bool-cases,
}
use libagent.Metrics.{
  Floats, Metrics, u64_mod, fetch_add_one, in_class, blend, blend_class, record_proxy_response,
}
use libagent.Metrics.Classes.{
  ok_step, redirect_step, client_step, server_step, ok_mean, client_mean, server_mean, all_mean,
  samples_step,
}

module _ {F : Type 0} (floats : Floats F) where
  -- The responses, each with its status and its duration, are recorded in turn.
  unfoldable pub record_all : Metrics F → List (ℕ × F) → Metrics F
  record_all m [] = m
  record_all m ((code, duration) ∷ rs) =
      record_all (record_proxy_response floats m code duration) rs

  -- The durations of the responses whose status is in a class.
  unfoldable pub within : ℕ → ℕ → List (ℕ × F) → List F
  within lo hi [] = []
  within lo hi ((code, duration) ∷ rs) =
      let rest = within lo hi rs in if leb lo code && ltb code hi then duration ∷ rest else rest

  -- One sample more: a tenth of it, and nine tenths of the average.
  abbrev pub smoothed : F → F → F
  smoothed average duration =
      floats.add (floats.mul floats.alpha duration) (floats.mul floats.one_minus_alpha average)

  -- The average behind some samples, where 0.0 stands for no sample yet.
  unfoldable pub mean : F → List F → F
  mean average [] = average
  mean average (d ∷ ds) = mean (if floats.is_zero average then d else smoothed average d) ds

  -- The average over all responses, of which there were `n`: the first sample is the first average.
  unfoldable pub mean_all : ℕ → F → List (ℕ × F) → F
  mean_all n average [] = average
  mean_all n average ((code, d) ∷ rs) =
      mean_all (suc n) (if n == 0 then d else smoothed average d) rs

  -- The counters of a record are 64-bit numbers.
  pub record Fits (m : Metrics F) : Type 0 where
    pub ok : m.proxy_2xx_responses < u64_mod
    pub redirect : m.proxy_3xx_responses < u64_mod
    pub client : m.proxy_4xx_responses < u64_mod
    pub server : m.proxy_5xx_responses < u64_mod

  -- `m'` has counted the responses `rs` behind `m`.
  pub record Tallies (m : Metrics F) (rs : List (ℕ × F)) (m' : Metrics F) : Type 0 where
    pub ok : m'.proxy_2xx_responses ≡ (m.proxy_2xx_responses + length (within 200 300 rs)) % u64_mod
    pub redirect :
        m'.proxy_3xx_responses ≡ (m.proxy_3xx_responses + length (within 300 400 rs)) % u64_mod
    pub client :
        m'.proxy_4xx_responses ≡ (m.proxy_4xx_responses + length (within 400 500 rs)) % u64_mod
    pub server :
        m'.proxy_5xx_responses ≡ (m.proxy_5xx_responses + length (within 500 600 rs)) % u64_mod
    pub mean_ok : m'.response_times.ema_2xx ≡ mean m.response_times.ema_2xx (within 200 300 rs)
    pub mean_client : m'.response_times.ema_4xx ≡ mean m.response_times.ema_4xx (within 400 500 rs)
    pub mean_server : m'.response_times.ema_5xx ≡ mean m.response_times.ema_5xx (within 500 600 rs)
    pub mean_of_all :
        m'.response_times.ema_all
        ≡ mean_all m.response_times.sample_count m.response_times.ema_all rs
    pub samples : m'.response_times.sample_count ≡ m.response_times.sample_count + length rs

  -- A counter that each response of a class moves on counts the class.
  counts :
      (get : Metrics F → ℕ) (lo hi : ℕ)
      → ((m : Metrics F) (code : ℕ) (d : F)
          → get (record_proxy_response floats m code d)
            ≡ (if in_class lo hi code then fetch_add_one (get m) else get m))
      → (m : Metrics F) (rs : List (ℕ × F)) → get m < u64_mod
      → get (record_all m rs) ≡ (get m + length (within lo hi rs)) % u64_mod
  unfolding record_all within
  counts get lo hi step m [] h = omega arith
  counts get lo hi step m ((code, d) ∷ rs) h =
      let m' = record_proxy_response floats m code d in
      elim (Bool-cases (in_class lo hi code)) [
        | inl e ↦
            let one : get m' ≡ fetch_add_one (get m) = step m code d ∙ rw e refl in
            let ih = counts get lo hi step m' rs (omega arith) in rw e (omega arith)
        | inr e ↦
            let same : get m' ≡ get m = step m code d ∙ rw e refl in
            let ih = counts get lo hi step m' rs (omega arith) in rw e (omega arith)
      ]

  averages :
      (get : Metrics F → F) (lo hi : ℕ)
      → ((m : Metrics F) (code : ℕ) (d : F)
          → get (record_proxy_response floats m code d)
            ≡ (if in_class lo hi code then blend_class floats d (get m) else get m))
      → (m : Metrics F) (rs : List (ℕ × F)) → get (record_all m rs) ≡ mean (get m) (within lo hi rs)
  unfolding record_all within mean blend_class blend
  averages get lo hi step m [] = refl
  averages get lo hi step m ((code, d) ∷ rs) =
      let m' = record_proxy_response floats m code d in
      elim (Bool-cases (in_class lo hi code)) [
        | inl e ↦
            averages get lo hi step m' rs
            ∙ rw e (ap (λ a. mean a (within lo hi rs)) (step m code d ∙ rw e refl))
        | inr e ↦
            averages get lo hi step m' rs
            ∙ rw e (ap (λ a. mean a (within lo hi rs)) (step m code d ∙ rw e refl))
      ]

  overall :
      (m : Metrics F) (rs : List (ℕ × F))
      → m.response_times.sample_count + length rs < u64_mod
      → ((record_all m rs).response_times.ema_all
          ≡ mean_all m.response_times.sample_count m.response_times.ema_all rs)
        × ((record_all m rs).response_times.sample_count
            ≡ m.response_times.sample_count + length rs)
  unfolding record_all mean_all blend
  overall m [] h = (refl, omega arith)
  overall m ((code, d) ∷ rs) h =
      let m' = record_proxy_response floats m code d in
      let next : m'.response_times.sample_count ≡ suc m.response_times.sample_count =
        samples_step floats m code d ∙ omega arith in
      let (e₁, e₂) = overall m' rs (omega arith) in
      (e₁ ∙ rw (next, all_mean floats m code d) refl, e₂ ∙ omega arith)

  -- Any number of responses, recorded in turn. The counter of each class has gone on by the number of
  -- responses whose status is in its hundred, modulo 2 ^ 64; the averages of the 2xx, 4xx and 5xx
  -- responses have taken exactly the durations of those, in order, each a tenth of the new average
  -- unless the old one is 0.0; the average over all has taken all durations, the first as it is; and
  -- the samples are counted, where that count stays below 2 ^ 64.
  pub record_all-Tallies :
      (m : Metrics F) (rs : List (ℕ × F))
      → Fits m
      → m.response_times.sample_count + length rs < u64_mod
      → Tallies m rs (record_all m rs)
  record_all-Tallies m rs fits h =
      let (mean_of_all, samples) = overall m rs h in
      record {
        ok = counts (λ m. m.proxy_2xx_responses) 200 300 (ok_step floats) m rs fits.ok;
        redirect =
            counts (λ m. m.proxy_3xx_responses) 300 400 (redirect_step floats) m rs fits.redirect;
        client = counts (λ m. m.proxy_4xx_responses) 400 500 (client_step floats) m rs fits.client;
        server = counts (λ m. m.proxy_5xx_responses) 500 600 (server_step floats) m rs fits.server;
        mean_ok = averages (λ m. m.response_times.ema_2xx) 200 300 (ok_mean floats) m rs;
        mean_client = averages (λ m. m.response_times.ema_4xx) 400 500 (client_mean floats) m rs;
        mean_server = averages (λ m. m.response_times.ema_5xx) 500 600 (server_mean floats) m rs;
        mean_of_all = mean_of_all;
        samples = samples;
      }
