-- ===== src/Metrics/Classes.antt =====
-- One call of `record_proxy_response`: which counter it moves on, and which average takes the sample.
use libagent.Base.{
  ℕ, ◌≡◌, refl, ap, ◌∙◌, inl, inr, true, false, arith, ◌==◌, if◌then◌else◌, Bool-cases,
}
use libagent.Metrics.{
  Floats, ResponseTimeStats, Metrics, fetch_add_one, in_class, blend, blend_class, update, Class,
  success, redirect, client_error, server_error, ignored, class_of, count_class,
  record_proxy_response,
}
use libagent.Metrics.Laws.{sample_count-update, response_times-count_class}

module _ {F : Type 0} (floats : Floats F) where
  -- The class of a status, by the four ranges.
  abbrev InRanges : ℕ → Class → Type 0
  InRanges code success =
      (in_class 200 300 code ≡ true)
      × (in_class 300 400 code ≡ false)
      × (in_class 400 500 code ≡ false)
      × (in_class 500 600 code ≡ false)
  InRanges code redirect =
      (in_class 200 300 code ≡ false)
      × (in_class 300 400 code ≡ true)
      × (in_class 400 500 code ≡ false)
      × (in_class 500 600 code ≡ false)
  InRanges code client_error =
      (in_class 200 300 code ≡ false)
      × (in_class 300 400 code ≡ false)
      × (in_class 400 500 code ≡ true)
      × (in_class 500 600 code ≡ false)
  InRanges code server_error =
      (in_class 200 300 code ≡ false)
      × (in_class 300 400 code ≡ false)
      × (in_class 400 500 code ≡ false)
      × (in_class 500 600 code ≡ true)
  InRanges code ignored =
      (in_class 200 300 code ≡ false)
      × (in_class 300 400 code ≡ false)
      × (in_class 400 500 code ≡ false)
      × (in_class 500 600 code ≡ false)

  class_of-InRanges : (code : ℕ) → InRanges code (class_of code)
  unfolding class_of
  class_of-InRanges code = elim (Bool-cases (in_class 200 300 code)) [
    | inl e ↦ rw e (e, ground arith, ground arith, ground arith)
    | inr e ↦ rw e (elim (Bool-cases (in_class 300 400 code)) [
      | inl e₂ ↦ rw e₂ (e, e₂, ground arith, ground arith)
      | inr e₂ ↦ rw e₂ (elim (Bool-cases (in_class 400 500 code)) [
        | inl e₃ ↦ rw e₃ (e, e₂, e₃, ground arith)
        | inr e₃ ↦ rw e₃ (elim (Bool-cases (in_class 500 600 code)) [
          | inl e₄ ↦ rw e₄ (e, e₂, e₃, e₄)
          | inr e₄ ↦ rw e₄ (e, e₂, e₃, e₄)
        ])
      ])
    ])
  ]

  ok_counts :
      (k : Class) (m : Metrics F) (code : ℕ)
      → InRanges code k
      → (count_class floats k m).proxy_2xx_responses ≡ (
          if in_class 200 300 code
          then fetch_add_one m.proxy_2xx_responses
          else m.proxy_2xx_responses)
  unfolding count_class
  ok_counts success m code (a, b, c, d) = rw a refl
  ok_counts redirect m code (a, b, c, d) = rw a refl
  ok_counts client_error m code (a, b, c, d) = rw a refl
  ok_counts server_error m code (a, b, c, d) = rw a refl
  ok_counts ignored m code (a, b, c, d) = rw a refl

  pub ok_step :
      (m : Metrics F) (code : ℕ) (duration : F)
      → (record_proxy_response floats m code duration).proxy_2xx_responses ≡ (
          if in_class 200 300 code
          then fetch_add_one m.proxy_2xx_responses
          else m.proxy_2xx_responses)
  unfolding record_proxy_response
  ok_step m code duration = ok_counts (class_of code) m code (class_of-InRanges code)

  redirect_counts :
      (k : Class) (m : Metrics F) (code : ℕ)
      → InRanges code k
      → (count_class floats k m).proxy_3xx_responses ≡ (
          if in_class 300 400 code
          then fetch_add_one m.proxy_3xx_responses
          else m.proxy_3xx_responses)
  unfolding count_class
  redirect_counts success m code (a, b, c, d) = rw b refl
  redirect_counts redirect m code (a, b, c, d) = rw b refl
  redirect_counts client_error m code (a, b, c, d) = rw b refl
  redirect_counts server_error m code (a, b, c, d) = rw b refl
  redirect_counts ignored m code (a, b, c, d) = rw b refl

  pub redirect_step :
      (m : Metrics F) (code : ℕ) (duration : F)
      → (record_proxy_response floats m code duration).proxy_3xx_responses ≡ (
          if in_class 300 400 code
          then fetch_add_one m.proxy_3xx_responses
          else m.proxy_3xx_responses)
  unfolding record_proxy_response
  redirect_step m code duration = redirect_counts (class_of code) m code (class_of-InRanges code)

  client_counts :
      (k : Class) (m : Metrics F) (code : ℕ)
      → InRanges code k
      → (count_class floats k m).proxy_4xx_responses ≡ (
          if in_class 400 500 code
          then fetch_add_one m.proxy_4xx_responses
          else m.proxy_4xx_responses)
  unfolding count_class
  client_counts success m code (a, b, c, d) = rw c refl
  client_counts redirect m code (a, b, c, d) = rw c refl
  client_counts client_error m code (a, b, c, d) = rw c refl
  client_counts server_error m code (a, b, c, d) = rw c refl
  client_counts ignored m code (a, b, c, d) = rw c refl

  pub client_step :
      (m : Metrics F) (code : ℕ) (duration : F)
      → (record_proxy_response floats m code duration).proxy_4xx_responses ≡ (
          if in_class 400 500 code
          then fetch_add_one m.proxy_4xx_responses
          else m.proxy_4xx_responses)
  unfolding record_proxy_response
  client_step m code duration = client_counts (class_of code) m code (class_of-InRanges code)

  server_counts :
      (k : Class) (m : Metrics F) (code : ℕ)
      → InRanges code k
      → (count_class floats k m).proxy_5xx_responses ≡ (
          if in_class 500 600 code
          then fetch_add_one m.proxy_5xx_responses
          else m.proxy_5xx_responses)
  unfolding count_class
  server_counts success m code (a, b, c, d) = rw d refl
  server_counts redirect m code (a, b, c, d) = rw d refl
  server_counts client_error m code (a, b, c, d) = rw d refl
  server_counts server_error m code (a, b, c, d) = rw d refl
  server_counts ignored m code (a, b, c, d) = rw d refl

  pub server_step :
      (m : Metrics F) (code : ℕ) (duration : F)
      → (record_proxy_response floats m code duration).proxy_5xx_responses ≡ (
          if in_class 500 600 code
          then fetch_add_one m.proxy_5xx_responses
          else m.proxy_5xx_responses)
  unfolding record_proxy_response
  server_step m code duration = server_counts (class_of code) m code (class_of-InRanges code)

  ok_updates :
      (k : Class) (st : ResponseTimeStats F) (duration : F) (code : ℕ)
      → InRanges code k
      → (update floats st duration code).ema_2xx
        ≡ (if in_class 200 300 code then blend_class floats duration st.ema_2xx else st.ema_2xx)
  unfolding update
  ok_updates success st duration code (a, b, c, d) = rw a refl
  ok_updates redirect st duration code (a, b, c, d) = rw (a, c, d) refl
  ok_updates client_error st duration code (a, b, c, d) = rw (a, c) refl
  ok_updates server_error st duration code (a, b, c, d) = rw (a, c, d) refl
  ok_updates ignored st duration code (a, b, c, d) = rw (a, c, d) refl

  pub ok_mean :
      (m : Metrics F) (code : ℕ) (duration : F)
      → (record_proxy_response floats m code duration).response_times.ema_2xx ≡ (
          if in_class 200 300 code
          then blend_class floats duration m.response_times.ema_2xx
          else m.response_times.ema_2xx)
  unfolding record_proxy_response
  ok_mean m code duration =
      ok_updates (class_of code) _ duration code (class_of-InRanges code)
      ∙ ap
          (λ (st : ResponseTimeStats F).
            if in_class 200 300 code then blend_class floats duration st.ema_2xx else st.ema_2xx)
          (response_times-count_class floats (class_of code) m)

  client_updates :
      (k : Class) (st : ResponseTimeStats F) (duration : F) (code : ℕ)
      → InRanges code k
      → (update floats st duration code).ema_4xx
        ≡ (if in_class 400 500 code then blend_class floats duration st.ema_4xx else st.ema_4xx)
  unfolding update
  client_updates success st duration code (a, b, c, d) = rw (a, c) refl
  client_updates redirect st duration code (a, b, c, d) = rw (a, c, d) refl
  client_updates client_error st duration code (a, b, c, d) = rw (a, c) refl
  client_updates server_error st duration code (a, b, c, d) = rw (a, c, d) refl
  client_updates ignored st duration code (a, b, c, d) = rw (a, c, d) refl

  pub client_mean :
      (m : Metrics F) (code : ℕ) (duration : F)
      → (record_proxy_response floats m code duration).response_times.ema_4xx ≡ (
          if in_class 400 500 code
          then blend_class floats duration m.response_times.ema_4xx
          else m.response_times.ema_4xx)
  unfolding record_proxy_response
  client_mean m code duration =
      client_updates (class_of code) _ duration code (class_of-InRanges code)
      ∙ ap
          (λ (st : ResponseTimeStats F).
            if in_class 400 500 code then blend_class floats duration st.ema_4xx else st.ema_4xx)
          (response_times-count_class floats (class_of code) m)

  server_updates :
      (k : Class) (st : ResponseTimeStats F) (duration : F) (code : ℕ)
      → InRanges code k
      → (update floats st duration code).ema_5xx
        ≡ (if in_class 500 600 code then blend_class floats duration st.ema_5xx else st.ema_5xx)
  unfolding update
  server_updates success st duration code (a, b, c, d) = rw (a, d) refl
  server_updates redirect st duration code (a, b, c, d) = rw (a, c, d) refl
  server_updates client_error st duration code (a, b, c, d) = rw (a, c, d) refl
  server_updates server_error st duration code (a, b, c, d) = rw (a, c, d) refl
  server_updates ignored st duration code (a, b, c, d) = rw (a, c, d) refl

  pub server_mean :
      (m : Metrics F) (code : ℕ) (duration : F)
      → (record_proxy_response floats m code duration).response_times.ema_5xx ≡ (
          if in_class 500 600 code
          then blend_class floats duration m.response_times.ema_5xx
          else m.response_times.ema_5xx)
  unfolding record_proxy_response
  server_mean m code duration =
      server_updates (class_of code) _ duration code (class_of-InRanges code)
      ∙ ap
          (λ (st : ResponseTimeStats F).
            if in_class 500 600 code then blend_class floats duration st.ema_5xx else st.ema_5xx)
          (response_times-count_class floats (class_of code) m)

  all_updates :
      (k : Class) (st : ResponseTimeStats F) (duration : F) (code : ℕ)
      → InRanges code k
      → (update floats st duration code).ema_all
        ≡ (if st.sample_count == 0 then duration else blend floats duration st.ema_all)
  unfolding update
  all_updates success st duration code (a, b, c, d) = rw a refl
  all_updates redirect st duration code (a, b, c, d) = rw (a, c, d) refl
  all_updates client_error st duration code (a, b, c, d) = rw (a, c) refl
  all_updates server_error st duration code (a, b, c, d) = rw (a, c, d) refl
  all_updates ignored st duration code (a, b, c, d) = rw (a, c, d) refl

  pub all_mean :
      (m : Metrics F) (code : ℕ) (duration : F)
      → (record_proxy_response floats m code duration).response_times.ema_all ≡ (
          if m.response_times.sample_count == 0
          then duration
          else blend floats duration m.response_times.ema_all)
  unfolding record_proxy_response
  all_mean m code duration =
      all_updates (class_of code) _ duration code (class_of-InRanges code)
      ∙ ap
          (λ (st : ResponseTimeStats F).
            if st.sample_count == 0 then duration else blend floats duration st.ema_all)
          (response_times-count_class floats (class_of code) m)

  pub samples_step :
      (m : Metrics F) (code : ℕ) (duration : F)
      → (record_proxy_response floats m code duration).response_times.sample_count
        ≡ fetch_add_one m.response_times.sample_count
  unfolding record_proxy_response
  samples_step m code duration =
      sample_count-update floats (count_class floats (class_of code) m).response_times duration code
      ∙ ap (λ (st : ResponseTimeStats F). fetch_add_one st.sample_count)
          (response_times-count_class floats (class_of code) m)
