-- ===== src/Metrics/Laws.antt =====
-- What the recording operations of metrics.rs count.
use libagent.Base.{
  ℕ, ◌+◌, ◌≤◌, ◌<◌, ◌≡◌, refl, ap, ◌∙◌, ◌≢◌, ◌⊎◌, inl, inr, arith, if◌then◌else◌, Bool-cases,
}
use libagent.Text.{Bytes}
use libagent.Metrics.{
  Floats, ResponseTimeStats, Metrics, u64_mod, fetch_add_one, in_class, update, Class, success,
  redirect, client_error, server_error, ignored, class_of, count_class, record_proxy_response,
  Method, get, post, delete, patch, put, head, options, other, count_method, record_proxy_request,
}

class_of-ne_ignored : (code : ℕ) → 200 ≤ code → code < 600 → class_of code ≢ ignored
unfolding class_of
class_of-ne_ignored code lo hi = ground arith

class_of-eq_ignored : (code : ℕ) → (code < 200) ⊎ (600 ≤ code) → class_of code ≡ ignored
unfolding class_of
class_of-eq_ignored code h = ground arith

module _ {F : Type 0} where
  -- All proxy requests that were counted, over the methods.
  unfoldable pub requests : Metrics F → ℕ
  requests m =
      m.proxy_get_requests + m.proxy_post_requests + m.proxy_delete_requests
      + m.proxy_patch_requests + m.proxy_put_requests + m.proxy_head_requests
      + m.proxy_options_requests + m.proxy_other_requests

  unfoldable pub responses : Metrics F → ℕ
  responses m =
      m.proxy_2xx_responses + m.proxy_3xx_responses + m.proxy_4xx_responses + m.proxy_5xx_responses

  requests-count_method :
      (k : Method) (m : Metrics F)
      → requests m + 1 < u64_mod
      → (requests (count_method k m) ≡ requests m + 1)
        × (responses (count_method k m) ≡ responses m)
  unfolding requests responses count_method
  requests-count_method get m h = omega arith
  requests-count_method post m h = omega arith
  requests-count_method delete m h = omega arith
  requests-count_method patch m h = omega arith
  requests-count_method put m h = omega arith
  requests-count_method head m h = omega arith
  requests-count_method options m h = omega arith
  requests-count_method other m h = omega arith

  -- Below the wrap-around, a request is counted under exactly one method, and no response is counted.
  pub requests-record_proxy_request :
      (to_uppercase : Bytes → Bytes) (method : Bytes) (m : Metrics F)
      → requests m + 1 < u64_mod
      → (requests (record_proxy_request to_uppercase method m) ≡ requests m + 1)
        × (responses (record_proxy_request to_uppercase method m) ≡ responses m)
  unfolding record_proxy_request
  requests-record_proxy_request up method m h = requests-count_method _ m h

  responses-count_class :
      (floats : Floats F) (k : Class) (m : Metrics F)
      → responses m + 1 < u64_mod
      → k ≢ ignored
      → responses (count_class floats k m) ≡ responses m + 1
  unfolding responses count_class
  responses-count_class floats success m h k = omega arith
  responses-count_class floats redirect m h k = omega arith
  responses-count_class floats client_error m h k = omega arith
  responses-count_class floats server_error m h k = omega arith
  responses-count_class floats ignored m h k = absurd (k refl)

  pub sample_count-update :
      (floats : Floats F) (st : ResponseTimeStats F) (duration : F) (code : ℕ)
      → (update floats st duration code).sample_count ≡ fetch_add_one st.sample_count
  unfolding update
  sample_count-update floats st duration code = elim (Bool-cases (in_class 200 300 code)) [
    | inl e ↦ rw e
    | inr e ↦ rw e (elim (Bool-cases (in_class 400 500 code)) [
      | inl e₂ ↦ rw e₂
      | inr e₂ ↦
          rw e₂ (elim (Bool-cases (in_class 500 600 code)) [ inl e₃ ↦ rw e₃ | inr e₃ ↦ rw e₃ ])
    ])
  ]

  pub response_times-count_class :
      (floats : Floats F) (k : Class) (m : Metrics F)
      → (count_class floats k m).response_times ≡ m.response_times
  unfolding count_class
  response_times-count_class floats success m = refl
  response_times-count_class floats redirect m = refl
  response_times-count_class floats client_error m = refl
  response_times-count_class floats server_error m = refl
  response_times-count_class floats ignored m = refl

  responses-record_lem :
      (floats : Floats F) (m : Metrics F) (code : ℕ) (duration : F)
      → responses (record_proxy_response floats m code duration)
        ≡ responses (count_class floats (class_of code) m)
  unfolding responses record_proxy_response
  responses-record_lem floats m code duration = refl

  -- Every response is a sample of the averages. Below the wrap-around it is counted in one class if
  -- its status is from 200 to 599, and otherwise in none.
  pub responses-record_proxy_response :
      (floats : Floats F) (m : Metrics F) (code : ℕ) (duration : F)
      → responses m + 1 < u64_mod
      → m.response_times.sample_count + 1 < u64_mod
      → (responses (record_proxy_response floats m code duration)
          ≡ (if in_class 200 600 code then responses m + 1 else responses m))
        × ((record_proxy_response floats m code duration).response_times.sample_count
            ≡ m.response_times.sample_count + 1)
  responses-record_proxy_response floats m code duration h k = (counted, sampled)
    where
      counted :
          responses (record_proxy_response floats m code duration)
          ≡ (if in_class 200 600 code then responses m + 1 else responses m)
      counted =
          responses-record_lem floats m code duration ∙ (elim (Bool-cases (in_class 200 600 code)) [
            | inl e ↦ rw (
              e,
              responses-count_class floats (class_of code) m h
                  (class_of-ne_ignored code (ground arith) (ground arith)),
            )
            | inr e ↦ rw (e, class_of-eq_ignored code (ground arith)) (unfold count_class in refl)
          ])

      sampled :
          (record_proxy_response floats m code duration).response_times.sample_count
          ≡ m.response_times.sample_count + 1
      sampled =
          unfold record_proxy_response in
          omega (
            arith,
            sample_count-update floats (count_class floats (class_of code) m).response_times
                duration code,
            ap (λ (st : ResponseTimeStats F). st.sample_count)
                (response_times-count_class floats (class_of code) m),
          )

  requests-count_class :
      (floats : Floats F) (k : Class) (m : Metrics F)
      → requests (count_class floats k m) ≡ requests m
  unfolding requests count_class
  requests-count_class floats success m = refl
  requests-count_class floats redirect m = refl
  requests-count_class floats client_error m = refl
  requests-count_class floats server_error m = refl
  requests-count_class floats ignored m = refl

  pub requests-record_proxy_response :
      (floats : Floats F) (m : Metrics F) (code : ℕ) (duration : F)
      → requests (record_proxy_response floats m code duration) ≡ requests m
  unfolding requests record_proxy_response
  requests-record_proxy_response floats m code duration =
      unfold requests in requests-count_class floats (class_of code) m

  response_times-count_method :
      (k : Method) (m : Metrics F) → (count_method k m).response_times ≡ m.response_times
  unfolding count_method
  response_times-count_method get m = refl
  response_times-count_method post m = refl
  response_times-count_method delete m = refl
  response_times-count_method patch m = refl
  response_times-count_method put m = refl
  response_times-count_method head m = refl
  response_times-count_method options m = refl
  response_times-count_method other m = refl

  pub response_times-record_proxy_request :
      (to_uppercase : Bytes → Bytes) (method : Bytes) (m : Metrics F)
      → (record_proxy_request to_uppercase method m).response_times ≡ m.response_times
  unfolding record_proxy_request
  response_times-record_proxy_request up method m = response_times-count_method _ m
