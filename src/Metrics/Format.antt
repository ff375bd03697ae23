-- ===== src/Metrics/Format.antt =====
-- metrics.rs: `format_metrics`. The two decimals of a float, `{:.2}`, come from a parameter.
use libagent.Base.{ℕ, Bool, Option, none, some, [], ◌∷◌, ◌++◌, ltb, if◌then◌else◌}
use libagent.Text.{Bytes, codes, lf}
use libagent.Text.Number.{to_string}
use libagent.Metrics.{Metrics, ResponseTimeStats}

-- `push_str(&format!("    NAME: {}\n", n))`.
unfoldable pub counter_line : Bytes → ℕ → Bytes
counter_line label n = label ++ (to_string n ++ (lf ∷ []))

module _ {F : Type 0} (two_decimals : F → Bytes) (positive : F → Bool) (seconds : ℕ → F) where
  unfoldable pub uptime_line : Option ℕ → Bytes
  uptime_line none = codes "  uptime_seconds: not_initialized" ++ (lf ∷ [])
  uptime_line (some up) = codes "  uptime_seconds: " ++ (two_decimals (seconds up) ++ (lf ∷ []))

  -- A class is shown once its average is above 0.
  unfoldable pub average_line : Bytes → F → Bytes
  average_line label average =
      if positive average then label ++ (two_decimals average ++ (codes "ms" ++ (lf ∷ []))) else []

  unfoldable pub averages : ResponseTimeStats F → Bytes
  unfolding average_line
  averages st =
      if ltb 0 st.sample_count
      then codes "    all_responses: "
        ++ (two_decimals st.ema_all
            ++ (codes "ms ("
                ++ (to_string st.sample_count
                    ++ (codes " samples)"
                        ++ (lf
                            ∷ (average_line (codes "    2xx_responses: ") st.ema_2xx
                                ++ (average_line (codes "    4xx_responses: ") st.ema_4xx
                                    ++ average_line (codes "    5xx_responses: ") st.ema_5xx)))))))
      else codes "    no_response_times_recorded" ++ (lf ∷ [])

  -- The first argument is the uptime at the time of the call.
  unfoldable pub format_metrics : Option ℕ → Metrics F → Bytes
  unfolding counter_line uptime_line averages
  format_metrics up m =
      codes "libagent metrics:"
      ++ (lf
          ∷ (counter_line (codes "  agent_spawns: ") m.agent_spawns
              ++ (counter_line (codes "  trace_agent_spawns: ") m.trace_agent_spawns
                  ++ (counter_line (codes "  agent_failures: ") m.agent_failures
                      ++ (counter_line (codes "  trace_agent_failures: ") m.trace_agent_failures
                          ++ (uptime_line up
                              ++ (lf
                                  ∷ (codes "  HTTP Proxy Requests:"
                                      ++ (lf
                                          ∷ (counter_line (codes "    GET: ") m.proxy_get_requests
                                              ++ (counter_line (codes "    POST: ")
                                                    m.proxy_post_requests
                                                  ++ (counter_line (codes "    PUT: ")
                                                        m.proxy_put_requests
                                                      ++ (counter_line (codes "    DELETE: ")
                                                            m.proxy_delete_requests
                                                          ++ (counter_line (codes "    PATCH: ")
                                                            m.proxy_patch_requests
                                                            ++ (counter_line (codes "    HEAD: ")
                                                            m.proxy_head_requests
                                                            ++ (counter_line (codes "    OPTIONS: ")
                                                            m.proxy_options_requests
                                                            ++ (counter_line (codes "    OTHER: ")
                                                            m.proxy_other_requests
                                                            ++ (lf
                                                            ∷ (codes "  HTTP Proxy Responses:"
                                                            ++ (lf
                                                            ∷ (counter_line (codes "    2xx: ")
                                                            m.proxy_2xx_responses
                                                            ++ (counter_line (codes "    3xx: ")
                                                            m.proxy_3xx_responses
                                                            ++ (counter_line (codes "    4xx: ")
                                                            m.proxy_4xx_responses
                                                            ++ (counter_line (codes "    5xx: ")
                                                            m.proxy_5xx_responses
                                                            ++ (lf
                                                            ∷ (codes
                                                            "  Response Time Moving Averages (ms):"
                                                            ++ (lf
                                                            ∷ (averages m.response_times
                                                            ++ (lf
                                                            ∷ (codes "  DogStatsD Metrics:"
                                                            ++ (lf
                                                            ∷ (counter_line (codes "    requests: ")
                                                            m.dogstatsd_requests
                                                            ++ (counter_line
                                                            (codes "    successes: ")
                                                            m.dogstatsd_successes
                                                            ++ counter_line (codes "    errors: ")
                                                            m.dogstatsd_errors)))))))))))))))))))))))))))))))))
