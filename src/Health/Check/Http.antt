-- ===== src/Health/Check/Http.antt =====
-- healthcheck/healthcheck.go: when an HTTP check passes.
use newt.Prelude.{
  ◌≡◌, ◌↔◌, ◌⊎◌, inl, inr, none, [], arith, ℤ, pos, ltb_ℤ, leb_ℤ, true, false, refl, Option-cases,
  int_eq, int_beq_iff,
}
use newt.Health.{Config, Client}
use newt.Health.Check.{
  Network, Request, Response, no_response, status_code, check_url, add_headers, check_status, judge,
  perform_http_check,
}

-- The request that a check sends.
abbrev pub request : Config → Request
request c =
    add_headers c.headers
      (record { method = c.method; url = check_url c; host = none; headers = [] })

-- The codes that count as healthy.
abbrev pub Accepts : ℤ → ℤ → Type 0
Accepts expected got =
    ((ltb_ℤ (pos 0) expected ≡ true) × (got ≡ expected))
    ⊎ ((ltb_ℤ (pos 0) expected ≡ false)
        × (leb_ℤ (pos 200) got ≡ true)
        × (ltb_ℤ got (pos 300) ≡ true))

check_status_iff : (expected got : ℤ) → (check_status expected got ≡ none) ↔ Accepts expected got
unfolding check_status
check_status_iff expected got =
    (λ h. ground (arith, int_beq_iff got expected), λ h. ground (arith, int_beq_iff got expected))

judge_iff :
    (c : Config) (r : Response)
    → (judge c r ≡ none) ↔ ((got : ℤ) × (r ≡ status_code got) × Accepts c.status got)
unfolding judge
judge_iff c (no_response err) = (λ h. cc, λ (got, e, a). cc)
judge_iff c (status_code got) = (
  λ h. (got, refl, (check_status_iff c.status got).0 h),
  λ (other, e, a). (check_status_iff c.status got).1 (ground arith),
)

-- An HTTP check passes exactly when the request can be made, an answer arrives, and its code is the
-- expected one if a positive code is configured, and from 200 to 299 otherwise.
pub http_check_passes_iff :
    (net : Network) (c : Config) (client : Client)
    → (perform_http_check net c client ≡ none) ↔ (
        (net.new_request c.method (check_url c) ≡ none)
        × (got : ℤ) × (net.send client c.timeout (request c) ≡ status_code got)
        × Accepts c.status got)
unfolding perform_http_check
http_check_passes_iff net c client = elim (Option-cases (net.new_request c.method (check_url c))) [
  | inl e ↦
      let answer = judge_iff c (net.send client c.timeout (request c)) in
      rw (e, perform_http_check)
        (
          λ h. let (got, sent, ok) = answer.0 h in (refl, got, sent, ok),
          λ (_, got, sent, ok). answer.1 (got, sent, ok),
        )
  | inr (err, e) ↦ rw (e, perform_http_check) (λ h. cc, λ h. cc h.0)
]
