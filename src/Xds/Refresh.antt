-- ===== src/Xds/Refresh.antt =====
-- src/control_plane/xds/refresh/gate.rs: whether a background refresh of country or threat lists runs.
-- Instants and durations are numbers of nanoseconds.
use xdp_firewall.Prelude.{
  ℕ, ◌+◌, ◌-◌, ◌≤◌, ◌≡◌, ◌↔◌, ◌⊎◌, inl, inr, Bool, true, false, not, ◌&&◌, Option, none, some, ltb,
  leb, if◌then◌else◌, arith, Bool-cases,
}

pub record RefreshGate : Type 0 where
  pub running : Bool
  pub retry_throttled : Bool
  pub within_interval : Bool

pub data RefreshSkip : Type 0 where
  is_running is_retry_throttled is_within_interval : RefreshSkip

-- `checked_duration_since` is `none` when `last` is after `now`
abbrev pub elapsed_less_than : Option ℕ → ℕ → ℕ → Bool
elapsed_less_than none now interval = false
elapsed_less_than (some last) now interval =
    if leb last now then ltb (now - last) interval else false

unfoldable pub refresh_gate : Bool → Option ℕ → Option ℕ → ℕ → ℕ → ℕ → RefreshGate
refresh_gate running last_success last_attempt started_at interval retry_interval = record {
  running = running;
  retry_throttled = elapsed_less_than last_attempt started_at retry_interval;
  within_interval = elapsed_less_than last_success started_at interval;
}

unfoldable pub refresh_skip_without_missing : RefreshGate → Option RefreshSkip
refresh_skip_without_missing gate =
    if gate.running
    then some is_running
    else if gate.retry_throttled
    then some is_retry_throttled
    else none

-- `or_else` with `then_some`
abbrev pub or_within : Option RefreshSkip → Bool → Option RefreshSkip
or_within (some skip) within = some skip
or_within none within = if within then some is_within_interval else none

unfoldable pub refresh_skip_with_missing : RefreshGate → Bool → Option RefreshSkip
unfolding refresh_skip_without_missing
refresh_skip_with_missing gate missing_data =
    or_within (refresh_skip_without_missing gate) (gate.within_interval && not missing_data)

-- The last event, if there was one and it is not after now, is at least the interval ago.
abbrev pub HasElapsed : Option ℕ → ℕ → ℕ → Type 0
HasElapsed none now interval = Unit
HasElapsed (some last) now interval = last ≤ now → last + interval ≤ now

elapsed_iff :
    (last : Option ℕ) (now interval : ℕ)
    → (elapsed_less_than last now interval ≡ false) ↔ HasElapsed last now interval
elapsed_iff none now interval = ground arith
elapsed_iff (some last) now interval = (
  (λ h le. ground arith),
  (λ h. elim (Bool-cases (leb last now)) [
    | inl before ↦ rw before (let far : last + interval ≤ now = h (ground arith) in ground arith)
    | inr after ↦ rw after
  ]),
)

skip-none_iff :
    (running throttled within missing : Bool)
    → (refresh_skip_with_missing
          (record { running = running; retry_throttled = throttled; within_interval = within })
          missing
        ≡ none)
      ↔ ((running ≡ false) × (throttled ≡ false) × ((missing ≡ true) ⊎ (within ≡ false)))
unfolding refresh_skip_with_missing refresh_skip_without_missing
skip-none_iff running throttled within missing = ground arith

-- A refresh runs exactly when none is running, the last attempt is at least the retry interval ago, and
-- data is missing or the last success is at least the refresh interval ago.
pub refresh_runs_iff :
    (running missing : Bool) (last_success last_attempt : Option ℕ)
    (started_at interval retry_interval : ℕ)
    → (refresh_skip_with_missing
          (refresh_gate running last_success last_attempt started_at interval retry_interval)
          missing
        ≡ none)
      ↔ ((running ≡ false)
          × HasElapsed last_attempt started_at retry_interval
          × ((missing ≡ true) ⊎ HasElapsed last_success started_at interval))
unfolding refresh_gate
refresh_runs_iff running missing last_success last_attempt started_at interval retry_interval =
    let attempt = elapsed_iff last_attempt started_at retry_interval in
    let success = elapsed_iff last_success started_at interval in
    let skip =
      skip-none_iff running (elapsed_less_than last_attempt started_at retry_interval)
        (elapsed_less_than last_success started_at interval) missing in
    (
      (λ h.
          let (r, a, s) = skip.0 h in
          (r, attempt.0 a, elim s [ inl m ↦ inl m | inr w ↦ inr (success.0 w) ])),
      (λ h. skip.1 (h.0, attempt.1 h.1, elim h.2 [ inl m ↦ inl m | inr w ↦ inr (success.1 w) ])),
    )
