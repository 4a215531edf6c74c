-- ===== src/Client/Retry.antt =====
-- `RetryState` of client/src/retry.rs. Times are milliseconds; the instant that the code reads from the clock
-- is an argument, and a retry returns for how long it sleeps.
use sekv.Prelude.{
  ℕ, ◌-◌, ◌*◌, ◌+◌, ◌≤◌, ◌≡◌, refl, Bool, true, false, Option, none, some, arith, ltb,
  if◌then◌else◌, Bool-cases, inl, inr,
}
use sekv.Client.Error.{
  ClientError, ClientResult, ok, err, ◌>>=◌, not_found, epoch_not_match, group_not_accessable,
  not_leader, group_not_found, not_root_leader, connect, panicked, deadline_exceeded,
}

abbrev pub min_interval_ms : ℕ
min_interval_ms = 8

abbrev pub max_interval_ms : ℕ
max_interval_ms = 3000

pub record RetryState : Type 0 where
  pub interval_ms : ℕ
  pub deadline : Option ℕ

abbrev pub min : ℕ → ℕ → ℕ
min a b = if ltb b a then b else a

-- `RetryState::with_timeout_opt`: a deadline that no instant can hold is none.
unfoldable pub with_timeout_opt : (ℕ → ℕ → Option ℕ) → ℕ → Option ℕ → RetryState
with_timeout_opt checked_add now none = record { interval_ms = min_interval_ms; deadline = none }
with_timeout_opt checked_add now (some timeout) = record {
  interval_ms = min_interval_ms;
  deadline = checked_add now timeout;
}

-- `RetryState::new`
unfoldable pub new : (ℕ → ℕ → Option ℕ) → ℕ → ℕ → RetryState
new checked_add now timeout = record {
  interval_ms = min_interval_ms;
  deadline = checked_add now timeout;
}

unfoldable pub with_deadline_opt : Option ℕ → RetryState
with_deadline_opt deadline = record { interval_ms = min_interval_ms; deadline = deadline }

unfoldable pub with_deadline : ℕ → RetryState
with_deadline deadline = with_deadline_opt (some deadline)

-- The time that is left, none past the deadline.
unfoldable pub time_left : ℕ → RetryState → Option ℕ
time_left now state = elim (state.deadline) [ none ↦ none | some deadline ↦ some (deadline - now) ]

unfoldable pub reset_wait_interval : RetryState → RetryState
reset_wait_interval state = record state { interval_ms = min_interval_ms }

unfoldable pub is_retryable : ClientError → ClientResult Bool
is_retryable not_found = ok true
is_retryable epoch_not_match = ok true
is_retryable group_not_accessable = ok true
is_retryable not_leader = err panicked
is_retryable group_not_found = err panicked
is_retryable not_root_leader = err panicked
is_retryable connect = err panicked
is_retryable panicked = err panicked
is_retryable _ = ok false

-- `RetryState::force_retry`: the time to sleep, and the state after.
unfoldable pub force_retry : ℕ → RetryState → ClientResult (ℕ × RetryState)
force_retry now state =
    let next : RetryState = record {
      interval_ms = min (state.interval_ms * 2) max_interval_ms;
      deadline = state.deadline;
    } in
    elim state.deadline [
      | none ↦ ok (state.interval_ms, next)
      | some deadline ↦
          if ltb deadline now
          then err deadline_exceeded
          else ok (min state.interval_ms (deadline - now), next)
    ]

unfoldable pub retry : ℕ → ClientError → RetryState → ClientResult (ℕ × RetryState)
unfolding is_retryable force_retry
retry now e state = do
  retryable ← is_retryable e
  if retryable then force_retry now state else err e

abbrev pub IsBackoff : RetryState → Type 0
IsBackoff state = (min_interval_ms ≤ state.interval_ms) × (state.interval_ms ≤ max_interval_ms)

abbrev pub NotAfter : ℕ → Option ℕ → Type 0
NotAfter time none = Unit
NotAfter time (some deadline) = time ≤ deadline

module _ (now interval : ℕ) (sleep : ℕ) (next : RetryState)
    (b : (8 ≤ interval) × (interval ≤ 3000)) where
  abbrev Kept : Option ℕ → Type 0
  Kept deadline =
      IsBackoff next
      × (next.deadline ≡ deadline)
      × (sleep ≤ interval)
      × NotAfter (now + sleep) deadline

  force_retry-Kept :
      (deadline : Option ℕ)
      → force_retry now (record { interval_ms = interval; deadline = deadline }) ≡ ok (sleep, next)
      → Kept deadline
  unfolding force_retry
  force_retry-Kept none h =
      let slept : interval ≡ sleep = cc in
      let after : record { interval_ms = min (interval * 2) max_interval_ms; deadline = none }
          ≡ next =
        cc in
      rw (← after, ← slept) ((ground arith, ground arith), refl, omega arith, tt)
  force_retry-Kept (some d) h = elim (Bool-cases (ltb d now)) [
    | inl late ↦
        let refused : Path (ClientResult (ℕ × RetryState)) (err deadline_exceeded)
            (ok (sleep, next)) =
          rw late at h in
        absurd cc
    | inr soon ↦
        let done : Path (ClientResult (ℕ × RetryState))
            (ok (
              min interval (d - now),
              record { interval_ms = min (interval * 2) max_interval_ms; deadline = some d },
            ))
            (ok (sleep, next)) =
          rw soon at h in
        let slept : min interval (d - now) ≡ sleep = cc in
        let after : record { interval_ms = min (interval * 2) max_interval_ms; deadline = some d }
            ≡ next =
          cc in
        rw (← after, ← slept) ((ground arith, ground arith), refl, ground arith, ground arith)
  ]

-- A retry keeps the deadline, never sleeps past it, sleeps no longer than the interval, and leaves an interval
-- between the smallest and the largest, given one.
force_retry-IsBackoff :
    (now : ℕ) (state : RetryState) (sleep : ℕ) (next : RetryState)
    → IsBackoff state
    → force_retry now state ≡ ok (sleep, next)
    → IsBackoff next
      × (next.deadline ≡ state.deadline)
      × (sleep ≤ state.interval_ms)
      × NotAfter (now + sleep) state.deadline
unfolding force_retry
force_retry-IsBackoff now state sleep next b h =
    force_retry-Kept now state.interval_ms sleep next b state.deadline h
