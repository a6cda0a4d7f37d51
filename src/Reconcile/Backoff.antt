-- ===== src/Reconcile/Backoff.antt =====
-- `failRecord` of internal/reconcile/reconciler.go.
pub mod Bounds
use hetdns.Prelude.{ℕ, ◌+◌, ◌-◌, ◌*◌, ◌^◌, min, Option, none, some, if◌then◌else◌}
use hetdns.Prelude.Int.{ℤ, pos, minute, hour, ltb_ℤ, add_time}
use hetdns.Prelude.Text.{Text}
use hetdns.Prelude.Map.{or_zero, lookup, insert}
use hetdns.Hetzner.Types.{ApiError, Error, as_api}
use hetdns.Reconcile.State.{Retry, zero_retry, Env, M, ◌>>=◌, ◌>>◌, return, now, set_backoff}

-- Doubling from one minute, up to 64 of them.
abbrev doubling : ℕ → ℤ
doubling failures = pos (minute * 2 ^ min (failures - 1) 6)

abbrev asked : Option ApiError → ℤ → ℤ
asked none delay = delay
asked (some e) delay = if ltb_ℤ delay e.retry_after then e.retry_after else delay

-- The delay after a number of failures in a row, the last of them by an error.
unfoldable pub retry_delay : ℕ → Error → ℤ
retry_delay failures e =
    let delay = asked (as_api e) (doubling failures) in
    if ltb_ℤ (pos hour) delay then pos hour else delay

module _ {W : Type 0} (env : Env W) where
  get_retry : Text → M W Retry
  get_retry id s = (or_zero zero_retry (lookup id s.backoff), s)

  -- `failRecord`.
  unfoldable pub fail_record : Text → Error → M W ℕ
  unfolding get_retry
  fail_record id e = do
    state ← get_retry id
    let failures = state.failures + 1
    t ← now env
    let next = add_time t (retry_delay failures e)
    set_backoff (insert id (record { failures = failures; next = next }))
    return next
