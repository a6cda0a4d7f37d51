-- ===== src/Reconcile/Backoff/Bounds.antt =====
-- How long a failed record is left alone.
use hetdns.Prelude.{ℕ, zero, suc, ◌-◌, ◌^◌, ◌≤◌, min, arith}
use hetdns.Prelude.Int.{pos, minute, hour, ◌≤ℤ◌}
use hetdns.Hetzner.Types.{Error}
use hetdns.Reconcile.Backoff.{retry_delay}

-- The powers that the code can reach.
capped_power : (k : ℕ) → (k ≤ 6) → (1 ≤ 2 ^ k) × (2 ^ k ≤ 64)
capped_power zero h = omega arith
capped_power (suc zero) h = omega arith
capped_power (suc (suc zero)) h = omega arith
capped_power (suc (suc (suc zero))) h = omega arith
capped_power (suc (suc (suc (suc zero)))) h = omega arith
capped_power (suc (suc (suc (suc (suc zero))))) h = omega arith
capped_power (suc (suc (suc (suc (suc (suc zero)))))) h = omega arith
capped_power (suc (suc (suc (suc (suc (suc (suc k))))))) h = absurd (omega arith)

-- The delay is the doubling one or the one that the provider asks for, whichever is longer, but at
-- most an hour; so it is at least a minute.
pub retry_delay_bounds :
    (failures : ℕ) (e : Error)
    → (pos minute ≤ℤ retry_delay failures e) × (retry_delay failures e ≤ℤ pos hour)
unfolding retry_delay
retry_delay_bounds failures e = ground (arith, capped_power (min (failures - 1) 6))
