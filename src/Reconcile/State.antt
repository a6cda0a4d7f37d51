-- ===== src/Reconcile/State.antt =====
-- The state of internal/reconcile/reconciler.go and of what it calls, and the actions on it.
use hetdns.Prelude.{ℕ, ◌+◌, List, ◌∷◌, Option}
use hetdns.Prelude.Int.{ℤ}
use hetdns.Prelude.Text.{Text}
use hetdns.Prelude.Map.{Map}
use hetdns.Addr.{Addr, Netip}
use hetdns.Hetzner.Types.{Record}
use hetdns.Hetzner.Client.{Reconciled}
use hetdns.Status.{Store}

-- `retryState`.
pub record Retry : Type 0 where
  pub failures : ℕ
  pub next : ℕ

abbrev pub zero_retry : Retry
zero_retry = record { failures = 0; next = 0 }

-- `sourceResult`, with the message of its error.
pub record SourceResult : Type 0 where
  pub address : Addr
  pub err : Option Text
  pub duration : ℤ

-- What `Metrics` receives.
pub data Measure : Type 0 where
  cycle : Text → ℤ → Measure
  fetched : Text → Text → ℤ → Measure
  checked : Text → Text → ℤ → Measure
  record_success : Text → ℕ → Measure

-- What a cycle reads and writes: the store, the backoff map, the provider's world, how often the
-- clock was read, and the measurements, the last one first.
pub record Cycle (W : Type 0) : Type 0 where
  pub store : Store
  pub backoff : Map Retry
  pub world : W
  pub reads : ℕ
  pub measures : List Measure

-- `DNSProvider`, called under a timeout, and the clock: the time of each reading. Time may do
-- anything between readings.
pub record Env (W : Type 0) : Type 0 where
  pub netip : Netip
  pub clock : ℕ → ℕ
  pub reconcile : ℕ → Record → Addr → W → Reconciled × W

abbrev pub M : Type 0 → Type 0 → Type 0
M W A = Cycle W → A × Cycle W

infixl 5 ◌>>=◌ ◌>>◌
abbrev pub ◌>>=◌ : {W A B : Type 0} → M W A → (A → M W B) → M W B
◌>>=◌ m f s = let (a, s') = m s in f a s'

abbrev pub ◌>>◌ : {W A B : Type 0} → M W A → M W B → M W B
m >> k = m >>= λ _. k

abbrev pub return : {W A : Type 0} → A → M W A
return a s = (a, s)

-- `time.Now()`.
abbrev pub now : {W : Type 0} → Env W → M W ℕ
now env s = (env.clock s.reads, record s { reads = s.reads + 1 })

-- A method of the store.
abbrev pub on_store : {W : Type 0} → (Store → Store) → M W (Unit {0})
on_store f s = (tt, record s { store = f s.store })

abbrev pub measure : {W : Type 0} → Measure → M W (Unit {0})
measure m s = (tt, record s { measures = m ∷ s.measures })

abbrev pub set_backoff : {W : Type 0} → (Map Retry → Map Retry) → M W (Unit {0})
set_backoff f s = (tt, record s { backoff = f s.backoff })
