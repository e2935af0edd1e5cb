-- ===== src/Statistics.antt =====
-- src/statistics.rs: the counters are u32 and wrap around. The clock is an argument, in microseconds;
-- an f32 quotient is a parameter of the snapshot.
use realflight_bridge.Base.{ℕ, suc, ◌+◌, ◌-◌, ◌%◌, ◌^◌, ◌<◌, ◌≡◌, refl, List, [], ◌∷◌, ◌++◌, arith}
use realflight_bridge.Types.{F32, Duration}

pub record Statistics : Type 0 where
  pub runtime : Duration
  pub error_count : ℕ
  pub frequency : F32
  pub request_count : ℕ

pub record StatisticsEngine : Type 0 where
  pub start_time : Duration
  pub error_count : ℕ
  pub request_count : ℕ

-- `StatisticsEngine::new` at the time `now`.
unfoldable pub new : Duration → StatisticsEngine
new now = record { start_time = now; error_count = 0; request_count = 0 }

-- `fetch_add(1)` on an AtomicU32.
abbrev fetch_add : ℕ → ℕ
fetch_add n = (n + 1) % 2 ^ 32

unfoldable pub increment_request_count : StatisticsEngine → StatisticsEngine
increment_request_count s = record s { request_count = fetch_add s.request_count }

unfoldable pub increment_error_count : StatisticsEngine → StatisticsEngine
increment_error_count s = record s { error_count = fetch_add s.error_count }

module _ (quotient : ℕ → Duration → F32) where
  -- `self.request_count() as f32 / elapsed.as_secs_f32()`.
  unfoldable pub frame_rate : StatisticsEngine → Duration → F32
  frame_rate s now = quotient s.request_count (now - s.start_time)

  unfoldable pub snapshot : StatisticsEngine → Duration → Statistics
  unfolding frame_rate
  snapshot s now = record {
    runtime = now - s.start_time;
    error_count = s.error_count;
    frequency = frame_rate s now;
    request_count = s.request_count;
  }

-- What the bridge reports to the engine.
pub data Event : Type 0 where
  request_sent failed : Event

unfoldable pub record_event : Event → StatisticsEngine → StatisticsEngine
record_event request_sent s = increment_request_count s
record_event failed s = increment_error_count s

unfoldable pub record_all : List Event → StatisticsEngine → StatisticsEngine
record_all [] s = s
record_all (e ∷ es) s = record_all es (record_event e s)

pub record_all-append :
    (es fs : List Event) (s : StatisticsEngine)
    → record_all (es ++ fs) s ≡ record_all fs (record_all es s)
unfolding record_all
record_all-append [] fs s = refl
record_all-append (e ∷ es) fs s = record_all-append es fs (record_event e s)

abbrev pub requests : List Event → ℕ
requests [] = 0
requests (request_sent ∷ es) = suc (requests es)
requests (failed ∷ es) = requests es

abbrev pub errors : List Event → ℕ
errors [] = 0
errors (request_sent ∷ es) = errors es
errors (failed ∷ es) = suc (errors es)

counts :
    (es : List Event) (s : StatisticsEngine)
    → ((record_all es s).request_count % 2 ^ 32 ≡ (s.request_count + requests es) % 2 ^ 32)
      × ((record_all es s).error_count % 2 ^ 32 ≡ (s.error_count + errors es) % 2 ^ 32)
      × ((record_all es s).start_time ≡ s.start_time)
unfolding record_all record_event increment_request_count increment_error_count
counts [] s = (omega arith, omega arith, refl)
counts (request_sent ∷ es) s = ground (arith, counts es (increment_request_count s))
counts (failed ∷ es) s = ground (arith, counts es (increment_error_count s))

record_all-lt :
    (es : List Event) (s : StatisticsEngine)
    → s.request_count < 2 ^ 32
    → s.error_count < 2 ^ 32
    → ((record_all es s).request_count < 2 ^ 32) × ((record_all es s).error_count < 2 ^ 32)
unfolding record_all record_event increment_request_count increment_error_count
record_all-lt [] s h k = (h, k)
record_all-lt (request_sent ∷ es) s h k = record_all-lt es _ (omega arith) k
record_all-lt (failed ∷ es) s h k = record_all-lt es _ h (omega arith)

-- A snapshot counts the requests and the errors since the engine was made, each modulo 2^32 and apart
-- from the other, and the time since then.
pub snapshot_counts :
    (quotient : ℕ → Duration → F32) (start now : Duration) (es : List Event)
    → let shot = snapshot quotient (record_all es (new start)) now in
      (shot.request_count ≡ requests es % 2 ^ 32)
      × (shot.error_count ≡ errors es % 2 ^ 32)
      × (shot.runtime ≡ now - start)
unfolding snapshot new
snapshot_counts quotient start now es =
    let c = counts es (new start) in
    let b = record_all-lt es (new start) (omega arith) (omega arith) in
    (omega arith, omega arith, ground arith)
