-- ===== src/Telemetry/Event.antt =====
-- hub.go: `Event`, and the payloads that the hub and the orchestrator build. A time stamp is what
-- `time.Now()` gave. Event numbers are Go's int64, which wraps.
use radio_container.Prelude.{ℕ, ◌+◌, ◌-◌, ◌^◌, ◌==◌, List, String, Bool, true, if◌then◌else◌}
use radio_container.Prelude.Float.{Float, is_finite}
use radio_container.Prelude.Int.{ℤ, pos, negsuc}

pub data Payload (F : Type 0) : Type 0 where
  ready_snapshot : Payload F
  heartbeat_at : (ts : ℕ) → Payload F
  power_changed : (radio_id : String) (power_dbm : F) (ts : ℕ) → Payload F
  channel_changed : (radio_id : String) (frequency_mhz : F) (channel_index : ℤ) (ts : ℕ) → Payload F
  state_online : (radio_id : String) (ts : ℕ) → Payload F
  fault_of : (radio_id : String) (code : List ℕ) (text : String) (ts : ℕ) → Payload F

-- Whether `json.Marshal` encodes the payload: it refuses a float that is NaN or infinite.
unfoldable pub encodable : {F : Type 0} ⦃o : Float F⦄ → Payload F → Bool
encodable (power_changed radio_id power_dbm ts) = is_finite power_dbm
encodable (channel_changed radio_id frequency_mhz channel_index ts) = is_finite frequency_mhz
encodable _ = true

-- `kind` is the field `Type`. An event that carries no number yet has `id` 0.
pub record Event (F : Type 0) : Type 0 where
  pub id : ℤ
  pub kind : String
  pub payload : Payload F
  pub radio : String

abbrev pub max_int64 : ℕ
max_int64 = 2 ^ 63 - 1

-- `n + 1` on int64
unfoldable pub inc64 : ℤ → ℤ
inc64 (pos n) = if n == max_int64 then negsuc max_int64 else pos (n + 1)
inc64 (negsuc n) = if n == 0 then pos 0 else negsuc (n - 1)
