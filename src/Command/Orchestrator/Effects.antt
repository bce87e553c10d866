-- ===== src/Command/Orchestrator/Effects.antt =====
-- What a command leaves behind: its audit record, its event and its effect on the adapters.
use radio_container.Prelude.{Bool, ℕ, ◌≡◌, ◌⊎◌, false, Option, none, some, String, str_eq}
use radio_container.Prelude.Int.{ℤ, pos}
use radio_container.Prelude.Float.{Float}
use radio_container.Adapter.Errors.{Err, no_details, normalize_vendor_error, error_text}
use radio_container.Adapter.{Result, ok, err, RadioAdapter}
use radio_container.Radio.{Manager}
use radio_container.Radio.Discovery.{get_radio}
use radio_container.Telemetry.Event.{
  Payload, fault_of, power_changed, channel_changed, state_online,
}
use radio_container.Telemetry.Hub.{Case, Hub}
use radio_container.Command.State.{Orchestrator, append_record, publish_to}
use radio_container.Command.Resolve.{resolve_channel_index}
use radio_container.Command.Orchestrator.{
  select_radio, get_state, set_power, set_channel, set_channel_by_index,
}

abbrev pub Error? : {X : Type 0} → Result X → Option Err
Error? (ok x) = none
Error? (err e) = some e

-- The five commands; `given` is the manager that the caller of `SetChannelByIndex` hands in.
pub data Command (F A : Type 0) : Type 0 where
  selects : (radio_id : String) → Command F A
  gets_state : (radio_id : String) → Command F A
  sets_power : (radio_id : String) (dbm : F) → Command F A
  sets_channel : (radio_id : String) (frequency_mhz : F) → Command F A
  sets_channel_by_index :
      (radio_id : String) (channel_index : ℤ) (given : Option (Manager F A)) → Command F A

abbrev pub action_of : {F A : Type 0} → Command F A → String
action_of (selects r) = "selectRadio"
action_of (gets_state r) = "getState"
action_of (sets_power r dbm) = "setPower"
action_of (sets_channel r f) = "setChannel"
action_of (sets_channel_by_index r i m) = "setChannel"

abbrev pub radio_of : {F A : Type 0} → Command F A → String
radio_of (selects r) = r
radio_of (gets_state r) = r
radio_of (sets_power r dbm) = r
radio_of (sets_channel r f) = r
radio_of (sets_channel_by_index r i m) = r

-- `SelectRadio` with no radio named.
abbrev pub is_blank : {F A : Type 0} → Command F A → Bool
is_blank (selects r) = str_eq r ""
is_blank _ = false

module _ {F A W : Type 0} (adapter : RadioAdapter F A W) (prefer : String → Case) (now : ℕ)
    ⦃o : Float F⦄ where
  -- A command, with the error that it returns.
  unfoldable pub perform : Orchestrator F A W → Command F A → Orchestrator F A W × Option Err
  unfolding select_radio get_state set_power set_channel set_channel_by_index
  perform s (selects r) = let (s', x) = select_radio adapter prefer now s r in (s', Error? x)
  perform s (gets_state r) = let (s', x) = get_state adapter prefer now s r in (s', Error? x)
  perform s (sets_power r dbm) =
      let (s', x) = set_power adapter prefer now s r dbm in (s', Error? x)
  perform s (sets_channel r f) =
      let (s', x) = set_channel adapter prefer now s r f in (s', Error? x)
  perform s (sets_channel_by_index r i m) =
      let (s', x) = set_channel_by_index adapter prefer now s r i m in (s', Error? x)

module _ {F A W : Type 0} where
  -- One more record was written to the audit log.
  abbrev pub Logged : Orchestrator F A W → Orchestrator F A W → String → String → String → Type 0
  Logged s s' action radio_id result =
      s'.audit_log
      ≡ append_record s.audit_log (record { action = action; radio_id = radio_id; result = result })

  -- The hub, the audit log, the active adapter and the adapters are as before.
  abbrev pub Same : Orchestrator F A W → Orchestrator F A W → Type 0
  Same s s' =
      (s'.telemetry_hub ≡ s.telemetry_hub)
      × (s'.audit_log ≡ s.audit_log)
      × (s'.world ≡ s.world)
      × (s'.active_adapter ≡ s.active_adapter)

-- What a command asks of an adapter.
pub data Request (F : Type 0) : Type 0 where
  reads : Request F
  powers tunes : F → Request F

-- An event's type and payload, where there is one.
abbrev pub News : Type 0 → Type 0
News F = Option (String × Payload F)

module _ {F A W : Type 0} (adapter : RadioAdapter F A W) where
  -- The adapter's error, if it fails, and what it leaves.
  abbrev pub ask : A → Request F → W → Option Err × W
  ask a reads w = let (state, w') = adapter.get_state a w in (Error? state, w')
  ask a (powers dbm) w = adapter.set_power a dbm w
  ask a (tunes f) w = adapter.set_frequency a f w

  -- The orchestrator once the radio was found.
  abbrev pub after_lookup : Orchestrator F A W → Manager F A → String → Orchestrator F A W
  after_lookup s m k = record s { radio_manager = some (get_radio adapter m s.world k).0 }

  -- What each command is to ask, and the event of its success. A channel index asks for the frequency
  -- that it resolves to.
  abbrev pub Plan : ℕ → Orchestrator F A W → Command F A → Request F → News F → Type 0
  Plan now s (selects r) q news = (q ≡ reads) × (news ≡ some ("state", state_online r now))
  Plan now s (gets_state r) q news = (q ≡ reads) × (news ≡ none)
  Plan now s (sets_power r dbm) q news =
      (q ≡ powers dbm) × (news ≡ some ("powerChanged", power_changed r dbm now))
  Plan now s (sets_channel r f) q news =
      (q ≡ tunes f) × (news ≡ some ("channelChanged", channel_changed r f (pos 0) now))
  Plan now s (sets_channel_by_index r i given) q news =
      (m : Manager F A) × (f : F) × (s.radio_manager ≡ some m)
      × (resolve_channel_index adapter (after_lookup s m r) r i given ≡ ok f)
      × (q ≡ tunes f)
      × (news ≡ some ("channelChanged", channel_changed r f i now))

abbrev pub publish_news :
    {F : Type 0} → (String → Case) → Option (Hub F) → String → News F → Option (Hub F)
publish_news prefer hub radio_id none = hub
publish_news prefer hub radio_id (some (kind, payload)) =
    publish_to prefer hub radio_id kind payload

module _ {F A W : Type 0} (prefer : String → Case) (now : ℕ) (s : Orchestrator F A W)
    (action radio_id : String) where
  -- A guard stopped the command: one record that is no success, no event, no adapter touched.
  abbrev pub Refused : Orchestrator F A W → Option Err → Type 0
  Refused s' e =
      (result : String) × (x : Err) × (e ≡ some x)
      × (str_eq result "SUCCESS" ≡ false)
      × Logged s s' action radio_id result
      × (s'.telemetry_hub ≡ s.telemetry_hub)
      × (s'.world ≡ s.world)

  -- The adapter failed with `x`: the normalized error, the record ERROR, and one fault event.
  abbrev pub Failed : Err → Orchestrator F A W → Option Err → Type 0
  Failed x s' e =
      (text : String) × (e ≡ some (normalize_vendor_error x no_details))
      × Logged s s' action radio_id "ERROR"
      × (s'.telemetry_hub
          ≡ publish_to prefer s.telemetry_hub radio_id "fault"
              (fault_of radio_id (error_text (normalize_vendor_error x no_details)) text now))

  -- The command succeeded: the record SUCCESS, and the event of the success, if it has one.
  abbrev pub Succeeded : News F → Orchestrator F A W → Option Err → Type 0
  Succeeded news s' e =
      (e ≡ none)
      × Logged s s' action radio_id "SUCCESS"
      × (s'.telemetry_hub ≡ publish_news prefer s.telemetry_hub radio_id news)

  -- What follows the adapter's answer, which alone decides whether the command failed.
  abbrev pub Answered : Option Err × W → News F → Orchestrator F A W → Option Err → Type 0
  Answered (some x, w) news s' e = Failed x s' e × (s'.world ≡ w)
  Answered (none, w) news s' e = Succeeded news s' e × (s'.world ≡ w)

  module _ (adapter : RadioAdapter F A W) (planned : Request F → News F → Type 0) where
    -- A guard refused the command, or the active adapter was asked once what was planned.
    abbrev pub Reported : Orchestrator F A W → Option Err → Type 0
    Reported s' e =
        Refused s' e
        ⊎ ((a : A) × (q : Request F) × (news : News F) × (s.active_adapter ≡ some a)
            × planned q news
            × Answered (ask adapter a q s.world) news s' e)

    abbrev pub Effect : {X : Type 0} → Orchestrator F A W × Result X → Type 0
    Effect out = Reported out.0 (Error? out.1)
