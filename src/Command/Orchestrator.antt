-- ===== src/Command/Orchestrator.antt =====
-- orchestrator.go: the commands. `prefer` is what Go's `select` takes when an event is offered to a
-- client, and `now` the time stamp of the command's events.
pub mod Effects
pub mod Parts
pub mod Reports
pub mod Routing
pub mod Sends
pub mod Reading
pub mod Wiring
use radio_container.Prelude.{ℕ, ◌||◌, Option, none, some, String, str_eq, if◌then◌else◌}
use radio_container.Prelude.Int.{ℤ, pos, lt_int}
use radio_container.Prelude.Float.{Float, flt, fle, lit}
use radio_container.Adapter.Errors.{
  Err, sentinel, invalid_range, unavailable, not_found, invalid_parameter, no_details,
  normalize_vendor_error,
}
use radio_container.Adapter.{RadioState, Result, ok, err, RadioAdapter}
use radio_container.Radio.Discovery.{get_radio}
use radio_container.Radio.{Manager, set_active}
use radio_container.Telemetry.Hub.{Case}
use radio_container.Command.State.{
  Orchestrator, log_audit, refuse, publish_power_changed_event, publish_channel_changed_event,
  publish_state_event, publish_fault_event,
}
use radio_container.Command.Resolve.{resolve_channel_index}

module _ {F : Type 0} ⦃o : Float F⦄ where
  pub validate_power_range : F → Option Err
  validate_power_range dbm =
      if flt dbm (lit 0) || flt (lit 39) dbm then some (sentinel invalid_range) else none

  pub validate_frequency_range : F → Option Err
  validate_frequency_range frequency_mhz =
      if fle frequency_mhz (lit 0)
      then some (sentinel invalid_range)
      else if flt frequency_mhz (lit 100) || flt (lit 6000) frequency_mhz
      then some (sentinel invalid_range)
      else none

module _ {F A W : Type 0} where
  -- `if err := validate…; err != nil`: refused with INVALID_RANGE, or on with the command.
  pub check_range :
      {X : Type 0}
      → Orchestrator F A W
      → String
      → String
      → Option Err
      → Orchestrator F A W × Result X
      → Orchestrator F A W × Result X
  check_range s action radio_id (some e) rest = refuse s action radio_id "INVALID_RANGE" e
  check_range s action radio_id none rest = rest

  -- `if o.activeAdapter == nil`
  pub ensure_adapter :
      {X : Type 0}
      → Orchestrator F A W
      → String
      → String
      → (A → Orchestrator F A W × Result X)
      → Orchestrator F A W × Result X
  ensure_adapter s action radio_id rest = elim s.active_adapter [
    | none ↦ refuse s action radio_id "UNAVAILABLE" (sentinel unavailable)
    | some a ↦ rest a
  ]

module _ {F A W : Type 0} (adapter : RadioAdapter F A W) where
  -- The check that every command makes of the radio; `GetRadio` may fill in capabilities.
  pub ensure_radio :
      {X : Type 0}
      → Orchestrator F A W
      → String
      → String
      → (Orchestrator F A W → Manager F A → Orchestrator F A W × Result X)
      → Orchestrator F A W × Result X
  ensure_radio s action radio_id rest = elim s.radio_manager [
    | none ↦ refuse s action radio_id "UNAVAILABLE" (sentinel unavailable)
    | some m ↦
        let (m', found) = get_radio adapter m s.world radio_id in
        let s' = record s { radio_manager = some m' } in
        elim found [ err e ↦ refuse s' action radio_id "NOT_FOUND" not_found | ok r ↦ rest s' m' ]
  ]

  module _ (prefer : String → Case) (now : ℕ) where
    -- The path of an adapter's failure: audit record ERROR, fault event, normalized error.
    fail_command :
        {X : Type 0}
        → Orchestrator F A W
        → String
        → String
        → Err
        → String
        → Orchestrator F A W × Result X
    fail_command s action radio_id e text =
        let normalized = normalize_vendor_error e no_details in
        (
          publish_fault_event prefer now (log_audit s action radio_id "ERROR") radio_id normalized
              text,
          err normalized,
        )

    finish_power :
        String → F → Orchestrator F A W → Option Err → Orchestrator F A W × Result (Unit {0})
    unfolding fail_command
    finish_power radio_id dbm s (some e) =
        fail_command s "setPower" radio_id e "Failed to set power"
    finish_power radio_id dbm s none = (
      publish_power_changed_event prefer now (log_audit s "setPower" radio_id "SUCCESS") radio_id
          dbm,
      ok tt,
    )

    -- The tail that `SetChannel` (with index 0) and `SetChannelByIndex` share.
    finish_channel :
        String → F → ℤ → Orchestrator F A W → Option Err → Orchestrator F A W × Result (Unit {0})
    unfolding fail_command
    finish_channel radio_id frequency_mhz channel_index s (some e) =
        fail_command s "setChannel" radio_id e "Failed to set channel"
    finish_channel radio_id frequency_mhz channel_index s none = (
      publish_channel_changed_event prefer now (log_audit s "setChannel" radio_id "SUCCESS")
          radio_id frequency_mhz channel_index,
      ok tt,
    )

    pub tune : String → F → ℤ → Orchestrator F A W → A → Orchestrator F A W × Result (Unit {0})
    unfolding finish_channel
    tune radio_id frequency_mhz channel_index s a =
        let (e, w) = adapter.set_frequency a frequency_mhz s.world in
        finish_channel radio_id frequency_mhz channel_index (record s { world = w }) e

    finish_select :
        String → Orchestrator F A W → Result (RadioState F) → Orchestrator F A W × Result (Unit {0})
    unfolding fail_command
    finish_select radio_id s (err e) =
        fail_command s "selectRadio" radio_id e "Failed to select radio"
    finish_select radio_id s (ok state) = (
      publish_state_event prefer now (log_audit s "selectRadio" radio_id "SUCCESS") radio_id,
      ok tt,
    )

    finish_get_state :
        String
        → Orchestrator F A W
        → Result (RadioState F)
        → Orchestrator F A W × Result (RadioState F)
    unfolding fail_command
    finish_get_state radio_id s (err e) = fail_command s "getState" radio_id e "Failed to get state"
    finish_get_state radio_id s (ok state) = (log_audit s "getState" radio_id "SUCCESS", ok state)

    -- `SelectRadio` asks the adapter for its state, and no more.
    pub ping : String → Orchestrator F A W → A → Orchestrator F A W × Result (Unit {0})
    unfolding finish_select
    ping radio_id s a =
        let (state, w) = adapter.get_state a s.world in
        finish_select radio_id (record s { world = w }) state

    -- `SelectRadio` after the radio was found: the selection, then the adapter's answer.
    select_known :
        String → Orchestrator F A W → Manager F A → Orchestrator F A W × Result (Unit {0})
    unfolding ping ensure_adapter
    select_known radio_id s m =
        let (m', e) = set_active m radio_id in
        let s' = record s { radio_manager = some m' } in
        elim e [
          | some x ↦ refuse s' "selectRadio" radio_id "NOT_FOUND" not_found
          | none ↦ ensure_adapter s' "selectRadio" radio_id (ping radio_id s')
        ]

    pub select_radio : Orchestrator F A W → String → Orchestrator F A W × Result (Unit {0})
    unfolding ensure_radio select_known
    select_radio s radio_id =
        if str_eq radio_id ""
        then refuse s "selectRadio" radio_id "BAD_REQUEST" invalid_parameter
        else ensure_radio s "selectRadio" radio_id (select_known radio_id)

    pub read_state : String → Orchestrator F A W → A → Orchestrator F A W × Result (RadioState F)
    unfolding finish_get_state
    read_state radio_id s a =
        let (state, w) = adapter.get_state a s.world in
        finish_get_state radio_id (record s { world = w }) state

    state_known :
        String → Orchestrator F A W → Manager F A → Orchestrator F A W × Result (RadioState F)
    unfolding ensure_adapter read_state
    state_known radio_id s m = ensure_adapter s "getState" radio_id (read_state radio_id s)

    pub get_state : Orchestrator F A W → String → Orchestrator F A W × Result (RadioState F)
    unfolding ensure_radio state_known
    get_state s radio_id = ensure_radio s "getState" radio_id (state_known radio_id)

    pub send_power : String → F → Orchestrator F A W → A → Orchestrator F A W × Result (Unit {0})
    unfolding finish_power
    send_power radio_id dbm s a =
        let (e, w) = adapter.set_power a dbm s.world in
        finish_power radio_id dbm (record s { world = w }) e

    module _ ⦃o : Float F⦄ where
      power_known :
          String → F → Orchestrator F A W → Manager F A → Orchestrator F A W × Result (Unit {0})
      unfolding check_range ensure_adapter send_power
      power_known radio_id dbm s m =
          check_range s "setPower" radio_id (validate_power_range dbm)
            (ensure_adapter s "setPower" radio_id (send_power radio_id dbm s))

      pub set_power : Orchestrator F A W → String → F → Orchestrator F A W × Result (Unit {0})
      unfolding ensure_radio power_known
      set_power s radio_id dbm = ensure_radio s "setPower" radio_id (power_known radio_id dbm)

      channel_known :
          String → F → Orchestrator F A W → Manager F A → Orchestrator F A W × Result (Unit {0})
      unfolding check_range ensure_adapter tune
      channel_known radio_id frequency_mhz s m =
          check_range s "setChannel" radio_id (validate_frequency_range frequency_mhz)
            (ensure_adapter s "setChannel" radio_id (tune radio_id frequency_mhz (pos 0) s))

      pub set_channel : Orchestrator F A W → String → F → Orchestrator F A W × Result (Unit {0})
      unfolding ensure_radio channel_known
      set_channel s radio_id frequency_mhz =
          ensure_radio s "setChannel" radio_id (channel_known radio_id frequency_mhz)

      -- What follows the resolution of a channel index.
      set_resolved :
          String → ℤ → Orchestrator F A W → A → Result F → Orchestrator F A W × Result (Unit {0})
      unfolding check_range tune
      set_resolved radio_id channel_index s a (err e) =
          refuse s "setChannel" radio_id "INVALID_RANGE" e
      set_resolved radio_id channel_index s a (ok frequency_mhz) =
          check_range s "setChannel" radio_id (validate_frequency_range frequency_mhz)
            (tune radio_id frequency_mhz channel_index s a)

      resolve_and_set :
          String
          → ℤ
          → Option (Manager F A)
          → Orchestrator F A W
          → A
          → Orchestrator F A W × Result (Unit {0})
      unfolding set_resolved
      resolve_and_set radio_id channel_index given s a =
          set_resolved radio_id channel_index s a
            (resolve_channel_index adapter s radio_id channel_index given)

      index_known :
          String
          → ℤ
          → Option (Manager F A)
          → Orchestrator F A W
          → Manager F A
          → Orchestrator F A W × Result (Unit {0})
      unfolding ensure_adapter resolve_and_set
      index_known radio_id channel_index given s m =
          if lt_int channel_index (pos 1)
          then refuse s "setChannel" radio_id "INVALID_RANGE" (sentinel invalid_range)
          else ensure_adapter s "setChannel" radio_id
              (resolve_and_set radio_id channel_index given s)

      pub set_channel_by_index :
          Orchestrator F A W
          → String
          → ℤ
          → Option (Manager F A)
          → Orchestrator F A W × Result (Unit {0})
      unfolding ensure_radio index_known
      set_channel_by_index s radio_id channel_index given =
          ensure_radio s "setChannel" radio_id (index_known radio_id channel_index given)
