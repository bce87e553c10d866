-- ===== src/Radio.antt =====
-- rcc/internal/radio/manager.go: the inventory of radios, their adapters and the active selection.
-- The manager's lock makes each method one step; `now` is the time that the method reads. A method
-- that calls an adapter passes the adapters' world on.
pub mod Channels
pub mod Active
pub mod Discovery
pub mod Invariant
pub mod History
pub mod Lookup
pub mod Tests
use radio_container.Prelude.{
  ℕ, Bool, true, false, ◌++◌, List, [], ◌∷◌, Option, none, some, String, str_eq, codes, map,
  if◌then◌else◌,
}
use radio_container.Prelude.Dict.{Dict, get, has, put, remove}
use radio_container.Prelude.Int.{ℤ, pos}
use radio_container.Prelude.Float.{Float, lit}
use radio_container.Adapter.Errors.{Err, message, wrapped}
use radio_container.Adapter.{
  RadioState, Channel, RadioCapabilities, FrequencyProfile, Result, ok, err, RadioAdapter,
}

-- `capabilities` and `state` are pointers, `none` where nil.
pub record Radio (F : Type 0) : Type 0 where
  pub id : String
  pub model : String
  pub status : String
  pub capabilities : Option (RadioCapabilities F)
  pub state : Option (RadioState F)
  pub last_seen : ℕ

-- `active_radio_id` is the empty string where no radio is active.
pub record Manager (F A : Type 0) : Type 0 where
  pub radios : Dict (Radio F)
  pub active_radio_id : String
  pub adapters : Dict A

pub record RadioList (F : Type 0) : Type 0 where
  pub active_radio_id : String
  pub items : List (Radio F)

-- A method that can hit a nil pointer returns, or panics.
pub data Outcome (X : Type 0) : Type 0 where
  returns : X → Outcome X
  panics : Outcome X

pub not_found_text : String → List ℕ
not_found_text radio_id = codes "radio " ++ (codes radio_id ++ codes " not found")

abbrev pub radio_not_found : String → Err
radio_not_found radio_id = message (not_found_text radio_id)

module _ {F A : Type 0} where
  pub new_manager : Manager F A
  new_manager = record { radios = []; active_radio_id = ""; adapters = [] }

  unfoldable pub set_active : Manager F A → String → Manager F A × Option Err
  set_active m radio_id =
      if has m.radios radio_id
      then (record m { active_radio_id = radio_id }, none)
      else (m, some (radio_not_found radio_id))

  pub get_active : Manager F A → String
  get_active m = m.active_radio_id

  pub get_active_radio : Manager F A → Option (Radio F)
  get_active_radio m = if str_eq m.active_radio_id "" then none else get m.radios m.active_radio_id

  pub get_active_adapter : Manager F A → Result (A × String)
  get_active_adapter m =
      if str_eq m.active_radio_id ""
      then err (message (codes "no active radio"))
      else elim (get m.adapters m.active_radio_id) [
        | none ↦ err (message (codes "no adapter for active radio " ++ codes m.active_radio_id))
        | some a ↦ ok (a, m.active_radio_id)
      ]

  pub list : Manager F A → RadioList F
  list m = record { active_radio_id = m.active_radio_id; items = map (λ entry. entry.1) m.radios }

  -- The radio that `f` makes of the one under the key, which has to be there.
  pub update_radio : Manager F A → String → (Radio F → Radio F) → Manager F A × Option Err
  update_radio m radio_id f = elim (get m.radios radio_id) [
    | none ↦ (m, some (radio_not_found radio_id))
    | some r ↦ (record m { radios = put m.radios radio_id (f r) }, none)
  ]

  pub update_state : Manager F A → ℕ → String → Option (RadioState F) → Manager F A × Option Err
  unfolding update_radio
  update_state m now radio_id state =
      update_radio m radio_id (λ r. record r { status = "online"; state = state; last_seen = now })

  pub update_status : Manager F A → ℕ → String → String → Manager F A × Option Err
  unfolding update_radio
  update_status m now radio_id status =
      update_radio m radio_id (λ r. record r { status = status; last_seen = now })

  pub remove_radio : Manager F A → String → Manager F A × Option Err
  remove_radio m radio_id =
      if has m.radios radio_id
      then (
        record {
          radios = remove m.radios radio_id;
          active_radio_id = if str_eq m.active_radio_id radio_id then "" else m.active_radio_id;
          adapters = remove m.adapters radio_id;
        },
        none,
      )
      else (m, some (radio_not_found radio_id))
