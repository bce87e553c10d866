-- ===== src/Mock/Queue.antt =====
-- silvus-mock/internal/state/radio.go: the queue of commands, its one worker, the callers of
-- `ExecuteCommand` and `Close`, as a step relation: every order in which callers, worker and timers
-- may run is a sequence of steps. A response is sent on a channel with room for one, so the worker
-- never waits for a caller.
pub mod Order
pub mod Drain
use radio_container.Prelude.{
  ℕ, ◌<◌, ◌≡◌, Bool, true, false, List, [], ◌∷◌, ◌++◌, Option, none, some, String, length,
}
use radio_container.Prelude.Float.{Float}
use radio_container.Mock.Config.{Config}
use radio_container.Mock.Radio.{
  RadioState, Command, CommandResponse, refusal, new_radio_state, process_command,
}
use radio_container.Mock.Radio.Range.{Numbers}

-- `make(chan Command, 100)`
abbrev pub capacity : ℕ
capacity = 100

-- A command with the number of the call that sent it, which stands for its response channel.
pub record Entry : Type 0 where
  pub call : ℕ
  pub cmd : Command

-- What ended the wait of a call of `ExecuteCommand`.
pub data Waited : Type 0 where
  -- its command was queued, and then: the response, 30 seconds, or the end of the context
  answered : CommandResponse → Waited
  response_late stopped_waiting : Waited
  -- its command was not queued: 5 seconds, or the end of the context
  queue_full stopped_queueing : Waited

unfoldable pub execute_result : Waited → CommandResponse
execute_result (answered response) = response
execute_result response_late = refusal "INTERNAL"
execute_result stopped_waiting = refusal "UNAVAILABLE"
execute_result queue_full = refusal "BUSY"
execute_result stopped_queueing = refusal "UNAVAILABLE"

-- `accepted` keeps every command that was ever queued, `answers` every response that the worker
-- sent and `returned` what calls returned, for the theorems.
pub record System : Type 0 where
  pub radio : RadioState
  pub queue : List Entry
  pub cancelled : Bool
  pub working : Bool
  pub accepted : List Entry
  pub answers : List (Entry × CommandResponse)
  pub returned : List (ℕ × CommandResponse)

unfoldable pub new_system : Config → System
new_system cfg = record {
  radio = new_radio_state cfg;
  queue = [];
  cancelled = false;
  working = true;
  accepted = [];
  answers = [];
  returned = [];
}

-- `rs.commandQueue <- cmd`
unfoldable pub enqueue : Entry → System → System
enqueue entry s = record s { queue = s.queue ++ entry ∷ []; accepted = s.accepted ++ entry ∷ [] }

-- The worker took the first command and processed it.
unfoldable pub answer : Entry → List Entry → CommandResponse × RadioState → System → System
answer entry rest out s = record s {
  radio = out.1;
  queue = rest;
  answers = s.answers ++ (entry, out.0) ∷ [];
}

-- A call returns.
unfoldable pub return_call : ℕ → Waited → System → System
unfolding execute_result
return_call call waited s = record s { returned = s.returned ++ (call, execute_result waited) ∷ [] }

-- `Close`: a second call panics at the channel that is closed already. `finished` says whether the
-- worker ended within 10 seconds.
pub data Closed : Type 0 where
  panics shutdown_timeout clean_shutdown : Closed

unfoldable pub close : Bool → System → Closed × System
close finished s = elim s.cancelled [
  | true ↦ (panics, s)
  | false ↦ (
    elim finished [ true ↦ clean_shutdown | false ↦ shutdown_timeout ],
    record s { cancelled = true },
  )
]

-- The worker returns.
unfoldable pub end_worker : System → System
end_worker s = record s { working = false }

module _ {F : Type 0} ⦃o : Float F⦄ (numbers : Numbers F) (rounds : ℕ) where
  -- A `select` whose cases are all ready takes any of them, so a command may be queued after the
  -- context has ended.
  pub data Step (s : System) : System → Type 0 where
    queued : (entry : Entry) → length s.queue < capacity → Step s (enqueue entry s)
    worked :
        (entry : Entry) (rest : List Entry) (now later : ℕ) (out : CommandResponse × RadioState)
        → s.working ≡ true
        → s.queue ≡ entry ∷ rest
        → process_command numbers rounds now later entry.cmd s.radio ≡ some out
        → Step s (answer entry rest out s)
    received :
        (entry : Entry) (response : CommandResponse) (before after : List (Entry × CommandResponse))
        → s.answers ≡ before ++ (entry, response) ∷ after
        → Step s (return_call entry.call (answered response) s)
    gave_up :
        (entry : Entry) (before after : List Entry)
        → s.accepted ≡ before ++ entry ∷ after
        → Step s (return_call entry.call response_late s)
    refused_full : (call : ℕ) → length s.queue ≡ capacity → Step s (return_call call queue_full s)
    refused_stopped : (call : ℕ) → s.cancelled ≡ true → Step s (return_call call stopped_queueing s)
    abandoned :
        (entry : Entry) (before after : List Entry)
        → s.accepted ≡ before ++ entry ∷ after
        → s.cancelled ≡ true
        → Step s (return_call entry.call stopped_waiting s)
    closed : (finished : Bool) → Step s (close finished s).1
    stopped : s.cancelled ≡ true → Step s (end_worker s)

  -- `commandWorker` while nothing else runs: it takes the commands that wait one by one. `clock` gives
  -- the time before and after each, by the number of commands behind it; `none` is a command that does
  -- not end within the rounds.
  unfoldable pub run_worker : (ℕ → ℕ × ℕ) → List Entry → System → Option System
  unfolding answer
  run_worker clock [] s = some s
  run_worker clock (entry ∷ rest) s =
      let (now, later) = clock (length rest) in
      elim (process_command numbers rounds now later entry.cmd s.radio) [
        | none ↦ none
        | some out ↦ run_worker clock rest (answer entry rest out s)
      ]

  pub data Reach (cfg : Config) : System → Type 0 where
    initially : Reach cfg (new_system cfg)
    then_step : {s t : System} → Reach cfg s → Step s t → Reach cfg t
