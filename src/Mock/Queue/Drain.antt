-- ===== src/Mock/Queue/Drain.antt =====
-- The worker of silvus-mock/internal/state/radio.go gets through its queue.
use radio_container.Prelude.{ℕ, ◌≡◌, List, [], ◌++◌, map, some}
use radio_container.Prelude.Float.{Float}
use radio_container.Mock.Config.{Config}
use radio_container.Mock.Radio.{CommandResponse}
use radio_container.Mock.Radio.Range.{Numbers}
use radio_container.Mock.Queue.{Entry, System, Reach, run_worker}

module _ {F : Type 0} ⦃o : Float F⦄ (numbers : Numbers F) (rounds : ℕ) where
  -- The worker answered all of `waiting` from `s` on, and ended at `t`.
  abbrev Drained : Config → (ℕ → ℕ × ℕ) → List Entry → System → System → Type 0
  Drained cfg clock waiting s t =
      (run_worker numbers rounds clock waiting s ≡ some t)
      × Reach numbers rounds cfg t
      × (t.queue ≡ [])
      × (map (λ (a : Entry × CommandResponse). a.0) t.answers
          ≡ map (λ (a : Entry × CommandResponse). a.0) s.answers ++ waiting)
