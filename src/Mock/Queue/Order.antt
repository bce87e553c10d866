-- ===== src/Mock/Queue/Order.antt =====
-- Whatever the order of the steps: the queue's bound, and the worker as a sequence of commands.
use radio_container.Prelude.{
  ℕ, ◌≤◌, ◌<◌, ◌≡◌, refl, sym, ap, ◌∙◌, Bool, List, [], ◌∷◌, ◌++◌, map, some, suc, length,
  length-append, arith, subst, Bool-cases, inl, inr,
}
use mathlib.Core.List.{append_assoc, map-append}
use radio_container.Prelude.Float.{Float}
use radio_container.Mock.Config.{Config}
use radio_container.Mock.Radio.{RadioState, CommandResponse, new_radio_state, process_command}
use radio_container.Mock.Radio.Range.{Numbers}
use radio_container.Mock.Radio.Changes.{Timed, run, run-first}
use radio_container.Mock.Queue.{
  Entry, System, Step, Reach, initially, then_step, queued, worked, received, gave_up, refused_full,
  refused_stopped, abandoned, closed, stopped, capacity, new_system, enqueue, answer, return_call,
  close, end_worker,
}

module _ {F : Type 0} ⦃o : Float F⦄ (numbers : Numbers F) (rounds : ℕ) where
  -- One more command at the end of a history.
  run-last :
      (ts : List Timed) (t : Timed) (rs : RadioState) (out : List CommandResponse × RadioState)
      (end : CommandResponse × RadioState)
      → run numbers rounds ts rs ≡ some out
      → process_command numbers rounds t.now t.later t.cmd out.1 ≡ some end
      → run numbers rounds (ts ++ t ∷ []) rs ≡ some (out.0 ++ end.0 ∷ [], end.1)
  unfolding run
  run-last [] t rs out end e h =
      let none_yet : out ≡ ([], rs) = cc in
      let last : process_command numbers rounds t.now t.later t.cmd rs ≡ some end =
        subst
          (λ (x : List CommandResponse × RadioState).
            process_command numbers rounds t.now t.later t.cmd x.1 ≡ some end)
          none_yet h in
      rw (none_yet, last, run) refl
  run-last (t' ∷ ts) t rs out end e h =
      let (mid, first, rest, others, ends) = run-first numbers rounds t' ts rs out e in
      let last : process_command numbers rounds t.now t.later t.cmd rest.1 ≡ some end =
        subst
          (λ (x : List CommandResponse × RadioState).
            process_command numbers rounds t.now t.later t.cmd x.1 ≡ some end)
          ends h in
      rw (ends, first, run-last ts t mid.1 rest end others last, run) refl

  -- The queue is no longer than its capacity; what was queued is what was answered and then what
  -- waits, in order; and the answers and the radio are those of the commands that were answered,
  -- run one after the other.
  pub record Order (cfg : Config) (queue accepted : List Entry)
      (answers : List (Entry × CommandResponse)) (radio : RadioState) : Type 0 where
    pub bound : length queue ≤ capacity
    pub fifo : map (λ (a : Entry × CommandResponse). a.0) answers ++ queue ≡ accepted
    pub history : List Timed
    pub commands :
        map (λ (t : Timed). t.cmd) history ≡ map (λ (a : Entry × CommandResponse). a.0.cmd) answers
    pub sequential :
        run numbers rounds history (new_radio_state cfg)
        ≡ some (map (λ (a : Entry × CommandResponse). a.1) answers, radio)

  abbrev pub Orderly : Config → System → Type 0
  Orderly cfg s = Order cfg s.queue s.accepted s.answers s.radio

  new_system-Orderly : (cfg : Config) → Orderly cfg (new_system cfg)
  unfolding new_system run
  new_system-Orderly cfg = record {
    bound = omega arith;
    fifo = refl;
    history = [];
    commands = refl;
    sequential = refl;
  }

  close-Orderly :
      (cfg : Config) (finished : Bool) (s : System)
      → Orderly cfg s
      → Orderly cfg (close finished s).1
  unfolding close
  close-Orderly cfg finished s h = elim (Bool-cases s.cancelled) [
    | inl e ↦ rw (e, close) h
    | inr e ↦ rw (e, close) h
  ]

  enqueue-Orderly :
      (cfg : Config) (entry : Entry) (s : System)
      → Orderly cfg s
      → length s.queue < capacity
      → Orderly cfg (enqueue entry s)
  unfolding enqueue
  enqueue-Orderly cfg entry s h room = record {
    bound = omega (arith, length-append s.queue (entry ∷ []));
    fifo = sym (append_assoc _ s.queue (entry ∷ [])) ∙ ap (λ xs. xs ++ entry ∷ []) h.fifo;
    history = h.history;
    commands = h.commands;
    sequential = h.sequential;
  }

  answer-Orderly :
      (cfg : Config) (entry : Entry) (rest : List Entry) (now later : ℕ)
      (out : CommandResponse × RadioState) (s : System)
      → Orderly cfg s
      → s.queue ≡ entry ∷ rest
      → process_command numbers rounds now later entry.cmd s.radio ≡ some out
      → Orderly cfg (answer entry rest out s)
  unfolding answer
  answer-Orderly cfg entry rest now later out s h first processed =
      let t : Timed = record { now = now; later = later; cmd = entry.cmd } in
      let lengths : length s.queue ≡ suc (length rest) = ap length first in
      record {
        bound = omega (arith, h.bound);
        fifo =
            ap (λ xs. xs ++ rest) (map-append _ s.answers ((entry, out.0) ∷ []))
            ∙ (append_assoc _ (entry ∷ []) rest
                ∙ (ap (λ xs. map (λ (a : Entry × CommandResponse). a.0) s.answers ++ xs) (sym first)
                    ∙ h.fifo));
        history = h.history ++ t ∷ [];
        commands = simp (map-append, h.commands);
        sequential = rw map-append (
            run-last h.history t (new_radio_state cfg)
              (map (λ (a : Entry × CommandResponse). a.1) s.answers, s.radio) out h.sequential
              processed);
      }

  Step-Orderly :
      (cfg : Config) (s t : System) → Orderly cfg s → Step numbers rounds s t → Orderly cfg t
  unfolding return_call end_worker
  Step-Orderly cfg s _ h (queued entry room) = enqueue-Orderly cfg entry s h room
  Step-Orderly cfg s _ h (worked entry rest now later out working first processed) =
      answer-Orderly cfg entry rest now later out s h first processed
  Step-Orderly cfg s _ h (received entry response before after e) = h
  Step-Orderly cfg s _ h (gave_up entry before after e) = h
  Step-Orderly cfg s _ h (refused_full call e) = h
  Step-Orderly cfg s _ h (refused_stopped call e) = h
  Step-Orderly cfg s _ h (abandoned entry before after e c) = h
  Step-Orderly cfg s _ h (closed finished) = close-Orderly cfg finished s h
  Step-Orderly cfg s _ h (stopped e) = h

  -- In every state that the steps lead to, in whatever order, at most 100 commands wait; the
  -- commands that were queued are those that were answered and then those that wait, each once and
  -- in order; and the answers and the radio are those that the answered commands give when they are
  -- run one after the other on a new radio.
  pub Reach-Orderly : (cfg : Config) {s : System} → Reach numbers rounds cfg s → Orderly cfg s
  Reach-Orderly cfg initially = new_system-Orderly cfg
  Reach-Orderly cfg (then_step {s} {t} r step) = Step-Orderly cfg s t (Reach-Orderly cfg r) step
