-- ===== src/Strategies/Subtask/Replay.antt =====
-- `_message_for_step` of src/tts/summarization/subtask_based.py numbers the messages as
-- `messages_to_steps` of src/tts/data/agent_trajectory.py numbers the steps.
use tts_tokens_that_suffice.Prelude.{
  ℕ, zero, suc, ◌+◌, ◌<◌, ◌≡◌, refl, Bool, true, false, some, List, [], ◌∷◌, arith, ◌==◌,
  if◌then◌else◌, length, get_elem?, Result, ok,
}
use tts_tokens_that_suffice.Message.{Codec, Message, Role, other, system, assistant, tool, user}
use tts_tokens_that_suffice.Trajectory.{TrajectoryStep, steps_from, step_of, messages_to_steps}
use tts_tokens_that_suffice.Strategies.Subtask.{message_for_step, message_from}

-- The message behind a step.
pub record IsMessageOf (json : Codec) (steps : List TrajectoryStep) (i : ℕ) (found : Result Message)
    : Type 0 where
  pub message : Message
  pub returned : found ≡ ok message
  pub same_step : get_elem? steps i ≡ some (step_of json message)

module _ (json : Codec) where
  -- At a message that has a step of its own.
  replay_step :
      (idx k i : ℕ) (seen : Bool) (m : Message) (ms : List Message)
      → idx ≡ k + i
      → ((j : ℕ)
          → idx ≡ suc k + j
          → j < length (steps_from json seen ms)
          → IsMessageOf json (steps_from json seen ms) j (message_from idx (suc k) seen ms))
      → i < length (step_of json m ∷ steps_from json seen ms)
      → IsMessageOf json
          (step_of json m ∷ steps_from json seen ms)
          i
          (if k == idx then ok m else message_from idx (suc k) seen ms)
  replay_step idx k zero seen m ms e later h =
      let here : (k == idx) ≡ true = ground arith in
      rw here (record { message = m; returned = refl; same_step = refl })
  replay_step idx k (suc i) seen m ms e later h =
      let there : (k == idx) ≡ false = ground arith in
      let found = later i (omega arith) (omega arith) in
      rw there
        (record { message = found.message; returned = found.returned; same_step = found.same_step })

  abbrev Replays : ℕ → List Message → Type 0
  Replays idx ms =
      (k i : ℕ) (seen : Bool)
      → idx ≡ k + i
      → i < length (steps_from json seen ms)
      → IsMessageOf json (steps_from json seen ms) i (message_from idx k seen ms)

  -- The case of a message, by its role.
  replay_role :
      (idx k i : ℕ) (seen : Bool) (m : Message) (ms : List Message) (r : Role)
      → m.role ≡ r
      → idx ≡ k + i
      → Replays idx ms
      → i < length (steps_from json seen (m ∷ ms))
      → IsMessageOf json (steps_from json seen (m ∷ ms)) i (message_from idx k seen (m ∷ ms))
  unfolding steps_from message_from
  replay_role idx k i seen m ms system same e later h = rw same (later k i seen e (rw same at h))
  replay_role idx k i false m ms user same e later h = rw same (later k i true e (rw same at h))
  replay_role idx k i true m ms user same e later h =
      rw same (replay_step idx k i true m ms e (λ j q l. later (suc k) j true q l) (rw same at h))
  replay_role idx k i seen m ms assistant same e later h =
      rw same (replay_step idx k i seen m ms e (λ j q l. later (suc k) j seen q l) (rw same at h))
  replay_role idx k i seen m ms tool same e later h =
      rw same (replay_step idx k i seen m ms e (λ j q l. later (suc k) j seen q l) (rw same at h))
  replay_role idx k i seen m ms (other r) same e later h = rw same (later k i seen e (rw same at h))

  replay_from : (idx : ℕ) (ms : List Message) → Replays idx ms
  unfolding steps_from
  replay_from idx [] k i seen e h = absurd (omega arith)
  replay_from idx (m ∷ ms) k i seen e h =
      replay_role idx k i seen m ms m.role refl e (replay_from idx ms) h

  -- Every index of a step finds a message, and that step is the message's step.
  pub message_for_step-IsMessageOf :
      (ms : List Message) (i : ℕ)
      → i < length (messages_to_steps json ms)
      → IsMessageOf json (messages_to_steps json ms) i (message_for_step i ms)
  unfolding message_for_step messages_to_steps
  message_for_step-IsMessageOf ms i h = replay_from i ms 0 i false (omega arith) h
