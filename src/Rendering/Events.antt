-- ===== src/Rendering/Events.antt =====
-- `parse_messages` of src/tts/summarization/utils.py: one event for each action and its result.
-- `Extra` is what Python writes for a list and for arguments that are no object, and the raw output
-- under a message's "extra", where it has that key.
use tts_tokens_that_suffice.Prelude.{
  ℕ, suc, ◌-◌, ◌≡◌, sym, ap, ◌∙◌, Option, none, some, List, [], ◌∷◌, ◌++◌, ltb, if◌then◌else◌,
  length, take, drop, Text, codes, Result, ok_injective, ◌>>=◌, >>=-eq-ok, type_error, err, ok,
}
use tts_tokens_that_suffice.Message.{
  Part, Codec, Message, Arguments, Content, Role, object, text, ToolCall, assistant, json_text,
  parts, or_empty, other, parsed, missing, role_is_tool, not_object, null, tool, system, user,
}
use tts_tokens_that_suffice.Compaction.Turns.{turns}

pub record Extra : Type 0 where
  pub repr : List Part → Text
  pub str_json : Text → Text
  pub raw_output : Message → Option (Result Text)

abbrev pub cut_mark : Text
cut_mark = codes "\n...[truncated]..."

-- An output of more than 5000 characters is cut to its two ends.
unfoldable pub shorten : Text → Text
shorten t = if ltb 5000 (length t) then take 2500 t ++ (cut_mark ++ drop (length t - 2500) t) else t

module _ (json : Codec) (py : Extra) where
  unfoldable pub arguments_text : Option Arguments → Text
  arguments_text none = json.dumps (object [])
  arguments_text (some (json_text t)) = t
  arguments_text (some (parsed (object d))) = json.dumps (object d)
  arguments_text (some (parsed (not_object t))) = py.str_json t

  abbrev pub name_or_tool : Option Text → Text
  name_or_tool none = codes "tool"
  name_or_tool (some n) = n

  -- A content inside an f-string.
  abbrev pub shown : Content → Text
  shown missing = []
  shown null = []
  shown (text t) = t
  shown (parts ps) = py.repr ps

  -- What an assistant message adds to the event.
  unfoldable pub action_text : Content → List ToolCall → Result Text
  unfolding arguments_text
  action_text c (tc ∷ tcs) = ok (
      shown c
      ++ (codes "\nTool("
          ++ (name_or_tool tc.name ++ (codes "): " ++ arguments_text tc.arguments))))
  action_text (text t) [] = ok t
  action_text missing [] = ok []
  action_text null [] = ok []
  action_text (parts ps) [] = err type_error

  -- The output of a tool message, shortened.
  unfoldable pub output_of_content : Content → Result Text
  unfolding shorten
  output_of_content missing = ok []
  output_of_content null = err type_error
  output_of_content (text t) = ok (shorten t)
  output_of_content (parts ps) = if ltb 5000 (length ps) then err type_error else ok (py.repr ps)

  unfoldable pub output_text : Message → Result Text
  unfolding output_of_content shorten
  output_text m = elim (py.raw_output m) [
    | some r ↦ (r >>= λ t. ok (shorten t))
    | none ↦ output_of_content m.content
  ]

  -- The loop, with `msg_string`.
  unfoldable pub events_from : Text → List Message → Result (List Text)
  unfolding action_text output_text
  events_from msg_string [] = ok []
  events_from msg_string (m ∷ ms) =
      let after_action : Text → Result (List Text) = λ t. events_from (msg_string ++ t) ms in
      let after_event = events_from [] ms in
      let skipped = events_from msg_string ms in
      elim m.role as (λ r. Result (List Text)) [
        | assistant ↦ (action_text (or_empty m.content) m.tool_calls >>= after_action)
        | tool ↦
            (output_text m >>= λ t.
            after_event >>= λ events. ok ((msg_string ++ (codes "\nEnvironment:\n" ++ t)) ∷ events))
        | system ↦ skipped
        | user ↦ skipped
        | other r ↦ skipped
      ]

  unfoldable pub parse_messages : List Message → Result (List Text)
  unfolding events_from
  parse_messages messages = events_from [] messages

  -- The case of one message, by its role.
  count_event :
      (r : Role) (first : Result Text) (then_do : Text → Result (List Text)) (out : Result Text)
      (written : Text → Text) (after skipped : Result (List Text)) (n : ℕ) (events : List Text)
      → ((t : Text) (es : List Text) → then_do t ≡ ok es → length es ≡ n)
      → ((es : List Text) → after ≡ ok es → length es ≡ n)
      → ((es : List Text) → skipped ≡ ok es → length es ≡ n)
      → elim r as (λ x. Result (List Text)) [
        | assistant ↦ (first >>= then_do)
        | tool ↦ (out >>= λ t. after >>= λ es. ok (written t ∷ es))
        | system ↦ skipped
        | user ↦ skipped
        | other q ↦ skipped
      ]
        ≡ ok events
      → length events ≡ (if role_is_tool r then suc n else n)
  count_event assistant first then_do out written after skipped n events a b c h =
      let (t, e, g) = >>=-eq-ok first then_do h in a t events g
  count_event tool first then_do out written after skipped n events a b c h =
      let (t, e, g) = >>=-eq-ok out _ h in
      let (es, e', g') = >>=-eq-ok after (λ es. ok (written t ∷ es)) g in
      let same : written t ∷ es ≡ events = ok_injective _ events g' in
      ap length (sym same) ∙ ap suc (b es e')
  count_event system first then_do out written after skipped n events a b c h = c events h
  count_event user first then_do out written after skipped n events a b c h = c events h
  count_event (other q) first then_do out written after skipped n events a b c h = c events h

  events_from-length :
      (ms : List Message) (msg_string : Text) (events : List Text)
      → events_from msg_string ms ≡ ok events
      → length events ≡ turns ms
  unfolding events_from
  events_from-length [] msg_string events h = ap length (sym (ok_injective [] events h))
  events_from-length (m ∷ ms) msg_string events h =
      count_event m.role _ _ _ _ _ _ (turns ms) events
        (λ t es e. events_from-length ms (msg_string ++ t) es e)
        (λ es e. events_from-length ms [] es e) (λ es e. events_from-length ms msg_string es e) h

  -- Where parsing returns, there are as many events as tool messages.
  pub parse_messages-length :
      (messages : List Message) (events : List Text)
      → parse_messages messages ≡ ok events
      → length events ≡ turns messages
  unfolding parse_messages
  parse_messages-length messages events h = events_from-length messages [] events h
