-- ===== src/Training/Coverage.antt =====
-- `_extract_entities` and `coverage_reward` of src/tts/train_rl.py. A set is a list with no entry
-- twice; `lower` is Python's `str.lower`.
use tts_tokens_that_suffice.Prelude.{
  ℕ, ◌≤◌, ◌≡◌, subst, Bool, ◌||◌, none, some, List, [], ◌∷◌, if◌then◌else◌, length, count, any,
  count-le-length, Text, codes, text_eq, occurs_in, is_nonempty, Result, ok_injective, ◌>>=◌,
  >>=-eq-ok, attribute_error, err, ok,
}
use tts_tokens_that_suffice.Trajectory.{TrajectoryStep, StepCall}
use tts_tokens_that_suffice.Strategies.Model.{after_last}
use tts_tokens_that_suffice.Message.{Dict, object, str_value, not_object, other_value}

abbrev pub has_text : List Text → Text → Bool
has_text es e = any (λ x. text_eq x e) es

-- entities.add(e)
unfoldable pub add_entity : Text → List Text → List Text
unfolding text_eq
add_entity e es = if has_text es e then es else e ∷ es

-- v.split("/")[-1]
unfoldable pub basename : Text → Text
unfolding after_last
basename v = elim (after_last (codes "/") v) [ none ↦ v | some t ↦ t ]

unfoldable pub value_entities : (Text → Text) → Dict → List Text → List Text
unfolding add_entity basename occurs_in
value_entities lower [] es = es
value_entities lower ((k, str_value v) ∷ d) es = value_entities lower d (
    if occurs_in (codes "/") v || occurs_in (codes ".") v
    then add_entity (lower (basename v)) es
    else es)
value_entities lower ((k, other_value v) ∷ d) es = value_entities lower d es

-- Arguments that are not an object have no `values`.
unfoldable pub call_entities : (Text → Text) → List StepCall → List Text → Result (List Text)
unfolding add_entity value_entities
call_entities lower [] es = ok es
call_entities lower (tc ∷ tcs) es = elim tc.arguments [
  | object d ↦ call_entities lower tcs (value_entities lower d (add_entity (lower tc.name) es))
  | not_object t ↦ err attribute_error
]

unfoldable pub extract_entities :
    (Text → Text) → List TrajectoryStep → List Text → Result (List Text)
unfolding add_entity call_entities
extract_entities lower [] es = ok es
extract_entities lower (step ∷ steps) es =
    call_entities lower step.tool_calls
      (if is_nonempty step.name then add_entity (lower step.name) es else es)
    >>= λ more. extract_entities lower steps more

-- The number of entities named in the summary and the number of all; with none, the reward is one
-- half. The union of the two sets is made by adding the second to the first.
unfoldable pub coverage_counts :
    (Text → Text) → Text → List TrajectoryStep → List TrajectoryStep → Result (ℕ × ℕ)
unfolding extract_entities occurs_in
coverage_counts lower z steps continuation = extract_entities lower steps [] >>= λ first.
    extract_entities lower continuation first >>= λ entities.
    ok (count (λ e. occurs_in e (lower z)) entities, length entities)

-- At most every entity is named.
pub coverage_counts_bound :
    (lower : Text → Text) (z : Text) (steps continuation : List TrajectoryStep) (n m : ℕ)
    → coverage_counts lower z steps continuation ≡ ok (n, m)
    → n ≤ m
unfolding coverage_counts
coverage_counts_bound lower z steps continuation n m h =
    let (first, e, h') = >>=-eq-ok (extract_entities lower steps []) _ h in
    let (entities, e', h'') = >>=-eq-ok (extract_entities lower continuation first) _ h' in
    let counts : (count (λ e. occurs_in e (lower z)) entities, length entities) ≡ (n, m) =
      ok_injective _ _ h'' in
    subst (λ (c : ℕ × ℕ). c.0 ≤ c.1) counts (count-le-length (λ e. occurs_in e (lower z)) entities)
