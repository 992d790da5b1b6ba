-- ===== src/Evaluation/Summary.antt =====
-- `_write_summary` of src/tts/eval_swebench.py: the counts over the saved trajectories of a batch.
use tts_tokens_that_suffice.Prelude.{
  ℕ, ◌+◌, max, Bool, false, Option, none, some, List, [], ◌∷◌, ◌++◌, map, ltb, if◌then◌else◌,
  length, count,
}
use tts_tokens_that_suffice.Evaluation.{Saved}

unfoldable pub total_of : List ℕ → ℕ
total_of [] = 0
total_of (x ∷ xs) = x + total_of xs

-- max(xs), where 0 stands for a list with no element
unfoldable pub largest : List ℕ → ℕ
largest [] = 0
largest (x ∷ xs) = max x (largest xs)

unfoldable pub inputs_of : List Saved → List ℕ
inputs_of [] = []
inputs_of (r ∷ rs) = r.tokens_before ++ inputs_of rs

-- The summary's numbers; a mean is its sum and its count, of which none is divided by zero.
pub record Summary : Type 0 where
  pub n_instances : ℕ
  pub sum_compressions : ℕ
  pub instances_compressed : ℕ
  pub instances_with_summary : ℕ
  pub total_summaries : ℕ
  pub sum_input_tokens : ℕ
  pub n_inputs : ℕ
  pub max_input_tokens : ℕ
  pub n_resolved : Option ℕ

abbrev pub is_true : Option Bool → Bool
is_true none = false
is_true (some b) = b

unfoldable pub write_summary : Bool → List Saved → Summary
unfolding total_of largest inputs_of
write_summary grade records = record {
  n_instances = length records;
  sum_compressions = total_of (map (λ r. r.n_compressions) records);
  instances_compressed = count (λ r. ltb 0 r.n_compressions) records;
  instances_with_summary = count (λ r. ltb 0 r.n_summaries) records;
  total_summaries = total_of (map (λ r. r.n_summaries) records);
  sum_input_tokens = total_of (inputs_of records);
  n_inputs = length (inputs_of records);
  max_input_tokens = largest (inputs_of records);
  n_resolved = if grade then some (count (λ r. is_true r.resolved) records) else none;
}
