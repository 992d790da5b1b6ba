-- ===== src/Lib.antt =====
-- Verification of the context compaction of this repository: an agent whose history is compacted
-- when it grows past a budget, the strategies that rewrite a history, and the trajectories that the
-- summarizer is trained on.
--
-- Parts, and the files that they model:
-- - Message: the messages, dicts in the program, as a record of the keys that the code reads.
-- - Compaction (src/tts/summarization/base.py): last_n_turns, split_head_tail, CompactionResult and
--   the interface Compactor. Compaction.Ends states the contract that a strategy meets and that the
--   agent relies on.
-- - Mask (src/tts/summarization/mask_based.py): mask_env_messages and MaskBasedSummarizer, with the
--   regular expression of the outputs to keep (Mask.Tags) and `compact` (Mask.Compact).
-- - Strategies: truncation_based.py, model_based.py, cliff_based.py and subtask_based.py of the same
--   directory, as Strategies.Truncation, Strategies.Model, Strategies.Cliff and Strategies.Subtask;
--   make_compactor of its __init__.py as Strategies.Factory, whose choices Strategies.Built takes to
--   compactors.
-- - Agent (src/tts/agent/summarization_agent.py): the record Agent is the mutable state of
--   SummarizingAgent, and an operation takes it to a result or an exception and the new state.
--   The files that it writes are a list in the state; a parameter tells which writes succeed.
-- - Trajectory (src/tts/data/agent_trajectory.py): the conversion of messages to steps
--   and back, the text of a trajectory (Trajectory.Format), the splits, and the reading of a recorded
--   run (Trajectory.Collected: from_collect_dict; Trajectory.SweAgent: from_swe_agent_dict).
-- - Rollouts (src/tts/utils/trajectory.py): chunks, branch points, the check of tool calls,
--   the names of files (Rollouts.Files), and three scans of a directory (Rollouts.Missing,
--   Rollouts.Incomplete and Rollouts.Bases).
-- - Patches (src/tts/utils/patch.py): reverse_hunk, and reverse_diff in Patches.Diff.
-- - Rendering (src/tts/reward/utils.py and src/tts/summarization/utils.py): events for a prompt, the
--   messages as the chat template takes them, and the generation behind an assistant turn.
-- - Router (scripts/serve/router.py): conversation_key, pick_backend, release and proxy, which is cut
--   where it waits for a backend; Router.Server runs it as a step relation, where requests arrive and
--   backends answer in any order.
-- - Reward (src/tts/reward/distortion_reward.py and copy_penalty.py, src/tts/utils/logprob.py): the
--   log-probabilities of a completion behind the history and behind the compacted context, the
--   distortion made of them, the penalty for copying, and the reward over one turn or several.
-- - Evaluation (src/tts/eval_swebench.py): process_instance over the predictions file and the saved
--   trajectories, build_compactor (Evaluation.Arms), the batch and what a resumed one takes
--   (Evaluation.Batch), and the counts of _write_summary (Evaluation.Summary).
-- - Training (src/tts/train_rl.py): from the scored samples of a batch to the datums of a gradient
--   step (Training, Training.Aligned, Training.Order), coverage_reward (Training.Coverage), the choice
--   of the trajectories to train on and to hold out (Training.Pool, Training.Window,
--   Training.HeldOut, Training.Prepared), and the batches of the loop of main, from which a run may
--   resume (Training.Batches, Training.Slices).
-- - Cleaning (scripts/data/clean_failed_runs.py): the removal of failed runs from the state of
--   Evaluation, which Cleaning.Retries hands to the batch of the next evaluation.
-- - Grading (scripts/eval/grade_preds.py): the grading of saved predictions with --skip-graded, and
--   a run behind another (Grading.Again).
-- - Collection (src/tts/collect_trajectories.py): process_instance over the files of a directory, the
--   count of done runs, and the batch of main (Collection.Counts).
-- - MiniSwe (src/tts/utils/mini_swe.py): get_docker_image_name, _swesmith_sif_path and
--   get_sb_environment, whose attempts are MiniSwe.Retry. The configuration is a value here; that
--   the workers of a batch share one object is not modelled.
-- - Sweep (src/tts/sweep_reward.py): parse_spec (Sweep.Specs), enumerate_split_turns and sweep_one,
--   and the shards, the units and the resumption of main (Sweep.Run).
--
-- How they interact: SummarizingAgent.query calls _maybe_compress, which hands its messages to a
-- Compactor; each strategy splits them with split_head_tail and rewrites the middle; the model-based
-- strategy gives the steps of messages_to_steps to a backend. The rewards score the contexts that
-- build_z_scoring_messages and build_maskenv_scoring_messages build; training turns them into
-- advantages, the sweep compares them over specs, and the evaluation runs the agent with a compactor.
--
-- Numbers are natural: the counts and bounds of the program are not negative in its use; the indices of
-- a theme, which a model writes, are integers. A slice with a negative bound is written out
-- (Mask.slice_last). Texts are lists of code points. An exception is a value of Error. Loops are
-- structural, but for the decimal digits of a number, on fuel one more than the number, and the loops
-- over the lines of a hunk and of a diff, on fuel as long as the list, of which each turn takes a line.
--
-- Parameters, for code that is not of this repository: the JSON module (Codec; `loads` and `reload`
-- where the value is read further), Unicode word characters and the text of a list
-- (Mask.Tags.Runtime), the tokenizer and its chat template, the summarizer's backend, the
-- cliffcompaction package, the base agent's query with the model behind it (Ask; where a theorem needs
-- it, it appends to the messages), Python's own rendering of values (Trajectory.Format.Style), the
-- random sample of branch points and the random turn of a split; for the router the hash and the JSON
-- printer of its keys, for the rewards the scoring server and the operations on floating point, for the
-- evaluation the containers, the model, the grader and the disk, each of which may raise.
--
-- Not modelled: the loading of datasets, the calls of tinker, the evaluation of a patch inside a
-- container, the patches of a third-party server, plots, progress display and logging. A theme whose
-- index is a text or a fraction that `int` reads (Strategies.Subtask.Themes has integers, or an answer of
-- which reading the entries raises), a stream of the router that nobody reads (each stream is read
-- until it ends or fails), and the fields is_correct and step_git_diffs of a collected run are left out.
pub mod Prelude
pub mod Message
pub mod Compaction
pub mod Mask
pub mod Router
pub mod Reward
pub mod Trajectory
pub mod Strategies
pub mod Agent
pub mod Rollouts
pub mod Sweep
pub mod Training
pub mod Evaluation
pub mod Cleaning
pub mod Grading
pub mod Collection
pub mod MiniSwe
pub mod Patches
pub mod Rendering
mod Tests
