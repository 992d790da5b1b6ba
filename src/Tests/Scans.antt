-- ===== src/Tests/Scans.antt =====
-- The scan of a directory, on the names of five files.
use tts_tokens_that_suffice.Prelude.{
  ℕ, List, [], ◌∷◌, Text, codes, none, Option, not, ◌&&◌, any, ◌≡◌, refl, lookup, insert, true,
  false, some, ltb, if◌then◌else◌, length,
}
use tts_tokens_that_suffice.Rollouts.Missing.{
  has_step, steps_at, get_steps_missing_before, is_after, is_before,
}
use tts_tokens_that_suffice.Rollouts.Answered.{has_step-get_steps_missing_before}
use tts_tokens_that_suffice.Rollouts.Files.{after_file, before_file}
use tts_tokens_that_suffice.Sweep.Specs.{number, digit, read_digits}
use tts_tokens_that_suffice.Rollouts.Bases.{get_uids_without_branches}
use tts_tokens_that_suffice.Rollouts.Incomplete.{Incomplete, get_steps_incomplete_before, entry_at}
use tts_tokens_that_suffice.Rollouts.Tallied.{runs_from, is_before_init}
use tts_tokens_that_suffice.Rollouts.Counted.{is_run, entry_at-get_steps_incomplete_before}

abbrev no_digit : ℕ → Option ℕ
no_digit c = none

abbrev names_kept : List Text
names_kept =
    codes "a-1:0:7:after:0.json"
    ∷ codes "a-1:0:7:before:1.json"
    ∷ codes "a-1:0:12:after:0:2.json"
    ∷ codes "a-1:0:9:after:x.json"
    ∷ codes "a-1:0.json"
    ∷ []

names_run : get_steps_missing_before no_digit names_kept ≡ (codes "a-1:0", 12 ∷ []) ∷ []
unfolding get_steps_missing_before after_file before_file number digit read_digits insert lookup
names_run = refl

has_step-get_steps_missing_before_example :
    has_step 12 (steps_at (codes "a-1:0") (get_steps_missing_before no_digit names_kept)) ≡ (
      any (is_after no_digit (codes "a-1:0") 12) names_kept
      && not (any (is_before no_digit (codes "a-1:0") 12) names_kept))
has_step-get_steps_missing_before_example =
    has_step-get_steps_missing_before no_digit names_kept (codes "a-1:0") 12

bases_run : get_uids_without_branches no_digit (codes "b:0.json" ∷ names_kept) ≡ codes "b" ∷ []
unfolding get_uids_without_branches number digit read_digits
bases_run = refl

-- Two runs in front of step 7, of which one is named twice.
abbrev names_counted : List Text
names_counted =
    codes "a:0:7:after:0.json"
    ∷ codes "a:0:7:before:1.json"
    ∷ codes "a:0:7:before:1:5.json"
    ∷ codes "a:0:7:before:3.json"
    ∷ codes "a:0:7:before_init.json"
    ∷ codes "a:0:8:after:0.json"
    ∷ []

abbrev seventh : Incomplete
seventh = record { existing_ks = 1 ∷ 3 ∷ []; has_before_init = true }

counted_run :
    get_steps_incomplete_before no_digit 3 names_counted
    ≡ (codes "a:0", (7, seventh) ∷ (8, record { existing_ks = []; has_before_init = false }) ∷ [])
      ∷ []
unfolding get_steps_incomplete_before after_file before_file number digit read_digits insert lookup
counted_run = refl

enough_run : entry_at (codes "a:0") 7 (get_steps_incomplete_before no_digit 2 names_counted) ≡ none
unfolding get_steps_incomplete_before after_file before_file number digit read_digits insert lookup
    entry_at
enough_run = refl

entry_at-get_steps_incomplete_before_example :
    let ks = runs_from no_digit (codes "a:0") 7 names_counted [] in
    (entry_at (codes "a:0") 7 (get_steps_incomplete_before no_digit 3 names_counted) ≡ (
      if any (is_after no_digit (codes "a:0") 7) names_counted && ltb (length ks) 3
      then some (record {
        existing_ks = ks;
        has_before_init = any (is_before_init no_digit (codes "a:0") 7) names_counted;
      })
      else none))
    × ((k : ℕ)
        → has_step k ks
          ≡ any (λ f. is_run k (before_file no_digit f) (codes "a:0") 7) names_counted)
entry_at-get_steps_incomplete_before_example =
    entry_at-get_steps_incomplete_before no_digit 3 names_counted (codes "a:0") 7
