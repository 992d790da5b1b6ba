-- ===== src/Training/Order.antt =====
-- That a gradient step, src/tts/train_rl.py, does not depend on the order in which scores arrive.
use tts_tokens_that_suffice.Prelude.{◌≡◌, refl, ap, ap₂, ◌∙◌, ◌≢◌, List, [], ◌∷◌, ◌++◌, arith}
use tts_tokens_that_suffice.Training.{
  Sample, insert_sorted, sort_group, PromptTokens, assemble, Tuning, group_datums, scored_samples,
}
use tts_tokens_that_suffice.Reward.Floats.{Floats}

-- The same samples in another order of completion; no two that change places have one index.
pub data Reordered {F : Type 0} : List (Sample F) → List (Sample F) → Type 0 where
  same : (ss : List (Sample F)) → Reordered ss ss
  swap :
      (s t : Sample F) (ss : List (Sample F))
      → s.seq_idx ≢ t.seq_idx
      → Reordered (s ∷ t ∷ ss) (t ∷ s ∷ ss)
  under : (s : Sample F) {ss ts : List (Sample F)} → Reordered ss ts → Reordered (s ∷ ss) (s ∷ ts)
  both : {ss ts us : List (Sample F)} → Reordered ss ts → Reordered ts us → Reordered ss us

insert_sorted_comm :
    {F : Type 0} (s t : Sample F) (us : List (Sample F))
    → s.seq_idx ≢ t.seq_idx
    → insert_sorted s (insert_sorted t us) ≡ insert_sorted t (insert_sorted s us)
unfolding insert_sorted
insert_sorted_comm s t [] h = ground arith
insert_sorted_comm s t (u ∷ us) h = ground (arith, insert_sorted_comm s t us h)

Reordered-sort_group :
    {F : Type 0} {ss ts : List (Sample F)} → Reordered ss ts → sort_group ss ≡ sort_group ts
unfolding sort_group
Reordered-sort_group (same ss) = refl
Reordered-sort_group (swap s t ss h) = insert_sorted_comm s t (sort_group ss) h
Reordered-sort_group (under s r) = ap (insert_sorted s) (Reordered-sort_group r)
Reordered-sort_group (both r q) = Reordered-sort_group r ∙ Reordered-sort_group q

-- The same groups, each with its samples in another order.
pub data AllReordered {F : Type 0}
    : List (PromptTokens × List (Sample F)) → List (PromptTokens × List (Sample F)) → Type 0 where
  none_left : AllReordered [] []
  group_too :
      (p : PromptTokens) {ss ts : List (Sample F)} {gs hs : List (PromptTokens × List (Sample F))}
      → Reordered ss ts
      → AllReordered gs hs
      → AllReordered ((p, ss) ∷ gs) ((p, ts) ∷ hs)

-- The mean rewards and the datums of a batch are the same in whatever order the scores of a group
-- arrive.
pub assemble-AllReordered :
    {F : Type 0} (f : Floats F) (cfg : Tuning F) {gs hs : List (PromptTokens × List (Sample F))}
    → AllReordered gs hs
    → assemble f cfg gs ≡ assemble f cfg hs
unfolding assemble
assemble-AllReordered f cfg none_left = refl
assemble-AllReordered f cfg (group_too p r rs) =
    ap₂
      (λ ss rest.
        let here = group_datums f cfg p (scored_samples f ss) in
        (here.0 ++ rest.0, here.1 ++ rest.1))
      (Reordered-sort_group r) (assemble-AllReordered f cfg rs)
