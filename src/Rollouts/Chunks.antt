-- ===== src/Rollouts/Chunks.antt =====
-- The chunks of a trajectory, src/tts/utils/trajectory.py: nothing is lost, and the prefix of a
-- branch point ends right in front of the action it branches from.
use tts_tokens_that_suffice.Prelude.{
  ℕ, ◌≡◌, refl, inl, inr, List, [], ◌∷◌, ◌++◌, append_assoc, Bool-cases, count, zero, suc, ◌<◌, ap,
  ◌∙◌, false, append-nil, arith, length, take, count-append, sym, true, some, ◌+◌, none_or_some,
}
use tts_tokens_that_suffice.Message.{Message, is_assistant}
use tts_tokens_that_suffice.Rollouts.{
  chunk_from, chunk_by_assistant, chain, drop_last, get_before_traj_for_step,
}

abbrev pub actions : List Message → ℕ
actions = count is_assistant

chain-chunk_from : (cur ms : List Message) → chain (chunk_from cur ms) ≡ cur ++ ms
unfolding chunk_from chain
chain-chunk_from [] [] = refl
chain-chunk_from (c ∷ cur) [] = refl
chain-chunk_from cur (m ∷ ms) = elim (Bool-cases (is_assistant m)) [
  | inl t ↦ rw (t, chain-chunk_from [] ms) (append_assoc cur (m ∷ []) ms)
  | inr f ↦ rw (f, chain-chunk_from (cur ++ m ∷ []) ms) (append_assoc cur (m ∷ []) ms)
]

-- The chunks make up the trajectory again.
pub chain-chunk_by_assistant : (ms : List Message) → chain (chunk_by_assistant ms) ≡ ms
unfolding chunk_by_assistant
chain-chunk_by_assistant ms = chain-chunk_from [] ms

-- Where the first `i + 1` chunks end.
record IsStep (ms chunks : List Message) (i : ℕ) : Type 0 where
  before : List Message
  action : Message
  after : List Message
  chunked : chunks ≡ before ++ action ∷ []
  whole : ms ≡ before ++ action ∷ after
  nth : actions before ≡ i

actions-append_other :
    (cur : List Message) (m : Message)
    → actions cur ≡ 0
    → is_assistant m ≡ false
    → actions (cur ++ m ∷ []) ≡ 0
actions-append_other cur m h f = ground (arith, count-append is_assistant cur (m ∷ []))

last_split {ℓ} :
    {A : Type ℓ} (x : A) (xs : List A) → (ys : List A) × (y : A) × (x ∷ xs ≡ ys ++ y ∷ [])
last_split x [] = ([], x, refl)
last_split x (y ∷ xs) = let (ys, z, e) = last_split y xs in (x ∷ ys, z, ap (λ l. x ∷ l) e)

-- The chunk that `m` closes, and the steps behind it.
IsStep-closed :
    (cur : List Message) (m : Message) (ms : List Message) (i : ℕ)
    → actions cur ≡ 0
    → is_assistant m ≡ true
    → i < suc (length (chunk_from [] ms))
    → ((j : ℕ)
        → j < length (chunk_from [] ms)
        → IsStep ms (chain (take (suc j) (chunk_from [] ms))) j)
    → IsStep (cur ++ m ∷ ms) ((cur ++ m ∷ []) ++ chain (take i (chunk_from [] ms))) i
unfolding chain
IsStep-closed cur m ms zero h t lt later = record {
  before = cur;
  action = m;
  after = ms;
  chunked = append-nil (cur ++ m ∷ []);
  whole = refl;
  nth = h;
}
IsStep-closed cur m ms (suc i) h t lt later =
    let s = later i (omega arith) in
    record {
      before = (cur ++ m ∷ []) ++ s.before;
      action = s.action;
      after = s.after;
      chunked =
          ap (λ l. (cur ++ m ∷ []) ++ l) s.chunked
          ∙ sym (append_assoc (cur ++ m ∷ []) s.before (s.action ∷ []));
      whole =
          sym (append_assoc cur (m ∷ []) ms)
          ∙ (ap (λ l. (cur ++ m ∷ []) ++ l) s.whole
              ∙ sym (append_assoc (cur ++ m ∷ []) s.before (s.action ∷ s.after)));
      nth =
          count-append is_assistant (cur ++ m ∷ []) s.before
          ∙ ground (arith, count-append is_assistant cur (m ∷ []), s.nth);
    }

IsStep-of_chunks :
    (cur ms : List Message) (i : ℕ)
    → actions cur ≡ 0
    → i < length (chunk_from cur ms)
    → IsStep (cur ++ ms) (chain (take (suc i) (chunk_from cur ms))) i
unfolding chunk_from chain
IsStep-of_chunks [] [] i h lt = absurd (omega arith)
IsStep-of_chunks (c ∷ cur) [] (suc i) h lt = absurd (omega arith)
IsStep-of_chunks (c ∷ cur) [] zero h lt =
    let (ys, z, e) = last_split c cur in
    record {
      before = ys;
      action = z;
      after = [];
      chunked = append-nil (c ∷ cur) ∙ e;
      whole = append-nil (c ∷ cur) ∙ e;
      nth = ground (arith, ap actions e, count-append is_assistant ys (z ∷ []));
    }
IsStep-of_chunks cur (m ∷ ms) i h lt = elim (Bool-cases (is_assistant m)) [
  | inl t ↦
      rw t (IsStep-closed cur m ms i h t (rw t at lt) (λ j l. IsStep-of_chunks [] ms j refl l))
  | inr f ↦
      rw (f, ← append_assoc cur (m ∷ []) ms)
        (IsStep-of_chunks (cur ++ m ∷ []) ms i (actions-append_other cur m h f) (rw f at lt))
]

drop_last-append {ℓ} : {A : Type ℓ} (xs : List A) (y : A) → drop_last (xs ++ y ∷ []) ≡ xs
unfolding drop_last
drop_last-append [] y = refl
drop_last-append (x ∷ []) y = refl
drop_last-append (x ∷ z ∷ xs) y = ap (λ l. x ∷ l) (drop_last-append (z ∷ xs) y)

-- What a prefix in front of a branch point is.
pub record IsBranchPrefix (ms before : List Message) (step : ℕ) : Type 0 where
  pub action : Message
  pub after : List Message
  pub whole : ms ≡ before ++ action ∷ after
  pub nth : actions before ≡ step

-- `get_before_traj_for_step` gives the history in front of one message, with `step` actions of the
-- agent in it.
pub get_before_traj_for_step-IsBranchPrefix :
    (ms : List Message) (step : ℕ) (before : List Message)
    → get_before_traj_for_step ms step ≡ some before
    → IsBranchPrefix ms before step
unfolding get_before_traj_for_step
get_before_traj_for_step-IsBranchPrefix ms step before h =
    let (in_range, same) = none_or_some _ _ before h in
    let next : step + 1 ≡ suc step = omega arith in
    let s = IsStep-of_chunks [] ms step refl (ground arith) in
    let found : before ≡ s.before =
      sym same
      ∙ (ap (λ k. drop_last (chain (take k (chunk_from [] ms)))) next
          ∙ (ap drop_last s.chunked ∙ drop_last-append s.before s.action)) in
    record {
      action = s.action;
      after = s.after;
      whole = s.whole ∙ ap (λ l. l ++ s.action ∷ s.after) (sym found);
      nth = ap actions found ∙ s.nth;
    }
