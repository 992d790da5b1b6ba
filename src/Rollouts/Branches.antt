-- ===== src/Rollouts/Branches.antt =====
-- The partial trajectories of src/tts/utils/trajectory.py: each is cut where
-- `get_before_traj_for_step` cuts.
use tts_tokens_that_suffice.Prelude.{
  ℕ, ◌+◌, ◌≡◌, refl, sym, ap, ◌∙◌, ◌≢◌, inl, inr, false, some, List, [], ◌∷◌, ◌++◌, append-nil,
  append_assoc, arith, leb, Bool-cases, length, take, length-append, zero, suc, subst, Option,
  contains, Text,
}
use tts_tokens_that_suffice.Rollouts.{
  Partial, chunk_from, drop_last, chain, get_before_traj_for_step, chunk_by_assistant,
  after_rollouts, branches_at, branch_from, create_partial_trajectories,
}
use tts_tokens_that_suffice.Message.{Message, is_assistant}

abbrev pub All : (Partial → Type 0) → List Partial → Type 0
All P [] = Unit
All P (p ∷ ps) = P p × All P ps

All-append : (P : Partial → Type 0) (ps qs : List Partial) → All P ps → All P qs → All P (ps ++ qs)
All-append P [] qs h g = g
All-append P (p ∷ ps) qs h g = (h.0, All-append P ps qs h.1 g)

-- A partial trajectory that is the history in front of its step.
abbrev pub IsCutAt : List Message → Partial → Type 0
IsCutAt ms p = get_before_traj_for_step ms p.step ≡ some p.trajectory

abbrev NonEmpty : List (List Message) → Type 0
NonEmpty [] = Unit
NonEmpty (c ∷ cs) = (c ≢ []) × NonEmpty cs

append_cons-not_empty {ℓ} : {A : Type ℓ} (xs : List A) (y : A) → (xs ++ y ∷ []) ≢ []
append_cons-not_empty [] y e = cc
append_cons-not_empty (x ∷ xs) y e = cc

chunk_from-NonEmpty : (cur ms : List Message) → NonEmpty (chunk_from cur ms)
unfolding chunk_from
chunk_from-NonEmpty [] [] = tt
chunk_from-NonEmpty (c ∷ cur) [] = (λ e. cc, tt)
chunk_from-NonEmpty cur (m ∷ ms) = elim (Bool-cases (is_assistant m)) [
  | inl t ↦ rw t (append_cons-not_empty cur m, chunk_from-NonEmpty [] ms)
  | inr f ↦ rw f (chunk_from-NonEmpty (cur ++ m ∷ []) ms)
]

drop_last-append_left {ℓ} :
    {A : Type ℓ} (xs ys : List A) → ys ≢ [] → drop_last (xs ++ ys) ≡ xs ++ drop_last ys
unfolding drop_last
drop_last-append_left [] ys h = refl
drop_last-append_left (x ∷ []) [] h = absurd (h refl)
drop_last-append_left (x ∷ []) (y ∷ ys) h = refl
drop_last-append_left (x ∷ z ∷ xs) ys h = ap (λ l. x ∷ l) (drop_last-append_left (z ∷ xs) ys h)

chain-append : (cs ds : List (List Message)) → chain (cs ++ ds) ≡ chain cs ++ chain ds
unfolding chain
chain-append [] ds = refl
chain-append (c ∷ cs) ds =
    ap (λ l. c ++ l) (chain-append cs ds) ∙ sym (append_assoc c (chain cs) (chain ds))

-- The first chunks, up to and with the chunk `c`.
take_snoc {ℓ} :
    {A : Type ℓ} (xs : List A) (y : A) (ys : List A)
    → take (suc (length xs)) (xs ++ y ∷ ys) ≡ xs ++ y ∷ []
take_snoc [] y ys = refl
take_snoc (x ∷ xs) y ys = ap (λ l. x ∷ l) (take_snoc xs y ys)

cut_before :
    (ms : List Message) (done : List (List Message)) (c : List Message) (cs : List (List Message))
    → chunk_by_assistant ms ≡ done ++ c ∷ cs
    → get_before_traj_for_step ms (length done) ≡ some (drop_last (chain done ++ c))
unfolding get_before_traj_for_step chain
cut_before ms done c cs h =
    let in_range : leb (length (done ++ c ∷ cs)) (length done) ≡ false =
      ground (arith, length-append done (c ∷ cs)) in
    let next : length done + 1 ≡ suc (length done) = omega arith in
    rw (h, in_range, next, take_snoc done c cs, chain-append done (c ∷ []), append-nil c) refl

cut_after :
    (ms : List Message) (done : List (List Message)) (c d : List Message) (cs : List (List Message))
    → chunk_by_assistant ms ≡ done ++ c ∷ d ∷ cs
    → NonEmpty (d ∷ cs)
    → get_before_traj_for_step ms (length done + 1) ≡ some ((chain done ++ c) ++ drop_last d)
unfolding chain
cut_after ms done c d cs h filled =
    let longer : length (done ++ c ∷ []) ≡ length done + 1 =
      omega (arith, length-append done (c ∷ [])) in
    let together : chain (done ++ c ∷ []) ≡ chain done ++ c =
      chain-append done (c ∷ []) ∙ ap (λ l. chain done ++ l) (append-nil c) in
    rw
      (
        ← longer,
        cut_before ms (done ++ c ∷ []) d cs (h ∙ sym (append_assoc done (c ∷ []) (d ∷ cs))),
        together,
        drop_last-append_left (chain done ++ c) d filled.0,
      )
      refl

after_rollouts-All :
    (ms : List Message) (uid : Text) (i : ℕ) (after_traj : List Message) (n left : ℕ)
    → get_before_traj_for_step ms (i + 1) ≡ some after_traj
    → All (IsCutAt ms) (after_rollouts uid i after_traj n left)
unfolding after_rollouts
after_rollouts-All ms uid i after_traj n zero h = tt
after_rollouts-All ms uid i after_traj n (suc left) h =
    (h, after_rollouts-All ms uid i after_traj (suc n) left h)

branches_at-All :
    (ms : List Message) (uid : Text) (n : ℕ) (done : List (List Message)) (c : List Message)
    (cs : List (List Message))
    → chunk_by_assistant ms ≡ done ++ c ∷ cs
    → NonEmpty cs
    → All (IsCutAt ms) (branches_at uid n (length done) (chain done ++ c) cs)
unfolding branches_at
branches_at-All ms uid n done c [] h filled = (cut_before ms done c [] h, tt)
branches_at-All ms uid n done c (d ∷ cs) h filled = (
  cut_before ms done c (d ∷ cs) h,
  after_rollouts-All ms uid (length done) _ 0 n (cut_after ms done c d cs h filled),
)

branch_from-All :
    (ms : List Message) (uid : Text) (n : ℕ) (eligible : List ℕ) (done cs : List (List Message))
    → chunk_by_assistant ms ≡ done ++ cs
    → NonEmpty cs
    → All (IsCutAt ms) (branch_from uid n eligible (length done) (chain done) cs)
unfolding branch_from chain
branch_from-All ms uid n eligible done [] h filled = tt
branch_from-All ms uid n eligible done (c ∷ cs) h filled =
    let longer : length (done ++ c ∷ []) ≡ suc (length done) =
      omega (arith, length-append done (c ∷ [])) in
    let together : chain (done ++ c ∷ []) ≡ chain done ++ c =
      chain-append done (c ∷ []) ∙ ap (λ l. chain done ++ l) (append-nil c) in
    let later =
      branch_from-All ms uid n eligible (done ++ c ∷ []) cs
        (h ∙ sym (append_assoc done (c ∷ []) cs)) filled.1 in
    let later : All (IsCutAt ms)
        (branch_from uid n eligible (suc (length done)) (chain done ++ c) cs) =
      subst (λ l. All (IsCutAt ms) (branch_from uid n eligible (suc (length done)) l cs)) together
        (subst (λ k. All (IsCutAt ms) (branch_from uid n eligible k (chain (done ++ c ∷ [])) cs))
          longer later) in
    elim (Bool-cases (contains eligible (length done))) [
      | inl t ↦
          rw t (All-append (IsCutAt ms) _ _ (branches_at-All ms uid n done c cs h filled.1) later)
      | inr f ↦ rw f later
    ]

-- Every partial trajectory is the history that `get_before_traj_for_step` gives for its step,
-- whichever steps are sampled.
pub create_partial_trajectories-All :
    (sample : ℕ → List ℕ → List ℕ) (ms : List Message) (uid : Text) (n_rollouts : ℕ)
    (max_branch_points sample_limit : Option ℕ)
    → All
        (IsCutAt ms)
        (create_partial_trajectories sample ms uid n_rollouts max_branch_points sample_limit)
unfolding create_partial_trajectories chunk_by_assistant chain
create_partial_trajectories-All sample ms uid n_rollouts max_branch_points sample_limit =
    branch_from-All ms uid n_rollouts _ [] (chunk_by_assistant ms) refl (chunk_from-NonEmpty [] ms)
