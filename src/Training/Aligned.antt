-- ===== src/Training/Aligned.antt =====
-- That the datums of a gradient step, src/tts/train_rl.py, are well formed.
use tts_tokens_that_suffice.Prelude.{
  ℕ, zero, suc, ◌<◌, ◌≡◌, refl, sym, ap, inl, inr, true, false, not, Option, none, some, List, [],
  ◌∷◌, ◌++◌, arith, Bool-cases, length, take, drop, any, Each, ◌+◌, ◌∙◌, append_assoc,
  length-append, drop-append, Each-append, ◌-◌, map, ltb, leb, Each-keep_if,
}
use tts_tokens_that_suffice.Training.{
  Sample, Datum, repeat, but_last, present, finite_number, is_usable, datum_of, PromptTokens,
  insert_sorted, sort_group, datums_of, group_datums, assemble, Tuning, scored_samples, snapped,
  advantages_of,
}
use tts_tokens_that_suffice.Reward.Floats.{Floats}

-- What the sampler gives: at least one token, and a log-probability for each.
abbrev pub IsSampled : {F : Type 0} → Sample F → Type 0
IsSampled s = (0 < length s.tokens) × (length s.logprobs ≡ length s.tokens)

pub length-repeat {ℓ} : {A : Type ℓ} (x : A) (n : ℕ) → length (repeat x n) ≡ n
unfolding repeat
length-repeat x zero = refl
length-repeat x (suc n) = ap suc (length-repeat x n)

drop-repeat {ℓ} : {A : Type ℓ} (x : A) (n : ℕ) (ys : List A) → drop n (repeat x n ++ ys) ≡ ys
unfolding repeat
drop-repeat x zero ys = refl
drop-repeat x (suc n) ys = drop-repeat x n ys

take-repeat {ℓ} :
    {A : Type ℓ} (x : A) (n : ℕ) (ys : List A) → take n (repeat x n ++ ys) ≡ repeat x n
unfolding repeat
take-repeat x zero ys = refl
take-repeat x (suc n) ys = ap (λ r. x ∷ r) (take-repeat x n ys)

Each-repeat {ℓ κ} : {A : Type ℓ} (P : A → Type κ) (x : A) (n : ℕ) → P x → Each P (repeat x n)
unfolding repeat
Each-repeat P x zero h = tt
Each-repeat P x (suc n) h = (h, Each-repeat P x n h)

-- A list with an element is all but its last, and that.
but_last-append {ℓ} :
    {A : Type ℓ} (xs : List A) → 0 < length xs → (z : A) × (but_last xs ++ z ∷ [] ≡ xs)
unfolding but_last
but_last-append [] h = absurd (omega arith)
but_last-append (x ∷ []) h = (x, refl)
but_last-append (x ∷ y ∷ r) h =
    let (z, e) = but_last-append (y ∷ r) (omega arith) in (z, ap (λ t. x ∷ t) e)

module _ {F : Type 0} (P : Sample F → Type 0) where
  Each-insert_sorted :
      (s : Sample F) (ts : List (Sample F)) → P s → Each P ts → Each P (insert_sorted s ts)
  unfolding insert_sorted
  Each-insert_sorted s [] h k = (h, tt)
  Each-insert_sorted s (t ∷ ts) h k = elim (Bool-cases (leb s.seq_idx t.seq_idx)) [
    | inl e ↦ rw e (h, k)
    | inr e ↦ rw e (k.0, Each-insert_sorted s ts h k.1)
  ]

  Each-sort_group : (ss : List (Sample F)) → Each P ss → Each P (sort_group ss)
  unfolding sort_group
  Each-sort_group [] h = tt
  Each-sort_group (s ∷ ss) h = Each-insert_sorted s (sort_group ss) h.0 (Each-sort_group ss h.1)

module _ {F : Type 0} (f : Floats F) where
  -- A datum that can be fed to the loss: its inputs are as long as the model's, every number is
  -- finite, and from `pre` on, before which no position counts, the target is the next token.
  pub record IsAligned (d : Datum F) : Type 0 where
    pub targets : length d.target_tokens ≡ length d.model_input
    pub logprobs : length d.logprobs ≡ length d.model_input
    pub advantages : length d.advantages ≡ length d.model_input
    pub finite_logprobs : Each (λ x. f.is_finite x ≡ true) d.logprobs
    pub finite_advantages : Each (λ x. f.is_finite x ≡ true) d.advantages
    pub pre : ℕ
    pub last : ℕ
    pub within : pre < length d.model_input
    pub masked : take pre d.advantages ≡ repeat f.nought pre
    pub next : drop pre d.target_tokens ≡ drop (suc pre) (d.model_input ++ last ∷ [])

  present_all :
      (xs : List (Option F))
      → any (λ l. not (finite_number f l)) xs ≡ false
      → (length (present xs) ≡ length xs) × Each (λ x. f.is_finite x ≡ true) (present xs)
  unfolding present finite_number
  present_all [] h = (refl, tt)
  present_all (none ∷ xs) h = cc
  present_all (some x ∷ xs) h = elim (Bool-cases (f.is_finite x)) [
    | inl e ↦ let (same, each) = present_all xs (rw e at h) in (ap suc same, (e, each))
    | inr e ↦ let bad : true ≡ false = rw e at h in cc
  ]

  usable_parts :
      (s : Sample F) (a : F)
      → is_usable f s a ≡ true
      → (f.is_finite a ≡ true) × (any (λ l. not (finite_number f l)) s.logprobs ≡ false)
  unfolding is_usable
  usable_parts s a h = ground arith

  module _ (finite_nought : f.is_finite f.nought ≡ true) where
    datum_of-IsAligned :
        (p : PromptTokens) (s : Sample F) (a : F)
        → IsSampled s
        → is_usable f s a ≡ true
        → IsAligned (datum_of f p s a)
    unfolding datum_of
    datum_of-IsAligned p s a (nonempty, aligned) usable =
        let (finite_a, all_finite) = usable_parts s a usable in
        let (as_many, each) = present_all s.logprobs all_finite in
        let (z, whole_again) = but_last-append s.tokens nonempty in
        let n : ℕ = length p.rest in
        let shorter : length s.tokens ≡ length (but_last s.tokens) + 1 =
          sym (ap length whole_again) ∙ length-append (but_last s.tokens) (z ∷ []) in
        let input : length (p.rest ++ but_last s.tokens) ≡ n + length (but_last s.tokens) =
          length-append p.rest (but_last s.tokens) in
        let zeros_long : length (repeat f.nought n) ≡ n = length-repeat f.nought n in
        record {
          targets =
              omega (arith, length-append (repeat {A = ℕ} 0 n) s.tokens, length-repeat {A = ℕ} 0 n);
          logprobs = omega (arith, length-append (repeat f.nought n) (present s.logprobs));
          advantages = omega (
            arith,
            length-append (repeat f.nought n)
                (repeat a (suc (length (p.rest ++ but_last s.tokens)) - n)),
            length-repeat a (suc (length (p.rest ++ but_last s.tokens)) - n),
          );
          finite_logprobs =
              Each-append _ (repeat f.nought n) (present s.logprobs)
                (Each-repeat _ f.nought n finite_nought) each;
          finite_advantages =
              Each-append _ (repeat f.nought n) _ (Each-repeat _ f.nought n finite_nought)
                (Each-repeat _ a _ finite_a);
          pre = n;
          last = z;
          within = omega arith;
          masked = take-repeat f.nought n _;
          next =
              drop-repeat 0 n s.tokens
              ∙ sym (
                  ap (drop n) (append_assoc p.rest (but_last s.tokens) (z ∷ []))
                  ∙ (ap (λ t. drop n (p.rest ++ t)) whole_again ∙ drop-append p.rest s.tokens));
        }

    datums_of-IsAligned :
        (p : PromptTokens) (ss : List (Sample F)) (advantages : List F)
        → Each IsSampled ss
        → Each IsAligned (datums_of f p ss advantages)
    unfolding datums_of
    datums_of-IsAligned p [] advantages h = tt
    datums_of-IsAligned p (s ∷ ss) [] h = tt
    datums_of-IsAligned p (s ∷ ss) (a ∷ rest) h = elim (Bool-cases (is_usable f s a)) [
      | inl e ↦ rw e (datum_of-IsAligned p s a h.0 e, datums_of-IsAligned p ss rest h.1)
      | inr e ↦ rw e (datums_of-IsAligned p ss rest h.1)
    ]

    group_datums-IsAligned :
        (cfg : Tuning F) (p : PromptTokens) (group : List (Sample F))
        → Each IsSampled group
        → Each IsAligned (group_datums f cfg p group).1
    unfolding group_datums
    group_datums-IsAligned cfg p group h =
        let rewards = present (map (λ (s : Sample F). s.reward) group) in
        let values = snapped f cfg.reward_snap rewards in
        elim (Bool-cases (ltb (length group) 2)) [
          | inl e ↦ rw e tt
          | inr e ↦
              elim (Bool-cases
                (f.lt (f.sub (f.largest values) (f.smallest values)) cfg.min_reward_spread)) [
                  | inl e' ↦ rw (e, e') tt
                  | inr e' ↦ rw (e, e') (datums_of-IsAligned p group (advantages_of f cfg values) h)
                ]
        ]

    -- Every datum of a batch is aligned, if the sampler gives at least one token for a sample and a
    -- log-probability for each token.
    pub assemble-IsAligned :
        (cfg : Tuning F) (groups : List (PromptTokens × List (Sample F)))
        → Each (λ (g : PromptTokens × List (Sample F)). Each IsSampled g.1) groups
        → Each IsAligned (assemble f cfg groups).1
    unfolding assemble scored_samples
    assemble-IsAligned cfg [] h = tt
    assemble-IsAligned cfg ((p, scored) ∷ groups) h =
        Each-append IsAligned _ _
          (group_datums-IsAligned cfg p (scored_samples f (sort_group scored))
            (Each-keep_if IsSampled _ (sort_group scored) (Each-sort_group IsSampled scored h.0)))
          (assemble-IsAligned cfg groups h.1)
