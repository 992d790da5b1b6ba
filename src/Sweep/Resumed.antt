-- ===== src/Sweep/Resumed.antt =====
-- The shards and the resumption of src/tts/sweep_reward.py: each trajectory is in one shard, and a sweep
-- leaves no unit for the next.
use tts_tokens_that_suffice.Prelude.{
  ℕ, zero, suc, ◌+◌, ◌-◌, ◌*◌, ◌/◌, ◌%◌, ◌<◌, ◌≡◌, true, ◌||◌, List, [], ◌∷◌, ◌++◌, ltb, map,
  get_elem?, Text, text_eq_iff, Error, Result, err, ok, arith, refl, ap, ◌∙◌, sym, length, inl, inr,
  if-cases, ok_injective, subst, Each, Bool-cases,
}
use native.Mathlib.Omega.{div_fact}
use tts_tokens_that_suffice.Sweep.Rows.{sweep_one-rows}
use tts_tokens_that_suffice.Sweep.Run.{
  shard_of, SweepUnit, Line, is_done, lines_for, run_unit, run_units, line_for, swept, resumed,
  sweep,
}
use tts_tokens_that_suffice.Sweep.{strided, Row}
use tts_tokens_that_suffice.Reward.Floats.{Floats}
use tts_tokens_that_suffice.Reward.Distortion.{Scorer}
use tts_tokens_that_suffice.Message.{Json}
use tts_tokens_that_suffice.Trajectory.{TrajectoryStep}
use tts_tokens_that_suffice.Sweep.Specs.{Spec}

get_elem?-strided {ℓ} :
    {A : Type ℓ} (n idx j : ℕ) (xs : List A)
    → 0 < n
    → get_elem? (strided n idx xs) j ≡ get_elem? xs (idx + j * n)
unfolding strided
get_elem?-strided n idx j [] h = refl
get_elem?-strided n zero zero (x ∷ xs) h =
    let e : 0 ≡ 0 + 0 * n = omega arith in ap (get_elem? (x ∷ xs)) e
get_elem?-strided n zero (suc j) (x ∷ xs) h =
    let e : suc (n - 1 + j * n) ≡ 0 + suc j * n = omega arith in
    get_elem?-strided n (n - 1) j xs h ∙ ap (get_elem? (x ∷ xs)) e
get_elem?-strided n (suc idx) j (x ∷ xs) h =
    let e : suc (idx + j * n) ≡ suc idx + j * n = omega arith in
    get_elem?-strided n idx j xs h ∙ ap (get_elem? (x ∷ xs)) e

quotient_rest : (n i : ℕ) → 0 < n → i % n + i / n * n ≡ i
quotient_rest zero i h = absurd (omega arith)
quotient_rest (suc k) i h = omega (arith, div_fact i k)

-- The shard number i % n of n holds the element at i, at i / n, and nothing but the elements at i % n,
-- i % n + n, and so on: each element is in one shard, once.
pub shard_of-elements {ℓ} :
    {A : Type ℓ} (n i : ℕ) (xs shard : List A)
    → 0 < n
    → shard_of (i % n) n xs ≡ ok shard
    → (get_elem? shard (i / n) ≡ get_elem? xs i)
      × ((j : ℕ) → get_elem? shard j ≡ get_elem? xs (i % n + j * n))
unfolding shard_of
shard_of-elements n i xs shard h e = elim (if-cases (ltb (i % n) n) _ _ e) [
  | inl (low, same) ↦
      let is_striped = ok_injective _ _ same in
      let holds : (j : ℕ) → get_elem? shard j ≡ get_elem? xs (i % n + j * n) =
        λ j. ap (λ l. get_elem? l j) (sym is_striped) ∙ get_elem?-strided n (i % n) j xs h in
      (holds (i / n) ∙ ap (get_elem? xs) (quotient_rest n i h), holds)
  | inr (high, raised) ↦ absurd (cc)
]

module _ {F : Type 0} where
  is_done-append :
      (u : SweepUnit) (xs ys : List (Line F))
      → is_done (xs ++ ys) u ≡ (is_done xs u || is_done ys u)
  unfolding is_done
  is_done-append u [] ys = refl
  is_done-append u (x ∷ xs) ys = ground (arith, is_done-append u xs ys)

  is_done-map :
      (u : SweepUnit) (rows : List (Row F))
      → 0 < length rows
      → is_done (map (λ r. line_for u (swept r)) rows) u ≡ true
  unfolding is_done line_for
  is_done-map u [] h = absurd (omega arith)
  is_done-map u (r ∷ rows) h = ground (arith, text_eq_iff u.traj.trajectory_id u.traj.trajectory_id)

  -- What a unit writes marks it as done, where it raised too.
  is_done-lines_for :
      (str_error : Error → Text) (u : SweepUnit) (o : Result (List (Row F)))
      → ((rows : List (Row F)) → o ≡ ok rows → 0 < length rows)
      → is_done (lines_for str_error u o) u ≡ true
  unfolding lines_for is_done line_for
  is_done-lines_for str_error u (err e) h =
      ground (arith, text_eq_iff u.traj.trajectory_id u.traj.trajectory_id)
  is_done-lines_for str_error u (ok rows) h = is_done-map u rows (h rows refl)

module _ {F : Type 0} (f : Floats F) (s : Scorer F) (reload : Text → Result Json)
    (default_prompt : Text) (str_error : Error → Text)
    (summarize : List TrajectoryStep → Result Text) (spec : Spec) (specs : List Spec) where
  abbrev run_on : SweepUnit → List (Line F)
  run_on = run_unit f s reload default_prompt str_error summarize (spec ∷ specs)

  abbrev runs_on : List SweepUnit → List (Line F) → List (Line F)
  runs_on = run_units f s reload default_prompt str_error summarize (spec ∷ specs)

  is_done-run_units :
      (u : SweepUnit) (units : List SweepUnit) (lines : List (Line F))
      → is_done lines u ≡ true
      → is_done (runs_on units lines) u ≡ true
  unfolding run_units
  is_done-run_units u [] lines h = h
  is_done-run_units u (v ∷ units) lines h =
      is_done-run_units u units (lines ++ run_on v)
        (ground (arith, h, is_done-append u lines (run_on v)))

  is_done-run_unit : (u : SweepUnit) → is_done (run_on u) u ≡ true
  unfolding run_unit
  is_done-run_unit u =
      is_done-lines_for str_error u _
        (sweep_one-rows f s reload default_prompt str_error summarize spec specs u.traj u.k_turns)

  -- Every unit that a file lacks is done behind the runs, and every other stays so.
  all_done :
      (units : List SweepUnit) (before lines : List (Line F))
      → ((u : SweepUnit) → is_done before u ≡ true → is_done lines u ≡ true)
      → Each (λ u. is_done (runs_on (resumed units before) lines) u ≡ true) units
  unfolding resumed run_units
  all_done [] before lines keeps = tt
  all_done (u ∷ units) before lines keeps =
      let AllDone : List SweepUnit → Type 0 =
        λ rs. Each (λ v. is_done (runs_on rs lines) v ≡ true) (u ∷ units) in
      elim (Bool-cases (is_done before u)) [
        | inl old ↦
            let same : resumed units before ≡ resumed (u ∷ units) before = rw old refl in
            subst AllDone same (
              is_done-run_units u (resumed units before) lines (keeps u old),
              all_done units before lines keeps,
            )
        | inr new ↦
            let same : u ∷ resumed units before ≡ resumed (u ∷ units) before = rw new refl in
            let more = lines ++ run_on u in
            subst AllDone same (
              is_done-run_units u (resumed units before) more
                  (ground (arith, is_done-append u lines (run_on u), is_done-run_unit u)),
              all_done units before more
                  (λ v old. ground (arith, is_done-append v lines (run_on u), keeps v old)),
            )
      ]

  none_left :
      (units : List SweepUnit) (lines : List (Line F))
      → Each (λ u. is_done lines u ≡ true) units
      → resumed units lines ≡ []
  unfolding resumed
  none_left [] lines h = refl
  none_left (u ∷ units) lines (done, h) = rw done (none_left units lines h)

  -- A sweep over at least one spec leaves no unit for a resumed sweep, not even one that raised.
  pub resumed-sweep :
      (units : List SweepUnit) (lines : List (Line F))
      → resumed units
          (sweep f s reload default_prompt str_error summarize (spec ∷ specs) units lines)
        ≡ []
  unfolding sweep
  resumed-sweep units lines = none_left units _ (all_done units lines lines (λ u old. old))
