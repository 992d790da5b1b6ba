-- ===== src/Collection/Counts.antt =====
-- The number of runs that are done, before and after a call of src/tts/collect_trajectories.py.
use tts_tokens_that_suffice.Prelude.{
  ℕ, ◌+◌, ◌≡◌, Bool, false, not, ◌&&◌, Option, none, some, List, [], ◌∷◌, if◌then◌else◌, ltb, any,
  count, Text, codes, text_eq, lookup-insert, Result, err, ok, arith, ◌∙◌, ap, count-append,
  Bool-cases, inl, inr, text_eq_iff, IsDistinct, count-keep_if_one, refl,
}
use tts_tokens_that_suffice.Message.{Message}
use tts_tokens_that_suffice.Collection.{
  TrajFile, Entry, CollectCalls, CollectSettings, collect, collect_batch, collect_instance,
  collect_task, collected, task_of, set_up, written, done_instance, done_counts, add_done, count_at,
  ends_done, due_instances, entry_for,
}

-- Whether a file counts for an instance.
abbrev counts_for : Option Text → Text → Bool
counts_for none iid = false
counts_for (some i) iid = text_eq i iid

abbrev saves_done : Result (Unit {0}) → Bool → Bool
saves_done (err e) done = false
saves_done (ok u) done = done

abbrev dumps_done : Result (Result (Unit {0})) → Bool → Bool
dumps_done (err e) done = false
dumps_done (ok dumped) done = saves_done dumped done

module _ (extra_status : Message → Text) where
  abbrev done_for : Text → TrajFile → Bool
  done_for iid file = counts_for (done_instance extra_status file) iid

  -- The number of runs done for an instance, as the collection counts them.
  abbrev pub done_runs : Text → List TrajFile → ℕ
  done_runs iid files = count_at extra_status iid (done_counts extra_status files [])

  -- Whether a run on an instance is saved and ends as done: the containers and the agent are set up,
  -- the file is written, and the last message is that of an exit that counts.
  abbrev pub completes_task : CollectCalls → CollectSettings → Result Text → Bool
  completes_task c cfg (err e) = false
  completes_task c cfg (ok task) = saves_done (set_up cfg c) (
      dumps_done c.save
        (not (text_eq c.uid (codes "collect")) && ends_done extra_status (c.run task).messages))

  abbrev pub completes : CollectSettings → CollectCalls → Bool
  completes cfg c = completes_task c cfg (task_of c)

  count_at-add_done :
      (i : Text) (o : Option Text) (d : List (Text × ℕ))
      → count_at extra_status i (add_done extra_status o d)
        ≡ count_at extra_status i d + (if counts_for o i then 1 else 0)
  unfolding count_at add_done
  count_at-add_done i none d = omega arith
  count_at-add_done i (some j) d = elim (Bool-cases (text_eq j i)) [
    | inl e ↦ ground (
      arith,
      e,
      lookup-insert j i (count_at extra_status j d + 1) d,
      ap (λ x. count_at extra_status x d) ((text_eq_iff j i).0 e),
    )
    | inr e ↦ ground (arith, e, lookup-insert j i (count_at extra_status j d + 1) d)
  ]

  count_at-done_counts :
      (i : Text) (files : List TrajFile) (d : List (Text × ℕ))
      → count_at extra_status i (done_counts extra_status files d)
        ≡ count_at extra_status i d + count (done_for i) files
  unfolding done_counts
  count_at-done_counts i [] d = omega arith
  count_at-done_counts i (f ∷ files) d = ground (
    arith,
    count_at-done_counts i files (add_done extra_status (done_instance extra_status f) d),
    count_at-add_done i (done_instance extra_status f) d,
  )

  -- A file that is written counts for its instance if its last message says so.
  counts_for-entry :
      (e : Entry) (j : Text)
      → done_for j (record { stem = e.uid; content = some e }) ≡ (
          text_eq e.instance_id j
          && (not (text_eq e.uid (codes "collect")) && ends_done extra_status e.messages))
  unfolding done_instance
  counts_for-entry e j = elim (Bool-cases (text_eq e.uid (codes "collect"))) [
    | inl named ↦ rw named (ground arith)
    | inr free ↦ elim (Bool-cases (ends_done extra_status e.messages)) [
      | inl done ↦ rw (free, done) (ground arith)
      | inr cut ↦ rw (free, cut) (ground arith)
    ]
  ]

  -- A file that the dump left unfinished counts for no instance.
  counts_for-broken : (uid j : Text) → done_for j (record { stem = uid; content = none }) ≡ false
  unfolding done_instance
  counts_for-broken uid j = elim (Bool-cases (text_eq uid (codes "collect"))) [
    | inl named ↦ rw named refl
    | inr free ↦ rw free refl
  ]

  count-written :
      (saved : Result (Result (Unit {0}))) (e : Entry) (j : Text) (files : List TrajFile)
      → count (done_for j) (written saved e files).1
        ≡ count (done_for j) files
          + (if text_eq e.instance_id j
                && dumps_done saved
                    (not (text_eq e.uid (codes "collect")) && ends_done extra_status e.messages)
              then 1
              else 0)
  unfolding written
  count-written (err r) e j files = ground arith
  count-written (ok (err r)) e j files =
      let f : TrajFile = record { stem = e.uid; content = none } in
      count-append (done_for j) files (f ∷ [])
      ∙ ap (λ b. count (done_for j) files + (if b then 1 else 0)) (counts_for-broken e.uid j)
      ∙ ground arith
  count-written (ok (ok u)) e j files =
      let f : TrajFile = record { stem = e.uid; content = some e } in
      count-append (done_for j) files (f ∷ [])
      ∙ ap (λ b. count (done_for j) files + (if b then 1 else 0)) (counts_for-entry e j)

  count-collected :
      (cfg : CollectSettings) (c : CollectCalls) (i j task : Text) (o : Result (Unit {0}))
      (files : List TrajFile)
      → count (done_for j) (collected cfg c i task o files).1
        ≡ count (done_for j) files
          + (if text_eq i j
                && saves_done o (
                    dumps_done c.save (
                      not (text_eq c.uid (codes "collect"))
                      && ends_done extra_status (c.run task).messages))
              then 1
              else 0)
  unfolding collected entry_for
  count-collected cfg c i j task (err e) files = ground arith
  count-collected cfg c i j task (ok u) files = count-written c.save _ j files

  count-collect_task :
      (cfg : CollectSettings) (c : CollectCalls) (i j : Text) (r : Result Text)
      (files : List TrajFile)
      → count (done_for j) (collect_task cfg c i r files).1
        ≡ count (done_for j) files + (if text_eq i j && completes_task c cfg r then 1 else 0)
  unfolding collect_task
  count-collect_task cfg c i j (err e) files = ground arith
  count-collect_task cfg c i j (ok task) files = count-collected cfg c i j task (set_up cfg c) files

  count-collect_batch :
      (cfg : CollectSettings) (calls : Text → CollectCalls) (ids : List Text) (j : Text)
      (files : List TrajFile)
      → count (done_for j) (collect_batch extra_status cfg calls ids files)
        ≡ count (done_for j) files + count (λ i. text_eq i j && completes cfg (calls i)) ids
  unfolding collect_batch collect_instance
  count-collect_batch cfg calls [] j files = omega arith
  count-collect_batch cfg calls (i ∷ ids) j files = ground (
    arith,
    count-collect_batch cfg calls ids j (collect_instance cfg (calls i) i files).1,
    count-collect_task cfg (calls i) i j (task_of (calls i)) files,
  )

  -- A call of the collection over distinct instances adds one run to those that are done for an instance,
  -- if the instance is asked for, has too few of them, and its run completes; else it adds none.
  pub done_runs-collect :
      (cfg : CollectSettings) (calls : Text → CollectCalls) (runs_per_instance : ℕ)
      (ids : List Text) (files : List TrajFile) (j : Text)
      → IsDistinct ids
      → done_runs j (collect extra_status cfg calls runs_per_instance ids files)
        ≡ done_runs j files
          + (if any (λ i. text_eq i j) ids
                && (ltb (done_runs j files) runs_per_instance && completes cfg (calls j))
              then 1
              else 0)
  unfolding collect due_instances
  done_runs-collect cfg calls n ids files j h =
      let due = due_instances extra_status n ids files in
      omega (
        arith,
        count_at-done_counts j (collect extra_status cfg calls n ids files) [],
        count_at-done_counts j files [],
        count-collect_batch cfg calls due j files,
        count-keep_if_one (λ i. ltb (done_runs i files) n) (λ i. completes cfg (calls i)) j ids h,
      )
