-- ===== src/Router/Picking.antt =====
-- What `pick_backend` of scripts/serve/router.py does where the counts are those of the open requests.
use tts_tokens_that_suffice.Prelude.{
  ℕ, zero, suc, ◌<◌, ◌≡◌, refl, false, Option, none, some, List, ◌∷◌, arith, length, lt_length,
  Text, ok, sym, ap₂, subst, pos, ap, inl, inr, Bool-cases, text_eq, text_eq_iff, ◌∙◌, ◌⊎◌, [],
  Option-cases, ℤ, Error, Result, value_error, err,
}
use tts_tokens_that_suffice.Router.{
  Router, Request, pinned, count_request, least, add_at, with_counts, pin, pinned_of, pick_new,
  pick_backend, pick_from,
}
use tts_tokens_that_suffice.Router.Loads.{tallies, add_at-tallies, length-tallies, tally_cons}
use tts_tokens_that_suffice.Router.Choice.{least-IsLeast}
use tts_tokens_that_suffice.Router.Server.{tally}

-- Each pinned conversation is pinned to one of the `n` backends.
abbrev pub PinsWithin : ℕ → Router → Type 0
PinsWithin n r = (k : Text) (i : ℕ) → pinned k r.affinity ≡ some i → i < n

-- The backend chosen and the router after it, from `r` with the open requests `qs`.
pub record Picked (n : ℕ) (qs : List Request) (key : Option Text) (r : Router) (idx : ℕ)
    (r' : Router) : Type 0 where
  pub within : idx < n
  pub counted : (q : Request) → q.backend ≡ idx → r'.inflight ≡ tallies n 0 (q ∷ qs)
  pub kept : (k : Text) (i : ℕ) → pinned k r.affinity ≡ some i → pinned k r'.affinity ≡ some i
  pub named : (k : Text) → key ≡ some k → pinned k r'.affinity ≡ some idx
  pub known : PinsWithin n r'

-- A request that names its backend, to count it.
abbrev on_backend : ℕ → Request
on_backend idx = record { key = none; backend = idx; streaming = false }

count_request-tallies :
    (n : ℕ) (qs : List Request) (idx : ℕ) (r : Router)
    → idx < n
    → r.inflight ≡ tallies n 0 qs
    → count_request idx r ≡ (ok idx, record r { inflight = tallies n 0 (on_backend idx ∷ qs) })
unfolding count_request
count_request-tallies n qs idx r lt h =
    let added : add_at r.inflight idx (pos 1) ≡ some (tallies n 0 (on_backend idx ∷ qs)) =
      subst (λ c. add_at c idx (pos 1) ≡ some (tallies n 0 (on_backend idx ∷ qs))) (sym h)
        (add_at-tallies n 0 idx (on_backend idx) qs lt (omega arith)) in
    ap (with_counts idx r) added

same_backend :
    (n k : ℕ) (q p : Request) (qs : List Request)
    → q.backend ≡ p.backend
    → tallies n k (p ∷ qs) ≡ tallies n k (q ∷ qs)
unfolding tallies
same_backend zero k q p qs h = refl
same_backend (suc n) k q p qs h =
    let equal : tally (p ∷ qs) k ≡ tally (q ∷ qs) k =
      ground (arith, tally_cons p qs k, tally_cons q qs k) in
    ap₂ (λ m r. pos m ∷ r) equal (same_backend n (suc k) q p qs h)

-- Counting a request on a backend where its conversation is, or may be, pinned.
counted_request :
    (n : ℕ) (qs : List Request) (key : Option Text) (r : Router) (idx : ℕ)
    → idx < n
    → r.inflight ≡ tallies n 0 qs
    → ((k : Text) → key ≡ some k → pinned k r.affinity ≡ some idx)
    → PinsWithin n r
    → Picked n qs key r idx (record r { inflight = tallies n 0 (on_backend idx ∷ qs) })
counted_request n qs key r idx lt h named known = record {
  within = lt;
  counted = λ q e. same_backend n 0 q (on_backend idx) qs e;
  kept = λ k i p. p;
  named = named;
  known = known;
}

pub least_within : (n : ℕ) (qs : List Request) (idx : ℕ) → least (tallies n 0 qs) ≡ ok idx → idx < n
least_within n qs idx e =
    let (low, l) = least-IsLeast (tallies n 0 qs) e in
    let inside : idx < length (tallies n 0 qs) = lt_length (tallies n 0 qs) idx low l.stands in
    omega (arith, length-tallies n 0 qs)

pin_kept :
    (key : Option Text) (idx : ℕ) (r : Router)
    → pinned_of key r ≡ none
    → (k : Text) (i : ℕ) → pinned k r.affinity ≡ some i
    → pinned k (pin key idx r).affinity ≡ some i
unfolding pin pinned_of pinned
pin_kept none idx r new k i h = h
pin_kept (some own) idx r new k i h = elim (Bool-cases (text_eq own k)) [
  | inl same ↦
      let e : own ≡ k = (text_eq_iff own k).0 same in
      let found : pinned own r.affinity ≡ some i =
        subst (λ t. pinned t r.affinity ≡ some i) (sym e) h in
      cc
  | inr other ↦ rw other h
]

pin_named :
    (key : Option Text) (idx : ℕ) (r : Router) (k : Text)
    → key ≡ some k
    → pinned k (pin key idx r).affinity ≡ some idx
unfolding pin pinned
pin_named none idx r k h = cc
pin_named (some own) idx r k h = let e : own ≡ k = cc in rw ((text_eq_iff own k).1 e)

pin_known :
    (n : ℕ) (key : Option Text) (idx : ℕ) (r : Router)
    → idx < n
    → PinsWithin n r
    → PinsWithin n (pin key idx r)
unfolding pin pinned
pin_known n none idx r lt known k i h = known k i h
pin_known n (some own) idx r lt known k i h = elim (Bool-cases (text_eq own k)) [
  | inl same ↦ let e : some idx ≡ some i = rw same at h in subst (λ j. j < n) (cc) lt
  | inr other ↦ known k i (rw other at h)
]

pin-inflight : (key : Option Text) (idx : ℕ) (r : Router) → (pin key idx r).inflight ≡ r.inflight
unfolding pin
pin-inflight none idx r = refl
pin-inflight (some k) idx r = refl

abbrev pub Outcomes : ℕ → List Request → Option Text → Router → Result ℕ × Router → Type 0
Outcomes n qs key r done =
    (done ≡ (err value_error, r))
    ⊎ ((idx : ℕ) × (r' : Router) × (done ≡ (ok idx, r')) × Picked n qs key r idx r')

least_raises :
    (counts : List ℤ) (e : Error) (r : Router)
    → least counts ≡ err e
    → ◌≡◌ {A = Result ℕ × Router} (err e, r) (err value_error, r)
unfolding least
least_raises [] e r h = let same : e ≡ value_error = cc in ap (λ x. (err x, r)) same
least_raises (x ∷ xs) e r h = cc

Picked-pin :
    (n : ℕ) (qs : List Request) (key : Option Text) (r : Router) (idx : ℕ) (r' : Router)
    → pinned_of key r ≡ none
    → Picked n qs key (pin key idx r) idx r'
    → Picked n qs key r idx r'
Picked-pin n qs key r idx r' new p = record {
  within = p.within;
  counted = p.counted;
  kept = λ k i h. p.kept k i (pin_kept key idx r new k i h);
  named = p.named;
  known = p.known;
}

module _ (n : ℕ) (qs : List Request) (key : Option Text) (r : Router)
    (exact : r.inflight ≡ tallies n 0 qs) (known : PinsWithin n r) where
  pick_new_cases :
      (o : Result ℕ)
      → least r.inflight ≡ o
      → pinned_of key r ≡ none
      → Outcomes n qs key r (pick_new key r o)
  unfolding pick_new least
  pick_new_cases (err e) h new = inl (least_raises r.inflight e r h)
  pick_new_cases (ok idx) h new =
      let lt : idx < n = least_within n qs idx (subst (λ c. least c ≡ ok idx) exact h) in
      let counts : (pin key idx r).inflight ≡ tallies n 0 qs = pin-inflight key idx r ∙ exact in
      inr (
        idx,
        record (pin key idx r) { inflight = tallies n 0 (on_backend idx ∷ qs) },
        count_request-tallies n qs idx (pin key idx r) lt counts,
        Picked-pin n qs key r idx _ new (
            counted_request n qs key (pin key idx r) idx lt counts (pin_named key idx r)
              (pin_known n key idx r lt known)),
      )

  pinned_named :
      (idx : ℕ)
      → pinned_of key r ≡ some idx
      → (k : Text) → key ≡ some k
      → pinned k r.affinity ≡ some idx
  unfolding pinned_of
  pinned_named idx h k e = (subst (λ o. pinned_of o r ≡ some idx) e h)

  pinned_within : (idx : ℕ) (o : Option Text) → pinned_of o r ≡ some idx → idx < n
  unfolding pinned_of
  pinned_within idx none h = cc
  pinned_within idx (some k) h = known k idx h

  pub pick_backend_cases : Outcomes n qs key r (pick_backend key r)
  unfolding pick_backend
  pick_backend_cases = elim (Option-cases (pinned_of key r)) [
    | inl new ↦
        subst (λ o. Outcomes n qs key r (pick_from key r o)) (sym new)
          (pick_new_cases (least r.inflight) refl new)
    | inr (idx, h) ↦
        subst (λ o. Outcomes n qs key r (pick_from key r o)) (sym h)
          (inr (
            idx,
            record r { inflight = tallies n 0 (on_backend idx ∷ qs) },
            count_request-tallies n qs idx r (pinned_within idx key h) exact,
            counted_request n qs key r idx (pinned_within idx key h) exact (pinned_named idx h)
                known,
          ))
  ]

-- Where the least count is that of `idx`, a conversation that is not pinned goes there.
pub pick_new-ok :
    (n : ℕ) (qs : List Request) (key : Option Text) (r : Router) (idx : ℕ)
    → r.inflight ≡ tallies n 0 qs
    → pinned_of key r ≡ none
    → least (tallies n 0 qs) ≡ ok idx
    → (pick_backend key r).0 ≡ ok idx
unfolding pick_backend
pick_new-ok n qs key r idx exact new chosen =
    let lt : idx < n = least_within n qs idx chosen in
    let counts : (pin key idx r).inflight ≡ tallies n 0 qs = pin-inflight key idx r ∙ exact in
    ap (λ o. (pick_from key r o).0) new
    ∙ (ap (λ c. (pick_new key r (least c)).0) exact
        ∙ (ap (λ o. (pick_new key r o).0) chosen
            ∙ ap (λ done. done.0) (count_request-tallies n qs idx (pin key idx r) lt counts)))
