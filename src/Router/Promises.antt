-- ===== src/Router/Promises.antt =====
-- What the docstring of scripts/serve/router.py promises: exact counts, affinity, and the
-- least-loaded backend for a new conversation.
use tts_tokens_that_suffice.Prelude.{
  ℕ, zero, suc, ◌+◌, ◌<◌, ◌≡◌, refl, ap, ◌∙◌, some, List, [], ◌∷◌, arith, ◌+ℤ◌, pos, length,
  get_elem?, ◌≤◌, Option, none, Text, ok, sym, subst, false, leb, leb→le,
}
use tts_tokens_that_suffice.Router.{Request, total, stats, pinned_of, pinned, pick_backend, least}
use tts_tokens_that_suffice.Router.Server.{tally, Server, Reach, launch}
use tts_tokens_that_suffice.Router.Loads.{tally_cons, tallies, length-tallies, get_elem?-tallies}
use tts_tokens_that_suffice.Router.Json.{Wire}
use tts_tokens_that_suffice.Router.Invariant.{IsExact, Reach-IsExact, Reach-After}
use tts_tokens_that_suffice.Router.Choice.{IsLeast, least-IsLeast}
use tts_tokens_that_suffice.Router.Picking.{least_within, pick_new-ok}

unfoldable summed : ℕ → ℕ → List Request → ℕ
unfolding tally
summed zero k qs = 0
summed (suc n) k qs = tally qs k + summed n (suc k) qs

total-tallies : (n k : ℕ) (qs : List Request) → total (tallies n k qs) ≡ pos (summed n k qs)
unfolding total tallies summed
total-tallies zero k qs = refl
total-tallies (suc n) k qs =
    rw (total-tallies n (suc k) qs) (pos_add (tally qs k) (summed n (suc k) qs))
  where
    pos_add : (a b : ℕ) → pos a +ℤ pos b ≡ pos (a + b)
    pos_add a b = unfold ◌+ℤ◌ in ground arith

summed_above :
    (n k : ℕ) (q : Request) (qs : List Request)
    → q.backend < k
    → summed n k (q ∷ qs) ≡ summed n k qs
unfolding summed
summed_above zero k q qs h = refl
summed_above (suc n) k q qs h = ground (arith, tally_cons q qs k, summed_above n (suc k) q qs)

summed_cons :
    (n k j : ℕ) (q : Request) (qs : List Request)
    → j < n
    → q.backend ≡ k + j
    → summed n k (q ∷ qs) ≡ suc (summed n k qs)
unfolding summed
summed_cons zero k j q qs h e = absurd (omega arith)
summed_cons (suc n) k zero q qs h e = ground (arith, tally_cons q qs k, summed_above n (suc k) q qs)
summed_cons (suc n) k (suc j) q qs h e =
    ground (arith, tally_cons q qs k, summed_cons n (suc k) j q qs (omega arith) (omega arith))

summed_none : (n k : ℕ) → summed n k [] ≡ 0
unfolding summed tally
summed_none zero k = refl
summed_none (suc n) k = omega (arith, summed_none n (suc k))

summed-length :
    (n : ℕ) (qs : List Request)
    → ((i : ℕ) (q : Request) → get_elem? qs i ≡ some q → q.backend < n)
    → summed n 0 qs ≡ length qs
summed-length n [] placed = summed_none n 0
summed-length n (q ∷ qs) placed =
    summed_cons n 0 q.backend q qs (placed 0 q refl) (omega arith)
    ∙ ap suc (summed-length n qs (λ i. placed (suc i)))

-- At any moment each count is the number of the open requests on its backend, and the total that
-- the statistics show is the number of all open requests.
pub Reach-counts :
    (wire : Wire) (n : ℕ) {s : Server}
    → Reach wire (launch n) s
    → (length s.router.inflight ≡ n)
      × ((i : ℕ) → i < n → get_elem? s.router.inflight i ≡ some (pos (tally s.opened i)))
      × ((stats s.router).total_inflight ≡ pos (length s.opened))
unfolding stats
Reach-counts wire n {s} r =
    let ex : IsExact n s = Reach-IsExact wire n r in
    (
      ap length ex.exact ∙ length-tallies n 0 s.opened,
      λ i h.
          ap (λ c. get_elem? c i) ex.exact
          ∙ (get_elem?-tallies n 0 i s.opened h
              ∙ ap (λ m. some (pos (tally s.opened m))) (omega arith)),
      ap total ex.exact
          ∙ (total-tallies n 0 s.opened ∙ ap pos (summed-length n s.opened ex.placed)),
    )

-- Two open requests of one conversation stand on one backend, also where any steps lie between the
-- moments at which they are open.
pub Reach-one_backend :
    (wire : Wire) (n : ℕ) {s t : Server}
    → Reach wire (launch n) s
    → Reach wire s t
    → (i j : ℕ) (q p : Request) (k : Text) → get_elem? s.opened i ≡ some q
    → get_elem? t.opened j ≡ some p
    → q.key ≡ some k
    → p.key ≡ some k
    → q.backend ≡ p.backend
Reach-one_backend wire n {s} {t} first between i j q p k hq hp kq kp =
    let ex : IsExact n s = Reach-IsExact wire n first in
    let (ex', kept) = Reach-After wire n ex between in
    let early : pinned k t.router.affinity ≡ some q.backend =
      kept k q.backend (ex.keyed i q k hq kq) in
    let late : pinned k t.router.affinity ≡ some p.backend = ex'.keyed j p k hp kp in cc

first_least : (n : ℕ) (qs : List Request) → (idx : ℕ) × (least (tallies (suc n) 0 qs) ≡ ok idx)
unfolding least tallies
first_least n qs = (_, refl)

tally_at :
    (n j : ℕ) (qs : List Request) → j < n → get_elem? (tallies n 0 qs) j ≡ some (pos (tally qs j))
tally_at n j qs h = get_elem?-tallies n 0 j qs h ∙ ap (λ m. some (pos (tally qs m))) (omega arith)

fewest :
    (n idx : ℕ) (qs : List Request)
    → idx < n
    → IsLeast (tallies n 0 qs) idx (pos (tally qs idx))
    → ((j : ℕ) → j < n → tally qs idx ≤ tally qs j)
      × ((j : ℕ) → j < idx → tally qs idx < tally qs j)
fewest n idx qs lt l = (
  λ j h. leb→le _ _ (l.smallest j (pos (tally qs j)) (tally_at n j qs h)),
  λ j h.
      let above : leb (tally qs j) (tally qs idx) ≡ false =
        l.first j (pos (tally qs j)) h (tally_at n j qs (omega arith)) in
      ground arith,
)

-- A request whose conversation is not pinned goes to a backend with the fewest open requests, the
-- first of these; where there is a backend it goes to one.
pub pick-fewest :
    (wire : Wire) (n : ℕ) {s : Server} (key : Option Text)
    → Reach wire (launch (suc n)) s
    → pinned_of key s.router ≡ none
    → (idx : ℕ) × ((pick_backend key s.router).0 ≡ ok idx)
      × ((j : ℕ) → j < suc n → tally s.opened idx ≤ tally s.opened j)
      × ((j : ℕ) → j < idx → tally s.opened idx < tally s.opened j)
pick-fewest wire n {s} key r new =
    let ex : IsExact (suc n) s = Reach-IsExact wire (suc n) r in
    let (idx, chosen) = first_least n s.opened in
    let lt : idx < suc n = least_within (suc n) s.opened idx chosen in
    let (low, l) = least-IsLeast (tallies (suc n) 0 s.opened) chosen in
    let stood : some low ≡ some (pos (tally s.opened idx)) =
      sym l.stands ∙ tally_at (suc n) idx s.opened lt in
    let same : low ≡ pos (tally s.opened idx) = cc in
    let (no_more, fewer) =
      fewest (suc n) idx s.opened lt (subst (IsLeast (tallies (suc n) 0 s.opened) idx) same l) in
    (idx, pick_new-ok (suc n) s.opened key s.router idx ex.exact new chosen, no_more, fewer)
