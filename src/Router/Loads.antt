-- ===== src/Router/Loads.antt =====
-- The counts of `inflight`, scripts/serve/router.py, beside the open requests that they stand for.
use tts_tokens_that_suffice.Prelude.{
  ℕ, zero, suc, ◌+◌, ◌<◌, ◌≡◌, refl, ap, ap₂, ◌∙◌, some, List, [], ◌∷◌, arith, ◌==◌, if◌then◌else◌,
  ℤ, ◌+ℤ◌, pos, negsuc, length, get_elem?,
}
use tts_tokens_that_suffice.Router.{Request, add_at}
use tts_tokens_that_suffice.Router.Server.{tally, remove_at, zeros}

-- The tallies of the `n` backends from `k` on.
unfoldable pub tallies : ℕ → ℕ → List Request → List ℤ
unfolding tally
tallies zero k qs = []
tallies (suc n) k qs = pos (tally qs k) ∷ tallies n (suc k) qs

pub tally_cons :
    (q : Request) (qs : List Request) (k : ℕ)
    → tally (q ∷ qs) k ≡ (if q.backend == k then 1 else 0) + tally qs k
unfolding tally
tally_cons q qs k = ground arith

tallies_above :
    (n k : ℕ) (q : Request) (qs : List Request)
    → q.backend < k
    → tallies n k (q ∷ qs) ≡ tallies n k qs
unfolding tallies
tallies_above zero k q qs h = refl
tallies_above (suc n) k q qs h =
    let other : tally (q ∷ qs) k ≡ tally qs k = ground (arith, tally_cons q qs k) in
    rw (other, tallies_above n (suc k) q qs (omega arith))

one_more : (m : ℕ) → (pos m +ℤ pos 1 ≡ pos (suc m)) × (pos (suc m) +ℤ negsuc 0 ≡ pos m)
unfolding ◌+ℤ◌
one_more m = (ground arith, ground arith)

-- A request more on a backend is one more in its count.
pub add_at-tallies :
    (n k j : ℕ) (q : Request) (qs : List Request)
    → j < n
    → q.backend ≡ k + j
    → add_at (tallies n k qs) j (pos 1) ≡ some (tallies n k (q ∷ qs))
unfolding tallies add_at
add_at-tallies zero k j q qs h e = absurd (omega arith)
add_at-tallies (suc n) k zero q qs h e =
    let more : tally (q ∷ qs) k ≡ suc (tally qs k) = ground (arith, tally_cons q qs k) in
    rw (more, tallies_above n (suc k) q qs (omega arith), (one_more (tally qs k)).0)
add_at-tallies (suc n) k (suc j) q qs h e =
    let other : tally (q ∷ qs) k ≡ tally qs k = ground (arith, tally_cons q qs k) in
    rw (other, add_at-tallies n (suc k) j q qs (omega arith) (omega arith))

pub drop_at-tallies :
    (n k j : ℕ) (q : Request) (qs : List Request)
    → j < n
    → q.backend ≡ k + j
    → add_at (tallies n k (q ∷ qs)) j (negsuc 0) ≡ some (tallies n k qs)
unfolding tallies add_at
drop_at-tallies zero k j q qs h e = absurd (omega arith)
drop_at-tallies (suc n) k zero q qs h e =
    let more : tally (q ∷ qs) k ≡ suc (tally qs k) = ground (arith, tally_cons q qs k) in
    rw (more, tallies_above n (suc k) q qs (omega arith), (one_more (tally qs k)).1)
drop_at-tallies (suc n) k (suc j) q qs h e =
    let other : tally (q ∷ qs) k ≡ tally qs k = ground (arith, tally_cons q qs k) in
    rw (drop_at-tallies n (suc k) j q qs (omega arith) (omega arith), other)

-- The tallies do not see the order of the requests.
tally_remove :
    (qs : List Request) (i k : ℕ) (q : Request)
    → get_elem? qs i ≡ some q
    → tally qs k ≡ tally (q ∷ remove_at i qs) k
unfolding tally remove_at
tally_remove [] i k q h = cc
tally_remove (x ∷ qs) zero k q h = let same : x ≡ q = cc in rw same
tally_remove (x ∷ qs) (suc i) k q h = ground (arith, tally_remove qs i k q h)

pub tallies_remove :
    (n k : ℕ) (qs : List Request) (i : ℕ) (q : Request)
    → get_elem? qs i ≡ some q
    → tallies n k qs ≡ tallies n k (q ∷ remove_at i qs)
unfolding tallies
tallies_remove zero k qs i q h = refl
tallies_remove (suc n) k qs i q h =
    ap₂ (λ m r. pos m ∷ r) (tally_remove qs i k q h) (tallies_remove n (suc k) qs i q h)

pub get_elem?-tallies :
    (n k j : ℕ) (qs : List Request)
    → j < n
    → get_elem? (tallies n k qs) j ≡ some (pos (tally qs (k + j)))
unfolding tallies
get_elem?-tallies zero k j qs h = absurd (omega arith)
get_elem?-tallies (suc n) k zero qs h = ap (λ m. some (pos (tally qs m))) (omega arith)
get_elem?-tallies (suc n) k (suc j) qs h =
    get_elem?-tallies n (suc k) j qs (omega arith) ∙ ap (λ m. some (pos (tally qs m))) (omega arith)

pub length-tallies : (n k : ℕ) (qs : List Request) → length (tallies n k qs) ≡ n
unfolding tallies
length-tallies zero k qs = refl
length-tallies (suc n) k qs = ap suc (length-tallies n (suc k) qs)

pub tallies_none : (n k : ℕ) → tallies n k [] ≡ zeros n
unfolding tallies tally zeros
tallies_none zero k = refl
tallies_none (suc n) k = ap (λ r. pos 0 ∷ r) (tallies_none n (suc k))
