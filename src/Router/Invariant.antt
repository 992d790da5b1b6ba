-- ===== src/Router/Invariant.antt =====
-- What holds of the router of scripts/serve/router.py whenever no step is under way.
use tts_tokens_that_suffice.Prelude.{
  ℕ, zero, suc, ◌<◌, ◌≡◌, refl, sym, ap, subst, ◌∙◌, inl, inr, Option, some, List, [], ◌∷◌, arith,
  negsuc, get_elem?, Text, Result, value_error, err, ok,
}
use tts_tokens_that_suffice.Router.{
  Router, Request, release, arrive, pinned, forward, arrive_keyed, arrive_body, finish_post,
  finish_stream, pick_backend, add_at, with_counts,
}
use tts_tokens_that_suffice.Router.Server.{
  Server, launch, enter, remove_at, Reach, later, Step, here, receive, answer_post, end_stream,
}
use tts_tokens_that_suffice.Router.Json.{Wire, Body, conversation_key, streams}
use tts_tokens_that_suffice.Router.Loads.{tallies, tallies_none, tallies_remove, drop_at-tallies}
use tts_tokens_that_suffice.Router.Picking.{PinsWithin, Picked, Outcomes, pick_backend_cases}

-- The counts are those of the open requests, and each request of a conversation stands where its
-- conversation is pinned.
pub record IsExact (n : ℕ) (s : Server) : Type 0 where
  pub exact : s.router.inflight ≡ tallies n 0 s.opened
  pub known : PinsWithin n s.router
  pub placed : (i : ℕ) (q : Request) → get_elem? s.opened i ≡ some q → q.backend < n
  pub keyed :
      (i : ℕ) (q : Request) (k : Text)
      → get_elem? s.opened i ≡ some q
      → q.key ≡ some k
      → pinned k s.router.affinity ≡ some q.backend

pub launch-IsExact : (n : ℕ) → IsExact n (launch n)
unfolding launch pinned
launch-IsExact n = record {
  exact = sym (tallies_none n 0);
  known = λ k i h. cc;
  placed = λ i q h. cc;
  keyed = λ i q k h e. cc;
}

enter_waiting :
    (n : ℕ) (s : Server) (key : Option Text) (body : Body) (idx : ℕ) (r' : Router)
    → IsExact n s
    → Picked n s.opened key s.router idx r'
    → IsExact n (enter (forward key body (ok idx, r')) s.opened)
unfolding enter forward
enter_waiting n s key body idx r' ex p = record {
  exact = p.counted _ refl;
  known = p.known;
  placed = placed';
  keyed = keyed';
}
  where
    new : Request
    new = record { key = key; backend = idx; streaming = streams body }

    placed' : (i : ℕ) (q : Request) → get_elem? (new ∷ s.opened) i ≡ some q → q.backend < n
    placed' zero q h = let same : new ≡ q = cc in subst (λ x. x.backend < n) same p.within
    placed' (suc i) q h = ex.placed i q h

    keyed' :
        (i : ℕ) (q : Request) (k : Text)
        → get_elem? (new ∷ s.opened) i ≡ some q
        → q.key ≡ some k
        → pinned k r'.affinity ≡ some q.backend
    keyed' zero q k h e =
        let same : new ≡ q = cc in
        subst (λ x. (x.key ≡ some k) → pinned k r'.affinity ≡ some x.backend) same (p.named k) e
    keyed' (suc i) q k h e = p.kept k q.backend (ex.keyed i q k h e)

-- The invariant behind a step, which leaves each pinned conversation where it is.
abbrev pub After : ℕ → Server → Server → Type 0
After n s t =
    IsExact n t
    × ((k : Text) (i : ℕ)
        → pinned k s.router.affinity ≡ some i
        → pinned k t.router.affinity ≡ some i)

module _ (n : ℕ) (s : Server) (ex : IsExact n s) where
  enter_picked :
      (key : Option Text) (body : Body) (done : Result ℕ × Router)
      → Outcomes n s.opened key s.router done
      → After n s (enter (forward key body done) s.opened)
  unfolding enter forward
  enter_picked key body done (inl e) =
      subst (λ d. After n s (enter (forward key body d) s.opened)) (sym e) (ex, λ k i h. h)
  enter_picked key body done (inr (idx, r', e, p)) =
      subst (λ d. After n s (enter (forward key body d) s.opened)) (sym e)
        (enter_waiting n s key body idx r' ex p, p.kept)

  enter_keyed :
      (body : Body) (o : Result (Option Text))
      → After n s (enter (arrive_keyed body o s.router) s.opened)
  unfolding enter arrive_keyed
  enter_keyed body (err e) = (ex, λ k i h. h)
  enter_keyed body (ok key) =
      enter_picked key body (pick_backend key s.router)
        (pick_backend_cases n s.opened key s.router ex.exact ex.known)

  pub enter_body :
      (wire : Wire) (o : Result Body) → After n s (enter (arrive_body wire o s.router) s.opened)
  unfolding enter arrive_body
  enter_body wire (ok body) = enter_keyed body (conversation_key wire body)
  enter_body wire (err value_error) = (ex, λ k i h. h)
  enter_body wire (err e) = (ex, λ k i h. h)

get_elem?-remove_at {ℓ} :
    {A : Type ℓ} (xs : List A) (i j : ℕ) (x : A)
    → get_elem? (remove_at i xs) j ≡ some x
    → (m : ℕ) × (get_elem? xs m ≡ some x)
unfolding remove_at
get_elem?-remove_at [] i j x h = cc
get_elem?-remove_at (y ∷ ys) zero j x h = (suc j, h)
get_elem?-remove_at (y ∷ ys) (suc i) zero x h = (0, h)
get_elem?-remove_at (y ∷ ys) (suc i) (suc j) x h =
    let (m, e) = get_elem?-remove_at ys i j x h in (suc m, e)

-- Releasing the backend of an open request.
pub release-tallies :
    (n : ℕ) (s : Server) (i : ℕ) (q : Request)
    → IsExact n s
    → get_elem? s.opened i ≡ some q
    → release q.backend s.router
      ≡ (ok tt, record s.router { inflight = tallies n 0 (remove_at i s.opened) })
unfolding release
release-tallies n s i q ex h =
    let counts : s.router.inflight ≡ tallies n 0 (q ∷ remove_at i s.opened) =
      ex.exact ∙ tallies_remove n 0 s.opened i q h in
    let dropped : add_at s.router.inflight q.backend (negsuc 0)
        ≡ some (tallies n 0 (remove_at i s.opened)) =
      subst (λ c. add_at c q.backend (negsuc 0) ≡ some (tallies n 0 (remove_at i s.opened)))
        (sym counts)
        (drop_at-tallies n 0 q.backend q (remove_at i s.opened) (ex.placed i q h) (omega arith)) in
    ap (with_counts tt s.router) dropped

pub settled_After :
    (n : ℕ) (s : Server) (i : ℕ) (q : Request)
    → IsExact n s
    → get_elem? s.opened i ≡ some q
    → After n s (record { router = (release q.backend s.router).1; opened = remove_at i s.opened })
settled_After n s i q ex h = rw (release-tallies n s i q ex h) (
  record {
    exact = refl;
    known = ex.known;
    placed = λ j x e. let (m, e') = before j x e in ex.placed m x e';
    keyed = λ j x k e named. let (m, e') = before j x e in ex.keyed m x k e' named;
  },
  λ k j pins. pins,
)
  where
    before :
        (j : ℕ) (x : Request)
        → get_elem? (remove_at i s.opened) j ≡ some x
        → (m : ℕ) × (get_elem? s.opened m ≡ some x)
    before j x e = get_elem?-remove_at s.opened i j x e

pub Step-After : (wire : Wire) (n : ℕ) {s t : Server} → IsExact n s → Step wire s t → After n s t
unfolding arrive finish_post finish_stream
Step-After wire n {s} ex (receive raw) = enter_body n s ex wire (wire.loads raw)
Step-After wire n {s} ex (answer_post i q outcome h e) = settled_After n s i q ex h
Step-After wire n {s} ex (end_stream i q sent h e) = settled_After n s i q ex h

pub Reach-After : (wire : Wire) (n : ℕ) {s t : Server} → IsExact n s → Reach wire s t → After n s t
Reach-After wire n ex here = (ex, λ k i h. h)
Reach-After wire n {s} ex (later r st) =
    let (ex', kept) = Reach-After wire n ex r in
    let (ex'', kept') = Step-After wire n ex' st in (ex'', λ k i h. kept' k i (kept k i h))

pub Reach-IsExact : (wire : Wire) (n : ℕ) {s : Server} → Reach wire (launch n) s → IsExact n s
Reach-IsExact wire n r = (Reach-After wire n (launch-IsExact n) r).0
