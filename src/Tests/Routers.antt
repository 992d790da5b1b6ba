-- ===== src/Tests/Routers.antt =====
-- The laws of the router, applied to a run with two backends.
use tts_tokens_that_suffice.Prelude.{
  ℕ, ◌≤◌, ◌<◌, ◌≡◌, refl, Bool, false, none, some, List, [], ◌∷◌, map, ◌==◌, if◌then◌else◌, pos,
  length, get_elem?, Text, codes, occurs_in, Result, type_error, value_error, err, ok, ◌+ℤ◌,
}
use tts_tokens_that_suffice.Router.{Request, pick_backend, arrive, stats, pinned_of, failed}
use tts_tokens_that_suffice.Router.Json.{
  Body, Wire, dict, string, field, array, cons, end, nil, truth,
}
use tts_tokens_that_suffice.Router.Server.{
  Server, Reach, launch, tally, enter, here, later, receive, zeros,
}
use tts_tokens_that_suffice.Router.Drain.{Drains, Reach-Drains}
use tts_tokens_that_suffice.Router.Promises.{Reach-counts, Reach-one_backend, pick-fewest}

-- A body with one message, whose content is the text itself, and the flag of a stream.
abbrev body_of : Text → Body
body_of t = dict (
    field (codes "messages") (array (cons (dict (field (codes "content") (string t) end)) nil))
      (field (codes "stream") (truth (occurs_in (codes "!") t)) end))

abbrev first_text : List Body → Text
first_text (string t ∷ rest) = t
first_text _ = []

-- An empty text is no JSON, and "#" is no UTF-8.
abbrev load : Text → Result Body
load [] = err value_error
load (c ∷ t) = if c == b'#' then err type_error else ok (body_of (c ∷ t))

abbrev echo : Wire
echo = record { loads = load; dumps = first_text; hexdigest = λ t. t }

-- Two conversations, the second streaming, and a further request of the first; then a broken body.
abbrev requests : List Text
requests = codes "a" ∷ codes "b!" ∷ codes "a" ∷ [] ∷ []

abbrev received : List Text → Server → Server
received [] s = s
received (t ∷ ts) s = received ts (enter (arrive echo t s.router) s.opened)

received-Reach : (ts : List Text) (s t : Server) → Reach echo s t → Reach echo s (received ts t)
received-Reach [] s t r = r
received-Reach (x ∷ ts) s t r =
    received-Reach ts s (enter (arrive echo x t.router) t.opened) (later r (receive x))

abbrev busy : Server
busy = received requests (launch 2)

busy-Reach : Reach echo (launch 2) busy
busy-Reach = received-Reach requests (launch 2) (launch 2) here

-- The conversations are on different backends, and a broken body opens nothing.
busy_counts :
    (busy.router.inflight ≡ pos 2 ∷ pos 1 ∷ [])
    × (map (λ q. q.backend) busy.opened ≡ 0 ∷ 1 ∷ 0 ∷ [])
    × (length busy.opened ≡ 3)
unfolding launch arrive enter ◌+ℤ◌
busy_counts = (refl, refl, refl)

Reach-counts_example :
    (length busy.router.inflight ≡ 2)
    × ((i : ℕ) → i < 2 → get_elem? busy.router.inflight i ≡ some (pos (tally busy.opened i)))
    × ((stats busy.router).total_inflight ≡ pos (length busy.opened))
Reach-counts_example = Reach-counts echo 2 busy-Reach

abbrev request : Text → ℕ → Bool → Request
request k i s = record { key = some k; backend = i; streaming = s }

Reach-one_backend_example : ◌≡◌ {A = ℕ} 0 0
unfolding launch arrive enter ◌+ℤ◌ occurs_in
Reach-one_backend_example =
    Reach-one_backend echo 2 busy-Reach here 0 2 (request (codes "a") 0 false)
      (request (codes "a") 0 false) (codes "a") refl refl refl refl

pick-fewest_example :
    (idx : ℕ) × ((pick_backend (some (codes "c")) busy.router).0 ≡ ok idx)
    × ((j : ℕ) → j < 2 → tally busy.opened idx ≤ tally busy.opened j)
    × ((j : ℕ) → j < idx → tally busy.opened idx < tally busy.opened j)
pick-fewest_example = pick-fewest echo 1 (some (codes "c")) busy-Reach new
  where
    new : pinned_of (some (codes "c")) busy.router ≡ none
    new = unfold launch arrive enter ◌+ℤ◌ in refl

-- The backend of a plain request fails, and a stream breaks off at once.
Reach-Drains_example :
    (t : Server) × Drains echo (λ q. failed (codes "down")) (λ q. []) (length busy.opened) busy t
    × (t.opened ≡ [])
    × (t.router ≡ record busy.router { inflight = zeros 2 })
Reach-Drains_example = Reach-Drains echo (λ q. failed (codes "down")) (λ q. []) 2 busy busy-Reach
