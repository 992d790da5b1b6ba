-- ===== src/Router/Server.antt =====
-- The router of scripts/serve/router.py as it runs: the router's globals with the calls of `proxy`
-- that wait for a backend, in any order of arrivals and answers.
use tts_tokens_that_suffice.Prelude.{
  ℕ, zero, suc, ◌≡◌, true, false, some, List, [], ◌∷◌, ◌==◌, ℤ, pos, get_elem?, count, Text,
}
use tts_tokens_that_suffice.Router.{
  Router, Request, Arrival, waiting, arrive, raised, Outcome, bad_request, finish_post,
  finish_stream,
}
use tts_tokens_that_suffice.Router.Json.{Wire}

pub record Server : Type 0 where
  pub router : Router
  pub opened : List Request

-- xs without the element at an index
unfoldable pub remove_at {ℓ} : {A : Type ℓ} → ℕ → List A → List A
remove_at i [] = []
remove_at zero (x ∷ xs) = xs
remove_at (suc i) (x ∷ xs) = x ∷ remove_at i xs

-- [0] * n
unfoldable pub zeros : ℕ → List ℤ
zeros zero = []
zeros (suc n) = pos 0 ∷ zeros n

-- The module as it is loaded, with `n` backends.
unfoldable pub launch : ℕ → Server
unfolding zeros
launch n = record { router = record { inflight = zeros n; affinity = [] }; opened = [] }

unfoldable pub enter : Arrival × Router → List Request → Server
enter (waiting q, r) qs = record { router = r; opened = q ∷ qs }
enter (bad_request, r) qs = record { router = r; opened = qs }
enter (raised e, r) qs = record { router = r; opened = qs }

-- A request arrives; a backend answers or fails, or the last chunk of a stream is sent on.
pub data Step (wire : Wire) (s : Server) : Server → Type 0 where
  receive : (raw : Text) → Step wire s (enter (arrive wire raw s.router) s.opened)
  answer_post :
      (i : ℕ) (q : Request) (outcome : Outcome)
      → get_elem? s.opened i ≡ some q
      → q.streaming ≡ false
      → Step wire s
          (record { router = (finish_post q outcome s.router).2; opened = remove_at i s.opened })
  end_stream :
      (i : ℕ) (q : Request) (sent : List Text)
      → get_elem? s.opened i ≡ some q
      → q.streaming ≡ true
      → Step wire s
          (record { router = (finish_stream q sent s.router).2; opened = remove_at i s.opened })

pub data Reach (wire : Wire) (s : Server) : Server → Type 0 where
  here : Reach wire s s
  later : {t u : Server} → Reach wire s t → Step wire t u → Reach wire s u

-- How many open requests stand on a backend.
unfoldable pub tally : List Request → ℕ → ℕ
tally qs i = count (λ q. q.backend == i) qs
