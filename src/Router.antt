-- ===== src/Router.antt =====
-- scripts/serve/router.py: the router in front of the servers. `pick_backend` and `release` run
-- under one lock, so each is one step; `proxy` is cut where it waits for a backend, into `arrive`
-- (up to that point) and `finish_post` or `finish_stream` (from the answer on).
pub mod Json
pub mod Choice
pub mod Loads
pub mod Server
pub mod Picking
pub mod Invariant
pub mod Promises
pub mod Drain
use tts_tokens_that_suffice.Prelude.{
  ℕ, zero, suc, Bool, true, false, Option, none, some, List, [], ◌∷◌, ◌++◌, if◌then◌else◌, length,
  get_elem?, Text, text_eq, codes, Error, Result, index_error, value_error, err, ok, ℤ, pos,
  ltb_int, ◌+ℤ◌, negsuc,
}
use tts_tokens_that_suffice.Router.Json.{Body, Wire, conversation_key, streams}

-- The module's globals `inflight` and `affinity`.
pub record Router : Type 0 where
  pub inflight : List ℤ
  pub affinity : List (Text × ℕ)

-- affinity.get(key)
unfoldable pub pinned : Text → List (Text × ℕ) → Option ℕ
unfolding text_eq
pinned key [] = none
pinned key ((k, i) ∷ rest) = if text_eq k key then some i else pinned key rest

-- The index of the first smallest count behind the one at `best`, of count `low`.
unfoldable pub least_from : ℕ → ℤ → ℕ → List ℤ → ℕ
least_from best low i [] = best
least_from best low i (x ∷ xs) =
    least_from (if ltb_int x low then i else best) (if ltb_int x low then x else low) (suc i) xs

-- min(range(len(BACKENDS)), key=lambda i: inflight[i])
unfoldable pub least : List ℤ → Result ℕ
unfolding least_from
least [] = err value_error
least (x ∷ xs) = ok (least_from 0 x 1 xs)

-- inflight[idx] += by, which raises where there is no such index
unfoldable pub add_at : List ℤ → ℕ → ℤ → Option (List ℤ)
add_at [] idx by = none
add_at (x ∷ xs) zero by = some ((x +ℤ by) ∷ xs)
add_at (x ∷ xs) (suc idx) by = elim (add_at xs idx by) [ none ↦ none | some ys ↦ some (x ∷ ys) ]

unfoldable pub with_counts {ℓ} : {V : Type ℓ} → V → Router → Option (List ℤ) → Result V × Router
with_counts v r none = (err index_error, r)
with_counts v r (some counts) = (ok v, record r { inflight = counts })

unfoldable pub count_request : ℕ → Router → Result ℕ × Router
unfolding add_at with_counts
count_request idx r = with_counts idx r (add_at r.inflight idx (pos 1))

-- A new conversation goes to the least-loaded backend, and is pinned to it.
unfoldable pub pin : Option Text → ℕ → Router → Router
pin none idx r = r
pin (some k) idx r = record r { affinity = (k, idx) ∷ r.affinity }

unfoldable pub pick_new : Option Text → Router → Result ℕ → Result ℕ × Router
unfolding pin count_request
pick_new key r (err e) = (err e, r)
pick_new key r (ok idx) = count_request idx (pin key idx r)

unfoldable pub pinned_of : Option Text → Router → Option ℕ
unfolding pinned
pinned_of none r = none
pinned_of (some k) r = pinned k r.affinity

unfoldable pub pick_from : Option Text → Router → Option ℕ → Result ℕ × Router
unfolding pick_new least count_request
pick_from key r (some idx) = count_request idx r
pick_from key r none = pick_new key r (least r.inflight)

unfoldable pub pick_backend : Option Text → Router → Result ℕ × Router
unfolding pick_from pinned_of
pick_backend key r = pick_from key r (pinned_of key r)

unfoldable pub release : ℕ → Router → Result (Unit {0}) × Router
unfolding add_at with_counts
release idx r = with_counts tt r (add_at r.inflight idx (negsuc 0))

-- A call of `proxy` that waits for its backend.
pub record Request : Type 0 where
  pub key : Option Text
  pub backend : ℕ
  pub streaming : Bool

-- Where a call of `proxy` stands once its body is read: answered with status 400, ended by an
-- exception, or waiting.
pub data Arrival : Type 0 where
  bad_request : Arrival
  raised : Error → Arrival
  waiting : Request → Arrival

unfoldable pub forward : Option Text → Body → Result ℕ × Router → Arrival × Router
unfolding streams
forward key body (err e, r) = (raised e, r)
forward key body (ok idx, r) =
    (waiting (record { key = key; backend = idx; streaming = streams body }), r)

unfoldable pub arrive_keyed : Body → Result (Option Text) → Router → Arrival × Router
unfolding pick_backend forward
arrive_keyed body (err e) r = (raised e, r)
arrive_keyed body (ok key) r = forward key body (pick_backend key r)

unfoldable pub arrive_body : Wire → Result Body → Router → Arrival × Router
unfolding conversation_key arrive_keyed
arrive_body wire (err value_error) r = (bad_request, r)
arrive_body wire (err e) r = (raised e, r)
arrive_body wire (ok body) r = arrive_keyed body (conversation_key wire body) r

unfoldable pub arrive : Wire → Text → Router → Arrival × Router
unfolding arrive_body
arrive wire raw r = arrive_body wire (wire.loads raw) r

-- The answer of a backend, as httpx gives it.
pub record Response : Type 0 where
  pub content : Text
  pub status : ℕ
  pub content_type : Option Text

-- What the client of the router is sent.
pub data Reply : Type 0 where
  answer : (content : Text) (status : ℕ) (media_type : Text) → Reply
  bad_gateway : (error : Text) → Reply
  chunks : List Text → Reply

-- How the call of the backend ended: with its answer, or with an exception of this text.
pub data Outcome : Type 0 where
  answered : Response → Outcome
  failed : Text → Outcome

unfoldable pub media_type : Option Text → Text
media_type none = codes "application/json"
media_type (some t) = t

unfoldable pub reply_of : Outcome → Reply
unfolding media_type
reply_of (answered a) = answer a.content a.status (media_type a.content_type)
reply_of (failed e) = bad_gateway e

unfoldable pub finish_post : Request → Outcome → Router → Reply × Result (Unit {0}) × Router
unfolding reply_of release
finish_post q outcome r = let freed = release q.backend r in (reply_of outcome, freed.0, freed.1)

-- The chunks that came are sent on, whether or not the stream broke off behind them. The body is
-- taken to be read: one that nobody iterates never releases its slot.
unfoldable pub finish_stream : Request → List Text → Router → Reply × Result (Unit {0}) × Router
unfolding release
finish_stream q sent r = let freed = release q.backend r in (chunks sent, freed.0, freed.1)

-- sum(inflight)
unfoldable pub total : List ℤ → ℤ
total [] = pos 0
total (x ∷ xs) = x +ℤ total xs

pub record Stats : Type 0 where
  pub total_inflight : ℤ
  pub conversations_pinned : ℕ

unfoldable pub stats : Router → Stats
unfolding total
stats r = record { total_inflight = total r.inflight; conversations_pinned = length r.affinity }
