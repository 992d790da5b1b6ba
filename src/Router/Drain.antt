-- ===== src/Router/Drain.antt =====
-- That the open requests of the router, scripts/serve/router.py, can all be answered.
use tts_tokens_that_suffice.Prelude.{
  ℕ, suc, ◌≡◌, refl, ap, ◌∙◌, inl, inr, true, false, some, List, [], ◌∷◌, Bool-cases, length,
  get_elem?, Text, ℤ,
}
use tts_tokens_that_suffice.Router.{Router, Request, Outcome, finish_post, finish_stream, release}
use tts_tokens_that_suffice.Router.Json.{Wire}
use tts_tokens_that_suffice.Router.Server.{Server, remove_at, Reach, zeros, launch}
use tts_tokens_that_suffice.Router.Invariant.{
  IsExact, Reach-IsExact, release-tallies, settled_After,
}
use tts_tokens_that_suffice.Router.Loads.{tallies_none, tallies}

-- Steps that each close the newest open request, as its backend's answer or its chunks come.
pub data Drains (wire : Wire) (answers : Request → Outcome) (sent : Request → List Text)
    : ℕ → Server → Server → Type 0 where
  idle : (s : Server) → Drains wire answers sent 0 s s
  answered_one :
      {n : ℕ} {s t : Server} (q : Request)
      → get_elem? s.opened 0 ≡ some q
      → q.streaming ≡ false
      → Drains wire answers sent n
          (record {
            router = (finish_post q (answers q) s.router).2;
            opened = remove_at 0 s.opened;
          })
          t
      → Drains wire answers sent (suc n) s t
  ended_one :
      {n : ℕ} {s t : Server} (q : Request)
      → get_elem? s.opened 0 ≡ some q
      → q.streaming ≡ true
      → Drains wire answers sent n
          (record { router = (finish_stream q (sent q) s.router).2; opened = remove_at 0 s.opened })
          t
      → Drains wire answers sent (suc n) s t

module _ (wire : Wire) (answers : Request → Outcome) (sent : Request → List Text) where
  close_one :
      (q : Request) (qs : List Request) (r : Router) (n : ℕ) {t : Server}
      → Drains wire answers sent n (record { router = (release q.backend r).1; opened = qs }) t
      → Drains wire answers sent (suc n) (record { router = r; opened = q ∷ qs }) t
  unfolding finish_post finish_stream remove_at
  close_one q qs r n d = elim (Bool-cases q.streaming) [
    | inl stream ↦ ended_one q refl stream d
    | inr post ↦ answered_one q refl post d
  ]

  drain_from :
      (n : ℕ) (qs : List Request) (r : Router)
      → IsExact n (record { router = r; opened = qs })
      → (t : Server) × Drains wire answers sent (length qs) (record { router = r; opened = qs }) t
        × (t.opened ≡ [])
        × (t.router ≡ record r { inflight = zeros n })
  unfolding remove_at
  drain_from n [] r ex = (
    record { router = r; opened = [] },
    idle _,
    refl,
    ap {A = List ℤ} {B = Router} (λ c. record r { inflight = c }) (ex.exact ∙ tallies_none n 0),
  )
  drain_from n (q ∷ qs) r ex =
      let s : Server = record { router = r; opened = q ∷ qs } in
      let freed : (release q.backend r).1 ≡ record r { inflight = tallies n 0 qs } =
        ap (λ done. done.1) (release-tallies n s 0 q ex refl) in
      let next : IsExact n (record { router = (release q.backend r).1; opened = qs }) =
        (settled_After n s 0 q ex refl).0 in
      let (t, d, none_open, back) = drain_from n qs (release q.backend r).1 next in
      (
        t,
        close_one q qs r (length qs) d,
        none_open,
        back ∙ ap {A = Router} {B = Router} (λ x. record x { inflight = zeros n }) freed,
      )

  -- From any moment on, one step for each open request, whatever its backend answers or how its call
  -- fails, ends with no request open, every count zero and the conversations pinned as before.
  pub Reach-Drains :
      (n : ℕ) (s : Server)
      → Reach wire (launch n) s
      → (t : Server) × Drains wire answers sent (length s.opened) s t
        × (t.opened ≡ [])
        × (t.router ≡ record s.router { inflight = zeros n })
  Reach-Drains n s r = drain_from n s.opened s.router (Reach-IsExact wire n r)
