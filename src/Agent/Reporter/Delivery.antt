-- ===== src/Agent/Reporter/Delivery.antt =====
-- When a heartbeat counts as delivered, and the URL to which it goes.
use zensu_monitoring_agent.Prelude.{
  ℕ, zero, suc, ◌≡◌, ◌↔◌, ◌⊎◌, refl, ap, Bool, true, false, Option, none, some, [], ◌∷◌, ◌++◌, Str,
  codes, leb, ◌==◌, ==_iff, inl, inr, Bool-cases, Option-cases, ap₂, arith,
}
use zensu_monitoring_agent.Prelude.Int.{ℤ}
use zensu_monitoring_agent.Scrape.Decode.{Exchange, not_built, not_sent, answered, Response}
use zensu_monitoring_agent.Metrics.{Metrics, record_heartbeat}
use zensu_monitoring_agent.Agent.Reporter.{
  HeartbeatBatch, Reporter, trim_right, new_reporter, Request, SendError, Marshalled, body,
  unmarshallable, request_of, judge, attempt, send,
}

module _ {F : Type 0} (marshal : HeartbeatBatch F → Marshalled) (post : Request → Exchange) where
  -- The batch has a body, and its post is answered with a status below 300.
  abbrev pub IsDelivered : Reporter → HeartbeatBatch F → Type 0
  IsDelivered r batch =
      (text : Str) × (res : Response) × (marshal batch ≡ body text)
      × (post (request_of r text) ≡ answered res)
      × (leb 300 res.status_code ≡ false)

  Marshalled-cases :
      (x : Marshalled) → ((t : Str) × (x ≡ body t)) ⊎ ((e : Str) × (x ≡ unmarshallable e))
  Marshalled-cases (body t) = inl (t, refl)
  Marshalled-cases (unmarshallable e) = inr (e, refl)

  judge_iff :
      (x : Exchange)
      → (judge x ≡ none)
        ↔ ((res : Response) × (x ≡ answered res) × (leb 300 res.status_code ≡ false))
  unfolding judge
  judge_iff (not_built e) =
      (λ h. absurd (ground (arith, h)), λ (res, h, k). absurd (ground (arith, h)))
  judge_iff (not_sent e) =
      (λ h. absurd (ground (arith, h)), λ (res, h, k). absurd (ground (arith, h)))
  judge_iff (answered r) = (λ h. (r, refl, ground (arith, h)), λ (res, h, k). ground (arith, h, k))

  pub attempt_iff :
      (r : Reporter) (batch : HeartbeatBatch F)
      → (attempt marshal post r batch ≡ none) ↔ IsDelivered r batch
  unfolding attempt
  attempt_iff r batch = elim (Marshalled-cases (marshal batch)) [
    | inr (e, h) ↦ (
      (λ k. absurd (ground (arith, rw (attempt, h) at k))),
      λ (text, res, k, p, s). absurd (ground (arith, h, k)),
    )
    | inl (t, h) ↦ (
      (λ k.
          let (res, p, s) = (judge_iff (post (request_of r t))).0 (rw (attempt, h) at k) in
          (t, res, h, p, s)),
      λ (text, res, k, p, s).
          rw (attempt, k) ((judge_iff (post (request_of r text))).1 (res, p, s)),
    )
  ]

  -- `Send` returns nil and records a success exactly when the batch was delivered: it has a body, and its
  -- post to the URL of the reporter is answered with a status below 300. Else it returns an error and
  -- records an error. Either way it records one heartbeat.
  pub send_lem :
      (d : ℤ) (now : ℕ) (r : Reporter) (batch : HeartbeatBatch F) (m : Option Metrics)
      → (IsDelivered r batch
          × (send marshal post d now r batch m ≡ (record_heartbeat true d now m, none)))
        ⊎ ((¬ IsDelivered r batch)
            × ((e : SendError) × (send marshal post d now r batch m
                  ≡ (record_heartbeat false d now m, some e))))
  unfolding send
  send_lem d now r batch m = elim (Option-cases (attempt marshal post r batch)) [
    | inl e ↦ inl ((attempt_iff r batch).0 e, rw (send, e) refl)
    | inr (err, e) ↦
        inr ((λ h. ground (arith, e, (attempt_iff r batch).1 h)), (err, rw (send, e) refl))
  ]

abbrev pub slashes : ℕ → Str
slashes zero = []
slashes (suc n) = b'/' ∷ slashes n

-- The last byte is a slash.
abbrev pub ends_in_slash : Str → Bool
ends_in_slash [] = false
ends_in_slash (c ∷ []) = c == b'/'
ends_in_slash (c ∷ d ∷ s) = ends_in_slash (d ∷ s)

List-cases : (s : Str) → (s ≡ []) ⊎ ((c : ℕ) × (t : Str) × (s ≡ c ∷ t))
List-cases [] = inl refl
List-cases (c ∷ t) = inr (c, t, refl)

trim_right-slashes : (s : Str) → (n : ℕ) × (s ≡ trim_right s ++ slashes n)
unfolding trim_right
trim_right-slashes [] = (0, refl)
trim_right-slashes (c ∷ s) =
    let (n, e) = trim_right-slashes s in
    elim (List-cases (trim_right s)) [
      | inr (d, t, h) ↦ (n, rw (trim_right, h) (ap (λ x. c ∷ x) (rw h at e)))
      | inl h ↦ elim (Bool-cases (c == b'/')) [
        | inl slash ↦
            (suc n, rw (trim_right, h, slash) (ap₂ ◌∷◌ ((==_iff c b'/').0 slash) (rw h at e)))
        | inr other ↦ (n, rw (trim_right, h, other) (ap (λ x. c ∷ x) (rw h at e)))
      ]
    ]

trim_right-ends : (s : Str) → ends_in_slash (trim_right s) ≡ false
unfolding trim_right
trim_right-ends [] = refl
trim_right-ends (c ∷ s) = elim (List-cases (trim_right s)) [
  | inr (d, t, h) ↦ rw (trim_right, h) (rw h at (trim_right-ends s))
  | inl h ↦ elim (Bool-cases (c == b'/')) [
    | inl slash ↦ rw (trim_right, h, slash) refl
    | inr other ↦ rw (trim_right, h, other) other
  ]
]

-- The reporter posts to the configured URL less its slashes at the end, which are all that is taken off,
-- and then the one path.
pub new_reporter-url :
    (url key text : Str)
    → (base : Str) × (n : ℕ) × ((request_of (new_reporter url key) text).url
        ≡ base ++ codes "/api/runtime/heartbeat")
      × (url ≡ base ++ slashes n)
      × (ends_in_slash base ≡ false)
unfolding new_reporter request_of
new_reporter-url url key text =
    let (n, e) = trim_right-slashes url in (trim_right url, n, refl, e, trim_right-ends url)
