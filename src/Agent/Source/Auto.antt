-- ===== src/Agent/Source/Auto.antt =====
-- `autoSource` over two calls: the cooldown, and what each call answers.
use zensu_monitoring_agent.Prelude.{
  ℕ, ◌+◌, ◌<◌, ◌≡◌, refl, true, false, not, ◌&&◌, List, [], inl, inr, Bool-cases, arith,
}
use zensu_monitoring_agent.Prelude.Maps.{Map}
use zensu_monitoring_agent.Agent.Index.{ServiceTarget}
use zensu_monitoring_agent.Agent.Exposition.{MetricSample}
use zensu_monitoring_agent.Agent.Source.{
  SourceError, is_unavailable, Answer, served, refused, MetricSource, auto_retry_interval,
  AutoSource, due_for_retry, auto_name, use_fallback, switch_over, after_primary, auto_samples,
}

module _ {F : Type 0} (primary fallback : MetricSource F) where
  abbrev pub IsUnavailable : Answer F → Type 0
  IsUnavailable a = (e : SourceError) × (a ≡ refused e) × (is_unavailable e ≡ true)

  module _ (targets : List ServiceTarget) (s : AutoSource primary fallback) where
    -- A call that asks the primary and finds it unavailable.
    switches :
        (now stamp : ℕ)
        → (s.switched && not (due_for_retry primary fallback now s)) ≡ false
        → IsUnavailable (primary.samples targets s.first).1
        → ((auto_samples primary fallback now stamp targets s).0.switched ≡ true)
          × ((auto_samples primary fallback now stamp targets s).0.switched_at ≡ stamp)
          × ((auto_samples primary fallback now stamp targets s).1
              ≡ (fallback.samples targets s.second).1)
    unfolding auto_samples after_primary switch_over use_fallback
    switches now stamp asked (e, answer, gone) =
        rw (auto_samples, asked, answer, after_primary, gone) (refl, refl, refl)

    -- A call within the cooldown leaves the primary alone.
    rests :
        (now stamp : ℕ)
        → s.switched ≡ true
        → 0 < s.switched_at
        → now < s.switched_at + auto_retry_interval
        → ((auto_samples primary fallback now stamp targets s).0.first ≡ s.first)
          × ((auto_samples primary fallback now stamp targets s).1
              ≡ (fallback.samples targets s.second).1)
    unfolding auto_samples due_for_retry use_fallback
    rests now stamp on started early =
        let idle : due_for_retry primary fallback now s ≡ false = ground arith in
        rw (auto_samples, on, idle) (refl, refl)

  -- The states of an `autoSource` since it was built, whatever its two sources answered; no reading of the
  -- clock that it stores is 0.
  pub data Reachable : AutoSource primary fallback → Type 0 where
    start :
        (first : primary.State) (second : fallback.State)
        → Reachable
            (record { first = first; second = second; switched = false; switched_at = 0; log = [] })
    call :
        (s : AutoSource primary fallback) (now stamp : ℕ) (targets : List ServiceTarget)
        → Reachable s
        → 0 < stamp
        → Reachable (auto_samples primary fallback now stamp targets s).0

  abbrev pub IsStamped : AutoSource primary fallback → Type 0
  IsStamped s = s.switched ≡ true → 0 < s.switched_at

  after_primary-IsStamped :
      (s : AutoSource primary fallback) (stamp : ℕ) (targets : List ServiceTarget) (a : Answer F)
      → 0 < stamp
      → IsStamped s
      → IsStamped (after_primary primary fallback stamp targets s a).0
  unfolding after_primary switch_over use_fallback
  after_primary-IsStamped s stamp targets (served out) p h = elim (Bool-cases s.switched) [
    | inl on ↦ rw (after_primary, on) (λ e. ground arith)
    | inr off ↦ rw (after_primary, off) (λ e. ground arith)
  ]
  after_primary-IsStamped s stamp targets (refused e) p h = elim (Bool-cases (is_unavailable e)) [
    | inl gone ↦ rw (after_primary, gone) (λ on. p)
    | inr other ↦ rw (after_primary, other) h
  ]

  auto_samples-IsStamped :
      (s : AutoSource primary fallback) (now stamp : ℕ) (targets : List ServiceTarget)
      → 0 < stamp
      → IsStamped s
      → IsStamped (auto_samples primary fallback now stamp targets s).0
  unfolding auto_samples use_fallback
  auto_samples-IsStamped s now stamp targets p h =
      elim (Bool-cases (s.switched && not (due_for_retry primary fallback now s))) [
        | inl idle ↦ rw (auto_samples, idle) h
        | inr asked ↦ rw (auto_samples, asked) (after_primary-IsStamped _ stamp targets _ p h)
      ]

  pub Reachable-IsStamped : (s : AutoSource primary fallback) → Reachable s → IsStamped s
  Reachable-IsStamped _ (start first second) = λ e. ground arith
  Reachable-IsStamped _ (call s now stamp targets r p) =
      auto_samples-IsStamped s now stamp targets p (Reachable-IsStamped s r)

  -- In every state that an `autoSource` can reach, if it has switched to the fallback less than five minutes
  -- ago, then a call neither asks nor changes the primary, and answers as the fallback does.
  pub auto_cooldown :
      (s : AutoSource primary fallback) (now stamp : ℕ) (targets : List ServiceTarget)
      → Reachable s
      → s.switched ≡ true
      → now < s.switched_at + auto_retry_interval
      → ((auto_samples primary fallback now stamp targets s).0.first ≡ s.first)
        × ((auto_samples primary fallback now stamp targets s).1
            ≡ (fallback.samples targets s.second).1)
  auto_cooldown s now stamp targets r on early =
      rests targets s now stamp on (Reachable-IsStamped s r on) early

  after_primary-IsUnavailable :
      (s : AutoSource primary fallback) (stamp : ℕ) (targets : List ServiceTarget) (a : Answer F)
      → IsUnavailable (after_primary primary fallback stamp targets s a).1
      → IsUnavailable (fallback.samples targets s.second).1
  unfolding after_primary switch_over use_fallback
  after_primary-IsUnavailable s stamp targets (served out) (e, same, gone) =
      absurd (ground (arith, same))
  after_primary-IsUnavailable s stamp targets (refused e) h = elim (Bool-cases (is_unavailable e)) [
    | inl gone ↦ rw (after_primary, gone) at h
    | inr other ↦
        let (d, same, gone) = rw (after_primary, other) at h in
        absurd (ground (arith, same, gone, other))
  ]

  -- An `autoSource` reports that the cluster cannot be served only if its fallback does: an unavailable
  -- primary is never what it answers.
  pub auto-IsUnavailable :
      (s : AutoSource primary fallback) (now stamp : ℕ) (targets : List ServiceTarget)
      → IsUnavailable (auto_samples primary fallback now stamp targets s).1
      → IsUnavailable (fallback.samples targets s.second).1
  unfolding auto_samples after_primary switch_over use_fallback
  auto-IsUnavailable s now stamp targets h =
      elim (Bool-cases (s.switched && not (due_for_retry primary fallback now s))) [
        | inl idle ↦ rw (auto_samples, idle) at h
        | inr asked ↦
            after_primary-IsUnavailable (record s { first = (primary.samples targets s.first).0 })
              stamp targets (primary.samples targets s.first).1 (rw (auto_samples, asked) at h)
      ]

  -- A call that asks the primary and is served by it gives what the primary gave, and the source is then
  -- the primary's by name.
  pub auto_recovers :
      (s : AutoSource primary fallback) (now stamp : ℕ) (targets : List ServiceTarget)
      → (s.switched && not (due_for_retry primary fallback now s)) ≡ false
      → (out : Map (List (MetricSample F))) → (primary.samples targets s.first).1 ≡ served out
      → let (after, answer) = auto_samples primary fallback now stamp targets s in
        (answer ≡ served out)
        × (after.switched ≡ false)
        × (auto_name primary fallback after ≡ primary.name after.first)
  unfolding auto_samples after_primary auto_name
  auto_recovers s now stamp targets asked out answer = elim (Bool-cases s.switched) [
    | inl on ↦ rw (auto_samples, asked, answer, after_primary, on) (refl, refl, refl)
    | inr off ↦ rw (auto_samples, asked, answer, after_primary, off) (refl, refl, refl)
  ]
