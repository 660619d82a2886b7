-- ===== src/Agent/Source/Runs.antt =====
-- `autoSource` over any number of calls, against the runs of its two sources alone.
use zensu_monitoring_agent.Prelude.{
  ℕ, ◌+◌, ◌<◌, ◌≡◌, refl, Bool, true, false, not, ◌&&◌, List, [], ◌∷◌, All, arith,
}
use zensu_monitoring_agent.Agent.Index.{ServiceTarget}
use zensu_monitoring_agent.Agent.Source.{
  is_unavailable, Answer, served, refused, MetricSource, auto_retry_interval, AutoSource,
  due_for_retry, use_fallback, after_primary, auto_samples,
}
use zensu_monitoring_agent.Agent.Source.Auto.{Reachable, Reachable-IsStamped}

-- A call with the two readings of the clock.
pub record Call : Type 0 where
  pub now : ℕ
  pub stamp : ℕ
  pub targets : List ServiceTarget

-- The calls as a source alone meets them.
abbrev pub asked : List Call → List (List ServiceTarget)
asked [] = []
asked (c ∷ calls) = c.targets ∷ asked calls

-- The state after some calls of a source, and its answers.
abbrev pub source_run :
    {F : Type 0} (source : MetricSource F)
    → List (List ServiceTarget)
    → source.State
    → source.State × List (Answer F)
source_run source [] s = (s, [])
source_run source (t ∷ ts) s =
    let (next, answer) = source.samples t s in
    let (last, answers) = source_run source ts next in (last, answer ∷ answers)

module _ {F : Type 0} (primary fallback : MetricSource F) where
  abbrev pub auto_run :
      List Call → AutoSource primary fallback → AutoSource primary fallback × List (Answer F)
  auto_run [] s = (s, [])
  auto_run (c ∷ calls) s =
      let (next, answer) = auto_samples primary fallback c.now c.stamp c.targets s in
      let (last, answers) = auto_run calls next in (last, answer ∷ answers)

  abbrev pub is_out : Answer F → Bool
  is_out (served out) = false
  is_out (refused e) = is_unavailable e

  -- Not one of the answers says that the source is unavailable.
  abbrev pub AreIn : List (Answer F) → Type 0
  AreIn answers = All (λ a. is_out a ≡ false) answers

  after_primary-in :
      (stamp : ℕ) (targets : List ServiceTarget) (s : AutoSource primary fallback) (a : Answer F)
      → s.switched ≡ false
      → is_out a ≡ false
      → after_primary primary fallback stamp targets s a ≡ (s, a)
  unfolding after_primary
  after_primary-in stamp targets s (served out) off here = rw off refl
  after_primary-in stamp targets s (refused e) off here = rw here refl

  -- A call that finds the primary there.
  steps_in :
      (c : Call) (s : AutoSource primary fallback)
      → s.switched ≡ false
      → is_out (primary.samples c.targets s.first).1 ≡ false
      → auto_samples primary fallback c.now c.stamp c.targets s ≡ (
        record s { first = (primary.samples c.targets s.first).0 },
        (primary.samples c.targets s.first).1,
      )
  unfolding auto_samples
  steps_in c s off here =
      let probes : (s.switched && not (due_for_retry primary fallback c.now s)) ≡ false =
        ground (arith, off) in
      rw (auto_samples, probes)
        (after_primary-in c.stamp c.targets
          (record s { first = (primary.samples c.targets s.first).0 }) _ off here)

  -- A call within the cooldown.
  steps_out :
      (c : Call) (s : AutoSource primary fallback)
      → s.switched ≡ true
      → 0 < s.switched_at
      → c.now < s.switched_at + auto_retry_interval
      → auto_samples primary fallback c.now c.stamp c.targets s ≡ (
        record s { second = (fallback.samples c.targets s.second).0 },
        (fallback.samples c.targets s.second).1,
      )
  unfolding auto_samples use_fallback due_for_retry
  steps_out c s on stamped early =
      let idle : due_for_retry primary fallback c.now s ≡ false = ground arith in
      rw (auto_samples, on, idle) refl

  -- As long as an `autoSource` is on the primary, any number of calls are calls of the primary alone, with its
  -- answers, if the primary alone would at none of them say that it is unavailable; they leave the fallback, the
  -- switch and the log as they are.
  pub auto_run-primary :
      (calls : List Call) (s : AutoSource primary fallback)
      → s.switched ≡ false
      → AreIn (source_run primary (asked calls) s.first).1
      → auto_run calls s ≡ (
        record s { first = (source_run primary (asked calls) s.first).0 },
        (source_run primary (asked calls) s.first).1,
      )
  auto_run-primary [] s off all = refl
  auto_run-primary (c ∷ calls) s off all = rw (steps_in c s off all.0) (
      rw
        (auto_run-primary calls (record s { first = (primary.samples c.targets s.first).0 }) off
          all.1)
        refl)

  -- Every call reads the clock before the cooldown is over.
  abbrev pub AreEarly : ℕ → List Call → Type 0
  AreEarly switched_at calls = All (λ c. c.now < switched_at + auto_retry_interval) calls

  cooling :
      (calls : List Call) (s : AutoSource primary fallback)
      → s.switched ≡ true
      → 0 < s.switched_at
      → AreEarly s.switched_at calls
      → auto_run calls s ≡ (
        record s { second = (source_run fallback (asked calls) s.second).0 },
        (source_run fallback (asked calls) s.second).1,
      )
  cooling [] s on stamped all = refl
  cooling (c ∷ calls) s on stamped all = rw (steps_out c s on stamped all.0) (
      rw
        (cooling calls (record s { second = (fallback.samples c.targets s.second).0 }) on stamped
          all.1)
        refl)

  -- In every state that it can reach, if an `autoSource` has switched, then any number of calls that all come
  -- within five minutes of that are calls of the fallback alone, with its answers; they leave the primary, the
  -- switch, its time and the log as they are.
  pub auto_run-fallback :
      (calls : List Call) (s : AutoSource primary fallback)
      → Reachable primary fallback s
      → s.switched ≡ true
      → AreEarly s.switched_at calls
      → auto_run calls s ≡ (
        record s { second = (source_run fallback (asked calls) s.second).0 },
        (source_run fallback (asked calls) s.second).1,
      )
  auto_run-fallback calls s r on early =
      cooling calls s on (Reachable-IsStamped primary fallback s r on) early
