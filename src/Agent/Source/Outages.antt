-- ===== src/Agent/Source/Outages.antt =====
-- When `metricsServerSource` of internal/agent/source.go warns of a missing API, over a run of its calls.
use zensu_monitoring_agent.Prelude.{
  ℕ, ◌+◌, ◌≡◌, ap, Bool, true, false, not, ◌&&◌, ◌||◌, List, [], ◌∷◌, ◌++◌, Str, is_empty, any,
  if◌then◌else◌, inl, inr, Bool-cases, arith,
}
use zensu_monitoring_agent.Prelude.Maps.{put}
use zensu_monitoring_agent.Prelude.Float.{Float64}
use zensu_monitoring_agent.Agent.Index.{ServiceTarget}
use zensu_monitoring_agent.Agent.Workload.{PodReading}
use zensu_monitoring_agent.Agent.Source.{
  ServerSource, ServerEvent, api_not_available, read_failed, Reads, warn_api, two_samples, finish,
  read_targets, server_samples,
}
use zensu_monitoring_agent.Agent.Source.MetricsServer.{PodReading-cases, misses, answers}

-- How often a log warns that there is no API.
abbrev pub warnings : List ServerEvent → ℕ
warnings [] = 0
warnings (api_not_available ∷ log) = warnings log + 1
warnings (read_failed slug e ∷ log) = warnings log

warnings-append :
    (log more : List ServerEvent) → warnings (log ++ more) ≡ warnings log + warnings more
warnings-append [] more = omega arith
warnings-append (api_not_available ∷ log) more = omega (arith, warnings-append log more)
warnings-append (read_failed slug e ∷ log) more = warnings-append log more

-- A call of `Samples`: what its reads find, and its targets.
pub record ServerCall : Type 0 where
  pub read : Str → Str → PodReading
  pub targets : List ServiceTarget

abbrev count : Bool → ℕ
count b = if b then 1 else 0

module _ (fl : Float64) where
  -- A target finds no API; and a read is answered.
  abbrev pub is_out : ServerCall → Bool
  is_out c = any (misses fl c.read) c.targets

  abbrev pub is_answered : ServerCall → Bool
  is_answered c = any (answers fl c.read) c.targets

  -- Whether an outage lasts after a call, by whether it did before: it begins when a target finds no API, and ends
  -- when none does and some read is answered.
  abbrev pub is_out_after : Bool → ServerCall → Bool
  is_out_after b c = is_out c || (not (is_answered c) && b)

  -- The outages that begin in a run of calls.
  abbrev pub outages : Bool → List ServerCall → ℕ
  outages b [] = 0
  outages b (c ∷ calls) = (if is_out c && not b then 1 else 0) + outages (is_out_after b c) calls

  abbrev pub call_all : List ServerCall → ServerSource → ServerSource
  call_all [] s = s
  call_all (c ∷ calls) s = call_all calls (server_samples fl c.read c.targets s).0

  -- What the latch and the warnings are after the reads that are left.
  abbrev IsWarned : Bool → Bool → ServerSource → ServerSource → Type 0
  IsWarned out answered s s' =
      (s'.warned ≡ (out || (not answered && s.warned)))
      × (warnings s'.log ≡ warnings s.log + count (out && not s.warned))

  module _ (read : Str → Str → PodReading) where
    warn_api-IsWarned :
        (answered : Bool) (s : ServerSource) → IsWarned true answered s (warn_api fl read s)
    warn_api-IsWarned answered s = elim (Bool-cases s.warned) [
      | inl e ↦ ground (arith, e)
      | inr e ↦ ground (arith, e, warnings-append s.log (api_not_available ∷ []))
    ]

    read_targets-IsWarned :
        (targets : List ServiceTarget) (r : Reads fl.F) (s : ServerSource)
        → IsWarned
            (any (misses fl read) targets)
            (r.answered || any (answers fl read) targets)
            s
            (read_targets fl read targets r s).0
    unfolding read_targets finish
    read_targets-IsWarned [] r s = ground arith
    read_targets-IsWarned (t ∷ targets) r s = elim (Bool-cases (is_empty t.selector)) [
      | inl none_set ↦ rw (read_targets, none_set) (read_targets-IsWarned targets r s)
      | inr set ↦ elim (PodReading-cases (read t.namespace t.selector)) [
        | inl e ↦ rw (read_targets, set, e) (warn_api-IsWarned r.answered s)
        | inr (inl e) ↦
            rw (read_targets, set, e)
              (ground (
                arith,
                read_targets-IsWarned targets (record r { attempted = true; answered = true }) s,
              ))
        | inr (inr (inl (text, e))) ↦
            rw (read_targets, set, e)
              (ground (
                arith,
                read_targets-IsWarned targets (record r { attempted = true })
                    (record s { log = s.log ++ read_failed t.slug text ∷ [] }),
                warnings-append s.log (read_failed t.slug text ∷ []),
              ))
        | inr (inr (inr (c, m, e))) ↦
            rw (read_targets, set, e)
              (ground (
                arith,
                read_targets-IsWarned targets
                    (record {
                      out = put t.slug (two_samples fl read c m) r.out;
                      attempted = true;
                      answered = true;
                    })
                    s,
              ))
      ]
    ]

  -- Over any run of its calls, the source of metrics-server adds to its log exactly one warning that there
  -- is no API for each outage that begins in the run. An outage begins with a call of which a target finds
  -- no API, and ends with a later call of which none does and some read is answered, be it with no data; so
  -- an outage that comes back after that is warned of again, and calls without an answered read leave it as
  -- it is. A set latch stands for an outage that lasts when the run begins.
  pub call_all-warnings :
      (calls : List ServerCall) (s : ServerSource)
      → warnings (call_all calls s).log ≡ warnings s.log + outages s.warned calls
  unfolding server_samples
  call_all-warnings [] s = omega arith
  call_all-warnings (c ∷ calls) s =
      let s' = (server_samples fl c.read c.targets s).0 in
      let (latch, more) =
        read_targets-IsWarned c.read c.targets
          (record { out = []; attempted = false; answered = false }) s in
      omega (arith, call_all-warnings calls s', ap (λ b. outages b calls) latch, more)
