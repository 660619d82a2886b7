-- ===== src/Agent/Tick/Keeps.antt =====
-- What every run of an agent keeps, if its two steps do: collecting and reporting.
use zensu_monitoring_agent.Prelude.{
  Bool, true, false, not, ◌&&◌, Option, none, some, is_some, List, [], ◌∷◌, inl, inr, Bool-cases,
}
use zensu_monitoring_agent.Prelude.Int.{pos, leb_ℤ}
use zensu_monitoring_agent.Agent.Workload.{ServiceHeartbeat}
use zensu_monitoring_agent.Agent.Source.{MetricSource}
use zensu_monitoring_agent.Agent.Collect.{Config}
use zensu_monitoring_agent.Agent.Reporter.{Reporter}
use zensu_monitoring_agent.Agent.Tick.{
  TickEvent, Environment, Agent, Wake, ticker, context_done, collect, report, after_collect, tick,
  tick_once, run_loop, run,
}

module _ {F : Type 0} (source : MetricSource F) (cfg : Config) (reporter : Reporter)
    (P : Agent source → Type 0) where
  after_collect-keeps :
      ((env : Environment F) (services : List (ServiceHeartbeat F)) (a : Agent source)
        → P a
        → P (report source cfg reporter env services a).0)
      → (env : Environment F) (x : Agent source × Option (List (ServiceHeartbeat F))) → P x.0
      → P (after_collect source cfg reporter env x).0
  unfolding after_collect
  after_collect-keeps reports env (a, none) h = h
  after_collect-keeps reports env (a, some services) h = reports env services a h

  -- A tick keeps what collecting and reporting keep.
  pub tick-keeps :
      ((env : Environment F) (a : Agent source) → P a → P (collect source cfg env a).0)
      → ((env : Environment F) (services : List (ServiceHeartbeat F)) (a : Agent source)
          → P a
          → P (report source cfg reporter env services a).0)
      → (env : Environment F) (a : Agent source) → P a
      → P (tick source cfg reporter env a).0
  unfolding tick
  tick-keeps collects reports env a h =
      after_collect-keeps reports env (collect source cfg env a) (collects env a h)

  module _
      (ticks : (env : Environment F) (a : Agent source)
        → P a
        → P (tick source cfg reporter env a).0)
      (logs : (a : Agent source) (log : List TickEvent) → P a → P (record a { log = log })) where
    tick_once-keeps :
        (env : Environment F) (a : Agent source) → P a → P (tick_once source cfg reporter env a)
    unfolding tick_once
    tick_once-keeps env a h =
        let failed = is_some (tick source cfg reporter env a).1 && not env.done_at_end in
        elim (Bool-cases failed) [
          | inl e ↦ rw (tick_once, e) (logs _ _ (ticks env a h))
          | inr e ↦ rw (tick_once, e) (ticks env a h)
        ]

    run_loop-keeps :
        (wakes : List (Wake F)) (a : Agent source)
        → P a
        → P (run_loop source cfg reporter wakes a).0
    unfolding run_loop
    run_loop-keeps [] a h = h
    run_loop-keeps (context_done e ∷ wakes) a h = h
    run_loop-keeps (ticker env ∷ wakes) a h =
        run_loop-keeps wakes (tick_once source cfg reporter env a) (tick_once-keeps env a h)

    -- A run keeps what a tick and a line of the log keep.
    pub run-keeps :
        (once : Bool) (first : Environment F) (wakes : List (Wake F)) (a : Agent source)
        → P a
        → P (run source cfg reporter once first wakes a).0
    unfolding run
    run-keeps true first wakes a h = ticks first a h
    run-keeps false first wakes a h = elim (Bool-cases (leb_ℤ cfg.interval (pos 0))) [
      | inl bad ↦ rw (run, bad) h
      | inr good ↦ rw (run, good) (run_loop-keeps wakes _ (tick_once-keeps first a h))
    ]
