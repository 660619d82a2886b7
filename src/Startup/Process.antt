-- ===== src/Startup/Process.antt =====
-- cmd/zensu-monitoring-agent/main.go: `main`, with the constructor of the cluster's client that it passes to
-- `run`. The flag `-once` as it was parsed, and the constructors of client-go, are arguments.
use zensu_monitoring_agent.Prelude.{
  ℕ, ◌≡◌, ◌⊎◌, refl, subst, Bool, true, Option, none, some, List, Str, inl, inr, Bool-cases,
  Option-cases, arith,
}
use zensu_monitoring_agent.Agent.Source.{MetricSource, Built}
use zensu_monitoring_agent.Agent.Cluster.{
  ClientLibrary, lister_error_text, NewLister, lister, no_lister, new_in_cluster_lister,
}
use zensu_monitoring_agent.Agent.Tick.{Environment, Agent, new_agent, Wake, tick}
use zensu_monitoring_agent.Agent.Tick.{run as run_agent}
use zensu_monitoring_agent.Agent.Tick.Outcome.{Succeeds, tick_iff}
use zensu_monitoring_agent.Startup.{Env}
use zensu_monitoring_agent.Startup.Start.{
  Platform, Started, started, start, RunEnd, refused, running, tick_error, interval_error, finished,
  finish, run,
}
use zensu_monitoring_agent.Startup.Ends.{StartResult-cases}

-- The error of the constructor; `none` is a nil error.
unfoldable pub client_error : NewLister → Option Str
client_error (lister l) = none
client_error (no_lister e) = some (lister_error_text e)

-- The status with which the process exits; `none` while it runs.
unfoldable pub exit_status : RunEnd → Option ℕ
exit_status (refused e) = some 1
exit_status running = none
exit_status (tick_error e) = some 1
exit_status interval_error = some 1
exit_status finished = some 0

module _ {F Rest : Type 0} (source_of : Built → MetricSource F)
    (state_of : (b : Built) → (source_of b).State) (p : Platform) (lib : ClientLibrary Rest) where
  unfoldable pub main : Env → Bool → Environment F → List (Wake F) → Bool → Option ℕ
  main env once first wakes done = exit_status (
      run source_of state_of p env once (client_error (new_in_cluster_lister lib)) first wakes done)

  -- The agent with which `run` ticks.
  abbrev pub agent_of : (s : Started) → Agent (source_of s.source)
  agent_of s = new_agent (source_of s.source) (state_of s.source) s.metrics

  -- The context is done at the end, or the tick lists all namespaces, and has nothing to post or delivers it.
  abbrev GoesWell : Environment F → Bool → Started → Type 0
  GoesWell first done s =
      (done ≡ true) ⊎ Succeeds (source_of s.source) s.config s.reporter first (agent_of s)

  abbrev pub IsGoodShot : Env → Environment F → Bool → Type 0
  IsGoodShot env first done =
      (s : Started) × (start p env true (client_error (new_in_cluster_lister lib)) ≡ started s)
      × GoesWell first done s

  -- In one shot the process always exits. It exits with 0 exactly if it starts, and then the context is done
  -- when `Run` returns, or its one tick lists every namespace and then has nothing to post or delivers its
  -- batch; else it exits with 1. What would wake the loop makes no difference.
  pub main_once :
      (env : Env) (first : Environment F) (wakes : List (Wake F)) (done : Bool)
      → (IsGoodShot env first done × (main env true first wakes done ≡ some 0))
        ⊎ ((¬ IsGoodShot env first done) × (main env true first wakes done ≡ some 1))
  unfolding main exit_status run finish run_agent
  main_once env first wakes done =
      elim (StartResult-cases (start p env true (client_error (new_in_cluster_lister lib)))) [
        | inr (e, h) ↦ inr ((λ (s, k, ok). absurd (ground (arith, h, k))), rw (main, run, h) refl)
        | inl (s, h) ↦
            let source = source_of s.source in
            let good = tick_iff source s.config s.reporter first (agent_of s) in
            elim (Bool-cases done) [
              | inl ended ↦
                  elim (Option-cases (tick source s.config s.reporter first (agent_of s)).1) [
                    | inl ok ↦ inl ((s, h, inl ended), rw (main, run, h, run_agent, ok) refl)
                    | inr (e, ko) ↦
                        inl ((s, h, inl ended), rw (main, run, h, run_agent, ko, ended) refl)
                  ]
              | inr going ↦
                  elim (Option-cases (tick source s.config s.reporter first (agent_of s)).1) [
                    | inl ok ↦ inl ((s, h, inr (good.0 ok)), rw (main, run, h, run_agent, ok) refl)
                    | inr (e, ko) ↦ inr (
                      (λ (t, k, well).
                          let same : t ≡ s = cc (h, k) in
                          elim (subst (GoesWell first done) same well) [
                            | inl ended ↦ absurd (ground (arith, going, ended))
                            | inr ok ↦ absurd (ground (arith, ko, good.1 ok))
                          ]),
                      rw (main, run, h, run_agent, ko, going) refl,
                    )
                  ]
            ]
      ]
