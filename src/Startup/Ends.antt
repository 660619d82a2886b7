-- ===== src/Startup/Ends.antt =====
-- How `run` ends, for every metric source.
use zensu_monitoring_agent.Prelude.{
  ◌≡◌, ◌≢◌, ◌⊎◌, refl, ap, Bool, true, false, Option, none, some, List, ◌∷◌, ◌++◌, Str, map, inl,
  inr, arith,
}
use zensu_monitoring_agent.Prelude.Int.{ℤ, ℤ-cases, pos, leb_ℤ}
use zensu_monitoring_agent.Agent.Source.{MetricSource, Built}
use zensu_monitoring_agent.Agent.Tick.{
  Environment, new_agent, Wake, ticker, context_done, RunResult, ran_once, bad_interval, looping,
  stopped,
}
use zensu_monitoring_agent.Agent.Tick.Loop.{run_stops, run_waits, run-interval}
use zensu_monitoring_agent.Startup.{Env}
use zensu_monitoring_agent.Startup.Start.{
  Platform, StartError, Started, StartResult, started, not_started, start, running, interval_error,
  finished, finish, run,
}
use zensu_monitoring_agent.Startup.Settings.{IsPositive}
use zensu_monitoring_agent.Startup.Checks.{start-IsConfigured}

positive-not_leb : (d : ℤ) → IsPositive d → leb_ℤ d (pos 0) ≡ false
positive-not_leb d h = elim (ℤ-cases d) [
  | inl (n, e) ↦ ground (arith, e, h)
  | inr (n, e) ↦ absurd (ground (arith, e, h))
]

pub StartResult-cases :
    (r : StartResult) → ((s : Started) × (r ≡ started s)) ⊎ ((e : StartError) × (r ≡ not_started e))
StartResult-cases (started s) = inl (s, refl)
StartResult-cases (not_started e) = inr (e, refl)

module _ {F : Type 0} (source_of : Built → MetricSource F)
    (state_of : (b : Built) → (source_of b).State) (p : Platform) (env : Env) where
  interval-not_leb :
      (once : Bool) (client_error : Option Str) (s : Started)
      → start p env once client_error ≡ started s
      → leb_ℤ s.config.interval (pos 0) ≡ false
  interval-not_leb once client_error s h =
      positive-not_leb s.config.interval
        (start-IsConfigured p env once client_error s h).interval_lem

  -- If the agent starts as a deployment, then for every metric source, whatever happens in its ticks and
  -- however many there are, `run` returns nil once the context is done, and not before: it has not returned
  -- when the ticker has fired any number of times.
  pub run_finishes :
      (client_error : Option Str) (s : Started) (first : Environment F)
      (envs : List (Environment F)) (e : Str) (rest : List (Wake F)) (done : Bool)
      → start p env false client_error ≡ started s
      → (run source_of state_of p env false client_error first
            (map ticker envs ++ context_done e ∷ rest)
            done
          ≡ finished)
        × (run source_of state_of p env false client_error first (map ticker envs) done ≡ running)
  unfolding run finish
  run_finishes client_error s first envs e rest done h =
      let good = interval-not_leb false client_error s h in
      let source = source_of s.source in
      let a = new_agent source (state_of s.source) s.metrics in
      let stops = run_stops source s.config s.reporter first envs e rest a good in
      let waits = run_waits source s.config s.reporter first envs a good in
      (rw (run, h) (ap (λ x. finish done x.1) stops), rw (run, h) (ap (λ x. finish done x.1) waits))

  finish-interval :
      (done : Bool) (r : RunResult) → r ≢ bad_interval → finish done r ≢ interval_error
  unfolding finish
  finish-interval true (ran_once none) h e = ground (arith, e)
  finish-interval false (ran_once none) h e = ground (arith, e)
  finish-interval true (ran_once (some x)) h e = ground (arith, e)
  finish-interval false (ran_once (some x)) h e = ground (arith, e)
  finish-interval done bad_interval h e = h refl
  finish-interval done looping h e = ground (arith, e)
  finish-interval done (stopped x) h e = ground (arith, e)

  -- In no environment, in neither mode, with no source and however the ticks go does `run` return the error
  -- of an interval that is not positive: what the environment says of the interval is read so that `Run`
  -- never refuses it.
  pub run-interval_error :
      (once : Bool) (client_error : Option Str) (first : Environment F) (wakes : List (Wake F))
      (done : Bool)
      → run source_of state_of p env once client_error first wakes done ≢ interval_error
  unfolding run
  run-interval_error once client_error first wakes done =
      elim (StartResult-cases (start p env once client_error)) [
        | inl (s, h) ↦
            rw (run, h)
              (finish-interval done _ (
                run-interval (source_of s.source) s.config s.reporter once first wakes _
                  (interval-not_leb once client_error s h)))
        | inr (x, h) ↦ rw (run, h) (λ e. ground (arith, e))
      ]
