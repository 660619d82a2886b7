-- ===== src/Metrics/History.antt =====
-- What the metrics show after any history of calls: the counters count and the gauges hold the last value.
use zensu_monitoring_agent.Prelude.{
  ℕ, suc, ◌≡◌, refl, true, false, some, List, [], ◌∷◌, Str, codes, eqb, arith,
}
use zensu_monitoring_agent.Prelude.Maps.{get, put, get-put}
use zensu_monitoring_agent.Prelude.Int.{pos}
use zensu_monitoring_agent.Metrics.{
  Metrics, resource_sources, success_label, error_label, with_label, with_labels, new_metrics, inc,
  record_heartbeat, set_services_reported, record_scrape, set_resource_services_mapped,
  set_resource_samples, canonical, set_sources, set_resource_source, set_roles_withheld,
}
use zensu_monitoring_agent.Metrics.Calls.{
  Call, heartbeat, reported, scrape, mapped, samples, source, withheld, apply, run, is_heartbeat,
  is_scrape, count, latest, observed, times_post, times_scrape, stamps_success, sets_mapped,
  sets_samples, sets_reported, sets_withheld, source_table, sources_after,
}

-- What the metrics show of a history.
pub record IsHistory (calls : List Call) (m : Metrics) : Type 0 where
  pub heartbeats_lem :
      m.heartbeats
      ≡ (success_label, count (is_heartbeat true) calls)
        ∷ (error_label, count (is_heartbeat false) calls)
        ∷ []
  pub scrapes_lem :
      m.scrapes
      ≡ (success_label, count (is_scrape true) calls)
        ∷ (error_label, count (is_scrape false) calls)
        ∷ []
  pub reported_lem : m.services_reported ≡ latest (pos 0) sets_reported calls
  pub posts_lem : m.post_durations ≡ observed times_post calls
  pub fetches_lem : m.scrape_durations ≡ observed times_scrape calls
  pub success_lem : m.last_success ≡ latest 0 stamps_success calls
  pub mapped_lem : m.resource_services_mapped ≡ latest (pos 0) sets_mapped calls
  pub cpu_samples_lem :
      get (codes "cpu") m.resource_samples
      ≡ some (latest (pos 0) (sets_samples (codes "cpu")) calls)
  pub memory_samples_lem :
      get (codes "memory") m.resource_samples
      ≡ some (latest (pos 0) (sets_samples (codes "memory")) calls)
  pub cpu_lem :
      get (codes "cpu") m.roles_withheld ≡ some (latest (pos 0) (sets_withheld (codes "cpu")) calls)
  pub memory_lem :
      get (codes "memory") m.roles_withheld
      ≡ some (latest (pos 0) (sets_withheld (codes "memory")) calls)
  pub source_lem : m.resource_source ≡ sources_after calls

new-IsHistory : IsHistory [] new_metrics
unfolding new_metrics with_labels with_label get put eqb
new-IsHistory = record {
  heartbeats_lem = refl;
  scrapes_lem = refl;
  reported_lem = refl;
  posts_lem = refl;
  fetches_lem = refl;
  success_lem = refl;
  mapped_lem = refl;
  cpu_samples_lem = refl;
  memory_samples_lem = refl;
  cpu_lem = refl;
  memory_lem = refl;
  source_lem = refl;
}

-- Incrementing one of two counters.
inc_success :
    (a b : ℕ)
    → inc success_label ((success_label, a) ∷ (error_label, b) ∷ [])
      ≡ (success_label, suc a) ∷ (error_label, b) ∷ []
unfolding inc get put eqb
inc_success a b = ground arith

inc_error :
    (a b : ℕ)
    → inc error_label ((success_label, a) ∷ (error_label, b) ∷ [])
      ≡ (success_label, a) ∷ (error_label, suc b) ∷ []
unfolding inc get put eqb
inc_error a b = ground arith

set_sources_lem :
    (name active : Str)
    → set_sources active resource_sources (source_table name) ≡ source_table active
unfolding set_sources put eqb
set_sources_lem name active = refl

sources_after-table : (calls : List Call) → (name : Str) × (sources_after calls ≡ source_table name)
sources_after-table [] = ([], refl)
sources_after-table (source name ∷ before) = (canonical name, refl)
sources_after-table (withheld role n ∷ before) = sources_after-table before
sources_after-table (reported n ∷ before) = sources_after-table before
sources_after-table (heartbeat success d now ∷ before) = sources_after-table before
sources_after-table (scrape success d ∷ before) = sources_after-table before
sources_after-table (mapped n ∷ before) = sources_after-table before
sources_after-table (samples role n ∷ before) = sources_after-table before

module _ (calls : List Call) (m : Metrics) (h : IsHistory calls m) where
  abbrev posted : ℕ
  posted = count (is_heartbeat true) calls

  abbrev unposted : ℕ
  unposted = count (is_heartbeat false) calls

  abbrev scraped : ℕ
  scraped = count (is_scrape true) calls

  abbrev unscraped : ℕ
  unscraped = count (is_scrape false) calls

  step-IsHistory :
      (c : Call) → (m' : Metrics) × (apply c (some m) ≡ some m') × IsHistory (c ∷ calls) m'
  unfolding apply record_heartbeat set_services_reported record_scrape set_resource_services_mapped
      set_resource_samples set_resource_source set_roles_withheld
  step-IsHistory (heartbeat true d now) = (_, refl, ground (arith, inc_success posted unposted))
  step-IsHistory (heartbeat false d now) = (_, refl, ground (arith, inc_error posted unposted))
  step-IsHistory (reported n) = (_, refl, ground arith)
  step-IsHistory (scrape true d) = (_, refl, ground (arith, inc_success scraped unscraped))
  step-IsHistory (scrape false d) = (_, refl, ground (arith, inc_error scraped unscraped))
  step-IsHistory (mapped n) = (_, refl, ground arith)
  step-IsHistory (samples role n) = (
    _,
    refl,
    ground (
      arith,
      get-put role (codes "cpu") n m.resource_samples,
      get-put role (codes "memory") n m.resource_samples,
    ),
  )
  step-IsHistory (source name) =
      let (before, e) = sources_after-table calls in
      (_, refl, ground (arith, set_sources_lem before (canonical name)))
  step-IsHistory (withheld role n) = (
    _,
    refl,
    ground (
      arith,
      get-put role (codes "cpu") n m.roles_withheld,
      get-put role (codes "memory") n m.roles_withheld,
    ),
  )

-- After any history of calls on new metrics: the heartbeat and scrape counters hold how many of each result
-- were recorded and have no other series; the two histograms observed the durations of all posts and of all
-- scrapes, failed ones included, in their order; the time of the last success is that of the last heartbeat
-- that succeeded; the numbers of services reported and mapped, and of samples and of services withheld of
-- each role, are the last ones set; and the source gauge has exactly its four series, with 1 at the last
-- source named, or at `unknown` for another name, and 0 at the others.
pub run-IsHistory :
    (calls : List Call)
    → (m : Metrics) × (run calls (some new_metrics) ≡ some m) × IsHistory calls m
unfolding run
run-IsHistory [] = (new_metrics, refl, new-IsHistory)
run-IsHistory (c ∷ before) =
    let (m, e, h) = run-IsHistory before in
    let (m', e', h') = step-IsHistory before m h c in (m', rw e e', h')
