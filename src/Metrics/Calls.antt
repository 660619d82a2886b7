-- ===== src/Metrics/Calls.antt =====
-- Histories of calls of the metrics, and what they say of the series.
use zensu_monitoring_agent.Prelude.{
  ℕ, suc, Bool, true, false, not, Option, none, some, List, [], ◌∷◌, ◌++◌, Str, eqb, if◌then◌else◌,
}
use zensu_monitoring_agent.Prelude.Maps.{Map}
use zensu_monitoring_agent.Prelude.Int.{ℤ, pos}
use zensu_monitoring_agent.Metrics.{
  Metrics, source_metrics_server, source_exposition, source_none, source_unknown, record_heartbeat,
  set_services_reported, record_scrape, set_resource_services_mapped, set_resource_samples,
  canonical, set_resource_source, set_roles_withheld,
}

-- A call of one of the methods.
pub data Call : Type 0 where
  heartbeat : Bool → ℤ → ℕ → Call
  reported : ℤ → Call
  scrape : Bool → ℤ → Call
  mapped : ℤ → Call
  samples : Str → ℤ → Call
  source : Str → Call
  withheld : Str → ℤ → Call

unfoldable pub apply : Call → Option Metrics → Option Metrics
apply (heartbeat success d now) m = record_heartbeat success d now m
apply (reported n) m = set_services_reported n m
apply (scrape success d) m = record_scrape success d m
apply (mapped n) m = set_resource_services_mapped n m
apply (samples role n) m = set_resource_samples role n m
apply (source name) m = set_resource_source name m
apply (withheld role n) m = set_roles_withheld role n m

-- A history, the last call first.
unfoldable pub run : List Call → Option Metrics → Option Metrics
run [] m = m
run (c ∷ before) m = apply c (run before m)

abbrev pub is_heartbeat : Bool → Call → Bool
is_heartbeat b (heartbeat true d now) = b
is_heartbeat b (heartbeat false d now) = not b
is_heartbeat b (reported n) = false
is_heartbeat b (scrape success d) = false
is_heartbeat b (mapped n) = false
is_heartbeat b (samples role n) = false
is_heartbeat b (source name) = false
is_heartbeat b (withheld role n) = false

abbrev pub is_scrape : Bool → Call → Bool
is_scrape b (scrape true d) = b
is_scrape b (scrape false d) = not b
is_scrape b (heartbeat success d now) = false
is_scrape b (reported n) = false
is_scrape b (mapped n) = false
is_scrape b (samples role n) = false
is_scrape b (source name) = false
is_scrape b (withheld role n) = false

abbrev pub count : (Call → Bool) → List Call → ℕ
count f [] = 0
count f (c ∷ before) = if f c then suc (count f before) else count f before

-- The value of the last call that sets a gauge, or the value from the start.
abbrev pub latest : {A : Type 0} → A → (Call → Option A) → List Call → A
latest start f [] = start
latest start f (c ∷ before) = elim (f c) [ some n ↦ n | none ↦ latest start f before ]

-- The values that a histogram observed, in the order of the calls.
abbrev pub observed : (Call → Option ℤ) → List Call → List ℤ
observed f [] = []
observed f (c ∷ before) = elim (f c) [
  | some d ↦ observed f before ++ d ∷ []
  | none ↦ observed f before
]

abbrev pub times_post : Call → Option ℤ
times_post (heartbeat success d now) = some d
times_post (reported n) = none
times_post (scrape success d) = none
times_post (mapped n) = none
times_post (samples role n) = none
times_post (source name) = none
times_post (withheld role n) = none

abbrev pub times_scrape : Call → Option ℤ
times_scrape (scrape success d) = some d
times_scrape (heartbeat success d now) = none
times_scrape (reported n) = none
times_scrape (mapped n) = none
times_scrape (samples role n) = none
times_scrape (source name) = none
times_scrape (withheld role n) = none

abbrev pub stamps_success : Call → Option ℕ
stamps_success (heartbeat true d now) = some now
stamps_success (heartbeat false d now) = none
stamps_success (scrape success d) = none
stamps_success (reported n) = none
stamps_success (mapped n) = none
stamps_success (samples role n) = none
stamps_success (source name) = none
stamps_success (withheld role n) = none

abbrev pub sets_mapped : Call → Option ℤ
sets_mapped (mapped n) = some n
sets_mapped (heartbeat success d now) = none
sets_mapped (scrape success d) = none
sets_mapped (reported n) = none
sets_mapped (samples role n) = none
sets_mapped (source name) = none
sets_mapped (withheld role n) = none

abbrev pub sets_samples : Str → Call → Option ℤ
sets_samples k (samples role n) = if eqb role k then some n else none
sets_samples k (reported n) = none
sets_samples k (heartbeat success d now) = none
sets_samples k (scrape success d) = none
sets_samples k (mapped n) = none
sets_samples k (withheld role n) = none
sets_samples k (source name) = none

abbrev pub sets_reported : Call → Option ℤ
sets_reported (reported n) = some n
sets_reported (heartbeat success d now) = none
sets_reported (scrape success d) = none
sets_reported (mapped n) = none
sets_reported (samples role n) = none
sets_reported (source name) = none
sets_reported (withheld role n) = none

abbrev pub sets_withheld : Str → Call → Option ℤ
sets_withheld k (withheld role n) = if eqb role k then some n else none
sets_withheld k (reported n) = none
sets_withheld k (heartbeat success d now) = none
sets_withheld k (scrape success d) = none
sets_withheld k (mapped n) = none
sets_withheld k (samples role n) = none
sets_withheld k (source name) = none

-- The series of the resource source, with 1 at the active one and 0 at the others.
abbrev pub source_table : Str → Map ℤ
source_table active =
    (source_metrics_server, if eqb source_metrics_server active then pos 1 else pos 0)
    ∷ (source_exposition, if eqb source_exposition active then pos 1 else pos 0)
    ∷ (source_none, if eqb source_none active then pos 1 else pos 0)
    ∷ (source_unknown, if eqb source_unknown active then pos 1 else pos 0)
    ∷ []

-- None is active before the first call, and from then on the one that the last call named.
abbrev pub sources_after : List Call → Map ℤ
sources_after [] = source_table []
sources_after (source name ∷ before) = source_table (canonical name)
sources_after (withheld role n ∷ before) = sources_after before
sources_after (reported n ∷ before) = sources_after before
sources_after (heartbeat success d now ∷ before) = sources_after before
sources_after (scrape success d ∷ before) = sources_after before
sources_after (mapped n ∷ before) = sources_after before
sources_after (samples role n ∷ before) = sources_after before
