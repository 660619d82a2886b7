-- ===== src/Metrics/Sources.antt =====
-- Which source the metrics show as the active one.
use zensu_monitoring_agent.Prelude.{
  ℕ, ◌+◌, ◌≡◌, refl, sym, ap, ◌∙◌, ◌==◌, Bool, true, false, some, List, [], ◌∷◌, Str, eqb, eqb_iff,
  if◌then◌else◌, any, All, All_at, Memᴰ, mem_of_any, inl, inr, Bool-cases,
}
use zensu_monitoring_agent.Prelude.Maps.{Map}
use zensu_monitoring_agent.Prelude.Int.{ℤ, pos, negsuc}
use zensu_monitoring_agent.Metrics.{
  Metrics, resource_sources, source_unknown, new_metrics, canonical,
}
use zensu_monitoring_agent.Metrics.Calls.{
  Call, heartbeat, reported, scrape, mapped, samples, source, withheld, run, source_table,
  sources_after,
}
use zensu_monitoring_agent.Metrics.History.{run-IsHistory}

abbrev is_one : ℤ → ℕ
is_one (pos n) = if n == 1 then 1 else 0
is_one (negsuc n) = 0

abbrev pub active_sources : Map ℤ → ℕ
active_sources [] = 0
active_sources ((k, n) ∷ m) = is_one n + active_sources m

one_of_four :
    (s name : Str)
    → active_sources (source_table s) ≡ 1
    → eqb s name ≡ true
    → active_sources (source_table name) ≡ 1
one_of_four s name h e = ap (λ x. active_sources (source_table x)) (sym ((eqb_iff s name).0 e)) ∙ h

mem_unknown : Memᴰ source_unknown resource_sources
mem_unknown = Memᴰ.tail (Memᴰ.tail (Memᴰ.tail (Memᴰ.head refl)))

abbrev HasOne : Str → Type 0
HasOne s = active_sources (source_table s) ≡ 1

each_of_four : All HasOne resource_sources
unfolding eqb
each_of_four = (refl, (refl, (refl, (refl, tt))))

table_one : (name : Str) → active_sources (source_table (canonical name)) ≡ 1
unfolding canonical
table_one name = elim (Bool-cases (any (λ s. eqb s name) resource_sources)) [
  | inr e ↦ rw (canonical, e) (All_at HasOne resource_sources each_of_four mem_unknown)
  | inl e ↦
      let (s, m, same) = mem_of_any (λ s. eqb s name) resource_sources e in
      rw (canonical, e) (one_of_four s name (All_at HasOne resource_sources each_of_four m) same)
]

abbrev pub names_source : Call → Bool
names_source (source name) = true
names_source (withheld role n) = false
names_source (reported n) = false
names_source (heartbeat success d now) = false
names_source (scrape success d) = false
names_source (mapped n) = false
names_source (samples role n) = false

sources_after-one :
    (calls : List Call) → any names_source calls ≡ true → active_sources (sources_after calls) ≡ 1
sources_after-one [] h = cc
sources_after-one (source name ∷ before) h = table_one name
sources_after-one (withheld role n ∷ before) h = sources_after-one before h
sources_after-one (reported n ∷ before) h = sources_after-one before h
sources_after-one (heartbeat success d now ∷ before) h = sources_after-one before h
sources_after-one (scrape success d ∷ before) h = sources_after-one before h
sources_after-one (mapped n ∷ before) h = sources_after-one before h
sources_after-one (samples role n ∷ before) h = sources_after-one before h

-- After any history that names a source at least once, whatever the names are, exactly one series of the
-- source gauge is 1.
pub run_one_source :
    (calls : List Call)
    → any names_source calls ≡ true
    → (m : Metrics) × (run calls (some new_metrics) ≡ some m)
      × (active_sources m.resource_source ≡ 1)
run_one_source calls h =
    let (m, e, k) = run-IsHistory calls in
    (m, e, ap active_sources k.source_lem ∙ sources_after-one calls h)
