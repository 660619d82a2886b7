-- ===== src/Agent/Exposition/Service.antt =====
-- The samples of one service after `reduce`, on every branch: all of its rows counted, or none.
use zensu_monitoring_agent.Prelude.{
  ◌≡◌, refl, sym, ap, ◌∙◌, Bool, true, false, not, ◌&&◌, ◌||◌, List, [], ◌∷◌, ◌++◌, append-nil, Str,
  eqb, eqb_iff, if◌then◌else◌, any, inl, inr, Bool-cases, All, arith,
}
use zensu_monitoring_agent.Prelude.Maps.{Map, get, keys, get-put}
use zensu_monitoring_agent.Prelude.Sort.{Distinct}
use zensu_monitoring_agent.Prelude.Float.{Float64, Clock, is_finite}
use zensu_monitoring_agent.Prelude.Int.{pos}
use zensu_monitoring_agent.Scrape.Resolve.{Selection, rateable}
use zensu_monitoring_agent.Scrape.Labels.{is_set}
use zensu_monitoring_agent.Agent.Index.{SlugIndex}
use zensu_monitoring_agent.Agent.Exposition.{
  MetricSample, metric_key_for, Event, ExpositionSource, Sums, or_nil, append_sample, total_of,
  no_sums, sum_rows, emit_sample, emit_samples,
}
use zensu_monitoring_agent.Agent.Exposition.Totals.{
  any-keys, has_reading, lacks_reading, sum_of, sum_rows-IsSumOf, contributed-Distinct,
}
use zensu_monitoring_agent.Agent.Exposition.Tick.{is_counter, reduce}

-- The samples of one service.
abbrev pub samples_of : {F : Type 0} → Str → Map (List (MetricSample F)) → List (MetricSample F)
samples_of g out = or_nil (get g out)

samples_of-append :
    {F : Type 0} (k g : Str) (m : MetricSample F) (out : Map (List (MetricSample F)))
    → samples_of g (append_sample k m out) ≡ samples_of g out ++ (if eqb k g then m ∷ [] else [])
samples_of-append k g m out = elim (Bool-cases (eqb k g)) [
  | inl e ↦ rw (get-put k g (or_nil (get k out) ++ m ∷ []) out, e) (rw ((eqb_iff k g).0 e) refl)
  | inr e ↦
      rw (get-put k g (or_nil (get k out) ++ m ∷ []) out, e) (sym (append-nil (samples_of g out)))
]

absent-any :
    (k g : Str) (ks : List Str)
    → eqb k g ≡ true
    → All (λ y. eqb k y ≡ false) ks
    → any (λ x. eqb x g) ks ≡ false
absent-any k g [] e h = refl
absent-any k g (x ∷ ks) e h =
    ground (arith, absent-any k g ks e h.1, eqb_iff k g, eqb_iff x g, eqb_iff k x, h.0)

module _ (fl : Float64) where
  open fl use {F, mul, of_int}

  -- The sample of a value, if it is finite.
  abbrev pub finite_sample : Selection F → F → List (MetricSample F)
  finite_sample sel value =
      if is_finite fl value
      then record { key = metric_key_for sel.role; value = value } ∷ []
      else []

  abbrev sample_of : Selection F → Sums F → Str → List (MetricSample F)
  sample_of sel sums g =
      if is_set g sums.incomplete
      then []
      else finite_sample sel (mul (total_of fl g sums.totals) sel.candidate.scale)

  abbrev when : Bool → List (MetricSample F) → List (MetricSample F)
  when b ms = if b then ms else []

  append-when-nil : (b : Bool) (ms : List (MetricSample F)) → ms ≡ ms ++ when b []
  append-when-nil true ms = sym (append-nil ms)
  append-when-nil false ms = sym (append-nil ms)

  when-both :
      (a b : Bool) (ms : List (MetricSample F))
      → when a (if b then [] else ms) ≡ when (a && not b) ms
  when-both true true ms = refl
  when-both true false ms = refl
  when-both false b ms = refl

  append-when :
      (a b : Bool) (ms ns : List (MetricSample F))
      → (a ≡ true → b ≡ false)
      → (ms ++ when a ns) ++ when b ns ≡ ms ++ when (a || b) ns
  append-when true b ms ns h = rw (h refl) (append-nil (ms ++ ns))
  append-when false b ms ns h = ap (λ x. x ++ when b ns) (append-nil ms)

  module _ (sel : Selection F) (sums : Sums F) (g : Str) where
    emit_own :
        (slug : Str) (out : Map (List (MetricSample F))) (log : List Event)
        → samples_of g (emit_sample fl sel sums slug (out, log)).0
          ≡ samples_of g out ++ when (eqb slug g) (sample_of sel sums slug)
    unfolding emit_sample
    emit_own slug out log = elim (Bool-cases (is_set slug sums.incomplete)) [
      | inl i ↦ rw (emit_sample, i) (append-when-nil (eqb slug g) (samples_of g out))
      | inr i ↦
          elim (Bool-cases
            (is_finite fl (mul (total_of fl slug sums.totals) sel.candidate.scale))) [
              | inl f ↦ rw (emit_sample, i, f) (samples_of-append slug g _ out)
              | inr f ↦ rw (emit_sample, i, f) (append-when-nil (eqb slug g) (samples_of g out))
            ]
    ]

    same-when :
        (slug : Str)
        → when (eqb slug g) (sample_of sel sums slug) ≡ when (eqb slug g) (sample_of sel sums g)
    same-when slug = elim (Bool-cases (eqb slug g)) [
      | inl e ↦ ap (λ x. when (eqb slug g) (sample_of sel sums x)) ((eqb_iff slug g).0 e)
      | inr e ↦ rw e refl
    ]

    emit_samples_lem :
        (slugs : List Str) (acc : Map (List (MetricSample F)) × List Event)
        → Distinct slugs
        → samples_of g (emit_samples fl sel sums slugs acc).0
          ≡ samples_of g acc.0 ++ when (any (λ x. eqb x g) slugs) (sample_of sel sums g)
    unfolding emit_samples
    emit_samples_lem [] acc d = sym (append-nil (samples_of g acc.0))
    emit_samples_lem (slug ∷ slugs) (out, log) d =
        let mine = sample_of sel sums g in
        let step = emit_own slug out log ∙ ap (λ x. samples_of g out ++ x) (same-when slug) in
        emit_samples_lem slugs (emit_sample fl sel sums slug (out, log)) d.1
        ∙ ap (λ x. x ++ when (any (λ x. eqb x g) slugs) mine) step
        ∙ append-when (eqb slug g) (any (λ x. eqb x g) slugs) (samples_of g out) mine
            (λ e. absent-any slug g slugs e d.0)

module _ {fl : Float64} (ck : Clock fl) where
  open fl use {F, mul, of_int}

  -- Nothing if no row of the service is there, or if one of its rows has no value; else the sum of all of
  -- its rows.
  abbrev summed : SlugIndex → Str → Selection F → Map F → Str → List (MetricSample F)
  summed index slug_label sel rated g =
      let rows = sel.series in
      if has_reading fl index slug_label sel rated g rows
        && not (lacks_reading fl index slug_label sel rated g rows)
      then finite_sample fl sel
          (mul (sum_of fl index slug_label sel rated g rows (of_int (pos 0))) sel.candidate.scale)
      else []

  -- What one selection gives a service: nothing for a counter that cannot be rated.
  abbrev pub service_samples : SlugIndex → Str → Selection F → Map F → Str → List (MetricSample F)
  service_samples index slug_label sel rated g =
      if is_counter sel.kind && not (rateable sel) then [] else summed index slug_label sel rated g

  summed-service :
      (index : SlugIndex) (slug_label : Str) (sel : Selection F) (rated : Map F) (g : Str)
      → let sums = sum_rows fl index slug_label sel rated sel.series (no_sums fl) in
        when fl (any (λ x. eqb x g) (keys sums.contributed)) (sample_of fl sel sums g)
        ≡ summed index slug_label sel rated g
  unfolding get is_set total_of
  summed-service index slug_label sel rated g =
      let sums = sum_rows fl index slug_label sel rated sel.series (no_sums fl) in
      let (total, present, missing) =
        sum_rows-IsSumOf fl index slug_label sel rated g sel.series (no_sums fl) in
      rw (any-keys g sums.contributed, present, missing, total)
        (when-both fl (has_reading fl index slug_label sel rated g sel.series)
          (lacks_reading fl index slug_label sel rated g sel.series)
          (finite_sample fl sel (
            mul (sum_of fl index slug_label sel rated g sel.series (of_int (pos 0)))
              sel.candidate.scale)))

  -- For each service, `reduce` appends to its samples exactly what the selection gives it, whatever its
  -- state is: nothing for a counter that cannot be rated, nothing for a service none of whose rows is
  -- there or one of whose rows has no value, nothing for a sum that is not finite, else one sample, the
  -- sum of all rows of the service times the scale.
  pub reduce-service :
      (index : SlugIndex) (sel : Selection F) (rated : Map F) (first : Bool)
      (s : ExpositionSource ck) (out : Map (List (MetricSample F))) (g : Str)
      → samples_of g (reduce ck sel rated index first (s, out)).1
        ≡ samples_of g out ++ service_samples index s.slug_label sel rated g
  unfolding reduce
  reduce-service index sel rated first s out g =
      let sums = sum_rows fl index s.slug_label sel rated sel.series (no_sums fl) in
      elim (Bool-cases (is_counter sel.kind && not (rateable sel))) [
        | inl u ↦ rw (reduce, u) (sym (append-nil (samples_of g out)))
        | inr u ↦
            rw (reduce, u)
              (emit_samples_lem fl sel sums g (keys sums.contributed) (out, _)
                  (contributed-Distinct fl index s.slug_label sel rated sel.series (no_sums fl) tt)
                ∙ ap (λ x. samples_of g out ++ x) (summed-service index s.slug_label sel rated g))
      ]
