-- ===== src/Agent/Exposition/Withheld.antt =====
-- The warning on withheld roles: once for a set of services, again when the set changes.
use zensu_monitoring_agent.Prelude.{
  ◌≡◌, refl, Bool, true, false, [], ◌∷◌, ◌++◌, append_assoc, eqb_refl, length, ◌==◌, inl, inr,
  Bool-cases,
}
use zensu_monitoring_agent.Prelude.Maps.{Map}
use zensu_monitoring_agent.Prelude.Float.{Float64, Clock}
use zensu_monitoring_agent.Scrape.Resolve.{Role, cpu, memory}
use zensu_monitoring_agent.Scrape.Labels.{sorted_keys}
use zensu_monitoring_agent.Agent.Exposition.{
  Event, set_roles_withheld, role_withheld, ExpositionSource, join, role_state, set_role, emit,
}
use zensu_monitoring_agent.Agent.Exposition.Tick.{same_report, report_withheld}

module _ {fl : Float64} (ck : Clock fl) (incomplete : Map Bool) where
  abbrev gauge_of : Role → Event
  gauge_of role = set_roles_withheld role (length (sorted_keys incomplete))

  module _ (s : ExpositionSource ck) where
    report_empty :
        (role : Role) (first : Bool)
        → (length (sorted_keys incomplete) == 0) ≡ true
        → (report_withheld ck role incomplete first s).log ≡ s.log ++ gauge_of role ∷ []
    unfolding report_withheld emit set_role role_state
    report_empty cpu first e = rw (report_withheld, e) refl
    report_empty memory first e = rw (report_withheld, e) refl

    report_same :
        (role : Role) (first : Bool)
        → (length (sorted_keys incomplete) == 0) ≡ false
        → same_report (role_state role s).withheld (join (sorted_keys incomplete)) ≡ true
        → (report_withheld ck role incomplete first s).log ≡ s.log ++ gauge_of role ∷ []
    unfolding report_withheld emit set_role role_state
    report_same cpu true e same = rw (report_withheld, e) refl
    report_same memory true e same = rw (report_withheld, e) refl
    report_same cpu false e same = rw (report_withheld, e, same) refl
    report_same memory false e same = rw (report_withheld, e, same) refl

    report_latched :
        (role : Role)
        → (length (sorted_keys incomplete) == 0) ≡ false
        → same_report
            (role_state role (report_withheld ck role incomplete false s)).withheld
            (join (sorted_keys incomplete))
          ≡ true
    unfolding report_withheld emit set_role role_state
    report_latched cpu e =
        elim (Bool-cases (same_report s.cpu_state.withheld (join (sorted_keys incomplete)))) [
          | inl same ↦ rw (report_withheld, e, same) same
          | inr other ↦ rw (report_withheld, e, other) (eqb_refl (join (sorted_keys incomplete)))
        ]
    report_latched memory e =
        elim (Bool-cases (same_report s.memory_state.withheld (join (sorted_keys incomplete)))) [
          | inl same ↦ rw (report_withheld, e, same) same
          | inr other ↦ rw (report_withheld, e, other) (eqb_refl (join (sorted_keys incomplete)))
        ]

    -- A tick that withholds a role for some services, is not the first observation, and finds another set
    -- reported last, or none, sets the gauge to their number and warns with all of their names.
    pub report_withheld_new :
        (role : Role)
        → (length (sorted_keys incomplete) == 0) ≡ false
        → same_report (role_state role s).withheld (join (sorted_keys incomplete)) ≡ false
        → (report_withheld ck role incomplete false s).log
          ≡ s.log ++ gauge_of role ∷ role_withheld role (sorted_keys incomplete) ∷ []
    unfolding report_withheld emit set_role role_state
    report_withheld_new cpu e other = rw (report_withheld, e, other) (append_assoc s.log _ _)
    report_withheld_new memory e other = rw (report_withheld, e, other) (append_assoc s.log _ _)

  -- A tick that withholds a role for the same services as the tick before sets the gauge to their number
  -- again, and does not warn a second time.
  pub report_withheld_again :
      (s : ExpositionSource ck) (role : Role) (first : Bool)
      → let after = report_withheld ck role incomplete false s in
        (report_withheld ck role incomplete first after).log
        ≡ after.log ++ set_roles_withheld role (length (sorted_keys incomplete)) ∷ []
  report_withheld_again s role first =
      let after = report_withheld ck role incomplete false s in
      elim (Bool-cases (length (sorted_keys incomplete) == 0)) [
        | inl e ↦ report_empty after role first e
        | inr e ↦ report_same after role first e (report_latched s role e)
      ]
