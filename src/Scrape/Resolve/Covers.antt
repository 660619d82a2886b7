-- ===== src/Scrape/Resolve/Covers.antt =====
-- Which rows the two sets of `summable` take off: those that a container row of their pod covers.
use zensu_monitoring_agent.Prelude.{
  ◌≡◌, sym, ◌∙◌, Bool, true, false, not, ◌&&◌, ◌||◌, Option, none, some, List, [], ◌∷◌, Str, eqb,
  is_empty, any, arith, Bool-cases, Option-cases, inl, inr, any-false, any_congr,
}
use zensu_monitoring_agent.Prelude.Maps.{Map, get, put, get-put}
use zensu_monitoring_agent.Scrape.Series.{Series}
use zensu_monitoring_agent.Scrape.Resolve.{
  pod_ref, is_pause_row, is_container_row, is_superseded_rollup, Rollups, mark_row, mark_rows,
}
use zensu_monitoring_agent.Scrape.Labels.{
  container_label, pod_label, namespace_label, pod_key, is_set,
}

is_set-put : (k j : Str) (m : Map Bool) → is_set j (put k true m) ≡ (eqb k j || is_set j m)
unfolding is_set
is_set-put k j m = ground (arith, get-put k j true m)

abbrev is_ref : Str → Option Str → Bool
is_ref key none = false
is_ref key (some k) = eqb k key

abbrev pub start : Rollups
start = record { namespaced = []; pod_only = []; mixed_shape = [] }

module _ {F : Type 0} where
  -- `c` is a container row of the pod that `key` names.
  abbrev pub in_pod : Str → Series F → Bool
  in_pod key c = is_container_row c && is_ref key (pod_ref c)

  -- `c` is a container row of a pod of this name, of whatever namespace.
  abbrev pub names_pod : Str → Series F → Bool
  names_pod pod c =
      is_container_row c && not (is_empty (pod_label c.labels)) && eqb (pod_label c.labels) pod

  -- `t` has no container of its own, and the container row `c` is of the same pod.
  abbrev pub covers : Series F → Series F → Bool
  covers t c = is_empty (container_label t.labels) && elim (pod_ref t) [
    | some key ↦ in_pod key c
    | none ↦
        not (is_empty (pod_label t.labels))
        && is_empty (namespace_label t.labels)
        && names_pod (pod_label t.labels) c
  ]

  abbrev pub keeps : List (Series F) → Series F → Bool
  keeps rows t = not (is_pause_row t) && not (any (covers t) rows)

  pod_ref-none :
      (t : Series F)
      → pod_ref t ≡ none
      → (is_empty (namespace_label t.labels) || is_empty (pod_label t.labels)) ≡ true
  unfolding pod_ref pod_key
  pod_ref-none t e = ground arith

  pod_ref-some :
      (t : Series F) {key : Str}
      → pod_ref t ≡ some key
      → (is_empty (namespace_label t.labels) || is_empty (pod_label t.labels)) ≡ false
  unfolding pod_ref pod_key
  pod_ref-some t e = ground arith

  mark_row-namespaced :
      (key : Str) (row : Series F) (r : Rollups)
      → is_set key (mark_row row r).namespaced ≡ (is_set key r.namespaced || in_pod key row)
  unfolding mark_row
  mark_row-namespaced key row r = elim (Option-cases (pod_ref row)) [
    | inl e ↦ rw (e, mark_row) (ground arith)
    | inr (k, e) ↦ rw (e, mark_row) (ground (arith, is_set-put k key r.namespaced))
  ]

  mark_row-pod_only :
      (pod : Str) (row : Series F) (r : Rollups)
      → is_set pod (mark_row row r).pod_only ≡ (is_set pod r.pod_only || names_pod pod row)
  unfolding mark_row
  mark_row-pod_only pod row r =
      let p = pod_label row.labels in
      elim (Option-cases (pod_ref row)) [
        | inl e ↦ rw (e, mark_row) (ground (arith, pod_ref-none row e, is_set-put p pod r.pod_only))
        | inr (k, e) ↦
            rw (e, mark_row) (ground (arith, pod_ref-some row e, is_set-put p pod r.pod_only))
      ]

  marked_namespaced :
      (key : Str) (rows : List (Series F)) (r : Rollups)
      → is_set key (mark_rows rows r).namespaced
        ≡ (is_set key r.namespaced || any (in_pod key) rows)
  unfolding mark_rows
  marked_namespaced key [] r = ground arith
  marked_namespaced key (row ∷ rows) r =
      ground (arith, marked_namespaced key rows (mark_row row r), mark_row-namespaced key row r)

  marked_pod_only :
      (pod : Str) (rows : List (Series F)) (r : Rollups)
      → is_set pod (mark_rows rows r).pod_only ≡ (is_set pod r.pod_only || any (names_pod pod) rows)
  unfolding mark_rows
  marked_pod_only pod [] r = ground arith
  marked_pod_only pod (row ∷ rows) r =
      ground (arith, marked_pod_only pod rows (mark_row row r), mark_row-pod_only pod row r)

  covers-eq-in_pod :
      (t c : Series F) {key : Str}
      → is_empty (container_label t.labels) ≡ true
      → pod_ref t ≡ some key
      → in_pod key c ≡ covers t c
  covers-eq-in_pod t c e f = rw (e, f)

  -- A row that names a pod and no namespace is covered by any container row of that pod name.
  covers-eq-names_pod :
      (t c : Series F)
      → is_empty (container_label t.labels) ≡ true
      → pod_ref t ≡ none
      → (not (is_empty (pod_label t.labels)) && is_empty (namespace_label t.labels)) ≡ true
      → names_pod (pod_label t.labels) c ≡ covers t c
  covers-eq-names_pod t c e f g = rw (e, f) (ground arith)

  covers-none :
      (t c : Series F)
      → pod_ref t ≡ none
      → (not (is_empty (pod_label t.labels)) && is_empty (namespace_label t.labels)) ≡ false
      → covers t c ≡ false
  covers-none t c f g = rw f (ground arith)

  -- The two sets of the first loop answer whether some row covers `t`.
  pub superseded-eq-any :
      (rows : List (Series F)) (t : Series F)
      → is_superseded_rollup t (mark_rows rows start).namespaced (mark_rows rows start).pod_only
        ≡ any (covers t) rows
  unfolding is_superseded_rollup is_set get
  superseded-eq-any rows t = elim (Bool-cases (is_empty (container_label t.labels))) [
    | inr e ↦ rw e (sym (any-false (λ c. rw e) rows))
    | inl e ↦ elim (Option-cases (pod_ref t)) [
      | inr (key, f) ↦
          rw (e, f, is_superseded_rollup)
            (marked_namespaced key rows start ∙ any_congr (λ c. covers-eq-in_pod t c e f) rows)
      | inl f ↦
          elim (Bool-cases
            (not (is_empty (pod_label t.labels)) && is_empty (namespace_label t.labels))) [
              | inl g ↦
                  rw (e, f, is_superseded_rollup)
                    (ground (
                      arith,
                      marked_pod_only (pod_label t.labels) rows start
                          ∙ any_congr (λ c. covers-eq-names_pod t c e f g) rows,
                    ))
              | inr g ↦
                  rw (any-false (λ c. covers-none t c f g) rows, e, f, is_superseded_rollup)
                    (ground arith)
            ]
    ]
  ]
