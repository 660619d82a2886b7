-- ===== src/Scrape/Resolve/Rows.antt =====
-- The row policy of `summable` against a description that looks at one pair of rows at a time.
use zensu_monitoring_agent.Prelude.{
  ◌+◌, ◌-◌, ◌≡◌, refl, sym, ap, ◌∙◌, true, false, not, ◌&&◌, List, [], ◌∷◌, ◌++◌, Str, is_empty,
  if◌then◌else◌, length, any, filter, append_assoc, append-nil, arith, Bool-cases, Option-cases,
  inl, inr, Memᴰ, mem-filter, filter-mem, length-filter-le, ◌⊎◌, mem_of_any, any_of_mem, any-false,
  filter_congr,
}
use zensu_monitoring_agent.Scrape.Series.{Series}
use zensu_monitoring_agent.Scrape.Resolve.{
  pod_ref, is_pause_row, is_container_row, is_superseded_rollup, Rollups, Kept, mark_rows, keep_row,
  keep_rows, summable,
}
use zensu_monitoring_agent.Scrape.Labels.{container_label, pod_label, namespace_label}
use zensu_monitoring_agent.Scrape.Resolve.Covers.{
  start, in_pod, names_pod, covers, keeps, superseded-eq-any,
}

module _ {F : Type 0} where
  keep_row-out :
      (r : Rollups) (row : Series F) (k : Kept F)
      → (keep_row r row k).out
        ≡ k.out
          ++ (if not (is_pause_row row) && not (is_superseded_rollup row r.namespaced r.pod_only)
              then row ∷ []
              else [])
  unfolding keep_row
  keep_row-out r row k = ground (arith, append-nil k.out)

  keep_rows-eq-filter :
      (r : Rollups) (rows : List (Series F)) (k : Kept F)
      → (keep_rows r rows k).out
        ≡ k.out
          ++ filter
              (λ t. not (is_pause_row t) && not (is_superseded_rollup t r.namespaced r.pod_only))
              rows
  unfolding keep_rows
  keep_rows-eq-filter r [] k = sym (append-nil k.out)
  keep_rows-eq-filter r (row ∷ rows) k =
      rw (keep_rows-eq-filter r rows (keep_row r row k), keep_row-out r row k)
        (elim (Bool-cases
          (not (is_pause_row row) && not (is_superseded_rollup row r.namespaced r.pod_only))) [
            | inl e ↦ rw e (rw append_assoc)
            | inr e ↦ rw e (rw append-nil)
          ])

  -- `summable` keeps, in their order, exactly the rows that are no pause row and that no container
  -- row of the same pod covers.
  pub summable-eq-filter : (rows : List (Series F)) → (summable rows).0 ≡ filter (keeps rows) rows
  unfolding summable
  summable-eq-filter rows =
      keep_rows-eq-filter (mark_rows rows start) rows (record { out = []; ambiguous = [] })
      ∙ filter_congr (λ t. ap (λ b. not (is_pause_row t) && not b) (superseded-eq-any rows t)) rows

  excluded-eq :
      (rows : List (Series F)) → (summable rows).1 ≡ length rows - length (summable rows).0
  unfolding summable
  excluded-eq rows = refl

  -- The rows that `summable` counts as removed and those that it returns are all the rows.
  pub summable_count :
      (rows : List (Series F)) → (summable rows).1 + length (summable rows).0 ≡ length rows
  summable_count rows =
      let kept = ap length (summable-eq-filter rows) in
      omega (arith, kept, length-filter-le (keeps rows) rows, excluded-eq rows)

  container_row_kept :
      (rows : List (Series F)) (c : Series F) → is_container_row c ≡ true → keeps rows c ≡ true
  unfolding is_container_row is_pause_row
  container_row_kept rows c e =
      let named : is_empty (container_label c.labels) ≡ false = ground arith in
      rw (any-false {p = covers c} (λ x. rw named) rows) (ground arith)

  container_of_covers : (t c : Series F) → covers t c ≡ true → is_container_row c ≡ true
  container_of_covers t c h = elim (Option-cases (pod_ref t)) [
    | inl e ↦ container_of_names t c (rw e at h)
    | inr (key, e) ↦ container_of_in key t c (rw e at h)
  ]
    where
      container_of_names :
          (t c : Series F)
          → (is_empty (container_label t.labels)
              && (not (is_empty (pod_label t.labels))
                  && is_empty (namespace_label t.labels)
                  && names_pod (pod_label t.labels) c))
            ≡ true
          → is_container_row c ≡ true
      container_of_names t c h = ground arith

      container_of_in :
          (key : Str) (t c : Series F)
          → (is_empty (container_label t.labels) && in_pod key c) ≡ true
          → is_container_row c ≡ true
      container_of_in key t c h = ground arith

  kept_of_keeps :
      (rows : List (Series F)) {t : Series F}
      → Memᴰ t rows
      → keeps rows t ≡ true
      → Memᴰ t (summable rows).0
  kept_of_keeps rows m e = rw (summable-eq-filter rows) (mem-filter (keeps rows) rows m e)

  keeps_of_kept :
      (rows : List (Series F)) {t : Series F}
      → Memᴰ t (summable rows).0
      → Memᴰ t rows × (keeps rows t ≡ true)
  keeps_of_kept rows m = filter-mem (keeps rows) rows (rw (summable-eq-filter rows) at m)

  -- No row that `summable` returns is covered by another row that it was given: where a container
  -- row of a pod is summed, no total of that pod is.
  pub summable-covers :
      (rows : List (Series F)) (t c : Series F)
      → Memᴰ t (summable rows).0
      → Memᴰ c rows
      → covers t c ≡ false
  summable-covers rows t c m n =
      let kept = (keeps_of_kept rows m).1 in
      elim (Bool-cases (covers t c)) [
        | inr e ↦ e
        | inl e ↦ ground (arith, any_of_mem (covers t) rows n e)
      ]

  -- A row that is no pause row is returned, or else some container row that covers it is.
  pub summable_keeps_pod :
      (rows : List (Series F)) (t : Series F)
      → Memᴰ t rows
      → is_pause_row t ≡ false
      → Memᴰ t (summable rows).0 ⊎ ((c : Series F) × Memᴰ c (summable rows).0 × (covers t c ≡ true))
  summable_keeps_pod rows t m e = elim (Bool-cases (any (covers t) rows)) [
    | inr free ↦ inl (kept_of_keeps rows m (rw (e, free)))
    | inl hit ↦
        let (c, n, over) = mem_of_any (covers t) rows hit in
        inr
          (c, kept_of_keeps rows n (container_row_kept rows c (container_of_covers t c over)), over)
  ]
