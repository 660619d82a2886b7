-- ===== src/Scrape/Decode/Fetched.antt =====
-- What a fetch gives, and for which bodies.
use zensu_monitoring_agent.Prelude.{
  ℕ, ◌+◌, ◌-◌, ◌≤◌, ◌<◌, ◌≡◌, Bool, true, false, none, some, List, [], ◌∷◌, ◌++◌, Str, length,
  length-append, ltb, leb, inl, inr, Bool-cases, Option-cases, All, All-append, arith, subst, ◌↔◌,
}
use zensu_monitoring_agent.Prelude.Maps.{Map}
use zensu_monitoring_agent.Prelude.Float.{Float64, is_finite}
use zensu_monitoring_agent.Redact.Bounds.{take_all, length-take_full}
use zensu_monitoring_agent.Redact.{for_log}
use zensu_monitoring_agent.Scrape.Series.{Series}
use zensu_monitoring_agent.Scrape.Decode.{
  Metric, MetricFamily, Decoded, family, parse_error, ok, failed, kind_of, is_unsupported,
  max_samples, value_of, scalar_of, series_of, rows_of, series_from_family, admits, decode_from,
  decode, Client, Response, Exchange, answered, read_failed, body_too_large, not_built, not_sent,
  read_error, read_limit, read_series, fetch,
}

module _ (fl : Float64) where
  open fl use {F}

  scalar_finite :
      (m : Metric F) (mf : MetricFamily F) (v : F)
      → scalar_of fl m mf.metric_type ≡ some v
      → is_finite fl v ≡ true
  unfolding scalar_of
  scalar_finite m mf v h = elim (Option-cases (value_of m mf.metric_type)) [
    | inl e ↦ absurd (ground (arith, rw (e, scalar_of) at h))
    | inr (w, e) ↦ ground (arith, rw (e, scalar_of) at h)
  ]

  abbrev pub IsFiniteRow : Series F → Type 0
  IsFiniteRow s = is_finite fl s.value ≡ true

  -- At most so many rows, each of them finite.
  abbrev pub IsBounded : ℕ → List (Series F) → Type 0
  IsBounded n rows = (length rows ≤ n) × All IsFiniteRow rows

  add-IsBounded :
      {n : ℕ} (mf : MetricFamily F) (m : Metric F) (v : F) (out : List (Series F))
      → scalar_of fl m mf.metric_type ≡ some v
      → IsBounded n out
      → leb n (length out) ≡ false
      → IsBounded n (out ++ series_of fl mf m v ∷ [])
  unfolding series_of
  add-IsBounded mf m v out e h room = (
    ground (arith, length-append out (series_of fl mf m v ∷ [])),
    All-append IsFiniteRow out (series_of fl mf m v ∷ []) h.1 (scalar_finite m mf v e, tt),
  )

  rows_of-IsBounded :
      {n : ℕ} (mf : MetricFamily F) (ms : List (Metric F)) (out rows : List (Series F))
      → IsBounded n out
      → rows_of fl mf n ms out ≡ some rows
      → IsBounded n rows
  unfolding rows_of
  rows_of-IsBounded {n} mf [] out rows h e = subst (IsBounded n) (ground (arith, e)) h
  rows_of-IsBounded {n} mf (m ∷ ms) out rows h e =
      elim (Option-cases (scalar_of fl m mf.metric_type)) [
        | inl skip ↦ rows_of-IsBounded mf ms out rows h (rw (skip, rows_of) at e)
        | inr (v, hit) ↦ elim (Bool-cases (leb n (length out))) [
          | inl full ↦ absurd (ground (arith, rw (hit, rows_of, full) at e))
          | inr room ↦
              rows_of-IsBounded mf ms (out ++ series_of fl mf m v ∷ []) rows
                (add-IsBounded mf m v out hit h room) (rw (hit, rows_of, room) at e)
        ]
      ]

  family-IsBounded :
      {n : ℕ} (mf : MetricFamily F) (rows : List (Series F))
      → series_from_family fl mf n ≡ some rows
      → IsBounded n rows
  unfolding series_from_family
  family-IsBounded {n} mf rows e = elim (Bool-cases (is_unsupported (kind_of mf.metric_type))) [
    | inl u ↦
        subst (IsBounded n) {x = []} (ground (arith, rw (series_from_family, u) at e))
          (omega arith, tt)
    | inr s ↦
        rows_of-IsBounded mf mf.metrics [] rows (omega arith, tt) (rw (series_from_family, s) at e)
  ]

  append-IsBounded :
      (out rows : List (Series F))
      → IsBounded max_samples out
      → IsBounded (max_samples - length out) rows
      → IsBounded max_samples (out ++ rows)
  append-IsBounded out rows h k =
      (omega (arith, length-append out rows, h.0, k.0), All-append IsFiniteRow out rows h.1 k.1)

  decode_from-IsBounded :
      (keep : Map Bool) (families : List (Decoded F)) (out rows : List (Series F))
      → IsBounded max_samples out
      → decode_from fl keep families out ≡ ok rows
      → IsBounded max_samples rows
  unfolding decode_from
  decode_from-IsBounded keep [] out rows h e = subst (IsBounded max_samples) (ground (arith, e)) h
  decode_from-IsBounded keep (parse_error text ∷ more) out rows h e = absurd (ground (arith, e))
  decode_from-IsBounded keep (family mf ∷ more) out rows h e =
      elim (Bool-cases (admits fl keep mf)) [
        | inr skip ↦ decode_from-IsBounded keep more out rows h (rw (decode_from, skip) at e)
        | inl taken ↦ elim (Option-cases (series_from_family fl mf (max_samples - length out))) [
          | inl over ↦ absurd (ground (arith, rw (decode_from, taken, over) at e))
          | inr (new, fits) ↦
              decode_from-IsBounded keep more (out ++ new) rows
                (append-IsBounded out new h (family-IsBounded mf new fits))
                (rw (decode_from, taken, fits) at e)
        ]
      ]

module _ (fl : Float64) (parse : Str → List (Decoded fl.F)) where
  open fl use {F}

  module _ (n : ℕ) (keep : Map Bool) (r : Response) where
    read_whole :
        leb 300 r.status_code ≡ false
        → length r.body ≤ n
        → r.body_error ≡ none
        → read_series fl parse n keep r ≡ decode fl keep (parse r.body)
    unfolding read_series read_error
    read_whole good short e =
        let below : ltb (length r.body) (n + 1) ≡ true = ground arith in
        let fits : ltb n (length r.body) ≡ false = ground arith in
        rw (
          read_series,
          good,
          read_error,
          below,
          e,
          take_all (n + 1) r.body (omega (arith, short)),
          fits,
        )

    read_short :
        leb 300 r.status_code ≡ false
        → length r.body ≤ n
        → (text : Str) → r.body_error ≡ some text
        → read_series fl parse n keep r ≡ failed (read_failed (for_log text))
    unfolding read_series read_error
    read_short good short text e =
        let below : ltb (length r.body) (n + 1) ≡ true = ground arith in
        rw (read_series, good, read_error, below, e)

    read_long :
        leb 300 r.status_code ≡ false
        → n < length r.body
        → read_series fl parse n keep r ≡ failed body_too_large
    unfolding read_series read_error
    read_long good long =
        let above : ltb (length r.body) (n + 1) ≡ false = ground arith in
        let over : ltb n (n + 1) ≡ true = ground arith in
        rw (
          read_series,
          good,
          read_error,
          above,
          length-take_full (n + 1) r.body (omega (arith, long)),
          over,
        )

    read_series_iff :
        (rows : List (Series F))
        → (read_series fl parse n keep r ≡ ok rows) ↔ (
            (leb 300 r.status_code ≡ false)
            × (length r.body ≤ n)
            × (r.body_error ≡ none)
            × (decode fl keep (parse r.body) ≡ ok rows))
    unfolding read_series
    read_series_iff rows = elim (Bool-cases (leb 300 r.status_code)) [
      | inl bad ↦ rw (read_series, bad) (ground arith)
      | inr good ↦ elim (Bool-cases (leb (length r.body) n)) [
        | inr long ↦ rw (read_long good (ground arith)) (ground arith)
        | inl short ↦ elim (Option-cases r.body_error) [
          | inl e ↦ rw (read_whole good (ground arith) e) (ground arith)
          | inr (text, e) ↦ rw (read_short good (ground arith) text e) (ground arith)
        ]
      ]
    ]

  -- A fetch gives rows exactly when the status is below 300, the whole body is at most as long as the cap
  -- and was read without an error, and it decodes to these rows: rows of a part of the body are never
  -- given.
  pub fetch_ok_iff :
      (runtime_limit : ℕ) (c : Client) (keep : Map Bool) (r : Response) (rows : List (Series F))
      → (fetch fl parse runtime_limit c keep (answered r) ≡ ok rows) ↔ (
          (leb 300 r.status_code ≡ false)
          × (length r.body ≤ read_limit runtime_limit c)
          × (r.body_error ≡ none)
          × (decode fl keep (parse r.body) ≡ ok rows))
  unfolding fetch
  fetch_ok_iff runtime_limit c keep r rows =
      read_series_iff (read_limit runtime_limit c) keep r rows

  -- The rows that a fetch gives, whatever was answered, are at most 50000, and each value is finite.
  pub fetch-IsBounded :
      (runtime_limit : ℕ) (c : Client) (keep : Map Bool) (e : Exchange) (rows : List (Series F))
      → fetch fl parse runtime_limit c keep e ≡ ok rows
      → IsBounded fl max_samples rows
  unfolding fetch decode
  fetch-IsBounded runtime_limit c keep (not_built e) rows h = absurd (ground (arith, h))
  fetch-IsBounded runtime_limit c keep (not_sent e) rows h = absurd (ground (arith, h))
  fetch-IsBounded runtime_limit c keep (answered r) rows h =
      let (good, short, read, decoded) = (fetch_ok_iff runtime_limit c keep r rows).0 h in
      decode_from-IsBounded fl keep (parse r.body) [] rows (omega arith, tt) decoded
