-- ===== src/Agent/Exposition/Totals.antt =====
-- What the loop of `reduce` over the rows leaves for one service, against a description by its rows.
use zensu_monitoring_agent.Prelude.{
  ◌≡◌, refl, sym, ap, ◌∙◌, Bool, true, false, not, ◌&&◌, ◌||◌, Option, none, some, is_some, List,
  [], ◌∷◌, Str, eqb, eqb_iff, if◌then◌else◌, any, inl, inr, Bool-cases, Option-cases, All, arith,
}
use zensu_monitoring_agent.Prelude.Maps.{Map, get, put, has, keys, get-put}
use zensu_monitoring_agent.Prelude.Sort.{Distinct}
use zensu_monitoring_agent.Prelude.Float.{Float64}
use zensu_monitoring_agent.Scrape.Series.{Series}
use zensu_monitoring_agent.Scrape.Resolve.{Selection}
use zensu_monitoring_agent.Scrape.Labels.{is_set}
use zensu_monitoring_agent.Agent.Index.{SlugIndex, resolve}
use zensu_monitoring_agent.Agent.Exposition.{
  Sums, reading, total_of, sum_reading, sum_row, sum_rows,
}

abbrev pub is_slug : Str → Option Str → Bool
is_slug g none = false
is_slug g (some slug) = eqb slug g

is_set-put : (k j : Str) (m : Map Bool) → is_set j (put k true m) ≡ (eqb k j || is_set j m)
unfolding is_set
is_set-put k j m = rw (get-put k j true m) (ground arith)

has-put : {V : Type 0} (k j : Str) (v : V) (m : Map V) → has j (put k v m) ≡ (eqb k j || has j m)
has-put k j v m = rw (get-put k j v m) (ground arith)

keys-put-All :
    {V : Type 0} (P : Str → Type 0) (k : Str) (v : V) (m : Map V)
    → P k
    → All P (keys m)
    → All P (keys (put k v m))
unfolding put
keys-put-All P k v [] p h = (p, tt)
keys-put-All P k v ((j, w) ∷ m) p h = elim (Bool-cases (eqb j k)) [
  | inl e ↦ rw e (p, h.1)
  | inr e ↦ rw e (h.0, keys-put-All P k v m p h.1)
]

pub Distinct-put :
    {V : Type 0} (k : Str) (v : V) (m : Map V) → Distinct (keys m) → Distinct (keys (put k v m))
unfolding put
Distinct-put k v [] h = (tt, tt)
Distinct-put k v ((j, w) ∷ m) h = elim (Bool-cases (eqb j k)) [
  | inl e ↦ rw (e, sym ((eqb_iff j k).0 e)) h
  | inr e ↦ rw e (keys-put-All _ k v m e h.0, Distinct-put k v m h.1)
]

pub any-keys : {V : Type 0} (g : Str) (m : Map V) → any (λ x. eqb x g) (keys m) ≡ has g m
unfolding get
any-keys g [] = refl
any-keys g ((j, v) ∷ m) = ground (arith, any-keys g m)

module _ (fl : Float64) where
  open fl use {F, add}

  total_of-put :
      (k j : Str) (v : F) (m : Map F)
      → total_of fl j (put k v m) ≡ (if eqb k j then v else total_of fl j m)
  unfolding total_of
  total_of-put k j v m = rw (total_of, get-put k j v m) (ground arith)

  abbrev add_reading : F → Option F → F
  add_reading acc none = acc
  add_reading acc (some v) = add acc v

  module _ (index : SlugIndex) (slug_label : Str) (sel : Selection F) (rated : Map F) where
    abbrev pub attributed : Str → Series F → Bool
    attributed g row = is_slug g (resolve index row slug_label)

    -- Some row of the service has a value, and some row of it has none.
    abbrev pub has_reading : Str → List (Series F) → Bool
    has_reading g rows = any (λ row. attributed g row && is_some (reading sel rated row)) rows

    abbrev pub lacks_reading : Str → List (Series F) → Bool
    lacks_reading g rows =
        any (λ row. attributed g row && not (is_some (reading sel rated row))) rows

    -- The sum of the values of the service's rows, in order.
    abbrev pub sum_of : Str → List (Series F) → F → F
    sum_of g [] acc = acc
    sum_of g (row ∷ rows) acc =
        sum_of g rows (if attributed g row then add_reading acc (reading sel rated row) else acc)

    -- What `Sums` hold of the service `g`, over those that they held before.
    abbrev IsSumOf : Str → List (Series F) → Sums F → Sums F → Type 0
    IsSumOf g rows acc sums =
        (total_of fl g sums.totals ≡ sum_of g rows (total_of fl g acc.totals))
        × (has g sums.contributed ≡ (has g acc.contributed || has_reading g rows))
        × (is_set g sums.incomplete ≡ (is_set g acc.incomplete || lacks_reading g rows))

    sum_row-IsSumOf :
        (g : Str) (row : Series F) (acc : Sums F)
        → IsSumOf g (row ∷ []) acc (sum_row fl index slug_label sel rated row acc)
    unfolding sum_row sum_reading
    sum_row-IsSumOf g row acc = elim (Option-cases (resolve index row slug_label)) [
      | inl e ↦ rw (e, sum_row) (refl, ground arith, ground arith)
      | inr (slug, e) ↦ elim (Option-cases (reading sel rated row)) [
        | inl m ↦
            rw (e, sum_row, m, sum_reading)
              (ground arith, ground arith, rw (is_set-put slug g acc.incomplete) (ground arith))
        | inr (v, m) ↦
            rw (e, sum_row, m, sum_reading)
              (
                rw (total_of-put slug g (add (total_of fl slug acc.totals) v) acc.totals)
                    (ground (arith, eqb_iff slug g)),
                rw (has-put slug g true acc.contributed) (ground arith),
                ground arith,
              )
      ]
    ]

    pub sum_rows-IsSumOf :
        (g : Str) (rows : List (Series F)) (acc : Sums F)
        → IsSumOf g rows acc (sum_rows fl index slug_label sel rated rows acc)
    unfolding sum_rows
    sum_rows-IsSumOf g [] acc = (refl, ground arith, ground arith)
    sum_rows-IsSumOf g (row ∷ rows) acc =
        let acc' = sum_row fl index slug_label sel rated row acc in
        let (total, has1, lacks1) = sum_row-IsSumOf g row acc in
        let (totals, hass, lackss) = sum_rows-IsSumOf g rows acc' in
        (
          totals ∙ ap (sum_of g rows) total,
          ground (arith, has1, hass),
          ground (arith, lacks1, lackss),
        )

    pub contributed-Distinct :
        (rows : List (Series F)) (acc : Sums F)
        → Distinct (keys acc.contributed)
        → Distinct (keys (sum_rows fl index slug_label sel rated rows acc).contributed)
    unfolding sum_rows sum_row sum_reading
    contributed-Distinct [] acc h = h
    contributed-Distinct (row ∷ rows) acc h =
        contributed-Distinct rows (sum_row fl index slug_label sel rated row acc)
          (elim (Option-cases (resolve index row slug_label)) [
            | inl e ↦ rw (e, sum_row) h
            | inr (slug, e) ↦ elim (Option-cases (reading sel rated row)) [
              | inl m ↦ rw (e, sum_row, m, sum_reading) h
              | inr (v, m) ↦
                  rw (e, sum_row, m, sum_reading) (Distinct-put slug true acc.contributed h)
            ]
          ])
