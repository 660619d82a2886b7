-- ===== src/Scrape/Resolve/Winner.antt =====
-- The name that decides the family of a candidate, and the rows of that name.
use zensu_monitoring_agent.Prelude.{
  ◌≡◌, refl, sym, ap, ◌∙◌, true, false, List, [], ◌∷◌, ◌++◌, Str, eqb, eqb_iff, eqb_refl, eqb_ne,
  is_empty, if◌then◌else◌, filter, arith, Memᴰ, Bool-cases, inl, inr, ◌⊎◌, append_assoc, append-nil,
  All,
}
use mathlib.Core.List.Memᴰ
use zensu_monitoring_agent.Scrape.Series.{Kind, Series}
use zensu_monitoring_agent.Scrape.Resolve.{Candidate, matches, find_winner, collect}
use zensu_monitoring_agent.Scrape.BaseNames.{normalize_name}

module _ {F : Type 0} (c : Candidate F) where
  -- A row that the candidate matches and that has the name `r`.
  abbrev pub Named : Str → List (Series F) → Type 0
  Named r all = (s : Series F) × Memᴰ s all × (matches c s ≡ true) × (r ≡ s.name)

  Named-tail : {r : Str} {s : Series F} {all : List (Series F)} → Named r all → Named r (s ∷ all)
  Named-tail (t, m, h, named) = (t, Memᴰ.tail m, h, named)

  -- The winner is the one given at the start or the name of a row that the candidate matches.
  pub find_winner-Named :
      (all : List (Series F)) (w : Str)
      → (find_winner c all w ≡ w) ⊎ Named (find_winner c all w) all
  unfolding find_winner
  find_winner-Named [] w = inl refl
  find_winner-Named (s ∷ all) w = elim (Bool-cases (matches c s)) [
    | inr e ↦
        rw e (elim (find_winner-Named all w) [ inl same ↦ inl same | inr n ↦ inr (Named-tail n) ])
    | inl e ↦ elim (Bool-cases (eqb s.name c.name)) [
      | inl own ↦ rw (e, own) (inr (s, Memᴰ.head refl, e, refl))
      | inr other ↦ elim (Bool-cases (is_empty w)) [
        | inl first ↦
            rw (e, other, first)
              (elim (find_winner-Named all s.name) [
                | inl same ↦ inr (s, Memᴰ.head refl, e, same)
                | inr n ↦ inr (Named-tail n)
              ])
        | inr kept ↦
            rw (e, other, kept)
              (elim (find_winner-Named all w) [ inl same ↦ inl same | inr n ↦ inr (Named-tail n) ])
      ]
    ]
  ]

  matches_own : (s : Series F) → s.name ≡ c.name → matches c s ≡ true
  unfolding matches
  matches_own s e = rw e (ground (arith, eqb_refl c.name, eqb_refl (normalize_name c.name)))

  pub find_winner_own :
      (all : List (Series F)) (w : Str) {s : Series F}
      → Memᴰ s all
      → s.name ≡ c.name
      → find_winner c all w ≡ c.name
  unfolding find_winner
  find_winner_own [] w m e = elim m [ ]
  find_winner_own (t ∷ all) w {s} m e = elim (Bool-cases (eqb t.name c.name)) [
    | inl own ↦ let same = (eqb_iff t.name c.name).0 own in rw (matches_own t same, own) same
    | inr other ↦ elim (Memᴰ.cases_cons m) [
      | inl here ↦ absurd (eqb_ne t.name c.name other (ap (λ x. x.name) (sym here) ∙ e))
      | inr later ↦ elim (Bool-cases (matches c t)) [
        | inl hit ↦ rw (hit, other) (find_winner_own all (if is_empty w then t.name else w) later e)
        | inr miss ↦ rw miss (find_winner_own all w later e)
      ]
    ]
  ]

  own_name :
      (s : Series F) → is_empty c.name ≡ false → eqb s.name c.name ≡ true → is_empty s.name ≡ false
  own_name s n own = ap is_empty ((eqb_iff s.name c.name).0 own) ∙ n

  -- A row that the candidate matches leaves the winner of the rest without a name only if its own
  -- name is empty.
  pub find_winner_none :
      (all : List (Series F)) (w : Str)
      → is_empty c.name ≡ false
      → is_empty (find_winner c all w) ≡ true
      → (is_empty w ≡ true) × All (λ s. matches c s ≡ true → is_empty s.name ≡ true) all
  unfolding find_winner
  find_winner_none [] w n e = (e, tt)
  find_winner_none (s ∷ all) w n e = elim (Bool-cases (matches c s)) [
    | inr miss ↦
        let (start, rest) = find_winner_none all w n (rw (miss, find_winner) at e) in
        (start, ((λ hit. cc), rest))
    | inl hit ↦ elim (Bool-cases (eqb s.name c.name)) [
      | inl own ↦ cc (own_name s n own, (rw (hit, own, find_winner) at e))
      | inr other ↦ elim (Bool-cases (is_empty w)) [
        | inl first ↦
            let (same, rest) =
              find_winner_none all s.name n (rw (hit, other, first, find_winner) at e) in
            (first, ((λ _. same), rest))
        | inr kept ↦
            let (start, rest) =
              find_winner_none all w n (rw (hit, other, kept, find_winner) at e) in
            cc
      ]
    ]
  ]

  pub collect-eq-filter :
      (w : Str) (all matched : List (Series F)) (k : Kind)
      → (collect w all (matched, k)).0 ≡ matched ++ filter (λ s. eqb s.name w) all
  unfolding collect
  collect-eq-filter w [] matched k = sym (append-nil matched)
  collect-eq-filter w (s ∷ all) matched k = elim (Bool-cases (eqb s.name w)) [
    | inl e ↦
        rw (e, collect)
          (collect-eq-filter w all (matched ++ s ∷ []) s.kind ∙ append_assoc matched (s ∷ []) _)
    | inr e ↦ rw (e, collect) (collect-eq-filter w all matched k)
  ]

  -- The kind is the one given at the start or that of a row of the family.
  collect-kind :
      (w : Str) (all matched : List (Series F)) (k : Kind)
      → ((collect w all (matched, k)).1 ≡ k)
        ⊎ ((s : Series F) × Memᴰ s (filter (λ s. eqb s.name w) all)
            × ((collect w all (matched, k)).1 ≡ s.kind))
  unfolding collect
  collect-kind w [] matched k = inl refl
  collect-kind w (s ∷ all) matched k = elim (Bool-cases (eqb s.name w)) [
    | inr e ↦ rw (e, collect) (collect-kind w all matched k)
    | inl e ↦
        rw (e, collect)
          (elim (collect-kind w all (matched ++ s ∷ []) s.kind) [
            | inl same ↦ inr (s, Memᴰ.head refl, same)
            | inr (t, m, same) ↦ inr (t, Memᴰ.tail m, same)
          ])
  ]

  -- With a row of that name the kind is that of one of them.
  pub collect-kind_of_mem :
      (w : Str) (all matched : List (Series F)) (k : Kind) {s : Series F}
      → Memᴰ s all
      → eqb s.name w ≡ true
      → (t : Series F) × Memᴰ t (filter (λ x. eqb x.name w) all)
        × ((collect w all (matched, k)).1 ≡ t.kind)
  unfolding collect
  collect-kind_of_mem w [] matched k m h = elim m [ ]
  collect-kind_of_mem w (r ∷ all) matched k m h = elim (Bool-cases (eqb r.name w)) [
    | inl e ↦
        rw (e, collect)
          (elim (collect-kind w all (matched ++ r ∷ []) r.kind) [
            | inl same ↦ (r, Memᴰ.head refl, same)
            | inr (t, n, same) ↦ (t, Memᴰ.tail n, same)
          ])
    | inr e ↦ elim (Memᴰ.cases_cons m) [
      | inl here ↦ cc (ap (λ x. eqb x.name w) here)
      | inr later ↦ rw (e, collect) (collect-kind_of_mem w all matched k later h)
    ]
  ]
