-- ===== src/Scrape/Resolve/Family.antt =====
-- `matchFamily` and `Select`: which family a candidate gets.
use zensu_monitoring_agent.Prelude.{
  ◌≡◌, refl, sym, ap, ◌∙◌, true, false, none, some, List, [], Str, eqb, eqb_iff, is_empty, filter,
  mem-filter, length_of_mem, arith, Memᴰ, Bool-cases, inl, inr, All,
}
use zensu_monitoring_agent.Scrape.Series.{Kind, unsupported, Series}
use zensu_monitoring_agent.Scrape.Resolve.{Candidate, matches, find_winner, collect, match_family}
use zensu_monitoring_agent.Scrape.Resolve.Winner.{
  find_winner-Named, find_winner_own, find_winner_none, collect-eq-filter, collect-kind_of_mem,
}

-- What `matchFamily` returns for a candidate: all the rows of one name, which the candidate matches,
-- at least one, and the kind of one of them.
pub record IsFamily {F : Type 0} (c : Candidate F) (all rows : List (Series F)) (kind : Kind)
    : Type 0 where
  pub winner : Str
  pub named : is_empty winner ≡ false
  pub whole : rows ≡ filter (λ s. eqb s.name winner) all
  pub sample : Series F
  pub listed : Memᴰ sample rows
  pub wanted : matches c sample ≡ true
  pub typed : (s : Series F) × Memᴰ s rows × (kind ≡ s.kind)

module _ {F : Type 0} (c : Candidate F) where
  match_family-eq-some :
      (all rows : List (Series F)) (kind : Kind)
      → match_family c all ≡ some (rows, kind)
      → (is_empty (find_winner c all []) ≡ false)
        × (collect (find_winner c all []) all ([], unsupported) ≡ (rows, kind))
  unfolding match_family
  match_family-eq-some all rows kind e = ground arith

  match_family_of_winner :
      (all : List (Series F)) (w : Str) {s : Series F}
      → find_winner c all [] ≡ w
      → is_empty w ≡ false
      → Memᴰ s all
      → eqb s.name w ≡ true
      → match_family c all
        ≡ some (filter (λ t. eqb t.name w) all, (collect w all ([], unsupported)).1)
  unfolding match_family
  match_family_of_winner all w e n m own =
      let some_row = length_of_mem _ (mem-filter (λ t. eqb t.name w) all m own) in
      rw (e, n, collect-eq-filter c w all [] unsupported) (ground arith)

  -- A result of `matchFamily` is a whole family: every row of one non-empty name, which the
  -- candidate matches, at least one row, and the kind of one of these rows.
  pub match_family-IsFamily :
      (all rows : List (Series F)) (kind : Kind)
      → match_family c all ≡ some (rows, kind)
      → IsFamily c all rows kind
  match_family-IsFamily all rows kind e =
      let w = find_winner c all [] in
      let (named, found) = match_family-eq-some all rows kind e in
      let whole : rows ≡ filter (λ s. eqb s.name w) all =
        sym (ap (λ p. p.0) found) ∙ collect-eq-filter c w all [] unsupported in
      elim (find_winner-Named c all []) [
        | inl nil ↦ cc (ap is_empty nil)
        | inr (s, m, hit, same) ↦
            let own = (eqb_iff s.name w).1 (sym same) in
            let (t, n, kept) = collect-kind_of_mem c w all [] unsupported m own in
            record {
              winner = w;
              named = named;
              whole = whole;
              sample = s;
              listed = rw whole (mem-filter (λ x. eqb x.name w) all m own);
              wanted = hit;
              typed = (t, rw whole n, sym (ap (λ p. p.1) found) ∙ kept);
            }
      ]

  -- A row of the candidate's own name decides the family, wherever it stands.
  pub match_family_own :
      (all : List (Series F)) (s : Series F)
      → Memᴰ s all
      → s.name ≡ c.name
      → is_empty c.name ≡ false
      → (kind : Kind) × (match_family c all ≡ some (filter (λ t. eqb t.name c.name) all, kind))
  match_family_own all s m e n = (
    (collect c.name all ([], unsupported)).1,
    match_family_of_winner all c.name (find_winner_own c all [] m e) n m ((eqb_iff _ _).1 e),
  )

  -- A candidate with a name finds no family only if the rows that it matches have no name.
  pub match_family-none :
      (all : List (Series F))
      → is_empty c.name ≡ false
      → match_family c all ≡ none
      → All (λ s. matches c s ≡ true → is_empty s.name ≡ true) all
  match_family-none all n e = elim (Bool-cases (is_empty (find_winner c all []))) [
    | inl none_found ↦ (find_winner_none c all [] n none_found).1
    | inr named ↦ elim (find_winner-Named c all []) [
      | inl nil ↦ cc (ap is_empty nil)
      | inr (s, m, hit, same) ↦ cc (
          match_family_of_winner all (find_winner c all []) refl named m
            ((eqb_iff _ _).1 (sym same)))
    ]
  ]
