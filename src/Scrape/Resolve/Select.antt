-- ===== src/Scrape/Resolve/Select.antt =====
-- `Select` and the filter that `CandidateNames` gives to the decoder.
use zensu_monitoring_agent.Prelude.{
  ◌≡◌, refl, sym, ap, ◌∙◌, Bool, true, Option, none, some, List, [], ◌∷◌, ◌++◌, Str, eqb, eqb_iff,
  is_empty, if◌then◌else◌, filter, arith, Memᴰ, Bool-cases, inl, inr, All,
}
use mathlib.Core.List.Memᴰ
use zensu_monitoring_agent.Prelude.Maps.{Map, put, get-put}
use zensu_monitoring_agent.Prelude.Float.{Float64}
use zensu_monitoring_agent.Scrape.Series.{Kind, unsupported, Series}
use zensu_monitoring_agent.Scrape.Resolve.{
  Role, cpu, memory, Candidate, Resolver, Selection, matches, find_winner, collect, match_family,
  candidates, selection_of, select_from, select, keep_names, candidate_names,
}
use zensu_monitoring_agent.Scrape.BaseNames.{normalize_name}
use zensu_monitoring_agent.Scrape.Labels.{is_set}
use zensu_monitoring_agent.Scrape.Resolve.Winner.{find_winner-Named}

module _ {F : Type 0} (test : Str → Bool) where
  -- The rows whose name passes the test.
  abbrev kept : List (Series F) → List (Series F)
  kept = filter (λ s. test s.name)

  module _ (c : Candidate F)
      (covers : (s : Series F) → matches c s ≡ true → test s.name ≡ true) where
    find_winner-kept :
        (all : List (Series F)) (w : Str) → find_winner c (kept all) w ≡ find_winner c all w
    unfolding find_winner
    find_winner-kept [] w = refl
    find_winner-kept (s ∷ all) w = elim (Bool-cases (matches c s)) [
      | inl hit ↦
          rw (covers s hit, hit) (rw (find_winner-kept all (if is_empty w then s.name else w)))
      | inr miss ↦ elim (Bool-cases (test s.name)) [
        | inl yes_kept ↦ rw (yes_kept, miss) (find_winner-kept all w)
        | inr dropped ↦ rw (dropped, miss) (find_winner-kept all w)
      ]
    ]

  collect-kept :
      (w : Str)
      → test w ≡ true
      → (all : List (Series F)) (acc : List (Series F) × Kind)
      → collect w (kept all) acc ≡ collect w all acc
  unfolding collect
  collect-kept w h [] acc = refl
  collect-kept w h (s ∷ all) (matched, k) = elim (Bool-cases (eqb s.name w)) [
    | inl e ↦
        let passes = ap test ((eqb_iff s.name w).0 e) ∙ h in
        rw (passes, e, collect) (collect-kept w h all (matched ++ s ∷ [], s.kind))
    | inr e ↦ elim (Bool-cases (test s.name)) [
      | inl passes ↦ rw (passes, e, collect) (collect-kept w h all (matched, k))
      | inr dropped ↦ rw (dropped, e, collect) (collect-kept w h all (matched, k))
    ]
  ]

  match_family-kept :
      (c : Candidate F)
      → ((s : Series F) → matches c s ≡ true → test s.name ≡ true)
      → (all : List (Series F)) → match_family c (kept all) ≡ match_family c all
  unfolding match_family
  match_family-kept c covers all = elim (find_winner-Named c all []) [
    | inl nil ↦ rw (find_winner-kept c covers all []) (rw nil)
    | inr (s, m, hit, same) ↦ rw (find_winner-kept c covers all []) (
        rw
          (collect-kept (find_winner c all []) (ap test same ∙ covers s hit) all ([], unsupported)))
  ]

module _ (fl : Float64) where
  select_from-kept :
      (test : Str → Bool) (role : Role) (cs : List (Candidate fl.F))
      → All (λ c. (s : Series fl.F) → matches c s ≡ true → test s.name ≡ true) cs
      → (all : List (Series fl.F))
      → select_from fl role cs (kept test all) ≡ select_from fl role cs all
  unfolding select_from
  select_from-kept test role [] h all = refl
  select_from-kept test role (c ∷ cs) h all =
      rw (match_family-kept test c h.0 all, select_from)
        (ap (λ rest. choose role c (match_family c all) rest)
          (select_from-kept test role cs h.1 all))
    where
      choose :
          Role
          → Candidate fl.F
          → Option (List (Series fl.F) × Kind)
          → Option (Selection fl.F)
          → Option (Selection fl.F)
      choose role c found rest = elim found [
        | some f ↦ some (selection_of fl role c f)
        | none ↦ rest
      ]

  abbrev keeps : Map Bool → Str → Bool
  keeps m name = is_set (normalize_name name) m

  is_set-put_self : (k j : Str) (m : Map Bool) → k ≡ j → is_set j (put k true m) ≡ true
  unfolding is_set
  is_set-put_self k j m e = rw get-put (rw ((eqb_iff k j).1 e))

  keep_names_old :
      (cs : List (Candidate fl.F)) (m : Map Bool) (name : Str)
      → is_set name m ≡ true
      → is_set name (keep_names fl cs m) ≡ true
  unfolding keep_names is_set
  keep_names_old [] m name h = h
  keep_names_old (c ∷ cs) m name h =
      keep_names_old cs (put (normalize_name c.name) true m) name (rw get-put (ground (arith)))

  keep_names_new :
      (cs : List (Candidate fl.F)) (m : Map Bool) {c : Candidate fl.F}
      → Memᴰ c cs
      → is_set (normalize_name c.name) (keep_names fl cs m) ≡ true
  unfolding keep_names
  keep_names_new [] m h = elim h [ ]
  keep_names_new (d ∷ cs) m {c} h = elim (Memᴰ.cases_cons h) [
    | inl here ↦ keep_names_old cs _ (normalize_name c.name) (
        is_set-put_self (normalize_name d.name) (normalize_name c.name) m
          (ap (λ x. normalize_name x.name) (sym here)))
    | inr later ↦ keep_names_new cs (put (normalize_name d.name) true m) later
  ]

  -- A row that a candidate matches has the candidate's base name.
  matches-normalize :
      (c : Candidate fl.F) (s : Series fl.F)
      → matches c s ≡ true
      → normalize_name s.name ≡ normalize_name c.name
  unfolding matches
  matches-normalize c s h = elim (Bool-cases c.exact) [
    | inl e ↦ ap normalize_name ((eqb_iff s.name c.name).0 (rw (e, matches) at h))
    | inr e ↦ (eqb_iff _ _).0 (rw (e, matches) at h)
  ]

  pub keeps_role :
      (r : Resolver) (role : Role) {c : Candidate fl.F}
      → Memᴰ c (candidates fl r role)
      → is_set (normalize_name c.name) (candidate_names fl r) ≡ true
  unfolding candidate_names
  keeps_role r cpu m =
      keep_names_old (candidates fl r memory) _ _ (keep_names_new (candidates fl r cpu) [] m)
  keeps_role r memory m = keep_names_new (candidates fl r memory) _ m

  All-of_mem :
      (P : Candidate fl.F → Type 0) (cs : List (Candidate fl.F))
      → ((c : Candidate fl.F) → Memᴰ c cs → P c)
      → All P cs
  All-of_mem P [] h = tt
  All-of_mem P (c ∷ cs) h = (h c (Memᴰ.head refl), All-of_mem P cs (λ d m. h d (Memᴰ.tail m)))

  -- For either role, `Select` gives the same result on an exposition and on the part of it that the
  -- filter of `CandidateNames` lets through.
  pub select-filter :
      (r : Resolver) (role : Role) (all : List (Series fl.F))
      → select fl r role (filter (λ s. is_set (normalize_name s.name) (candidate_names fl r)) all)
        ≡ select fl r role all
  unfolding select
  select-filter r role all =
      select_from-kept (keeps (candidate_names fl r)) role (candidates fl r role)
        (All-of_mem _ (candidates fl r role) (λ c m s hit.
          ap (λ n. is_set n (candidate_names fl r)) (matches-normalize c s hit)
          ∙ keeps_role r role m))
        all
