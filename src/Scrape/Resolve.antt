-- ===== src/Scrape/Resolve.antt =====
-- internal/scrape/resolve.go: which exposition metric supplies a role, and which of its rows count.
pub mod Names
pub mod Rounds
pub mod Suffixes
pub mod PodKeys
pub mod Rows
pub mod Covers
pub mod Family
pub mod Winner
pub mod Select
mod Tests
use zensu_monitoring_agent.Prelude.{
  ℕ, zero, suc, ◌+◌, ◌-◌, ◌≡◌, Bool, true, false, not, ◌&&◌, ◌||◌, Option, none, some, List, [],
  ◌∷◌, ◌++◌, Str, codes, eqb, is_empty, if◌then◌else◌, length, ltb,
}
use zensu_monitoring_agent.Prelude.Maps.{Map, get, put, keys}
use zensu_monitoring_agent.Prelude.Sort.{sort}
use zensu_monitoring_agent.Prelude.Int.{pos}
use zensu_monitoring_agent.Prelude.Float.{Float64}
use zensu_monitoring_agent.Scrape.BaseNames.{
  normalize_loop, normalize_name, strip, trim_suffix, unit_suffixes,
}
use zensu_monitoring_agent.Scrape.Labels.{
  container_label, container_label_names, first_label, flag, is_set, namespace_label,
  namespace_label_names, pause_container, pod_key, pod_label, pod_label_names, sorted_keys,
}
use zensu_monitoring_agent.Scrape.Series.{Kind, unsupported, counter, Series, or_empty}

pub data Role : Type 0 where
  cpu memory : Role

unfoldable pub role_string : Role → Str
role_string memory = codes "memory"
role_string cpu = codes "cpu"

pub record Candidate (F : Type 0) : Type 0 where
  pub name : Str
  pub scale : F
  pub exact : Bool

module _ {F : Type 0} where
  unfoldable pub pod_ref : Series F → Option Str
  pod_ref s = pod_key (namespace_label s.labels) (pod_label s.labels)

  unfoldable pub is_pause_row : Series F → Bool
  is_pause_row row = eqb (container_label row.labels) pause_container

  unfoldable pub is_container_row : Series F → Bool
  is_container_row row =
      let name = container_label row.labels in not (is_empty name) && not (eqb name pause_container)

  unfoldable pub is_superseded_rollup : Series F → Map Bool → Map Bool → Bool
  is_superseded_rollup row namespaced pod_only =
      if not (is_empty (container_label row.labels)) then false else elim (pod_ref row) [
        | some key ↦ is_set key namespaced
        | none ↦
            let pod = pod_label row.labels in
            not (is_empty pod) && is_empty (namespace_label row.labels) && is_set pod pod_only
      ]

-- The three sets that the first loop of `summable` fills.
pub record Rollups : Type 0 where
  pub namespaced : Map Bool
  pub pod_only : Map Bool
  pub mixed_shape : Map Bool

-- The variables of its second loop.
pub record Kept (F : Type 0) : Type 0 where
  pub out : List (Series F)
  pub ambiguous : Map Bool

module _ {F : Type 0} where
  unfoldable pub mark_row : Series F → Rollups → Rollups
  mark_row row r =
      if not (is_container_row row)
      then r
      else let pod = pod_label row.labels in
        elim (pod_ref row) [
          | some key ↦ record {
            namespaced = put key true r.namespaced;
            pod_only = put pod true r.pod_only;
            mixed_shape = put pod true r.mixed_shape;
          }
          | none ↦
              if not (is_empty pod) && is_empty (namespace_label row.labels)
              then record r { pod_only = put pod true r.pod_only }
              else r
        ]

  unfoldable pub mark_rows : List (Series F) → Rollups → Rollups
  mark_rows [] r = r
  mark_rows (row ∷ rows) r = mark_rows rows (mark_row row r)

  unfoldable pub keep_row : Rollups → Series F → Kept F → Kept F
  keep_row r row k =
      if is_pause_row row
      then k
      else if is_superseded_rollup row r.namespaced r.pod_only
      then (let pod = pod_label row.labels in
          if is_empty (namespace_label row.labels) && is_set pod r.mixed_shape
          then record k { ambiguous = put pod true k.ambiguous }
          else k)
      else record k { out = k.out ++ row ∷ [] }

  unfoldable pub keep_rows : Rollups → List (Series F) → Kept F → Kept F
  keep_rows r [] k = k
  keep_rows r (row ∷ rows) k = keep_rows r rows (keep_row r row k)

  unfoldable pub summable : List (Series F) → List (Series F) × ℕ × List Str
  summable rows =
      let r = mark_rows rows (record { namespaced = []; pod_only = []; mixed_shape = [] }) in
      let k = keep_rows r rows (record { out = []; ambiguous = [] }) in
      (k.out, length rows - length k.out, sorted_keys k.ambiguous)

  -- `continue` in the loop of `matchFamily` that looks for the winner
  unfoldable pub matches : Candidate F → Series F → Bool
  matches candidate s =
      if candidate.exact
      then eqb s.name candidate.name
      else eqb (normalize_name s.name) (normalize_name candidate.name)

  unfoldable pub find_winner : Candidate F → List (Series F) → Str → Str
  find_winner candidate [] winner = winner
  find_winner candidate (s ∷ rest) winner =
      let skipped = find_winner candidate rest winner in
      let later = find_winner candidate rest (if is_empty winner then s.name else winner) in
      if not (matches candidate s)
      then skipped
      else if eqb s.name candidate.name
      then s.name
      else later

  -- The second loop: the winner's rows, and the kind of the last of them.
  unfoldable pub collect : Str → List (Series F) → List (Series F) × Kind → List (Series F) × Kind
  collect winner [] acc = acc
  collect winner (s ∷ rest) (matched, kind) =
      collect winner rest
        (if not (eqb s.name winner) then (matched, kind) else (matched ++ s ∷ [], s.kind))

  -- A false `ok` is `none`.
  unfoldable pub match_family : Candidate F → List (Series F) → Option (List (Series F) × Kind)
  match_family candidate all =
      let winner = find_winner candidate all [] in
      if is_empty winner
      then none
      else let (matched, kind) = collect winner all ([], unsupported) in
        if ltb 0 (length matched) then some (matched, kind) else none

pub record Selection (F : Type 0) : Type 0 where
  pub candidate : Candidate F
  pub role : Role
  pub kind : Kind
  pub series : List (Series F)
  pub excluded : ℕ
  pub ambiguous : List Str

unfoldable pub rateable : {F : Type 0} → Selection F → Bool
rateable s = elim s.kind [ counter ↦ elim s.role [ cpu ↦ true | memory ↦ false ] | _ ↦ false ]

pub record Resolver : Type 0 where
  pub cpu_override : Str
  pub memory_override : Str

module _ (fl : Float64) where
  open fl use {F, of_int}

  abbrev pub candidate_of : Str → ℕ → Candidate F
  candidate_of name scale = record { name = name; scale = of_int (pos scale); exact = false }

  unfoldable pub cpu_candidates : List (Candidate F)
  cpu_candidates =
      candidate_of (codes "k8s_pod_cpu_usage") 1000
      ∷ candidate_of (codes "k8s_pod_cpu_time") 1000
      ∷ candidate_of (codes "container_cpu_usage") 1000
      ∷ []

  unfoldable pub memory_candidates : List (Candidate F)
  memory_candidates =
      candidate_of (codes "k8s_pod_memory_working_set") 1
      ∷ candidate_of (codes "container_memory_working_set") 1
      ∷ []

  abbrev pub override_or : Str → ℕ → List (Candidate F) → List (Candidate F)
  override_or override scale defaults =
      if not (is_empty override)
      then record { name = override; scale = of_int (pos scale); exact = true } ∷ []
      else defaults

  -- `defaults[0].Scale` is 1000 for CPU and 1 for memory.
  unfoldable pub candidates : Resolver → Role → List (Candidate F)
  candidates r cpu = override_or r.cpu_override 1000 cpu_candidates
  candidates r memory = override_or r.memory_override 1 memory_candidates

  abbrev pub selection_of : Role → Candidate F → List (Series F) × Kind → Selection F
  selection_of role candidate (matched, kind) =
      let (rows, excluded, ambiguous) = summable matched in
      record {
        candidate = candidate;
        role = role;
        kind = kind;
        series = rows;
        excluded = excluded;
        ambiguous = ambiguous;
      }

  unfoldable pub select_from : Role → List (Candidate F) → List (Series F) → Option (Selection F)
  select_from role [] all = none
  select_from role (c ∷ rest) all = elim (match_family c all) [
    | some found ↦ some (selection_of role c found)
    | none ↦ select_from role rest all
  ]

  unfoldable pub select : Resolver → Role → List (Series F) → Option (Selection F)
  select r role all = select_from role (candidates r role) all

  unfoldable pub keep_names : List (Candidate F) → Map Bool → Map Bool
  keep_names [] keep = keep
  keep_names (c ∷ rest) keep = keep_names rest (put (normalize_name c.name) true keep)

  unfoldable pub candidate_names : Resolver → Map Bool
  candidate_names r = keep_names (candidates r memory) (keep_names (candidates r cpu) [])
