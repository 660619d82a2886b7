-- ===== src/Agent/Index/Justified.antt =====
-- What stands in a slug index comes from the targets.
use zensu_monitoring_agent.Prelude.{
  ◌≡◌, refl, sym, ap, subst, ◌∙◌, true, false, Option, none, some, List, [], ◌∷◌, Str, eqb, eqb_iff,
  is_empty, arith, Memᴰ, Bool-cases, Option-cases, inl, inr,
}
use zensu_monitoring_agent.Prelude.Maps.{Map, get, put, get-put}
use zensu_monitoring_agent.Scrape.Series.{or_empty}
use zensu_monitoring_agent.Scrape.Labels.{pod_key, is_set, flag}
use zensu_monitoring_agent.Agent.Index.{
  ServiceTarget, SlugIndex, add_namespaced, add_by_pod, add_pods, add_targets, new_slug_index,
}
use zensu_monitoring_agent.Agent.Index.Pods.{meet, get-add_by_pod}

-- A target with this slug.
abbrev pub Claims : List ServiceTarget → Str → Type 0
Claims targets slug = (t : ServiceTarget) × Memᴰ t targets × (t.slug ≡ slug)

-- A target with this slug that lists a pod of this key.
abbrev pub Owns : List ServiceTarget → Str → Str → Type 0
Owns targets key slug =
    (t : ServiceTarget) × (name : Str) × Memᴰ t targets
    × Memᴰ name t.pod_names
    × (pod_key t.namespace name ≡ some key)
    × (t.slug ≡ slug)

-- A target with this slug that lists a pod of this name.
abbrev pub Lists : List ServiceTarget → Str → Str → Type 0
Lists targets pod slug =
    (t : ServiceTarget) × Memᴰ t targets × Memᴰ pod t.pod_names × (t.slug ≡ slug)

-- Every entry of the index comes from one of the targets.
pub record IsJustified (targets : List ServiceTarget) (idx : SlugIndex) : Type 0 where
  pub known : (slug : Str) → is_set slug idx.known ≡ true → Claims targets slug
  pub namespaced :
      (key slug : Str) → get key idx.by_namespaced_pod ≡ some slug → Owns targets key slug
  pub named :
      (pod slug : Str)
      → get pod idx.by_pod ≡ some slug
      → is_empty slug ≡ false
      → Lists targets pod slug

meet_slug :
    (o : Option Str) (s slug : Str) → meet o s ≡ some slug → is_empty slug ≡ false → s ≡ slug
meet_slug none s slug e h = cc
meet_slug (some x) s slug e h = elim (Bool-cases (eqb x s)) [
  | inl same ↦ cc (rw same at e)
  | inr other ↦ ground (arith, ap or_empty (rw other at e), ap is_empty {x = []} {y = slug})
]

module _ (targets : List ServiceTarget) (t : ServiceTarget) (listed : Memᴰ t targets) where
  add_namespaced-Owns :
      (name : Str) (m : Map Str)
      → Memᴰ name t.pod_names
      → ((key slug : Str) → get key m ≡ some slug → Owns targets key slug)
      → (key slug : Str) → get key (add_namespaced t name m) ≡ some slug
      → Owns targets key slug
  unfolding add_namespaced
  add_namespaced-Owns name m n old key slug e = elim (Option-cases (pod_key t.namespace name)) [
    | inl no_key ↦ old key slug (rw (no_key, add_namespaced) at e)
    | inr (k, found) ↦
        let e' = sym (get-put k key t.slug m) ∙ (rw (found, add_namespaced) at e) in
        elim (Bool-cases (eqb k key)) [
          | inl same ↦
              (t, name, listed, n, found ∙ ap some ((eqb_iff k key).0 same), cc (rw same at e'))
          | inr other ↦ old key slug (rw other at e')
        ]
  ]

  add_by_pod-Lists :
      (name : Str) (m : Map Str)
      → Memᴰ name t.pod_names
      → ((pod slug : Str) → get pod m ≡ some slug → is_empty slug ≡ false → Lists targets pod slug)
      → (pod slug : Str) → get pod (add_by_pod t name m) ≡ some slug
      → is_empty slug ≡ false
      → Lists targets pod slug
  add_by_pod-Lists name m n old pod slug e full =
      let e' = sym (get-add_by_pod pod name t m) ∙ e in
      elim (Bool-cases (eqb name pod)) [
        | inl same ↦ (
          t,
          listed,
          subst (λ x. Memᴰ x t.pod_names) ((eqb_iff name pod).0 same) n,
          meet_slug (get pod m) t.slug slug (rw same at e') full,
        )
        | inr other ↦ old pod slug (rw other at e') full
      ]

  add_pods-IsJustified :
      (names : List Str) (idx : SlugIndex)
      → ((name : Str) → Memᴰ name names → Memᴰ name t.pod_names)
      → IsJustified targets idx
      → IsJustified targets (add_pods t names idx)
  unfolding add_pods
  add_pods-IsJustified [] idx sub j = j
  add_pods-IsJustified (name ∷ names) idx sub j =
      let here = sub name (Memᴰ.head refl) in
      add_pods-IsJustified names _ (λ x m. sub x (Memᴰ.tail m))
        (record {
          known = j.known;
          namespaced = add_namespaced-Owns name idx.by_namespaced_pod here j.namespaced;
          named = add_by_pod-Lists name idx.by_pod here j.named;
        })

  known-IsJustified :
      (idx : SlugIndex)
      → IsJustified targets idx
      → IsJustified targets (record idx { known = put t.slug true idx.known })
  unfolding is_set
  known-IsJustified idx j = record {
    known = λ slug e. elim (Bool-cases (eqb t.slug slug)) [
      | inl same ↦ (t, listed, (eqb_iff t.slug slug).0 same)
      | inr other ↦ j.known slug (
          ap flag {x = get slug idx.known} (sym (get-put t.slug slug true idx.known ∙ rw other))
          ∙ e)
    ];
    namespaced = j.namespaced;
    named = j.named;
  }

add_targets-IsJustified :
    (targets rest : List ServiceTarget) (idx : SlugIndex)
    → ((t : ServiceTarget) → Memᴰ t rest → Memᴰ t targets)
    → IsJustified targets idx
    → IsJustified targets (add_targets rest idx)
unfolding add_targets
add_targets-IsJustified targets [] idx sub j = j
add_targets-IsJustified targets (t ∷ rest) idx sub j =
    let here = sub t (Memᴰ.head refl) in
    add_targets-IsJustified targets rest _ (λ x m. sub x (Memᴰ.tail m))
      (add_pods-IsJustified targets t here t.pod_names _ (λ x m. m)
        (known-IsJustified targets t here idx j))

pub new_slug_index-IsJustified :
    (targets : List ServiceTarget) → IsJustified targets (new_slug_index targets)
unfolding new_slug_index is_set get
new_slug_index-IsJustified targets =
    add_targets-IsJustified targets targets _ (λ t m. m)
      (record { known = λ slug e. cc; namespaced = λ key slug e. cc; named = λ pod slug e h. cc })
