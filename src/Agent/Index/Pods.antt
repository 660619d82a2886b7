-- ===== src/Agent/Index/Pods.antt =====
-- What the index holds for a pod name alone: the slug of the services that list it, if there is one.
use zensu_monitoring_agent.Prelude.{
  ◌≡◌, ◌↔◌, ◌≢◌, refl, sym, ap, ◌∙◌, false, not, Option, none, some, List, [], ◌∷◌, ◌++◌, Str, eqb,
  eqb_iff, eqb_refl, eqb_ne, is_empty, if◌then◌else◌, All, arith, Bool-cases, inl, inr,
}
use zensu_monitoring_agent.Prelude.Maps.{Map, get, get-put}
use zensu_monitoring_agent.Scrape.Series.{or_empty}
use zensu_monitoring_agent.Agent.Index.{
  ServiceTarget, SlugIndex, add_by_pod, add_pods, add_targets, new_slug_index,
}

-- The slug of `t`, once for each time that `pod` is among the names.
abbrev listings : Str → ServiceTarget → List Str → List Str
listings pod t [] = []
listings pod t (name ∷ names) =
    if eqb name pod then t.slug ∷ listings pod t names else listings pod t names

-- The slugs of the targets that list the pod name, in order.
abbrev pub owners : Str → List ServiceTarget → List Str
owners pod [] = []
owners pod (t ∷ targets) = listings pod t t.pod_names ++ owners pod targets

-- The entry for a pod name after one more owner.
abbrev pub meet : Option Str → Str → Option Str
meet none s = some s
meet (some e) s = if not (eqb e s) then some [] else some s

abbrev meets : Option Str → List Str → Option Str
meets o [] = o
meets o (s ∷ ss) = meets (meet o s) ss

meets-append :
    (o : Option Str) (ss rest : List Str) → meets o (ss ++ rest) ≡ meets (meets o ss) rest
meets-append o [] rest = refl
meets-append o (s ∷ ss) rest = meets-append (meet o s) ss rest

pub get-add_by_pod :
    (pod name : Str) (t : ServiceTarget) (m : Map Str)
    → get pod (add_by_pod t name m) ≡ (if eqb name pod then meet (get pod m) t.slug else get pod m)
unfolding add_by_pod
get-add_by_pod pod name t m = elim (Bool-cases (eqb name pod)) [
  | inl same ↦
      rw ((eqb_iff name pod).0 same)
        (ground (arith, get-put pod pod [] m, get-put pod pod t.slug m, eqb_refl pod))
  | inr other ↦ ground (arith, get-put name pod [] m, get-put name pod t.slug m)
]

get-add_pods :
    (pod : Str) (t : ServiceTarget) (names : List Str) (idx : SlugIndex)
    → get pod (add_pods t names idx).by_pod ≡ meets (get pod idx.by_pod) (listings pod t names)
unfolding add_pods
get-add_pods pod t [] idx = refl
get-add_pods pod t (name ∷ names) idx = elim (Bool-cases (eqb name pod)) [
  | inl same ↦ rw same (
      get-add_pods pod t names _
      ∙ ap (λ o. meets o (listings pod t names)) (get-add_by_pod pod name t idx.by_pod ∙ rw same))
  | inr other ↦ rw other (
      get-add_pods pod t names _
      ∙ ap (λ o. meets o (listings pod t names)) (get-add_by_pod pod name t idx.by_pod ∙ rw other))
]

get-add_targets :
    (pod : Str) (targets : List ServiceTarget) (idx : SlugIndex)
    → get pod (add_targets targets idx).by_pod ≡ meets (get pod idx.by_pod) (owners pod targets)
unfolding add_targets
get-add_targets pod [] idx = refl
get-add_targets pod (t ∷ targets) idx =
    get-add_targets pod targets _
    ∙ ap (λ o. meets o (owners pod targets)) (get-add_pods pod t t.pod_names _)
    ∙ sym (meets-append (get pod idx.by_pod) (listings pod t t.pod_names) (owners pod targets))

-- Every slug of the list is not empty.
abbrev pub Slugs : List Str → Type 0
Slugs = All (λ s. is_empty s ≡ false)

-- Once two owners differ, the entry stays without a slug.
meets_ambiguous : (ss : List Str) → Slugs ss → meets (some []) ss ≡ some []
meets_ambiguous [] h = refl
meets_ambiguous (s ∷ ss) h = rw (nil_other s h.0) (meets_ambiguous ss h.1)
  where
    nil_other : (s : Str) → is_empty s ≡ false → eqb [] s ≡ false
    nil_other s h = ground (arith, eqb_iff [] s, ap is_empty {x = []} {y = s})

meets-some :
    (e slug : Str) (ss : List Str)
    → Slugs ss
    → is_empty slug ≡ false
    → (meets (some e) ss ≡ some slug) ↔ ((e ≡ slug) × All (λ s. s ≡ slug) ss)
meets-some e slug [] h n = ((λ p. (cc, tt)), (λ p. cc))
meets-some e slug (s ∷ ss) h n = elim (Bool-cases (eqb e s)) [
  | inl same ↦
      let (to, from) = meets-some s slug ss h.1 n in
      rw same ((λ p. ((eqb_iff e s).0 same ∙ (to p).0, to p)), (λ q. from q.1))
  | inr other ↦
      rw (other, meets_ambiguous ss h.1)
        ((λ p. ground (arith, ap or_empty p)), (λ q. absurd (eqb_ne e s other (q.0 ∙ sym q.1.0))))
]

meets_iff :
    (slug : Str) (ss : List Str)
    → Slugs ss
    → is_empty slug ≡ false
    → (meets none ss ≡ some slug) ↔ ((ss ≢ []) × All (λ s. s ≡ slug) ss)
meets_iff slug [] h n = ((λ p. cc), (λ q. absurd (q.0 refl)))
meets_iff slug (s ∷ ss) h n =
    let (to, from) = meets-some s slug ss h.1 n in ((λ p. ((λ nil. cc), to p)), (λ q. from q.1))

-- The pod's entry is a slug exactly when some target lists the pod and all that do have that slug.
pub owners_iff :
    (pod slug : Str) (targets : List ServiceTarget)
    → Slugs (owners pod targets)
    → is_empty slug ≡ false
    → (get pod (new_slug_index targets).by_pod ≡ some slug)
      ↔ ((owners pod targets ≢ []) × All (λ s. s ≡ slug) (owners pod targets))
unfolding new_slug_index get
owners_iff pod slug targets h n =
    rw (get-add_targets pod targets (record { known = []; by_namespaced_pod = []; by_pod = [] }))
      (meets_iff slug (owners pod targets) h n)
