-- ===== src/Agent/Collect/Claims.antt =====
-- One service for each slug, and a bounded latch.
use zensu_monitoring_agent.Prelude.{
  ◌≤◌, ◌≡◌, refl, sym, ap, ◌∙◌, true, false, ◌||◌, ◌⊎◌, none, is_some, List, [], ◌∷◌, ◌++◌, Str,
  eqb, is_empty, any, length, inl, inr, Bool-cases, Option-cases, All, All-append, arith,
}
use zensu_monitoring_agent.Prelude.Maps.{get, has, get-put, length-put}
use zensu_monitoring_agent.Prelude.Sort.{Distinct}
use zensu_monitoring_agent.Prelude.Int.{pos, ltb_ℤ}
use zensu_monitoring_agent.Agent.Index.{ServiceTarget}
use zensu_monitoring_agent.Agent.Workload.{
  ServiceHeartbeat, Deployment, Pod, map_deployment, deployment_selector,
}
use zensu_monitoring_agent.Agent.Collect.{
  Latch, filled, noted, restarted, timed, workload, Listing, listing, list_error, Config, Gathered,
  max_warned_slug_pairs, warn_duplicate_slug, add_workload, gather_one, gather_all, gather,
  slugs_of, target_slugs,
}

pub warned-le :
    (slug reported shadowed : Str) (l : Latch)
    → length l.warned ≤ max_warned_slug_pairs
    → length (warn_duplicate_slug slug reported shadowed l).warned ≤ max_warned_slug_pairs
unfolding warn_duplicate_slug
warned-le slug reported shadowed l h =
    ground (arith, length-put (slug ++ 0x1f ∷ shadowed) true l.warned, h)

slugs-append :
    {F : Type 0} (es : List (ServiceHeartbeat F)) (e : ServiceHeartbeat F)
    → slugs_of (es ++ e ∷ []) ≡ slugs_of es ++ e.slug ∷ []
slugs-append [] e = refl
slugs-append (x ∷ es) e = ap (λ s. x.slug ∷ s) (slugs-append es e)

target_slugs-append :
    (ts : List ServiceTarget) (t : ServiceTarget)
    → target_slugs (ts ++ t ∷ []) ≡ target_slugs ts ++ t.slug ∷ []
target_slugs-append [] t = refl
target_slugs-append (x ∷ ts) t = ap (λ s. x.slug ∷ s) (target_slugs-append ts t)

any-append-one :
    (g k : Str) (ks : List Str)
    → any (λ x. eqb x g) (ks ++ k ∷ []) ≡ (any (λ x. eqb x g) ks || eqb k g)
any-append-one g k [] = ground arith
any-append-one g k (x ∷ ks) = ground (arith, any-append-one g k ks)

absent-All :
    (k : Str) (ks : List Str) → any (λ x. eqb x k) ks ≡ false → All (λ x. eqb x k ≡ false) ks
absent-All k [] h = tt
absent-All k (x ∷ ks) h = (ground (arith, h), absent-All k ks (ground (arith, h)))

Distinct-append :
    (k : Str) (ks : List Str)
    → Distinct ks
    → All (λ x. eqb x k ≡ false) ks
    → Distinct (ks ++ k ∷ [])
Distinct-append k [] d h = (tt, tt)
Distinct-append k (x ∷ ks) d h =
    (All-append (λ y. eqb x y ≡ false) ks (k ∷ []) d.0 (h.0, tt), Distinct-append k ks d.1 h.1)

restarted-slug :
    {F : Type 0} (pods : Listing (List Pod)) (e : ServiceHeartbeat F)
    → (restarted pods e).slug ≡ e.slug
restarted-slug (listing pods) e = refl
restarted-slug (list_error text) e = refl

timed-slug : {F : Type 0} (cfg : Config) (e : ServiceHeartbeat F) → (timed cfg e).slug ≡ e.slug
timed-slug cfg e = elim (Bool-cases (ltb_ℤ (pos 0) cfg.interval)) [
  | inl b ↦ rw b refl
  | inr b ↦ rw b refl
]

filled-slug :
    {F : Type 0} (cfg : Config) (sel : Str) (pods : Listing (List Pod)) (e : ServiceHeartbeat F)
    → (filled cfg sel pods e).slug ≡ e.slug
filled-slug cfg sel pods e = elim (Bool-cases (is_empty sel)) [
  | inl b ↦ rw b (timed-slug cfg e)
  | inr b ↦ rw b (restarted-slug pods (timed cfg e) ∙ timed-slug cfg e)
]

noted-warned :
    (sel : Str) (d : Deployment) (pods : Listing (List Pod)) (l : Latch)
    → (noted sel d pods l).warned ≡ l.warned
noted-warned sel d (listing pods) l = ground arith
noted-warned sel d (list_error e) l = elim (Bool-cases (is_empty sel)) [
  | inl b ↦ rw b refl
  | inr b ↦ rw b refl
]

pub Listing-cases :
    (l : Listing (List Deployment))
    → ((deps : List Deployment) × (l ≡ listing deps)) ⊎ ((e : Str) × (l ≡ list_error e))
Listing-cases (listing deps) = inl (deps, refl)
Listing-cases (list_error e) = inr (e, refl)

module _ {F : Type 0} (list_pods : Str → Str → Listing (List Pod)) where
  -- Each slug is in the batch once and claimed, the targets are those of the batch in the same order, and
  -- the latch holds at most 1024 pairs.
  abbrev pub IsGathered : Gathered F → Type 0
  IsGathered g =
      Distinct (slugs_of g.out)
      × (target_slugs g.targets ≡ slugs_of g.out)
      × ((k : Str) → any (λ x. eqb x k) (slugs_of g.out) ≡ has k g.claimed)
      × (length g.latch.warned ≤ max_warned_slug_pairs)

  add_workload-IsGathered :
      (cfg : Config) (ns : Str) (d : Deployment) (entry : ServiceHeartbeat F) (g : Gathered F)
      → get entry.slug g.claimed ≡ none
      → IsGathered g
      → IsGathered (add_workload list_pods cfg ns d entry g)
  unfolding add_workload
  add_workload-IsGathered cfg ns d entry g free (distinct, same, claimed, bounded) =
      let sel = deployment_selector d in
      let pods = list_pods ns sel in
      let slugs : slugs_of (g.out ++ filled cfg sel pods entry ∷ [])
          ≡ slugs_of g.out ++ entry.slug ∷ [] =
        slugs-append g.out (filled cfg sel pods entry)
        ∙ ap (λ s. slugs_of g.out ++ s ∷ []) (filled-slug cfg sel pods entry) in
      let absent : any (λ x. eqb x entry.slug) (slugs_of g.out) ≡ false =
        claimed entry.slug ∙ ap is_some free in
      (
        rw slugs
            (Distinct-append entry.slug (slugs_of g.out) distinct (absent-All entry.slug _ absent)),
        target_slugs-append g.targets _ ∙ ap (λ s. s ++ entry.slug ∷ []) same ∙ sym slugs,
        λ k.
            rw
              (
                slugs,
                any-append-one k entry.slug (slugs_of g.out),
                claimed k,
                get-put entry.slug k (workload ns d) g.claimed,
              )
              (ground arith),
        rw (noted-warned sel d pods g.latch) bounded,
      )

  gather_one-IsGathered :
      (cfg : Config) (ns : Str) (d : Deployment) (g : Gathered F)
      → IsGathered g
      → IsGathered (gather_one list_pods cfg ns d g)
  unfolding gather_one
  gather_one-IsGathered cfg ns d g h = elim (Option-cases (map_deployment {F = F} d)) [
    | inl e ↦ rw (gather_one, e) h
    | inr (entry, e) ↦ elim (Option-cases (get entry.slug g.claimed)) [
      | inl free ↦ rw (gather_one, e, free) (add_workload-IsGathered cfg ns d entry g free h)
      | inr (owner, taken) ↦
          let (distinct, same, claimed, bounded) = h in
          rw (gather_one, e, taken)
            (distinct, same, claimed, warned-le entry.slug owner (workload ns d) g.latch bounded)
    ]
  ]

  gather_all-IsGathered :
      (cfg : Config) (ns : Str) (deps : List Deployment) (g : Gathered F)
      → IsGathered g
      → IsGathered (gather_all list_pods cfg ns deps g)
  unfolding gather_all
  gather_all-IsGathered cfg ns [] g h = h
  gather_all-IsGathered cfg ns (d ∷ deps) g h =
      gather_all-IsGathered cfg ns deps (gather_one list_pods cfg ns d g)
        (gather_one-IsGathered cfg ns d g h)

  -- Whatever the cluster lists, and whether a listing fails or not, gathering keeps this: each slug is in
  -- the batch once, the slugs of the batch are the claimed ones, the targets have the same slugs in the
  -- same order, and the latch of the duplicate-slug warning holds at most 1024 pairs.
  pub gather-IsGathered :
      (list_deployments : Str → Listing (List Deployment)) (cfg : Config) (namespaces : List Str)
      (g : Gathered F)
      → IsGathered g
      → IsGathered (gather list_pods list_deployments cfg namespaces g).0
  unfolding gather
  gather-IsGathered list_deployments cfg [] g h = h
  gather-IsGathered list_deployments cfg (ns ∷ more) g h =
      elim (Listing-cases (list_deployments ns)) [
        | inr (e, failed) ↦ rw (gather, failed) h
        | inl (deps, listed) ↦
            rw (gather, listed)
              (gather-IsGathered list_deployments cfg more (gather_all list_pods cfg ns deps g)
                (gather_all-IsGathered cfg ns deps g h))
      ]
