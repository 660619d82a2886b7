-- ===== src/Agent/Collect/First.antt =====
-- Which Deployments `Collect` of internal/agent/agent.go reports, out of all that are listed.
use zensu_monitoring_agent.Prelude.{
  ◌≡◌, ◌⊎◌, refl, subst, sym, ap, ◌∙◌, Bool, true, false, not, ◌&&◌, Option, none, some, is_some,
  List, [], ◌∷◌, ◌++◌, append-nil, append_assoc, Str, eqb, eqb_iff, is_empty, if◌then◌else◌, any,
  map, inl, inr, Bool-cases, Option-cases, arith,
}
use zensu_monitoring_agent.Prelude.Maps.{get, has, get-put}
use zensu_monitoring_agent.Agent.Workload.{
  ServiceHeartbeat, Deployment, Pod, map_deployment, deployment_selector,
}
use zensu_monitoring_agent.Agent.Collect.{
  filled, workload, Listing, Config, Gathered, add_workload, gather_one, gather_all, gather,
}
use zensu_monitoring_agent.Agent.Collect.Claims.{Listing-cases}
use zensu_monitoring_agent.Agent.Collect.Listed.{
  Listed, slug_of, first_of, and_then, all_listed, service_of,
}

map_deployment-cases :
    {F : Type 0} (ns : Str) (d : Deployment)
    → ((is_empty (slug_of (ns, d)) ≡ true) × (map_deployment {F = F} d ≡ none))
      ⊎ ((is_empty (slug_of (ns, d)) ≡ false) × (map_deployment {F = F} d ≡ some (service_of d)))
unfolding map_deployment
map_deployment-cases ns d = elim (Bool-cases (is_empty (slug_of (ns, d)))) [
  | inl e ↦ inl (e, rw (map_deployment, e) refl)
  | inr e ↦ inr (e, rw (map_deployment, e) refl)
]

named_apart : (k j : Str) → is_empty k ≡ true → is_empty j ≡ false → eqb k j ≡ false
unfolding eqb
named_apart [] [] e f = cc
named_apart [] (b ∷ j) e f = refl
named_apart (a ∷ k) j e f = cc

module _ {F : Type 0} (list_pods : Str → Str → Listing (List Pod)) (cfg : Config) where
  abbrev pub entry : Listed → ServiceHeartbeat F
  entry (ns, d) =
      let sel = deployment_selector d in filled cfg sel (list_pods ns sel) (service_of d)

  -- The loop of one namespace, over what is listed in all.
  abbrev gather_each : List Listed → Gathered F → Gathered F
  gather_each [] g = g
  gather_each ((ns, d) ∷ ws) g = gather_each ws (gather_one list_pods cfg ns d g)

  gather_each-append :
      (ns : Str) (deps : List Deployment) (ws : List Listed) (g : Gathered F)
      → gather_each (map (λ d. (ns, d)) deps ++ ws) g
        ≡ gather_each ws (gather_all list_pods cfg ns deps g)
  unfolding gather_all
  gather_each-append ns [] ws g = refl
  gather_each-append ns (d ∷ deps) ws g =
      gather_each-append ns deps ws (gather_one list_pods cfg ns d g)

  -- The claimed slugs are those of the Deployments before.
  abbrev AreClaimed : List Listed → Gathered F → Type 0
  AreClaimed before g =
      (k : Str) → is_empty k ≡ false → has k g.claimed ≡ any (λ v. eqb (slug_of v) k) before

  abbrev one_if : Bool → Listed → List (ServiceHeartbeat F)
  one_if b w = if b then entry w ∷ [] else []

  gather_one-first :
      (before : List Listed) (w : Listed) (g : Gathered F)
      → AreClaimed before g
      → AreClaimed (w ∷ before) (gather_one list_pods cfg w.0 w.1 g)
        × ((gather_one list_pods cfg w.0 w.1 g).out
            ≡ g.out
              ++ one_if
                  (not (is_empty (slug_of w))
                    && not (any (λ v. eqb (slug_of v) (slug_of w)) before))
                  w)
  unfolding gather_one add_workload
  gather_one-first before (ns, d) g claimed =
      let slug = slug_of (ns, d) in
      elim (map_deployment-cases {F = F} ns d) [
        | inl (unset, e) ↦
            rw (gather_one, e)
              (
                (λ k named. rw (named_apart slug k unset named) (claimed k named)),
                rw unset (sym (append-nil g.out)),
              )
        | inr (set, e) ↦ elim (Option-cases (get slug g.claimed)) [
          | inr (owner, taken) ↦
              let present = sym (claimed slug set) ∙ ap is_some taken in
              rw (gather_one, e, taken)
                (
                  (λ k named. elim (Bool-cases (eqb slug k)) [
                    | inl same ↦ rw same (
                        ap (λ x. has x g.claimed) (sym ((eqb_iff slug k).0 same))
                        ∙ ap is_some taken)
                    | inr other ↦ rw other (claimed k named)
                  ]),
                  rw (set, present) (sym (append-nil g.out)),
                )
          | inl free ↦
              let absent = sym (claimed slug set) ∙ ap is_some free in
              rw (gather_one, e, free)
                (
                  (λ k named.
                      ground (arith, claimed k named, get-put slug k (workload ns d) g.claimed)),
                  rw (set, absent) refl,
                )
        ]
      ]

  gather_each-first :
      (before ws : List Listed) (g : Gathered F)
      → AreClaimed before g
      → (gather_each ws g).out ≡ g.out ++ map entry (first_of before ws)
  gather_each-first before [] g claimed = sym (append-nil g.out)
  gather_each-first before (w ∷ ws) g claimed =
      let fresh =
        not (is_empty (slug_of w)) && not (any (λ v. eqb (slug_of v) (slug_of w)) before) in
      let (later, out) = gather_one-first before w g claimed in
      gather_each-first (w ∷ before) ws (gather_one list_pods cfg w.0 w.1 g) later
      ∙ ap (λ x. x ++ map entry (first_of (w ∷ before) ws)) out
      ∙ append_assoc g.out (one_if fresh w) _
      ∙ elim (Bool-cases fresh) [ inl e ↦ rw e refl | inr e ↦ rw e refl ]

  -- The loop over the namespaces ends with all that they list, or with an error.
  abbrev pub Ends : Option (List Listed) → Gathered F → Gathered F × Bool → Type 0
  Ends none g r = r.1 ≡ false
  Ends (some ws) g r = r ≡ (gather_each ws g, true)

  and_then-Ends :
      (ns : Str) (deps : List Deployment) (o : Option (List Listed)) (g : Gathered F)
      (r : Gathered F × Bool)
      → Ends o (gather_all list_pods cfg ns deps g) r
      → Ends (and_then ns deps o) g r
  and_then-Ends ns deps none g r h = h
  and_then-Ends ns deps (some ws) g r h =
      h ∙ ap (λ x. (x, true)) (sym (gather_each-append ns deps ws g))

  gather-Ends :
      (list_deployments : Str → Listing (List Deployment)) (namespaces : List Str) (g : Gathered F)
      → Ends
          (all_listed list_deployments namespaces)
          g
          (gather list_pods list_deployments cfg namespaces g)
  unfolding gather
  gather-Ends list_deployments [] g = refl
  gather-Ends list_deployments (ns ∷ more) g = elim (Listing-cases (list_deployments ns)) [
    | inr (e, failed) ↦ rw (gather, all_listed, failed) refl
    | inl (deps, listed) ↦
        let next = gather_all list_pods cfg ns deps g in
        let whole : gather list_pods list_deployments cfg (ns ∷ more) g
            ≡ gather list_pods list_deployments cfg more next =
          rw (gather, listed) refl in
        let all : all_listed list_deployments (ns ∷ more)
            ≡ and_then ns deps (all_listed list_deployments more) =
          rw (all_listed, listed) refl in
        subst (λ r. Ends (all_listed list_deployments (ns ∷ more)) g r) (sym whole)
          (subst (λ o. Ends o g (gather list_pods list_deployments cfg more next)) (sym all)
            (and_then-Ends ns deps (all_listed list_deployments more) g _
              (gather-Ends list_deployments more next)))
  ]

  -- What is reported, from all that the namespaces list: nothing if one of them is not listed.
  abbrev pub first_reported : Option (List Listed) → Option (List (ServiceHeartbeat F))
  first_reported none = none
  first_reported (some ws) = some (map entry (first_of [] ws))

  abbrev pub out_if : Gathered F × Bool → Option (List (ServiceHeartbeat F))
  out_if (g, listed) = if listed then some g.out else none

  Ends-first :
      (o : Option (List Listed)) (g : Gathered F) (r : Gathered F × Bool)
      → g.out ≡ []
      → g.claimed ≡ []
      → Ends o g r
      → out_if r ≡ first_reported o
  unfolding get
  Ends-first none g r fresh free h = rw (out_if, h) refl
  Ends-first (some ws) g r fresh free h =
      ap out_if h
      ∙ ap some (
          gather_each-first [] ws g (λ k named. rw free refl)
          ∙ ap (λ x. x ++ map entry (first_of [] ws)) fresh)

  -- The services that the first phase of `Collect` gathers.
  pub gather-first :
      (list_deployments : Str → Listing (List Deployment)) (namespaces : List Str) (g : Gathered F)
      → g.out ≡ []
      → g.claimed ≡ []
      → out_if (gather list_pods list_deployments cfg namespaces g)
        ≡ first_reported (all_listed list_deployments namespaces)
  gather-first list_deployments namespaces g fresh free =
      Ends-first (all_listed list_deployments namespaces) g _ fresh free
        (gather-Ends list_deployments namespaces g)
