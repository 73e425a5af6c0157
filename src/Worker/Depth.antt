-- ===== src/Worker/Depth.antt =====
-- How deep dependencies go.
use dr.Base.{
  ◌≡◌, refl, sym, String, true, false, List, [], ◌∷◌, map, none, some, ok, Result, Result-cases,
  Bool-cases, inl, inr, All, All-append, last_or, All-map, Bool, ◌==◌,
}
use mathlib.Core.Path.{subst}
use dr.Api.{
  UnstructuredApi, GroupVersionResource, Fields, Items, nil, cons, ObjResource, gvr_eq,
  persistent_volume_gvr, persistent_volume_claim_gvr, stateful_set_gvr, gvk_to_gvr, pod_gvr,
}
use dr.Filter.{Filter}
use dr.Worker.Checkers.{
  ClusterReader, check_if, get_dependencies, claims_of, claims_of_pods,
  check_pod_volumes_dependency, volume_claim, share_content, pvc_dependency_check,
  stateful_set_dependency_check, sift_pods_for_stateful_set,
}
use dr.Worker.Rounds.{filter}
use dr.Worker.Errand.{filter-SameErrand}
use dr.Worker.Dependencies.{claim_gvr_differs, set_gvr_differs}

module _ (u : UnstructuredApi) (client : ClusterReader) where
  abbrev IsClaim : Fields → Type 0
  IsClaim m = (u.group_version_kind m).kind ≡ "PersistentVolumeClaim"

  -- A read of a claim gives a claim.
  abbrev pub ReadsClaims : Type 0
  ReadsClaims =
      (ns name : String) (m : Fields)
      → client.get persistent_volume_claim_gvr ns name ≡ ok m
      → (u.group_version_kind m).kind ≡ "PersistentVolumeClaim"

  -- No checker looks at such a resource.
  abbrev IsUnchecked : GroupVersionResource → Type 0
  IsUnchecked gvr =
      (gvr_eq gvr persistent_volume_claim_gvr ≡ false) × (gvr_eq gvr stateful_set_gvr ≡ false)

  unchecked_alone : (o : ObjResource) → IsUnchecked o.gvr → get_dependencies u client o ≡ ok []
  unfolding get_dependencies
  unchecked_alone o (claim, set) = rw (claim, set) refl

  ok_is : {A : Type 0} {a b : A} → ok a ≡ ok b → a ≡ b
  ok_is e = cc e

  module _ (reads : ReadsClaims) where
    claims_of-IsClaim :
        (ns : String) (vs : Items) (cs : List Fields)
        → claims_of u client ns vs ≡ ok cs
        → All IsClaim cs
    unfolding claims_of
    claims_of-IsClaim ns nil cs h = subst (All IsClaim) (ok_is h) tt
    claims_of-IsClaim ns (cons v vs) cs h = elim (Result-cases (volume_claim v)) [
      | inr (inl (x, e)) ↦ absurd (cc (rw (e, claims_of) at h))
      | inr (inr e) ↦ absurd (cc (rw (e, claims_of) at h))
      | inl (none, e) ↦ claims_of-IsClaim ns vs cs (rw (e, claims_of) at h)
      | inl (some name, e) ↦ elim (Result-cases (client.get persistent_volume_claim_gvr ns name)) [
        | inr (inl (x, f)) ↦ absurd (cc (rw (e, claims_of, f) at h))
        | inr (inr f) ↦ absurd (cc (rw (e, claims_of, f) at h))
        | inl (claim, f) ↦ elim (Result-cases (claims_of u client ns vs)) [
          | inr (inl (x, g)) ↦ absurd (cc (rw (e, claims_of, f, g) at h))
          | inr (inr g) ↦ absurd (cc (rw (e, claims_of, f, g) at h))
          | inl (rest, g) ↦
              subst (All IsClaim) (ok_is (rw (e, claims_of, f, g) at h))
                (reads ns name claim f, claims_of-IsClaim ns vs rest g)
        ]
      ]
    ]

    pod-IsClaim :
        (pod : Fields) (cs : List Fields)
        → check_pod_volumes_dependency u client pod ≡ ok cs
        → All IsClaim cs
    unfolding check_pod_volumes_dependency
    pod-IsClaim pod cs h = elim (Result-cases (u.nested_slice pod ("spec" ∷ "volumes" ∷ []))) [
      | inr (inl (x, e)) ↦ absurd (cc (rw (e, check_pod_volumes_dependency) at h))
      | inr (inr e) ↦ absurd (cc (rw (e, check_pod_volumes_dependency) at h))
      | inl (none, e) ↦ subst (All IsClaim) (ok_is (rw (e, check_pod_volumes_dependency) at h)) tt
      | inl (some vs, e) ↦
          claims_of-IsClaim (u.get_namespace pod) vs cs (rw (e, check_pod_volumes_dependency) at h)
    ]

    claims_of_pods-IsClaim :
        (pods cs : List Fields) → claims_of_pods u client pods ≡ ok cs → All IsClaim cs
    unfolding claims_of_pods
    claims_of_pods-IsClaim [] cs h = subst (All IsClaim) (ok_is h) tt
    claims_of_pods-IsClaim (pod ∷ pods) cs h =
        elim (Result-cases (check_pod_volumes_dependency u client pod)) [
          | inr (inl (x, e)) ↦ absurd (cc (rw (e, claims_of_pods) at h))
          | inr (inr e) ↦ absurd (cc (rw (e, claims_of_pods) at h))
          | inl (here, e) ↦ elim (Result-cases (claims_of_pods u client pods)) [
            | inr (inl (x, f)) ↦ absurd (cc (rw (e, claims_of_pods, f) at h))
            | inr (inr f) ↦ absurd (cc (rw (e, claims_of_pods, f) at h))
            | inl (later, f) ↦ subst (All IsClaim) (ok_is (rw (e, claims_of_pods, f) at h)) (
                All-append IsClaim here later (pod-IsClaim pod here e)
                  (claims_of_pods-IsClaim pods later f))
          ]
        ]

    abbrev Unchecked : ObjResource → Type 0
    Unchecked d = IsUnchecked d.gvr

    map-Unchecked :
        (objr : ObjResource) (all cs : List Fields)
        → All IsClaim cs
        → All Unchecked (
            map
              (λ content. record {
                unstructured = last_or content all;
                gvr = gvk_to_gvr (u.group_version_kind content);
                namespaced = true;
                action = objr.action;
              })
              cs)
    map-Unchecked objr all [] h = tt
    map-Unchecked objr all (c ∷ cs) (k, h) = (
      (
        claim_gvr_differs u (u.group_version_kind c) k,
        set_gvr_differs u (u.group_version_kind c) k,
      ),
      map-Unchecked objr all cs h,
    )

    set-Unchecked :
        (objr : ObjResource) (ds : List ObjResource)
        → stateful_set_dependency_check u client objr ≡ ok ds
        → All Unchecked ds
    unfolding stateful_set_dependency_check share_content
    set-Unchecked objr ds h = elim (Result-cases (client.list pod_gvr)) [
      | inr (inl (x, e)) ↦ absurd (cc (rw (e, stateful_set_dependency_check) at h))
      | inr (inr e) ↦ absurd (cc (rw (e, stateful_set_dependency_check) at h))
      | inl (pods, e) ↦
          elim (Result-cases
            (sift_pods_for_stateful_set u client pods (u.get_uid objr.unstructured))) [
              | inr (inl (x, f)) ↦ absurd (cc (rw (e, stateful_set_dependency_check, f) at h))
              | inr (inr f) ↦ absurd (cc (rw (e, stateful_set_dependency_check, f) at h))
              | inl (owned, f) ↦ elim (Result-cases (claims_of_pods u client owned)) [
                | inr (inl (x, g)) ↦ absurd (cc (rw (e, stateful_set_dependency_check, f, g) at h))
                | inr (inr g) ↦ absurd (cc (rw (e, stateful_set_dependency_check, f, g) at h))
                | inl (claims, g) ↦
                    subst (All Unchecked) (ok_is (rw (e, stateful_set_dependency_check, f, g) at h))
                      (map-Unchecked objr claims claims (claims_of_pods-IsClaim owned claims g))
              ]
            ]
    ]

    volume-Unchecked :
        (objr : ObjResource) (ds : List ObjResource)
        → pvc_dependency_check u client objr ≡ ok ds
        → All Unchecked ds
    unfolding pvc_dependency_check gvr_eq
    volume-Unchecked objr ds h =
        let name = (u.nested_string objr.unstructured ("spec" ∷ "volumeName" ∷ [])).value in
        elim (Bool-cases (name == "")) [
          | inl unbound ↦ subst (All Unchecked) (ok_is (rw (unbound, pvc_dependency_check) at h)) tt
          | inr bound ↦ elim (Result-cases (client.get persistent_volume_gvr "" name)) [
            | inr (inl (x, e)) ↦ absurd (cc (rw (bound, pvc_dependency_check, e) at h))
            | inr (inr e) ↦ absurd (cc (rw (bound, pvc_dependency_check, e) at h))
            | inl (volume, e) ↦
                subst (All Unchecked) (ok_is (rw (bound, pvc_dependency_check, e) at h))
                  ((refl, refl), tt)
          ]
        ]

    check_if-Unchecked :
        (b : Bool) (found : Result (List ObjResource)) (ds : List ObjResource)
        → ((es : List ObjResource) → found ≡ ok es → All Unchecked es)
        → check_if u client b found ≡ ok ds
        → All Unchecked ds
    check_if-Unchecked true found ds all h = all ds h
    check_if-Unchecked false found ds all h = subst (All Unchecked) (ok_is h) tt

    get_dependencies-Unchecked :
        (objr : ObjResource) (ds : List ObjResource)
        → get_dependencies u client objr ≡ ok ds
        → All Unchecked ds
    unfolding get_dependencies
    get_dependencies-Unchecked objr ds h =
        let volumes =
          check_if u client (gvr_eq objr.gvr persistent_volume_claim_gvr)
            (pvc_dependency_check u client objr) in
        let claims =
          check_if u client (gvr_eq objr.gvr stateful_set_gvr)
            (stateful_set_dependency_check u client objr) in
        elim (Result-cases volumes) [
          | inr (inl (x, e)) ↦ absurd (cc (rw (e, get_dependencies) at h))
          | inr (inr e) ↦ absurd (cc (rw (e, get_dependencies) at h))
          | inl (vs, e) ↦ elim (Result-cases claims) [
            | inr (inl (x, f)) ↦ absurd (cc (rw (e, get_dependencies, f) at h))
            | inr (inr f) ↦ absurd (cc (rw (e, get_dependencies, f) at h))
            | inl (cs, f) ↦ subst (All Unchecked) (ok_is (rw (e, get_dependencies, f) at h)) (
                All-append Unchecked vs cs
                  (check_if-Unchecked (gvr_eq objr.gvr persistent_volume_claim_gvr) _ vs
                    (volume-Unchecked objr) e)
                  (check_if-Unchecked (gvr_eq objr.gvr stateful_set_gvr) _ cs (set-Unchecked objr)
                    f))
          ]
        ]

    -- With a cluster that answers a read of a claim with a claim: what the filters make of any
    -- object that is found as a dependency, whatever it is a dependency of, has no dependencies
    -- itself.
    pub get_dependencies_twice :
        (filters : List Filter) (objr : ObjResource) (ds : List ObjResource)
        → get_dependencies u client objr ≡ ok ds
        → All (λ d. get_dependencies u client (filter u filters d).0 ≡ ok []) ds
    get_dependencies_twice filters objr ds h =
        All-map Unchecked _ ds
          (λ d k.
            unchecked_alone (filter u filters d).0
              (subst IsUnchecked (sym (filter-SameErrand u filters d).0) k))
          (get_dependencies-Unchecked objr ds h)
