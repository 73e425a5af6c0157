-- ===== src/Worker/Dependencies.antt =====
-- What the worker makes of the objects that an object depends on.
use dr.Base.{
  ◌≡◌, refl, ap, arith, String, true, false, List, [], ◌∷◌, map, some, ok, inl, inr, ◌⊎◌, eq_iff,
  eq_refl, Any, last_or, length, replicate,
}
use dr.Base.Dict.{Dict, lookup, lookup-insert}
use dr.Api.{
  UnstructuredApi, GroupVersionKind, Fields, ObjResource, ObjectAction, create, update, delete,
  other_action, gvr_eq, persistent_volume_claim_gvr, stateful_set_gvr, gvk_to_gvr,
}
use dr.Filter.{Filter}
use dr.Transport.{object}
use dr.Worker.Checkers.{ClusterReader, get_dependencies, share_content}
use dr.Worker.Safety.{NeedsDependencies}
use dr.Worker.Rounds.{
  Waited, filter, run_round, act, check_and_hand, get_not_transported_dependencies, await, concerns,
}

map-const {ℓ κ} :
    {A : Type ℓ} {B : Type κ} (b : B) (xs : List A) → map (λ _. b) xs ≡ replicate (length xs) b
map-const b [] = refl
map-const b (x ∷ xs) = ap (λ l. b ∷ l) (map-const b xs)

module _ (u : UnstructuredApi) where
  map-share_content :
      (objr : ObjResource) (c : Fields) (cs xs : List Fields)
      → map
          (λ (d : ObjResource). d.unstructured)
          (map
            (λ content. record {
              unstructured = last_or content (c ∷ cs);
              gvr = gvk_to_gvr (u.group_version_kind content);
              namespaced = true;
              action = objr.action;
            })
            xs)
        ≡ replicate (length xs) (last_or c cs)
  map-share_content objr c cs [] = refl
  map-share_content objr c cs (y ∷ xs) = ap (λ l. last_or c cs ∷ l) (map-share_content objr c cs xs)

  -- The dependencies of a stateful set all have one content, that of the LAST claim found: for
  -- claims `c`, … the worker gets as many objects as there are claims, and no other claim.
  pub share_content_lem :
      (client : ClusterReader) (objr : ObjResource) (c : Fields) (cs : List Fields)
      → map (λ (d : ObjResource). d.unstructured) (share_content u client objr (c ∷ cs))
        ≡ replicate (length (c ∷ cs)) (last_or c cs)
  unfolding share_content
  share_content_lem client objr c cs = map-share_content objr c cs (c ∷ cs)

  abbrev pub claim_kind : String
  claim_kind = "PersistentVolumeClaim"

  pub claim_gvr_differs :
      (k : GroupVersionKind)
      → k.kind ≡ claim_kind
      → gvr_eq (gvk_to_gvr k) persistent_volume_claim_gvr ≡ false
  unfolding gvr_eq gvk_to_gvr
  claim_gvr_differs k e =
      ground
        (arith, eq_iff k.kind "persistentvolumeclaims", eq_iff claim_kind "persistentvolumeclaims")

  pub set_gvr_differs :
      (k : GroupVersionKind) → k.kind ≡ claim_kind → gvr_eq (gvk_to_gvr k) stateful_set_gvr ≡ false
  unfolding gvr_eq gvk_to_gvr
  set_gvr_differs k e =
      ground (arith, eq_iff k.kind "statefulsets", eq_iff claim_kind "statefulsets")

  -- A claim that was found as a dependency of a stateful set has the resource
  -- "PersistentVolumeClaim", which is not the resource of a claim: it is not checked for the
  -- volume that it depends on.
  pub get_dependencies_of_claim :
      (client : ClusterReader) (objr : ObjResource) (content : Fields)
      → (u.group_version_kind content).kind ≡ claim_kind
      → objr.gvr ≡ gvk_to_gvr (u.group_version_kind content)
      → get_dependencies u client objr ≡ ok []
  unfolding get_dependencies
  get_dependencies_of_claim client objr content kind gvr =
      let k = u.group_version_kind content in
      rw (gvr, claim_gvr_differs k kind, set_gvr_differs k kind)

  -- After the dependencies are put back on the queue, each of them is waited for, and what was
  -- waited for before still is.
  pub lookup-await :
      (ds : List ObjResource) (waited : Waited) (uid : String)
      → (Any (λ (d : ObjResource). u.get_uid d.unstructured ≡ uid) ds
          ⊎ (lookup uid waited ≡ some tt))
      → lookup uid (await u ds waited) ≡ some tt
  unfolding await
  lookup-await [] waited uid (inl h) = elim h [ ]
  lookup-await [] waited uid (inr e) = e
  lookup-await (d ∷ ds) waited uid (inl (Any.here e)) =
      lookup-await ds _ uid (inr (rw (lookup-insert, e, eq_refl)))
  lookup-await (d ∷ ds) waited uid (inl (Any.there h)) = lookup-await ds _ uid (inl h)
  lookup-await (d ∷ ds) waited uid (inr e) =
      lookup-await ds _ uid
        (inr (ground (arith, lookup-insert (u.get_uid d.unstructured) uid tt waited)))

  module _ (client : ClusterReader) (namespace : String) (filters : List Filter) where
    act_waits :
        (final d : ObjResource) (ds more : List ObjResource) (versions : Dict String)
        (waited : Waited) (a : ObjectAction)
        → final.action ≡ a
        → NeedsDependencies a
        → get_dependencies u client final ≡ ok more
        → get_not_transported_dependencies u versions more ≡ d ∷ ds
        → act u client namespace filters versions waited final ≡ record {
          dependencies = await u (d ∷ ds) waited;
          queue_adds = final ∷ d ∷ ds;
          transports = [];
          fault = false;
        }
    unfolding act check_and_hand
    act_waits final d ds more versions waited create e needs found left = ground arith
    act_waits final d ds more versions waited update e needs found left = ground arith
    act_waits final d ds more versions waited delete e needs found left = absurd needs
    act_waits final d ds more versions waited (other_action _) e needs found left = absurd needs

    -- A created or updated object of the worker that passed the filters and has dependencies that
    -- were not sent goes back to the queue with exactly those dependencies behind it; nothing is
    -- handed over, and each of them is waited for.
    pub run_round_waits :
        (objr final d : ObjResource) (ds more : List ObjResource) (versions : Dict String)
        (waited : Waited)
        → concerns u client namespace filters waited objr ≡ true
        → filter u filters objr ≡ (final, ok true)
        → NeedsDependencies final.action
        → get_dependencies u client final ≡ ok more
        → get_not_transported_dependencies u versions more ≡ d ∷ ds
        → run_round u client namespace filters (object objr) versions waited ≡ record {
          dependencies = await u (d ∷ ds) waited;
          queue_adds = final ∷ d ∷ ds;
          transports = [];
          fault = false;
        }
    unfolding run_round
    run_round_waits objr final d ds more versions waited ours passed needs found left =
        rw (ours, run_round, ap (λ p. p.1) passed, ap (λ p. p.0) passed)
          (act_waits final d ds more versions waited final.action refl needs found left)
