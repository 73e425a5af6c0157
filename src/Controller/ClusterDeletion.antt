-- ===== src/Controller/ClusterDeletion.antt =====
-- What the deletion of a cluster does to the namespaces.
use dr.Base.{◌≡◌, ◌∙◌, refl, eq_iff, false, none, Error, List, [], ◌∷◌, map, All}
use dr.Api.{DrNamespace}
use dr.Configs.{DrConfig}
use dr.Controller.NamespaceController.{not_found}
use dr.Controller.ClusterController.{
  ClusterClient, deactivate_relative, in_cluster, reconcile_cluster,
}
use dr.Controller.StoredNamespaces.{StoresNamespaces, Apart, KeepsKey, change_if, view-write_each}
use dr.Controller.ClusterBlocks.{nothing_before}

abbrev pub inactive : DrNamespace → DrNamespace
inactive n = record n {
  spec = record n.spec { components = record n.spec.components { active = false } };
}

inactive-KeepsKey : KeepsKey inactive
inactive-KeepsKey = record { same_namespace = λ n. refl; same_name = λ n. refl }

module _ {ℓ} {S : Type ℓ} (client : ClusterClient S) (view : S → List DrNamespace)
    (L : StoresNamespaces client view) where
  map-in_cluster :
      (ns : List DrNamespace)
      → All (λ (n : DrNamespace). n.cluster_name ≡ "") ns
      → map (change_if (in_cluster client "") inactive) ns ≡ map inactive ns
  map-in_cluster [] h = refl
  map-in_cluster (n ∷ ns) (e, h) = rw ((eq_iff n.cluster_name "").1 e, map-in_cluster ns h) refl

  -- With a server that stores the namespaces, no two of them with one key, whose metadata name no
  -- cluster, as is documented of them: a reconcile of a cluster that is gone and that ends without
  -- an error deactivates every namespace, whichever cluster its specification names, and changes
  -- nothing else of them.
  pub view-reconcile_cluster_deleted :
      (e : Error) (drc : DrConfig) (s : S)
      → Apart (view s)
      → All (λ (n : DrNamespace). n.cluster_name ≡ "") (view s)
      → (reconcile_cluster client (not_found e) drc s).error ≡ none
      → view (reconcile_cluster client (not_found e) drc s).remote ≡ map inactive (view s)
  unfolding reconcile_cluster deactivate_relative
  view-reconcile_cluster_deleted e drc s apart unnamed fine =
      rw (L.listed s, deactivate_relative)
        (view-write_each client view L (in_cluster client "") inactive inactive-KeepsKey [] (view s)
            s refl apart (nothing_before (view s)) (rw (L.listed s, deactivate_relative) at fine)
          ∙ map-in_cluster (view s) unnamed)
