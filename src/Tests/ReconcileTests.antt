-- ===== src/Tests/ReconcileTests.antt =====
-- One run of each theorem on reconciles one after the other, and on a stored list of namespaces.
use dr.Base.{◌≡◌, refl, false, none, some, List, [], ◌∷◌, map, failure, String}
use dr.Base.Dict.{lookup}
use dr.Api.{DrNamespace, DrCluster, http}
use dr.Configs.{init_config_container}
use dr.Controller.{NamespaceState, found, not_found, reconcile, ClusterClient, reconcile_cluster}
use dr.Controller.Reconciles.{Converged, reconcile-Converged}
use dr.Controller.Running.{Reconciles, RunsOnce, Reconciles-RunsOnce}
use dr.Controller.StoredNamespaces.{put_object, StoresNamespaces}
use dr.Controller.ClusterDeletion.{inactive, view-reconcile_cluster_deleted}
use dr.Controller.ClusterRefinement.{view-reconcile_cluster}
use dr.Controller.ClusterBlocks.{wanted}
use dr.Tests.Objects.{components, shop, running, west}

abbrev no_worker : NamespaceState
no_worker = record {
  dr_namespaces = [];
  cancel_funcs = [];
  previous = [];
  workers = record { next_context = 0; running = [] };
  container = init_config_container;
}

abbrev after_start : NamespaceState
after_start = (reconcile "shop" (found shop) no_worker).state

-- The object is seen, its worker is started, and then it is gone.
two-Reconciles :
    Reconciles no_worker (reconcile "shop" (not_found (failure "gone")) after_start).state
two-Reconciles =
    Reconciles.reconciled (Reconciles.reconciled Reconciles.here "shop" (found shop) (λ e. refl))
      "shop" (not_found (failure "gone")) tt

lookup_nothing : (m : String) → lookup m no_worker.cancel_funcs ≡ none
unfolding lookup
lookup_nothing m = refl

Reconciles-RunsOnce_example :
    RunsOnce "shop" (reconcile "shop" (not_found (failure "gone")) after_start).state
Reconciles-RunsOnce_example = Reconciles-RunsOnce "shop" refl lookup_nothing two-Reconciles

reconcile-Converged_example : Converged shop (reconcile "shop" (found shop) running)
unfolding lookup reconcile
reconcile-Converged_example = reconcile-Converged shop running (λ e. refl) refl

-- A server that stores a list of namespaces.
abbrev stored : ClusterClient (List DrNamespace)
stored = record {
  list = λ s. found s;
  update = λ n s. (put_object n s, none);
  delete = λ n s. (s, none);
  update_status = λ c s. (s, none);
}

stored-StoresNamespaces : StoresNamespaces stored (λ s. s)
stored-StoresNamespaces = record {
  listed = λ s. refl;
  updated = λ n s e. refl;
  status_apart = λ c s. refl;
}

abbrev market : DrNamespace
market = record shop { namespace = "market" }

abbrev east_off : DrCluster
east_off = record west {
  name = "east";
  spec = record west.spec {
    components = record components { transport_adapter = http; active = false };
  };
}

view-reconcile_cluster_example :
    ((reconcile_cluster stored (found east_off) init_config_container (shop ∷ market ∷ [])).remote
      ≡ map (wanted east_off) (shop ∷ market ∷ []))
    × (lookup "east"
          (reconcile_cluster stored
            (found east_off)
            init_config_container
            (shop ∷ market ∷ [])).container.cluster_configs
        ≡ some east_off.spec.pair_cluster_settings)
unfolding reconcile_cluster
view-reconcile_cluster_example =
    view-reconcile_cluster stored (λ s. s) stored-StoresNamespaces east_off init_config_container
      (shop ∷ market ∷ []) ((refl, tt), (tt, tt)) refl

abbrev unnamed : DrNamespace → DrNamespace
unnamed n = record n { cluster_name = "" }

view-reconcile_cluster_deleted_example :
    (reconcile_cluster stored
      (not_found (failure "gone"))
      init_config_container
      (unnamed shop ∷ unnamed market ∷ [])).remote
    ≡ inactive (unnamed shop) ∷ inactive (unnamed market) ∷ []
unfolding reconcile_cluster
view-reconcile_cluster_deleted_example =
    view-reconcile_cluster_deleted stored (λ s. s) stored-StoresNamespaces (failure "gone")
      init_config_container (unnamed shop ∷ unnamed market ∷ []) ((refl, tt), (tt, tt))
      (refl, (refl, tt)) refl
