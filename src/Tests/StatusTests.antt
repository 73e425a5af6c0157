-- ===== src/Tests/StatusTests.antt =====
-- One run of each theorem on the reconciler and the status updater around one object.
use dr.Base.{◌≡◌, refl, [], ◌∷◌}
use dr.Base.Dict.{lookup}
use dr.Api.{kube_apiserver, list_watch}
use dr.Configs.{init_config_container}
use dr.Controller.{
  NamespaceState, new_worker, found, reconcile, StatusToUpdate, take_condition, run_updates,
  with_condition, condition_key, get_condition_name, update_round, update_condition, update_status,
}
use dr.Lifecycle.StatusLoop.{reconcile_reported}
use dr.Tests.Objects.{shop, stale, status, one_object, one_object-StoresStatus, condition_of}

-- The namespace was seen before, and no worker runs.
abbrev idle : NamespaceState
idle = record {
  dr_namespaces = [];
  cancel_funcs = [];
  previous = ("shop", shop) ∷ [];
  workers = record { next_context = 1; running = [] };
  container = init_config_container;
}

abbrev started_item : StatusToUpdate
started_item = record { namespace = "shop"; name = "dr"; status = status }

reconcile_reported_example :
    (reconcile "shop"
      (found (record stale { status = with_condition (condition_of "shop" "a") stale.status }))
      (reconcile "shop" (found stale) idle).state).state.workers.running
    ≡ new_worker 2 "dr" "shop" kube_apiserver list_watch "shop"
      ∷ new_worker 1 "dr" "shop" kube_apiserver list_watch "shop"
      ∷ []
unfolding reconcile lookup run_updates update_round take_condition update_condition update_status
    with_condition condition_key get_condition_name
reconcile_reported_example =
    reconcile_reported stale idle one_object one_object-StoresStatus stale (condition_of "shop" "a")
      started_item (record stale { status = with_condition (condition_of "shop" "a") stale.status })
      refl refl refl refl refl refl refl refl
