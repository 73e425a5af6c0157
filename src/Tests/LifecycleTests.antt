-- ===== src/Tests/LifecycleTests.antt =====
-- One run of each theorem on the life of a worker and on what it reports.
use dr.Base.{◌≡◌, ◌==◌, refl, arith, false, none, some, List, [], ◌∷◌, ok, String, inl}
use dr.Base.Dict.{lookup}
use dr.Api.{
  DrNamespace, create, kube_apiserver, http, other_adapter, list_watch, periodic, ObjResource,
}
use dr.Configs.{
  reg_cluster_config_listener, update_namespace_configed_cluster, init_config_container,
}
use dr.Transport.{Transporter, transport_round, object, is_new_version, generate_synced_condition}
use dr.Controller.{
  new_basic_transport_manager, NamespaceState, Worker, new_worker, found, reconcile, run_updates,
  condition_key, conditions_or_empty,
}
use dr.Lifecycle.{BaseWorker, Contexts, new_base_resource_manager, active, deactive}
use dr.Lifecycle.Reporting.{report, report-transport_round}
use dr.Lifecycle.StartLaws.{StartsPanic, reconcile_unknown}
use dr.Lifecycle.BaseLaws.{deactive-active}
use dr.Tests.Fixtures.{docs, config_map}
use dr.Tests.Objects.{components, shop, one_object, one_object-StoresStatus}

abbrev with_odd_adapter : DrNamespace
with_odd_adapter = record shop {
  spec = record shop.spec {
    components = record components { transport_adapter = other_adapter "ftp" };
  };
}

abbrev empty_state : NamespaceState
empty_state = record {
  dr_namespaces = [];
  cancel_funcs = [];
  previous = [];
  workers = record { next_context = 0; running = [] };
  container = init_config_container;
}

reconcile_unknown_example :
    StartsPanic with_odd_adapter empty_state
      (reconcile "shop" (found with_odd_adapter) empty_state).state
unfolding lookup reconcile update_namespace_configed_cluster
reconcile_unknown_example =
    reconcile_unknown with_odd_adapter empty_state refl refl (inl ("ftp", refl)) refl

abbrev base_worker : BaseWorker
base_worker = record {
  namespace = "shop";
  transport_adapter = http;
  collector_type = periodic;
  obj_queue = [];
  active_ctx_cancel = none;
  resource_manager = none;
}

abbrev contexts : Contexts
contexts = record { next = 4; live = 3 ∷ 1 ∷ [] }

abbrev active_worker : BaseWorker
active_worker = record base_worker {
  active_ctx_cancel = some 4;
  resource_manager = some (new_base_resource_manager periodic);
}

abbrev active_contexts : Contexts
active_contexts = record { next = 5; live = 4 ∷ 3 ∷ 1 ∷ [] }

deactive-active_example :
    deactive active_worker active_contexts ≡ ok (record { next = 5; live = 3 ∷ 1 ∷ [] })
unfolding active new_basic_transport_manager reg_cluster_config_listener lookup
deactive-active_example =
    deactive-active base_worker active_worker contexts active_contexts init_config_container
      init_config_container (omega arith, (omega arith, tt)) refl

abbrev accepting : Transporter (List ObjResource)
accepting = record { transport = λ objr taken. (objr ∷ taken, ok tt) }

abbrev sent : ObjResource
sent = config_map "u1" "7" create

abbrev reporter : Worker
reporter = new_worker 0 "dr" "shop" kube_apiserver list_watch "shop"

report-transport_round_example :
    (final : DrNamespace) × (one_object.get "shop" "dr" (
        run_updates one_object
          (report one_object reporter
            (transport_round docs accepting (object sent) [] []).conditions
            shop
            [])
          shop)
      ≡ ok final)
    × (lookup
          (condition_key (generate_synced_condition docs sent))
          (conditions_or_empty final.status)
        ≡ some (generate_synced_condition docs sent))
    × ((k : String)
        → (condition_key (generate_synced_condition docs sent) == k) ≡ false
        → lookup k (conditions_or_empty final.status) ≡ lookup k (conditions_or_empty shop.status))
unfolding is_new_version lookup
report-transport_round_example =
    report-transport_round one_object one_object-StoresStatus docs accepting reporter sent [] []
      shop shop refl refl refl
