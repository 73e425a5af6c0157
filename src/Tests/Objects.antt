-- ===== src/Tests/Objects.antt =====
-- Sample custom resources, a server of one of them, and a state of the reconciler.
use dr.Base.{refl, true, false, none, [], ◌∷◌, String, ok}
use dr.Api.{
  DrNamespace, DrNamespaceStatus, DrComponents, DrCluster, kube_apiserver, list_watch,
  SyncedCondition,
}
use dr.Configs.{init_config_container}
use dr.Controller.{StatusClient, new_worker, NamespaceState}
use dr.Controller.StatusLaws.{StoresStatus}
use dr.Tests.Fixtures.{config_map_kind, filter_config}

abbrev pub components : DrComponents
components = record {
  role = "master";
  active = true;
  transport_adapter = kube_apiserver;
  collector_type = list_watch;
}

abbrev pub status : DrNamespaceStatus
status = record {
  components = components;
  dr_pair_cluster_name = "east";
  dr_filter_config = filter_config;
  synced_conditions = none;
}

abbrev pub shop : DrNamespace
shop = record {
  namespace = "shop";
  name = "dr";
  cluster_name = "east";
  spec = record {
    components = components;
    dr_pair_cluster_name = "east";
    dr_filter_config = filter_config;
  };
  status = status;
}

-- A server with one object.
abbrev pub one_object : StatusClient DrNamespace
one_object = record { get = λ ns name s. ok s; update_status = λ inst s. (inst, none) }

pub one_object-StoresStatus : StoresStatus one_object
one_object-StoresStatus = record { stored = λ s ns name inst st e. refl }

abbrev pub condition_of : String → String → SyncedCondition
condition_of ns name = record {
  group_version_kind_object = record {
    gvk = config_map_kind;
    object_key = record { namespace = ns; name = name };
  };
  last_synced_resource_version = "7";
  last_synced_status = "success";
}

-- A worker with context 0 runs for the namespace.
abbrev pub running : NamespaceState
running = record {
  dr_namespaces = ("shop", 0) ∷ [];
  cancel_funcs = ("shop", 0) ∷ [];
  previous = ("shop", shop) ∷ [];
  workers = record {
    next_context = 1;
    running = new_worker 0 "dr" "shop" kube_apiserver list_watch "shop" ∷ [];
  };
  container = init_config_container;
}

abbrev pub stale : DrNamespace
stale = record shop { status = record status { components = record components { active = false } } }

abbrev pub west : DrCluster
west = record {
  name = "west";
  cluster_name = "";
  spec = record {
    components = components;
    pair_cluster_settings = record {
      kube_apiserver_transportor_setting = none;
      http_transportor_setting = none;
    };
  };
  status = record { components = components; last_success_synced = ""; cluster_conditions = [] };
}
