-- ===== src/Configs/Container.antt =====
-- config_container.go. A listener is a method of one object: UpdateFilterHook of a namespace's
-- filters, or SetConfig of its transporter. So the listeners are those objects, and a call changes
-- the object: for a transporter, its settings. A hook also completes the configuration that it is
-- handed, which is the one that the container keeps. The locks make each operation one step.
use dr.Base.{
  String, ◌==◌, Option, none, some, List, [], ◌∷◌, Error, failure, is_some, if◌then◌else◌,
}
use dr.Base.Dict.{Dict, lookup, insert}
use dr.Api.{DrFilterConfig, PairClusterSettings}
use dr.Filter.{FilterAggregation, get_filters, update_filter_hook}

pub record DrConfig : Type 0 where
  pub cluster_configs : Dict PairClusterSettings
  pub namespace_configed_cluster : Dict String
  pub filter_configs : Dict (Option DrFilterConfig)
  pub cluster_config_listeners : Dict (Option PairClusterSettings)
  pub filter_config_listeners : Dict FilterAggregation

abbrev pub init_config_container : DrConfig
init_config_container = record {
  cluster_configs = [];
  namespace_configed_cluster = [];
  filter_configs = [];
  cluster_config_listeners = [];
  filter_config_listeners = [];
}

-- NotifyFilterListeners, with the configuration that the container keeps at the namespace.
unfoldable pub notify_filter_listeners : String → Option DrFilterConfig → DrConfig → DrConfig
notify_filter_listeners ns config drc = elim (lookup ns drc.filter_config_listeners) [
  | none ↦ drc
  | some fa ↦ record drc {
    filter_config_listeners = insert ns (update_filter_hook config fa) drc.filter_config_listeners;
    filter_configs =
        (if is_some (lookup ns drc.filter_configs)
          then insert ns (get_filters config).0 drc.filter_configs
          else drc.filter_configs);
  }
]

unfoldable pub update_filter_config_to_container :
    String → Option DrFilterConfig → DrConfig → DrConfig
unfolding notify_filter_listeners
update_filter_config_to_container ns config drc =
    notify_filter_listeners ns config
      (record drc { filter_configs = insert ns config drc.filter_configs })

-- A missing configuration is read as nil.
abbrev pub kept : String → Dict (Option DrFilterConfig) → Option DrFilterConfig
kept ns configs = elim (lookup ns configs) [ none ↦ none | some c ↦ c ]

unfoldable pub reg_filter_config_listener : String → FilterAggregation → DrConfig → DrConfig
unfolding notify_filter_listeners
reg_filter_config_listener ns fa drc =
    notify_filter_listeners ns (kept ns drc.filter_configs)
      (record drc { filter_config_listeners = insert ns fa drc.filter_config_listeners })

-- filter.GetFilterAggregation
unfoldable pub get_filter_aggregation : String → DrConfig → DrConfig
unfolding reg_filter_config_listener
get_filter_aggregation ns = reg_filter_config_listener ns (record { namespace = ns; filters = [] })

-- NotifyNamespaceConfigedClusterChange
unfoldable pub notify_namespace_configed_cluster_change :
    String → String → DrConfig → DrConfig × Option Error
notify_namespace_configed_cluster_change ns cluster drc =
    elim (lookup cluster drc.cluster_configs) [
      | none ↦ (drc, some (failure "failed to find ClusterConfig"))
      | some config ↦ elim (lookup ns drc.cluster_config_listeners) [
        | none ↦ (drc, some (failure "failed to find ClusterConfigListener"))
        | some _ ↦ (
          record drc {
            cluster_config_listeners = insert ns (some config) drc.cluster_config_listeners;
          },
          none,
        )
      ]
    ]

unfoldable pub update_namespace_configed_cluster :
    String → String → DrConfig → DrConfig × Option Error
unfolding notify_namespace_configed_cluster_change
update_namespace_configed_cluster ns cluster drc =
    if ns == ""
    then (drc, some (failure "namespace cannot be empty"))
    else if cluster == ""
    then (drc, some (failure "cluster name cannot be empty"))
    else (
      (notify_namespace_configed_cluster_change ns cluster (record drc {
        namespace_configed_cluster = insert ns cluster drc.namespace_configed_cluster;
      })).0,
      none,
    )

-- RegClusterConfigListener, for a transporter with its present settings.
unfoldable pub reg_cluster_config_listener :
    String → Option PairClusterSettings → DrConfig → DrConfig × Option Error
unfolding notify_namespace_configed_cluster_change
reg_cluster_config_listener ns listener drc = elim (lookup ns drc.namespace_configed_cluster) [
  | none ↦ (drc, some (failure "namesapce has not config cluster"))
  | some cluster ↦ (
    (notify_namespace_configed_cluster_change ns cluster (record drc {
      cluster_config_listeners = insert ns listener drc.cluster_config_listeners;
    })).0,
    none,
  )
]

-- The first loop of NotifyClusterConfigChange.
unfoldable pub related_namespaces : String → Dict String → List String
related_namespaces cluster [] = []
related_namespaces cluster ((ns, c) ∷ m) =
    let rest = related_namespaces cluster m in if c == cluster then ns ∷ rest else rest

-- Its second loop.
unfoldable pub deliver :
    PairClusterSettings
    → List String
    → Dict (Option PairClusterSettings)
    → Dict (Option PairClusterSettings)
deliver config [] listeners = listeners
deliver config (ns ∷ nss) listeners =
    deliver config nss
      (if is_some (lookup ns listeners) then insert ns (some config) listeners else listeners)

unfoldable pub notify_cluster_config_change : String → PairClusterSettings → DrConfig → DrConfig
unfolding related_namespaces deliver
notify_cluster_config_change cluster config drc = record drc {
  cluster_config_listeners =
      deliver config (related_namespaces cluster drc.namespace_configed_cluster)
        drc.cluster_config_listeners;
}

unfoldable pub update_cluster_config_to_container :
    String → Option PairClusterSettings → DrConfig → DrConfig × Option Error
unfolding notify_cluster_config_change
update_cluster_config_to_container cluster none drc =
    (drc, some (failure "cluster config cannot be nil"))
update_cluster_config_to_container cluster (some config) drc = (
  notify_cluster_config_change cluster config
      (record drc { cluster_configs = insert cluster config drc.cluster_configs }),
  none,
)
