-- ===== src/Configs/Promises.antt =====
-- What the container promises its listeners, over any sequence of its operations.
use dr.Base.{◌≡◌, String, List, [], ◌∷◌, Option, none, some}
use dr.Base.Dict.{lookup, NodupKeys}
use dr.Api.{DrFilterConfig, PairClusterSettings}
use dr.Filter.{
  FilterAggregation, build_filters, Filter, white_list_filter, pvc_filter, no_filter_config,
}
use dr.Configs.Container.{
  DrConfig, update_filter_config_to_container, kept, reg_filter_config_listener,
  update_namespace_configed_cluster, reg_cluster_config_listener,
  update_cluster_config_to_container,
}

-- The operations on the container.
pub data Step : DrConfig → DrConfig → Type 0 where
  filter_config :
      (ns : String) (c : Option DrFilterConfig) (drc : DrConfig)
      → Step drc (update_filter_config_to_container ns c drc)
  filter_listener :
      (ns : String) (fa : FilterAggregation) (drc : DrConfig)
      → Step drc (reg_filter_config_listener ns fa drc)
  cluster_config :
      (cluster : String) (c : Option PairClusterSettings) (drc : DrConfig)
      → Step drc (update_cluster_config_to_container cluster c drc).0
  cluster_listener :
      (ns : String) (s : Option PairClusterSettings) (drc : DrConfig)
      → Step drc (reg_cluster_config_listener ns s drc).0
  namespace_cluster :
      (ns cluster : String) (drc : DrConfig)
      → Step drc (update_namespace_configed_cluster ns cluster drc).0

pub data Reach (drc : DrConfig) : DrConfig → Type 0 where
  here : Reach drc drc
  next : {a b : DrConfig} → Reach drc a → Step a b → Reach drc b

-- The filters for a configuration that getFilters has completed, or for none.
abbrev pub filters_for : Option DrFilterConfig → List Filter
filters_for none = white_list_filter no_filter_config ∷ pvc_filter ∷ []
filters_for (some c) = build_filters c

-- Every registered filter aggregation has the filters for the configuration that is kept.
abbrev pub FiltersDelivered : DrConfig → Type 0
FiltersDelivered drc =
    (ns : String) (fa : FilterAggregation)
    → lookup ns drc.filter_config_listeners ≡ some fa
    → fa.filters ≡ filters_for (kept ns drc.filter_configs)

-- Every registered transporter has the settings of the cluster that its namespace is paired with,
-- if those are known.
abbrev pub SettingsDelivered : DrConfig → Type 0
SettingsDelivered drc =
    (ns cluster : String) (c : PairClusterSettings) (s : Option PairClusterSettings)
    → lookup ns drc.cluster_config_listeners ≡ some s
    → lookup ns drc.namespace_configed_cluster ≡ some cluster
    → lookup cluster drc.cluster_configs ≡ some c
    → s ≡ some c

pub record IsDelivered (drc : DrConfig) : Type 0 where
  pub filters : FiltersDelivered drc
  pub settings : SettingsDelivered drc
  pub nodup : NodupKeys drc.namespace_configed_cluster
