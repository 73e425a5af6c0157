-- ===== src/Tests/ConfigTests.antt =====
-- One run of each theorem on the container and on the watched resources.
use dr.Base.{
  ◌⊎◌, ◌≢◌, Result, List, ok, ◌↔◌, length, false, ◌≡◌, refl, none, some, [], ◌∷◌, String, Option,
  Any,
}
use dr.Base.Dict.{lookup}
use dr.Api.{DrFilterConfig, ObjectKey, PairClusterSettings, GroupVersionResource}
use dr.Collector.{ApiResource, ApiResourceList, GroupVersion}
use dr.Collector.WatchLaws.{IsWatched}
use dr.Collector.Start.{start_list_watch, InformerCall}
use dr.Collector.StartLaws.{Handles, start_iff}
use dr.Configs.WatcherLaws.{length-unregister_cm}
use dr.Configs.{
  zero_key, ConfigMap, dr_filter_key_name, ConfigMapEvent, added, updated, deleted, handle_all,
  unregister_cm, without, key_eq, DrConfig, init_config_container,
  update_filter_config_to_container, update_cluster_config_to_container, reg_filter_config_listener,
  reg_cluster_config_listener, update_namespace_configed_cluster,
}
use dr.Configs.Promises.{
  filter_config, filter_listener, cluster_config, cluster_listener, namespace_cluster, Reach,
  IsDelivered,
}
use dr.Configs.Watching.{filters_at, configured, readable, filters_at-handle_all}
use dr.Configs.Delivery.{Reach-IsDelivered}
use dr.Tests.Fixtures.{filter_config as sample_config}

abbrev pair_settings : PairClusterSettings
pair_settings = record {
  kube_apiserver_transportor_setting = none;
  http_transportor_setting = some tt;
}

abbrev with_settings : DrConfig
with_settings =
    (update_cluster_config_to_container "east" (some pair_settings) init_config_container).0

abbrev with_pair : DrConfig
with_pair = (update_namespace_configed_cluster "shop" "east" with_settings).0

abbrev with_listener : DrConfig
with_listener = (reg_cluster_config_listener "shop" none with_pair).0

abbrev with_filters : DrConfig
with_filters =
    reg_filter_config_listener "shop" (record { namespace = "shop"; filters = [] }) with_listener

abbrev with_all : DrConfig
with_all = update_filter_config_to_container "shop" (some sample_config) with_filters

five_steps : Reach init_config_container with_all
five_steps =
    Reach.next
      (Reach.next
        (Reach.next
          (Reach.next
            (Reach.next Reach.here
              (cluster_config "east" (some pair_settings) init_config_container))
            (namespace_cluster "shop" "east" with_settings))
          (cluster_listener "shop" none with_pair))
        (filter_listener "shop" (record { namespace = "shop"; filters = [] }) with_listener))
      (filter_config "shop" (some sample_config) with_filters)

Reach-IsDelivered_example : IsDelivered with_all
Reach-IsDelivered_example = Reach-IsDelivered five_steps

abbrev services : ApiResource
services = record { name = "services"; group = ""; version = ""; verbs = "list" ∷ "watch" ∷ [] }

abbrev core : ApiResourceList
core = record { group_version = "v1"; api_resources = services ∷ [] }

abbrev parse_core : String → Option GroupVersion
parse_core s = some (record { group = ""; version = s })

abbrev services_gvr : GroupVersionResource
services_gvr = record { group = ""; version = "v1"; resource = "services" }

abbrev answer_of_core : Unit {0} → List ApiResourceList
answer_of_core u = core ∷ []

abbrev any_client : Unit {0} → Result (Unit {0})
any_client u = ok tt

start_iff_example :
    (calls : List InformerCall) × (start_list_watch
        (ok tt)
        any_client
        any_client
        answer_of_core
        parse_core
      ≡ ok calls)
    × (Handles services_gvr calls ↔ IsWatched parse_core (core ∷ []) services_gvr)
start_iff_example =
    start_iff (ok tt) any_client any_client answer_of_core parse_core tt tt tt refl refl refl
      services_gvr

abbrev shop_key : ObjectKey
shop_key = record { namespace = "shop"; name = "filters" }

abbrev market_key : ObjectKey
market_key = record { namespace = "market"; name = "filters" }

abbrev two_keys : List ObjectKey
two_keys = shop_key ∷ market_key ∷ []

length-unregister_cm_example :
    (length (unregister_cm shop_key two_keys) ≡ 3)
    × ((other : ObjectKey)
        → (Any (λ k. k ≡ other) (unregister_cm shop_key two_keys)
            → ((key_eq shop_key other ≡ false) × Any (λ k. k ≡ other) two_keys)
              ⊎ ((zero_key ≡ other) × (two_keys ≢ [])))
          × (((key_eq shop_key other ≡ false) × Any (λ k. k ≡ other) two_keys)
                ⊎ ((zero_key ≡ other) × (two_keys ≢ []))
              → Any (λ k. k ≡ other) (unregister_cm shop_key two_keys)))
unfolding without
length-unregister_cm_example = length-unregister_cm shop_key two_keys

abbrev shop_map : ConfigMap
shop_map = record { namespace = "shop"; name = "dr"; content = (dr_filter_key_name, "{}") ∷ [] }

abbrev east_map : ConfigMap
east_map = record shop_map { namespace = "east" }

abbrev map_events : List ConfigMapEvent
map_events = added (some east_map) ∷ updated none (some shop_map) ∷ deleted (some shop_map) ∷ []

-- Each text is read as the sample.
abbrev unmarshal : String → Result DrFilterConfig
unmarshal raw = ok sample_config

filters_at-handle_all_example :
    filters_at "shop" (handle_all unmarshal map_events with_filters)
    ≡ configured sample_config (filters_at "shop" with_filters)
unfolding readable lookup
filters_at-handle_all_example = filters_at-handle_all unmarshal "shop" map_events with_filters
