-- ===== src/Api/Custom.antt =====
-- drcluster_types.go and drnamespace_types.go, with the metadata that the controllers read.
use dr.Base.Int.{ℤ}
use dr.Base.{String, Bool, Option, List}
use dr.Base.Dict.{Dict}
use dr.Api.Types.{GroupVersionKindObject}
use dr.Api.Filters.{DrFilterConfig}

pub data TransportAdapter : Type 0 where
  kube_apiserver http : TransportAdapter
  other_adapter : String → TransportAdapter

pub data ResourceCollectorType : Type 0 where
  list_watch periodic : ResourceCollectorType
  other_collector : String → ResourceCollectorType

pub record DrComponents : Type 0 where
  pub role : String
  pub active : Bool
  pub transport_adapter : TransportAdapter
  pub collector_type : ResourceCollectorType

-- `qps` and `burst` are Go integers that the client library reads.
pub record KubeApiServerSettings : Type 0 where
  pub kube_api_server_host : String
  pub cert_data : String
  pub key_data : String
  pub ca_data : String
  pub qps : ℤ
  pub burst : ℤ

-- HTTPTransportorSetting has no field.
pub record PairClusterSettings : Type 0 where
  pub kube_apiserver_transportor_setting : Option KubeApiServerSettings
  pub http_transportor_setting : Option (Unit {0})

pub record SyncedCondition : Type 0 where
  pub group_version_kind_object : GroupVersionKindObject
  pub last_synced_resource_version : String
  pub last_synced_status : String

pub record DrNamespaceSpec : Type 0 where
  pub components : DrComponents
  pub dr_pair_cluster_name : String
  pub dr_filter_config : DrFilterConfig

pub record DrNamespaceStatus : Type 0 where
  pub components : DrComponents
  pub dr_pair_cluster_name : String
  pub dr_filter_config : DrFilterConfig
  pub synced_conditions : Option (Dict SyncedCondition)

-- `cluster_name` is `metadata.clusterName`.
pub record DrNamespace : Type 0 where
  pub namespace : String
  pub name : String
  pub cluster_name : String
  pub spec : DrNamespaceSpec
  pub status : DrNamespaceStatus

pub record DrClusterSpec : Type 0 where
  pub components : DrComponents
  pub pair_cluster_settings : PairClusterSettings

pub record ClusterCondition : Type 0 where
  pub message : String
  pub reason : String
  pub type : String
  pub cluster_name : String
  pub last_heartbeat_time : String

pub record DrClusterStatus : Type 0 where
  pub components : DrComponents
  pub last_success_synced : String
  pub cluster_conditions : List ClusterCondition

pub record DrCluster : Type 0 where
  pub name : String
  pub cluster_name : String
  pub spec : DrClusterSpec
  pub status : DrClusterStatus
