-- ===== src/Controller/ClusterController.antt =====
-- drcluster_controller.go. The API server is a parameter over its state.
use dr.Base.{
  String, ◌==◌, not, Bool, true, false, Option, none, some, List, [], ◌∷◌, Error, if◌then◌else◌,
}
use dr.Base.Dict.{insert}
use dr.Api.{DrCluster, DrNamespace, DrComponents, DrClusterStatus}
use dr.Configs.{DrConfig, update_cluster_config_to_container}
use dr.Controller.NamespaceController.{
  Fetched, found, not_found, failed, adapter_eq, collector_eq, bool_eq, next_role,
}

-- The client, for the lists and updates that the reconciler makes.
pub record ClusterClient {ℓ} (S : Type ℓ) : Type ℓ where
  pub list : S → Fetched (List DrNamespace)
  pub update : DrNamespace → S → S × Option Error
  pub delete : DrNamespace → S → S × Option Error
  pub update_status : DrCluster → S → S × Option Error

-- What a block of the reconciler does next: go on, or return with `Requeue` and this error.
pub data Progress {ℓ} (S : Type ℓ) : Type ℓ where
  go_on : S → Progress S
  return : S → Bool → Option Error → Progress S

module _ {ℓ} {S : Type ℓ} (client : ClusterClient S) where
  -- `for _, ns := range items { if !chosen { continue }; write(ns) }` up to the first error.
  unfoldable pub write_each :
      (DrNamespace → S → S × Option Error)
      → (DrNamespace → Bool)
      → List DrNamespace
      → S
      → S × Option Error
  write_each write chosen [] s = (s, none)
  write_each write chosen (n ∷ ns) s =
      let skip = write_each write chosen ns s in
      let step = write n s in
      let rest = write_each write chosen ns step.0 in
      if chosen n then elim step.1 [ none ↦ rest | some e ↦ (step.0, some e) ] else skip

  abbrev pub update_with : (DrNamespace → DrNamespace) → DrNamespace → S → S × Option Error
  update_with change n s = client.update (change n) s

  -- The loop of a block over the listed namespaces. `requeue` is set where the list fails.
  unfoldable pub sync_all :
      Bool → (DrNamespace → Bool) → (DrNamespace → DrNamespace) → S → Progress S
  unfolding write_each
  sync_all requeue chosen change s = elim (client.list s) [
    | not_found _ ↦ return s false none
    | failed e ↦ return s requeue (some e)
    | found items ↦
        let (s', e) = write_each (update_with change) chosen items s in
        elim e [ none ↦ go_on s' | some x ↦ return s' false (some x) ]
  ]

  abbrev pub sync_if : Bool → Progress S → S → Progress S
  sync_if b block s = if b then block else go_on s

  infixl 5 ◌>>=◌
  abbrev pub ◌>>=◌ : Progress S → (S → Progress S) → Progress S
  go_on s >>= f = f s
  return s requeue e >>= f = return s requeue e

  abbrev pub set_components : (DrComponents → DrComponents) → DrNamespace → DrNamespace
  set_components f n = record n { spec = record n.spec { components = f n.spec.components } }

  abbrev pub of_cluster : DrCluster → DrNamespace → Bool
  of_cluster c n = n.spec.dr_pair_cluster_name == c.name

  abbrev pub every : DrNamespace → Bool
  every n = true

  -- The blocks for Active, TransportAdapter and CollectorType. Only the first looks at the
  -- cluster of a namespace.
  unfoldable pub sync_namespaces : DrCluster → S → Progress S
  unfolding sync_all
  sync_namespaces c s =
      let spec = c.spec.components in
      let status = c.status.components in
      let active = set_components (λ d. record d { active = spec.active }) in
      let adapter = set_components (λ d. record d { transport_adapter = spec.transport_adapter }) in
      let collector = set_components (λ d. record d { collector_type = spec.collector_type }) in
      do
        s1 ←
            sync_if (not (bool_eq spec.active status.active))
              (sync_all false (of_cluster c) active s) s
        s2 ←
            sync_if (not (adapter_eq spec.transport_adapter status.transport_adapter))
              (sync_all true every adapter s1) s1
        sync_if (not (collector_eq spec.collector_type status.collector_type))
            (sync_all false every collector s2) s2

  -- The status that is written at the end.
  abbrev pub synced_status : DrCluster → DrClusterStatus
  synced_status c = record c.status {
    components = record c.spec.components {
      role = next_role c.status.components.role c.spec.components.role;
    };
  }

  -- A namespace belongs to a cluster here by `metadata.clusterName`.
  abbrev pub in_cluster : String → DrNamespace → Bool
  in_cluster cluster_name n = n.cluster_name == cluster_name

  -- deActiveRelativeDRNamespaces. A list that is not found is no error.
  unfoldable pub deactivate_relative : String → S → S × Option Error
  unfolding write_each
  deactivate_relative cluster_name s = elim (client.list s) [
    | not_found _ ↦ (s, none)
    | failed e ↦ (s, some e)
    | found items ↦
        write_each (update_with (set_components (λ d. record d { active = false })))
          (in_cluster cluster_name) items s
  ]

  -- clearRelativeDRNamespaces, which nothing calls at present.
  unfoldable pub clear_relative : String → S → S × Option Error
  unfolding write_each
  clear_relative cluster_name s = elim (client.list s) [
    | not_found _ ↦ (s, none)
    | failed e ↦ (s, some e)
    | found items ↦ write_each client.delete (in_cluster cluster_name) items s
  ]

  pub record ClusterReconciled : Type ℓ where
    pub remote : S
    pub container : DrConfig
    pub requeue : Bool
    pub error : Option Error

  -- The cluster's settings go to the container, then its status is written.
  publish : DrCluster → DrConfig → S → ClusterReconciled
  publish c drc s =
      let settings = c.spec.pair_cluster_settings in
      let drc1 = record drc { cluster_configs = insert c.name settings drc.cluster_configs } in
      let drc2 = (update_cluster_config_to_container c.name (some settings) drc1).0 in
      let (s', e) = client.update_status (record c { status = synced_status c }) s in
      record { remote = s'; container = drc2; requeue = false; error = e }

  -- Where `Get` finds nothing, the instance is the empty one that was passed to it, and so is the
  -- name of its cluster.
  unfoldable pub reconcile_cluster : Fetched DrCluster → DrConfig → S → ClusterReconciled
  unfolding deactivate_relative sync_namespaces publish
  reconcile_cluster (failed e) drc s = record {
    remote = s;
    container = drc;
    requeue = false;
    error = some e;
  }
  reconcile_cluster (not_found _) drc s =
      let (s', e) = deactivate_relative "" s in
      record {
        remote = s';
        container = drc;
        requeue = elim e [ none ↦ false | some _ ↦ true ];
        error = e;
      }
  reconcile_cluster (found c) drc s = elim (sync_namespaces c s) [
    | return s' requeue e ↦ record { remote = s'; container = drc; requeue = requeue; error = e }
    | go_on s' ↦ publish c drc s'
  ]
