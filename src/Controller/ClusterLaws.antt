-- ===== src/Controller/ClusterLaws.antt =====
-- Which namespaces the reconciler of clusters writes.
use dr.Base.{
  ◌≡◌, refl, arith, Bool, true, false, Option, none, Error, All, List, [], ◌∷◌, if◌then◌else◌,
}
use dr.Base.{some, eq_refl}
use dr.Base.Dict.{lookup, lookup-insert}
use dr.Configs.{update_cluster_config_to_container, notify_cluster_config_change}
use dr.Controller.ClusterController.{synced_status}
use dr.Api.{DrCluster, DrNamespace}
use dr.Configs.{DrConfig}
use dr.Controller.NamespaceController.{found, adapter_eq, collector_eq, bool_eq}
use dr.Controller.ClusterController.{
  ClusterClient, write_each, sync_all, sync_namespaces, deactivate_relative, in_cluster, go_on,
  reconcile_cluster,
}

-- The chosen namespaces, in their order.
unfoldable pub chosen_of : (DrNamespace → Bool) → List DrNamespace → List DrNamespace
chosen_of p [] = []
chosen_of p (n ∷ ns) = let rest = chosen_of p ns in if p n then n ∷ rest else rest

abbrev pub every : DrNamespace → Bool
every n = true

module _ {ℓ} {S : Type ℓ} (client : ClusterClient S) where
  -- The loop that skips what is not chosen is the loop over the chosen namespaces: the same
  -- writes in the same order, up to the same first error.
  pub write_each_lem :
      (write : DrNamespace → S → S × Option Error) (p : DrNamespace → Bool) (ns : List DrNamespace)
      (s : S)
      → write_each client write p ns s ≡ write_each client write every (chosen_of p ns) s
  unfolding write_each chosen_of
  write_each_lem write p [] s = refl
  write_each_lem write p (n ∷ ns) s =
      ground (arith, write_each_lem write p ns s, write_each_lem write p ns (write n s).0)

  chosen_of_none :
      (p : DrNamespace → Bool) (ns : List DrNamespace)
      → All (λ n. p n ≡ false) ns
      → chosen_of p ns ≡ []
  unfolding chosen_of
  chosen_of_none p [] h = refl
  chosen_of_none p (n ∷ ns) (e, h) = rw (e, chosen_of_none p ns h)

  deactivate_found :
      (s : S) (ns : List DrNamespace)
      → client.list s ≡ found ns
      → deactivate_relative client "" s
        ≡ write_each client
            (λ n. client.update (record n {
              spec = record n.spec { components = record n.spec.components { active = false } };
            }))
            every
            (chosen_of (in_cluster client "") ns)
            s
  unfolding deactivate_relative
  deactivate_found s ns listed =
      rw (listed, deactivate_relative)
        (write_each_lem
          (λ n. client.update (record n {
            spec = record n.spec { components = record n.spec.components { active = false } };
          }))
          (in_cluster client "") ns s)

  sync_all_found :
      (requeue : Bool) (p : DrNamespace → Bool) (change : DrNamespace → DrNamespace) (s : S)
      (ns : List DrNamespace)
      → client.list s ≡ found ns
      → (write_each client (λ n. client.update (change n)) p ns s).1 ≡ none
      → sync_all client requeue p change s
        ≡ go_on (write_each client (λ n. client.update (change n)) p ns s).0
  unfolding sync_all
  sync_all_found requeue p change s ns listed fine = rw (listed, sync_all, fine)

  -- Where the wanted components of a cluster are those of its status, no namespace is written.
  pub sync_namespaces_settled :
      (c : DrCluster) (s : S)
      → bool_eq c.spec.components.active c.status.components.active ≡ true
      → adapter_eq c.spec.components.transport_adapter c.status.components.transport_adapter ≡ true
      → collector_eq c.spec.components.collector_type c.status.components.collector_type ≡ true
      → sync_namespaces client c s ≡ go_on s
  unfolding sync_namespaces
  sync_namespaces_settled c s a t k = rw (a, t, k)

  -- Where the wanted components of a cluster are those of its status, a reconcile writes nothing
  -- but the status of the cluster, and the container has the cluster's settings afterwards.
  pub reconcile_cluster_settled :
      (c : DrCluster) (drc : DrConfig) (s : S)
      → bool_eq c.spec.components.active c.status.components.active ≡ true
      → adapter_eq c.spec.components.transport_adapter c.status.components.transport_adapter ≡ true
      → collector_eq c.spec.components.collector_type c.status.components.collector_type ≡ true
      → ((reconcile_cluster client (found c) drc s).remote
          ≡ (client.update_status (record c { status = synced_status client c }) s).0)
        × (lookup c.name (reconcile_cluster client (found c) drc s).container.cluster_configs
            ≡ some c.spec.pair_cluster_settings)
  unfolding reconcile_cluster update_cluster_config_to_container notify_cluster_config_change
  reconcile_cluster_settled c drc s a t k =
      rw (sync_namespaces_settled c s a t k, reconcile_cluster)
        (refl, rw lookup-insert (rw eq_refl refl))

  -- Where only the adapter of a cluster has changed, and the list and all writes succeed, the block
  -- writes it to every listed namespace, also to those of other clusters, in the order of the list.
  pub sync_namespaces_adapter :
      (c : DrCluster) (s : S) (ns : List DrNamespace)
      → bool_eq c.spec.components.active c.status.components.active ≡ true
      → adapter_eq c.spec.components.transport_adapter c.status.components.transport_adapter ≡ false
      → collector_eq c.spec.components.collector_type c.status.components.collector_type ≡ true
      → client.list s ≡ found ns
      → (write_each client
          (λ n. client.update (record n {
            spec = record n.spec {
              components = record n.spec.components {
                transport_adapter = c.spec.components.transport_adapter;
              };
            };
          }))
          every
          ns
          s).1
        ≡ none
      → sync_namespaces client c s
        ≡ go_on
            (write_each client
              (λ n. client.update (record n {
                spec = record n.spec {
                  components = record n.spec.components {
                    transport_adapter = c.spec.components.transport_adapter;
                  };
                };
              }))
              every
              ns
              s).0
  unfolding sync_namespaces
  sync_namespaces_adapter c s ns a t k listed fine = rw (
    a,
    t,
    k,
    sync_all_found true every
        (λ n. record n {
          spec = record n.spec {
            components = record n.spec.components {
              transport_adapter = c.spec.components.transport_adapter;
            };
          };
        })
        s ns listed fine,
  )
