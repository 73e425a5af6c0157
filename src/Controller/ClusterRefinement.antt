-- ===== src/Controller/ClusterRefinement.antt =====
-- The three blocks of the reconciler of clusters, against one change of each namespace.
use dr.Base.{
  ◌≡◌, ◌≢◌, refl, sym, ap, ◌∙◌, not, Bool, true, false, none, some, List, map, Option-cases, inl,
  inr, eq_refl,
}
use dr.Base.Dict.{lookup, lookup-insert}
use dr.Api.{DrNamespace, DrCluster}
use dr.Configs.{DrConfig, update_cluster_config_to_container, notify_cluster_config_change}
use dr.Controller.NamespaceController.{found, adapter_eq, collector_eq, bool_eq}
use dr.Controller.ClusterController
use dr.Controller.ClusterController.{
  ClusterClient, Progress, write_each, sync_all, sync_if, sync_namespaces, set_components,
  of_cluster, every, go_on, return, reconcile_cluster,
}
use dr.Controller.StoredNamespaces.{StoresNamespaces, Apart}
use dr.Controller.ClusterBlocks.{
  wanted, map_congr, map-map, set_active, set_adapter, set_collector, block_done, three_changes,
  go_on_of_bind, Progress-cases, set_active-KeepsKey, set_adapter-KeepsKey, set_collector-KeepsKey,
}

module _ {ℓ} {S : Type ℓ} (client : ClusterClient S) (view : S → List DrNamespace)
    (L : StoresNamespaces client view) where
  -- The three blocks of `sync_namespaces`.
  module _ (c : DrCluster) where
    abbrev active_block : S → Progress S
    active_block s =
        sync_if client (not (bool_eq c.spec.components.active c.status.components.active))
          (sync_all client false (of_cluster client c)
            (set_active client view L c.spec.components.active) s)
          s

    abbrev adapter_block : S → Progress S
    adapter_block s =
        sync_if client
          (not
            (adapter_eq c.spec.components.transport_adapter c.status.components.transport_adapter))
          (sync_all client true (every client)
            (set_adapter client view L c.spec.components.transport_adapter) s)
          s

    abbrev collector_block : S → Progress S
    collector_block s =
        sync_if client
          (not (collector_eq c.spec.components.collector_type c.status.components.collector_type))
          (sync_all client false (every client)
            (set_collector client view L c.spec.components.collector_type) s)
          s

    abbrev last_blocks : S → Progress S
    last_blocks s = ClusterController.◌>>=◌ client (adapter_block s) collector_block

    sync_namespaces_lem :
        (s : S)
        → sync_namespaces client c s ≡ ClusterController.◌>>=◌ client (active_block s) last_blocks
    unfolding sync_namespaces
    sync_namespaces_lem s = refl

  view-sync_namespaces :
      (c : DrCluster) (s t : S)
      → Apart (view s)
      → sync_namespaces client c s ≡ go_on t
      → view t ≡ map (wanted c) (view s)
  view-sync_namespaces c s t apart h =
      let spec = c.spec.components in
      let (s1, h1, h') =
        go_on_of_bind client view L (active_block c s) (last_blocks c) t
          (sym (sync_namespaces_lem c s) ∙ h) in
      let (s2, h2, h3) =
        go_on_of_bind client view L (adapter_block c s1) (collector_block c) t h' in
      let (e1, apart1) =
        block_done client view L _ false (of_cluster client c) _
          (set_active-KeepsKey client view L spec.active) s s1 apart h1 in
      let (e2, apart2) =
        block_done client view L _ true (every client) _
          (set_adapter-KeepsKey client view L spec.transport_adapter) s1 s2 apart1 h2 in
      let (e3, _) =
        block_done client view L _ false (every client) _
          (set_collector-KeepsKey client view L spec.collector_type) s2 t apart2 h3 in
      e3
      ∙ ap (map _) (e2 ∙ ap (map _) e1 ∙ map-map _ _ (view s))
      ∙ map-map _ _ (view s)
      ∙ map_congr _ _ (view s) (three_changes client view L c)

  abbrev OnlyErrors : Progress S → Type 0
  OnlyErrors (go_on _) = Unit
  OnlyErrors (return _ _ e) = e ≢ none

  sync_all-OnlyErrors :
      (requeue : Bool) (p : DrNamespace → Bool) (change : DrNamespace → DrNamespace) (s : S)
      → OnlyErrors (sync_all client requeue p change s)
  unfolding sync_all
  sync_all-OnlyErrors requeue p change s =
      elim (Option-cases (write_each client (λ n. client.update (change n)) p (view s) s).1) [
        | inl fine ↦ rw (L.listed s, sync_all, fine) tt
        | inr (x, bad) ↦ rw (L.listed s, sync_all, bad) (λ e. cc e)
      ]

  sync_if-OnlyErrors :
      (b : Bool) (x : Progress S) (s : S) → OnlyErrors x → OnlyErrors (sync_if client b x s)
  sync_if-OnlyErrors true x s h = h
  sync_if-OnlyErrors false x s h = tt

  bind-OnlyErrors :
      (x : Progress S) (f : S → Progress S)
      → OnlyErrors x
      → ((s : S) → OnlyErrors (f s))
      → OnlyErrors (ClusterController.◌>>=◌ client x f)
  bind-OnlyErrors (go_on s) f h k = k s
  bind-OnlyErrors (return s b e) f h k = h

  sync_namespaces-OnlyErrors : (c : DrCluster) (s : S) → OnlyErrors (sync_namespaces client c s)
  sync_namespaces-OnlyErrors c s = rw (sync_namespaces_lem c s) (
      bind-OnlyErrors (active_block c s) (last_blocks c)
        (sync_if-OnlyErrors _ _ s (sync_all-OnlyErrors _ _ _ s))
        (λ s1.
          bind-OnlyErrors (adapter_block c s1) (collector_block c)
            (sync_if-OnlyErrors _ _ s1 (sync_all-OnlyErrors _ _ _ s1))
            (λ s2. sync_if-OnlyErrors _ _ s2 (sync_all-OnlyErrors _ _ _ s2))))

  -- With a server that stores the namespaces, no two of them with one key: a reconcile of a cluster
  -- that ends without an error has made one change of each namespace, to what the specification
  -- of the cluster wants of it, and the container has the settings of the cluster.
  pub view-reconcile_cluster :
      (c : DrCluster) (drc : DrConfig) (s : S)
      → Apart (view s)
      → (reconcile_cluster client (found c) drc s).error ≡ none
      → (view (reconcile_cluster client (found c) drc s).remote ≡ map (wanted c) (view s))
        × (lookup c.name (reconcile_cluster client (found c) drc s).container.cluster_configs
            ≡ some c.spec.pair_cluster_settings)
  unfolding reconcile_cluster update_cluster_config_to_container notify_cluster_config_change
  view-reconcile_cluster c drc s apart fine =
      elim (Progress-cases client view L (sync_namespaces client c s)) [
        | inl (t, h) ↦
            rw (h, reconcile_cluster)
              (
                L.status_apart _ t ∙ view-sync_namespaces c s t apart h,
                rw lookup-insert (rw eq_refl refl),
              )
        | inr (t, b, e, h) ↦
            absurd ((rw h at (sync_namespaces-OnlyErrors c s)) (rw (h, reconcile_cluster) at fine))
      ]
