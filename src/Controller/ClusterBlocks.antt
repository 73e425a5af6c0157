-- ===== src/Controller/ClusterBlocks.antt =====
-- The loops of the reconciler of clusters over the namespaces, each as a change of all of them.
use dr.Base.{
  ◌≡◌, ◌==◌, refl, sym, ap, ◌∙◌, ◌&&◌, not, arith, Bool, true, false, List, [], ◌∷◌, map,
  Option-cases, inl, inr, ◌⊎◌, All, Option, Error, if◌then◌else◌,
}
use dr.Api.{DrNamespace, DrCluster, DrComponents, TransportAdapter, ResourceCollectorType}
use dr.Controller.NamespaceController.{adapter_eq, collector_eq, bool_eq}
use dr.Controller.ClusterController
use dr.Controller.ClusterController.{
  ClusterClient, Progress, write_each, sync_all, sync_if, sync_namespaces, set_components,
  of_cluster, every, go_on, return, reconcile_cluster,
}
use dr.Controller.StoredNamespaces.{
  same_object, StoresNamespaces, Apart, KeepsKey, change_if, view-write_each, DiffersFrom,
}

-- A namespace with other components.
abbrev with_components : DrNamespace → DrComponents → DrNamespace
with_components n d = record n { spec = record n.spec { components = d } }

-- What the specification of a cluster wants of a namespace: each component that differs from the
-- status of the cluster is taken over, the activity only by the cluster's own namespaces.
abbrev pub wanted : DrCluster → DrNamespace → DrNamespace
wanted c n =
    let spec = c.spec.components in
    let status = c.status.components in
    let d = n.spec.components in
    record n {
      spec = record n.spec {
        components = record {
          role = d.role;
          active =
              if not (bool_eq spec.active status.active) && n.spec.dr_pair_cluster_name == c.name
              then spec.active
              else d.active;
          transport_adapter =
              if not (adapter_eq spec.transport_adapter status.transport_adapter)
              then spec.transport_adapter
              else d.transport_adapter;
          collector_type =
              if not (collector_eq spec.collector_type status.collector_type)
              then spec.collector_type
              else d.collector_type;
        };
      };
    }

pub nothing_before : (ns : List DrNamespace) → All (DiffersFrom []) ns
nothing_before [] = tt
nothing_before (n ∷ ns) = (tt, nothing_before ns)

pub map_congr :
    (f g : DrNamespace → DrNamespace) (ns : List DrNamespace)
    → ((n : DrNamespace) → f n ≡ g n)
    → map f ns ≡ map g ns
map_congr f g [] h = refl
map_congr f g (n ∷ ns) h = rw (h n, map_congr f g ns h)

map_same : (ns : List DrNamespace) → map (λ n. n) ns ≡ ns
map_same [] = refl
map_same (n ∷ ns) = ap (λ l. n ∷ l) (map_same ns)

pub map-map :
    (f g : DrNamespace → DrNamespace) (ns : List DrNamespace)
    → map g (map f ns) ≡ map (λ n. g (f n)) ns
map-map f g [] = refl
map-map f g (n ∷ ns) = ap (λ l. g (f n) ∷ l) (map-map f g ns)

change_if-KeepsKey :
    (p : DrNamespace → Bool) (f : DrNamespace → DrNamespace) → KeepsKey f → KeepsKey (change_if p f)
change_if-KeepsKey p f K = record {
  same_namespace = λ n. ground (arith, K.same_namespace n);
  same_name = λ n. ground (arith, K.same_name n);
}

module _ (f : DrNamespace → DrNamespace) (K : KeepsKey f) where
  map-differ :
      (n : DrNamespace) (ns : List DrNamespace)
      → All (λ m. same_object n m ≡ false) ns
      → All (λ m. same_object (f n) m ≡ false) (map f ns)
  map-differ n [] h = tt
  map-differ n (m ∷ ns) (e, h) = (
    rw (K.same_namespace n, K.same_name n, K.same_namespace m, K.same_name m) e,
    map-differ n ns h,
  )

  map-Apart : (ns : List DrNamespace) → Apart ns → Apart (map f ns)
  map-Apart [] h = tt
  map-Apart (n ∷ ns) (e, h) = (map-differ n ns e, map-Apart ns h)

module _ {ℓ} {S : Type ℓ} (client : ClusterClient S) (view : S → List DrNamespace)
    (L : StoresNamespaces client view) where
  view-sync_all :
      (requeue : Bool) (p : DrNamespace → Bool) (change : DrNamespace → DrNamespace)
      (K : KeepsKey change) (s t : S)
      → Apart (view s)
      → sync_all client requeue p change s ≡ go_on t
      → view t ≡ map (change_if p change) (view s)
  unfolding sync_all
  view-sync_all requeue p change K s t apart h =
      let w = write_each client (λ n. client.update (change n)) p (view s) s in
      elim (Option-cases w.1) [
        | inl fine ↦
            ap view (sym (cc (rw (L.listed s, sync_all, fine) at h)))
            ∙ view-write_each client view L p change K [] (view s) s refl apart
                (nothing_before (view s)) fine
        | inr (x, bad) ↦ absurd (cc (rw (L.listed s, sync_all, bad) at h))
      ]

  view-sync_if :
      (b requeue : Bool) (p : DrNamespace → Bool) (change : DrNamespace → DrNamespace)
      (K : KeepsKey change) (s t : S)
      → Apart (view s)
      → sync_if client b (sync_all client requeue p change s) s ≡ go_on t
      → view t ≡ map (change_if (λ n. b && p n) change) (view s)
  view-sync_if true requeue p change K s t apart h = view-sync_all requeue p change K s t apart h
  view-sync_if false requeue p change K s t apart h = ap view (sym (cc h)) ∙ sym (map_same (view s))

  pub Progress-cases :
      (x : Progress S)
      → ((t : S) × (x ≡ go_on t)) ⊎ ((t : S) × (b : Bool) × (e : Option Error) × (x ≡ return t b e))
  Progress-cases (go_on t) = inl (t, refl)
  Progress-cases (return t b e) = inr (t, b, e, refl)

  pub go_on_of_bind :
      (x : Progress S) (f : S → Progress S) (t : S)
      → ClusterController.◌>>=◌ client x f ≡ go_on t
      → (r : S) × (x ≡ go_on r) × (f r ≡ go_on t)
  go_on_of_bind (go_on r) f t h = (r, refl, h)
  go_on_of_bind (return r b e) f t h = absurd (cc h)

  abbrev pub set_active : Bool → DrNamespace → DrNamespace
  set_active b = set_components client (λ d. record d { active = b })

  abbrev pub set_adapter : TransportAdapter → DrNamespace → DrNamespace
  set_adapter a = set_components client (λ d. record d { transport_adapter = a })

  abbrev pub set_collector : ResourceCollectorType → DrNamespace → DrNamespace
  set_collector k = set_components client (λ d. record d { collector_type = k })

  pub set_active-KeepsKey : (b : Bool) → KeepsKey (set_active b)
  set_active-KeepsKey b = record { same_namespace = λ n. refl; same_name = λ n. refl }

  pub set_adapter-KeepsKey : (a : TransportAdapter) → KeepsKey (set_adapter a)
  set_adapter-KeepsKey a = record { same_namespace = λ n. refl; same_name = λ n. refl }

  pub set_collector-KeepsKey : (k : ResourceCollectorType) → KeepsKey (set_collector k)
  set_collector-KeepsKey k = record { same_namespace = λ n. refl; same_name = λ n. refl }

  abbrev apply : Bool → (DrNamespace → DrNamespace) → DrNamespace → DrNamespace
  apply b f n = if b then f n else n

  -- The blocks one after the other on one namespace.
  pub three_changes :
      (c : DrCluster) (n : DrNamespace)
      → apply
          (not (collector_eq c.spec.components.collector_type c.status.components.collector_type)
            && true)
          (set_collector c.spec.components.collector_type)
          (apply
            (not (
                adapter_eq c.spec.components.transport_adapter
                  c.status.components.transport_adapter)
              && true)
            (set_adapter c.spec.components.transport_adapter)
            (apply
              (not (bool_eq c.spec.components.active c.status.components.active)
                && n.spec.dr_pair_cluster_name == c.name)
              (set_active c.spec.components.active)
              n))
        ≡ wanted c n
  three_changes c n = ground arith

  -- A block leaves the namespaces changed, and still apart.
  pub block_done :
      (b requeue : Bool) (p : DrNamespace → Bool) (change : DrNamespace → DrNamespace)
      (K : KeepsKey change) (s t : S)
      → Apart (view s)
      → sync_if client b (sync_all client requeue p change s) s ≡ go_on t
      → (view t ≡ map (change_if (λ n. b && p n) change) (view s)) × Apart (view t)
  block_done b requeue p change K s t apart h =
      let e = view-sync_if b requeue p change K s t apart h in
      let f = change_if (λ n. b && p n) change in
      (e, rw e (map-Apart f (change_if-KeepsKey (λ n. b && p n) change K) (view s) apart))
