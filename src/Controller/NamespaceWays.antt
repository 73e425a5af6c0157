-- ===== src/Controller/NamespaceWays.antt =====
-- The ways that a reconcile of a namespace can take.
use dr.Base.{
  ◌≡◌, refl, ap, if◌then◌else◌, ◌∙◌, ◌||◌, arith, Bool, true, false, not, Option, none, some, Error,
  Bool-cases, inl, inr, is_some, ◌⊎◌,
}
use dr.Base.Dict.{lookup}
use dr.Api.{DrNamespace}
use dr.Configs.{DrConfig, update_namespace_configed_cluster}
use dr.Controller.NamespaceController.{
  NamespaceState, Reconciled, sync_filters, cluster_changed, components_changed, finish,
  reconcile_found,
}

-- A reconcile of an object that is there either ends with an error and another container, or goes on to
-- `finish` with another container.
unfoldable pub Ways : DrNamespace → NamespaceState → Reconciled → Type 0
Ways inst s r =
    (drc : DrConfig) × (((r.state ≡ record s { container = drc })
        × (x : Error) × (r.error ≡ some x))
      ⊎ ((restart : Bool) × (r ≡ finish inst restart (record s { container = drc }))))

abbrev pub paired : DrNamespace → NamespaceState → DrConfig × Option Error → Reconciled
paired inst s (drc, e) = elim e [
  | none ↦ finish inst true (record s { container = drc })
  | some x ↦ record { state = record s { container = drc }; enqueued = none; error = some x }
]

pub paired-Ways :
    (inst : DrNamespace) (s t : NamespaceState) (answer : DrConfig × Option Error)
    → t ≡ record s { container = t.container }
    → Ways inst s (paired inst t answer)
unfolding Ways
paired-Ways inst s t (drc, none) e = (
  drc,
  inr (true, ap (λ (x : NamespaceState). finish inst true (record x { container = drc })) e),
)
paired-Ways inst s t (drc, some x) e =
    (drc, inl (ap (λ (y : NamespaceState). record y { container = drc }) e, x, refl))

pub Ways-of :
    (inst : DrNamespace) (s t : NamespaceState) (b restart : Bool)
    → t ≡ record s { container = t.container }
    → Ways inst s (
        if b
        then paired inst t (
            update_namespace_configed_cluster inst.namespace inst.spec.dr_pair_cluster_name
              t.container)
        else finish inst restart t)
unfolding Ways
Ways-of inst s t true restart e = paired-Ways inst s t _ e
Ways-of inst s t false restart e = (t.container, inr (restart, ap (finish inst restart) e))

pub sync_filters_container :
    (inst : DrNamespace) (s : NamespaceState)
    → sync_filters inst s ≡ record s { container = (sync_filters inst s).container }
unfolding sync_filters
sync_filters_container inst s = elim (Bool-cases (is_some (lookup inst.namespace s.previous))) [
  | inl seen ↦ rw (seen, sync_filters)
  | inr fresh ↦ rw (fresh, sync_filters)
]

pub found-Ways : (inst : DrNamespace) (s : NamespaceState) → Ways inst s (reconcile_found inst s)
unfolding reconcile_found
found-Ways inst s =
    Ways-of inst s (sync_filters inst s) (cluster_changed inst s) _ (sync_filters_container inst s)

pub sync_filters_seen :
    (inst : DrNamespace) (s : NamespaceState)
    → is_some (lookup inst.namespace s.previous) ≡ true
    → sync_filters inst s ≡ s
unfolding sync_filters
sync_filters_seen inst s seen = rw (seen, sync_filters)

abbrev pub settled : DrNamespace → NamespaceState → NamespaceState → Reconciled
settled inst s t =
    if cluster_changed inst s
    then paired inst t (
        update_namespace_configed_cluster inst.namespace inst.spec.dr_pair_cluster_name t.container)
    else finish inst (components_changed inst || not (is_some (lookup inst.namespace s.previous))) t

pub found_seen :
    (inst : DrNamespace) (s : NamespaceState)
    → is_some (lookup inst.namespace s.previous) ≡ true
    → reconcile_found inst s ≡ settled inst s s
unfolding reconcile_found
found_seen inst s seen = ap (settled inst s) (sync_filters_seen inst s seen)

pub was_seen :
    (inst : DrNamespace) (s : NamespaceState)
    → cluster_changed inst s ≡ false
    → is_some (lookup inst.namespace s.previous) ≡ true
was_seen inst s h = ground (arith, h)

pub found_settled :
    (inst : DrNamespace) (s : NamespaceState)
    → cluster_changed inst s ≡ false
    → components_changed inst ≡ false
    → reconcile_found inst s ≡ finish inst false s
found_settled inst s same_cluster same_components =
    found_seen inst s (was_seen inst s same_cluster)
    ∙ rw (same_cluster, same_components, was_seen inst s same_cluster)
