-- ===== src/Configs/FilterSteps.antt =====
-- The steps of the container that concern the filters.
use mathlib.Core.Path.{subst}
use dr.Base.{
  ◌≡◌, refl, sym, ap, ◌∙◌, ◌==◌, arith, String, false, Option, none, some, Bool-cases, Option-cases,
  inl, inr, ◌⊎◌, eq_iff, eq_refl,
}
use dr.Base.Dict.{lookup, insert, lookup-insert, NodupKeys}
use dr.Api.{DrFilterConfig}
use dr.Filter.{FilterAggregation, get_filters, update_filter_hook}
use dr.Configs.Container.{
  DrConfig, notify_filter_listeners, update_filter_config_to_container, kept,
  reg_filter_config_listener,
}
use dr.Configs.Promises.{filters_for, FiltersDelivered, SettingsDelivered}

filters_for-get_filters :
    (c : Option DrFilterConfig) → (get_filters c).1 ≡ filters_for (get_filters c).0
unfolding get_filters
filters_for-get_filters none = refl
filters_for-get_filters (some c) = refl

-- The configuration that is kept is the one that is passed on.
abbrev IsKept : String → Option DrFilterConfig → DrConfig → Type 0
IsKept ns c drc =
    (lookup ns drc.filter_configs ≡ some c) ⊎ ((lookup ns drc.filter_configs ≡ none) × (c ≡ none))

module _ (ns : String) (c : Option DrFilterConfig) (drc : DrConfig) where
  hook_filters :
      (f : FilterAggregation) → (update_filter_hook c f).filters ≡ filters_for (get_filters c).0
  unfolding update_filter_hook
  hook_filters f = filters_for-get_filters c

  kept-notify :
      (f : FilterAggregation)
      → lookup ns drc.filter_config_listeners ≡ some f
      → IsKept ns c drc
      → kept ns (notify_filter_listeners ns c drc).filter_configs ≡ (get_filters c).0
  unfolding notify_filter_listeners
  kept-notify f e (inl there) = rw (e, notify_filter_listeners, there, kept, lookup-insert, eq_refl)
  kept-notify f e (inr (gone, nil)) =
      rw (e, notify_filter_listeners, gone, kept, gone, nil) (unfold get_filters in refl)

  pub listener-notify :
      (f : FilterAggregation)
      → lookup ns drc.filter_config_listeners ≡ some f
      → lookup ns (notify_filter_listeners ns c drc).filter_config_listeners
        ≡ some (update_filter_hook c f)
  unfolding notify_filter_listeners
  listener-notify f e = rw (e, notify_filter_listeners, lookup-insert, eq_refl)

  pub notify_absent :
      lookup ns drc.filter_config_listeners ≡ none → notify_filter_listeners ns c drc ≡ drc
  unfolding notify_filter_listeners
  notify_absent e = rw (e, notify_filter_listeners)

  pub notify_elsewhere :
      (n : String)
      → (ns == n) ≡ false
      → (lookup n (notify_filter_listeners ns c drc).filter_config_listeners
          ≡ lookup n drc.filter_config_listeners)
        × (lookup n (notify_filter_listeners ns c drc).filter_configs ≡ lookup n drc.filter_configs)
  unfolding notify_filter_listeners
  notify_elsewhere n apart = elim (Option-cases (lookup ns drc.filter_config_listeners)) [
    | inl e ↦ rw (e, notify_filter_listeners) (refl, refl)
    | inr (f, e) ↦ (
      rw (e, notify_filter_listeners, lookup-insert, apart),
      rw (e, notify_filter_listeners)
          (ground (arith, apart, lookup-insert ns n (get_filters c).0 drc.filter_configs)),
    )
  ]

  the_same :
      (fa f : FilterAggregation)
      → some fa ≡ some (update_filter_hook c f)
      → fa ≡ update_filter_hook c f
  the_same fa f e = cc e

  served :
      IsKept ns c drc
      → (fa : FilterAggregation)
      → lookup ns (notify_filter_listeners ns c drc).filter_config_listeners ≡ some fa
      → fa.filters ≡ filters_for (kept ns (notify_filter_listeners ns c drc).filter_configs)
  served is_kept fa e = elim (Option-cases (lookup ns drc.filter_config_listeners)) [
    | inl gone ↦ absurd (
        cc (
          e,
          ap (λ (d : DrConfig). lookup ns d.filter_config_listeners) (notify_absent gone),
          gone,
        ))
    | inr (f, there) ↦ rw (kept-notify f there is_kept) (
        ap (λ (o : FilterAggregation). o.filters) (the_same fa f (sym e ∙ listener-notify f there))
        ∙ hook_filters f)
  ]

  -- Where the other namespaces are served, a notification serves this one too.
  notify-FiltersDelivered :
      ((n : String) (fa : FilterAggregation)
        → (ns == n) ≡ false
        → lookup n drc.filter_config_listeners ≡ some fa
        → fa.filters ≡ filters_for (kept n drc.filter_configs))
      → IsKept ns c drc
      → FiltersDelivered (notify_filter_listeners ns c drc)
  notify-FiltersDelivered others is_kept n fa e = elim (Bool-cases (ns == n)) [
    | inr apart ↦
        let (same_listener, same_config) = notify_elsewhere n apart in
        others n fa apart (sym same_listener ∙ e)
        ∙ ap
            (λ (o : Option (Option DrFilterConfig)).
              filters_for (elim o [ none ↦ none | some k ↦ k ]))
            (sym same_config)
    | inl same ↦
        subst
          (λ m.
            lookup m (notify_filter_listeners ns c drc).filter_config_listeners ≡ some fa
            → fa.filters ≡ filters_for (kept m (notify_filter_listeners ns c drc).filter_configs))
          ((eq_iff ns n).0 same) (served is_kept fa) e
  ]

-- A notification changes nothing of the clusters.
pub notify-settings :
    (ns : String) (c : Option DrFilterConfig) (drc : DrConfig)
    → SettingsDelivered drc
    → SettingsDelivered (notify_filter_listeners ns c drc)
unfolding notify_filter_listeners
notify-settings ns c drc d = elim (Option-cases (lookup ns drc.filter_config_listeners)) [
  | inl e ↦ rw (e, notify_filter_listeners) d
  | inr (f, e) ↦ rw (e, notify_filter_listeners) d
]

pub notify-nodup :
    (ns : String) (c : Option DrFilterConfig) (drc : DrConfig)
    → NodupKeys drc.namespace_configed_cluster
    → NodupKeys (notify_filter_listeners ns c drc).namespace_configed_cluster
unfolding notify_filter_listeners
notify-nodup ns c drc d = elim (Option-cases (lookup ns drc.filter_config_listeners)) [
  | inl e ↦ rw (e, notify_filter_listeners) d
  | inr (f, e) ↦ rw (e, notify_filter_listeners) d
]

pub filter_config_step :
    (ns : String) (c : Option DrFilterConfig) (drc : DrConfig)
    → FiltersDelivered drc
    → FiltersDelivered (update_filter_config_to_container ns c drc)
unfolding update_filter_config_to_container
filter_config_step ns c drc d =
    notify-FiltersDelivered ns c (record drc { filter_configs = insert ns c drc.filter_configs })
      (λ n fa apart e.
        d n fa e
        ∙ ap
            (λ (o : Option (Option DrFilterConfig)).
              filters_for (elim o [ none ↦ none | some k ↦ k ]))
            (sym (rw apart at (lookup-insert ns n c drc.filter_configs))))
      (inl (ground (arith, eq_refl ns, lookup-insert ns ns c drc.filter_configs)))

kept-IsKept : (ns : String) (drc : DrConfig) → IsKept ns (kept ns drc.filter_configs) drc
kept-IsKept ns drc = elim (Option-cases (lookup ns drc.filter_configs)) [
  | inl e ↦ inr (e, rw (kept, e))
  | inr (f, e) ↦ inl (rw (kept, e))
]

pub filter_listener_step :
    (ns : String) (fa : FilterAggregation) (drc : DrConfig)
    → FiltersDelivered drc
    → FiltersDelivered (reg_filter_config_listener ns fa drc)
unfolding reg_filter_config_listener
filter_listener_step ns fa drc d =
    notify-FiltersDelivered ns (kept ns drc.filter_configs)
      (record drc { filter_config_listeners = insert ns fa drc.filter_config_listeners })
      (λ n f apart e.
        d n f (ground (arith, e, apart, lookup-insert ns n fa drc.filter_config_listeners)))
      (kept-IsKept ns drc)
