-- ===== src/Configs/SettingSteps.antt =====
-- The steps of the container that concern the settings of the clusters.
use dr.Base.{
  ◌≡◌, sym, ap, ◌∙◌, ◌==◌, arith, String, false, Option, none, some, Bool-cases, Option-cases, inl,
  inr, eq_iff, eq_refl,
}
use dr.Base.Dict.{lookup, insert, lookup-insert, NodupKeys, insert-NodupKeys}
use dr.Api.{PairClusterSettings}
use dr.Configs.Container.{
  DrConfig, notify_namespace_configed_cluster_change, update_namespace_configed_cluster,
  reg_cluster_config_listener, related_namespaces, notify_cluster_config_change,
  update_cluster_config_to_container,
}
use dr.Configs.Promises.{FiltersDelivered, SettingsDelivered, IsDelivered}
use dr.Configs.Related.{
  lookup-deliver_unrelated, related_namespaces_lem, deliver_at_related, unrelated,
}

pub cluster_config_step :
    (cluster : String) (c : Option PairClusterSettings) (drc : DrConfig)
    → NodupKeys drc.namespace_configed_cluster
    → SettingsDelivered drc
    → SettingsDelivered (update_cluster_config_to_container cluster c drc).0
unfolding update_cluster_config_to_container notify_cluster_config_change
cluster_config_step cluster none drc u d n k c' s e paired known = d n k c' s e paired known
cluster_config_step cluster (some c) drc u d n k c' s e paired known =
    elim (Bool-cases (cluster == k)) [
      | inl same ↦ cc (
        deliver_at_related c (related_namespaces cluster drc.namespace_configed_cluster)
            drc.cluster_config_listeners n s
            (related_namespaces_lem cluster n drc.namespace_configed_cluster
              (paired ∙ ap (λ j. some j) (sym ((eq_iff cluster k).0 same))))
            e,
        (rw same at (sym (lookup-insert cluster k c drc.cluster_configs) ∙ known)),
      )
      | inr apart ↦
          d n k c' s
            (sym (
                lookup-deliver_unrelated c
                  (related_namespaces cluster drc.namespace_configed_cluster)
                  drc.cluster_config_listeners n
                  (unrelated cluster k n drc.namespace_configed_cluster u apart paired))
              ∙ e)
            paired (rw apart at (sym (lookup-insert cluster k c drc.cluster_configs) ∙ known))
    ]

set_to :
    (ns cluster : String) (drc : DrConfig) (n k : String) (c : PairClusterSettings)
    (s : Option PairClusterSettings) (config : PairClusterSettings)
    → lookup ns drc.namespace_configed_cluster ≡ some cluster
    → ns ≡ n
    → lookup cluster drc.cluster_configs ≡ some config
    → some (some config) ≡ some s
    → lookup n drc.namespace_configed_cluster ≡ some k
    → lookup k drc.cluster_configs ≡ some c
    → s ≡ some c
set_to ns cluster drc n k c s config paired mine known e f g = cc (paired, mine, known, e, f, g)

notify_cluster_step :
    (ns cluster : String) (drc : DrConfig)
    → lookup ns drc.namespace_configed_cluster ≡ some cluster
    → ((n k : String) (c : PairClusterSettings) (s : Option PairClusterSettings)
        → (ns == n) ≡ false
        → lookup n drc.cluster_config_listeners ≡ some s
        → lookup n drc.namespace_configed_cluster ≡ some k
        → lookup k drc.cluster_configs ≡ some c
        → s ≡ some c)
    → SettingsDelivered (notify_namespace_configed_cluster_change ns cluster drc).0
unfolding notify_namespace_configed_cluster_change
notify_cluster_step ns cluster drc paired others =
    elim (Option-cases (lookup cluster drc.cluster_configs)) [
      | inl unknown ↦
          rw (unknown, notify_namespace_configed_cluster_change)
            (λ n k c s e f g. elim (Bool-cases (ns == n)) [
              | inr apart ↦ others n k c s apart e f g
              | inl mine ↦ absurd (ground (arith, (eq_iff ns n).0 mine, unknown, paired, f, g))
            ])
      | inr (config, known) ↦ elim (Option-cases (lookup ns drc.cluster_config_listeners)) [
        | inl absent ↦
            rw (known, absent, notify_namespace_configed_cluster_change)
              (λ n k c s e f g. elim (Bool-cases (ns == n)) [
                | inr apart ↦ others n k c s apart e f g
                | inl mine ↦ absurd (ground (arith, (eq_iff ns n).0 mine, absent, e))
              ])
        | inr (s0, there) ↦
            rw (known, there, notify_namespace_configed_cluster_change)
              (λ n k c s e f g. elim (Bool-cases (ns == n)) [
                | inr apart ↦
                    others n k c s apart
                      (rw apart at
                        (sym (lookup-insert ns n (some config) drc.cluster_config_listeners) ∙ e))
                      f g
                | inl mine ↦
                    set_to ns cluster drc n k c s config paired ((eq_iff ns n).0 mine) known
                      (rw mine at
                        (sym (lookup-insert ns n (some config) drc.cluster_config_listeners) ∙ e))
                      f g
              ])
      ]
    ]

-- A change of a pairing touches neither filters nor, but for the new pair, the keys.
notify_cluster-filters :
    (ns cluster : String) (drc : DrConfig)
    → FiltersDelivered drc
    → FiltersDelivered (notify_namespace_configed_cluster_change ns cluster drc).0
unfolding notify_namespace_configed_cluster_change
notify_cluster-filters ns cluster drc d = elim (Option-cases (lookup cluster drc.cluster_configs)) [
  | inl unknown ↦ rw (unknown, notify_namespace_configed_cluster_change) d
  | inr (config, known) ↦ elim (Option-cases (lookup ns drc.cluster_config_listeners)) [
    | inl absent ↦ rw (known, absent, notify_namespace_configed_cluster_change) d
    | inr (s0, there) ↦ rw (known, there, notify_namespace_configed_cluster_change) d
  ]
]

notify_cluster-nodup :
    (ns cluster : String) (drc : DrConfig)
    → NodupKeys drc.namespace_configed_cluster
    → NodupKeys
        (notify_namespace_configed_cluster_change ns cluster drc).0.namespace_configed_cluster
unfolding notify_namespace_configed_cluster_change
notify_cluster-nodup ns cluster drc d = elim (Option-cases (lookup cluster drc.cluster_configs)) [
  | inl unknown ↦ rw (unknown, notify_namespace_configed_cluster_change) d
  | inr (config, known) ↦ elim (Option-cases (lookup ns drc.cluster_config_listeners)) [
    | inl absent ↦ rw (known, absent, notify_namespace_configed_cluster_change) d
    | inr (s0, there) ↦ rw (known, there, notify_namespace_configed_cluster_change) d
  ]
]

pub listener_step :
    (ns : String) (s : Option PairClusterSettings) (drc : DrConfig)
    → IsDelivered drc
    → IsDelivered (reg_cluster_config_listener ns s drc).0
unfolding reg_cluster_config_listener
listener_step ns s drc d = elim (Option-cases (lookup ns drc.namespace_configed_cluster)) [
  | inl unpaired ↦ rw (unpaired, reg_cluster_config_listener) d
  | inr (cluster, paired) ↦
      rw (paired, reg_cluster_config_listener)
        (record {
          filters =
              notify_cluster-filters ns cluster
                (record drc { cluster_config_listeners = insert ns s drc.cluster_config_listeners })
                d.filters;
          settings =
              notify_cluster_step ns cluster
                (record drc { cluster_config_listeners = insert ns s drc.cluster_config_listeners })
                paired
                (λ n k c t apart e.
                  d.settings n k c t
                    (rw apart at (sym (lookup-insert ns n s drc.cluster_config_listeners) ∙ e)));
          nodup =
              notify_cluster-nodup ns cluster
                (record drc { cluster_config_listeners = insert ns s drc.cluster_config_listeners })
                d.nodup;
        })
]

pub pairing_step :
    (ns cluster : String) (drc : DrConfig)
    → IsDelivered drc
    → IsDelivered (update_namespace_configed_cluster ns cluster drc).0
unfolding update_namespace_configed_cluster
pairing_step ns cluster drc d = elim (Bool-cases (ns == "")) [
  | inl empty ↦ rw (empty, update_namespace_configed_cluster) d
  | inr named ↦ elim (Bool-cases (cluster == "")) [
    | inl empty ↦ rw (named, empty, update_namespace_configed_cluster) d
    | inr given ↦
        rw (named, given, update_namespace_configed_cluster)
          (record {
            filters =
                notify_cluster-filters ns cluster
                  (record drc {
                    namespace_configed_cluster = insert ns cluster drc.namespace_configed_cluster;
                  })
                  d.filters;
            settings =
                notify_cluster_step ns cluster
                  (record drc {
                    namespace_configed_cluster = insert ns cluster drc.namespace_configed_cluster;
                  })
                  (rw (eq_refl ns) at (lookup-insert ns ns cluster drc.namespace_configed_cluster))
                  (λ n k c t apart e f. d.settings n k c t e (
                    rw apart at
                      (sym (lookup-insert ns n cluster drc.namespace_configed_cluster) ∙ f)));
            nodup =
                notify_cluster-nodup ns cluster
                  (record drc {
                    namespace_configed_cluster = insert ns cluster drc.namespace_configed_cluster;
                  })
                  (insert-NodupKeys ns cluster drc.namespace_configed_cluster d.nodup);
          })
  ]
]
