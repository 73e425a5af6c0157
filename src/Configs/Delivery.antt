-- ===== src/Configs/Delivery.antt =====
-- Registered listeners always have the configuration that the container holds for them.
use dr.Base.{◌≡◌, refl, String, [], none, some}
use dr.Base.Dict.{lookup, insert}
use dr.Configs.Container.{
  DrConfig, init_config_container, update_filter_config_to_container, kept,
  reg_filter_config_listener, notify_cluster_config_change, update_cluster_config_to_container,
}
use dr.Configs.Promises.{
  Step, filter_config, filter_listener, cluster_config, cluster_listener, namespace_cluster, Reach,
  here, next, IsDelivered,
}
use dr.Configs.FilterSteps.{notify-settings, notify-nodup, filter_config_step, filter_listener_step}
use dr.Configs.SettingSteps.{cluster_config_step, listener_step, pairing_step}

-- Each operation keeps both promises.
Step-IsDelivered : {a b : DrConfig} → Step a b → IsDelivered a → IsDelivered b
unfolding update_filter_config_to_container reg_filter_config_listener
    update_cluster_config_to_container notify_cluster_config_change
Step-IsDelivered (filter_config ns c drc) d = record {
  filters = filter_config_step ns c drc d.filters;
  settings =
      notify-settings ns c (record drc { filter_configs = insert ns c drc.filter_configs })
        d.settings;
  nodup =
      notify-nodup ns c (record drc { filter_configs = insert ns c drc.filter_configs }) d.nodup;
}
Step-IsDelivered (filter_listener ns fa drc) d = record {
  filters = filter_listener_step ns fa drc d.filters;
  settings =
      notify-settings ns (kept ns drc.filter_configs)
        (record drc { filter_config_listeners = insert ns fa drc.filter_config_listeners })
        d.settings;
  nodup =
      notify-nodup ns (kept ns drc.filter_configs)
        (record drc { filter_config_listeners = insert ns fa drc.filter_config_listeners }) d.nodup;
}
Step-IsDelivered (cluster_config cluster none drc) d = d
Step-IsDelivered (cluster_config cluster (some c) drc) d = record {
  filters = d.filters;
  settings = cluster_config_step cluster (some c) drc d.nodup d.settings;
  nodup = d.nodup;
}
Step-IsDelivered (cluster_listener ns s drc) d = listener_step ns s drc d
Step-IsDelivered (namespace_cluster ns cluster drc) d = pairing_step ns cluster drc d

lookup_empty {ℓ} : {V : Type ℓ} (k : String) → lookup {V = V} k [] ≡ none
unfolding lookup
lookup_empty k = refl

-- After any sequence of operations on a new container, every registered filter aggregation has the
-- filters for the configuration that is kept for its namespace, and every registered transporter
-- has the settings of the cluster that its namespace is paired with, if those are known.
pub Reach-IsDelivered : {drc : DrConfig} → Reach init_config_container drc → IsDelivered drc
Reach-IsDelivered here = record {
  filters = λ ns fa e. absurd (cc (e, lookup_empty ns));
  settings = λ ns cluster c s e. absurd (cc (e, lookup_empty ns));
  nodup = tt;
}
Reach-IsDelivered (next r t) = Step-IsDelivered t (Reach-IsDelivered r)
