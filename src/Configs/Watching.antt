-- ===== src/Configs/Watching.antt =====
-- What a namespace has after the config map watcher has handled events, in any number and order.
use dr.Base.{
  ◌≡◌, refl, ap, ◌∙◌, String, ◌==◌, false, Option, none, some, List, [], ◌∷◌, Result, ok, err,
  panic, eq_iff, eq_refl, Option-cases, Result-cases, Bool-cases, inl, inr, if◌then◌else◌,
}
use mathlib.Core.Path.{subst}
use dr.Base.Dict.{lookup, insert, lookup-insert}
use dr.Api.{DrFilterConfig}
use dr.Filter.{FilterAggregation, get_filters, update_filter_hook}
use dr.Configs.Container.{DrConfig, notify_filter_listeners, update_filter_config_to_container}
use dr.Configs.FilterSteps.{notify_elsewhere, notify_absent, listener-notify}
use dr.Configs.Watcher.{
  ConfigMap, on_config_map, dr_filter_key_name, ConfigMapEvent, added, updated, deleted, handle,
  handle_all,
}

-- What the container has for a namespace: the configuration, and the filters that listen.
pub record NamespaceFilters : Type 0 where
  pub config : Option (Option DrFilterConfig)
  pub listener : Option FilterAggregation

abbrev pub filters_at : String → DrConfig → NamespaceFilters
filters_at ns drc = record {
  config = lookup ns drc.filter_configs;
  listener = lookup ns drc.filter_config_listeners;
}

-- What a new configuration makes of that: it is completed where filters listen.
abbrev pub configured : DrFilterConfig → NamespaceFilters → NamespaceFilters
configured c v = elim v.listener [
  | none ↦ record { config = some (some c); listener = none }
  | some fa ↦ record {
    config = some (get_filters (some c)).0;
    listener = some (update_filter_hook (some c) fa);
  }
]

abbrev pub configured_if : Option DrFilterConfig → NamespaceFilters → NamespaceFilters
configured_if none v = v
configured_if (some c) v = configured c v

-- The configuration in a config map, if there is one that can be read.
unfoldable pub readable : (String → Result DrFilterConfig) → ConfigMap → Option DrFilterConfig
readable unmarshal cm = elim (lookup dr_filter_key_name cm.content) [
  | none ↦ none
  | some raw ↦ elim (unmarshal raw) [ ok c ↦ some c | err _ ↦ none | panic ↦ none ]
]

-- The configuration that it is for the namespace.
abbrev pub config_of :
    (String → Result DrFilterConfig) → String → Option ConfigMap → Option DrFilterConfig
config_of unmarshal ns none = none
config_of unmarshal ns (some cm) = if cm.namespace == ns then readable unmarshal cm else none

abbrev pub event_config :
    (String → Result DrFilterConfig) → String → ConfigMapEvent → Option DrFilterConfig
event_config unmarshal ns (added cm) = config_of unmarshal ns cm
event_config unmarshal ns (updated _ cm) = config_of unmarshal ns cm
event_config unmarshal ns (deleted _) = none

-- The last one of the events that has one.
abbrev pub last_config :
    (String → Result DrFilterConfig) → String → List ConfigMapEvent → Option DrFilterConfig
last_config unmarshal ns [] = none
last_config unmarshal ns (event ∷ events) =
    let later = last_config unmarshal ns events in
    elim later [ none ↦ event_config unmarshal ns event | some c ↦ some c ]

configured-configured :
    (c d : DrFilterConfig) (v : NamespaceFilters) → configured c (configured d v) ≡ configured c v
unfolding update_filter_hook
configured-configured c d v = elim (Option-cases v.listener) [
  | inl e ↦ rw e refl
  | inr (fa, e) ↦ rw e refl
]

-- With the configuration put in before the listeners are told.
abbrev put_in : String → DrFilterConfig → DrConfig → DrConfig
put_in ns c drc = record drc { filter_configs = insert ns (some c) drc.filter_configs }

filters_at-update_elsewhere :
    (n ns : String) (c : DrFilterConfig) (drc : DrConfig)
    → (n == ns) ≡ false
    → filters_at ns (update_filter_config_to_container n (some c) drc) ≡ filters_at ns drc
unfolding update_filter_config_to_container
filters_at-update_elsewhere n ns c drc apart =
    let (listener, config) = notify_elsewhere n (some c) (put_in n c drc) ns apart in
    let before : lookup ns (put_in n c drc).filter_configs ≡ lookup ns drc.filter_configs =
      rw (lookup-insert, apart) refl in
    λ i. record { config = (config ∙ before) i; listener = listener i }

config-notify :
    (ns : String) (c : DrFilterConfig) (drc : DrConfig) (fa : FilterAggregation)
    → lookup ns drc.filter_config_listeners ≡ some fa
    → lookup ns drc.filter_configs ≡ some (some c)
    → lookup ns (notify_filter_listeners ns (some c) drc).filter_configs
      ≡ some (get_filters (some c)).0
unfolding notify_filter_listeners
config-notify ns c drc fa e there =
    rw (e, notify_filter_listeners, there) (rw (lookup-insert, eq_refl) refl)

filters_at-update_same :
    (ns : String) (c : DrFilterConfig) (drc : DrConfig)
    → filters_at ns (update_filter_config_to_container ns (some c) drc)
      ≡ configured c (filters_at ns drc)
unfolding update_filter_config_to_container
filters_at-update_same ns c drc =
    let there : lookup ns (put_in ns c drc).filter_configs ≡ some (some c) =
      rw (lookup-insert, eq_refl) refl in
    elim (Option-cases (lookup ns drc.filter_config_listeners)) [
      | inl gone ↦ rw gone (
          ap (filters_at ns) (notify_absent ns (some c) (put_in ns c drc) gone)
          ∙ (λ i. record { config = there i; listener = gone i }))
      | inr (fa, e) ↦
          let config = config-notify ns c (put_in ns c drc) fa e there in
          let listener = listener-notify ns (some c) (put_in ns c drc) fa e in
          rw e (λ i. record { config = config i; listener = listener i })
    ]

-- The container after a config map of the configuration.
abbrev put_if : String → Option DrFilterConfig → DrConfig → DrConfig
put_if n none drc = drc
put_if n (some c) drc = update_filter_config_to_container n (some c) drc

on_config_map-readable :
    (unmarshal : String → Result DrFilterConfig) (cm : ConfigMap) (drc : DrConfig)
    → on_config_map unmarshal (some cm) drc ≡ put_if cm.namespace (readable unmarshal cm) drc
unfolding on_config_map readable
on_config_map-readable unmarshal cm drc =
    elim (Option-cases (lookup dr_filter_key_name cm.content)) [
      | inl absent ↦ rw (absent, on_config_map, readable) refl
      | inr (raw, e) ↦ elim (Result-cases (unmarshal raw)) [
        | inl (c, f) ↦ rw (e, on_config_map, readable, f) refl
        | inr (inl (x, f)) ↦ rw (e, on_config_map, readable, f) refl
        | inr (inr f) ↦ rw (e, on_config_map, readable, f) refl
      ]
    ]

filters_at-put_if :
    (n ns : String) (c : Option DrFilterConfig) (drc : DrConfig)
    → filters_at ns (put_if n c drc)
      ≡ configured_if (if n == ns then c else none) (filters_at ns drc)
filters_at-put_if n ns none drc = elim (Bool-cases (n == ns)) [
  | inl same ↦ rw same refl
  | inr apart ↦ rw apart refl
]
filters_at-put_if n ns (some c) drc = elim (Bool-cases (n == ns)) [
  | inl same ↦ rw same (
      subst
        (λ m.
          filters_at m (update_filter_config_to_container n (some c) drc)
          ≡ configured c (filters_at m drc))
        ((eq_iff n ns).0 same) (filters_at-update_same n c drc))
  | inr apart ↦ rw apart (filters_at-update_elsewhere n ns c drc apart)
]

config_map-config :
    (unmarshal : String → Result DrFilterConfig) (ns : String) (cm : Option ConfigMap)
    (drc : DrConfig)
    → filters_at ns (on_config_map unmarshal cm drc)
      ≡ configured_if (config_of unmarshal ns cm) (filters_at ns drc)
unfolding on_config_map
config_map-config unmarshal ns none drc = refl
config_map-config unmarshal ns (some cm) drc =
    ap (filters_at ns) (on_config_map-readable unmarshal cm drc)
    ∙ filters_at-put_if cm.namespace ns (readable unmarshal cm) drc

handle-config :
    (unmarshal : String → Result DrFilterConfig) (ns : String) (event : ConfigMapEvent)
    (drc : DrConfig)
    → filters_at ns (handle unmarshal event drc)
      ≡ configured_if (event_config unmarshal ns event) (filters_at ns drc)
unfolding handle
handle-config unmarshal ns (added cm) drc = config_map-config unmarshal ns cm drc
handle-config unmarshal ns (updated old cm) drc = config_map-config unmarshal ns cm drc
handle-config unmarshal ns (deleted cm) drc = refl

configured_if-later :
    (now later : Option DrFilterConfig) (v : NamespaceFilters)
    → configured_if later (configured_if now v)
      ≡ configured_if (elim later [ none ↦ now | some c ↦ some c ]) v
configured_if-later now none v = refl
configured_if-later none (some c) v = refl
configured_if-later (some d) (some c) v = configured-configured c d v

-- After the config map watcher has handled any events, what a namespace has in the container, its
-- configuration and the filters that listen, is what it had before with the configuration of the
-- last added or updated config map of the namespace that has a readable one, if there is any: a
-- deletion takes nothing back.
pub filters_at-handle_all :
    (unmarshal : String → Result DrFilterConfig) (ns : String) (events : List ConfigMapEvent)
    (drc : DrConfig)
    → filters_at ns (handle_all unmarshal events drc)
      ≡ configured_if (last_config unmarshal ns events) (filters_at ns drc)
unfolding handle_all
filters_at-handle_all unmarshal ns [] drc = refl
filters_at-handle_all unmarshal ns (event ∷ events) drc =
    filters_at-handle_all unmarshal ns events (handle unmarshal event drc)
    ∙ ap (configured_if (last_config unmarshal ns events)) (handle-config unmarshal ns event drc)
    ∙ configured_if-later (event_config unmarshal ns event) (last_config unmarshal ns events)
        (filters_at ns drc)
