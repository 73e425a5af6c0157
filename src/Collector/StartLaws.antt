-- ===== src/Collector/StartLaws.antt =====
-- The informers that the collector starts.
use dr.Base.{
  ◌≡◌, refl, ap, ◌↔◌, Any, Any-append_left, Any-append, inl, inr, String, Option, List, [], ◌∷◌,
  ◌++◌, Result, ok,
}
use dr.Api.{GroupVersionResource}
use dr.Collector.ListWatch.{ApiResourceList, GroupVersion, gvr_to_watch}
use dr.Collector.WatchLaws.{IsWatched, gvr_to_watch_iff}
use dr.Collector.Start.{
  InformerCall, add_event_handler, wait_for_cache_sync, start_informers, add_event_handlers,
  start_list_watch,
}

abbrev pub Handles : GroupVersionResource → List InformerCall → Type 0
Handles gvr calls = Any (λ c. c ≡ add_event_handler gvr) calls

handled : InformerCall → GroupVersionResource → GroupVersionResource
handled (add_event_handler g) other = g
handled _ other = other

handlers-Any :
    (gvrs : List GroupVersionResource) (g : GroupVersionResource)
    → Handles g (add_event_handlers gvrs)
    → Any (λ w. w ≡ g) gvrs
unfolding add_event_handlers handled
handlers-Any [] g a = elim a [ ]
handlers-Any (w ∷ gvrs) g (Any.here e) = Any.here (ap (λ c. handled c w) e)
handlers-Any (w ∷ gvrs) g (Any.there a) = Any.there (handlers-Any gvrs g a)

Any-handlers :
    (gvrs : List GroupVersionResource) (g : GroupVersionResource)
    → Any (λ w. w ≡ g) gvrs
    → Handles g (add_event_handlers gvrs)
unfolding add_event_handlers
Any-handlers [] g a = elim a [ ]
Any-handlers (w ∷ gvrs) g (Any.here e) = Any.here (ap add_event_handler e)
Any-handlers (w ∷ gvrs) g (Any.there a) = Any.there (Any-handlers gvrs g a)

last_calls : (g : GroupVersionResource) → ¬ (Handles g (wait_for_cache_sync ∷ start_informers ∷ []))
last_calls g (Any.here e) = cc e
last_calls g (Any.there (Any.here e)) = cc e
last_calls g (Any.there (Any.there a)) = elim a [ ]

module _ {ℓ κ μ} {C : Type ℓ} {D : Type κ} {E : Type μ} (get_config : Result C)
    (new_for_config : C → Result D) (new_discovery_client : C → Result E)
    (server_preferred_resources : E → List ApiResourceList)
    (parse_group_version : String → Option GroupVersion) where
  -- With a configuration, a client and a discovery client, Start ends well, and it hands the
  -- events of a resource on just where discovery offers the resource and it is admitted: its verbs
  -- say list and watch, and neither the group of its list nor its name is excluded.
  pub start_iff :
      (cfg : C) (client : D) (discovery : E)
      → get_config ≡ ok cfg
      → new_for_config cfg ≡ ok client
      → new_discovery_client cfg ≡ ok discovery
      → (g : GroupVersionResource)
      → (calls : List InformerCall) × (start_list_watch get_config new_for_config
            new_discovery_client server_preferred_resources parse_group_version
          ≡ ok calls)
        × (Handles g calls ↔ IsWatched parse_group_version (server_preferred_resources discovery) g)
  unfolding start_list_watch
  start_iff cfg client discovery configured made found g =
      let gvrs = gvr_to_watch parse_group_version (server_preferred_resources discovery) in
      let iff = gvr_to_watch_iff parse_group_version (server_preferred_resources discovery) g in
      (
        add_event_handlers gvrs ++ (wait_for_cache_sync ∷ start_informers ∷ []),
        rw (configured, made, start_list_watch, found) refl,
        (
          λ a. elim (Any-append _ (add_event_handlers gvrs) _ a) [
            | inl mine ↦ iff.0 (handlers-Any gvrs g mine)
            | inr others ↦ absurd (last_calls g others)
          ],
          λ w. Any-append_left _ (add_event_handlers gvrs) _ (Any-handlers gvrs g (iff.1 w)),
        ),
      )
