-- ===== src/Collector/Start.antt =====
-- `Start` of listwatch/collector.go. The configuration of the cluster, the dynamic client and the
-- discovery client are parameters. The errors of discovery are dropped by the code, and its answer
-- is what is left of it; the discovery client is nil after an error, and is read through.
use dr.Base.{String, Option, List, [], ◌∷◌, ◌++◌, Result, ok, err, panic, ◌>>=◌}
use dr.Api.{GroupVersionResource}
use dr.Collector.ListWatch.{ApiResourceList, GroupVersion, gvr_to_watch}

-- What is asked of the shared informer factory: an informer for a resource with a handler, to wait
-- for the caches of the informers that run, and to start all informers.
pub data InformerCall : Type 0 where
  add_event_handler : GroupVersionResource → InformerCall
  wait_for_cache_sync : InformerCall
  start_informers : InformerCall

-- `if err != nil { panic(err) }`
abbrev or_panic {ℓ} : {A : Type ℓ} → Result A → Result A
or_panic (ok a) = ok a
or_panic (err _) = panic
or_panic panic = panic

unfoldable pub add_event_handlers : List GroupVersionResource → List InformerCall
add_event_handlers [] = []
add_event_handlers (gvr ∷ gvrs) = add_event_handler gvr ∷ add_event_handlers gvrs

module _ {ℓ κ μ} {C : Type ℓ} {D : Type κ} {E : Type μ} (get_config : Result C)
    (new_for_config : C → Result D) (new_discovery_client : C → Result E)
    (server_preferred_resources : E → List ApiResourceList)
    (parse_group_version : String → Option GroupVersion) where
  unfoldable pub start_list_watch : Result (List InformerCall)
  unfolding add_event_handlers
  start_list_watch = do
    cfg ← or_panic get_config
    client ← or_panic (new_for_config cfg)
    discovery ← or_panic (new_discovery_client cfg)
    ok (
        add_event_handlers (gvr_to_watch parse_group_version (server_preferred_resources discovery))
        ++ (wait_for_cache_sync ∷ start_informers ∷ []))
