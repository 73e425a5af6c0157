-- ===== src/Collector/Manager.antt =====
-- resource_manager.go and periodic/collector.go: the choice of a collector. The periodic collector
-- starts nothing.
use dr.Base.{Option, none, some}
use dr.Api.{ResourceCollectorType, list_watch, periodic, other_collector}

pub data Collector : Type 0 where
  list_watch_collector : Collector
  periodic_collector : Collector

-- newCollector; `none` is nil.
unfoldable pub new_collector : ResourceCollectorType → Option Collector
new_collector list_watch = some list_watch_collector
new_collector periodic = some periodic_collector
new_collector (other_collector _) = none
