-- ===== src/Worker/BaseWorker.antt =====
-- base_namespace_worker.go: the worker without dependencies. Nothing creates it at present.
use dr.Base.{String, ◌==◌, Bool, true, false, List, [], ◌∷◌, Result, ok, err, panic, if◌then◌else◌}
use dr.Api.{UnstructuredApi, ObjResource}
use dr.Filter.{Filter}
use dr.Transport.{Item, closed, object, foreign}
use dr.Worker.Rounds.{run_filters, get_object_namespace}

-- What goes to the transport manager, and whether the round panics.
pub record BaseRound : Type 0 where
  pub transports : List ObjResource
  pub fault : Bool

module _ (u : UnstructuredApi) (namespace : String) (filters : List Filter) where
  -- The filters, where a refusal stays an error.
  unfoldable pub base_filter : ObjResource → ObjResource × Result Bool
  unfolding run_filters
  base_filter objr = run_filters u false filters objr

  unfoldable pub base_run_round : Item → BaseRound
  unfolding base_filter get_object_namespace
  base_run_round closed = record { transports = []; fault = false }
  base_run_round foreign = record { transports = []; fault = true }
  base_run_round (object objr) =
      let (objr', r) = base_filter objr in
      if get_object_namespace u objr == namespace
      then elim r [
        | err _ ↦ record { transports = []; fault = false }
        | panic ↦ record { transports = []; fault = true }
        | ok false ↦ record { transports = []; fault = false }
        | ok true ↦ record { transports = objr' ∷ []; fault = false }
      ]
      else record { transports = []; fault = false }
