-- ===== src/Startup/Controllers.antt =====
-- controller.go and add_drcluster.go of pkg/controller, and what `Add` of the two controllers does.
use dr.Base.{List, [], ◌∷◌}
use dr.Startup.Calls.{
  Environment, Steps, ◌>>◌, must, tell, done, run_status_updater, new_controller, watch,
}
use dr.Controller.{NamespaceState}

module _ (env : Environment) where
  -- drcluster.Add; newReconciler makes no call that can fail.
  unfoldable pub add_drcluster : Steps (Unit {0})
  add_drcluster = do
    must env (new_controller "drcluster-controller")
    must env (watch "drcluster-controller" "DRCluster")

  -- drnamespace.Add; newReconciler starts the loop of the status updater.
  unfoldable pub add_drnamespace : Steps (Unit {0})
  add_drnamespace = do
    tell run_status_updater
    must env (new_controller "drnamespace-controller")
    must env (watch "drnamespace-controller" "DRNamespace")

  -- AddToManager, over AddToManagerFuncs.
  unfoldable pub add_to_manager : List (Steps (Unit {0})) → Steps (Unit {0})
  add_to_manager [] = done tt
  add_to_manager (f ∷ fs) = do f; add_to_manager fs

  -- AddToManagerFuncs, as `init` leaves it.
  abbrev pub add_to_manager_funcs : List (Steps (Unit {0}))
  add_to_manager_funcs = add_drcluster ∷ add_drnamespace ∷ []

-- The maps that newReconciler of the namespaces makes, in a process with these workers and this
-- container.
unfoldable pub new_reconciler : NamespaceState → NamespaceState
new_reconciler s = record s { dr_namespaces = []; cancel_funcs = []; previous = [] }
