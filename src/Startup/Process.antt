-- ===== src/Startup/Process.antt =====
-- cmd/manager/main.go, past the flags and the set-up of the log. An error ends the process with
-- status 1, but for those of the metrics.
use dr.Base.{
  String, ℕ, none, some, is_some, not, List, [], ◌∷◌, Result, ok, err, panic, if◌then◌else◌,
}
use dr.Base.Text.{split, contains}
use dr.Startup.Calls.{
  Call, Options, ServicePort, Environment, Steps, ◌>>=◌, ◌>>◌, must, try, done, get_watch_namespace,
  get_config, become_leader, new_manager, add_dr_types, add_types, get_operator_namespace,
  get_gvks_from_add_to_scheme, get_namespaces_for_metrics, generate_and_serve_cr_metrics,
  create_metrics_service, create_service_monitors, start_manager,
}
use dr.Startup.Controllers.{add_to_manager, add_to_manager_funcs}

-- The options of the manager. WATCH_NAMESPACE may name several namespaces.
unfoldable pub options_for : String → Options
options_for namespace =
    if contains namespace ","
    then record {
      namespace = "";
      new_cache = some (split "," namespace);
      metrics_bind_address = "0.0.0.0:8383";
    }
    else record { namespace = namespace; new_cache = none; metrics_bind_address = "0.0.0.0:8383" }

abbrev pub service_ports : List ServicePort
service_ports =
    record { port = 8383; name = "http-metrics"; target_port = 8383 }
    ∷ record { port = 8686; name = "cr-metrics"; target_port = 8686 }
    ∷ []

-- The error of serveCRMetrics is written to the log.
abbrev pub logged : Steps (Unit {0}) → Steps (Unit {0})
logged m made = elim (m made).1 [
  | ok _ ↦ ((m made).0, ok tt)
  | err _ ↦ ((m made).0, ok tt)
  | panic ↦ ((m made).0, panic)
]

-- The status of the process: 0 where main returns, 1 from os.Exit, 2 after a panic.
abbrev pub status : Result (Unit {0}) → ℕ
status (ok _) = 0
status (err _) = 1
status panic = 2

module _ (env : Environment) where
  unfoldable pub serve_cr_metrics : String → Steps (Unit {0})
  serve_cr_metrics operator_ns = do
    must env get_gvks_from_add_to_scheme
    must env (get_namespaces_for_metrics operator_ns)
    must env (generate_and_serve_cr_metrics "0.0.0.0" 8686)

  -- Without a service, a nil stands in the slice of services.
  unfoldable pub metrics_for : String → Steps (Unit {0})
  unfolding serve_cr_metrics
  metrics_for operator_ns = do
    logged (serve_cr_metrics operator_ns)
    service ← try env (create_metrics_service service_ports)
    failed ← try env (create_service_monitors operator_ns (not (is_some service)))
    done tt

  -- On an error but ErrRunLocal the namespace is empty, and it is used all the same.
  unfoldable pub add_metrics : Steps (Unit {0})
  unfolding metrics_for
  add_metrics = do
    failed ← try env get_operator_namespace
    elim failed [
      | none ↦ metrics_for env.operator_namespace
      | some e ↦ if env.is_run_local e then done tt else metrics_for ""
    ]

  unfoldable pub main_steps : Steps (Unit {0})
  main_steps = do
    must env get_watch_namespace
    must env get_config
    must env (become_leader "dr-lock")
    must env (new_manager (options_for env.watch_namespace))
    must env add_dr_types
    must env add_types
    add_to_manager env (add_to_manager_funcs env)
    add_metrics
    must env start_manager

  unfoldable pub main : List Call × ℕ
  unfolding main_steps
  main = ((main_steps []).0, status (main_steps []).1)
