-- ===== src/Tests/StartupTests.antt =====
-- One run of each theorem on the start of the process.
use dr.Base.{◌≡◌, ◌≤◌, ◌↔◌, Option, none, some, true, Error, failure, [], ◌∷◌, ◌++◌, All}
use dr.Startup.{Call, Environment, get_operator_namespace, start_manager, main}
use dr.Startup.Required.{IsAnswered, Makes}
use dr.Startup.Starts.{before_start, main_starts_iff}

-- The process runs outside of a cluster, and all else is answered.
abbrev answer_locally : Call → Option Error
answer_locally get_operator_namespace = some (failure "operator run mode forced to local")
answer_locally _ = none

abbrev local : Environment
local = record {
  answer = answer_locally;
  watch_namespace = "shop,market";
  operator_namespace = "";
  is_run_local = λ e. true;
}

main_starts_iff_example :
    (Makes local start_manager (main local).0 ↔ All (IsAnswered local) (before_start local))
    × (((main local).1 ≡ 0) ↔ All (IsAnswered local) (before_start local ++ (start_manager ∷ [])))
    × ((main local).1 ≤ 1)
main_starts_iff_example = main_starts_iff local
