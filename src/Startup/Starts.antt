-- ===== src/Startup/Starts.antt =====
-- When the manager is started, and with which status the process ends.
use dr.Base.{
  ◌≡◌, ◌≢◌, ◌↔◌, refl, ap, arith, ◌≤◌, List, [], ◌∷◌, ◌++◌, Result, ok, err, panic, inl, inr, ◌⊎◌,
  All, All-append, All-split, Any, Any-append_right,
}
use dr.Startup.Calls.{
  Call, Environment, Steps, ◌>>◌, must, get_watch_namespace, get_config, become_leader, new_manager,
  add_dr_types, add_types, start_manager,
}
use dr.Startup.Process.{options_for, main_steps, status, main}
use dr.Startup.Required.{
  IsAnswered, Makes, Requires, IsQuiet, ok≢err, >>-cases, >>-Requires, must-Requires, must-IsQuiet,
  controller_calls, add_to_manager-Requires, add_to_manager-IsQuiet, add_metrics-Requires,
  add_metrics-IsQuiet,
}

module _ (env : Environment) where
  -- The chain starts the manager just if these calls are answered well.
  record Starts (cs : List Call) (m : Steps (Unit {0})) : Type 0 where
    after :
        (made : List Call)
        → Makes env start_manager (m made).0
        → Makes env start_manager made ⊎ All (IsAnswered env) cs
    reaches : (made : List Call) → All (IsAnswered env) cs → Makes env start_manager (m made).0

  >>-Starts :
      (cs ds : List Call) (m k : Steps (Unit {0}))
      → Requires env cs m
      → IsQuiet env m
      → Starts ds k
      → Starts (cs ++ ds) (m >> k)
  >>-Starts cs ds m k p q s = record {
    after = λ made a. elim (>>-cases m k made) [
      | inl (e, f) ↦ elim (s.after (m made).0 (rw (ap (λ r. r.0) f) at a)) [
        | inl before ↦ inl (q.kept made before)
        | inr all ↦ inr (All-append (IsAnswered env) cs ds (p.only made e) all)
      ]
      | inr (inl (x, e, f)) ↦ inl (q.kept made (rw (ap (λ r. r.0) f) at a))
      | inr (inr e) ↦ absurd (p.ends made e)
    ];
    reaches = λ made h.
        let (first, second) = All-split (IsAnswered env) cs ds h in
        elim (>>-cases m k made) [
          | inl (e, f) ↦ rw (ap (λ r. r.0) f) (s.reaches (m made).0 second)
          | inr (inl (x, e, f)) ↦ absurd (ok≢err (p.fine made first) e)
          | inr (inr e) ↦ absurd (p.ends made e)
        ];
  }

  must-Starts : Starts [] (must env start_manager)
  unfolding must
  must-Starts = record {
    after = λ made a. inr tt;
    reaches = λ made h. Any-append_right _ made (start_manager ∷ []) (Any.here refl);
  }

  -- The calls that `main` makes before the metrics.
  abbrev pub before_start : List Call
  before_start =
      get_watch_namespace
      ∷ get_config
      ∷ become_leader "dr-lock"
      ∷ new_manager (options_for env.watch_namespace)
      ∷ add_dr_types
      ∷ add_types
      ∷ controller_calls env

  main_steps-Starts : Starts before_start (main_steps env)
  unfolding main_steps
  main_steps-Starts =
      by_call get_watch_namespace (λ e. cc e)
        (by_call get_config (λ e. cc e)
          (by_call (become_leader "dr-lock") (λ e. cc e)
            (by_call (new_manager (options_for env.watch_namespace)) (λ e. cc e)
              (by_call add_dr_types (λ e. cc e)
                (by_call add_types (λ e. cc e)
                  (>>-Starts (controller_calls env) [] _ _ (add_to_manager-Requires env)
                    (add_to_manager-IsQuiet env)
                    (>>-Starts [] [] _ _ (add_metrics-Requires env) (add_metrics-IsQuiet env)
                      must-Starts)))))))
    where
      by_call :
          (c : Call) {ds : List Call} {k : Steps (Unit {0})}
          → c ≢ start_manager
          → Starts ds k
          → Starts (c ∷ ds) (must env c >> k)
      by_call c {ds} {k} n s =
          >>-Starts (c ∷ []) ds (must env c) k (must-Requires env c) (must-IsQuiet env c n) s

  main_steps-Requires : Requires env (before_start ++ (start_manager ∷ [])) (main_steps env)
  unfolding main_steps
  main_steps-Requires = by_call get_watch_namespace (
      by_call get_config (
        by_call (become_leader "dr-lock") (
          by_call (new_manager (options_for env.watch_namespace)) (
            by_call add_dr_types (
              by_call add_types (
                >>-Requires env (controller_calls env) (start_manager ∷ []) _ _
                  (add_to_manager-Requires env)
                  (>>-Requires env [] (start_manager ∷ []) _ _ (add_metrics-Requires env)
                    (must-Requires env start_manager))))))))
    where
      by_call :
          (c : Call) {ds : List Call} {k : Steps (Unit {0})}
          → Requires env ds k
          → Requires env (c ∷ ds) (must env c >> k)
      by_call c {ds} {k} s = >>-Requires env (c ∷ []) ds (must env c) k (must-Requires env c) s

  status_zero : (r : Result (Unit {0})) → status r ≡ 0 → r ≡ ok tt
  status_zero (ok _) h = refl
  status_zero (err e) h = absurd (omega arith)
  status_zero panic h = absurd (omega arith)

  status-le : (r : Result (Unit {0})) → r ≢ panic → status r ≤ 1
  status-le (ok _) n = omega arith
  status-le (err e) n = omega arith
  status-le panic n = absurd (n refl)

  -- The controller manager is started just if the namespace to watch and the configuration were
  -- read, the process became the leader, the manager was made, and the types and both controllers
  -- were added to it, whatever becomes of the metrics. The process ends with status 0 just if the
  -- manager then ends without an error as well, and else with status 1.
  pub main_starts_iff :
      (Makes env start_manager (main env).0 ↔ All (IsAnswered env) before_start)
      × (((main env).1 ≡ 0) ↔ All (IsAnswered env) (before_start ++ (start_manager ∷ [])))
      × ((main env).1 ≤ 1)
  unfolding main
  main_starts_iff = (
    (
      λ a. elim (main_steps-Starts.after [] a) [
        | inl none_made ↦ elim none_made [ ]
        | inr all ↦ all
      ],
      λ h. main_steps-Starts.reaches [] h,
    ),
    (
      λ h. main_steps-Requires.only [] (status_zero (main_steps env []).1 h),
      λ h. ap status (main_steps-Requires.fine [] h),
    ),
    status-le (main_steps env []).1 (main_steps-Requires.ends []),
  )
