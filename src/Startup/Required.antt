-- ===== src/Startup/Required.antt =====
-- Which answers the start of the process depends on, and what it does before the manager runs.
use dr.Base.{
  ◌≡◌, ◌≢◌, refl, sym, ◌∙◌, ap, List, [], ◌∷◌, ◌++◌, Option, none, some, Bool-cases, inl, inr, ◌⊎◌,
  Error, Result, Result-cases, ok, err, panic, All, All-append, All-split, Any, Any-append, String,
  if◌then◌else◌,
}
use dr.Startup.Calls.{
  Call, Environment, Steps, ◌>>=◌, ◌>>◌, must, tell, try, done, answered, new_controller, watch,
  run_status_updater, get_operator_namespace, get_gvks_from_add_to_scheme,
  get_namespaces_for_metrics, generate_and_serve_cr_metrics, create_metrics_service, start_manager,
}
use dr.Startup.Controllers.{add_to_manager, add_to_manager_funcs, add_drcluster, add_drnamespace}
use dr.Startup.Process.{service_ports, serve_cr_metrics, logged, metrics_for, add_metrics}

pub ok≢err : {r : Result (Unit {0})} {e : Error} → r ≡ ok tt → r ≡ err e → ⊥
ok≢err h k = cc (h, k)

panic≢err : {r : Result (Unit {0})} {e : Error} → r ≡ panic → r ≡ err e → ⊥
panic≢err h k = cc (h, k)

-- What the first step decides.
pub >>-cases :
    (m k : Steps (Unit {0})) (made : List Call)
    → (((m made).1 ≡ ok tt) × ((m >> k) made ≡ k (m made).0))
      ⊎ (((e : Error) × ((m made).1 ≡ err e) × ((m >> k) made ≡ ((m made).0, err e)))
          ⊎ ((m made).1 ≡ panic))
>>-cases m k made = elim (Result-cases (m made).1) [
  | inl (_, e) ↦ inl (e, rw (e, ◌>>=◌) refl)
  | inr (inl (x, e)) ↦ inr (inl (x, e, rw (e, ◌>>=◌) refl))
  | inr (inr e) ↦ inr (inr e)
]

module _ (env : Environment) where
  abbrev pub IsAnswered : Call → Type 0
  IsAnswered c = env.answer c ≡ none

  abbrev pub Makes : Call → List Call → Type 0
  Makes c calls = Any (λ d. d ≡ c) calls

  -- The chain ends well just if these calls do, and does not panic.
  pub record Requires (cs : List Call) (m : Steps (Unit {0})) : Type 0 where
    pub fine : (made : List Call) → All IsAnswered cs → (m made).1 ≡ ok tt
    pub only : (made : List Call) → (m made).1 ≡ ok tt → All IsAnswered cs
    pub ends : (made : List Call) → (m made).1 ≢ panic

  -- The chain starts no manager.
  pub record IsQuiet (m : Steps (Unit {0})) : Type 0 where
    pub kept : (made : List Call) → Makes start_manager (m made).0 → Makes start_manager made

  added :
      (c : Call) (made : List Call)
      → c ≢ start_manager
      → Makes start_manager (made ++ (c ∷ []))
      → Makes start_manager made
  added c made n a = elim (Any-append _ made (c ∷ []) a) [
    | inl l ↦ l
    | inr (Any.here e) ↦ absurd (n e)
    | inr (Any.there r) ↦ elim r [ ]
  ]

  pub must-Requires : (c : Call) → Requires (c ∷ []) (must env c)
  unfolding must
  must-Requires c = record {
    fine = λ made (h, _). rw h refl;
    only = λ made h. (answered_none (env.answer c) h, tt);
    ends = λ made. answered_ends (env.answer c);
  }
    where
      answered_none : (o : Option Error) → answered o ≡ ok tt → o ≡ none
      answered_none none h = refl
      answered_none (some e) h = absurd (cc h)

      answered_ends : (o : Option Error) → answered o ≢ panic
      answered_ends none h = cc h
      answered_ends (some e) h = cc h

  pub >>-Requires :
      (cs ds : List Call) (m k : Steps (Unit {0}))
      → Requires cs m
      → Requires ds k
      → Requires (cs ++ ds) (m >> k)
  >>-Requires cs ds m k p q = record {
    fine = λ made h.
        let (first, second) = All-split IsAnswered cs ds h in
        elim (>>-cases m k made) [
          | inl (e, f) ↦ ap (λ r. r.1) f ∙ q.fine (m made).0 second
          | inr (inl (x, e, f)) ↦ absurd (ok≢err (p.fine made first) e)
          | inr (inr e) ↦ absurd (p.ends made e)
        ];
    only = λ made h. elim (>>-cases m k made) [
      | inl (e, f) ↦
          All-append IsAnswered cs ds (p.only made e)
            (q.only (m made).0 (sym (ap (λ r. r.1) f) ∙ h))
      | inr (inl (x, e, f)) ↦ absurd (ok≢err h (ap (λ r. r.1) f))
      | inr (inr e) ↦ absurd (p.ends made e)
    ];
    ends = λ made h. elim (>>-cases m k made) [
      | inl (e, f) ↦ q.ends (m made).0 (sym (ap (λ r. r.1) f) ∙ h)
      | inr (inl (x, e, f)) ↦ panic≢err h (ap (λ r. r.1) f)
      | inr (inr e) ↦ p.ends made e
    ];
  }

  pub >>-IsQuiet : (m k : Steps (Unit {0})) → IsQuiet m → IsQuiet k → IsQuiet (m >> k)
  >>-IsQuiet m k p q = record {
    kept = λ made a. elim (Result-cases (m made).1) [
      | inl (_, e) ↦ p.kept made (q.kept (m made).0 (rw (e, ◌>>=◌) at a))
      | inr (inl (x, e)) ↦ p.kept made (rw (e, ◌>>=◌) at a)
      | inr (inr e) ↦ p.kept made (rw (e, ◌>>=◌) at a)
    ];
  }

  pub must-IsQuiet : (c : Call) → c ≢ start_manager → IsQuiet (must env c)
  unfolding must
  must-IsQuiet c n = record { kept = λ made a. added c made n a }

  tell-IsQuiet : (c : Call) → c ≢ start_manager → IsQuiet (tell c)
  unfolding tell
  tell-IsQuiet c n = record { kept = λ made a. added c made n a }

  tell-Requires : (c : Call) → Requires [] (tell c)
  unfolding tell
  tell-Requires c = record { fine = λ made h. refl; only = λ made h. tt; ends = λ made h. cc h }

  done-Requires : Requires [] (done tt)
  done-Requires = record { fine = λ made h. refl; only = λ made h. tt; ends = λ made h. cc h }

  logged-Requires : (cs : List Call) (m : Steps (Unit {0})) → Requires cs m → Requires [] (logged m)
  logged-Requires cs m p = record {
    fine = λ made h. elim (Result-cases (m made).1) [
      | inl (_, e) ↦ rw (e, logged) refl
      | inr (inl (x, e)) ↦ rw (e, logged) refl
      | inr (inr e) ↦ absurd (p.ends made e)
    ];
    only = λ made h. tt;
    ends = λ made h. elim (Result-cases (m made).1) [
      | inl (_, e) ↦ absurd (cc (rw (e, logged) at h))
      | inr (inl (x, e)) ↦ absurd (cc (rw (e, logged) at h))
      | inr (inr e) ↦ p.ends made e
    ];
  }

  logged-IsQuiet : (m : Steps (Unit {0})) → IsQuiet m → IsQuiet (logged m)
  logged-IsQuiet m q = record {
    kept = λ made a. elim (Result-cases (m made).1) [
      | inl (_, e) ↦ q.kept made (rw (e, logged) at a)
      | inr (inl (x, e)) ↦ q.kept made (rw (e, logged) at a)
      | inr (inr e) ↦ q.kept made (rw (e, logged) at a)
    ];
  }

  done-IsQuiet : IsQuiet (done tt)
  done-IsQuiet = record { kept = λ made a. a }

  -- A call whose error is only seen.
  try-Requires :
      (c : Call) (f : Option Error → Steps (Unit {0}))
      → ((o : Option Error) → Requires [] (f o))
      → Requires [] (try env c >>= f)
  unfolding try
  try-Requires c f h = record {
    fine = λ made k. (h (env.answer c)).fine (made ++ (c ∷ [])) k;
    only = λ made k. tt;
    ends = λ made k. (h (env.answer c)).ends (made ++ (c ∷ [])) k;
  }

  try-IsQuiet :
      (c : Call) (f : Option Error → Steps (Unit {0}))
      → c ≢ start_manager
      → ((o : Option Error) → IsQuiet (f o))
      → IsQuiet (try env c >>= f)
  unfolding try
  try-IsQuiet c f n h = record {
    kept = λ made a. added c made n ((h (env.answer c)).kept (made ++ (c ∷ [])) a);
  }

  serve_cr_metrics-IsQuiet : (ns : String) → IsQuiet (serve_cr_metrics env ns)
  unfolding serve_cr_metrics
  serve_cr_metrics-IsQuiet ns =
      >>-IsQuiet _ _ (must-IsQuiet get_gvks_from_add_to_scheme (λ e. cc e)) (
        >>-IsQuiet _ _ (must-IsQuiet (get_namespaces_for_metrics ns) (λ e. cc e))
          (must-IsQuiet (generate_and_serve_cr_metrics "0.0.0.0" 8686) (λ e. cc e)))

  serve_cr_metrics-Requires :
      (ns : String)
      → Requires
          (get_gvks_from_add_to_scheme
            ∷ get_namespaces_for_metrics ns
            ∷ generate_and_serve_cr_metrics "0.0.0.0" 8686
            ∷ [])
          (serve_cr_metrics env ns)
  unfolding serve_cr_metrics
  serve_cr_metrics-Requires ns =
      >>-Requires (get_gvks_from_add_to_scheme ∷ []) _ _ _ (must-Requires _)
        (>>-Requires (get_namespaces_for_metrics ns ∷ []) _ _ _ (must-Requires _) (must-Requires _))

  metrics_for-Requires : (ns : String) → Requires [] (metrics_for env ns)
  unfolding metrics_for
  metrics_for-Requires ns =
      >>-Requires [] [] _ _ (logged-Requires _ _ (serve_cr_metrics-Requires ns)) (
        try-Requires (create_metrics_service service_ports) _
          λ service. try-Requires _ _ λ failed. done-Requires)

  metrics_for-IsQuiet : (ns : String) → IsQuiet (metrics_for env ns)
  unfolding metrics_for
  metrics_for-IsQuiet ns = >>-IsQuiet _ _ (logged-IsQuiet _ (serve_cr_metrics-IsQuiet ns)) (
      try-IsQuiet (create_metrics_service service_ports) _ (λ e. cc e)
        λ service. try-IsQuiet _ _ (λ e. cc e) λ failed. done-IsQuiet)

  -- What follows the question for the namespace of the operator.
  after_namespace-Requires :
      (o : Option Error)
      → Requires [] (elim o [
        | none ↦ metrics_for env env.operator_namespace
        | some e ↦ if env.is_run_local e then done tt else metrics_for env ""
      ])
  after_namespace-Requires none = metrics_for-Requires env.operator_namespace
  after_namespace-Requires (some e) = elim (Bool-cases (env.is_run_local e)) [
    | inl here ↦ rw here done-Requires
    | inr apart ↦ rw apart (metrics_for-Requires "")
  ]

  after_namespace-IsQuiet :
      (o : Option Error)
      → IsQuiet (elim o [
        | none ↦ metrics_for env env.operator_namespace
        | some e ↦ if env.is_run_local e then done tt else metrics_for env ""
      ])
  after_namespace-IsQuiet none = metrics_for-IsQuiet env.operator_namespace
  after_namespace-IsQuiet (some e) = elim (Bool-cases (env.is_run_local e)) [
    | inl here ↦ rw here done-IsQuiet
    | inr apart ↦ rw apart (metrics_for-IsQuiet "")
  ]

  pub add_metrics-Requires : Requires [] (add_metrics env)
  unfolding add_metrics
  add_metrics-Requires = try-Requires get_operator_namespace _ after_namespace-Requires

  pub add_metrics-IsQuiet : IsQuiet (add_metrics env)
  unfolding add_metrics
  add_metrics-IsQuiet = try-IsQuiet get_operator_namespace _ (λ e. cc e) after_namespace-IsQuiet

  -- The calls that add the two controllers.
  abbrev pub controller_calls : List Call
  controller_calls =
      new_controller "drcluster-controller"
      ∷ watch "drcluster-controller" "DRCluster"
      ∷ new_controller "drnamespace-controller"
      ∷ watch "drnamespace-controller" "DRNamespace"
      ∷ []

  pub add_to_manager-Requires :
      Requires controller_calls (add_to_manager env (add_to_manager_funcs env))
  unfolding add_to_manager add_drcluster add_drnamespace
  add_to_manager-Requires =
      >>-Requires
        (new_controller "drcluster-controller" ∷ watch "drcluster-controller" "DRCluster" ∷ [])
        (new_controller "drnamespace-controller"
          ∷ watch "drnamespace-controller" "DRNamespace"
          ∷ [])
        _ _
        (>>-Requires (new_controller "drcluster-controller" ∷ []) _ _ _ (must-Requires _)
          (must-Requires _))
        (>>-Requires
          (new_controller "drnamespace-controller"
            ∷ watch "drnamespace-controller" "DRNamespace"
            ∷ [])
          [] _ _
          (>>-Requires [] _ _ _ (tell-Requires run_status_updater) (
            >>-Requires (new_controller "drnamespace-controller" ∷ []) _ _ _ (must-Requires _)
              (must-Requires _)))
          done-Requires)

  pub add_to_manager-IsQuiet : IsQuiet (add_to_manager env (add_to_manager_funcs env))
  unfolding add_to_manager add_drcluster add_drnamespace
  add_to_manager-IsQuiet =
      >>-IsQuiet _ _ (>>-IsQuiet _ _ (must-IsQuiet _ (λ e. cc e)) (must-IsQuiet _ (λ e. cc e))) (
        >>-IsQuiet _ _
          (>>-IsQuiet _ _ (tell-IsQuiet run_status_updater (λ e. cc e))
            (>>-IsQuiet _ _ (must-IsQuiet _ (λ e. cc e)) (must-IsQuiet _ (λ e. cc e))))
          done-IsQuiet)
