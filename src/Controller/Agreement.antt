-- ===== src/Controller/Agreement.antt =====
-- The workers that run, against the contexts that the reconciler of namespaces remembers.
use dr.Base.{
  ◌≡◌, ◌⊎◌, ◌≢◌, sym, ◌∙◌, ◌==◌, arith, String, ℕ, ◌<◌, ◌≤◌, false, List, [], ◌∷◌, some, Bool-cases,
  inl, inr, eq_iff, All, All-map, Any,
}
use dr.Base.Dict.{lookup, lookup-erase, erase}
use dr.Controller.Workers.{Worker, stop, cancel}
use dr.Controller.NamespaceController.{NamespaceState}

-- The contexts fall from the bound on: the newest worker stands first.
abbrev pub Falling : ℕ → List Worker → Type 0
Falling bound [] = Unit
Falling bound (w ∷ ws) = (w.context < bound) × Falling w.context ws

abbrev pub IsWorker : String → ℕ → Worker → Type 0
IsWorker ns c w = (w.namespace ≡ ns) × (w.context ≡ c)

-- Each remembered context is that of a running worker of its namespace, each running worker is
-- the remembered one, and all contexts are different.
pub record Agrees (s : NamespaceState) : Type 0 where
  pub remembered :
      (ns : String) (c : ℕ)
      → lookup ns s.cancel_funcs ≡ some c
      → Any (IsWorker ns c) s.workers.running
  pub known : All (λ w. lookup w.namespace s.cancel_funcs ≡ some w.context) s.workers.running
  pub falling : Falling s.workers.next_context s.workers.running

Falling-weaken : (a b : ℕ) (ws : List Worker) → a ≤ b → Falling a ws → Falling b ws
Falling-weaken a b [] h k = tt
Falling-weaken a b (w ∷ ws) h (k, l) = (omega arith, l)

pub below :
    (b c : ℕ) (ns : String) (ws : List Worker) → Falling b ws → Any (IsWorker ns c) ws → c < b
below b c ns [] f h = elim h [ ]
below b c ns (w ∷ ws) (k, f) (Any.here (_, e)) = omega (arith, e)
below b c ns (w ∷ ws) (k, f) (Any.there h) = omega (arith, below w.context c ns ws f h)

one_namespace :
    (b c : ℕ) (ns m : String) (ws : List Worker)
    → Falling b ws
    → Any (IsWorker ns c) ws
    → Any (IsWorker m c) ws
    → ns ≡ m
one_namespace b c ns m [] f h k = elim h [ ]
one_namespace b c ns m (w ∷ ws) (_, f) (Any.here (p, _)) (Any.here (q, _)) = sym p ∙ q
one_namespace b c ns m (w ∷ ws) (_, f) (Any.here (_, e)) (Any.there k) =
    absurd (omega (arith, e, below w.context c m ws f k))
one_namespace b c ns m (w ∷ ws) (_, f) (Any.there h) (Any.here (_, e)) =
    absurd (omega (arith, e, below w.context c ns ws f h))
one_namespace b c ns m (w ∷ ws) (_, f) (Any.there h) (Any.there k) =
    one_namespace w.context c ns m ws f h k

stop-Falling : (b c : ℕ) (ws : List Worker) → Falling b ws → Falling b (stop c ws)
unfolding stop
stop-Falling b c [] f = tt
stop-Falling b c (w ∷ ws) (k, f) =
    ground
      (arith, stop-Falling w.context c ws f, Falling-weaken w.context b (stop c ws) (omega arith))

stop_cases :
    (c : ℕ) (w : Worker) (ws : List Worker)
    → ((w.context ≡ c) × (stop c (w ∷ ws) ≡ stop c ws))
      ⊎ ((w.context ≢ c) × (stop c (w ∷ ws) ≡ w ∷ stop c ws))
unfolding stop
stop_cases c w ws =
    let either : (w.context ≡ c) ⊎ (w.context ≢ c) = omega arith in
    elim either [
      | inl e ↦ inl (e, ground (arith, e))
      | inr apart ↦ inr (apart, ground (arith, apart))
    ]

pub differ : (ns m : String) → (ns == m) ≡ false → ns ≢ m
differ ns m apart e = cc (apart, (eq_iff ns m).1 e)

stop-Any :
    (c d : ℕ) (m : String) (ws : List Worker)
    → d ≢ c
    → Any (IsWorker m d) ws
    → Any (IsWorker m d) (stop c ws)
stop-Any c d m [] apart h = elim h [ ]
stop-Any c d m (w ∷ ws) apart (Any.here (p, e)) = elim (stop_cases c w ws) [
  | inl (same, _) ↦ absurd (apart (sym e ∙ same))
  | inr (_, kept) ↦ rw kept (Any.here (p, e))
]
stop-Any c d m (w ∷ ws) apart (Any.there h) = elim (stop_cases c w ws) [
  | inl (_, gone) ↦ rw gone (stop-Any c d m ws apart h)
  | inr (_, kept) ↦ rw kept (Any.there (stop-Any c d m ws apart h))
]

stop-All {κ} :
    (P : Worker → Type κ) (c : ℕ) (ws : List Worker)
    → All P ws
    → All (λ w. P w × (w.context ≢ c)) (stop c ws)
unfolding stop
stop-All P c [] h = tt
stop-All P c (w ∷ ws) (p, h) = elim (stop_cases c w ws) [
  | inl (_, gone) ↦ rw gone (stop-All P c ws h)
  | inr (apart, kept) ↦ rw kept ((p, apart), stop-All P c ws h)
]

-- The state after the worker with the context `c` of a namespace is stopped and forgotten.
pub stopped-Agrees :
    (ns : String) (c : ℕ) (s t : NamespaceState)
    → lookup ns s.cancel_funcs ≡ some c
    → t.cancel_funcs ≡ erase ns s.cancel_funcs
    → t.workers ≡ cancel c s.workers
    → Agrees s
    → Agrees t
unfolding cancel
stopped-Agrees ns c s t running erased stopped h =
    let ws = s.workers.running in
    let next = s.workers.next_context in
    let mine = h.remembered ns c running in
    record {
      remembered = λ m d found_m. elim (Bool-cases (ns == m)) [
        | inl same ↦ absurd (cc (rw (erased, lookup-erase, same) at found_m))
        | inr apart ↦
            let theirs = h.remembered m d (rw (erased, lookup-erase, apart) at found_m) in
            rw stopped (
              stop-Any c d m ws
                (λ one.
                  differ ns m apart
                    (one_namespace next c ns m ws h.falling mine (rw one at theirs)))
                theirs)
      ];
      known =
          rw (erased, stopped)
            (All-map _ _ (stop c ws)
              (λ w (k, apart). rw lookup-erase (elim (Bool-cases (ns == w.namespace)) [
                | inl same ↦ absurd (apart (cc (k, running, (eq_iff ns w.namespace).0 same)))
                | inr other ↦ rw other k
              ]))
              (stop-All (λ w. lookup w.namespace s.cancel_funcs ≡ some w.context) c ws h.known));
      falling = rw stopped (stop-Falling next c ws h.falling);
    }
