-- ===== src/Lifecycle/BaseLaws.antt =====
-- Activation and deactivation of the worker without dependencies.
use dr.Base.{◌≡◌, ◌∙◌, refl, ap, arith, ℕ, ◌<◌, some, List, [], ◌∷◌, ok, All}
use dr.Configs.{DrConfig}
use dr.Lifecycle.BaseLife.{BaseWorker, Contexts, active, deactive, cancel_context}

-- The contexts that are not cancelled were all given out.
abbrev pub IsFreshBound : Contexts → Type 0
IsFreshBound contexts = All (λ c. c < contexts.next) contexts.live

cancel_context_absent :
    (c : ℕ) (live : List ℕ) → All (λ d. d < c) live → cancel_context c live ≡ live
unfolding cancel_context
cancel_context_absent c [] h = refl
cancel_context_absent c (d ∷ live) (less, h) = ground (arith, cancel_context_absent c live h)

cancel_context_head : (c : ℕ) (live : List ℕ) → cancel_context c (c ∷ live) ≡ cancel_context c live
unfolding cancel_context
cancel_context_head c live = ground arith

-- What `Active` does where it does not panic.
activated :
    (bnw bnw' : BaseWorker) (contexts contexts' : Contexts) (drc drc' : DrConfig)
    → active bnw (contexts, drc) ≡ ok (bnw', (contexts', drc'))
    → (bnw'.active_ctx_cancel ≡ some contexts.next)
      × (contexts'.live ≡ contexts.next ∷ contexts.live)
unfolding active
activated bnw bnw' contexts contexts' drc drc' h = ground arith

-- If every live context was given out before, then a worker that is activated and then deactivated
-- leaves just the contexts live that were live before; so after two activations, one
-- deactivation leaves the first one's loops running.
pub deactive-active :
    (bnw bnw' : BaseWorker) (contexts contexts' : Contexts) (drc drc' : DrConfig)
    → IsFreshBound contexts
    → active bnw (contexts, drc) ≡ ok (bnw', (contexts', drc'))
    → deactive bnw' contexts' ≡ ok (record contexts' { live = contexts.live })
unfolding deactive
deactive-active bnw bnw' contexts contexts' drc drc' fresh h =
    let (remembered, started) = activated bnw bnw' contexts contexts' drc drc' h in
    rw (remembered, deactive, started)
      (ap (λ l. ok (record contexts' { live = l }))
        (cancel_context_head contexts.next contexts.live
          ∙ cancel_context_absent contexts.next contexts.live fresh))
