-- ===== src/Activation/Steps.antt =====
-- The calls of `ActivationService` that change the active revisions, in any order.
use n4x_core.Prelude.{String}
use n4x_core.Activation.State.{ActivationGraph, Ports}
use n4x_core.Activation.Service.{activate, rollback}
use n4x_core.Activation.Consistent.{IsConsistent}
use n4x_core.Activation.Services.{KeepConsistent, RestoreCaptured}
use n4x_core.Activation.Calls.{activate-IsConsistent, rollback-IsConsistent}

module _ (ports : Ports) where
  pub data Step : ActivationGraph → ActivationGraph → Type 0 where
    activated :
        {g : ActivationGraph} (revision_id policy : String)
        → Step g (activate ports revision_id policy g).1
    rolled_back :
        {g : ActivationGraph} (application_id revision_id : String)
        → Step g (rollback ports application_id revision_id g).1

  pub data Reach (g : ActivationGraph) : ActivationGraph → Type 0 where
    here : Reach g g
    next : {s t : ActivationGraph} → Reach g s → Step s t → Reach g t

module _ (ports : Ports) (laws : KeepConsistent ports) (restoring : RestoreCaptured ports) where
  Step-IsConsistent : {s t : ActivationGraph} → Step ports s t → IsConsistent s → IsConsistent t
  Step-IsConsistent {s} (activated revision_id policy) c =
      activate-IsConsistent ports laws restoring revision_id policy s c
  Step-IsConsistent {s} (rolled_back application_id revision_id) c =
      rollback-IsConsistent ports laws restoring application_id revision_id s c

  -- However revisions are activated and rolled back, and whichever of the calls raise at any of their
  -- steps: every active revision that an application names is there, belongs to it and has the status
  -- "active", and no other revision has this status. It is assumed that the services that activation
  -- calls, whether they raise or not, keep this themselves and neither add nor remove revisions nor
  -- move one to another application; and that restoring a checkpoint either leaves the graph as it is
  -- or puts back the active revision and the statuses of the application that were captured under that
  -- id, and nothing else. That a restored graph keeps the invariant is not assumed.
  pub Reach-IsConsistent :
      (g h : ActivationGraph) → IsConsistent g → Reach ports g h → IsConsistent h
  Reach-IsConsistent g h c here = c
  Reach-IsConsistent g h c (next {s} r step) = Step-IsConsistent step (Reach-IsConsistent g s c r)
