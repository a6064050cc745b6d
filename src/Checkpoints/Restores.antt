-- ===== src/Checkpoints/Restores.antt =====
-- What `restore` does to a graph, whether it returns or raises, in the terms that the activation of
-- Applications needs.
use n4x_core.Prelude.{String, ◌≡◌, some}
use n4x_core.Prelude.Result.{Result}
use n4x_core.Kernel.Jobs.{Application}
use n4x_core.Graph.Records
use n4x_core.Activation.State.{ActivationGraph}
use n4x_core.Activation.Restored.{Restored}
use n4x_core.Checkpoints.State.{Payload}
use n4x_core.Checkpoints.Service.{restore_statuses}

-- The application has the active revision of the payload, and the revisions have its statuses.
abbrev Put : {X : Type 0} → String → Payload X → ActivationGraph → ActivationGraph → Type 0
Put application_id payload g h =
    (a : Application) × (Records.get g.applications application_id ≡ some a)
    × (h.applications
        ≡ Records.save g.applications a.id
            (record a { active_revision_id = payload.active_revision_id }))
    × (h.revisions ≡ restore_statuses payload.revision_statuses g.revisions)
