-- ===== src/Activation/Services.antt =====
-- The steps of an activation that call the other services keep the invariant.
use n4x_core.Prelude.{
  String, Bool, true, false, ◌≡◌, refl, sym, ◌∙◌, Option, none, some, List, [], ◌∷◌, ◌⊎◌,
}
use n4x_core.Prelude.Result.{Result, ok, raise}
use n4x_core.Prelude.Exec.{transaction, continue, pure}
use n4x_core.Prelude.Outcomes.{
  Stays, continue-Stays, lift-Stays, transaction-Stays, Ends-Stays, Returns, continue-Returns,
  lift-Returns, Returns-anyway,
}
use n4x_core.Kernel.Jobs.{ApplicationRevision, RevisionStatus}
use n4x_core.Kernel.Definitions.{DefinitionRevision}
use n4x_core.Graph.Records
use n4x_core.Graph.Bindings.{get_item-eq-ok}
use n4x_core.Activation.State.{
  ActivationGraph, ActivationError, key_error, Ports, get_item, migrations,
}
use n4x_core.Activation.Switch.{freeze_status, freeze}
use n4x_core.Activation.Service.{
  run_each, run_migrations, checkpoint_of, checkpoint_if_mutating, checkpoint_unless, prepare,
  migrate_unless, evict,
}
use n4x_core.Activation.Consistent.{IsConsistent}
use n4x_core.Activation.Roster.{SameRoster, Keeps}
use n4x_core.Activation.Restored.{Restored}
use n4x_core.Activation.Units.{found-IsConsistent}

-- The other services keep the invariant, whether they raise or not, and the revisions with their
-- applications. A restored checkpoint is in the record below.
pub record KeepConsistent (ports : Ports) : Type 0 where
  pub interns :
      (revision_id : String) (g : ActivationGraph)
      → IsConsistent g
      → Keeps g (ports.intern_tree revision_id g).1
  pub resolves :
      (revision_id : String) (g : ActivationGraph)
      → IsConsistent g
      → Keeps g (ports.resolve_dependencies revision_id g).1
  pub builds :
      (revision_id : String) (g : ActivationGraph)
      → IsConsistent g
      → Keeps g (ports.build_revision_artifacts revision_id g).1
  pub migrates :
      (revision_id action_id : String) (g : ActivationGraph)
      → IsConsistent g
      → Keeps g (ports.run_migration revision_id action_id g).1
  pub captures :
      (application_id : String) (g : ActivationGraph)
      → IsConsistent g
      → Keeps g (ports.create_checkpoint application_id g).1
  pub remounts : (g : ActivationGraph) → IsConsistent g → Keeps g (ports.remount g).1
  pub evicts :
      (revision_id : String) (g : ActivationGraph)
      → IsConsistent g
      → Keeps g (ports.evict_revision revision_id g).1

-- The checkpoint service puts back what it has captured under the id, or leaves the graph as it is.
pub record RestoreCaptured (ports : Ports) : Type 0 where
  pub restores :
      (application_id checkpoint_id : String) (c d g : ActivationGraph)
      → ports.create_checkpoint application_id c ≡ (ok checkpoint_id, d)
      → IsConsistent c
      → IsConsistent g
      → ((ports.restore_checkpoint checkpoint_id g).1 ≡ g)
        ⊎ Restored application_id c g (ports.restore_checkpoint checkpoint_id g).1

-- The checkpoint of this id was captured in a consistent graph with these revisions.
abbrev pub Captured : Ports → Option String → ActivationGraph → Type 0
Captured ports none g = Unit
Captured ports (some checkpoint_id) g =
    (application_id : String) × (c : ActivationGraph) × (d : ActivationGraph)
    × (ports.create_checkpoint application_id c ≡ (ok checkpoint_id, d))
    × IsConsistent c
    × SameRoster c g

abbrev pub IsRecoverable : Ports → Option String → ActivationGraph → Type 0
IsRecoverable ports checkpoint_id g = IsConsistent g × Captured ports checkpoint_id g

pub Keeps-IsRecoverable :
    (ports : Ports) (checkpoint_id : Option String) (g h : ActivationGraph)
    → IsRecoverable ports checkpoint_id g
    → Keeps g h
    → IsRecoverable ports checkpoint_id h
Keeps-IsRecoverable ports none g h k (d, r) = (d, tt)
Keeps-IsRecoverable ports (some checkpoint_id) g h (_, (a, c, t, e, k, same)) (d, r) =
    (d, (a, c, t, e, k, λ x. r x ∙ same x))

module _ (ports : Ports) (laws : KeepConsistent ports) where
  freeze_status-Stays :
      (r : ApplicationRevision) (status : RevisionStatus) (revision_id : String)
      (g : ActivationGraph)
      → IsConsistent g
      → Records.get g.revisions revision_id ≡ some r
      → r.status ≡ status
      → Stays IsConsistent (freeze_status ports r status g)
  freeze_status-Stays r RevisionStatus.draft revision_id g c p e =
      (laws.interns r.id _ (
        found-IsConsistent r RevisionStatus.validating revision_id g c p (λ i. cc (sym e ∙ i))
          (λ i. cc))).0
  freeze_status-Stays r RevisionStatus.validating revision_id g c p e = (laws.interns r.id g c).0
  freeze_status-Stays r RevisionStatus.active revision_id g c p e = c
  freeze_status-Stays r RevisionStatus.rejected revision_id g c p e = c
  freeze_status-Stays r RevisionStatus.superseded revision_id g c p e = c

  freeze-Stays :
      (revision_id : String) (g : ActivationGraph)
      → IsConsistent g
      → Stays IsConsistent (freeze ports revision_id g)
  unfolding freeze
  freeze-Stays revision_id g c =
      lift-Stays IsConsistent (get_item g.revisions revision_id) g _ c (λ r h.
        freeze_status-Stays r r.status revision_id g c
          (get_item-eq-ok key_error g.revisions revision_id h) refl)

  run_each-Stays :
      (checkpoint_id : Option String) (revision_id : String) (items : List DefinitionRevision)
      (g : ActivationGraph)
      → IsRecoverable ports checkpoint_id g
      → Stays (IsRecoverable ports checkpoint_id) (run_each ports revision_id items g)
  run_each-Stays checkpoint_id revision_id [] g c = c
  run_each-Stays checkpoint_id revision_id (item ∷ items) g c =
      continue-Stays (IsRecoverable ports checkpoint_id) (ports.run_migration revision_id item.id g)
        _ (Keeps-IsRecoverable ports checkpoint_id g _ c (laws.migrates revision_id item.id g c.0))
        (λ u t k. run_each-Stays checkpoint_id revision_id items t k)

  checkpoint_of-Stays :
      (b : Bool) (application_id : String) (g : ActivationGraph)
      → IsConsistent g
      → Stays IsConsistent (checkpoint_of ports b application_id g)
  checkpoint_of-Stays false application_id g c = c
  checkpoint_of-Stays true application_id g c =
      continue-Stays IsConsistent (ports.create_checkpoint application_id g) _
        (laws.captures application_id g c).0 (λ id t k. k)

  checkpoint_unless-Stays :
      (installs : Bool) (revision_id : String) (g : ActivationGraph)
      → IsConsistent g
      → Stays IsConsistent (checkpoint_unless ports installs revision_id g)
  unfolding checkpoint_if_mutating
  checkpoint_unless-Stays true revision_id g c = c
  checkpoint_unless-Stays false revision_id g c =
      lift-Stays IsConsistent (migrations revision_id g) g _ c (λ items h.
        lift-Stays IsConsistent (get_item g.revisions revision_id) g _ c
          (λ r i. checkpoint_of-Stays _ r.application_id g c))

  pub prepare-Stays :
      (installs : Bool) (revision_id : String) (g : ActivationGraph)
      → IsConsistent g
      → Stays IsConsistent (prepare ports installs revision_id g)
  unfolding prepare
  prepare-Stays installs revision_id g c =
      continue-Stays IsConsistent (transaction (freeze ports revision_id) g) _
        (transaction-Stays IsConsistent (freeze ports revision_id) g c
          (Ends-Stays IsConsistent (freeze ports revision_id g) (freeze-Stays revision_id g c)))
        (λ u s k.
          continue-Stays IsConsistent (ports.resolve_dependencies revision_id s) _
            (laws.resolves revision_id s k).0
            (λ u s k.
              continue-Stays IsConsistent (ports.build_revision_artifacts revision_id s) _
                (laws.builds revision_id s k).0
                (λ u s k. checkpoint_unless-Stays installs revision_id s k)))

  captured :
      (application_id : String) (g : ActivationGraph)
      (x : Result ActivationError String × ActivationGraph)
      → IsConsistent g
      → ports.create_checkpoint application_id g ≡ x
      → Keeps g x.1
      → Returns (IsRecoverable ports) (continue x (λ id. pure (some id)))
  captured application_id g (ok id, t) c e (k, same) = (k, (application_id, g, t, e, c, same))
  captured application_id g (raise e, t) c i k = tt

  checkpoint_of-Returns :
      (b : Bool) (application_id : String) (g : ActivationGraph)
      → IsConsistent g
      → Returns (IsRecoverable ports) (checkpoint_of ports b application_id g)
  checkpoint_of-Returns false application_id g c = (c, tt)
  checkpoint_of-Returns true application_id g c =
      captured application_id g (ports.create_checkpoint application_id g) c refl
        (laws.captures application_id g c)

  checkpoint_unless-Returns :
      (installs : Bool) (revision_id : String) (g : ActivationGraph)
      → IsConsistent g
      → Returns (IsRecoverable ports) (checkpoint_unless ports installs revision_id g)
  unfolding checkpoint_if_mutating
  checkpoint_unless-Returns true revision_id g c = (c, tt)
  checkpoint_unless-Returns false revision_id g c =
      lift-Returns (IsRecoverable ports) (migrations revision_id g) g _ (λ items h.
        lift-Returns (IsRecoverable ports) (get_item g.revisions revision_id) g _
          (λ r i. checkpoint_of-Returns _ r.application_id g c))

  pub prepare-Returns :
      (installs : Bool) (revision_id : String) (g : ActivationGraph)
      → IsConsistent g
      → Returns (IsRecoverable ports) (prepare ports installs revision_id g)
  unfolding prepare
  prepare-Returns installs revision_id g c =
      continue-Returns (λ u. IsConsistent) Q (transaction (freeze ports revision_id) g) _
        (Returns-anyway (λ u. IsConsistent) _
          (λ u.
            transaction-Stays IsConsistent (freeze ports revision_id) g c (
              Ends-Stays IsConsistent (freeze ports revision_id g) (freeze-Stays revision_id g c))))
        (λ u s k.
          continue-Returns (λ u. IsConsistent) Q (ports.resolve_dependencies revision_id s) _
            (Returns-anyway (λ u. IsConsistent) _ (λ u. (laws.resolves revision_id s k).0))
            (λ u s k.
              continue-Returns (λ u. IsConsistent) Q (ports.build_revision_artifacts revision_id s)
                _ (Returns-anyway (λ u. IsConsistent) _ (λ u. (laws.builds revision_id s k).0))
                (λ u s k. checkpoint_unless-Returns installs revision_id s k)))
    where
      Q : Option String → ActivationGraph → Type 0
      Q = IsRecoverable ports

  pub migrate_unless-Stays :
      (checkpoint_id : Option String) (installs : Bool) (revision_id : String) (g : ActivationGraph)
      → IsRecoverable ports checkpoint_id g
      → Stays (IsRecoverable ports checkpoint_id) (migrate_unless ports installs revision_id g)
  unfolding run_migrations
  migrate_unless-Stays checkpoint_id true revision_id g c = c
  migrate_unless-Stays checkpoint_id false revision_id g c =
      lift-Stays (IsRecoverable ports checkpoint_id) (migrations revision_id g) g _ c
        (λ items h. run_each-Stays checkpoint_id revision_id items g c)

  pub evict-Stays :
      (checkpoint_id superseded_id : Option String) (g : ActivationGraph)
      → IsRecoverable ports checkpoint_id g
      → Stays (IsRecoverable ports checkpoint_id) (evict ports superseded_id g)
  evict-Stays checkpoint_id none g c = c
  evict-Stays checkpoint_id (some revision_id) g c =
      Keeps-IsRecoverable ports checkpoint_id g _ c (laws.evicts revision_id g c.0)
