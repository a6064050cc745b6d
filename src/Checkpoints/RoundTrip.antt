-- ===== src/Checkpoints/RoundTrip.antt =====
-- A restored checkpoint gives an Application the state that was captured.
use n4x_core.Prelude.{
  String, ◌≡◌, refl, sym, ap, ◌∙◌, Option, none, some, List, [], ◌∷◌, ◌==◌, eq_iff, Bool-cases, inl,
  inr, All, ◌<>◌,
}
use n4x_core.Prelude.Result.{ok}
use n4x_core.Prelude.Exec.{settle, continue-returns, lift-returns}
use n4x_core.Kernel.Jobs.{Application}
use n4x_core.Kernel.Experiences.{Definition}
use n4x_core.Graph.Records
use n4x_core.Graph.Records.{get-save, get-save-same, get_row}
use n4x_core.Graph.Bindings.{get_item-some}
use n4x_core.Activation.State.{Kind, kind_eq, ActivationGraph, key_error}
use n4x_core.Activation.Switch.{save_definition}
use n4x_core.Activation.Consistent.{IsConsistent}
use n4x_core.Checkpoints.State.{
  CheckpointLevel, revision, application_data, GraphCheckpoint, DefinitionState, Payload,
  CheckpointGraph, Codec, definition_states,
}
use n4x_core.Checkpoints.Service.{
  restore_statuses, restore_definitions, require_same, restore_revision_state, capture_payload,
  new_checkpoint, new_snapshot, new_blob, create, restore_data, restore_payload, restore_serialized,
  restore, put_graph, check_hash,
}
use n4x_core.Checkpoints.Statuses.{
  IsDistinct, revision_statuses-IsDistinct, status_or, get-captured, restored, get-restore_statuses,
}

-- The definition is still there.
abbrev pub Stands : ActivationGraph → DefinitionState → Type 0
Stands g item = (d : Definition) × (Records.get (g.definitions item.kind) item.id ≡ some d)

save_definition-Stands :
    (kind : Kind) (d : Definition) (item : DefinitionState) (g : ActivationGraph)
    → Stands g item
    → Stands (save_definition kind d g) item
save_definition-Stands kind d item g (w, p) = elim (Bool-cases (kind_eq item.kind kind)) [
  | inr e ↦ rw e (w, p)
  | inl e ↦ elim (Bool-cases (d.id == item.id)) [
    | inl i ↦ rw e (d, get-save (g.definitions item.kind) d.id item.id d ∙ (rw i refl))
    | inr i ↦ rw e (w, get-save (g.definitions item.kind) d.id item.id d ∙ (rw i p))
  ]
]

still-Stands :
    (kind : Kind) (d : Definition) (items : List DefinitionState) (g : ActivationGraph)
    → All (Stands g) items
    → All (Stands (save_definition kind d g)) items
still-Stands kind d [] g k = tt
still-Stands kind d (item ∷ items) g k =
    (save_definition-Stands kind d item g k.0, still-Stands kind d items g k.1)

-- A graph with these applications and revisions.
abbrev pub Same : ActivationGraph → ActivationGraph → Type 0
Same g h = (h.applications ≡ g.applications) × (h.revisions ≡ g.revisions)

restore_definitions-returns :
    (items : List DefinitionState) (g : ActivationGraph)
    → All (Stands g) items
    → (h : ActivationGraph) × (restore_definitions items g ≡ (ok tt, h)) × Same g h
restore_definitions-returns [] g k = (g, refl, (refl, refl))
restore_definitions-returns (item ∷ items) g ((d, p), k) =
    let (h, e, s) = restore_definitions-returns items _ (
      still-Stands item.kind (record d { active_revision_id = item.active_revision_id }) items g
        k) in
    (h, lift-returns _ g _ (get_item-some key_error (g.definitions item.kind) item.id p) e, s)

-- The state of an application's revisions is restored, if the application and its definitions are
-- still there.
restore_revision_state-returns :
    {X : Type 0} (application_id : String) (payload : Payload X) (a : Application)
    (g : ActivationGraph)
    → payload.application_id ≡ application_id
    → Records.get g.applications application_id ≡ some a
    → All (Stands g) payload.definitions
    → (h : ActivationGraph) × (restore_revision_state application_id payload g ≡ (ok tt, h))
      × (h.applications
          ≡ Records.save g.applications a.id
              (record a { active_revision_id = payload.active_revision_id }))
      × (h.revisions ≡ restore_statuses payload.revision_statuses g.revisions)
unfolding restore_revision_state
restore_revision_state-returns application_id payload a g i p k =
    let (h, e, (same_applications, same_revisions)) =
      restore_definitions-returns payload.definitions _ k in
    (
      h,
      continue-returns (require_same (payload.application_id == application_id) g) _
          (ap (λ b. require_same b g) ((eq_iff payload.application_id application_id).1 i))
          (lift-returns _ g _ (get_item-some key_error g.applications application_id p) e),
      same_applications,
      same_revisions,
    )

module _ {D X : Type 0} (codec : Codec D X) where
  -- A text with its own hash is read back.
  pub restore_serialized-reads :
      (checkpoint : GraphCheckpoint) (p : Payload X) (text : String) (t : CheckpointGraph D)
      → codec.parse (codec.serialize p) ≡ p
      → text ≡ codec.serialize p
      → restore_serialized codec checkpoint (codec.sha256_text (codec.serialize p)) text t
        ≡ restore_payload codec checkpoint p t
  restore_serialized-reads checkpoint p text t reads e =
      continue-returns (check_hash codec (codec.sha256_text text == hash) t) _
        (ap (λ b. check_hash codec b t)
          (ap (λ x. codec.sha256_text x == hash) e ∙ (eq_iff hash hash).1 refl))
        (ap (λ q. restore_payload codec checkpoint q t) (ap (λ x. codec.parse x) e ∙ reads))
    where
      hash : String
      hash = codec.sha256_text (codec.serialize p)

  abbrev pub stored :
      String
      → CheckpointLevel
      → String
      → String
      → Application
      → CheckpointGraph D
      → CheckpointGraph D
  stored application_id level reason checkpoint_id b s =
      let serialized = codec.serialize (capture_payload codec application_id level b s) in
      record s {
        checkpoints =
            Records.save s.checkpoints checkpoint_id
              (new_checkpoint codec application_id level reason checkpoint_id b);
        checkpoint_snapshots =
            Records.save s.checkpoint_snapshots (checkpoint_id <> ".snapshot")
              (new_snapshot codec level checkpoint_id serialized);
        checkpoint_blobs =
            Records.save s.checkpoint_blobs (checkpoint_id <> ".blob")
              (new_blob codec checkpoint_id serialized);
      }

  pub create-returns :
      (application_id : String) (level : CheckpointLevel) (reason checkpoint_id : String)
      (b : Application) (s : CheckpointGraph D)
      → Records.get s.graph.applications application_id ≡ some b
      → create codec application_id level reason checkpoint_id s ≡ (
        ok (new_checkpoint codec application_id level reason checkpoint_id b),
        stored application_id level reason checkpoint_id b s,
      )
  unfolding create
  create-returns application_id level reason checkpoint_id b s h =
      ap (λ x. settle s x)
        (lift-returns _ s _ (get_item-some key_error s.graph.applications application_id h) refl)

module _ {D X : Type 0} (codec : Codec D X)
    (decodes : (t : String) → codec.b64decode (codec.b64encode t) ≡ t)
    (replaces : (application_id : String) (x : Option X) (d : D)
      → (f : D) × (codec.replace_data application_id x d ≡ ok f)) where
  restore_data-returns :
      (level : CheckpointLevel) (application_id : String) (x : Option X) (d : D)
      → (f : D) × (restore_data codec level application_id x d ≡ ok f)
  restore_data-returns revision application_id x d = (d, refl)
  restore_data-returns application_data application_id x d = replaces application_id x d

  -- A checkpoint whose rows stand is restored from the payload that was captured.
  restore-returns :
      (application_id : String) (level : CheckpointLevel) (reason checkpoint_id : String)
      (b a : Application) (p : Payload X) (t : CheckpointGraph D)
      → codec.parse (codec.serialize p) ≡ p
      → p.application_id ≡ application_id
      → Records.get t.checkpoints checkpoint_id
        ≡ some (new_checkpoint codec application_id level reason checkpoint_id b)
      → Records.get t.checkpoint_snapshots (checkpoint_id <> ".snapshot")
        ≡ some (new_snapshot codec level checkpoint_id (codec.serialize p))
      → Records.get t.checkpoint_blobs (checkpoint_id <> ".blob")
        ≡ some (new_blob codec checkpoint_id (codec.serialize p))
      → Records.get t.graph.applications application_id ≡ some a
      → All (Stands t.graph) p.definitions
      → (u : CheckpointGraph D) × (restore codec checkpoint_id t
          ≡ (ok (new_checkpoint codec application_id level reason checkpoint_id b), u))
        × (u.graph.applications
            ≡ Records.save t.graph.applications a.id
                (record a { active_revision_id = p.active_revision_id }))
        × (u.graph.revisions ≡ restore_statuses p.revision_statuses t.graph.revisions)
  unfolding restore
  restore-returns application_id level reason checkpoint_id b a p t reads i c s o k stands =
      let (h, e, apps, revs) =
        restore_revision_state-returns application_id p a t.graph i k stands in
      let (f, q) = restore_data-returns level application_id p.objects_and_relations t.data_of in
      (
        record t { graph = h; data_of = f },
        ap (λ x. settle t x)
            (lift-returns _ t _ (get_item-some key_error t.checkpoints checkpoint_id c) (
              lift-returns _ t _
                (get_item-some key_error t.checkpoint_snapshots (checkpoint_id <> ".snapshot") s)
                (lift-returns _ t _
                  (get_item-some key_error t.checkpoint_blobs (checkpoint_id <> ".blob") o)
                  (restore_serialized-reads codec
                      (new_checkpoint codec application_id level reason checkpoint_id b) p _ t reads
                      (decodes (codec.serialize p))
                    ∙ continue-returns
                        (put_graph codec t (restore_revision_state application_id p t.graph)) _
                        (ap (λ x. put_graph codec t x) e) (lift-returns _ _ _ q refl))))),
        apps,
        revs,
      )

  -- A checkpoint of an application is restored after anything that has left the checkpoints' rows, the
  -- application and the captured definitions, and has kept the graph consistent: `restore` returns, the
  -- application's active revision is the one that was captured, each of its revisions that was captured
  -- and is still there has the captured status, and every other revision is as it was before. The codec
  -- reads this payload back, base64 is decoded, and objects and relations can be replaced.
  pub restore-create :
      (application_id : String) (level : CheckpointLevel) (reason checkpoint_id : String)
      (b a : Application) (s t : CheckpointGraph D)
      → Records.get s.graph.applications application_id ≡ some b
      → (let p = capture_payload codec application_id level b s in
          codec.parse (codec.serialize p) ≡ p)
      → IsDistinct s.graph.revisions.rows
      → Records.IsKeyed (λ r. r.id) s.graph.revisions
      → IsConsistent t.graph
      → Records.get t.graph.applications application_id ≡ some a
      → All (Stands t.graph) (definition_states application_id s.graph)
      → let saved = (create codec application_id level reason checkpoint_id s).1 in
        t.checkpoints ≡ saved.checkpoints
        → t.checkpoint_snapshots ≡ saved.checkpoint_snapshots
        → t.checkpoint_blobs ≡ saved.checkpoint_blobs
        → (u : CheckpointGraph D) × (restore codec checkpoint_id t
            ≡ (ok (new_checkpoint codec application_id level reason checkpoint_id b), u))
          × (Records.get u.graph.applications application_id
              ≡ some (record a { active_revision_id = b.active_revision_id }))
          × ((r : String)
              → Records.get u.graph.revisions r
                ≡ restored
                    (status_or application_id (Records.get s.graph.revisions r) none)
                    (Records.get t.graph.revisions r))
  unfolding capture_payload
  restore-create application_id level reason checkpoint_id b a s t here reads distinct keyed c owner
        stands x y z =
      let p = capture_payload codec application_id level b s in
      let e = create-returns codec application_id level reason checkpoint_id b s here in
      let (u, h, apps, revs) =
        restore-returns application_id level reason checkpoint_id b a p t reads refl
          (ap (λ q. Records.get q checkpoint_id) (x ∙ ap (λ r. r.1.checkpoints) e)
            ∙ get-save-same s.checkpoints checkpoint_id _)
          (ap (λ q. Records.get q (checkpoint_id <> ".snapshot"))
              (y ∙ ap (λ r. r.1.checkpoint_snapshots) e)
            ∙ get-save-same s.checkpoint_snapshots (checkpoint_id <> ".snapshot") _)
          (ap (λ q. Records.get q (checkpoint_id <> ".blob")) (z ∙ ap (λ r. r.1.checkpoint_blobs) e)
            ∙ get-save-same s.checkpoint_blobs (checkpoint_id <> ".blob") _)
          owner stands in
      (
        u,
        h,
        ap (λ q. Records.get q application_id) apps
            ∙ ap
                (λ k.
                  Records.get
                    (Records.save t.graph.applications a.id
                      (record a { active_revision_id = b.active_revision_id }))
                    k)
                (sym (c.app_keyed owner))
            ∙ get-save-same t.graph.applications a.id _,
        λ r.
            ap (λ q. Records.get q r) revs
            ∙ get-restore_statuses p.revision_statuses r t.graph.revisions
                (revision_statuses-IsDistinct application_id s.graph.revisions.rows [] tt)
                (λ k v q. c.keyed q)
            ∙ ap (λ o. restored o (Records.get t.graph.revisions r))
                (get-captured application_id r s.graph.revisions distinct keyed),
      )
