-- ===== src/Graph/InternGc/Held.antt =====
-- What the collector must keep, told without the collector's own tables and tests.
use mathlib.Core.List.{Memᴰ}
use n4x_core.Prelude.{
  String, ◌≡◌, ◌≢◌, refl, sym, ap, subst, ◌∙◌, ◌⊎◌, inl, inr, Bool, true, false, not, ◌||◌, Option,
  none, some, List, [], ◌∷◌, ◌++◌, find, filter, contains, All, arith, eq_iff, Bool-cases, ◌==◌,
  some_injective, if◌then◌else◌,
}
use n4x_core.Prelude.Members.{filter-Memᴰ}
use n4x_core.Graph.Edges.{NodeRef, node_ref, ref_eq}
use n4x_core.Graph.Store.{GraphStore, NodeRecord, EdgeRecord, get_node, list_nodes, model_of}
use n4x_core.Graph.InternGc.{
  interned_labels, keeper_labels, named_actions, pinned_action_revision_ids,
  delete_interned_orphans,
}
use n4x_core.Graph.InternGc.Ends.{ref_eq_refl}
use n4x_core.Graph.InternGc.Live.{ref_eq-true, edges_from, Live, uninterned, pinned, held}
use n4x_core.Graph.InternGc.Keeps.{delete_interned_orphans-Keeps}

-- The records that are shared by the hash of their content.
pub data IsInterned : String → Type 0 where
  source_tree : IsInterned "SourceTree"
  source_content : IsInterned "SourceContent"
  action_revision : IsInterned "ActionRevision"
  object_type_revision : IsInterned "ObjectTypeRevision"
  relation_type_revision : IsInterned "RelationTypeRevision"
  trigger_revision : IsInterned "TriggerRevision"
  test_case : IsInterned "TestCase"
  runtime_dependency : IsInterned "RuntimeDependency"
  experience_surface : IsInterned "ExperienceSurface"

-- What holds the records that its edges lead to: revisions, and the trees of their sources.
pub data IsHolder : String → Type 0 where
  application_revision : IsHolder "ApplicationRevision"
  experience_revision : IsHolder "ExperienceRevision"
  system_revision : IsHolder "SystemRevision"
  tree : IsHolder "SourceTree"

-- Work that is under way, or can be called back.
pub data IsRunning : String → Type 0 where
  callback_route : IsRunning "CallbackRoute"
  invocation : IsRunning "Invocation"
  job_record : IsRunning "JobRecord"

IsHolder-contains : (l : String) → IsHolder l → contains l keeper_labels ≡ true
IsHolder-contains _ application_revision = refl
IsHolder-contains _ experience_revision = refl
IsHolder-contains _ system_revision = refl
IsHolder-contains _ tree = refl

contains-cases :
    (a l : String) (ls : List String)
    → contains l (a ∷ ls) ≡ true
    → (a ≡ l) ⊎ (contains l ls ≡ true)
contains-cases a l ls h = elim (Bool-cases (a == l)) [
  | inl e ↦ inl ((eq_iff a l).0 e)
  | inr e ↦ inr (ground (arith, h, e))
]

contains-All :
    (P : String → Type 0) (l : String) (ls : List String) → All P ls → contains l ls ≡ true → P l
contains-All P l [] k h = absurd (cc h)
contains-All P l (a ∷ ls) k h = elim (contains-cases a l ls h) [
  | inl e ↦ subst P e k.0
  | inr t ↦ contains-All P l ls k.1 t
]

contains-IsInterned : (l : String) → contains l interned_labels ≡ true → IsInterned l
contains-IsInterned l h =
    contains-All IsInterned l interned_labels
      (
        source_tree,
        (
          source_content,
          (
            action_revision,
            (
              object_type_revision,
              (
                relation_type_revision,
                (trigger_revision, (test_case, (runtime_dependency, (experience_surface, tt)))),
              ),
            ),
          ),
        ),
      )
      h

contains-append :
    (a : String) (xs ys : List String) → contains a (xs ++ ys) ≡ (contains a xs || contains a ys)
contains-append a [] ys = refl
contains-append a (x ∷ xs) ys = ground (arith, contains-append a xs ys)

contains-nonempty :
    (a : String) (xs : List String)
    → a ≢ ""
    → contains a xs ≡ true
    → contains a (filter (λ id. not (id == "")) xs) ≡ true
contains-nonempty a [] n h = h
contains-nonempty a (x ∷ xs) n h = ground (arith, eq_iff x a, eq_iff x "", contains-nonempty a xs n)

find-Memᴰ :
    {A : Type 0} (p : A → Bool) (xs : List A) {x : A}
    → find p xs ≡ some x
    → Memᴰ x xs × (p x ≡ true)
find-Memᴰ p [] e = cc
find-Memᴰ {A} p (y ∷ xs) {x} e = here (p y) refl e (find-Memᴰ p xs)
  where
    here :
        (b : Bool)
        → p y ≡ b
        → (if b then some y else find p xs) ≡ some x
        → (find p xs ≡ some x → Memᴰ x xs × (p x ≡ true))
        → Memᴰ x (y ∷ xs) × (p x ≡ true)
    here true i f k = (Memᴰ.head (sym (some_injective f)), ap p (sym (some_injective f)) ∙ i)
    here false i f k = let (m, t) = k f in (Memᴰ.tail m, t)

module _ {M : Type 0} (named_action : M → Option String) where
  named_actions-contains :
      (ns : List (NodeRecord M)) (n : NodeRecord M) (id : String)
      → Memᴰ n ns
      → named_action n.model ≡ some id
      → contains id (named_actions named_action ns) ≡ true
  named_actions-contains [] n id m e = elim m [ ]
  named_actions-contains (k ∷ ns) n id (Memᴰ.head i) e =
      first (named_action k.model) (sym (ap (λ (x : NodeRecord M). named_action x.model) i) ∙ e)
    where
      first :
          (o : Option String)
          → o ≡ some id
          → contains id (elim o [
            | none ↦ named_actions named_action ns
            | some a ↦ a ∷ named_actions named_action ns
          ])
            ≡ true
      first none f = absurd (cc f)
      first (some a) f = rw (some_injective f) (ground (arith, eq_iff id id))
  named_actions-contains (k ∷ ns) n id (Memᴰ.tail m) e =
      later (named_action k.model) (named_actions-contains ns n id m e)
    where
      later :
          (o : Option String)
          → contains id (named_actions named_action ns) ≡ true
          → contains id (elim o [
            | none ↦ named_actions named_action ns
            | some a ↦ a ∷ named_actions named_action ns
          ])
            ≡ true
      later none t = t
      later (some a) t = ground (arith, t)

  listed-contains :
      (label : String) (q : NodeRef) (m : M) (id : String) (g : GraphStore M)
      → q.label ≡ label
      → get_node q g ≡ some m
      → named_action m ≡ some id
      → contains id (named_actions named_action (list_nodes label g)) ≡ true
  unfolding get_node list_nodes
  listed-contains label q m id g i e a = found (find (λ n. ref_eq n.ref q) g.nodes) refl e
    where
      found :
          (o : Option (NodeRecord M))
          → find (λ n. ref_eq n.ref q) g.nodes ≡ o
          → model_of o ≡ some m
          → contains id (named_actions named_action (filter (λ n. n.ref.label == label) g.nodes))
            ≡ true
      found none p f = absurd (cc f)
      found (some n) p f =
          let (k, t) = find-Memᴰ (λ n. ref_eq n.ref q) g.nodes p in
          named_actions-contains (filter (λ n. n.ref.label == label) g.nodes) n id
            (filter-Memᴰ (λ n. n.ref.label == label) g.nodes k
              ((eq_iff n.ref.label label).1
                (ap (λ (r : NodeRef). r.label) (ref_eq-true n.ref q t) ∙ i)))
            (ap named_action (some_injective f) ∙ a)

  running-contains :
      (q : NodeRef) (m : M) (id : String) (g : GraphStore M) (label : String)
      → IsRunning label
      → q.label ≡ label
      → get_node q g ≡ some m
      → named_action m ≡ some id
      → id ≢ ""
      → contains id (pinned_action_revision_ids named_action g) ≡ true
  unfolding pinned_action_revision_ids
  running-contains q m id g label r i e a n = contains-nonempty id _ n (
      contains-append id (named "CallbackRoute" ++ named "Invocation") (named "JobRecord")
      ∙ ap (λ b. b || contains id (named "JobRecord"))
          (contains-append id (named "CallbackRoute") (named "Invocation"))
      ∙ one label r i)
    where
      named : String → List String
      named l = named_actions named_action (list_nodes l g)

      one :
          (l : String)
          → IsRunning l
          → q.label ≡ l
          → ((contains id (named "CallbackRoute") || contains id (named "Invocation"))
              || contains id (named "JobRecord"))
            ≡ true
      one _ callback_route j = ground (arith, listed-contains "CallbackRoute" q m id g j e a)
      one _ invocation j = ground (arith, listed-contains "Invocation" q m id g j e a)
      one _ job_record j = ground (arith, listed-contains "JobRecord" q m id g j e a)

  -- What must stay: all that is not interned, the action revisions that running work names, and what
  -- a holder among these has an edge to.
  pub data Held (g : GraphStore M) : NodeRef → Type 0 where
    own : {r : NodeRef} → ¬ (IsInterned r.label) → Held g r
    named_by :
        (q : NodeRef) (m : M) (id : String)
        → IsRunning q.label
        → get_node q g ≡ some m
        → named_action m ≡ some id
        → id ≢ ""
        → Held g (node_ref "ActionRevision" id)
    linked :
        (e : EdgeRecord)
        → Held g e.from_ref
        → IsHolder e.from_ref.label
        → Memᴰ e g.edges
        → Held g e.to_ref

  Held-Live : (g : GraphStore M) {r : NodeRef} → Held g r → Live named_action g r
  Held-Live g {r} (own n) = elim (Bool-cases (contains r.label interned_labels)) [
    | inl t ↦ absurd (n (contains-IsInterned r.label t))
    | inr f ↦ uninterned f
  ]
  Held-Live g (named_by q m id r e a n) =
      pinned refl (running-contains q m id g q.label r refl e a n)
  Held-Live g (linked e l h m) =
      held e.from_ref e (Held-Live g l) (IsHolder-contains e.from_ref.label h)
        (filter-Memᴰ (λ x. ref_eq x.from_ref e.from_ref) g.edges m (ref_eq_refl e.from_ref)) refl

  -- The collector keeps every node that is not interned, every action revision that a callback route,
  -- an invocation or a job names, and every node that an Application's, Experience's or System's
  -- revision or a source tree among these has an edge to: such a node is there or absent as before, with
  -- the same content, and the revisions and source trees among them have all their edges, in order.
  pub delete_interned_orphans-Held :
      (g : GraphStore M) (r : NodeRef)
      → Held g r
      → (get_node r (delete_interned_orphans named_action g).1 ≡ get_node r g)
        × (IsHolder r.label
            → edges_from r (delete_interned_orphans named_action g).1 ≡ edges_from r g)
  delete_interned_orphans-Held g r h =
      let kept = delete_interned_orphans-Keeps named_action g in
      (kept.node r (Held-Live g h), λ k. kept.links r (Held-Live g h) (IsHolder-contains r.label k))
