-- ===== src/SourceStore/Bound.antt =====
-- A tree that a revision binds, through a batch and the collector.
use mathlib.Core.List.{Memᴰ}
use n4x_core.Prelude.{
  String, ◌≡◌, refl, sym, ap, subst, ◌∙◌, ◌⊎◌, inl, inr, Bool, true, false, ◌&&◌, Option, List, [],
  ◌∷◌, filter, arith, Bool-cases, ◌==◌, if◌then◌else◌,
}
use n4x_core.Prelude.Members.{All-of, Memᴰ-filter, filter-Memᴰ}
use n4x_core.Prelude.Sorting.{sorted_by}
use n4x_core.Prelude.Result.{ok, ◌>>=◌}
use n4x_core.Prelude.Outcomes.{Ends, continue-Ends, lift-Ends}
use n4x_core.Kernel.Sources.{SourceContent, SourceFile}
use n4x_core.Graph.Records.{get_row}
use n4x_core.Graph.Edges.{NodeRef, ref_eq}
use n4x_core.Graph.Store.{
  EdgeRecord, is_from, is_same, merge_edge, create_edge, delete_edge, upsert_node, list_edges,
  get_node, update,
}
use n4x_core.Graph.InternGc.{delete_interned_orphans}
use n4x_core.Graph.InternGc.Live.{ref_eq-true, edges_from}
use n4x_core.Graph.InternGc.Held.{
  IsInterned, source_tree, IsHolder, tree, Held, own, linked, delete_interned_orphans-Held,
}
use n4x_core.SourceStore.State.{
  SourceGraph, assertion_error, key_error, Hashing, named_action, or_raise, tree_ref, content_ref,
  get_tree, get_content, as_content,
}
use n4x_core.SourceStore.Trees.{files_of, list_source_tree}
use n4x_core.SourceStore.Files.{
  unlink_path, file_edge, keep_content, put_file, write_blob, refresh_tree_hash,
}
use n4x_core.SourceStore.Changes.{SourceUpdate, Operation, write, delete, rename, prepare}
use n4x_core.SourceStore.Updates.{Batch, apply_change, apply_changes, finish, update_files}
use n4x_core.SourceStore.View.{files_of_same}
use n4x_core.SourceStore.Writes.{keep_content-edges}

merge_edge-Memᴰ :
    (same : EdgeRecord → Bool) (edge e : EdgeRecord) (es : List EdgeRecord)
    → same e ≡ false
    → Memᴰ e es
    → Memᴰ e (merge_edge same edge es)
merge_edge-Memᴰ same edge e [] f m = elim m [ ]
merge_edge-Memᴰ same edge e (x ∷ es) f (Memᴰ.head i) = rw (sym (ap same i) ∙ f) (Memᴰ.head i)
merge_edge-Memᴰ same edge e (x ∷ es) f (Memᴰ.tail m) = elim (Bool-cases (same x)) [
  | inl t ↦ rw t (Memᴰ.tail m)
  | inr t ↦ rw t (Memᴰ.tail (merge_edge-Memᴰ same edge e es f m))
]

-- What is in the merged edges was there, or leads where the new edge does.
Memᴰ-merge_edge :
    (same : EdgeRecord → Bool) (edge e : EdgeRecord) (es : List EdgeRecord)
    → Memᴰ e (merge_edge same edge es)
    → (e.to_ref ≡ edge.to_ref) ⊎ Memᴰ e es
Memᴰ-merge_edge same edge e [] (Memᴰ.head i) = inl (ap (λ (x : EdgeRecord). x.to_ref) i)
Memᴰ-merge_edge same edge e [] (Memᴰ.tail m) = elim m [ ]
Memᴰ-merge_edge same edge e (x ∷ es) m = here (same x) m (Memᴰ-merge_edge same edge e es)
  where
    here :
        (b : Bool)
        → Memᴰ e (
            if b
            then record x { to_ref = edge.to_ref; props = update x.props edge.props } ∷ es
            else x ∷ merge_edge same edge es)
        → (Memᴰ e (merge_edge same edge es) → (e.to_ref ≡ edge.to_ref) ⊎ Memᴰ e es)
        → (e.to_ref ≡ edge.to_ref) ⊎ Memᴰ e (x ∷ es)
    here true (Memᴰ.head i) k = inl (ap (λ (y : EdgeRecord). y.to_ref) i)
    here true (Memᴰ.tail n) k = inr (Memᴰ.tail n)
    here false (Memᴰ.head i) k = inr (Memᴰ.head i)
    here false (Memᴰ.tail n) k = elim (k n) [ inl i ↦ inl i | inr j ↦ inr (Memᴰ.tail j) ]

-- The files' edges of the tree lead to contents.
abbrev pub IsFiled : String → SourceGraph → Type 0
IsFiled source_tree_id g =
    (e : EdgeRecord)
    → Memᴰ e g.edges
    → is_from (tree_ref source_tree_id) "HAS_FILE" e ≡ true
    → e.to_ref.label ≡ "SourceContent"

-- A revision that is not interned itself has an edge to the tree.
abbrev pub IsBound : String → SourceGraph → Type 0
IsBound source_tree_id g =
    (e : EdgeRecord) × Memᴰ e g.edges
    × (¬ (IsInterned e.from_ref.label))
    × IsHolder e.from_ref.label
    × (e.to_ref ≡ tree_ref source_tree_id)

module _ (hashing : Hashing) (source_tree_id : String) (e : EdgeRecord)
    (other : ref_eq e.from_ref (tree_ref source_tree_id) ≡ false) where
  abbrev pub Stays : SourceGraph → Type 0
  Stays g = Memᴰ e g.edges × IsFiled source_tree_id g

  unlink_path-Stays :
      (path : String) (g : SourceGraph) → Stays g → Stays (unlink_path source_tree_id path g)
  unfolding unlink_path delete_edge
  unlink_path-Stays path g (m, filed) =
      (filter-Memᴰ _ g.edges m (rw other refl), λ x n f. filed x (Memᴰ-filter _ g.edges n).0 f)

  keep_content-Stays : (c : SourceContent) (g : SourceGraph) → Stays g → Stays (keep_content c g)
  keep_content-Stays c g (m, filed) = (
    subst (Memᴰ e) (sym (keep_content-edges c g)) m,
    λ x n f. filed x (subst (Memᴰ x) (keep_content-edges c g) n) f,
  )

  put_file-Stays :
      (file : SourceFile) (g : SourceGraph) → Stays g → Stays (put_file source_tree_id file g)
  unfolding put_file create_edge
  put_file-Stays file g s =
      let (m, filed) = keep_content-Stays _ _ (unlink_path-Stays file.path g s) in
      (
        merge_edge-Memᴰ (is_same (file_edge source_tree_id file)) (file_edge source_tree_id file) e
            _ (rw other refl) m,
        λ x n f.
            elim (Memᴰ-merge_edge (is_same (file_edge source_tree_id file))
              (file_edge source_tree_id file) x _ n) [
                | inl i ↦ ap (λ (r : NodeRef). r.label) i
                | inr k ↦ filed x k f
              ],
      )

  module _ (path role language : String) (expected_hash : Option String) (b : Batch)
      (g : SourceGraph) (s : Stays g) where
    change-Ends :
        (operation : Operation) (content new_path : Option String)
        → Ends Stays (
            apply_change hashing source_tree_id
              (record {
                operation = operation;
                path = path;
                content = content;
                new_path = new_path;
                role = role;
                language = language;
                expected_hash = expected_hash;
              })
              b
              g)
    unfolding apply_change write_blob
    change-Ends write content new_path =
        lift-Ends Stays (or_raise assertion_error content) g _
          (λ text h. put_file-Stays _ _ (keep_content-Stays _ g s))
    change-Ends delete content new_path =
        lift-Ends Stays (or_raise assertion_error (get_row path b.by_path)) g _
          (λ file h. unlink_path-Stays path g s)
    change-Ends rename content new_path =
        lift-Ends Stays (or_raise assertion_error (get_row path b.by_path)) g _ (λ file h.
          lift-Ends Stays (or_raise assertion_error new_path) g _
            (λ q i. put_file-Stays (record file { path = q }) _ (unlink_path-Stays path g s)))

  apply_changes-Ends :
      (changes : List SourceUpdate) (b : Batch) (g : SourceGraph)
      → Stays g
      → Ends Stays (apply_changes hashing source_tree_id changes b g)
  apply_changes-Ends [] b g s = s
  apply_changes-Ends (change ∷ changes) b g s =
      continue-Ends Stays (apply_change hashing source_tree_id change b g) _
        (change-Ends change.path change.role change.language change.expected_hash b g s
          change.operation change.content change.new_path)
        (λ c h k. apply_changes-Ends changes c h k)

  finish-Ends :
      (b : Batch) (g : SourceGraph) → Stays g → Ends Stays (finish hashing source_tree_id b g)
  unfolding finish refresh_tree_hash upsert_node
  finish-Ends b g s =
      continue-Ends Stays (refresh_tree_hash hashing source_tree_id g) _
        (lift-Ends Stays (list_source_tree source_tree_id g) g _ (λ files h.
          lift-Ends Stays (or_raise key_error (get_tree source_tree_id g)) g _ (λ t i. s)))
        (λ u h k. k)

  pub update_files-Ends :
      (changes : List SourceUpdate) (expected_tree_hash : Option String) (g : SourceGraph)
      → Stays g
      → Ends Stays (update_files hashing source_tree_id changes expected_tree_hash g)
  unfolding update_files
  update_files-Ends changes expected g s =
      lift-Ends Stays (prepare source_tree_id changes expected g) g _ (λ by_path h.
        continue-Ends Stays
          (apply_changes hashing source_tree_id changes (record { by_path = by_path; written = [] })
            g)
          _ (apply_changes-Ends changes (record { by_path = by_path; written = [] }) g s)
          (λ b k t. finish-Ends b k t))

-- A tree that a revision binds is not touched by the collector, and neither are its contents.
bound-Held :
    (source_tree_id : String) (g : SourceGraph)
    → IsBound source_tree_id g
    → Held named_action g (tree_ref source_tree_id)
bound-Held source_tree_id g (e, m, n, h, t) = subst (Held named_action g) t (linked e (own n) h m)

pub bound-other :
    (source_tree_id : String) (r : NodeRef)
    → ¬ (IsInterned r.label)
    → ref_eq r (tree_ref source_tree_id) ≡ false
bound-other source_tree_id r n = elim (Bool-cases (ref_eq r (tree_ref source_tree_id))) [
  | inr f ↦ f
  | inl t ↦ absurd (
      n (
        subst IsInterned
          (sym (ap (λ (x : NodeRef). x.label) (ref_eq-true r (tree_ref source_tree_id) t)))
          source_tree))
]

list_edges-of :
    (source_tree_id : String) (g : SourceGraph)
    → list_edges (tree_ref source_tree_id) "HAS_FILE" g
      ≡ filter (λ e. e.edge_type == "HAS_FILE") (edges_from (tree_ref source_tree_id) g)
unfolding list_edges
list_edges-of source_tree_id g = split g.edges
  where
    split :
        (es : List EdgeRecord)
        → filter (is_from (tree_ref source_tree_id) "HAS_FILE") es
          ≡ filter
              (λ e. e.edge_type == "HAS_FILE")
              (filter (λ e. ref_eq e.from_ref (tree_ref source_tree_id)) es)
    split [] = refl
    split (e ∷ es) = elim (Bool-cases (ref_eq e.from_ref (tree_ref source_tree_id))) [
      | inl t ↦ rw (t, split es) refl
      | inr f ↦ rw (f, split es) refl
    ]

pub list_source_tree-collected :
    (source_tree_id : String) (g : SourceGraph)
    → IsBound source_tree_id g
    → IsFiled source_tree_id g
    → list_source_tree source_tree_id (delete_interned_orphans named_action g).1
      ≡ list_source_tree source_tree_id g
unfolding list_source_tree list_edges get_content
list_source_tree-collected source_tree_id g bound filed =
    ap
      (λ es.
        files_of source_tree_id h es >>= λ files. ok (sorted_by (λ (f : SourceFile). f.path) files))
      same_edges
    ∙ ap (λ r. r >>= λ files. ok (sorted_by (λ (f : SourceFile). f.path) files))
        (files_of_same source_tree_id h g (list_edges ref "HAS_FILE" g)
          (All-of _ (λ e m. content e (Memᴰ-filter (is_from ref "HAS_FILE") g.edges m))))
  where
    h : SourceGraph
    h = (delete_interned_orphans named_action g).1

    ref : NodeRef
    ref = tree_ref source_tree_id

    same_edges : list_edges ref "HAS_FILE" h ≡ list_edges ref "HAS_FILE" g
    same_edges =
        list_edges-of source_tree_id h
        ∙ ap (filter (λ e. e.edge_type == "HAS_FILE")) (
            (delete_interned_orphans-Held named_action g ref (bound-Held source_tree_id g bound)).1
              tree)
        ∙ sym (list_edges-of source_tree_id g)

    content :
        (e : EdgeRecord)
        → Memᴰ e g.edges × (is_from ref "HAS_FILE" e ≡ true)
        → get_content e.to_ref.id h ≡ get_content e.to_ref.id g
    content e (m, f) = ap as_content (
        subst (λ r. get_node r h ≡ get_node r g) (to_content (filed e m f))
          (delete_interned_orphans-Held named_action g e.to_ref (
            linked e (subst (Held named_action g) (sym from) (bound-Held source_tree_id g bound))
              (subst (λ (r : NodeRef). IsHolder r.label) (sym from) tree) m)).0)
      where
        both : (a b : Bool) → (a && b) ≡ true → a ≡ true
        both a b t = ground arith

        from : e.from_ref ≡ ref
        from =
            ref_eq-true e.from_ref ref (both (ref_eq e.from_ref ref) (e.edge_type == "HAS_FILE") f)

        to_content : e.to_ref.label ≡ "SourceContent" → e.to_ref ≡ content_ref e.to_ref.id
        to_content l j = record { label = l j; id = e.to_ref.id }
