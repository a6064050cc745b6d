-- ===== src/SourceStore/Refines.antt =====
-- A batch as a description: what `_batch_update_working_tree` makes of the files, path by path.
use Prim.Native.String.{len}
use n4x_core.Prelude.{
  String, ◌≡◌, refl, sym, ap, subst, ◌∙◌, inl, inr, Option, none, some, List, [], ◌∷◌,
  if◌then◌else◌, ◌==◌, arith, Option-cases,
}
use n4x_core.Prelude.Result.{Result, ok, raise, ok_injective}
use n4x_core.Prelude.Exec.{continue-eq-ok}
use n4x_core.Kernel.Sources.{SourceFile}
use n4x_core.Graph.Records.{get_row, upsert_row, get-upsert_row}
use n4x_core.SourceStore.State.{SourceGraph, SourceError, Hashing}
use n4x_core.SourceStore.Trees.{or_default}
use n4x_core.SourceStore.Files.{unlink_path, keep_content, put_file, put_in, write_blob}
use n4x_core.SourceStore.Changes.{
  SourceUpdate, Operation, write, delete, rename, ByPath, delete_row,
}
use n4x_core.SourceStore.Updates.{Batch, role_of, language_of, apply_change, apply_changes}
use n4x_core.SourceStore.Agrees.{
  IsWhole, IsIndexed, IsIndexed-put_file, IsIndexed-unlink_path, indexed-IsWhole,
  IsIndexed-keep_content, get_row-delete_row,
}

-- The files of a tree by path.
abbrev pub Files : Type 0
Files = String → Option SourceFile

abbrev pub at_new_path : String → Option SourceFile → Option SourceFile
at_new_path path none = none
at_new_path path (some file) = some (record file { path = path })

module _ (hashing : Hashing) (source_tree_id : String) where
  abbrev pub written_file : SourceUpdate → Option SourceFile → SourceFile
  written_file change current =
      let content = or_default "" change.content in
      record {
        source_tree_id = source_tree_id;
        path = change.path;
        role = role_of current change.role;
        language = language_of current change.language;
        content = content;
        content_hash = hashing.sha256_text content;
        size = len content;
      }

  -- One change: a write puts a file at its path, which keeps the role and the language of what was
  -- there; a deletion leaves none; a rename moves the file that was there.
  abbrev pub describe : SourceUpdate → Files → Files
  describe change files p = elim change.operation [
    | write ↦ if change.path == p then some (written_file change (files change.path)) else files p
    | delete ↦ if change.path == p then none else files p
    | rename ↦
        let new_path = or_default "" change.new_path in
        if new_path == p
        then at_new_path new_path (files change.path)
        else if change.path == p
        then none
        else files p
  ]

  abbrev pub describe_all : List SourceUpdate → Files → Files
  describe_all [] files = files
  describe_all (change ∷ changes) files = describe_all changes (describe change files)

  -- What one change does to the index and the graph.
  abbrev pub Describes : SourceUpdate → ByPath → Result SourceError Batch × SourceGraph → Type 0
  Describes change b (ok c, h) =
      IsIndexed hashing source_tree_id c.by_path h
      × ((p : String) → get_row p c.by_path ≡ describe change (λ q. get_row q b) p)
  Describes change b (raise e, h) = Unit

  module _ (distinct : (u v : String) → hashing.sha256_text u ≡ hashing.sha256_text v → u ≡ v) where
    module _ (path role language : String) (expected_hash : Option String) (b : Batch)
        (g : SourceGraph) (i : IsIndexed hashing source_tree_id b.by_path g) where
      abbrev update : Operation → Option String → Option String → SourceUpdate
      update operation content new_path = record {
        operation = operation;
        path = path;
        content = content;
        new_path = new_path;
        role = role;
        language = language;
        expected_hash = expected_hash;
      }

      renamed :
          (f : SourceFile) (new_path : String)
          → get_row path b.by_path ≡ some f
          → IsWhole hashing source_tree_id f × (f.source_tree_id ≡ source_tree_id)
          → IsIndexed hashing source_tree_id
              (upsert_row new_path
                (put_in source_tree_id (record f { path = new_path }))
                (delete_row path b.by_path))
              (put_file source_tree_id
                (record f { path = new_path })
                (unlink_path source_tree_id path g))
            × ((p : String)
                → get_row p (
                    upsert_row new_path
                      (put_in source_tree_id (record f { path = new_path }))
                      (delete_row path b.by_path))
                  ≡ (if new_path == p
                      then at_new_path new_path (get_row path b.by_path)
                      else if path == p
                      then none
                      else get_row p b.by_path))
      renamed f new_path e (w, t) = (
        IsIndexed-put_file hashing source_tree_id (delete_row path b.by_path)
            (record f { path = new_path }) (unlink_path source_tree_id path g) distinct
            (record { hash = w.hash; size = w.size })
            (IsIndexed-unlink_path hashing source_tree_id b.by_path path g i),
        λ p.
            rw
              (
                get-upsert_row new_path p (put_in source_tree_id (record f { path = new_path }))
                    (delete_row path b.by_path),
                get_row-delete_row path p b.by_path,
                e,
              )
              (ap
                (λ t.
                  if new_path == p
                  then some (record f { source_tree_id = t; path = new_path })
                  else if path == p
                  then none
                  else get_row p b.by_path)
                (sym t)),
      )

      change_described :
          (operation : Operation) (content new_path : Option String)
          → Describes
              (update operation content new_path)
              b.by_path
              (apply_change hashing source_tree_id (update operation content new_path) b g)
      unfolding apply_change write_blob
      change_described write none new_path = tt
      change_described write (some content) new_path = (
        IsIndexed-put_file hashing source_tree_id b.by_path
            (written_file (update write (some content) new_path) (get_row path b.by_path))
            (keep_content (record { id = hashing.sha256_text content; content = content }) g)
            distinct (record { hash = refl; size = ground arith })
            (IsIndexed-keep_content hashing source_tree_id b.by_path
              (record { id = hashing.sha256_text content; content = content }) g refl i),
        λ p.
            get-upsert_row path p
              (written_file (update write (some content) new_path) (get_row path b.by_path))
              b.by_path,
      )
      change_described delete content new_path = elim (Option-cases (get_row path b.by_path)) [
        | inl e ↦ rw e tt
        | inr (f, e) ↦ rw e (
          IsIndexed-unlink_path hashing source_tree_id b.by_path path g i,
          λ p. get_row-delete_row path p b.by_path,
        )
      ]
      change_described rename content none = elim (Option-cases (get_row path b.by_path)) [
        | inl e ↦ rw e tt
        | inr (f, e) ↦ rw e tt
      ]
      change_described rename content (some new_path) =
          elim (Option-cases (get_row path b.by_path)) [
            | inl e ↦ rw e tt
            | inr (f, e) ↦ rw e (
                renamed f new_path e
                  (indexed-IsWhole hashing source_tree_id b.by_path g path f i e))
          ]

    pub apply_change-Describes :
        (change : SourceUpdate) (b : Batch) (g : SourceGraph)
        → IsIndexed hashing source_tree_id b.by_path g
        → Describes change b.by_path (apply_change hashing source_tree_id change b g)
    apply_change-Describes change b g i =
        change_described change.path change.role change.language change.expected_hash b g i
          change.operation change.content change.new_path

    -- The description is of the files path by path.
    pub describe_all_same :
        (changes : List SourceUpdate) (f k : Files)
        → ((p : String) → f p ≡ k p)
        → (p : String) → describe_all changes f p ≡ describe_all changes k p
    describe_all_same changes f k h p = ap (λ files. describe_all changes files p) (λ j q. h q j)

    pub apply_changes-Describes :
        (changes : List SourceUpdate) (b c : Batch) (g h : SourceGraph)
        → IsIndexed hashing source_tree_id b.by_path g
        → apply_changes hashing source_tree_id changes b g ≡ (ok c, h)
        → IsIndexed hashing source_tree_id c.by_path h
          × ((p : String) → get_row p c.by_path ≡ describe_all changes (λ q. get_row q b.by_path) p)
    apply_changes-Describes [] b c g h i e =
        let same = ok_injective (ap (λ (x : Result SourceError Batch × SourceGraph). x.0) e) in
        let still = ap (λ (x : Result SourceError Batch × SourceGraph). x.1) e in
        (
          subst (λ (x : Batch × SourceGraph). IsIndexed hashing source_tree_id x.0.by_path x.1)
              (λ j. (same j, still j)) i,
          λ p. ap (λ (x : Batch). get_row p x.by_path) (sym same),
        )
    apply_changes-Describes (change ∷ changes) b c g h i e =
        let (d, k, first, rest) =
          continue-eq-ok (apply_change hashing source_tree_id change b g)
            (apply_changes hashing source_tree_id changes) e in
        let (j, one) =
          subst (Describes change b.by_path) first (apply_change-Describes change b g i) in
        let (l, all) = apply_changes-Describes changes d c k h j rest in
        (l, λ p. all p ∙ describe_all_same changes _ _ one p)
