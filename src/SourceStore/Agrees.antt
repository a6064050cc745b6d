-- ===== src/SourceStore/Agrees.antt =====
-- `by_path` of a batch agrees with the files of the tree in the graph, after each change.
use n4x_core.Prelude.{
  String, ◌≡◌, refl, sym, subst, ◌∙◌, inl, inr, Option, none, some, [], ◌∷◌, if◌then◌else◌, ◌==◌,
  arith, eq_iff, Bool-cases,
}
use n4x_core.Prelude.Result.{ok}
use n4x_core.Kernel.Sources.{SourceContent, SourceFile}
use n4x_core.Graph.Records.{get_row, upsert_row, get-upsert_row}
use n4x_core.Graph.Store.{EdgeRecord, list_edges}
use n4x_core.SourceStore.State.{SourceGraph, Hashing, get_content}
use n4x_core.SourceStore.Trees.{file_of, hydrate, size_or}
use n4x_core.SourceStore.Files.{unlink_path, file_edge, keep_content, put_file, put_in}
use n4x_core.SourceStore.Changes.{ByPath, delete_row}
use n4x_core.SourceStore.View.{edge_at, Matches}
use n4x_core.SourceStore.Writes.{keep_content-edges, edge_at-unlink_path, edge_at-put_file}
use n4x_core.SourceStore.Contents.{
  Extends, Extends-put_file, file_of-Extends, get_content-unlink_path, IsHashed, IsHashed-put_file,
  get_content-put_file_own, IsHashed-keep_content, Extends-keep_content,
}

pub get_row-delete_row :
    (p q : String) (b : ByPath)
    → get_row q (delete_row p b) ≡ (if p == q then none else get_row q b)
get_row-delete_row p q [] = ground arith
get_row-delete_row p q ((k, f) ∷ b) =
    ground (arith, eq_iff k p, eq_iff k q, eq_iff p q, get_row-delete_row p q b)

module _ (hashing : Hashing) (source_tree_id : String) where
  -- A file whose hash and size are those of its content.
  pub record IsWhole (file : SourceFile) : Type 0 where
    pub hash : hashing.sha256_text file.content ≡ file.content_hash
    pub size : size_or file.content (some file.size) ≡ file.size

  pub record IsIndexed (b : ByPath) (g : SourceGraph) : Type 0 where
    pub agrees : (p : String) → Matches source_tree_id g (get_row p b) (edge_at source_tree_id p g)
    pub hashed : IsHashed hashing g

  content_of :
      (g : SourceGraph) (e : EdgeRecord) (file : SourceFile)
      → file_of source_tree_id g e ≡ ok file
      → get_content e.to_ref.id g ≡ some (record { id = file.content_hash; content = file.content })
  unfolding hydrate
  content_of g e file h = ground arith

  size_of :
      (g : SourceGraph) (e : EdgeRecord) (file : SourceFile)
      → file_of source_tree_id g e ≡ ok file
      → size_or file.content (some file.size) ≡ file.size
  unfolding hydrate
  size_of g e file h = ground arith

  pub file_of-IsWhole :
      (g : SourceGraph) (e : EdgeRecord) (file : SourceFile)
      → IsHashed hashing g
      → file_of source_tree_id g e ≡ ok file
      → IsWhole file
  file_of-IsWhole g e file k h =
      let (same, hash) = k e.to_ref.id _ (content_of g e file h) in
      record { hash = hash ∙ sym same; size = size_of g e file h }

  file_of-file_edge :
      (file : SourceFile) (g : SourceGraph)
      → get_content file.content_hash g
        ≡ some (record { id = file.content_hash; content = file.content })
      → size_or file.content (some file.size) ≡ file.size
      → file_of source_tree_id g (file_edge source_tree_id file) ≡ ok (put_in source_tree_id file)
  unfolding hydrate
  file_of-file_edge file g c s = rw (c, s) refl

  Matches-Extends :
      (g h : SourceGraph) (f : Option SourceFile) (e : Option EdgeRecord)
      → Extends g h
      → Matches source_tree_id g f e
      → Matches source_tree_id h f e
  Matches-Extends g h none none x m = tt
  Matches-Extends g h (some f) (some e) x m = file_of-Extends source_tree_id g h e f x m
  Matches-Extends g h none (some e) x m = m
  Matches-Extends g h (some f) none x m = m

  pub IsIndexed-put_file :
      (b : ByPath) (file : SourceFile) (g : SourceGraph)
      → ((u v : String) → hashing.sha256_text u ≡ hashing.sha256_text v → u ≡ v)
      → IsWhole file
      → IsIndexed b g
      → IsIndexed
          (upsert_row file.path (put_in source_tree_id file) b)
          (put_file source_tree_id file g)
  IsIndexed-put_file b file g distinct w i = record {
    hashed = IsHashed-put_file hashing source_tree_id file g w.hash i.hashed;
    agrees = λ p.
        rw
          (
            get-upsert_row file.path p (put_in source_tree_id file) b,
            edge_at-put_file source_tree_id p file g,
          )
          (at p);
  }
    where
      at :
          (p : String)
          → Matches source_tree_id
              (put_file source_tree_id file g)
              (if file.path == p then some (put_in source_tree_id file) else get_row p b)
              (if file.path == p
                then some (file_edge source_tree_id file)
                else edge_at source_tree_id p g)
      at p = elim (Bool-cases (file.path == p)) [
        | inl e ↦ rw e (
            file_of-file_edge file (put_file source_tree_id file g)
              (get_content-put_file_own hashing source_tree_id file g distinct w.hash i.hashed)
              w.size)
        | inr e ↦ rw e (
            Matches-Extends g (put_file source_tree_id file g) (get_row p b)
              (edge_at source_tree_id p g) (Extends-put_file source_tree_id file g) (i.agrees p))
      ]

  pub IsIndexed-unlink_path :
      (b : ByPath) (path : String) (g : SourceGraph)
      → IsIndexed b g
      → IsIndexed (delete_row path b) (unlink_path source_tree_id path g)
  IsIndexed-unlink_path b path g i = record {
    hashed = λ j c f. i.hashed j c (sym (get_content-unlink_path j source_tree_id path g) ∙ f);
    agrees =
        λ p. rw (get_row-delete_row path p b, edge_at-unlink_path source_tree_id path p g) (at p);
  }
    where
      at :
          (p : String)
          → Matches source_tree_id
              (unlink_path source_tree_id path g)
              (if path == p then none else get_row p b)
              (if path == p then none else edge_at source_tree_id p g)
      at p = elim (Bool-cases (path == p)) [
        | inl e ↦ rw e tt
        | inr e ↦ rw e (
            Matches-Extends g (unlink_path source_tree_id path g) (get_row p b)
              (edge_at source_tree_id p g)
              (λ j c f. get_content-unlink_path j source_tree_id path g ∙ f) (i.agrees p))
      ]

  pub IsIndexed-keep_content :
      (b : ByPath) (c : SourceContent) (g : SourceGraph)
      → hashing.sha256_text c.content ≡ c.id
      → IsIndexed b g
      → IsIndexed b (keep_content c g)
  unfolding list_edges keep_content
  IsIndexed-keep_content b c g s i = record {
    hashed = IsHashed-keep_content hashing c g s i.hashed;
    agrees = λ p. rw (keep_content-edges c g) (
        Matches-Extends g (keep_content c g) (get_row p b) (edge_at source_tree_id p g)
          (Extends-keep_content c g) (i.agrees p));
  }

  tree_of :
      (g : SourceGraph) (e : EdgeRecord) (file : SourceFile)
      → file_of source_tree_id g e ≡ ok file
      → file.source_tree_id ≡ source_tree_id
  unfolding hydrate
  tree_of g e file h = ground arith

  pub indexed-IsWhole :
      (b : ByPath) (g : SourceGraph) (p : String) (file : SourceFile)
      → IsIndexed b g
      → get_row p b ≡ some file
      → IsWhole file × (file.source_tree_id ≡ source_tree_id)
  indexed-IsWhole b g p file i h =
      whole (edge_at source_tree_id p g)
        (subst (λ f. Matches source_tree_id g f (edge_at source_tree_id p g)) h (i.agrees p))
    where
      whole :
          (e : Option EdgeRecord)
          → Matches source_tree_id g (some file) e
          → IsWhole file × (file.source_tree_id ≡ source_tree_id)
      whole none m = absurd m
      whole (some e) m = (file_of-IsWhole g e file i.hashed m, tree_of g e file m)
