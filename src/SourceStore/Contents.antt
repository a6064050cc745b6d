-- ===== src/SourceStore/Contents.antt =====
-- The contents that the files of a tree point to: they are kept by all writes, and each stands under
-- the hash of its text.
use n4x_core.Prelude.{
  String, ◌≡◌, refl, sym, ap, subst, ◌∙◌, Bool, true, false, Option, none, some, if◌then◌else◌,
  ◌==◌, arith, eq_iff, some_injective,
}
use n4x_core.Prelude.Result.{ok, ◌>>=◌, passed_on}
use n4x_core.Kernel.Sources.{SourceContent, SourceFile}
use n4x_core.Graph.Store.{EdgeRecord, get_node, upsert_node, create_edge, delete_edge}
use n4x_core.SourceStore.State.{
  SourceGraph, Hashing, source_content, get_content, content_ref, or_raise, key_error,
}
use n4x_core.SourceStore.Trees.{file_of, hydrate}
use n4x_core.SourceStore.Files.{unlink_path, keep_or_save, keep_content, put_file}
use n4x_core.SourceStore.View.{or_raise-eq-ok}
use n4x_core.SourceStore.Writes.{get_node-upsert_node, or_else}

-- All contents of the one graph are in the other.
abbrev pub Extends : SourceGraph → SourceGraph → Type 0
Extends g h =
    (id : String) (c : SourceContent) → get_content id g ≡ some c → get_content id h ≡ some c

get_content-save :
    (id : String) (c : SourceContent) (g : SourceGraph)
    → get_content id (upsert_node (content_ref c.id) (source_content c) g)
      ≡ (if c.id == id then some c else get_content id g)
unfolding get_content
get_content-save id c g =
    rw (get_node-upsert_node (content_ref id) (content_ref c.id) (source_content c) g)
      (ground arith)

module _ {A : Type 0} where
  added :
      (b : Bool) (c : A) (o : Option A)
      → (b ≡ true → o ≡ none)
      → (if b then some c else o) ≡ or_else o (if b then some c else none)
  added true c o h = rw (h refl) refl
  added false c none h = refl
  added false c (some d) h = refl

  kept :
      (b : Bool) (c d : A) (o : Option A)
      → (b ≡ true → o ≡ some d)
      → o ≡ or_else o (if b then some c else none)
  kept true c d o h = rw (h refl) refl
  kept false c d none h = refl
  kept false c d (some e) h = refl

get_content-keep_content :
    (id : String) (c : SourceContent) (g : SourceGraph)
    → get_content id (keep_content c g)
      ≡ or_else (get_content id g) (if c.id == id then some c else none)
unfolding keep_content
get_content-keep_content id c g = keep (get_content c.id g) refl
  where
    same : (c.id == id) ≡ true → get_content id g ≡ get_content c.id g
    same e = ap (λ i. get_content i g) (sym ((eq_iff c.id id).0 e))

    keep :
        (o : Option SourceContent)
        → get_content c.id g ≡ o
        → get_content id (keep_or_save o c g)
          ≡ or_else (get_content id g) (if c.id == id then some c else none)
    keep none e =
        get_content-save id c g ∙ added (c.id == id) c (get_content id g) (λ t. same t ∙ e)
    keep (some d) e = kept (c.id == id) c d (get_content id g) (λ t. same t ∙ e)

pub Extends-keep_content : (c : SourceContent) (g : SourceGraph) → Extends g (keep_content c g)
Extends-keep_content c g id d h =
    get_content-keep_content id c g ∙ ap (λ o. or_else o (if c.id == id then some c else none)) h

get_content-put_file :
    (id source_tree_id : String) (file : SourceFile) (g : SourceGraph)
    → get_content id (put_file source_tree_id file g)
      ≡ get_content id (keep_content (record { id = file.content_hash; content = file.content }) g)
unfolding get_content get_node put_file keep_content create_edge unlink_path delete_edge upsert_node
get_content-put_file id source_tree_id file g = ground arith

pub Extends-put_file :
    (source_tree_id : String) (file : SourceFile) (g : SourceGraph)
    → Extends g (put_file source_tree_id file g)
Extends-put_file source_tree_id file g id d h =
    get_content-put_file id source_tree_id file g
    ∙ Extends-keep_content (record { id = file.content_hash; content = file.content }) g id d h

pub get_content-unlink_path :
    (id source_tree_id path : String) (g : SourceGraph)
    → get_content id (unlink_path source_tree_id path g) ≡ get_content id g
unfolding get_content get_node unlink_path delete_edge
get_content-unlink_path id source_tree_id path g = refl

pub file_of-Extends :
    (source_tree_id : String) (g h : SourceGraph) (e : EdgeRecord) (file : SourceFile)
    → Extends g h
    → file_of source_tree_id g e ≡ ok file
    → file_of source_tree_id h e ≡ ok file
file_of-Extends source_tree_id g h e file x f =
    let (content, found, made) =
      passed_on (or_raise key_error (get_content e.to_ref.id g))
        (λ c. hydrate source_tree_id e.props c) f in
    let there =
      x e.to_ref.id content (or_raise-eq-ok key_error (get_content e.to_ref.id g) found) in
    ap (λ o. or_raise key_error o >>= λ c. hydrate source_tree_id e.props c) there ∙ made

-- Each content stands under its id, which is the hash of its text.
abbrev pub IsHashed : Hashing → SourceGraph → Type 0
IsHashed hashing g =
    (id : String) (c : SourceContent)
    → get_content id g ≡ some c
    → (c.id ≡ id) × (hashing.sha256_text c.content ≡ id)

pub IsHashed-keep_content :
    (hashing : Hashing) (c : SourceContent) (g : SourceGraph)
    → hashing.sha256_text c.content ≡ c.id
    → IsHashed hashing g
    → IsHashed hashing (keep_content c g)
IsHashed-keep_content hashing c g s k id d h =
    placed (get_content id g) (c.id == id) refl refl (sym (get_content-keep_content id c g) ∙ h)
  where
    placed :
        (o : Option SourceContent) (b : Bool)
        → get_content id g ≡ o
        → (c.id == id) ≡ b
        → or_else o (if b then some c else none) ≡ some d
        → (d.id ≡ id) × (hashing.sha256_text d.content ≡ id)
    placed (some e) b found t q = k id d (found ∙ q)
    placed none true found t q =
        let same = (eq_iff c.id id).0 t in
        subst (λ (x : SourceContent). (x.id ≡ id) × (hashing.sha256_text x.content ≡ id))
          (some_injective q) (same, s ∙ same)
    placed none false found t q = cc

pub IsHashed-put_file :
    (hashing : Hashing) (source_tree_id : String) (file : SourceFile) (g : SourceGraph)
    → hashing.sha256_text file.content ≡ file.content_hash
    → IsHashed hashing g
    → IsHashed hashing (put_file source_tree_id file g)
IsHashed-put_file hashing source_tree_id file g s k id d h =
    IsHashed-keep_content hashing (record { id = file.content_hash; content = file.content }) g s k
      id d (sym (get_content-put_file id source_tree_id file g) ∙ h)

-- The content that a file says it has is the stored one, where equal hashes mean equal texts.
pub get_content-put_file_own :
    (hashing : Hashing) (source_tree_id : String) (file : SourceFile) (g : SourceGraph)
    → ((a b : String) → hashing.sha256_text a ≡ hashing.sha256_text b → a ≡ b)
    → hashing.sha256_text file.content ≡ file.content_hash
    → IsHashed hashing g
    → get_content file.content_hash (put_file source_tree_id file g)
      ≡ some (record { id = file.content_hash; content = file.content })
get_content-put_file_own hashing source_tree_id file g distinct s k =
    get_content-put_file file.content_hash source_tree_id file g
    ∙ get_content-keep_content file.content_hash
        (record { id = file.content_hash; content = file.content }) g
    ∙ stored (get_content file.content_hash g) refl
  where
    stored :
        (o : Option SourceContent)
        → get_content file.content_hash g ≡ o
        → or_else o (
            if file.content_hash == file.content_hash
            then some (record { id = file.content_hash; content = file.content })
            else none)
          ≡ some (record { id = file.content_hash; content = file.content })
    stored none e = rw ((eq_iff file.content_hash file.content_hash).1 refl) refl
    stored (some d) e =
        let (same_id, same_hash) = k file.content_hash d e in
        same same_id (distinct d.content file.content (same_hash ∙ sym s))
      where
        same :
            {d : SourceContent}
            → d.id ≡ file.content_hash
            → d.content ≡ file.content
            → some d ≡ some (record { id = file.content_hash; content = file.content })
        same i c j = some (record { id = i j; content = c j })
