-- ===== src/Kernel/Sources.antt =====
-- The records of kernel/models.py that the source store reads and writes. The times at which a tree
-- or a content was made are left out, since no code of the store reads them; a `SourceRole` is its
-- text.
use n4x_core.Prelude.{String, ℕ, Option}

pub data SourceTreeStatus : Type 0 where
  draft interned : SourceTreeStatus

pub record SourceTree : Type 0 where
  pub id : String
  pub status : SourceTreeStatus
  pub tree_hash : String
  pub owner_kind : Option String
  pub owner_id : Option String

pub record SourceContent : Type 0 where
  pub id : String
  pub content : String

pub record SourceFile : Type 0 where
  pub source_tree_id : String
  pub path : String
  pub role : String
  pub language : String
  pub content : String
  pub content_hash : String
  pub size : ℕ
