-- ===== src/FileSystem.antt =====
-- The functions of std::fs and std::path::Path that the crate and its examples call: the file system
-- is a parameter of the model.
use zoned.Base.{ℕ, String, Bool, List}
use zoned.Errors.{Io, IoError}

-- `st_mode` and `st_rdev` of a file.
pub record Metadata : Type 0 where
  pub mode : ℕ
  pub rdev : ℕ

-- What the iterator of `read_dir` yields: the name of an entry, or an error.
pub data DirItem : Type 0 where
  entry : String → DirItem
  failed : IoError → DirItem

-- A path that does not exist or cannot be looked at counts as not there.
pub record Fs (W : Type 0) : Type 0 where
  pub metadata : String → Io W IoError Metadata
  pub read_to_string : String → Io W IoError String
  pub read_dir : String → Io W IoError (List DirItem)
  pub exists : String → W → Bool
  pub canonicalize : String → Io W IoError String
  pub read : String → Io W IoError (List ℕ)
  pub write : String → List ℕ → Io W IoError (Unit {0})
