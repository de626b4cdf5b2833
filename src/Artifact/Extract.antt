-- ===== src/Artifact/Extract.antt =====
-- asty/internal/infra/artifact/extract.go. The archive is what the gzip and tar readers give: an error
-- at once, or entries that end well or with an error.
use asty.Common.{Bool, true, false, Option, none, some, ◌++◌, Text, has_prefix, if◌then◌else◌}
use asty.Broker.Files.{dir_of}
use asty.Artifact.Paths.{slash, clean, join}

pub data Kind : Type 0 where
  directory : Kind
  regular : Text → Kind
  unsupported : Kind

pub record Entry : Type 0 where
  pub name : Text
  pub kind : Kind

pub data Archive : Type 0 where
  end_of_archive : Archive
  bad_header : Archive
  entry_then : Entry → Archive → Archive

pub data Fault : Type 0 where
  no_directory bad_gzip bad_archive invalid_path unwritable : Fault

-- The file system: `MkdirAll`, and a file that is created or cut to nothing and then filled. A mode is
-- left out.
pub record FileSystem (B : Type 0) : Type 0 where
  pub mkdir_all : Text → B → Bool × B
  pub write_file : Text → Text → B → Bool × B

module _ {B : Type 0} (fs : FileSystem B) where
  unfoldable pub written_in : Text → Text → Bool × B → Option Fault × B
  written_in path content (false, b) = (some unwritable, b)
  written_in path content (true, b) =
      let (ok, b') = fs.write_file path content b in ((if ok then none else some unwritable), b')

  -- `extractFile`.
  unfoldable pub extract_file : Text → Text → B → Option Fault × B
  unfolding written_in dir_of
  extract_file path content b = written_in path content (fs.mkdir_all (dir_of path) b)

  unfoldable pub extract_kind : Kind → Text → B → Option Fault × B
  unfolding extract_file
  extract_kind directory path b =
      let (ok, b') = fs.mkdir_all path b in ((if ok then none else some unwritable), b')
  extract_kind (regular content) path b = extract_file path content b
  extract_kind unsupported path b = (none, b)

  -- The guard against a path that leaves the directory, and the entry's work.
  unfoldable pub extract_entry : Text → Entry → B → Option Fault × B
  unfolding extract_kind join clean
  extract_entry dest e b =
      let path = join dest e.name in
      let done = extract_kind e.kind path b in
      if has_prefix path (clean dest ++ slash) then done else (some invalid_path, b)

  -- The loop stops at the first error.
  unfoldable pub continued : (B → Option Fault × B) → Option Fault × B → Option Fault × B
  continued rest (some f, b) = (some f, b)
  continued rest (none, b) = rest b

  unfoldable pub extract_all : Text → Archive → B → Option Fault × B
  unfolding continued extract_entry
  extract_all dest end_of_archive b = (none, b)
  extract_all dest bad_header b = (some bad_archive, b)
  extract_all dest (entry_then e rest) b =
      continued (λ b'. extract_all dest rest b') (extract_entry dest e b)

  unfoldable pub opened_in : Text → Option Archive → Bool × B → Option Fault × B
  opened_in dest archive (false, b) = (some no_directory, b)
  opened_in dest none (true, b) = (some bad_gzip, b)
  opened_in dest (some a) (true, b) = extract_all dest a b

  unfoldable pub extract : Text → Option Archive → B → Option Fault × B
  unfolding opened_in
  extract dest archive b = opened_in dest archive (fs.mkdir_all dest b)
