-- ===== src/Digests.antt =====
-- src/it/unimib/data/nanofaas/ray_dispatcher/digests.py, over the hash and the local files: which bytes
-- enter a digest. A text stands for its bytes here, and a tree for the directory that is
-- scanned.
pub mod Stream
use ray_dispatcher.Base.{
  ℕ, Bool, false, ◌||◌, holds, List, [], ◌∷◌, ◌++◌, Str, codes, str_discrete, slash, octal, join,
  if◌then◌else◌, str_le,
}
use ray_dispatcher.Values.{Project}
use ray_dispatcher.Errors.{Action, pure, ◌>>=◌, ◌>>◌}
use ray_dispatcher.Layout.{rstrip_slash}
use ray_dispatcher.Paths.{starts_with}

-- What a file of the source tree is: a symbolic link with its target, or a file with its permission
-- bits and its bytes.
pub data Content : Type 0 where
  link : Str → Content
  file : ℕ → Str → Content

pub record SourceFile : Type 0 where
  pub rel : Str
  pub content : Content

-- A directory entry, and the entries of a directory in the order that they are scanned in. `special` is
-- what is no link, no directory and no regular file.
mutual
  pub data Node : Type 0 where
    link_node : Str → Node
    dir : Entries → Node
    file_node : ℕ → Str → Node
    special : Node

  pub data Entries : Type 0 where
    end : Entries
    entry : Str → Node → Entries → Entries

-- `_excluded(rel, excludes)`
pub excluded : Str → List Str → Bool
excluded rel [] = false
excluded rel (raw ∷ rest) =
    let e = rstrip_slash raw in
    holds (str_discrete rel e) || (starts_with (e ++ slash ∷ []) rel || excluded rel rest)

-- `sorted(…, key=lambda e: e.name)`, on what each name gives.
insert_named : Str × List SourceFile → List (Str × List SourceFile) → List (Str × List SourceFile)
insert_named x [] = x ∷ []
insert_named x (y ∷ ys) = if str_le x.0 y.0 then x ∷ y ∷ ys else y ∷ insert_named x ys

sort_named : List (Str × List SourceFile) → List (Str × List SourceFile)
unfolding insert_named
sort_named [] = []
sort_named (x ∷ xs) = insert_named x (sort_named xs)

in_order : List (Str × List SourceFile) → List SourceFile
in_order [] = []
in_order (x ∷ xs) = x.1 ++ in_order xs

-- `rec`: what a node gives under its path, and what the entries give under a prefix.
mutual
  pub listed : List Str → Str → Node → List SourceFile
  listed excludes rel (link_node target) = record { rel = rel; content = link target } ∷ []
  listed excludes rel (dir es) = in_order (sort_named (scanned excludes (rel ++ slash ∷ []) es))
  listed excludes rel (file_node mode bytes) = record { rel = rel; content = file mode bytes } ∷ []
  listed excludes rel special = []

  pub scanned : List Str → Str → Entries → List (Str × List SourceFile)
  scanned excludes prefix end = []
  scanned excludes prefix (entry name node es) =
      let here = listed excludes (prefix ++ name) node in
      (name, (if excluded (prefix ++ name) excludes then [] else here)) ∷ scanned excludes prefix es

-- `_iter_source_files(root, excludes)`
pub iter_source_files : Entries → List Str → List SourceFile
iter_source_files root excludes = in_order (sort_named (scanned excludes [] root))

-- The bytes of a file: `L` and the target, or `M`, the bits in octal and the bytes.
pub body : Content → Str
unfolding octal
body (link target) = codes "L" ++ target
body (file mode bytes) = codes "M" ++ octal mode ++ bytes

-- All that `source_digest` feeds to the hash: each path and each body ends with a NUL.
unfoldable pub source_stream : List SourceFile → Str
unfolding body
source_stream [] = []
source_stream (f ∷ fs) = f.rel ++ 0 ∷ (body f.content ++ 0 ∷ source_stream fs)

-- The fields of the environment, each with a NUL.
pub fields_stream : List Str → Str
fields_stream [] = []
fields_stream (f ∷ fs) = f ++ 0 ∷ fields_stream fs

-- The hash, the scan of a directory and the reading of files.
pub record Files (W : Type 0) : Type 0 where
  pub sha256 : Str → Str
  pub scan : Str → Action W Entries
  pub read_bytes : Str → Action W Str
  pub read_in : Str → Str → Action W Str

module _ {W : Type 0} (files : Files W) where
  pub source_digest : Str → List Str → Action W Str
  unfolding source_stream iter_source_files
  source_digest root excludes = do
    tree ← files.scan root
    pure (files.sha256 (source_stream (iter_source_files tree excludes)))

  pub environment_digest : Project → Str → List Str → Action W Str
  unfolding fields_stream
  environment_digest project platform sync_flags = do
    pyproject ← files.read_in project.path (codes "pyproject.toml")
    lock ← files.read_in project.path (codes "uv.lock")
    pure (
        files.sha256 (
          fields_stream (
            pyproject
            ∷ lock
            ∷ project.python
            ∷ project.uv_version
            ∷ join (0 ∷ []) project.dependency_groups
            ∷ join (0 ∷ []) sync_flags
            ∷ platform
            ∷ [])))

  pub runner_digest : Str → Action W Str
  runner_digest path = do bytes ← files.read_bytes path; pure (files.sha256 bytes)
