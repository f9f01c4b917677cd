-- ===== src/Linker/Index.antt =====
-- `indexProjectSources` of src/compiler/project/ProjectLinker.cpp. What the file system lists is a
-- sequence of entries; an entry that cannot be read further ends nothing.
pub mod Bounds
use crossa.Prelude.{
  ℕ, zero, suc, ◌+◌, ◌-◌, ◌≤◌, ◌*◌, Bool, true, false, not, ◌&&◌, ◌||◌, List, [], ◌∷◌, ◌++◌, Option,
  none, some, Bytes, bytes_eq, codes, leb, ltb, ◌==◌, length, if◌then◌else◌, Result, ok, err, ◌>>=◌,
  ◌≡◌, ◌↔◌, refl, arith, Bool-cases, inl, inr, Post, done, stop, Post-if, Post-ok, Post-bind,
}
use crossa.Linker.Visit.{SourcePath, LinkError, resolve, choose}

-- What the loop asks of a directory entry; `none` is a size or a path that is not to be had.
pub record Entry : Type 0 where
  pub readable : Bool
  pub is_symlink : Bool
  pub is_regular_file : Bool
  pub is_source : Bool
  pub file_name : Bytes
  pub file_size : Option ℕ
  pub canonical : Option SourcePath

pub data IndexError : Type 0 where
  file_count byte_limit : IndexError

-- `sourceIndex_`, in the order of the insertions, `indexedSourceCount_` and `indexedSourceBytes_`
pub record Index : Type 0 where
  pub files : List (Bytes × SourcePath)
  pub source_count : ℕ
  pub source_bytes : ℕ

abbrev pub maximum_project_source_files : ℕ
maximum_project_source_files = 10000

abbrev pub maximum_project_source_bytes : ℕ
maximum_project_source_bytes = 256 * 1024 * 1024

abbrev add_file : Bytes → Option SourcePath → List (Bytes × SourcePath) → List (Bytes × SourcePath)
add_file name none files = files
add_file name (some path) files = files ++ ((name, path) ∷ [])

-- The size of one more source against the limit.
unfoldable pub add_sized : Entry → Index → Option ℕ → Result IndexError Index
add_sized entry i none = err byte_limit
add_sized entry i (some size) =
    if ltb maximum_project_source_bytes size
      || ltb (maximum_project_source_bytes - size) i.source_bytes
    then err byte_limit
    else ok record {
      files = add_file entry.file_name entry.canonical i.files;
      source_count = i.source_count + 1;
      source_bytes = i.source_bytes + size;
    }

-- One round of the loop.
unfoldable pub add_entry : Entry → Index → Result IndexError Index
unfolding add_sized
add_entry entry i =
    if entry.readable && not entry.is_symlink && entry.is_regular_file && entry.is_source
    then (if leb maximum_project_source_files i.source_count
        then err file_count
        else if leb maximum_project_source_bytes i.source_bytes
        then err byte_limit
        else add_sized entry i entry.file_size)
    else ok i

unfoldable pub index_loop : List Entry → Index → Result IndexError Index
unfolding add_entry
index_loop [] i = ok i
index_loop (entry ∷ entries) i = do next ← add_entry entry i; index_loop entries next

-- operator< of strings
unfoldable pub bytes_lt : Bytes → Bytes → Bool
bytes_lt [] [] = false
bytes_lt [] (y ∷ ys) = true
bytes_lt (x ∷ xs) [] = false
bytes_lt (x ∷ xs) (y ∷ ys) = ltb x y || x == y && bytes_lt xs ys

unfoldable pub insert : SourcePath → List SourcePath → List SourcePath
unfolding bytes_lt
insert p [] = p ∷ []
insert p (q ∷ qs) = let rest = insert p qs in if bytes_lt q p then q ∷ rest else p ∷ q ∷ qs

-- std::sort
unfoldable pub sort : List SourcePath → List SourcePath
unfolding insert
sort [] = []
sort (p ∷ ps) = insert p (sort ps)

unfoldable pub paths_of : Bytes → List (Bytes × SourcePath) → List SourcePath
paths_of name [] = []
paths_of name ((n, p) ∷ files) =
    let rest = paths_of name files in if bytes_eq n name then p ∷ rest else rest

-- `indexProjectSources`: the paths of a name, sorted
unfoldable pub index_sources : List Entry → Result IndexError (Bytes → List SourcePath)
unfolding index_loop sort paths_of
index_sources entries = do
  i ← index_loop entries (record { files = []; source_count = 0; source_bytes = 0 })
  ok (λ name. sort (paths_of name i.files))
