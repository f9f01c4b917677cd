-- ===== src/Linker/Tests.antt =====
-- The linker on small projects.
use crossa.Prelude.{
  ℕ, true, false, List, [], ◌∷◌, Option, none, some, Bytes, bytes_eq, codes, ok, err, ◌≡◌, ◌≢◌, ◌≤◌,
  ◌↔◌, refl, arith, if◌then◌else◌,
}
use crossa.Linker.Visit.{
  SourcePath, Declaration, import_file, expression, other, circular, out_of_fuel, put, pop_back,
  find_from, cycle, choose, resolve, enter, leave, own, import_parsed, import_one, import_loop,
  visit_new, visit_by, visit_module, run,
}
use crossa.Linker.Index.{
  Entry, Index, index_loop, add_entry, add_sized, sort, insert, bytes_lt, paths_of,
  maximum_project_source_files, maximum_project_source_bytes,
}
use crossa.Linker.Index.Bounds.{index_loop-IsBounded, resolve-sort}
use crossa.Linker.Facts.{member}
use crossa.Linker.Modules.{Project, Linked}
use crossa.Linker.Order.{run-Linked, run-ne-out_of_fuel}

-- A file stands in the root, under its name.
abbrev index : Bytes → List SourcePath
index name = name ∷ []

-- b.cra and c.cra declare one function each, and b.cra imports c.cra.
abbrev sources : SourcePath → Option (List Declaration)
sources path =
    if bytes_eq path (codes "b.cra")
    then some (import_file (codes "c.cra") ∷ other (codes "fun b") ∷ [])
    else if bytes_eq path (codes "c.cra")
    then some (other (codes "fun c") ∷ [])
    else none

abbrev entry : List Declaration
entry = import_file (codes "b.cra") ∷ import_file (codes "c.cra") ∷ expression (codes "b()") ∷ []

abbrev linked : List Declaration
linked = other (codes "fun c") ∷ other (codes "fun b") ∷ expression (codes "b()") ∷ []

abbrev project : Project
project = record {
  index = index;
  parse_source = sources;
  entry_path = codes "a.cra";
  entry_source = entry;
}

abbrev cyclic : Project
cyclic = record {
  index = index;
  parse_source = sources;
  entry_path = codes "c.cra";
  entry_source = import_file (codes "b.cra") ∷ [];
}

run_test : run index sources (codes "a.cra") entry ≡ ok linked
unfolding run visit_module visit_by visit_new import_loop import_one import_parsed resolve choose
    own enter leave put pop_back bytes_eq
run_test = refl

cycle_test :
    run index sources (codes "c.cra") (import_file (codes "b.cra") ∷ [])
    ≡ err (circular (codes "c.cra" ∷ codes "b.cra" ∷ codes "c.cra" ∷ []))
unfolding run visit_module visit_by visit_new import_loop import_one import_parsed resolve choose
    own enter leave put pop_back bytes_eq cycle find_from
cycle_test = refl

run-Linked_example :
    (order : List SourcePath) × Linked project order linked × (member (codes "a.cra") order ≡ true)
run-Linked_example = run-Linked project linked run_test

run-ne-out_of_fuel_example :
    run index sources (codes "c.cra") (import_file (codes "b.cra") ∷ []) ≢ err out_of_fuel
run-ne-out_of_fuel_example = run-ne-out_of_fuel cyclic

abbrev file : Bytes → Bytes → ℕ → Entry
file name path size = record {
  readable = true;
  is_symlink = false;
  is_regular_file = true;
  is_source = true;
  file_name = name;
  file_size = some size;
  canonical = some path;
}

abbrev empty : Index
empty = record { files = []; source_count = 0; source_bytes = 0 }

abbrev two_files : Index
two_files = record {
  files = (codes "a.cra", codes "/z/a.cra") ∷ (codes "a.cra", codes "/b/a.cra") ∷ [];
  source_count = 2;
  source_bytes = 30;
}

index_loop_test :
    index_loop
      (file (codes "a.cra") (codes "/z/a.cra") 10 ∷ file (codes "a.cra") (codes "/b/a.cra") 20 ∷ [])
      empty
    ≡ ok two_files
unfolding index_loop add_entry add_sized
index_loop_test = refl

sort_test :
    sort (paths_of (codes "a.cra") two_files.files) ≡ codes "/b/a.cra" ∷ codes "/z/a.cra" ∷ []
unfolding sort insert bytes_lt paths_of bytes_eq
sort_test = refl

index_loop-IsBounded_example :
    (two_files.source_count ≤ maximum_project_source_files)
    × (two_files.source_bytes ≤ maximum_project_source_bytes)
index_loop-IsBounded_example =
    index_loop-IsBounded
      (file (codes "a.cra") (codes "/z/a.cra") 10 ∷ file (codes "a.cra") (codes "/b/a.cra") 20 ∷ [])
      empty two_files (omega arith) (omega arith) index_loop_test

resolve-sort_example :
    (resolve (λ n. sort (paths_of n ((codes "a.cra", codes "/a.cra") ∷ []))) (codes "a.cra")
      ≡ ok (codes "/a.cra"))
    ↔ ((bytes_eq (codes "a.cra") (codes "config.cra") ≡ false)
        × (paths_of (codes "a.cra") ((codes "a.cra", codes "/a.cra") ∷ []) ≡ codes "/a.cra" ∷ []))
resolve-sort_example =
    resolve-sort ((codes "a.cra", codes "/a.cra") ∷ []) (codes "a.cra") (codes "/a.cra")
