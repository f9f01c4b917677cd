-- ===== src/Linker/Visit.antt =====
-- src/compiler/project/ProjectLinker.cpp: the walk over the imports. The index of the project's
-- files and `parseImportedSource` are arguments; the latter is `none` where it throws.
use crossa.Prelude.{
  ℕ, zero, suc, ◌+◌, ◌-◌, Bool, true, false, List, [], ◌∷◌, ◌++◌, Option, none, some, Bytes,
  bytes_eq, codes, leb, if◌then◌else◌, Result, ok, err, ◌>>=◌,
}

-- A normalized path: the key that `getPathKey` makes of it.
abbrev pub SourcePath : Type 0
SourcePath = Bytes

-- A declaration of a source unit, by the kinds that the linker tells apart: an import with its
-- filename, any other with its text.
pub data Declaration : Type 0 where
  import_file config expression other : Bytes → Declaration

pub data VisitState : Type 0 where
  visiting visited : VisitState

pub data LinkError : Type 0 where
  module_limit depth_limit : SourcePath → LinkError
  circular : List SourcePath → LinkError
  config_imported : LinkError
  not_found ambiguous : Bytes → LinkError
  imported_config imported_expression : LinkError
  -- what loading, scanning or parsing an imported source throws
  source_error : SourcePath → LinkError
  -- not an error of the program: the recursion of the model ran out of fuel
  out_of_fuel : LinkError

abbrev pub VisitStates : Type 0
VisitStates = SourcePath → Option VisitState

-- The members that a visit changes.
pub record Linker : Type 0 where
  pub states : VisitStates
  pub active : List SourcePath
  pub declarations : List Declaration
  pub module_count : ℕ
  pub depth : ℕ

abbrev pub maximum_imported_modules : ℕ
maximum_imported_modules = 1024

abbrev pub maximum_import_depth : ℕ
maximum_import_depth = 256

-- visitStates_[path] = state
unfoldable pub put : SourcePath → VisitState → VisitStates → VisitStates
put path state states q = if bytes_eq path q then some state else states q

-- activePath_.pop_back()
unfoldable pub pop_back : List SourcePath → List SourcePath
pop_back [] = []
pop_back (p ∷ []) = []
pop_back (p ∷ q ∷ rest) = p ∷ pop_back (q ∷ rest)

-- find(activePath_, target), empty if it is not there
unfoldable pub find_from : SourcePath → List SourcePath → List SourcePath
find_from target [] = []
find_from target (p ∷ rest) =
    let later = find_from target rest in if bytes_eq p target then p ∷ rest else later

-- The chain that `failCircularImport` reports.
unfoldable pub cycle : SourcePath → List SourcePath → List SourcePath
unfolding find_from
cycle target active =
    elim (find_from target active) [ [] ↦ active | ◌∷◌ p rest ↦ p ∷ rest ] ++ (target ∷ [])

-- `resolveImport`, of the files that the index has under a name.
unfoldable pub choose : Bytes → List SourcePath → Result LinkError SourcePath
choose filename [] = err (not_found filename)
choose filename (p ∷ []) = ok p
choose filename (p ∷ q ∷ more) = err (ambiguous filename)

unfoldable pub resolve : (Bytes → List SourcePath) → Bytes → Result LinkError SourcePath
unfolding choose
resolve index filename =
    if bytes_eq filename (codes "config.cra")
    then err config_imported
    else choose filename (index filename)

-- The state before the loops of `visitModule`, and behind them.
unfoldable pub enter : SourcePath → Linker → Linker
unfolding put
enter path s = record s {
  states = put path visiting s.states;
  active = s.active ++ (path ∷ []);
  depth = s.depth + 1;
}

unfoldable pub leave : SourcePath → Linker → Linker
unfolding put pop_back
leave path s = record s {
  active = pop_back s.active;
  depth = s.depth - 1;
  states = put path visited s.states;
  module_count = s.module_count + 1;
}

-- The second loop of `visitModule`: what it adds to `linkedDeclarations_`.
unfoldable pub own : Bool → List Declaration → Result LinkError (List Declaration)
own entry [] = ok []
own entry (import_file name ∷ ds) = own entry ds
own entry (config text ∷ ds) =
    if entry then (own entry ds >>= λ rest. ok (config text ∷ rest)) else err imported_config
own entry (expression text ∷ ds) =
    if entry
    then (own entry ds >>= λ rest. ok (expression text ∷ rest))
    else err imported_expression
own entry (other text ∷ ds) = own entry ds >>= λ rest. ok (other text ∷ rest)

abbrev pub Visit : Type 0
Visit = SourcePath → List Declaration → Bool → Linker → Result LinkError Linker

module _ (index : Bytes → List SourcePath)
    (parse_source : SourcePath → Option (List Declaration)) where
  -- What `parseImportedSource` returns is visited.
  unfoldable pub import_parsed :
      Visit → SourcePath → Linker → Option (List Declaration) → Result LinkError Linker
  import_parsed visit target s none = err (source_error target)
  import_parsed visit target s (some ds) = visit target ds false s

  -- One import that was resolved to `target`, by the state of that path.
  unfoldable pub import_one :
      Visit → SourcePath → Linker → Option VisitState → Result LinkError Linker
  unfolding cycle import_parsed
  import_one visit target s (some visiting) = err (circular (cycle target s.active))
  import_one visit target s (some visited) = ok s
  import_one visit target s none = import_parsed visit target s (parse_source target)

  -- The first loop of `visitModule`.
  unfoldable pub import_loop : Visit → List Declaration → Linker → Result LinkError Linker
  unfolding resolve import_one
  import_loop visit [] s = ok s
  import_loop visit (import_file name ∷ ds) s = do
    target ← resolve index name
    next ← import_one visit target s (s.states target)
    import_loop visit ds next
  import_loop visit (config text ∷ ds) s = import_loop visit ds s
  import_loop visit (expression text ∷ ds) s = import_loop visit ds s
  import_loop visit (other text ∷ ds) s = import_loop visit ds s

  -- The rest of `visitModule`, of a path that has no state.
  unfoldable pub visit_new : Visit → Visit
  unfolding import_loop own enter leave
  visit_new visit path ds entry s = do
    imported ← import_loop visit ds (enter path s)
    added ← own entry ds
    ok (leave path (record imported { declarations = imported.declarations ++ added }))

  -- `visitModule` behind its limits, by the state of the path.
  unfoldable pub visit_by :
      Visit
      → SourcePath
      → List Declaration
      → Bool
      → Linker
      → Option VisitState
      → Result LinkError Linker
  unfolding visit_new cycle
  visit_by visit path ds entry s (some visited) = ok s
  visit_by visit path ds entry s (some visiting) = err (circular (cycle path s.active))
  visit_by visit path ds entry s none = visit_new visit path ds entry s

  -- `visitModule`, on fuel for its recursion
  unfoldable pub visit_module : ℕ → Visit
  unfolding visit_by
  visit_module zero path ds entry s = err out_of_fuel
  visit_module (suc fuel) path ds entry s =
      if leb maximum_imported_modules s.module_count
      then err (module_limit path)
      else if leb maximum_import_depth s.depth
      then err (depth_limit path)
      else visit_by (visit_module fuel) path ds entry s (s.states path)

  -- The visit of `run`, from the state that the constructor makes.
  unfoldable pub run : SourcePath → List Declaration → Result LinkError (List Declaration)
  unfolding visit_module
  run entry ds = do
    s ←
        visit_module (suc maximum_import_depth) entry ds true (record {
          states = λ q. none;
          active = [];
          declarations = [];
          module_count = 0;
          depth = 0;
        })
    ok s.declarations
