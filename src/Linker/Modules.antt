-- ===== src/Linker/Modules.antt =====
-- What the linker has put in order, and how a visit changes its state.
use crossa.Prelude.{
  ℕ, ◌≤◌, Bool, true, false, List, [], ◌∷◌, ◌++◌, Option, none, some, Bytes, bytes_eq, bytes_eq_iff,
  length, ok, ◌≡◌, refl, sym, ap, ◌∙◌, arith, Bool-cases, inl, inr, Post,
}
use crossa.Linker.Visit.{
  SourcePath, Declaration, import_file, config, expression, other, visiting, visited, Linker,
  maximum_import_depth, resolve, enter, leave, own, Visit,
}
use crossa.Linker.Facts.{member, put-equal, put-other, NoFuelError}

-- The arguments of a run: the index, the parser of sources, and the entry with its declarations.
pub record Project : Type 0 where
  pub index : Bytes → List SourcePath
  pub parse_source : SourcePath → Option (List Declaration)
  pub entry_path : SourcePath
  pub entry_source : List Declaration

module _ (project : Project) where
  -- The path has these declarations: the entry's are given, any other's are parsed.
  abbrev pub Provides : Bool → SourcePath → List Declaration → Type 0
  Provides true path ds = (path ≡ project.entry_path) × (ds ≡ project.entry_source)
  Provides false path ds = project.parse_source path ≡ some ds

  -- Every import among the declarations resolves to a path of the list.
  abbrev pub Imports : List SourcePath → List Declaration → Type 0
  Imports order [] = Unit
  Imports order (import_file name ∷ ds) =
      ((target : SourcePath) × (resolve project.index name ≡ ok target)
        × (member target order ≡ true))
      × Imports order ds
  Imports order (config text ∷ ds) = Imports order ds
  Imports order (expression text ∷ ds) = Imports order ds
  Imports order (other text ∷ ds) = Imports order ds

  -- The modules of `order`, the last one first, give the declarations `out`: each stands once, behind
  -- all that it imports, and adds its own declarations.
  pub data Linked : List SourcePath → List Declaration → Type 0 where
    nothing : Linked [] []
    linked_module :
        (entry : Bool) (path : SourcePath) (ds : List Declaration) (order : List SourcePath)
        (out added : List Declaration)
        → Linked order out
        → Provides entry path ds
        → member path order ≡ false
        → Imports order ds
        → own entry ds ≡ ok added
        → Linked (path ∷ order) (out ++ added)

  pub record Inv (order : List SourcePath) (s : Linker) : Type 0 where
    pub linked : Linked order s.declarations
    pub of_member : (q : SourcePath) → member q order ≡ true → s.states q ≡ some visited
    pub to_member : (q : SourcePath) → s.states q ≡ some visited → member q order ≡ true
    pub count : s.module_count ≡ length order

  -- What a visit keeps.
  pub record Keeps (order order' : List SourcePath) (s s' : Linker) : Type 0 where
    pub inv : Inv order' s'
    pub extends : (q : SourcePath) → member q order ≡ true → member q order' ≡ true
    pub active : (q : SourcePath) → s.states q ≡ some visiting → s'.states q ≡ some visiting
    pub same_depth : s'.depth ≡ s.depth

  abbrev pub After : List SourcePath → Linker → (List SourcePath → Type 0) → Linker → Type 0
  After order s Q s' = (order' : List SourcePath) × Keeps order order' s s' × Q order'

  unfoldable pub Good : ℕ → Visit → Type 0
  Good bound visit =
      (path : SourcePath) (ds : List Declaration) (entry : Bool) (s : Linker)
      (order : List SourcePath)
      → Provides entry path ds
      → Inv order s
      → s.depth ≤ maximum_import_depth
      → bound ≤ s.depth
      → Post NoFuelError (After order s (λ o. member path o ≡ true)) (visit path ds entry s)

  pub Keeps-refl : (order : List SourcePath) (s : Linker) → Inv order s → Keeps order order s s
  Keeps-refl order s i = record {
    inv = i;
    extends = λ q m. m;
    active = λ q a. a;
    same_depth = refl;
  }

  pub Keeps-trans :
      (a b c : List SourcePath) (s t u : Linker) → Keeps a b s t → Keeps b c t u → Keeps a c s u
  Keeps-trans a b c s t u k l = record {
    inv = l.inv;
    extends = λ q m. l.extends q (k.extends q m);
    active = λ q v. l.active q (k.active q v);
    same_depth = l.same_depth ∙ k.same_depth;
  }

  pub Imports-extend :
      (order order' : List SourcePath) (ds : List Declaration)
      → ((q : SourcePath) → member q order ≡ true → member q order' ≡ true)
      → Imports order ds
      → Imports order' ds
  Imports-extend order order' [] ext i = i
  Imports-extend order order' (import_file name ∷ ds) ext ((t, r, m), i) =
      ((t, r, ext t m), Imports-extend order order' ds ext i)
  Imports-extend order order' (config text ∷ ds) ext i = Imports-extend order order' ds ext i
  Imports-extend order order' (expression text ∷ ds) ext i = Imports-extend order order' ds ext i
  Imports-extend order order' (other text ∷ ds) ext i = Imports-extend order order' ds ext i

  module _ (path : SourcePath) (s : Linker) (order : List SourcePath) where
    pub enter-Inv : s.states path ≡ none → Inv order s → Inv order (enter path s)
    unfolding enter
    enter-Inv new inv = record {
      linked = inv.linked;
      of_member = λ q m. elim (Bool-cases (bytes_eq path q)) [
        | inl same ↦
            let v = inv.of_member q m in
            let w = ap s.states ((bytes_eq_iff path q).0 same) in absurd cc
        | inr differs ↦ put-other path q visiting s.states differs ∙ inv.of_member q m
      ];
      to_member = λ q e. elim (Bool-cases (bytes_eq path q)) [
        | inl same ↦ let v = put-equal path q visiting s.states same in absurd cc
        | inr differs ↦ inv.to_member q (sym (put-other path q visiting s.states differs) ∙ e)
      ];
      count = inv.count;
    }

    pub leave-Inv :
        (entry : Bool) (ds added : List Declaration)
        → Provides entry path ds
        → member path order ≡ false
        → Imports order ds
        → own entry ds ≡ ok added
        → Inv order s
        → Inv (path ∷ order) (leave path (record s { declarations = s.declarations ++ added }))
    unfolding leave member
    leave-Inv entry ds added given fresh imports mine inv = record {
      linked =
          linked_module entry path ds order s.declarations added inv.linked given fresh imports
            mine;
      of_member = λ q m. elim (Bool-cases (bytes_eq path q)) [
        | inl same ↦ put-equal path q visited s.states same
        | inr differs ↦
            put-other path q visited s.states differs ∙ inv.of_member q (simp differs at m)
      ];
      to_member = λ q e. elim (Bool-cases (bytes_eq path q)) [
        | inl same ↦ rw same refl
        | inr differs ↦
            rw differs (inv.to_member q (sym (put-other path q visited s.states differs) ∙ e))
      ];
      count = omega (arith, inv.count);
    }

    pub leave-Keeps :
        (t : Linker) (before : List SourcePath)
        → s.states path ≡ none
        → Keeps before order (enter path s) t
        → (added : List Declaration)
        → Inv (path ∷ order) (leave path (record t { declarations = t.declarations ++ added }))
        → Keeps before
            (path ∷ order)
            s
            (leave path (record t { declarations = t.declarations ++ added }))
    unfolding leave enter member
    leave-Keeps t before new k added inv = record {
      inv = inv;
      extends = λ q m. let w = k.extends q m in ground arith;
      active = λ q v. elim (Bool-cases (bytes_eq path q)) [
        | inl same ↦ let w = ap s.states ((bytes_eq_iff path q).0 same) in absurd cc
        | inr differs ↦
            put-other path q visited t.states differs
            ∙ k.active q (put-other path q visiting s.states differs ∙ v)
      ];
      same_depth = omega (arith, k.same_depth);
    }

  -- A path that is being visited is not yet in the order.
  pub visiting-fresh :
      (path : SourcePath) (order : List SourcePath) (s : Linker)
      → Inv order s
      → s.states path ≡ some visiting
      → member path order ≡ false
  visiting-fresh path order s inv here = elim (Bool-cases (member path order)) [
    | inl m ↦ let v = inv.of_member path m in absurd cc
    | inr fresh ↦ fresh
  ]
