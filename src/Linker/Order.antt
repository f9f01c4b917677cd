-- ===== src/Linker/Order.antt =====
-- The order in which the linker puts the modules, and its fuel.
use crossa.Prelude.{
  ℕ, zero, suc, ◌-◌, ◌≤◌, ◌≢◌, Bool, true, false, List, [], ◌∷◌, Option, none, some, bytes_eq_iff,
  leb, ok, err, ◌≡◌, refl, arith, Post, done, stop, Post-weaken, Post-if, Post-ok, Post-err,
  Post-bind,
}
use crossa.Linker.Visit.{
  import_parsed, visit_by, SourcePath, Declaration, import_file, config, expression, other,
  VisitState, visiting, visited, out_of_fuel, Linker, maximum_imported_modules,
  maximum_import_depth, resolve, enter, own, Visit, import_one, import_loop, visit_new,
  visit_module, run,
}
use crossa.Linker.Facts.{
  member, NoFuelError, Post-refl, resolve-ne-out_of_fuel, own-Post, Post-exact, put-same,
}
use crossa.Linker.Modules.{
  Project, Provides, Imports, Linked, nothing, Inv, After, Good, Keeps-refl, Keeps-trans, enter-Inv,
  leave-Inv, leave-Keeps, visiting-fresh,
}

module _ (project : Project) where
  module _ (bound : ℕ) (visit : Visit) (good : Good project bound visit) where
    import_parsed-Post :
        (target : SourcePath) (s : Linker) (order : List SourcePath)
        (parsed : Option (List Declaration))
        → project.parse_source target ≡ parsed
        → Inv project order s
        → s.depth ≤ maximum_import_depth
        → bound ≤ s.depth
        → Post NoFuelError
            (After project order s (λ o. member target o ≡ true))
            (import_parsed project.index project.parse_source visit target s parsed)
    unfolding import_parsed NoFuelError Good
    import_parsed-Post target s order none e inv deep room = stop (λ same. cc)
    import_parsed-Post target s order (some ds) e inv deep room =
        good target ds false s order e inv deep room

    import_one-Post :
        (target : SourcePath) (s : Linker) (order : List SourcePath) (state : Option VisitState)
        → s.states target ≡ state
        → Inv project order s
        → s.depth ≤ maximum_import_depth
        → bound ≤ s.depth
        → Post NoFuelError
            (After project order s (λ o. member target o ≡ true))
            (import_one project.index project.parse_source visit target s state)
    unfolding import_one NoFuelError
    import_one-Post target s order (some visiting) e inv deep room = stop (λ same. cc)
    import_one-Post target s order (some visited) e inv deep room =
        done (order, Keeps-refl project order s inv, inv.to_member target e)
    import_one-Post target s order none e inv deep room =
        import_parsed-Post target s order (project.parse_source target) refl inv deep room

    import_loop-Post :
        (ds : List Declaration) (s : Linker) (order : List SourcePath)
        → Inv project order s
        → s.depth ≤ maximum_import_depth
        → bound ≤ s.depth
        → Post NoFuelError
            (After project order s (λ o. Imports project o ds))
            (import_loop project.index project.parse_source visit ds s)
    unfolding import_loop
    import_loop-Post [] s order inv deep room = done (order, Keeps-refl project order s inv, tt)
    import_loop-Post (import_file name ∷ ds) s order inv deep room =
        Post-bind _
          (Post-refl (resolve project.index name) (resolve-ne-out_of_fuel project.index name))
          (λ target resolved.
            Post-bind _ (import_one-Post target s order (s.states target) refl inv deep room)
              (λ next (o, k, m).
                Post-weaken
                  (import_loop-Post ds next o k.inv (omega (arith, k.same_depth))
                    (omega (arith, k.same_depth)))
                  (λ last (o', k', i). (
                    o',
                    Keeps-trans project order o o' s next last k k',
                    ((target, resolved, k'.extends target m), i),
                  ))))
    import_loop-Post (config text ∷ ds) s order inv deep room =
        import_loop-Post ds s order inv deep room
    import_loop-Post (expression text ∷ ds) s order inv deep room =
        import_loop-Post ds s order inv deep room
    import_loop-Post (other text ∷ ds) s order inv deep room =
        import_loop-Post ds s order inv deep room

  visit_new-Post :
      (bound : ℕ) (visit : Visit)
      → Good project bound visit
      → (path : SourcePath) (ds : List Declaration) (entry : Bool) (s : Linker)
        (order : List SourcePath)
      → Provides project entry path ds
      → Inv project order s
      → s.states path ≡ none
      → suc s.depth ≤ maximum_import_depth
      → bound ≤ suc s.depth
      → Post NoFuelError
          (After project order s (λ o. member path o ≡ true))
          (visit_new project.index project.parse_source visit path ds entry s)
  unfolding visit_new enter member
  visit_new-Post bound visit good path ds entry s order given inv new deep room =
      Post-bind _
        (import_loop-Post bound visit good ds (enter path s) order
          (enter-Inv project path s order new inv) (omega arith) (omega arith))
        (λ t (o, k, imports).
          let here : t.states path ≡ some visiting =
            k.active path (put-same path visiting s.states) in
          let fresh : member path o ≡ false = visiting-fresh project path o t k.inv here in
          Post-bind _ (Post-exact (own entry ds) (own-Post entry ds)) (λ added mine.
            let after = leave-Inv project path t o entry ds added given fresh imports mine k.inv in
            done (
              path ∷ o,
              leave-Keeps project path s o t order new k added after,
              rw ((bytes_eq_iff path path).1 refl) refl,
            )))

  visit_by-Post :
      (bound : ℕ) (visit : Visit)
      → Good project bound visit
      → (path : SourcePath) (ds : List Declaration) (entry : Bool) (s : Linker)
        (order : List SourcePath) (state : Option VisitState)
      → s.states path ≡ state
      → Provides project entry path ds
      → Inv project order s
      → suc s.depth ≤ maximum_import_depth
      → bound ≤ suc s.depth
      → Post NoFuelError
          (After project order s (λ o. member path o ≡ true))
          (visit_by project.index project.parse_source visit path ds entry s state)
  unfolding visit_by NoFuelError
  visit_by-Post bound visit good path ds entry s order (some visited) e given inv deep room =
      done (order, Keeps-refl project order s inv, inv.to_member path e)
  visit_by-Post bound visit good path ds entry s order (some visiting) e given inv deep room =
      stop (λ same. cc)
  visit_by-Post bound visit good path ds entry s order none e given inv deep room =
      visit_new-Post bound visit good path ds entry s order given inv e deep room

  visit_module-Post :
      (fuel : ℕ)
      → Good project
          (suc maximum_import_depth - fuel)
          (visit_module project.index project.parse_source fuel)
  unfolding visit_module Good NoFuelError
  visit_module-Post zero path ds entry s order given inv deep room = absurd (omega arith)
  visit_module-Post (suc fuel) path ds entry s order given inv deep room =
      Post-if (leb maximum_imported_modules s.module_count) _ _ (λ full. stop (λ same. cc))
        (λ free.
          Post-if (leb maximum_import_depth s.depth) _ _ (λ full. stop (λ same. cc))
            (λ shallow.
              visit_by-Post (suc maximum_import_depth - fuel)
                (visit_module project.index project.parse_source fuel) (visit_module-Post fuel) path
                ds entry s order (s.states path) refl given inv (ground arith) (omega arith)))

  run-Post :
      Post NoFuelError
        (λ out.
          (order : List SourcePath) × Linked project order out
          × (member project.entry_path order ≡ true))
        (run project.index project.parse_source project.entry_path project.entry_source)
  unfolding run Good member
  run-Post =
      Post-bind _
        (visit_module-Post (suc maximum_import_depth) project.entry_path project.entry_source true
          (record {
            states = λ q. none;
            active = [];
            declarations = [];
            module_count = 0;
            depth = 0;
          })
          [] (refl, refl)
          (record {
            linked = nothing;
            of_member = λ q m. absurd (ground arith);
            to_member = λ q e. absurd (ground arith);
            count = refl;
          })
          (omega arith) (omega arith))
        (λ s (o, k, m). done (o, (k.inv).linked, m))

  -- If linking succeeds, then there is an order of modules, the entry among them, in which each
  -- module stands once and behind every module that it imports, and the linked declarations are
  -- those of the modules in this order, without their imports.
  pub run-Linked :
      (out : List Declaration)
      → run project.index project.parse_source project.entry_path project.entry_source ≡ ok out
      → (order : List SourcePath) × Linked project order out
        × (member project.entry_path order ≡ true)
  run-Linked out e = Post-ok out (rw e at run-Post)

  -- The limit on the depth of imports stops every walk, on cyclic imports too: the recursion of
  -- `visitModule` has fuel enough.
  pub run-ne-out_of_fuel :
      run project.index project.parse_source project.entry_path project.entry_source
      ≢ err out_of_fuel
  unfolding NoFuelError
  run-ne-out_of_fuel e = Post-err out_of_fuel (rw e at run-Post) refl
