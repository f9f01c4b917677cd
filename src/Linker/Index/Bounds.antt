-- ===== src/Linker/Index/Bounds.antt =====
-- The limits of the index, and what it resolves.
use crossa.Prelude.{
  ℕ, suc, ◌-◌, ◌≤◌, false, not, ◌&&◌, ◌||◌, List, [], ◌∷◌, Option, none, some, Bytes, bytes_eq,
  codes, leb, ltb, length, ok, ◌≡◌, ◌↔◌, refl, ap, arith, Bool-cases, inl, inr, Post, done, stop,
  Post-if, Post-ok, Post-bind,
}
use crossa.Linker.Visit.{SourcePath, resolve, choose}
use crossa.Linker.Index.{
  Entry, Index, maximum_project_source_files, maximum_project_source_bytes, add_sized, add_entry,
  index_loop, insert, sort, paths_of,
}

-- The limits of the project.
Fits : Index → Type 0
Fits i =
    (i.source_count ≤ maximum_project_source_files)
    × (i.source_bytes ≤ maximum_project_source_bytes)

add_sized-Fits :
    (entry : Entry) (i : Index) (size : Option ℕ)
    → leb maximum_project_source_files i.source_count ≡ false
    → Post (λ e. Unit {0}) Fits (add_sized entry i size)
unfolding add_sized Fits
add_sized-Fits entry i none room = stop tt
add_sized-Fits entry i (some size) room =
    Post-if
      (ltb maximum_project_source_bytes size
        || ltb (maximum_project_source_bytes - size) i.source_bytes)
      _ _ (λ over. stop tt) (λ fits. done (ground arith))

add_entry-Fits :
    (entry : Entry) (i : Index) → Fits i → Post (λ e. Unit {0}) Fits (add_entry entry i)
unfolding add_entry
add_entry-Fits entry i fits =
    Post-if (entry.readable && not entry.is_symlink && entry.is_regular_file && entry.is_source) _ _
      (λ source.
        Post-if (leb maximum_project_source_files i.source_count) _ _ (λ full. stop tt)
          (λ room.
            Post-if (leb maximum_project_source_bytes i.source_bytes) _ _ (λ full. stop tt)
              (λ more. add_sized-Fits entry i entry.file_size room)))
      (λ skipped. done fits)

index_loop-Fits :
    (entries : List Entry) (i : Index) → Fits i → Post (λ e. Unit {0}) Fits (index_loop entries i)
unfolding index_loop
index_loop-Fits [] i fits = done fits
index_loop-Fits (entry ∷ entries) i fits =
    Post-bind _ (add_entry-Fits entry i fits) (λ next more. index_loop-Fits entries next more)

-- However many entries there are, an index that is built counts at most the permitted number of
-- source files and of bytes, if the index that it started from does.
pub index_loop-IsBounded :
    (entries : List Entry) (i j : Index)
    → i.source_count ≤ maximum_project_source_files
    → i.source_bytes ≤ maximum_project_source_bytes
    → index_loop entries i ≡ ok j
    → (j.source_count ≤ maximum_project_source_files)
      × (j.source_bytes ≤ maximum_project_source_bytes)
unfolding Fits
index_loop-IsBounded entries i j files bytes e =
    Post-ok j (rw e at (index_loop-Fits entries i (files, bytes)))

length-insert : (p : SourcePath) (ps : List SourcePath) → length (insert p ps) ≡ suc (length ps)
unfolding insert
length-insert p [] = refl
length-insert p (q ∷ qs) = ground (arith, length-insert p qs)

length-sort : (ps : List SourcePath) → length (sort ps) ≡ length ps
unfolding sort
length-sort [] = refl
length-sort (p ∷ ps) = omega (arith, length-insert p (sort ps), length-sort ps)

sort-one : (ps : List SourcePath) (p : SourcePath) → (sort ps ≡ p ∷ []) ↔ (ps ≡ p ∷ [])
unfolding sort insert
sort-one [] p = (λ e. cc, λ e. cc)
sort-one (q ∷ []) p = (λ e. e, λ e. e)
sort-one (q ∷ r ∷ rest) p =
    (λ e. let l = length-sort (q ∷ r ∷ rest) in absurd (omega (arith, ap length e)), λ e. cc)

choose_iff :
    (name : Bytes) (paths : List SourcePath) (p : SourcePath)
    → (choose name paths ≡ ok p) ↔ (paths ≡ p ∷ [])
unfolding choose
choose_iff name [] p = (λ e. cc, λ e. cc)
choose_iff name (q ∷ []) p =
    (λ e. let same : q ≡ p = cc in ap (λ x. x ∷ []) same, λ e. let same : q ≡ p = cc in ap ok same)
choose_iff name (q ∷ r ∷ rest) p = (λ e. cc, λ e. cc)

-- On the index of a project, `resolveImport` finds a path exactly if the filename is not that of the
-- configuration and the path is the only one of a file with this name.
pub resolve-sort :
    (files : List (Bytes × SourcePath)) (name : Bytes) (p : SourcePath)
    → (resolve (λ n. sort (paths_of n files)) name ≡ ok p)
      ↔ ((bytes_eq name (codes "config.cra") ≡ false) × (paths_of name files ≡ p ∷ []))
unfolding resolve
resolve-sort files name p = elim (Bool-cases (bytes_eq name (codes "config.cra"))) [
  | inl reserved ↦ (λ e. let f = simp reserved at e in cc, λ (e, one). absurd cc)
  | inr free ↦ (
    λ e. (
      free,
      (sort-one (paths_of name files) p).0
          ((choose_iff name (sort (paths_of name files)) p).0 (simp free at e)),
    ),
    λ (e, one). simp free (
        (choose_iff name (sort (paths_of name files)) p).1
          ((sort-one (paths_of name files) p).1 one)),
  )
]
