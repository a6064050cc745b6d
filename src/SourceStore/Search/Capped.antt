-- ===== src/SourceStore/Search/Capped.antt =====
-- The search against a reference: all matches first, then the cap.
use n4x_core.Prelude.{
  ℕ, zero, suc, min, ◌≤◌, ◌<◌, String, ◌≡◌, refl, sym, ap, Bool, true, false, inl, inr, Option,
  some, List, [], ◌∷◌, ◌++◌, map, length, length-append, if◌then◌else◌, ltb, leb, leb→le, arith,
  Bool-cases, filter,
}
use n4x_core.Prelude.Slices.{take}
use n4x_core.Prelude.Result.{ok}
use n4x_core.Kernel.Sources.{SourceFile}
use n4x_core.SourcePatch.Lines.{splitlines}
use n4x_core.SourceStore.State.{SourceGraph}
use n4x_core.SourceStore.Trees.{list_source_tree}
use n4x_core.SourceStore.Search.{
  Match, Scan, stopped, going, without_end, match_at, scan_lines, scan_files, kept_by, search_limit,
  search_source_tree,
}

module _ {ℓ} {A : Type ℓ} where
  append-nil : (xs : List A) → xs ++ [] ≡ xs
  append-nil [] = refl
  append-nil (x ∷ xs) = ap (λ ys. x ∷ ys) (append-nil xs)

  append-append : (xs ys zs : List A) → (xs ++ ys) ++ zs ≡ xs ++ (ys ++ zs)
  append-append [] ys zs = refl
  append-append (x ∷ xs) ys zs = ap (λ ws. x ∷ ws) (append-append xs ys zs)

  take-append : (n : ℕ) (xs ys : List A) → n ≤ length xs → take n (xs ++ ys) ≡ take n xs
  take-append zero xs ys h = refl
  take-append (suc n) [] ys h = absurd (omega arith)
  take-append (suc n) (x ∷ xs) ys h = ap (λ ws. x ∷ ws) (take-append n xs ys (omega arith))

  take_all : (n : ℕ) (xs : List A) → length xs ≤ n → take n xs ≡ xs
  take_all zero [] h = refl
  take_all zero (x ∷ xs) h = absurd (omega arith)
  take_all (suc n) [] h = refl
  take_all (suc n) (x ∷ xs) h = ap (λ ws. x ∷ ws) (take_all n xs (omega arith))

leb→lt : (a b : ℕ) → leb a b ≡ false → b < a
leb→lt a b h = ground arith

module _ (matches : String → Bool) (context : ℕ) where
  -- All matches of the numbered lines of a file, and of the files.
  abbrev pub matches_from : String → List String → ℕ → List String → List Match
  matches_from path lines number [] = []
  matches_from path lines number (line ∷ rest) =
      let more = matches_from path lines (suc number) rest in
      if matches line then match_at matches context path lines number line ∷ more else more

  abbrev pub matches_of : SourceFile → List Match
  matches_of file =
      let lines = map without_end (splitlines file.content) in matches_from file.path lines 1 lines

  abbrev pub all_matches : List SourceFile → List Match
  all_matches [] = []
  all_matches (file ∷ files) = matches_of file ++ all_matches files

  capped : ℕ → List Match → Scan
  capped limit all = if leb limit (length all) then stopped (take limit all) else going all

  capped-full :
      (limit : ℕ) (xs ys : List Match)
      → limit ≤ length xs
      → length xs ≤ limit
      → capped limit (xs ++ ys) ≡ stopped xs
  unfolding capped
  capped-full limit xs ys h k =
      rw (leb-append limit xs ys h, take-append limit xs ys h, take_all limit xs k) refl
    where
      leb-append : (n : ℕ) (xs ys : List Match) → n ≤ length xs → leb n (length (xs ++ ys)) ≡ true
      leb-append n xs ys h = ground (arith, length-append xs ys)

  capped-stopped :
      (limit : ℕ) (xs : List Match)
      → leb limit (length xs) ≡ true
      → capped limit xs ≡ stopped (take limit xs)
  unfolding capped
  capped-stopped limit xs h = rw h refl

  capped-room : (limit : ℕ) (xs : List Match) → length xs < limit → capped limit xs ≡ going xs
  unfolding capped
  capped-room limit xs h = ground arith

  scan_lines-capped :
      (limit : ℕ) (path : String) (lines : List String) (number : ℕ) (rest : List String)
      (found : List Match)
      → length found < limit
      → scan_lines matches context limit path lines number rest found
        ≡ capped limit (found ++ matches_from path lines number rest)
  scan_lines-capped limit path lines number [] found h =
      rw (append-nil found) (sym (capped-room limit found h))
  scan_lines-capped limit path lines number (line ∷ rest) found h =
      elim (Bool-cases (matches line)) [
        | inr e ↦ rw (scan_lines, e) (scan_lines-capped limit path lines (suc number) rest found h)
        | inl e ↦
            let m = match_at matches context path lines number line in
            let more = matches_from path lines (suc number) rest in
            let longer = found ++ m ∷ [] in
            let one = length-append found (m ∷ []) in
            rw (scan_lines, e, sym (append-append found (m ∷ []) more))
              (elim (Bool-cases (leb limit (length longer))) [
                | inl full ↦ rw full (
                    sym (
                      capped-full limit longer more (leb→le limit (length longer) full)
                        (omega arith)))
                | inr room ↦
                    rw room
                      (scan_lines-capped limit path lines (suc number) rest longer (ground arith))
              ])
      ]

  module _ (keeps : String → Bool) where
    scan_files-take :
        (limit : ℕ) (files : List SourceFile) (found : List Match)
        → length found < limit
        → scan_files matches context limit keeps files found
          ≡ take limit (found ++ all_matches (filter (λ file. keeps file.path) files))
    scan_files-take limit [] found h =
        rw (append-nil found) (sym (take_all limit found (omega arith)))
    scan_files-take limit (file ∷ files) found h = elim (Bool-cases (keeps file.path)) [
      | inr e ↦ rw (scan_files, e) (scan_files-take limit files found h)
      | inl e ↦
          let lines = map without_end (splitlines file.content) in
          let others = all_matches (filter (λ (f : SourceFile). keeps f.path) files) in
          rw
            (
              scan_files,
              e,
              scan_lines-capped limit file.path lines 1 lines found h,
              sym (append-append found (matches_of file) others),
            )
            (onward (found ++ matches_of file) others
              (scan_files-take limit files (found ++ matches_of file)))
    ]
      where
        onward :
            (longer others : List Match)
            → (length longer < limit
                → scan_files matches context limit keeps files longer
                  ≡ take limit (longer ++ others))
            → (elim (capped limit longer) [
              | stopped r ↦ r
              | going r ↦ scan_files matches context limit keeps files r
            ])
              ≡ take limit (longer ++ others)
        onward longer others ih = elim (Bool-cases (leb limit (length longer))) [
          | inl full ↦
              rw (capped-stopped limit longer full)
                (sym (take-append limit longer others (leb→le limit (length longer) full)))
          | inr room ↦
              rw (capped-room limit longer (leb→lt limit (length longer) room))
                (ih (leb→lt limit (length longer) room))
        ]

-- The search with its loops left at the cap returns the first matches, as many as the limit and the
-- cap of 50 allow, of all matches in all files of the tree that the glob keeps, in their order. The pattern
-- compiles, the tree can be listed and the limit is not 0.
pub search_source_tree-take :
    (compile : String → Option (String → Bool)) (fnmatch : String → String → Bool)
    (source_tree_id pattern : String) (glob : Option String) (limit context : ℕ) (g : SourceGraph)
    (matches : String → Bool) (files : List SourceFile)
    → compile pattern ≡ some matches
    → list_source_tree source_tree_id g ≡ ok files
    → 1 ≤ limit
    → search_source_tree compile fnmatch source_tree_id pattern glob limit context g
      ≡ ok (
          take
            (min limit search_limit)
            (all_matches matches context (filter (λ file. kept_by fnmatch glob file.path) files)))
unfolding search_source_tree
search_source_tree-take compile fnmatch id pattern glob limit context g matches files c l h =
    rw
      (
        allowed_limit,
        c,
        l,
        scan_files-take matches context (kept_by fnmatch glob) (min limit search_limit) files []
            (omega arith),
      )
      refl
  where
    allowed_limit : ltb limit 1 ≡ false
    allowed_limit = ground arith
