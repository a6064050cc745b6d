-- ===== src/SourcePatch/Rewrites.antt =====
-- What a patch does to the lines of a source.
use mathlib.Core.List.{append_assoc, append-nil}
use n4x_core.Prelude.{
  ℕ, ◌+◌, ◌≤◌, String, ◌≡◌, refl, sym, ap, subst, ◌∙◌, Bool, true, false, Option, none, some, List,
  [], ◌∷◌, ◌++◌, length, if◌then◌else◌,
}
use n4x_core.Prelude.Result.{Result, ok, raise, ◌>>=◌, Returns, >>=-Returns, Returns-map}
use n4x_core.Prelude.Slices.{take, drop, slice}
use n4x_core.SourcePatch.Lines.{splitlines, join, starts_with}
use n4x_core.SourcePatch.Apply.{
  PatchError, Entry, Hunk, Progress, old_lines, new_lines, no_hunks, missing_new_header,
  missing_old_header, find_unique_hunk_start, or_mismatch, apply_hunk, open_hunk, add_line,
  apply_lines, first_hunk, apply_patch, apply_unified_diff,
}
use n4x_core.SourcePatch.Places.{drop-slices, find_unique_hunk_start-Fits}
use n4x_core.SourcePatch.RoundTrip.{join-splitlines}

-- One rewritten place: the lines that are kept before it, and the entries of the hunk.
pub record Edit : Type 0 where
  pub kept : List String
  pub entries : List Entry

-- The lines that the edits cover, before and after.
abbrev pub before : List Edit → List String
before [] = []
before (e ∷ es) = e.kept ++ (old_lines e.entries ++ before es)

abbrev pub after : List Edit → List String
after [] = []
after (e ∷ es) = e.kept ++ (new_lines e.entries ++ after es)

abbrev pub entries_of : List Edit → List (List Entry)
entries_of [] = []
entries_of (e ∷ es) = e.entries ∷ entries_of es

before-append :
    (es : List Edit) (e : Edit)
    → before (es ++ e ∷ []) ≡ before es ++ (e.kept ++ old_lines e.entries)
before-append [] e = ap (λ l. e.kept ++ l) (append-nil (old_lines e.entries))
before-append (x ∷ es) e =
    rw (before-append es e, append_assoc x.kept _ _, append_assoc (old_lines x.entries) _ _) refl

after-append :
    (es : List Edit) (e : Edit) → after (es ++ e ∷ []) ≡ after es ++ (e.kept ++ new_lines e.entries)
after-append [] e = ap (λ l. e.kept ++ l) (append-nil (new_lines e.entries))
after-append (x ∷ es) e =
    rw (after-append es e, append_assoc x.kept _ _, append_assoc (new_lines x.entries) _ _) refl

regroup : (a b c d : List String) → a ++ (b ++ (c ++ d)) ≡ (a ++ (b ++ c)) ++ d
regroup a b c d = rw (append_assoc a, append_assoc b) refl

entries_of-append :
    (es : List Edit) (e : Edit) → entries_of (es ++ e ∷ []) ≡ entries_of es ++ (e.entries ∷ [])
entries_of-append [] e = refl
entries_of-append (x ∷ es) e = ap (λ l. x.entries ∷ l) (entries_of-append es e)

-- The progress made is that of edits with these entries.
abbrev pub Rewrites : List String → List (List Entry) → Progress → Type 0
Rewrites source done p =
    (edits : List Edit) × (entries_of edits ≡ done)
    × (source ≡ before edits ++ drop p.source_index source)
    × (p.output ≡ after edits)

or_mismatch-eq-ok : (o : Option ℕ) (start : ℕ) → or_mismatch o ≡ ok start → o ≡ some start
or_mismatch-eq-ok none start e = cc
or_mismatch-eq-ok (some s) start e = cc

apply_hunk-Rewrites :
    (source : List String) (done : List (List Entry)) (hunk : Hunk) (p : Progress)
    → Rewrites source done p
    → Returns (Rewrites source (done ++ hunk.entries ∷ [])) (apply_hunk source hunk p)
unfolding apply_hunk
apply_hunk-Rewrites source done hunk p (edits, same, covered, written) =
    >>=-Returns (Rewrites source (done ++ hunk.entries ∷ []))
      (or_mismatch
        (find_unique_hunk_start source p.source_index (old_lines hunk.entries) hunk.hinted_start))
      _
      λ start found.
        let fits =
          find_unique_hunk_start-Fits source (old_lines hunk.entries) p.source_index start
            hunk.hinted_start (or_mismatch-eq-ok _ start found) in
        extended start fits.0 fits.1
  where
    lines : List String
    lines = old_lines hunk.entries

    edit : ℕ → Edit
    edit start = record { kept = slice p.source_index start source; entries = hunk.entries }

    extended :
        (start : ℕ)
        → p.source_index ≤ start
        → take (length lines) (drop start source) ≡ lines
        → Rewrites source (done ++ hunk.entries ∷ []) (record {
          source_index = start + length lines;
          output = p.output ++ slice p.source_index start source ++ new_lines hunk.entries;
        })
    extended start low fits =
        let kept = slice p.source_index start source in
        let rest = drop (start + length lines) source in
        (
          edits ++ edit start ∷ [],
          entries_of-append edits (edit start) ∙ ap (λ l. l ++ hunk.entries ∷ []) same,
          covered
              ∙ ap (λ l. before edits ++ l)
                  (drop-slices p.source_index start (length lines) source lines low fits)
              ∙ (rw (before-append edits (edit start)) (regroup (before edits) kept lines rest)),
          (rw (written, after-append edits (edit start))
              (append_assoc (after edits) kept (new_lines hunk.entries))),
        )

-- The entries of each hunk of a patch, read without a source.
abbrev pub read_hunks : List String → Hunk → Result PatchError (List (List Entry))
read_hunks [] hunk = ok (hunk.entries ∷ [])
read_hunks (line ∷ lines) hunk =
    if starts_with "@@" line
    then (open_hunk line >>= λ next. read_hunks lines next >>= λ rest. ok (hunk.entries ∷ rest))
    else (add_line line hunk.entries >>= λ entries.
        read_hunks lines (record hunk { entries = entries }))

abbrev pub read_first : List String → Result PatchError (List (List Entry))
read_first [] = raise no_hunks
read_first (header ∷ lines) = open_hunk header >>= λ hunk. read_hunks lines hunk

-- The file headers, if there are any, are the first two lines.
abbrev pub read_patch : List String → Result PatchError (List (List Entry))
read_patch (old ∷ new ∷ lines) =
    if starts_with "--- " old then read_first lines else read_first (old ∷ new ∷ lines)
read_patch lines = read_first lines

choose-Returns :
    {A : Type 0} (P : A → Progress → Type 0) (b : Bool) (x y : Result PatchError Progress)
    (r t : Result PatchError A)
    → Returns (λ q. (a : A) × (r ≡ ok a) × P a q) x
    → Returns (λ q. (a : A) × (t ≡ ok a) × P a q) y
    → Returns (λ q. (a : A) × ((if b then r else t) ≡ ok a) × P a q) (if b then x else y)
choose-Returns P true x y r t hx hy = hx
choose-Returns P false x y r t hx hy = hy

-- What is done, with the hunks still to be read, is what is read.
abbrev Follows :
    List String → List (List Entry) → Result PatchError (List (List Entry)) → Progress → Type 0
Follows source done read q =
    (hs : List (List Entry)) × (read ≡ ok hs) × Rewrites source (done ++ hs) q

apply_lines-Follows :
    (source lines : List String) (done : List (List Entry)) (hunk : Hunk) (p : Progress)
    → Rewrites source done p
    → Returns (Follows source done (read_hunks lines hunk)) (apply_lines source lines hunk p)
unfolding apply_lines
apply_lines-Follows source [] done hunk p h =
    Returns-map (λ q w. (hunk.entries ∷ [], refl, w)) (apply_hunk source hunk p)
      (apply_hunk-Rewrites source done hunk p h)
apply_lines-Follows source (line ∷ lines) done hunk p h =
    choose-Returns (λ hs. Rewrites source (done ++ hs)) (starts_with "@@" line) _ _ _ _
      (>>=-Returns _ (apply_hunk source hunk p) _ λ q e.
        >>=-Returns _ (open_hunk line) _ λ next opened. rw opened (
          Returns-map (extended next) (apply_lines source lines next q) (
            apply_lines-Follows source lines (done ++ hunk.entries ∷ []) next q (
              subst (Returns (Rewrites source (done ++ hunk.entries ∷ []))) e
                (apply_hunk-Rewrites source done hunk p h)))))
      (>>=-Returns _ (add_line line hunk.entries) _ λ entries added.
        rw added (apply_lines-Follows source lines done (record hunk { entries = entries }) p h))
  where
    extended :
        (next : Hunk) (q : Progress)
        → Follows source (done ++ hunk.entries ∷ []) (read_hunks lines next) q
        → Follows source done (read_hunks lines next >>= λ rest. ok (hunk.entries ∷ rest)) q
    extended next q (hs, read, w) = (
      hunk.entries ∷ hs,
      (rw read refl),
      subst (λ d. Rewrites source d q) (append_assoc done (hunk.entries ∷ []) hs) w,
    )

first_hunk-Follows :
    (source lines : List String)
    → Returns (Follows source [] (read_first lines)) (first_hunk source lines)
first_hunk-Follows source [] = tt
first_hunk-Follows source (header ∷ lines) = >>=-Returns _ (open_hunk header) _ λ hunk opened.
    rw opened (
      apply_lines-Follows source lines [] hunk (record { source_index = 0; output = [] })
        ([], refl, refl, refl))

or_raise-Returns :
    (P : Progress → Type 0) (b : Bool) (e : PatchError) (x : Result PatchError Progress)
    → Returns P x
    → Returns P (if b then x else raise e)
or_raise-Returns P true e x h = h
or_raise-Returns P false e x h = tt

raise_or-Returns :
    (P : Progress → Type 0) (b : Bool) (e : PatchError) (x : Result PatchError Progress)
    → Returns P x
    → Returns P (if b then raise e else x)
raise_or-Returns P true e x h = tt
raise_or-Returns P false e x h = h

apply_patch-Follows :
    (source lines : List String)
    → Returns (Follows source [] (read_patch lines)) (apply_patch source lines)
apply_patch-Follows source [] = tt
apply_patch-Follows source (line ∷ []) =
    raise_or-Returns _ (starts_with "--- " line) missing_new_header _ (
      raise_or-Returns _ (starts_with "+++ " line) missing_old_header _
        (first_hunk-Follows source (line ∷ [])))
apply_patch-Follows source (line ∷ new ∷ lines) =
    choose-Returns (λ hs. Rewrites source ([] ++ hs)) (starts_with "--- " line) _ _ _ _
      (or_raise-Returns _ (starts_with "+++ " new) missing_new_header _
        (first_hunk-Follows source lines))
      (raise_or-Returns _ (starts_with "+++ " line) missing_old_header _
        (first_hunk-Follows source (line ∷ new ∷ lines)))

-- A patch that applies rewrites the content at one place for each of its hunks, in their order: each
-- place holds the context and removed lines of the hunk and gets its context and added lines, and
-- every other line stays as it is.
pub apply_unified_diff-rewrites :
    (content patch result : String)
    → apply_unified_diff content patch ≡ ok result
    → (edits : List Edit) × (rest : List String) × (read_patch (splitlines patch)
        ≡ ok (entries_of edits))
      × (content ≡ join (before edits ++ rest))
      × (result ≡ join (after edits ++ rest))
unfolding apply_unified_diff
apply_unified_diff-rewrites content patch result e = subst (Returns Edited) e (
    >>=-Returns Edited (apply_patch (splitlines content) (splitlines patch)) _ λ p e1. edited p (
      subst (Returns (Follows (splitlines content) [] (read_patch (splitlines patch)))) e1
        (apply_patch-Follows (splitlines content) (splitlines patch))))
  where
    Edited : String → Type 0
    Edited text =
        (edits : List Edit) × (rest : List String) × (read_patch (splitlines patch)
          ≡ ok (entries_of edits))
        × (content ≡ join (before edits ++ rest))
        × (text ≡ join (after edits ++ rest))

    edited :
        (p : Progress)
        → Follows (splitlines content) [] (read_patch (splitlines patch)) p
        → Edited (join (p.output ++ drop p.source_index (splitlines content)))
    edited p (hs, read, (edits, same, covered, written)) = (
      edits,
      drop p.source_index (splitlines content),
      read ∙ ap ok (sym same),
      sym (join-splitlines content) ∙ ap join covered,
      ap (λ l. join (l ++ drop p.source_index (splitlines content))) written,
    )
