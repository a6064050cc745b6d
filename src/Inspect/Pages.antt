-- ===== src/Inspect/Pages.antt =====
-- The pages of `page_inspect` (system/inspect_bounds.py) against the list of items.
use n4x_core.Prelude.{
  ℕ, min, zero, suc, ◌+◌, ◌-◌, ◌≤◌, ◌<◌, String, ◌≡◌, refl, sym, ap, ◌∙◌, Bool, true, false, Option,
  none, List, [], ◌∷◌, ◌++◌, map, length, ltb, arith, if◌then◌else◌,
}
use n4x_core.Prelude.Slices.{take, drop, slice, take-drop, drop-drop}
use n4x_core.Prelude.Result.{ok}
use n4x_core.Kernel.Json.{JsonDict}
use n4x_core.Inspect.{
  pos, Page, PageStatus, complete, truncated, inspect_hard_cap, window_page, page_inspect,
}

module _ {A B : Type 0} where
  map-append : (f : A → B) (xs ys : List A) → map f (xs ++ ys) ≡ map f xs ++ map f ys
  map-append f [] ys = refl
  map-append f (x ∷ xs) ys = ap {B = List B} (λ l. f x ∷ l) (map-append f xs ys)

module _ {A : Type 0} where
  length-drop : (n : ℕ) (xs : List A) → length (drop n xs) ≡ length xs - n
  length-drop zero xs = omega arith
  length-drop (suc n) [] = omega arith
  length-drop (suc n) (x ∷ xs) = omega (arith, length-drop n xs)

  length-take : (n : ℕ) (xs : List A) → length (take n xs) ≡ min n (length xs)
  length-take zero xs = omega arith
  length-take (suc n) [] = omega arith
  length-take (suc n) (x ∷ xs) = omega (arith, length-take n xs)

  nil-of_length : (xs : List A) → length xs ≡ 0 → xs ≡ []
  nil-of_length [] e = refl
  nil-of_length (x ∷ xs) e = absurd (omega (arith, e))

-- What a page says of the items from its offset on.
abbrev pub Covers : {T : Type 0} → (T → JsonDict) → List T → ℕ → ℕ → Page → Type 0
Covers show items offset limit page =
    (map show (drop offset items) ≡ page.items ++ map show (drop (offset + limit) items))
    × (length page.items ≤ limit)
    × (page.count ≡ length items)
    × (page.status ≡ complete → drop (offset + limit) items ≡ [])
    × (page.status ≡ truncated → offset + limit < length items)

module _ {T : Type 0} (show : T → JsonDict) (items : List T) (offset limit : ℕ) where
  length-map : (xs : List T) → length (map show xs) ≡ length xs
  length-map [] = refl
  length-map (x ∷ xs) = omega (arith, length-map xs)

  status-Covers :
      (w : ℕ) (b : Bool)
      → ltb (offset + w) (length items) ≡ b
      → w ≡ min limit (length items - offset)
      → let status : PageStatus = if b then truncated else complete in
        (status ≡ complete → drop (offset + limit) items ≡ [])
        × (status ≡ truncated → offset + limit < length items)
  status-Covers w true e size = ((λ c. cc), (λ _. ground (arith, e, size)))
  status-Covers w false e size =
      ((λ _. nil-of_length (drop (offset + limit) items) rest), (λ c. cc))
    where
      rest : length (drop (offset + limit) items) ≡ 0
      rest =
          let more : length items ≤ offset + w = ground (arith, e) in
          omega (arith, length-drop (offset + limit) items, size, more)

  window_page-Covers : Covers show items offset limit (window_page show items offset limit)
  window_page-Covers =
      let window = slice offset (offset + limit) items in
      let width : offset + limit - offset ≡ limit = omega arith in
      let same : window ≡ take limit (drop offset items) =
        ap (λ n. take n (drop offset items)) width in
      let size : length window ≡ min limit (length items - offset) =
        ap length same
        ∙ length-take limit (drop offset items)
        ∙ ap (min limit) (length-drop offset items) in
      let split : drop offset items ≡ window ++ drop (offset + limit) items =
        sym (take-drop limit (drop offset items))
        ∙ ap (λ l. l ++ drop limit (drop offset items)) (sym same)
        ∙ ap (λ l. window ++ l) (drop-drop offset limit items) in
      let ends =
        status-Covers (length window) (ltb (offset + length window) (length items)) refl size in
      (
        ap (map show) split ∙ map-append show window (drop (offset + limit) items),
        omega (arith, length-map window, size),
        refl,
        ends.0,
        ends.1,
      )

-- A page of at most 200 items, without an item's identifier: the items from its offset on are those
-- of the page and then those from the offset plus the limit on, shown in full or in short as asked;
-- it says how many items there are, and whether there are more after it.
pub page_inspect-Covers :
    {T : Type 0} (dump summary : T → JsonDict) (items : List T) (offset limit : ℕ)
    (include_values : Bool) (id_of : Option (T → String))
    → 0 < limit
    → limit ≤ inspect_hard_cap
    → (page : Page) × (page_inspect dump summary items
          (pos offset)
          (pos limit)
          include_values
          none
          id_of
        ≡ ok page)
      × Covers (if include_values then dump else summary) items offset limit page
unfolding page_inspect
page_inspect-Covers dump summary items offset zero include_values id_of positive small =
    absurd (omega arith)
page_inspect-Covers dump summary items offset (suc m) true id_of positive small =
    let within : ltb inspect_hard_cap (suc m) ≡ false = ground arith in
    (
      window_page dump items offset (suc m),
      (rw within refl),
      window_page-Covers dump items offset (suc m),
    )
page_inspect-Covers dump summary items offset (suc m) false id_of positive small =
    let within : ltb inspect_hard_cap (suc m) ≡ false = ground arith in
    (
      window_page summary items offset (suc m),
      (rw within refl),
      window_page-Covers summary items offset (suc m),
    )
