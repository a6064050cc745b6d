-- ===== src/Inspect.antt =====
-- `page_inspect` of backend/n4x/system/inspect_bounds.py: one page of a list of items.
pub mod Pages
mod Samples
use n4x_core.Prelude.{
  [], ℕ, zero, suc, ◌+◌, String, Bool, true, false, ◌||◌, not, Option, none, some, List, map,
  filter, length, ltb, ◌==◌, is_none, if◌then◌else◌,
}
use n4x_core.Prelude.Integers.{ℤ, pos, negsuc}
use n4x_core.Prelude.Slices.{slice}
use n4x_core.Prelude.Result.{Result, ok, raise, ◌>>=◌}
use n4x_core.Kernel.Json.{JsonDict}

pub data InspectError : Type 0 where
  negative_offset limit_below_one id_of_missing : InspectError

pub data PageStatus : Type 0 where
  complete truncated too_large : PageStatus

pub record Page : Type 0 where
  pub status : PageStatus
  pub count : ℕ
  pub offset : ℕ
  pub limit : ℕ
  pub items : List JsonDict

abbrev pub inspect_hard_cap : ℕ
inspect_hard_cap = 200

abbrev pub natural_offset : ℤ → Result InspectError ℕ
natural_offset (pos n) = ok n
natural_offset (negsuc n) = raise negative_offset

abbrev pub positive_limit : ℤ → Result InspectError ℕ
positive_limit (pos zero) = raise limit_below_one
positive_limit (pos (suc n)) = ok (suc n)
positive_limit (negsuc n) = raise limit_below_one

module _ {T : Type 0} where
  abbrev pub select : List T → Option String → Option (T → String) → Result InspectError (List T)
  select items none id_of = ok items
  select items (some id) none = raise id_of_missing
  select items (some id) (some id_of) = ok (filter (λ item. id_of item == id) items)

  abbrev pub empty_page : List T → ℕ → Page
  empty_page selected offset = record {
    status = too_large;
    count = length selected;
    offset = offset;
    limit = inspect_hard_cap;
    items = [];
  }

  abbrev pub window_page : (T → JsonDict) → List T → ℕ → ℕ → Page
  window_page show selected offset limit =
      let window : List T = slice offset (offset + limit) selected in
      record {
        status = if ltb (offset + length window) (length selected) then truncated else complete;
        count = length selected;
        offset = offset;
        limit = limit;
        items = map show window;
      }

  unfoldable pub page_inspect :
      (T → JsonDict)
      → (T → JsonDict)
      → List T
      → ℤ
      → ℤ
      → Bool
      → Option String
      → Option (T → String)
      → Result InspectError Page
  page_inspect dump summary items offset limit include_values item_id id_of = do
    o ← natural_offset offset
    l ← positive_limit limit
    selected ← select items item_id id_of
    let show : T → JsonDict = if include_values || not (is_none item_id) then dump else summary
    ok (if ltb inspect_hard_cap l then empty_page selected o else window_page show selected o l)
