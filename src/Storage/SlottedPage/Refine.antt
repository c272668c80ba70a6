-- ===== src/Storage/SlottedPage/Refine.antt =====
-- A slotted page implements a sheet: a sequence of records with a budget of bytes.
use native.Mathlib.Decide.{dec_lt}
use stingdb.Base.{
  ℕ, ◌+◌, ◌-◌, ◌<◌, ◌≡◌, refl, ◌∙◌, Bool, true, false, List, [], ◌∷◌, ◌++◌, Option, none, some, ltb,
  if◌then◌else◌, length, get_elem?, set, arith, lt→ltb, le→ltb,
}
use stingdb.Base.Effect.{Eff, done, ◌>>=◌, ◌>>◌, pure}
use stingdb.Storage.Page.{Page}
use stingdb.Storage.SlottedPage.{Rid, init, insert_tuple, get_tuple, mark_delete}
use stingdb.Storage.SlottedPage.Layout.{count, space, IsFormatted, records}
use stingdb.Storage.SlottedPage.Placed.{as_record}
use stingdb.Storage.SlottedPage.Insert.{insert_tuple_fits, insert_tuple_full}
use stingdb.Storage.SlottedPage.Read.{visible, get_tuple-visible, length-records}
use stingdb.Storage.SlottedPage.Delete.{mark_delete_in, mark_delete_out}
use stingdb.Storage.SlottedPage.Fresh.{init_lem}

pub data Command : Type 0 where
  insert : List ℕ → Command
  read : Rid → Command
  delete : Rid → Command

pub data Reply : Type 0 where
  inserted : Option ℕ → Reply
  tuple : Option (List ℕ) → Reply
  deleted : Bool → Reply

-- What the page promises: records are numbered in the order of insertion, each costs its length
-- and 4 bytes, and a deletion frees nothing.
pub record Sheet : Type 0 where
  pub rows : List (Option (List ℕ))
  pub budget : ℕ

unfoldable pub sheet_step : Command → Sheet → Reply × Sheet
sheet_step (insert t) s = if ltb s.budget (length t + 4) then (inserted none, s) else (
  inserted (some (length s.rows)),
  record { rows = s.rows ++ as_record t ∷ []; budget = s.budget - (length t + 4) },
)
sheet_step (read rid) s = (tuple (visible (get_elem? s.rows rid.slot_num)), s)
sheet_step (delete rid) s =
    if ltb rid.slot_num (length s.rows)
    then (deleted true, record s { rows = set s.rows rid.slot_num none })
    else (deleted false, s)

unfoldable pub sheet_run : List Command → Sheet → List Reply × Sheet
sheet_run [] s = ([], s)
sheet_run (c ∷ cs) s =
    let (r, s') = sheet_step c s in let (rs, s'') = sheet_run cs s' in (r ∷ rs, s'')

-- The slot of the `Rid` that an insertion reports.
abbrev pub slot_of : Option Rid → Option ℕ
slot_of none = none
slot_of (some rid) = some rid.slot_num

-- The page's own calls.
unfoldable pub page_step : Command → Eff Page Reply
page_step (insert t) = do rid ← insert_tuple t; pure (inserted (slot_of rid))
page_step (read rid) = do t ← get_tuple rid; pure (tuple t)
page_step (delete rid) = do b ← mark_delete rid; pure (deleted b)

unfoldable pub page_run : List Command → Eff Page (List Reply)
page_run [] = pure []
page_run (c ∷ cs) = do r ← page_step c; rs ← page_run cs; pure (r ∷ rs)

-- Records of 65532 bytes or more are left out: `Oversize` says what they do.
abbrev pub IsShort : Command → Type 0
IsShort (insert t) = length t < 65532
IsShort (read rid) = Unit
IsShort (delete rid) = Unit

abbrev pub AreShort : List Command → Type 0
AreShort [] = Unit
AreShort (c ∷ cs) = IsShort c × AreShort cs

pub record Shows (p : Page) (s : Sheet) : Type 0 where
  pub formatted : IsFormatted p.bytes
  pub rows_eq : records p.bytes ≡ s.rows
  pub budget_eq : space p.bytes ≡ s.budget

insert-Shows :
    (t : List ℕ) (p : Page) (s : Sheet)
    → length t < 65532
    → Shows p s
    → (q : Page) × (page_step (insert t) p ≡ done (sheet_step (insert t) s).0 q)
      × Shows q (sheet_step (insert t) s).1
unfolding page_step sheet_step
insert-Shows t p s short v = elim (dec_lt s.budget (length t + 4)) [
  | yes full ↦
      rw
        (
          lt→ltb s.budget (length t + 4) full,
          insert_tuple_full t p v.formatted short (rw v.budget_eq full),
        )
        (p, refl, v)
  | no fits ↦
      let (q, call, ok, rows, budget, _, _, _) =
        insert_tuple_fits t p v.formatted short (rw v.budget_eq (omega arith)) in
      rw (le→ltb s.budget (length t + 4) (omega arith), call, counted)
        (
          q,
          refl,
          record {
            formatted = ok;
            rows_eq = rw (rows, v.rows_eq);
            budget_eq = omega (arith, budget, v.budget_eq);
          },
        )
]
  where
    counted : count p.bytes ≡ length s.rows
    counted = rw (← length-records p.bytes, v.rows_eq)

delete-Shows :
    (rid : Rid) (p : Page) (s : Sheet)
    → Shows p s
    → (q : Page) × (page_step (delete rid) p ≡ done (sheet_step (delete rid) s).0 q)
      × Shows q (sheet_step (delete rid) s).1
unfolding page_step sheet_step
delete-Shows rid p s v = elim (dec_lt rid.slot_num (length s.rows)) [
  | yes old ↦
      let (q, call, ok, rows, budget, _, _, _) =
        mark_delete_in p v.formatted rid (rw counted old) in
      rw (lt→ltb rid.slot_num (length s.rows) old, call)
        (
          q,
          refl,
          record {
            formatted = ok;
            rows_eq = rw (rows, v.rows_eq);
            budget_eq = budget ∙ v.budget_eq;
          },
        )
  | no out ↦
      rw
        (
          le→ltb rid.slot_num (length s.rows) (omega arith),
          mark_delete_out p v.formatted rid (rw counted (omega arith)),
        )
        (p, refl, v)
]
  where
    counted : count p.bytes ≡ length s.rows
    counted = rw (← length-records p.bytes, v.rows_eq)

step-Shows :
    (c : Command) (p : Page) (s : Sheet)
    → IsShort c
    → Shows p s
    → (q : Page) × (page_step c p ≡ done (sheet_step c s).0 q) × Shows q (sheet_step c s).1
step-Shows (insert t) p s short v = insert-Shows t p s short v
step-Shows (delete rid) p s short v = delete-Shows rid p s v
step-Shows (read rid) p s short v =
    unfold page_step sheet_step in rw (get_tuple-visible p v.formatted rid, v.rows_eq) (p, refl, v)

run-Shows :
    (cs : List Command) (p : Page) (s : Sheet)
    → AreShort cs
    → Shows p s
    → (q : Page) × (page_run cs p ≡ done (sheet_run cs s).0 q) × Shows q (sheet_run cs s).1
unfolding page_run sheet_run
run-Shows [] p s short v = (p, refl, v)
run-Shows (c ∷ cs) p s short v =
    let (q, first, w) = step-Shows c p s short.0 v in
    let (r, rest, u) = run-Shows cs q (sheet_step c s).1 short.1 w in (r, rw (first, rest), u)

-- From a freshly formatted page on, whatever its bytes were, any sequence of insertions of fewer
-- than 65532 bytes, reads and deletions returns, with the replies of the sheet that starts empty
-- with 8180 bytes, and the page goes on showing that sheet.
pub page_run-sheet_run :
    (cs : List Command) (p : Page)
    → AreShort cs
    → let s = sheet_run cs (record { rows = []; budget = 8180 }) in
      (q : Page) × ((init >> page_run cs) p ≡ done s.0 q) × Shows q s.1
page_run-sheet_run cs p short =
    let (q, call, ok, rows, budget, _, _, _, _) = init_lem p in
    let (r, rest, v) =
      run-Shows cs q (record { rows = []; budget = 8180 }) short
        (record { formatted = ok; rows_eq = rows; budget_eq = budget }) in
    (r, rw call rest, v)
