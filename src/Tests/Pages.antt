-- ===== src/Tests/Pages.antt =====
-- Slotted pages.
use stingdb.Base.{
  ℕ, ◌+◌, ◌<◌, ◌≡◌, refl, true, false, List, [], ◌∷◌, ◌++◌, none, some, arith, length, replicate,
  length-replicate, ap, length-append,
}
use stingdb.Base.Effect.{done, fault, ◌>>◌}
use stingdb.Storage.Page.{Page, blank}
use stingdb.Storage.SlottedPage.{Rid, init, insert_tuple, get_lsn, set_lsn}
use stingdb.Storage.SlottedPage.Layout.{IsFormatted, records, space, count}
use stingdb.Storage.SlottedPage.Placed.{as_record}
use stingdb.Storage.SlottedPage.Insert.{insert_tuple_fits}
use stingdb.Storage.SlottedPage.Read.{length-records}
use stingdb.Storage.SlottedPage.Fresh.{count-fresh, free-fresh, fresh, fresh-IsFormatted}
use stingdb.Storage.SlottedPage.Lsn.{set_lsn_lem}
use stingdb.Storage.SlottedPage.Race.{Overtaken, insert_tuple-lost}
use stingdb.Storage.SlottedPage.Oversize.{insert_tuple_overruns}
use stingdb.Storage.SlottedPage.Refine.{
  Command, insert, read, delete, sheet_run, page_run, Shows, page_run-sheet_run, inserted, tuple,
  deleted, sheet_step,
}

abbrev rid_of : ℕ → Rid
rid_of i = record { page_id = 7; slot_num = i }

abbrev script : List Command
script =
    insert (1 ∷ 2 ∷ [])
    ∷ insert (3 ∷ [])
    ∷ delete (rid_of 0)
    ∷ read (rid_of 1)
    ∷ read (rid_of 0)
    ∷ []

script_replies :
    (sheet_run script (record { rows = []; budget = 8180 })).0
    ≡ inserted (some 0) ∷ inserted (some 1) ∷ deleted true ∷ tuple (some (3 ∷ [])) ∷ tuple none ∷ []
unfolding sheet_run sheet_step as_record
script_replies = refl

page_run-sheet_run_example :
    (q : Page) × ((init >> page_run script) blank
      ≡ done (sheet_run script (record { rows = []; budget = 8180 })).0 q)
    × Shows q (sheet_run script (record { rows = []; budget = 8180 })).1
page_run-sheet_run_example = page_run-sheet_run script blank (omega arith)

abbrev empty_page : Page
empty_page = record { bytes = fresh; page_id = 7; pin_count = 1; is_dirty = false }

abbrev row : List ℕ
row = 10 ∷ 20 ∷ 30 ∷ []

-- The page with one row.
abbrev one_row :
    (q : Page) × (insert_tuple row empty_page
      ≡ done (some (record { page_id = 7; slot_num = count fresh })) q)
    × IsFormatted q.bytes
    × (records q.bytes ≡ records fresh ++ as_record row ∷ [])
    × (space q.bytes + (length row + 4) ≡ space fresh)
    × (q.is_dirty ≡ true)
    × (q.page_id ≡ 7)
    × (q.pin_count ≡ 1)
one_row =
    insert_tuple_fits row empty_page fresh-IsFormatted (omega arith)
      (omega (arith, count-fresh, free-fresh))

insert_tuple_fits_example :
    (q : Page) × (insert_tuple row empty_page
      ≡ done (some (record { page_id = 7; slot_num = count fresh })) q)
    × IsFormatted q.bytes
    × (records q.bytes ≡ records fresh ++ as_record row ∷ [])
    × (space q.bytes + (length row + 4) ≡ space fresh)
    × (q.is_dirty ≡ true)
    × (q.page_id ≡ 7)
    × (q.pin_count ≡ 1)
insert_tuple_fits_example =
    insert_tuple_fits row empty_page fresh-IsFormatted (omega arith)
      (omega (arith, count-fresh, free-fresh))

insert_tuple_overruns_example : insert_tuple (replicate 65533 1) empty_page ≡ fault
insert_tuple_overruns_example =
    insert_tuple_overruns (replicate 65533 1) empty_page fresh-IsFormatted
      (omega (arith, length-replicate {A = ℕ} 65533 1))
      (omega (arith, length-replicate {A = ℕ} 65533 1)) (omega (arith, count-fresh, free-fresh))

one_row-count : 0 < count one_row.0.bytes
one_row-count = omega (
  arith,
  length-records one_row.0.bytes,
  ap length one_row.3,
  length-append (records fresh) (as_record row ∷ []),
)

set_lsn_lem_example :
    (q : Page) × (set_lsn 41 one_row.0 ≡ done tt q)
    × (get_lsn q ≡ done 41 q)
    × IsFormatted q.bytes
    × (records q.bytes ≡ records one_row.0.bytes)
    × (space q.bytes ≡ space one_row.0.bytes)
    × (q.is_dirty ≡ one_row.0.is_dirty)
    × (q.page_id ≡ one_row.0.page_id)
    × (q.pin_count ≡ one_row.0.pin_count)
set_lsn_lem_example = set_lsn_lem 41 one_row.0 (omega arith) one_row.2

abbrev another_row : List ℕ
another_row = 1 ∷ 2 ∷ 3 ∷ []

insert_tuple-lost_example :
    (rid : Rid) × (q : Page) × (t : Page) × Overtaken empty_page row another_row rid q t
    × (records t.bytes ≡ records fresh ++ as_record row ∷ [])
insert_tuple-lost_example =
    insert_tuple-lost empty_page row another_row fresh-IsFormatted (omega arith) (omega arith)
      (omega (arith, count-fresh, free-fresh)) (omega (arith, count-fresh, free-fresh))
