-- ===== src/Execution/Rows.antt =====
-- The page of a table whose rows have one length.
use stingdb.Base.{
  ℕ, ◌+◌, ◌*◌, ◌≤◌, ◌<◌, ◌≡◌, refl, ◌∙◌, ap, List, [], ◌∷◌, Option, none, some, length,
  length-append, replicate, arith, ◌^◌,
}
use stingdb.Base.Bytes.{Bytes}
use stingdb.Base.Effect.{done}
use stingdb.Storage.Page.{Page, copy_from}
use stingdb.Storage.SlottedPage.{
  Rid, init, insert_tuple, get_tuple, get_tuple_count, get_lsn, set_lsn,
}
use stingdb.Storage.SlottedPage.Layout.{IsFormatted, count, space, records}
use stingdb.Storage.SlottedPage.Placed.{as_record}
use stingdb.Storage.SlottedPage.Access.{get_tuple_count-count}
use stingdb.Storage.SlottedPage.Insert.{insert_tuple_fits, insert_tuple_full}
use stingdb.Storage.SlottedPage.Read.{length-records, get_tuple-visible}
use stingdb.Storage.SlottedPage.Fresh.{init_lem}
use stingdb.Storage.SlottedPage.Lsn.{set_lsn_lem}

-- A row of the table `users`: 4 bytes and 255, and a slot of 4.
abbrev pub row : List ℕ
row = replicate 259 0

-- A page with `rows` rows. There is room for 31 of them.
pub record HasRows (b : Bytes) (rows : ℕ) : Type 0 where
  pub formatted : IsFormatted b
  pub counted : count b ≡ rows
  pub left : space b + 263 * rows ≡ 8180

abbrev pub capacity : ℕ
capacity = 31

pub HasRows-le : (b : Bytes) (rows : ℕ) → HasRows b rows → rows ≤ capacity
HasRows-le b rows h = omega (arith, h.left)

row-length : length row ≡ 259
row-length = refl

pub init-HasRows :
    (p : Page)
    → (q : Page) × (init p ≡ done tt q)
      × HasRows q.bytes 0
      × (q.page_id ≡ p.page_id)
      × (q.pin_count ≡ p.pin_count)
init-HasRows p =
    let (q, call, ok, recs, left, _, _, same_id, same_pins) = init_lem p in
    (
      q,
      call,
      record {
        formatted = ok;
        counted = omega (arith, length-records q.bytes, ap length recs);
        left = omega (arith, left);
      },
      same_id,
      same_pins,
    )

module _ (p : Page) (rows : ℕ) (h : HasRows p.bytes rows) where
  pub insert_tuple-HasRows :
      rows < capacity
      → (q : Page) × (insert_tuple row p
          ≡ done (some (record { page_id = p.page_id; slot_num = rows })) q)
        × HasRows q.bytes (rows + 1)
        × (q.page_id ≡ p.page_id)
        × (q.pin_count ≡ p.pin_count)
  insert_tuple-HasRows room =
      let (q, call, ok, recs, left, _, same_id, same_pins) =
        insert_tuple_fits row p h.formatted (omega (arith, row-length))
          (omega (arith, row-length, h.left)) in
      (
        q,
        rw (← h.counted) call,
        record {
          formatted = ok;
          counted = omega (
            arith,
            length-records q.bytes,
            length-records p.bytes,
            ap length recs,
            length-append (records p.bytes) (as_record row ∷ []),
            h.counted,
          );
          left = omega (arith, left, h.left, row-length);
        },
        same_id,
        same_pins,
      )

  pub insert_tuple-full : capacity ≤ rows → insert_tuple row p ≡ done none p
  insert_tuple-full full =
      insert_tuple_full row p h.formatted (omega (arith, row-length))
        (omega (arith, row-length, h.left))

  pub set_lsn-HasRows :
      (lsn : ℕ)
      → lsn < 2 ^ 64
      → (q : Page) × (set_lsn lsn p ≡ done tt q)
        × HasRows q.bytes rows
        × (q.page_id ≡ p.page_id)
        × (q.pin_count ≡ p.pin_count)
        × (get_lsn q ≡ done lsn q)
  set_lsn-HasRows lsn small =
      let (q, call, read, ok, recs, left, _, same_id, same_pins) =
        set_lsn_lem lsn p small h.formatted in
      (
        q,
        call,
        record {
          formatted = ok;
          counted =
              omega
                (arith, length-records q.bytes, length-records p.bytes, ap length recs, h.counted);
          left = omega (arith, left, h.left);
        },
        same_id,
        same_pins,
        read,
      )

  pub get_tuple_count-HasRows : get_tuple_count p ≡ done rows p
  get_tuple_count-HasRows = get_tuple_count-count p ∙ ap (λ (n : ℕ). done n p) h.counted

  pub get_tuple-HasRows : (rid : Rid) → (tuple : Option (List ℕ)) × (get_tuple rid p ≡ done tuple p)
  get_tuple-HasRows rid = (_, get_tuple-visible p h.formatted rid)

pub get_lsn-done : (p : Page) → (lsn : ℕ) × (get_lsn p ≡ done lsn p)
unfolding get_lsn copy_from
get_lsn-done p = (_, refl)
