-- ===== src/Storage/SlottedPage/Fresh.antt =====
-- A page that `init` has formatted.
use stingdb.Base.{◌≡◌, refl, [], arith}
use stingdb.Base.Bytes.{Bytes, store, load, encode, length-encode, decode, zeros}
use stingdb.Base.Effect.{done}
use stingdb.Storage.Page.{Page, reset_memory, copy_from}
use stingdb.Storage.SlottedPage.{init, get_lsn, set_lsn, set_tuple_count, set_free_space_pointer}
use stingdb.Storage.SlottedPage.Access.{copy_to-store}
use stingdb.Storage.SlottedPage.Layout.{
  field, count, free, space, IsFormatted, records, records_below,
}

-- The bytes that `init` leaves.
abbrev pub fresh : Bytes
fresh = store (store (store zeros 0 (encode 8 0)) 8 (encode 2 0)) 10 (encode 2 8192)

pub count-fresh : count fresh ≡ 0
unfolding field load store encode decode
count-fresh = refl

pub free-fresh : free fresh ≡ 8192
unfolding field load store encode decode
free-fresh = refl

get_lsn-fresh :
    (p : Page) → get_lsn (record p { bytes = fresh }) ≡ done 0 (record p { bytes = fresh })
unfolding get_lsn copy_from load store encode decode
get_lsn-fresh p = refl

pub fresh-IsFormatted : IsFormatted fresh
fresh-IsFormatted = record {
  room = omega (arith, count-fresh, free-fresh);
  inside = omega (arith, free-fresh);
  above = λ i h. absurd (omega (arith, count-fresh));
  ends = λ i h. absurd (omega (arith, count-fresh));
}

-- `init` formats a page, whatever it held: no records, and all but the header is free. It leaves
-- the dirty flag alone.
pub init_lem :
    (p : Page)
    → (q : Page) × (init p ≡ done tt q)
      × IsFormatted q.bytes
      × (records q.bytes ≡ [])
      × (space q.bytes ≡ 8180)
      × (get_lsn q ≡ done 0 q)
      × (q.is_dirty ≡ p.is_dirty)
      × (q.page_id ≡ p.page_id)
      × (q.pin_count ≡ p.pin_count)
unfolding init reset_memory set_lsn set_tuple_count set_free_space_pointer
init_lem p = (
  record p { bytes = fresh },
  rw (
    copy_to-store 0 (encode 8 0) (record p { bytes = zeros }) (omega (arith, length-encode 8 0)),
    copy_to-store 8 (encode 2 0) _ (omega (arith, length-encode 2 0)),
    copy_to-store 10 (encode 2 8192) _ (omega (arith, length-encode 2 8192)),
  ),
  fresh-IsFormatted,
  unfold records records_below in rw count-fresh,
  omega (arith, count-fresh, free-fresh),
  get_lsn-fresh p,
  refl,
  refl,
  refl,
)
