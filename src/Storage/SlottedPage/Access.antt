-- ===== src/Storage/SlottedPage/Access.antt =====
-- What the accessors of the header and the checked copies compute.
use stingdb.Base.{ℕ, ◌+◌, ◌≤◌, ◌≡◌, refl, List, length, le→leb}
use stingdb.Base.Bytes.{store}
use stingdb.Base.Effect.{done}
use stingdb.Storage.Page.{Page, copy_to, copy_from}
use stingdb.Storage.SlottedPage.{get_tuple_count, get_free_space_pointer}
use stingdb.Storage.SlottedPage.Layout.{field, count, free}

pub get_tuple_count-count : (p : Page) → get_tuple_count p ≡ done (count p.bytes) p
unfolding get_tuple_count copy_from field
get_tuple_count-count p = refl

pub get_free_space_pointer-free : (p : Page) → get_free_space_pointer p ≡ done (free p.bytes) p
unfolding get_free_space_pointer copy_from field
get_free_space_pointer-free p = refl

pub copy_to-store :
    (off : ℕ) (src : List ℕ) (p : Page)
    → off + length src ≤ 8192
    → copy_to off src p ≡ done tt (record p { bytes = store p.bytes off src })
unfolding copy_to
copy_to-store off src p h = rw (le→leb _ _ h)
