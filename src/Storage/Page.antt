-- ===== src/Storage/Page.antt =====
-- src/common/config.h and src/storage/page/page.h: a frame of the buffer pool.
use stingdb.Base.{ℕ, ◌+◌, Bool, false, List, leb, if◌then◌else◌, length}
use stingdb.Base.Bytes.{Bytes, zeros, store, load}
use stingdb.Base.Effect.{Eff, done, fault}

abbrev pub page_size : ℕ
page_size = 8192

abbrev pub invalid_page_id : ℕ
invalid_page_id = 0xffff_ffff

-- `bytes` is `data_`, whose size is `page_size`. `pin_count` is the bit pattern of the `int`.
pub record Page : Type 0 where
  pub bytes : Bytes
  pub page_id : ℕ
  pub pin_count : ℕ
  pub is_dirty : Bool

-- The constructor.
unfoldable pub blank : Page
blank = record { bytes = zeros; page_id = invalid_page_id; pin_count = 0; is_dirty = false }

unfoldable pub set_dirty : Bool → Page → Page
set_dirty d p = record p { is_dirty = d }

unfoldable pub reset_memory : Page → Page
reset_memory p = record p { bytes = zeros }

-- `memcpy(GetData() + off, src, n)` and `memcpy(dst, GetData() + off, n)`; an access outside the
-- page is undefined.
unfoldable pub copy_to : ℕ → List ℕ → Eff Page (Unit {0})
copy_to off src p =
    if leb (off + length src) page_size
    then done tt (record p { bytes = store p.bytes off src })
    else fault

unfoldable pub copy_from : ℕ → ℕ → Eff Page (List ℕ)
copy_from off n p = if leb (off + n) page_size then done (load p.bytes off n) p else fault
