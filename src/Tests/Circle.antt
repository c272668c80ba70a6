-- ===== src/Tests/Circle.antt =====
-- A tree whose root, page 3, is no leaf, in a pool that also has page `INVALID_PAGE_ID`.
use stingdb.Base.{false, [], ◌∷◌, ◌==◌, if◌then◌else◌}
use stingdb.Base.Bytes.{zeros}
use stingdb.Storage.BufferPool.{BufferPool}
use stingdb.Storage.BufferPool.Held.{Held}
use stingdb.Storage.BPlusTree.{Latched}
use stingdb.Tests.Device.{Drive}

abbrev at_root : BufferPool Drive
at_root = record {
  pool_size = 2;
  frames = λ g. record {
    bytes = zeros;
    page_id = if g == 0 then 3 else 0xffff_ffff;
    pin_count = if g == 0 then 1 else 0;
    is_dirty = false;
  };
  page_table = (3, 0) ∷ (0xffff_ffff, 1) ∷ [];
  lru_replacer = [];
  free_list = [];
  disk = record { device = record { pending = 0; file = zeros }; next_page_id = 4 };
}

abbrev latched_root : Latched Drive
latched_root = record { pool = at_root; readers = λ f. if f == 0 then 1 else 0 }
