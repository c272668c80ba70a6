-- ===== src/Storage/BufferPool/Access.antt =====
-- Reads and writes of frames within the pool.
use stingdb.Base.{ℕ, ◌<◌, ◌≡◌, arith, lt→ltb, fun_ext}
use stingdb.Base.Effect.{done}
use stingdb.Storage.Page.{Page}
use stingdb.Storage.BufferPool.{BufferPool, get_frame, set_frame, update}

module _ {D : Type 0} (f : ℕ) (s : BufferPool D) (h : f < s.pool_size) where
  pub get_frame-in : get_frame f s ≡ done (s.frames f) s
  unfolding get_frame
  get_frame-in = rw (lt→ltb f s.pool_size h)

  pub set_frame-in :
      (p : Page) → set_frame f p s ≡ done tt (record s { frames = update s.frames f p })
  unfolding set_frame
  set_frame-in p = rw (lt→ltb f s.pool_size h)

pub update-update :
    (frames : ℕ → Page) (f : ℕ) (p r : Page) → update (update frames f p) f r ≡ update frames f r
update-update frames f p r = fun_ext λ g. ground arith
