-- ===== src/Storage/BufferPool/Held.antt =====
-- A page that stays in the pool while executors fetch it, work on it and give it back.
pub mod Apart
use native.Mathlib.Decide.{ℕ_discrete}
use stingdb.Base.{
  ℕ, ◌+◌, ◌^◌, ◌<◌, ◌≡◌, refl, ◌∙◌, ap, Bool, true, some, arith, lt→ltb, eq→==, ne→==,
}
use stingdb.Base.Bytes.{Bytes}
use stingdb.Base.Effect.{Eff, done}
use stingdb.Storage.Page.{Page}
use stingdb.Storage.Disk.{Device}
use stingdb.Storage.BufferPool.{BufferPool, fetch_page, unpin_page, update, on_frame}
use stingdb.Storage.BufferPool.Invariant.{resident, IsValid}
use stingdb.Storage.BufferPool.Hit.{fetch_page_hit}
use stingdb.Storage.BufferPool.Unpin.{released_state, unpin_page_lem}

-- Page `q` lies in frame `f` with `n` pins and the bytes `b`.
pub record Held {D : Type 0} (q f n : ℕ) (b : Bytes) (s : BufferPool D) : Type 0 where
  pub valid : IsValid s
  pub mapped : resident s q ≡ some f
  pub pins : (s.frames f).pin_count ≡ n
  pub holds : (s.frames f).bytes ≡ b

module _ {D : Type 0} (q f n : ℕ) (b : Bytes) (s : BufferPool D) (h : Held q f n b s) where
  pub in_pool : f < s.pool_size
  in_pool = (h.valid.table_in q f h.mapped).0

  -- One more pin.
  pub fetch_page-Held :
      (io : Device D) (fuel : ℕ)
      → n + 1 < 2 ^ 32
      → (t : BufferPool D) × (fetch_page io fuel q s ≡ done (some f) t) × Held q f (n + 1) b t
  fetch_page-Held io fuel room =
      let (t, call, pinned, frame, _, _) = fetch_page_hit s h.valid q f h.mapped io fuel in
      (
        t,
        call,
        record {
          valid = pinned.valid;
          mapped = pinned.mapped;
          pins = omega (arith, ap (λ (p : Page). p.pin_count) frame, h.pins);
          holds = ap (λ (p : Page). p.bytes) frame ∙ h.holds;
        },
      )

  module _ (p : Page) (same_id : p.page_id ≡ (s.frames f).page_id)
      (same_pins : p.pin_count ≡ (s.frames f).pin_count) where
    replaced : BufferPool D
    replaced = record s { frames = update s.frames f p }

    same_frame :
        (g : ℕ)
        → ((update s.frames f p g).page_id ≡ (s.frames g).page_id)
          × ((update s.frames f p g).pin_count ≡ (s.frames g).pin_count)
    same_frame g = elim (ℕ_discrete g f) [
      | yes e ↦ rw (e, eq→== f f refl) (same_id, same_pins)
      | no ne ↦ rw (ne→== g f ne) (refl, refl)
    ]

    replaced-IsValid : IsValid replaced
    unfolding replaced
    replaced-IsValid = record {
      table_in =
          λ r g e. ((h.valid.table_in r g e).0, (same_frame g).0 ∙ (h.valid.table_in r g e).1);
      free_in = h.valid.free_in;
      lru_in = λ g e. (
        ap (resident s) (same_frame g).0 ∙ (h.valid.lru_in g e).0,
        (same_frame g).1 ∙ (h.valid.lru_in g e).1,
      );
      once = h.valid.once;
    }

    replaced-Held : Held q f n p.bytes replaced
    unfolding replaced
    replaced-Held = record {
      valid = replaced-IsValid;
      mapped = h.mapped;
      pins = rw (eq→== f f refl) (same_pins ∙ h.pins);
      holds = rw (eq→== f f refl) refl;
    }

  -- A call on the page that leaves its number and its pins alone.
  pub on_frame-Held :
      {A : Type 0} (m : Eff Page A) (a : A) (p : Page)
      → m (s.frames f) ≡ done a p
      → p.page_id ≡ (s.frames f).page_id
      → p.pin_count ≡ (s.frames f).pin_count
      → (t : BufferPool D) × (on_frame f m s ≡ done a t) × Held q f n p.bytes t
  unfolding on_frame replaced
  on_frame-Held m a p call same_id same_pins = (
    replaced p same_id same_pins,
    rw (lt→ltb f s.pool_size in_pool, call) refl,
    replaced-Held p same_id same_pins,
  )

-- A pin given back.
pub unpin_page-Held :
    {D : Type 0} (q f n : ℕ) (b : Bytes) (s : BufferPool D)
    → Held q f (n + 1) b s
    → n + 1 < 2 ^ 31
    → (asserts is_dirty : Bool)
    → (t : BufferPool D) × (unpin_page asserts q is_dirty s ≡ done true t) × Held q f n b t
unpin_page-Held q f n b s h bound asserts is_dirty =
    let (call, valid) =
      unpin_page_lem s h.valid q f h.mapped (omega (arith, h.pins)) (omega (arith, h.pins)) is_dirty
        asserts in
    (
      released_state s h.valid q f h.mapped is_dirty,
      call,
      record {
        valid = valid;
        mapped = h.mapped;
        pins = rw (eq→== f f refl) (omega (arith, h.pins));
        holds = rw (eq→== f f refl) h.holds;
      },
    )
