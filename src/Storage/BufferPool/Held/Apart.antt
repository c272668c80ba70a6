-- ===== src/Storage/BufferPool/Held/Apart.antt =====
-- Calls on one page of the pool, beside another page that stays in the pool.
use stingdb.Base.{
  ℕ, ◌+◌, ◌^◌, ◌<◌, ◌≡◌, ◌≢◌, refl, sym, ◌∙◌, ap, Bool, true, false, some, arith, lt→ltb, eq→==,
  ne→==,
}
use stingdb.Base.Bytes.{Bytes}
use stingdb.Base.Effect.{Eff, done}
use stingdb.Storage.Page.{Page}
use stingdb.Storage.Disk.{Device}
use stingdb.Storage.BufferPool.{BufferPool, fetch_page, unpin_page, on_frame}
use stingdb.Storage.BufferPool.Invariant.{resident, IsValid}
use stingdb.Storage.BufferPool.Hit.{fetch_page_hit}
use stingdb.Storage.BufferPool.Unpin.{released_state, unpin_page_lem}
use stingdb.Storage.BufferPool.Held.{Held, replaced, replaced-Held, in_pool}

-- A page whose frame and whose entry of the page table are left alone.
kept-Held :
    {D : Type 0} (r g m : ℕ) (c : Bytes) (s t : BufferPool D)
    → Held r g m c s
    → IsValid t
    → resident t r ≡ resident s r
    → t.frames g ≡ s.frames g
    → Held r g m c t
kept-Held r g m c s t h valid table frame = record {
  valid = valid;
  mapped = table ∙ h.mapped;
  pins = ap (λ (p : Page). p.pin_count) frame ∙ h.pins;
  holds = ap (λ (p : Page). p.bytes) frame ∙ h.holds;
}

module _ {D : Type 0} (q f n : ℕ) (b : Bytes) (r g m : ℕ) (c : Bytes) (apart : q ≢ r) where
  -- Page `q` is in frame `f`, and page `r` in frame `g`.
  abbrev pub Both : BufferPool D → Type 0
  Both s = Held q f n b s × Held r g m c s

  pub apart_frames : (s : BufferPool D) → Both s → g ≢ f
  apart_frames s (h, other) same = apart (
      sym (h.valid.table_in q f h.mapped).1
      ∙ ap (λ x. (s.frames x).page_id) (sym same)
      ∙ (other.valid.table_in r g other.mapped).1)

  pub fetch_page-Both :
      (s : BufferPool D) (io : Device D) (fuel : ℕ)
      → Both s
      → n + 1 < 2 ^ 32
      → (t : BufferPool D) × (fetch_page io fuel q s ≡ done (some f) t)
        × Held q f (n + 1) b t
        × Held r g m c t
  fetch_page-Both s io fuel (h, other) room =
      let (t, call, pinned, frame, table, _) = fetch_page_hit s h.valid q f h.mapped io fuel in
      (
        t,
        call,
        record {
          valid = pinned.valid;
          mapped = pinned.mapped;
          pins = omega (arith, ap (λ (p : Page). p.pin_count) frame, h.pins);
          holds = ap (λ (p : Page). p.bytes) frame ∙ h.holds;
        },
        kept-Held r g m c s t other pinned.valid
            (ap (λ l. resident (record s { page_table = l }) r) table)
            (pinned.frames_eq g (apart_frames s (h, other))),
      )

  -- A look at the page.
  pub on_frame-Both :
      {A : Type 0} (s : BufferPool D) (look : Eff Page A) (a : A)
      → Both s
      → look (s.frames f) ≡ done a (s.frames f)
      → (t : BufferPool D) × (on_frame f look s ≡ done a t) × Both t
  unfolding on_frame replaced
  on_frame-Both s look a (h, other) call =
      let t = replaced q f n b s h (s.frames f) refl refl in
      let h' = replaced-Held q f n b s h (s.frames f) refl refl in
      (
        t,
        rw (lt→ltb f s.pool_size (in_pool q f n b s h), call) refl,
        (
          record {
            valid = h'.valid;
            mapped = h'.mapped;
            pins = h'.pins;
            holds = h'.holds ∙ h.holds;
          },
          kept-Held r g m c s t other h'.valid refl
              (rw (ne→== g f (apart_frames s (h, other))) refl),
        ),
      )

pub unpin_page-Both :
    {D : Type 0} (q f n : ℕ) (b : Bytes) (r g m : ℕ) (c : Bytes) (apart : q ≢ r) (s : BufferPool D)
    → Both q f (n + 1) b r g m c apart s
    → n + 1 < 2 ^ 31
    → (asserts : Bool)
    → (t : BufferPool D) × (unpin_page asserts q false s ≡ done true t)
      × Both q f n b r g m c apart t
unpin_page-Both q f n b r g m c apart s (h, other) bound asserts =
    let (call, valid) =
      unpin_page_lem s h.valid q f h.mapped (omega (arith, h.pins)) (omega (arith, h.pins)) false
        asserts in
    (
      released_state s h.valid q f h.mapped false,
      call,
      (
        record {
          valid = valid;
          mapped = h.mapped;
          pins = rw (eq→== f f refl) (omega (arith, h.pins));
          holds = rw (eq→== f f refl) h.holds;
        },
        kept-Held r g m c s (released_state s h.valid q f h.mapped false) other valid refl
            (rw (ne→== g f (apart_frames q f (n + 1) b r g m c apart s (h, other))) refl),
      ),
    )
