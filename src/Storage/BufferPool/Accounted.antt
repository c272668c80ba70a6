-- ===== src/Storage/BufferPool/Accounted.antt =====
-- No frame of the pool is lost by a call that returns.
use native.Mathlib.Decide.{ℕ_discrete}
use stingdb.Base.{
  ℕ, ◌+◌, ◌^◌, ◌<◌, ◌≡◌, ◌≢◌, refl, sym, ◌∙◌, ap, ◌⊎◌, inl, inr, Bool, true, false, Option, none,
  some, ◌==◌, count, arith, Option-cases, some_injective, eq→==, ne→==, ==→ne,
}
use stingdb.Base.Effect.{Ensures, Ensures-weaken}
use stingdb.Storage.Page.{Page}
use stingdb.Storage.Disk.{Device}
use stingdb.Storage.Disk.Serves.{Serves, Kept}
use stingdb.Storage.BufferPool.{BufferPool, fetch_page, new_page, unpin_page}
use stingdb.Storage.BufferPool.Invariant.{resident, IsValid, IsAccounted}
use stingdb.Storage.BufferPool.Taken.{Aborted}
use stingdb.Storage.BufferPool.Evict.{Settles}
use stingdb.Storage.BufferPool.Install.{Pinned}
use stingdb.Storage.BufferPool.Hit.{fetch_page_hit}
use stingdb.Storage.BufferPool.Fetch.{Loads, fetch_page_miss}
use stingdb.Storage.BufferPool.New.{Creates, new_page_lem}
use stingdb.Storage.BufferPool.Unpin.{released_state, unpin_page_lem}

abbrev Accounts : {D : Type 0} → BufferPool D → ℕ → Type 0
Accounts s g =
    (0 < count g s.free_list + count g s.lru_replacer)
    ⊎ ((resident s (s.frames g).page_id ≡ some g) × ((s.frames g).pin_count ≢ 0))

module _ {D : Type 0} (s t : BufferPool D) (q f : ℕ) (accounted : IsAccounted s)
    (pinned : Pinned s t q f) (held : (t.frames f).pin_count ≢ 0)
    (own : (g : ℕ) → resident s q ≡ some g → g ≡ f) where
  still_there :
      (g : ℕ)
      → g ≢ f
      → resident s (s.frames g).page_id ≡ some g
      → resident t (s.frames g).page_id ≡ some g
  still_there g ne e = elim (ℕ_discrete (s.frames g).page_id q) [
    | yes same ↦ absurd (ne (own g (ap (resident s) (sym same) ∙ e)))
    | no other ↦ elim (pinned.table_eq (s.frames g).page_id other) [
      | inl same ↦ same ∙ e
      | inr (_, was, _) ↦ absurd (ne (some_injective g f (sym e ∙ was)))
    ]
  ]

  Pinned_other : (g : ℕ) → g ≢ f → Accounts s g → Accounts t g
  Pinned_other g ne (inl listed) = inl (omega (arith, pinned.others g ne))
  Pinned_other g ne (inr (there, pins)) =
      rw (pinned.frames_eq g ne) (inr (still_there g ne there, pins))

  Pinned-IsAccounted : IsAccounted t
  Pinned-IsAccounted g h = elim (ℕ_discrete g f) [
    | yes same ↦
        rw same
          (inr (ap (resident t) (pinned.valid.table_in q f pinned.mapped).1 ∙ pinned.mapped, held))
    | no ne ↦ Pinned_other g ne (accounted g (rw (← pinned.size_eq) h))
  ]

module _ {D : Type 0} (io : Device D) (fuel : ℕ) (serves : Serves io fuel) (s : BufferPool D)
    (v : IsValid s) (accounted : IsAccounted s) where
  abbrev Anything : ℕ → D → Type 0
  Anything f d = Unit {0}

  anything-Kept : (f : ℕ) → Kept io (Anything f)
  anything-Kept f = record { peek_kept = λ d k. tt; advance_kept = λ d k. tt }

  anything-Settles : (f : ℕ) → 0 < count f s.lru_replacer → Settles io (Anything f) s f
  anything-Settles f h = record { clean = λ _. tt; dirty = λ _ _. tt }

  -- The pool after a call that returned.
  abbrev Sound : {A : Type 0} → A → BufferPool D → Type 0
  Sound _ t = IsValid t × IsAccounted t

  miss-Sound :
      (q : ℕ) (absent : resident s q ≡ none) (r : Option ℕ) (t : BufferPool D)
      → Loads io fuel serves Anything anything-Kept s v q absent r t
      → Sound r t
  miss-Sound q absent none t (same, _, _) = rw same (v, accounted)
  miss-Sound q absent (some f) t (_, pinned, frame, _, _, _) = (
    pinned.valid,
    Pinned-IsAccounted s t q f accounted pinned
        (λ z. absurd (omega (arith, z, ap (λ (p : Page). p.pin_count) frame)))
        (λ g e. absurd (clash absent e)),
  )
    where
      clash : {g : ℕ} → resident s q ≡ none → resident s q ≡ some g → ⊥
      clash a b = cc

  hit-Sound :
      (q f : ℕ) (e : resident s q ≡ some f)
      → (s.frames f).pin_count + 1 < 2 ^ 32
      → Ensures (fetch_page io fuel q s) Sound Aborted
  hit-Sound q f e bound =
      let (t, call, pinned, frame, table, disk) = fetch_page_hit s v q f e io fuel in
      rw call (
        pinned.valid,
        Pinned-IsAccounted s t q f accounted pinned
            (λ z. absurd (omega (arith, z, ap (λ (p : Page). p.pin_count) frame)))
            (λ g e'. some_injective g f (sym e' ∙ e)),
      )

  -- `FetchPage` keeps the pool well formed on every path, and loses no frame when it returns: each is
  -- free, or can be evicted, or holds a pinned page. This needs a pin count that does not wrap.
  pub fetch_page-IsAccounted :
      (q : ℕ)
      → ((f : ℕ) → resident s q ≡ some f → (s.frames f).pin_count + 1 < 2 ^ 32)
      → Ensures (fetch_page io fuel q s) (λ r t. IsValid t × IsAccounted t) (λ e t. IsValid t)
  fetch_page-IsAccounted q bound = elim (Option-cases (resident s q)) [
    | inl absent ↦
        Ensures-weaken (fetch_page io fuel q s)
          (Loads io fuel serves Anything anything-Kept s v q absent) Sound Aborted Aborted
          (fetch_page_miss io fuel serves Anything anything-Kept s v q absent (λ f h. tt)
            anything-Settles)
          (miss-Sound q absent) (λ e t w. w)
    | inr (f, there) ↦ hit-Sound q f there (bound f there)
  ]

module _ {D : Type 0} (io : Device D) (fuel : ℕ) (serves : Serves io fuel) (s : BufferPool D)
    (v : IsValid s) (accounted : IsAccounted s)
    (unused : resident s s.disk.next_page_id ≡ none) where
  created-Sound :
      (r : Option (ℕ × ℕ)) (t : BufferPool D)
      → Creates io fuel serves
          (Anything io fuel serves s v accounted)
          (anything-Kept io fuel serves s v accounted)
          s
          v
          unused
          r
          t
      → IsValid t × IsAccounted t
  created-Sound none t (same, _, _) = rw same (v, accounted)
  created-Sound (some (q, f)) t (named, pinned, frame, _, _, _) = (
    pinned.valid,
    Pinned-IsAccounted s t q f accounted pinned
        (λ z. absurd (omega (arith, z, ap (λ (p : Page). p.pin_count) frame)))
        (λ g e. absurd (clash (rw named at e))),
  )
    where
      clash : {g : ℕ} → resident s s.disk.next_page_id ≡ some g → ⊥
      clash e = cc

  -- `NewPage` keeps the pool well formed on every path, and loses no frame when it returns, where the
  -- next page number is not in the pool.
  pub new_page-IsAccounted :
      Ensures (new_page io fuel s) (λ r t. IsValid t × IsAccounted t) (λ e t. IsValid t)
  new_page-IsAccounted =
      Ensures-weaken (new_page io fuel s)
        (Creates io fuel serves (Anything io fuel serves s v accounted)
          (anything-Kept io fuel serves s v accounted) s v unused)
        (λ r t. IsValid t × IsAccounted t) Aborted Aborted
        (new_page_lem io fuel serves (Anything io fuel serves s v accounted)
          (anything-Kept io fuel serves s v accounted) s v unused (λ f h. tt)
          (anything-Settles io fuel serves s v accounted))
        created-Sound (λ e t w. w)

module _ {D : Type 0} (s : BufferPool D) (v : IsValid s) (accounted : IsAccounted s) (q f : ℕ)
    (e : resident s q ≡ some f) (is_dirty : Bool) where
  release_self :
      (b : Bool)
      → ((s.frames f).pin_count == 1) ≡ b
      → 0 < (s.frames f).pin_count
      → Accounts (released_state s v q f e is_dirty) f
  release_self true z h = inl (rw (z, eq→== f f refl) (omega arith))
  release_self false z h = inr (
      rw (eq→== f f refl) (
        ap (resident s) (v.table_in q f e).1 ∙ e,
        λ y. ==→ne (s.frames f).pin_count 1 z (omega (arith, y)),
      ))

  release_other : (g : ℕ) → g ≢ f → Accounts s g → Accounts (released_state s v q f e is_dirty) g
  release_other g ne (inl listed) = inl (ground arith)
  release_other g ne (inr held) = inr (rw (ne→== g f ne) held)

  -- Giving back a pin of a page in the pool, with fewer than 2 ^ 31 pins, keeps the pool well
  -- formed and loses no frame: each is free, or can be evicted, or holds a pinned page.
  pub unpin_page-IsAccounted :
      (asserts : Bool)
      → 0 < (s.frames f).pin_count
      → (s.frames f).pin_count < 2 ^ 31
      → Ensures (unpin_page asserts q is_dirty s) (λ r t. IsValid t × IsAccounted t) (λ _ _. ⊥)
  unpin_page-IsAccounted asserts pinned bound =
      let (call, valid) = unpin_page_lem s v q f e pinned bound is_dirty asserts in
      rw call (
        valid,
        λ g h. elim (ℕ_discrete g f) [
          | yes same ↦ rw same (release_self _ refl pinned)
          | no ne ↦ release_other g ne (accounted g h)
        ],
      )
