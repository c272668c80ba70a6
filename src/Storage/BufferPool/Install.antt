-- ===== src/Storage/BufferPool/Install.antt =====
-- A page that is put into a frame taken from the pool.
use native.Mathlib.Decide.{ℕ_discrete}
use stingdb.Base.{
  ℕ, ◌+◌, ◌<◌, ◌≡◌, ◌≢◌, refl, sym, ◌∙◌, ap, ◌⊎◌, [], none, some, count, arith, some_injective,
  eq→==, ne→==,
}
use stingdb.Base.Table.{insert, find-insert_self, find-insert_ne}
use stingdb.Storage.Page.{Page}
use stingdb.Storage.Disk.{DiskManager}
use stingdb.Storage.BufferPool.{BufferPool, update}
use stingdb.Storage.BufferPool.Invariant.{resident, IsValid}
use stingdb.Storage.BufferPool.Taken.{Taken}

-- The state `t` of a call that pinned page `q` in frame `f`, from the state `s`. At most one page
-- left the pool: one that could be evicted, and only where no frame was free.
pub record Pinned {D : Type 0} (s t : BufferPool D) (q f : ℕ) : Type 0 where
  pub valid : IsValid t
  pub in_pool : f < t.pool_size
  pub mapped : resident t q ≡ some f
  pub not_listed : count f t.free_list + count f t.lru_replacer ≡ 0
  pub size_eq : t.pool_size ≡ s.pool_size
  pub frames_eq : (g : ℕ) → g ≢ f → t.frames g ≡ s.frames g
  pub others :
      (g : ℕ)
      → g ≢ f
      → count g t.free_list + count g t.lru_replacer ≡ count g s.free_list + count g s.lru_replacer
  pub table_eq :
      (p : ℕ)
      → p ≢ q
      → (resident t p ≡ resident s p)
        ⊎ ((resident t p ≡ none) × (resident s p ≡ some f) × (s.free_list ≡ []))

module _ {D : Type 0} (s t : BufferPool D) (f q : ℕ) (p : Page) (d : DiskManager D)
    (taken : Taken s t f) (new : resident t q ≡ none) (named : p.page_id ≡ q) where
  abbrev pub installed : BufferPool D
  installed = record t {
    frames = update t.frames f p;
    page_table = insert ℕ_discrete q f t.page_table;
    disk = d;
  }

  resident_self : resident installed q ≡ some f
  resident_self = find-insert_self ℕ_discrete q f t.page_table

  resident_ne : (r : ℕ) → r ≢ q → resident installed r ≡ resident t r
  resident_ne r ne = find-insert_ne ℕ_discrete q r f t.page_table ne

  table_installed :
      (r g : ℕ)
      → resident installed r ≡ some g
      → (g < t.pool_size) × ((update t.frames f p g).page_id ≡ r)
  table_installed r g h = elim (ℕ_discrete r q) [
    | yes same ↦
        let e : some f ≡ some g = sym resident_self ∙ ap (resident installed) (sym same) ∙ h in
        rw (← some_injective f g e, eq→== f f refl) (taken.in_pool, named ∙ sym same)
    | no ne ↦
        let old : resident t r ≡ some g = sym (resident_ne r ne) ∙ h in
        rw (ne→== g f (λ e. taken.unmapped r (rw (← e) old))) (taken.valid.table_in r g old)
  ]

  lru_installed :
      (g : ℕ)
      → 0 < count g t.lru_replacer
      → (resident installed (update t.frames f p g).page_id ≡ some g)
        × ((update t.frames f p g).pin_count ≡ 0)
  lru_installed g h =
      let other : g ≢ f =
        λ e. absurd (omega (arith, taken.not_listed, ap (λ x. count x t.lru_replacer) e)) in
      let (old, idle) = taken.valid.lru_in g h in
      rw (ne→== g f other) (resident_ne _ (λ e. absurd (clash (rw e at old))) ∙ old, idle)
    where
      clash : {g : ℕ} → resident t q ≡ some g → ⊥
      clash e = cc

  free_installed :
      (g : ℕ)
      → 0 < count g t.free_list
      → (g < t.pool_size) × ((r : ℕ) → resident installed r ≢ some g)
  free_installed g h = (
    (taken.valid.free_in g h).0,
    λ r e. elim (ℕ_discrete r q) [
      | yes same ↦
          let two : some f ≡ some g = sym resident_self ∙ ap (resident installed) (sym same) ∙ e in
          absurd (
            omega (arith, taken.not_listed, ap (λ x. count x t.free_list) (some_injective f g two)))
      | no ne ↦ (taken.valid.free_in g h).1 r (sym (resident_ne r ne) ∙ e)
    ],
  )

  pub installed-Pinned : Pinned s installed q f
  installed-Pinned = record {
    valid = record {
      table_in = table_installed;
      free_in = free_installed;
      lru_in = lru_installed;
      once = taken.valid.once;
    };
    in_pool = taken.in_pool;
    mapped = resident_self;
    not_listed = taken.not_listed;
    size_eq = taken.size_eq;
    frames_eq = λ g ne. rw (ne→== g f ne) (ap (λ (fs : ℕ → Page). fs g) taken.frames_eq);
    others = taken.others;
    table_eq = λ r ne. rw (resident_ne r ne) (taken.table_eq r);
  }
