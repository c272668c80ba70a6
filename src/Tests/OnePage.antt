-- ===== src/Tests/OnePage.antt =====
-- A pool of one frame with a page in it.
use native.Mathlib.Decide.{ℕ_discrete}
use stingdb.Base.{ℕ, ◌<◌, ◌≡◌, refl, sym, ◌∙◌, ap, false, [], none, some, arith, some_injective}
use stingdb.Base.Bytes.{Bytes, zeros}
use stingdb.Base.Table.{find, insert, find-insert_self, find-insert_ne}
use stingdb.Storage.BufferPool.{BufferPool}
use stingdb.Storage.BufferPool.Invariant.{resident}
use stingdb.Storage.BufferPool.Held.{Held}
use stingdb.Tests.Device.{Drive}

-- Page `q` in the only frame.
abbrev pub one_page : ℕ → Bytes → ℕ → BufferPool Drive
one_page q b n = record {
  pool_size = 1;
  frames = λ g. record { bytes = b; page_id = q; pin_count = n; is_dirty = false };
  page_table = insert ℕ_discrete q 0 [];
  lru_replacer = [];
  free_list = [];
  disk = record { device = record { pending = 0; file = zeros }; next_page_id = 0 };
}

one-resident :
    (q : ℕ) (b : Bytes) (n r f : ℕ) → resident (one_page q b n) r ≡ some f → (f < 1) × (q ≡ r)
unfolding find
one-resident q b n r f h = elim (ℕ_discrete r q) [
  | yes e ↦ (
    omega (
      arith,
      some_injective 0 f (
          sym (find-insert_self ℕ_discrete q 0 [])
          ∙ ap (λ k. resident (one_page q b n) k) (sym e)
          ∙ h),
    ),
    sym e,
  )
  | no ne ↦ absurd (nowhere (sym (find-insert_ne ℕ_discrete q r 0 [] ne) ∙ h))
]
  where
    nowhere : none ≡ some f → ⊥
    nowhere e = cc

pub one-Held : (q : ℕ) (b : Bytes) (n : ℕ) → Held q 0 n b (one_page q b n)
one-Held q b n = record {
  valid = record {
    table_in = λ r f h. one-resident q b n r f h;
    free_in = λ f h. absurd (omega (arith, h));
    lru_in = λ f h. absurd (omega (arith, h));
    once = λ f. ground arith;
  };
  mapped = find-insert_self ℕ_discrete q 0 [];
  pins = refl;
  holds = refl;
}
