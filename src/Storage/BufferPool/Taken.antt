-- ===== src/Storage/BufferPool/Taken.antt =====
-- A frame that is free or was evicted, and what the call that took it kept.
use native.Mathlib.Decide.{ℕ_discrete}
use stingdb.Base.{
  ℕ, ◌+◌, ◌<◌, ◌≡◌, ◌≢◌, refl, sym, ◌∙◌, ap, ◌⊎◌, inl, inr, List, [], ◌∷◌, none, some, ◌==◌,
  if◌then◌else◌, count, arith, some_injective,
}
use stingdb.Base.Effect.{Error}
use stingdb.Base.Table.{erase, find-erase_self, find-erase_ne}
use stingdb.Storage.Disk.{DiskManager}
use stingdb.Storage.BufferPool.{BufferPool, split_last}
use stingdb.Storage.BufferPool.Frames.{count-split_last}
use stingdb.Storage.BufferPool.Invariant.{resident, IsValid}

-- The state `t` of a call that took frame `f` from the state `s`.
pub record Taken {D : Type 0} (s t : BufferPool D) (f : ℕ) : Type 0 where
  pub valid : IsValid t
  pub in_pool : f < t.pool_size
  pub not_listed : count f t.free_list + count f t.lru_replacer ≡ 0
  pub unmapped : (q : ℕ) → resident t q ≢ some f
  pub size_eq : t.pool_size ≡ s.pool_size
  pub frames_eq : t.frames ≡ s.frames
  pub next_eq : t.disk.next_page_id ≡ s.disk.next_page_id
  pub others :
      (g : ℕ)
      → g ≢ f
      → count g t.free_list + count g t.lru_replacer ≡ count g s.free_list + count g s.lru_replacer
  pub table_eq :
      (q : ℕ)
      → (resident t q ≡ resident s q)
        ⊎ ((resident t q ≡ none) × (resident s q ≡ some f) × (s.free_list ≡ []))

-- What a call that threw leaves.
abbrev pub Aborted : {D : Type 0} → Error → BufferPool D → Type 0
Aborted e t = IsValid t

module _ {D : Type 0} (s : BufferPool D) (v : IsValid s) where
  pub free-Taken :
      (f : ℕ) (fs : List ℕ) → s.free_list ≡ f ∷ fs → Taken s (record s { free_list = fs }) f
  free-Taken f fs e = record {
    valid = record {
      table_in = v.table_in;
      free_in = λ g h. v.free_in g (rw e (omega arith));
      lru_in = v.lru_in;
      once = λ g. omega (arith, v.once g, ap (count g) e);
    };
    in_pool = (v.free_in f head).0;
    not_listed = ground (arith, v.once f, ap (count f) e);
    unmapped = (v.free_in f head).1;
    size_eq = refl;
    frames_eq = refl;
    next_eq = refl;
    others = λ g ne. ground (arith, ap (count g) e);
    table_eq = λ q. inl refl;
  }
    where
      head : 0 < count f s.free_list
      head = rw e (ground arith)

  abbrev pub evicted : ℕ → List ℕ → DiskManager D → BufferPool D
  evicted f front d = record s {
    lru_replacer = front;
    disk = d;
    page_table = erase ℕ_discrete (s.frames f).page_id s.page_table;
  }

  module _ (g : ℕ) (gs : List ℕ) (no_free : s.free_list ≡ []) (e : s.lru_replacer ≡ g ∷ gs)
      (d : DiskManager D) (next : d.next_page_id ≡ s.disk.next_page_id) where
    abbrev pub victim : ℕ
    victim = (split_last g gs).0

    abbrev pub front : List ℕ
    front = (split_last g gs).1

    counts : (x : ℕ) → count x s.lru_replacer ≡ (if victim == x then 1 else 0) + count x front
    counts x = rw e (count-split_last x g gs)

    pub victim_listed : 0 < count victim s.lru_replacer
    victim_listed = ground (arith, counts victim)

    victim_gone : count victim front ≡ 0
    victim_gone = ground (arith, counts victim, v.once victim)

    resident_kept :
        (q : ℕ) → q ≢ (s.frames victim).page_id → resident (evicted victim front d) q ≡ resident s q
    resident_kept q ne = find-erase_ne ℕ_discrete (s.frames victim).page_id q s.page_table ne

    resident_gone : resident (evicted victim front d) (s.frames victim).page_id ≡ none
    resident_gone = find-erase_self ℕ_discrete (s.frames victim).page_id s.page_table

    -- Nothing else was mapped to the victim.
    resident-victim : (q : ℕ) → resident s q ≡ some victim → q ≡ (s.frames victim).page_id
    resident-victim q h = sym (v.table_in q victim h).1

    resident_kept_some :
        (q f : ℕ) → resident (evicted victim front d) q ≡ some f → resident s q ≡ some f
    resident_kept_some q f h = elim (ℕ_discrete q (s.frames victim).page_id) [
      | yes same ↦
          let none_left : resident (evicted victim front d) q ≡ none = rw same resident_gone in
          absurd (cc)
      | no ne ↦ sym (resident_kept q ne) ∙ h
    ]

    unmapped_victim : (q : ℕ) → resident (evicted victim front d) q ≢ some victim
    unmapped_victim q h =
        let same = resident-victim q (resident_kept_some q victim h) in
        let none_left : resident (evicted victim front d) q ≡ none = rw same resident_gone in cc

    -- A frame that stays on the list keeps its page.
    lru_kept :
        (f : ℕ)
        → 0 < count f front
        → (resident (evicted victim front d) (s.frames f).page_id ≡ some f)
          × ((s.frames f).pin_count ≡ 0)
    lru_kept f h =
        let (mapped, idle) = v.lru_in f (omega (arith, counts f)) in
        (
          resident_kept (s.frames f).page_id (λ same.
                let as_victim = (v.lru_in victim victim_listed).0 in
                let two : some f ≡ some victim = sym mapped ∙ rw same as_victim in
                absurd (
                  omega
                    (arith, victim_gone, ap (λ x. count x front) (some_injective f victim two))))
              ∙ mapped,
          idle,
        )

    pub evicted-IsValid : IsValid (evicted victim front d)
    evicted-IsValid = record {
      table_in = λ q f h. v.table_in q f (resident_kept_some q f h);
      free_in = λ f h. absurd (omega (arith, ap (count f) no_free));
      lru_in = lru_kept;
      once = λ f. omega (arith, v.once f, counts f);
    }

    pub evicted-Taken : Taken s (evicted victim front d) victim
    evicted-Taken = record {
      valid = evicted-IsValid;
      in_pool = (v.table_in _ victim (v.lru_in victim victim_listed).0).0;
      not_listed = omega (arith, victim_gone, ap (count victim) no_free);
      unmapped = unmapped_victim;
      size_eq = refl;
      frames_eq = refl;
      next_eq = next;
      others = λ f ne. ground (arith, counts f);
      table_eq = λ q. elim (ℕ_discrete q (s.frames victim).page_id) [
        | yes same ↦ inr (rw same resident_gone, rw same (v.lru_in victim victim_listed).0, no_free)
        | no ne ↦ inl (resident_kept q ne)
      ];
    }

    -- Popped from the list but not yet out of the page table: what a refused write leaves.
    pub popped-IsValid : IsValid (record s { lru_replacer = front; disk = d })
    popped-IsValid = record {
      table_in = v.table_in;
      free_in = v.free_in;
      lru_in = λ f h. v.lru_in f (omega (arith, counts f));
      once = λ f. omega (arith, v.once f, counts f);
    }
