-- ===== src/Catalog/CatalogManager/Tables.antt =====
-- The tables of a catalog.
use native.Mathlib.Decide.{ℕ_discrete}
use stingdb.Base.{
  ℕ, ◌+◌, ◌%◌, ◌^◌, ◌≤◌, ◌<◌, ◌≡◌, ◌≢◌, refl, sym, ◌∙◌, ap, Option, none, some, arith, Option-cases,
  some_injective, inl, inr,
}
use stingdb.Base.Effect.{
  Error, done, Ensures, Ensures-bind, Ensures-weaken, table_exists, unsupported_statement,
}
use stingdb.Base.Table.{find, insert, find-insert_self, find-insert_ne}
use stingdb.Storage.Page.{invalid_page_id}
use stingdb.Catalog.Schema.{Name, name_discrete, Schema, create_schema}
use stingdb.Catalog.CatalogManager.{
  TableInfo, CatalogManager, create, emplace, add_table, create_table, get_table_named, Statement,
  bind_create_table, bind_statement, create_statement, insert_statement, select_statement,
}

-- Every name leads to a table of that name, and numbers from the next one on are not in use.
pub record IsValid (m : CatalogManager) : Type 0 where
  pub named :
      (n : Name) (id : ℕ)
      → find name_discrete n m.table_names ≡ some id
      → (t : TableInfo) × (find ℕ_discrete id m.tables ≡ some t) × (t.name ≡ n)
  pub unused : (id : ℕ) → m.next_table_id ≤ id → find ℕ_discrete id m.tables ≡ none

abbrev pub found_by : CatalogManager → Option ℕ → Option TableInfo
found_by m none = none
found_by m (some id) = find ℕ_discrete id m.tables

-- The table of a name.
abbrev pub lookup : CatalogManager → Name → Option TableInfo
lookup m n = found_by m (find name_discrete n m.table_names)

module _ (m : CatalogManager) (v : IsValid m) (n : Name) (schema : Schema) (page : ℕ) where
  abbrev pub made : TableInfo
  made = record { id = m.next_table_id; name = n; schema = schema; first_page_id = page }

  abbrev next : CatalogManager
  next = record {
    next_table_id = (m.next_table_id + 1) % 2 ^ 32;
    tables = insert ℕ_discrete m.next_table_id made m.tables;
    table_names = insert name_discrete n m.next_table_id m.table_names;
  }

  next-unused :
      (id : ℕ) (t : TableInfo) → find ℕ_discrete id m.tables ≡ some t → id ≢ m.next_table_id
  next-unused id t e same = absurd (clash (v.unused id (omega (arith, same))))
    where
      clash : find ℕ_discrete id m.tables ≡ none → ⊥
      clash f = cc

  next-IsValid : m.next_table_id + 1 < 2 ^ 32 → IsValid next
  next-IsValid room = record {
    named = λ k id e. elim (name_discrete k n) [
      | yes same ↦ (
        made,
        ap (λ i. find ℕ_discrete i next.tables) (new_id k id e same)
            ∙ find-insert_self ℕ_discrete m.next_table_id made m.tables,
        sym same,
      )
      | no ne ↦
          let (t, there, is) =
            v.named k id
              (sym (find-insert_ne name_discrete n k m.next_table_id m.table_names ne) ∙ e) in
          (
            t,
            find-insert_ne ℕ_discrete m.next_table_id id made m.tables (next-unused id t there)
                ∙ there,
            is,
          )
    ];
    unused = λ id h.
        find-insert_ne ℕ_discrete m.next_table_id id made m.tables (λ e. absurd (omega arith))
        ∙ v.unused id (omega arith);
  }
    where
      new_id :
          (k : Name) (id : ℕ)
          → find name_discrete k next.table_names ≡ some id
          → k ≡ n
          → id ≡ m.next_table_id
      new_id k id e same = some_injective id m.next_table_id (
          sym e
          ∙ ap (λ x. find name_discrete x next.table_names) same
          ∙ find-insert_self name_discrete n m.next_table_id m.table_names)

  lookup_new : lookup next n ≡ some made
  lookup_new =
      ap (found_by next) (find-insert_self name_discrete n m.next_table_id m.table_names)
      ∙ find-insert_self ℕ_discrete m.next_table_id made m.tables

  lookup_old : (k : Name) → k ≢ n → lookup next k ≡ lookup m k
  lookup_old k ne =
      ap (found_by next) (find-insert_ne name_discrete n k m.next_table_id m.table_names ne)
      ∙ same_table (find name_discrete k m.table_names) (v.named k)
    where
      same_table :
          (r : Option ℕ)
          → ((id : ℕ)
              → r ≡ some id
              → (t : TableInfo) × (find ℕ_discrete id m.tables ≡ some t) × (t.name ≡ k))
          → found_by next r ≡ found_by m r
      same_table none h = refl
      same_table (some id) h =
          let (t, there, _) = h id refl in
          find-insert_ne ℕ_discrete m.next_table_id id made m.tables (next-unused id t there)

  add_table_eq : add_table n schema page m ≡ done m.next_table_id next
  unfolding add_table emplace
  add_table_eq = rw (v.unused m.next_table_id (omega arith), emplace, add_table) refl

  -- `CreateTable` adds a table to a valid catalog and returns it; every other name stays as it is.
  -- A name that is taken is refused, and then nothing changes. This needs a table number that does
  -- not wrap.
  pub create_table-lookup :
      m.next_table_id + 1 < 2 ^ 32
      → Ensures
          (create_table n schema page m)
          (λ id m'.
            (lookup m n ≡ none)
            × IsValid m'
            × (lookup m' n ≡ some made)
            × (find ℕ_discrete id m'.tables ≡ some made)
            × ((k : Name) → k ≢ n → lookup m' k ≡ lookup m k))
          (λ e m'. (m' ≡ m) × (e ≡ table_exists) × (lookup m n ≢ none))
  unfolding create_table
  create_table-lookup room = elim (Option-cases (find name_discrete n m.table_names)) [
    | inl e ↦
        rw (e, create_table, add_table_eq)
          (
            refl,
            next-IsValid room,
            lookup_new,
            find-insert_self ℕ_discrete m.next_table_id made m.tables,
            lookup_old,
          )
    | inr (id, e) ↦
        let (t, there, _) = v.named n id e in
        rw (e, create_table) (refl, refl, λ z. absurd (clash id t there z))
  ]
    where
      clash :
          (id : ℕ) (t : TableInfo)
          → find ℕ_discrete id m.tables ≡ some t
          → find ℕ_discrete id m.tables ≡ none
          → ⊥
      clash id t a b = cc

-- `GetTable` by name on a valid catalog returns the table of the name, or null where there is none;
-- it does not throw and changes nothing.
pub get_table_named-lookup :
    (m : CatalogManager)
    → IsValid m
    → (n : Name)
    → (r : Option ℕ) × (get_table_named n m ≡ done r m)
      × (found_by m r ≡ lookup m n)
      × (r ≡ none → lookup m n ≡ none)
unfolding get_table_named
get_table_named-lookup m v n = elim (Option-cases (find name_discrete n m.table_names)) [
  | inl e ↦ (none, rw (e, get_table_named) refl, rw e refl, λ _. rw e refl)
  | inr (id, e) ↦
      let (t, there, _) = v.named n id e in
      (some id, rw (e, get_table_named, there) refl, rw e refl, λ z. absurd (cc))
]

pub create-IsValid : IsValid create
unfolding create find
create-IsValid = record { named = λ n id e. absurd (cc); unused = λ id h. refl }

-- What a statement has done to the tables.
abbrev pub Binds : CatalogManager → CatalogManager → Statement → Type 0
Binds m m' (create_statement n cols) =
    (lookup m n ≡ none)
    × (lookup m' n
        ≡ some (record {
          id = m.next_table_id;
          name = n;
          schema = create_schema cols;
          first_page_id = 0xffff_ffff;
        }))
    × ((k : Name) → k ≢ n → lookup m' k ≡ lookup m k)
Binds m m' insert_statement = ⊥
Binds m m' select_statement = ⊥

-- Why a statement is refused.
abbrev pub IsRefused : CatalogManager → Statement → Error → Type 0
IsRefused m (create_statement n cols) e = (e ≡ table_exists) × (lookup m n ≢ none)
IsRefused m insert_statement e = e ≡ unsupported_statement
IsRefused m select_statement e = e ≡ unsupported_statement

-- Binding `CREATE TABLE` on a valid catalog returns if the name is new, and has then made a table with
-- the statement's columns laid out and no first page, and kept the table of every other name; it throws
-- that the table exists if the name is taken, and only then. Every other statement is refused as not
-- supported. On a throw nothing changes. This needs a table number that does not wrap.
pub bind_statement-lookup :
    (m : CatalogManager)
    → IsValid m
    → m.next_table_id + 1 < 2 ^ 32
    → (stmt : Statement)
    → Ensures
        (bind_statement stmt m)
        (λ _ m'. IsValid m' × Binds m m' stmt)
        (λ e m'. (m' ≡ m) × IsRefused m stmt e)
unfolding bind_statement bind_create_table
bind_statement-lookup m v room insert_statement = (refl, refl)
bind_statement-lookup m v room select_statement = (refl, refl)
bind_statement-lookup m v room (create_statement n cols) =
    let call = create_table n (create_schema cols) invalid_page_id m in
    Ensures-bind call _ _ _ _
      (Ensures-weaken call _ _ _ (λ e m'. (m' ≡ m) × IsRefused m (create_statement n cols) e)
        (create_table-lookup m v n (create_schema cols) invalid_page_id room) (λ id m' w. w)
        (λ e m' (same, why, taken). (same, (why, taken))))
      (λ id m' (fresh, valid, there, _, others). (valid, (fresh, there, others)))
