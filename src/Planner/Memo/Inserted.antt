-- ===== src/Planner/Memo/Inserted.antt =====
-- What an insertion does to the memo.
use native.Mathlib.Decide.{ℕ_discrete}
use stingdb.Base.{
  ℕ, none, zero, suc, ◌+◌, ◌-◌, ◌%◌, ◌^◌, ◌≤◌, ◌<◌, ◌≡◌, ◌≢◌, ◌⊎◌, ne→==, eq→==, refl, sym, ◌∙◌, ap,
  List, [], ◌∷◌, ◌++◌, some, length, length-append, arith, Option-cases, some_injective, inl, inr,
}
use stingdb.Base.Effect.{done, Ensures}
use stingdb.Base.Table.{find, insert, find-insert_self, find-insert_ne}
use stingdb.Planner.Memo.{
  GroupExpression, Group, Memo, create, create_group, add_expression, add_to, assign,
  insert_expression,
}

-- Each expression of the map is under its hash, and belongs to a group of the memo.
pub record IsValid (m : Memo) : Type 0 where
  pub hashed : (h : ℕ) (e : GroupExpression) → find ℕ_discrete h m.expr_map ≡ some e → e.hash ≡ h
  pub grouped :
      (h : ℕ) (e : GroupExpression)
      → find ℕ_discrete h m.expr_map ≡ some e
      → (0 < e.target_group_id) × (e.target_group_id ≤ length m.groups)

pub create-IsValid : IsValid create
unfolding create find
create-IsValid = record { hashed = λ h e p. absurd (cc); grouped = λ h e p. absurd (cc) }

-- The group behind `before` gets the expression.
abbrev joined : GroupExpression → List Group → Group → List Group → List Group
joined expr before g behind =
    before ++ record g { logical_expressions = g.logical_expressions ++ expr ∷ [] } ∷ behind

add_to-behind :
    (expr : GroupExpression) (before : List Group) (g : Group) (behind : List Group)
    → add_to (length before) expr (before ++ g ∷ behind) ≡ some (joined expr before g behind)
unfolding add_to add_expression
add_to-behind expr [] g behind = refl
add_to-behind expr (b ∷ before) g behind = rw (add_to-behind expr before g behind) refl

length-joined :
    (expr : GroupExpression) (before : List Group) (g : Group) (behind : List Group)
    → length (joined expr before g behind) ≡ length (before ++ g ∷ behind)
length-joined expr [] g behind = refl
length-joined expr (b ∷ before) g behind =
    let same = length-joined expr before g behind in omega (arith, same)

-- An index in range has a group.
split_at :
    (i : ℕ) (gs : List Group)
    → i < length gs
    → (before : List Group) × (g : Group) × (behind : List Group) × (gs ≡ before ++ g ∷ behind)
      × (length before ≡ i)
split_at i [] h = absurd (omega arith)
split_at zero (g ∷ gs) h = ([], g, gs, refl, refl)
split_at (suc i) (x ∷ gs) h =
    let (before, g, behind, e, at) = split_at i gs (omega arith) in
    (x ∷ before, g, behind, ap (λ l. x ∷ l) e, omega (arith, at))

module _ (m : Memo) (v : IsValid m) (expr : GroupExpression) where
  abbrev pub placed : ℕ → GroupExpression
  placed gid = record expr { target_group_id = gid }

  -- The expression is alone in a new group behind the others, or is the last of group `target`; the
  -- other groups are as they were.
  abbrev pub Joins : ℕ → ℕ → Memo → Type 0
  Joins target gid m' =
      (target ≡ 0)
        × (gid ≡ length m.groups + 1)
        × (m'.groups ≡ m.groups ++ record { id = gid; logical_expressions = placed gid ∷ [] } ∷ [])
      ⊎ (target ≢ 0)
        × (gid ≡ target)
        × ((before : List Group) × (g : Group) × (behind : List Group) × (length before + 1 ≡ gid)
            × (m.groups ≡ before ++ g ∷ behind)
            × (m'.groups ≡ joined (placed gid) before g behind))

  -- What an insertion returns and leaves. The expression's hash leads to group `gid`, and so does every
  -- further insertion of that hash.
  abbrev pub Holds : ℕ → ℕ → Memo → Type 0
  Holds target gid m' =
      IsValid m'
      × ((e : GroupExpression) × (find ℕ_discrete expr.hash m'.expr_map ≡ some e)
          × (e.target_group_id ≡ gid))
      × ((other : GroupExpression) (target : ℕ)
          → other.hash ≡ expr.hash
          → insert_expression other target m' ≡ done gid m')
      × (((old : GroupExpression) × (find ℕ_discrete expr.hash m.expr_map ≡ some old)
            × (gid ≡ old.target_group_id)
            × (m' ≡ m))
          ⊎ (find ℕ_discrete expr.hash m.expr_map ≡ none) × Joins target gid m')

  again :
      (m' : Memo) (e : GroupExpression) (gid : ℕ)
      → find ℕ_discrete expr.hash m'.expr_map ≡ some e
      → e.target_group_id ≡ gid
      → (other : GroupExpression) (target : ℕ) → other.hash ≡ expr.hash
      → insert_expression other target m' ≡ done gid m'
  unfolding insert_expression
  again m' e gid there at other target same =
      rw (ap (λ h. find ℕ_discrete h m'.expr_map) same ∙ there, insert_expression)
        (ap (λ g. done g m') at)

  module _ (group : ℕ) (groups : List Group) (pos : 0 < group) (room : group ≤ length groups)
      (more : length m.groups ≤ length groups) where
    abbrev after : List Group → Memo
    after groups' = record {
      groups = groups';
      expr_map = insert ℕ_discrete expr.hash (placed group) m.expr_map;
    }

    after-IsValid : (gs : List Group) → length gs ≡ length groups → IsValid (after gs)
    after-IsValid gs same = record {
      hashed = λ h e p. elim (ℕ_discrete h expr.hash) [
        | yes is ↦ ap (λ (x : GroupExpression). x.hash) (self h e p is) ∙ sym is
        | no ne ↦
            v.hashed h e
              (sym (find-insert_ne ℕ_discrete expr.hash h (placed group) m.expr_map ne) ∙ p)
      ];
      grouped = λ h e p. elim (ℕ_discrete h expr.hash) [
        | yes is ↦
            let at = ap (λ (x : GroupExpression). x.target_group_id) (self h e p is) in
            (omega (arith, at), omega (arith, at, same))
        | no ne ↦
            let (lo, hi) =
              v.grouped h e
                (sym (find-insert_ne ℕ_discrete expr.hash h (placed group) m.expr_map ne) ∙ p) in
            (lo, omega (arith, hi, same))
      ];
    }
      where
        self :
            (h : ℕ) (e : GroupExpression)
            → find ℕ_discrete h (insert ℕ_discrete expr.hash (placed group) m.expr_map) ≡ some e
            → h ≡ expr.hash
            → e ≡ placed group
        self h e p is = some_injective e (placed group) (
            sym p
            ∙ ap (λ x. find ℕ_discrete x (after []).expr_map) is
            ∙ find-insert_self ℕ_discrete expr.hash (placed group) m.expr_map)

    assign-Holds :
        (target : ℕ) (gs : List Group)
        → add_to (group - 1) (placed group) groups ≡ some gs
        → length gs ≡ length groups
        → find ℕ_discrete expr.hash m.expr_map ≡ none
        → Joins target group (after gs)
        → Ensures (assign expr group groups m) (Holds target) (λ _ _. ⊥)
    unfolding assign
    assign-Holds target gs e same new joins =
        let there = find-insert_self ℕ_discrete expr.hash (placed group) m.expr_map in
        rw (e, assign)
          (
            after-IsValid gs same,
            (placed group, there, refl),
            again (after gs) (placed group) group there refl,
            inr (new, joins),
          )

  insert_new-Holds :
      find ℕ_discrete expr.hash m.expr_map ≡ none
      → length m.groups + 1 < 2 ^ 32
      → (gid : ℕ) → gid ≡ length m.groups + 1
      → Ensures (assign expr gid (m.groups ++ create_group gid ∷ []) m) (Holds 0) (λ _ _. ⊥)
  unfolding create_group
  insert_new-Holds new few gid is =
      let g : Group = record { id = gid; logical_expressions = [] } in
      let grown = length-append m.groups (g ∷ []) in
      assign-Holds gid (m.groups ++ g ∷ []) (omega (arith, is)) (omega (arith, grown, is))
        (omega (arith, grown)) 0 (joined (placed gid) m.groups g [])
        (ap (λ i. add_to i (placed gid) (m.groups ++ g ∷ [])) (omega (arith, is))
          ∙ add_to-behind (placed gid) m.groups g [])
        (length-joined (placed gid) m.groups g []) new (inl (refl, is, refl))

  insert_given-Holds :
      find ℕ_discrete expr.hash m.expr_map ≡ none
      → (target : ℕ) → target ≢ 0
      → target ≤ length m.groups
      → Ensures (assign expr target m.groups m) (Holds target) (λ _ _. ⊥)
  insert_given-Holds new target some_group known =
      let (before, g, behind, e, at) = split_at (target - 1) m.groups (omega (arith, some_group)) in
      let place : GroupExpression = placed target in
      assign-Holds target m.groups (omega (arith, some_group)) known (omega arith) target
        (joined place before g behind)
        (ap (λ i. add_to i place m.groups) (sym at)
          ∙ ap (λ gs. add_to (length before) place gs) e
          ∙ add_to-behind place before g behind)
        (length-joined place before g behind ∙ ap length (sym e)) new
        (inr (some_group, refl, (before, g, behind, omega (arith, at, some_group), e, refl)))

  -- `InsertExpression` of a valid memo, into no group or one that is there, ends in a valid memo. If
  -- the expression's hash is new, the expression, with the group's number, is alone in a new group or
  -- the last of the given one, and no other group changes; the number is returned. If the hash is known,
  -- whatever the expression is that had it, that one's group is returned, and nothing changes. From then
  -- on every insertion of an expression with that hash, also of another one, returns this group and
  -- changes nothing. This needs fewer than 2 ^ 32 - 1 groups.
  pub insert_expression-Holds :
      (target_group : ℕ)
      → target_group ≤ length m.groups
      → length m.groups + 1 < 2 ^ 32
      → Ensures (insert_expression expr target_group m) (Holds target_group) (λ _ _. ⊥)
  unfolding insert_expression
  insert_expression-Holds target_group known few =
      elim (Option-cases (find ℕ_discrete expr.hash m.expr_map)) [
        | inr (old, there) ↦
            rw (there, insert_expression)
              (
                v,
                (old, there, refl),
                again m old old.target_group_id there refl,
                inl (old, there, refl, refl),
              )
        | inl new ↦ elim (ℕ_discrete target_group 0) [
          | yes none_given ↦
              rw (new, insert_expression, eq→== target_group 0 none_given, none_given)
                (insert_new-Holds new few ((length m.groups + 1) % 2 ^ 32) (omega arith))
          | no given ↦
              rw (new, insert_expression, ne→== target_group 0 given)
                (insert_given-Holds new target_group given known)
        ]
      ]
