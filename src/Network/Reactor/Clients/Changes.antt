-- ===== src/Network/Reactor/Clients/Changes.antt =====
-- The answers to one client, event by event.
use native.Mathlib.Decide.{ℕ_discrete}
use mathlib.Core.List.{append_assoc, append-nil}
use stingdb.Base.{
  ℕ, zero, suc, ◌≤◌, ◌≡◌, ◌≢◌, refl, sym, ◌∙◌, ap, true, false, List, [], ◌∷◌, ◌++◌, Option, none,
  some, arith, length, get_elem?, set, get_elem?-set_self, get_elem?-set_ne, get_elem?-lt,
  get_elem?-append_left, eq→==, ne→==, subst, some_injective, ap₂,
}
use stingdb.Network.Connection.Server.{reply, statement_of}
use stingdb.Network.Connection.Answer.{Texts}
use stingdb.Network.Reactor.{Event, accepted, was_read, was_written}
use stingdb.Network.Reactor.Sessions.{
  Session, Sessions, waiting, ended, answering, sent_text, serve, serve_all, IsTurn, AreTurns,
}
use stingdb.Network.Reactor.Clients.{answer_to, answers_to, receipt, receipts, IsAllButLast}

-- The answer on its way to a client.
abbrev pending : Texts → Option Session → List (List ℕ)
pending texts (some (answering response)) = sent_text texts response ∷ []
pending texts _ = []

-- What an event is for one client, by the answers on their way before and after.
data Change (before after answer received : List (List ℕ)) (is_gone : Type 0) : Type 0 where
  steady :
      after ≡ before → answer ≡ [] → received ≡ [] → Change before after answer received is_gone
  asks : before ≡ [] → after ≡ answer → received ≡ [] → Change before after answer received is_gone
  gets : after ≡ [] → answer ≡ [] → received ≡ before → Change before after answer received is_gone
  loses :
      length before ≤ 1
      → after ≡ []
      → answer ≡ []
      → received ≡ []
      → is_gone
      → Change before after answer received is_gone

module _ (texts : Texts) (i : ℕ) where
  abbrev ChangeBy : Event → Sessions → Type 0
  ChangeBy e a =
      Change (pending texts (get_elem? a.sessions i))
        (pending texts (get_elem? (serve texts e a).1.sessions i)) (answer_to texts i e a)
        (receipt i e (serve texts e a).0) (get_elem? (serve texts e a).1.sessions i ≡ some ended)

  pending-append :
      (ss : List Session) (j : ℕ)
      → pending texts (get_elem? (ss ++ waiting ∷ []) j) ≡ pending texts (get_elem? ss j)
  pending-append [] zero = refl
  pending-append [] (suc j) = refl
  pending-append (s ∷ ss) zero = refl
  pending-append (s ∷ ss) (suc j) = pending-append ss j

  -- An event of another client.
  change_other :
      (ss : List Session) (j : ℕ) (s : Session)
      → j ≢ i
      → pending texts (get_elem? (set ss j s) i) ≡ pending texts (get_elem? ss i)
  change_other ss j s ne = ap (pending texts) (get_elem?-set_ne ss j i s ne)

  change_same :
      (ss : List Session) (j : ℕ) (s t : Session)
      → j ≡ i
      → get_elem? ss j ≡ some s
      → (get_elem? ss i ≡ some s) × (get_elem? (set ss j t) i ≡ some t)
  change_same ss j s t e at = (
    subst (λ k. get_elem? ss k ≡ some s) e at,
    subst (λ k. get_elem? (set ss j t) k ≡ some t) e
        (get_elem?-set_self ss j t (get_elem?-lt ss j s at)),
  )

  change : (e : Event) (a : Sessions) → IsTurn e a → ChangeBy e a
  unfolding serve
  change (accepted true) a turn = steady refl refl refl
  change (accepted false) a turn = steady (pending-append a.sessions i) refl refl
  change (was_read j true query) a (waits, fits) = elim (ℕ_discrete j i) [
    | yes e ↦
        let (before, after) = change_same a.sessions j waiting ended e waits in
        steady (rw (before, after) refl) refl refl
    | no ne ↦ steady (change_other a.sessions j ended ne) refl refl
  ]
  change (was_read j false query) a (waits, fits) =
      let response = (reply (statement_of query) a.server).0 in
      elim (ℕ_discrete j i) [
        | yes e ↦
            let (before, after) = change_same a.sessions j waiting (answering response) e waits in
            asks (rw before refl) (rw (after, eq→== j i e) refl) refl
        | no ne ↦
            steady (change_other a.sessions j (answering response) ne) (rw (ne→== j i ne) refl) refl
      ]
  change (was_written j true) a (response, at) = elim (ℕ_discrete j i) [
    | yes e ↦
        let (before, after) = change_same a.sessions j (answering response) ended e at in
        loses (rw before (omega arith)) (rw (at, serve, after) refl) refl refl
          (rw (at, serve) after)
    | no ne ↦ steady (rw (at, serve) (change_other a.sessions j ended ne)) refl refl
  ]
  change (was_written j false) a (response, at) = elim (ℕ_discrete j i) [
    | yes e ↦
        let (before, after) = change_same a.sessions j (answering response) waiting e at in
        gets (rw (at, serve, after) refl) refl (rw (at, serve, eq→== j i e, before) refl)
    | no ne ↦
        steady (rw (at, serve) (change_other a.sessions j waiting ne)) refl (rw (ne→== j i ne) refl)
  ]

  -- A client that is gone takes no more turns.
  another :
      (ss : List Session) (j : ℕ) (s : Session)
      → s ≢ ended
      → get_elem? ss j ≡ some s
      → get_elem? ss i ≡ some ended
      → j ≢ i
  another ss j s ne at gone e =
      ne (some_injective s ended (sym (subst (λ k. get_elem? ss k ≡ some s) e at) ∙ gone))

  gone_stays :
      (e : Event) (a : Sessions)
      → IsTurn e a
      → get_elem? a.sessions i ≡ some ended
      → (answer_to texts i e a ≡ []) × (get_elem? (serve texts e a).1.sessions i ≡ some ended)
  unfolding serve
  gone_stays (accepted true) a turn gone = (refl, gone)
  gone_stays (accepted false) a turn gone = (
    refl,
    get_elem?-append_left a.sessions (waiting ∷ []) i (get_elem?-lt a.sessions i ended gone) ∙ gone,
  )
  gone_stays (was_read j true query) a (waits, fits) gone = (
    refl,
    get_elem?-set_ne a.sessions j i ended (another a.sessions j waiting (λ e. cc) waits gone)
        ∙ gone,
  )
  gone_stays (was_read j false query) a (waits, fits) gone =
      let ne : j ≢ i = another a.sessions j waiting (λ e. cc) waits gone in
      (rw (ne→== j i ne) refl, get_elem?-set_ne a.sessions j i _ ne ∙ gone)
  gone_stays (was_written j failed) a (response, at) gone =
      let ne : j ≢ i = another a.sessions j (answering response) (λ e. cc) at gone in
      (refl, rw (at, serve) (get_elem?-set_ne a.sessions j i _ ne ∙ gone))

  gone-answers_to :
      (events : List Event) (a : Sessions)
      → AreTurns texts events a
      → get_elem? a.sessions i ≡ some ended
      → answers_to texts i events a ≡ []
  unfolding answers_to
  gone-answers_to [] a turns gone = refl
  gone-answers_to (e ∷ events) a (turn, turns) gone =
      let (none_now, still) = gone_stays e a turn gone in
      ap₂ ◌++◌ none_now (gone-answers_to events (serve texts e a).1 turns still)

left_nil : {A : Type 0} (xs ys : List A) → xs ++ ys ≡ [] → xs ≡ []
left_nil [] ys e = refl
left_nil (x ∷ xs) ys e = cc

-- One event more.
IsAllButLast-Change :
    {before after answer received : List (List ℕ)} {is_gone : Type 0} (xs ys : List (List ℕ))
    → Change before after answer received is_gone
    → (is_gone → xs ≡ [])
    → IsAllButLast (after ++ xs) ys
    → IsAllButLast (before ++ (answer ++ xs)) (received ++ ys)
IsAllButLast-Change xs ys (steady e f g) none_after (rest, same, few) =
    rw (← e, f, g) (rest, same, few)
IsAllButLast-Change xs ys (asks e f g) none_after (rest, same, few) =
    rw (e, ← f, g) (rest, same, few)
IsAllButLast-Change {before} {after} xs ys (gets e f g) none_after (rest, same, few) =
    rw (f, g)
      (
        rest,
        ap (◌++◌ before) (ap (λ l. l ++ xs) (sym e) ∙ same) ∙ sym (append_assoc before ys rest),
        few,
      )
IsAllButLast-Change {before} {after} xs ys (loses few_before e f g gone) none_after
      (rest, same, few) =
    let over : xs ≡ [] = none_after gone in
    let none_got : ys ≡ [] = left_nil ys rest (sym same ∙ ap₂ ◌++◌ e over) in
    rw (f, g, over, none_got) (before, append-nil before, few_before)

module _ (texts : Texts) (i : ℕ) where
  pending_first : (o : Option Session) → IsAllButLast (pending texts o ++ []) []
  pending_first none = ([], refl, omega arith)
  pending_first (some waiting) = ([], refl, omega arith)
  pending_first (some ended) = ([], refl, omega arith)
  pending_first (some (answering response)) = (_, refl, omega arith)

  pub answers_to-receipts :
      (events : List Event) (a : Sessions)
      → AreTurns texts events a
      → IsAllButLast
          (pending texts (get_elem? a.sessions i) ++ answers_to texts i events a)
          (receipts i events (serve_all texts events a).0)
  unfolding answers_to receipts serve_all
  answers_to-receipts [] a turns = pending_first (get_elem? a.sessions i)
  answers_to-receipts (e ∷ events) a (turn, turns) =
      IsAllButLast-Change (answers_to texts i events (serve texts e a).1)
        (receipts i events (serve_all texts events (serve texts e a).1).0) (change texts i e a turn)
        (gone-answers_to texts i events (serve texts e a).1 turns)
        (answers_to-receipts events (serve texts e a).1 turns)
