-- ===== src/Network/Reactor/Held.antt =====
-- Connections beside the sessions of their clients.
use stingdb.Base.{
  ℕ, zero, suc, ◌≡◌, refl, sym, ◌∙◌, true, List, [], ◌∷◌, ◌++◌, some, arith, length, get_elem?, set,
  take, min, length-take, take-min, subst, some_injective,
}
use stingdb.Base.Bytes.{store, load, load-store_self}
use stingdb.Network.Connection.Answer.{Texts, response_text}
use stingdb.Network.Session.{Connection, reading, writing, over, max_length, do_write_answer}
use stingdb.Network.Connection.{Response}
use stingdb.Network.Reactor.Sessions.{Session, waiting, ended, answering, sent_text}

-- A connection is where its client takes it to be; the answer that it writes is in its buffer.
abbrev pub Holds : Texts → Session → Connection → Type 0
Holds texts waiting c = (c.awaited ≡ reading) × (c.is_open ≡ true)
Holds texts ended c = c.awaited ≡ over
Holds texts (answering response) c =
    (len : ℕ) × (c.awaited ≡ writing len)
    × (load c.buffer 0 len ≡ sent_text texts response)
    × (c.is_open ≡ true)

abbrev pub AreHeld : Texts → List Session → List Connection → Type 0
AreHeld texts [] [] = Unit
AreHeld texts [] (c ∷ cs) = ⊥
AreHeld texts (s ∷ ss) [] = ⊥
AreHeld texts (s ∷ ss) (c ∷ cs) = Holds texts s c × AreHeld texts ss cs

writing_injective : (m n : ℕ) → writing m ≡ writing n → m ≡ n
writing_injective m n e = cc

module _ (texts : Texts) where
  pub AreHeld-get_elem? :
      (ss : List Session) (cs : List Connection) (i : ℕ) (c : Connection)
      → AreHeld texts ss cs
      → get_elem? cs i ≡ some c
      → (s : Session) × (get_elem? ss i ≡ some s) × Holds texts s c
  AreHeld-get_elem? [] [] i c h e = absurd (cc)
  AreHeld-get_elem? [] (d ∷ cs) i c h e = elim h [ ]
  AreHeld-get_elem? (s ∷ ss) [] i c h e = elim h [ ]
  AreHeld-get_elem? (s ∷ ss) (d ∷ cs) zero c h e =
      (s, refl, subst (Holds texts s) (some_injective d c e) (h.0))
  AreHeld-get_elem? (s ∷ ss) (d ∷ cs) (suc i) c h e = AreHeld-get_elem? ss cs i c (h.1) e

  pub AreHeld-session :
      (ss : List Session) (cs : List Connection) (i : ℕ) (s : Session)
      → AreHeld texts ss cs
      → get_elem? ss i ≡ some s
      → (c : Connection) × (get_elem? cs i ≡ some c) × Holds texts s c
  AreHeld-session [] [] i s h e = absurd (cc)
  AreHeld-session [] (d ∷ cs) i s h e = elim h [ ]
  AreHeld-session (t ∷ ss) [] i s h e = elim h [ ]
  AreHeld-session (t ∷ ss) (d ∷ cs) zero s h e =
      (d, refl, subst (λ x. Holds texts x d) (some_injective t s e) (h.0))
  AreHeld-session (t ∷ ss) (d ∷ cs) (suc i) s h e = AreHeld-session ss cs i s (h.1) e

  pub AreHeld-set :
      (ss : List Session) (cs : List Connection) (i : ℕ) (s : Session) (c : Connection)
      → AreHeld texts ss cs
      → Holds texts s c
      → AreHeld texts (set ss i s) (set cs i c)
  AreHeld-set [] [] i s c h k = h
  AreHeld-set [] (d ∷ cs) i s c h k = elim h [ ]
  AreHeld-set (t ∷ ss) [] i s c h k = elim h [ ]
  AreHeld-set (t ∷ ss) (d ∷ cs) zero s c h k = (k, h.1)
  AreHeld-set (t ∷ ss) (d ∷ cs) (suc i) s c h k = (h.0, AreHeld-set ss cs i s c (h.1) k)

  pub AreHeld-append :
      (ss : List Session) (cs : List Connection) (s : Session) (c : Connection)
      → AreHeld texts ss cs
      → Holds texts s c
      → AreHeld texts (ss ++ s ∷ []) (cs ++ c ∷ [])
  AreHeld-append [] [] s c h k = (k, tt)
  AreHeld-append [] (d ∷ cs) s c h k = elim h [ ]
  AreHeld-append (t ∷ ss) [] s c h k = elim h [ ]
  AreHeld-append (t ∷ ss) (d ∷ cs) s c h k = (h.0, AreHeld-append ss cs s c (h.1) k)

  -- The answer that a connection begins to write.
  pub do_write_answer-Holds :
      (response : Response) (c : Connection)
      → c.is_open ≡ true
      → Holds texts (answering response) (do_write_answer (response_text texts response) c)
  unfolding do_write_answer
  do_write_answer-Holds response c still = (
    min (length (response_text texts response)) max_length,
    refl,
    subst (λ n. load (store c.buffer 0 sent) 0 n ≡ sent)
          (length-take len (response_text texts response) ∙ min_idem)
          (load-store_self c.buffer 0 sent)
        ∙ take-min max_length (response_text texts response),
    still,
  )
    where
      len : ℕ
      len = min (length (response_text texts response)) max_length

      sent : List ℕ
      sent = take len (response_text texts response)

      min_idem : min (length (response_text texts response)) len ≡ len
      min_idem = omega arith

  pub Holds-reading :
      (s : Session) (c : Connection)
      → Holds texts s c
      → c.awaited ≡ reading
      → (s ≡ waiting) × (c.is_open ≡ true)
  Holds-reading waiting c h e = (refl, h.1)
  Holds-reading ended c h e = absurd (cc)
  Holds-reading (answering response) c (len, is_writing, same, still) e = absurd (cc)

  pub Holds-writing :
      (s : Session) (c : Connection) (len : ℕ)
      → Holds texts s c
      → c.awaited ≡ writing len
      → (response : Response) × (s ≡ answering response)
        × (load c.buffer 0 len ≡ sent_text texts response)
        × (c.is_open ≡ true)
  Holds-writing waiting c len h e = cc
  Holds-writing ended c len h e = cc
  Holds-writing (answering response) c len (m, is_writing, same, still) e = (
    response,
    refl,
    subst (λ n. load c.buffer 0 n ≡ sent_text texts response)
        (writing_injective m len (sym is_writing ∙ e)) same,
    still,
  )
