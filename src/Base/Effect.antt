-- ===== src/Base/Effect.antt =====
-- A stateful call of the program: it returns, it throws, or its behaviour is undefined.

-- The exceptions of the source: `std::runtime_error` by its message, `std::out_of_range` and `std::bad_alloc`.
pub data Error : Type 0 where
  open_failed ring_failed read_failed queue_full out_of_range out_of_memory : Error
  table_exists table_not_found insert_target_not_found column_not_found unsupported_statement :
      Error

-- `fault` is an access outside an object, a null pointer, a failed assertion, or a loop that did
-- not end within its fuel.
pub data Outcome (S A : Type 0) : Type 0 where
  done : A → S → Outcome S A
  thrown : Error → S → Outcome S A
  fault : Outcome S A

abbrev pub Eff : Type 0 → Type 0 → Type 0
Eff S A = S → Outcome S A

abbrev pub pure : {S A : Type 0} → A → Eff S A
pure a s = done a s

abbrev pub throw : {S A : Type 0} → Error → Eff S A
throw e s = thrown e s

abbrev pub crash : {S A : Type 0} → Eff S A
crash s = fault

abbrev pub get_state : {S : Type 0} → Eff S S
get_state s = done s s

abbrev pub put_state : {S : Type 0} → S → Eff S (Unit {0})
put_state s' s = done tt s'

abbrev pub bind : {S A B : Type 0} → Outcome S A → (A → Eff S B) → Outcome S B
bind (done a s) f = f a s
bind (thrown e s) f = thrown e s
bind fault f = fault

infixl 5 ◌>>=◌ ◌>>◌
abbrev pub ◌>>=◌ : {S A B : Type 0} → Eff S A → (A → Eff S B) → Eff S B
◌>>=◌ m f s = bind (m s) f

abbrev pub ◌>>◌ : {S B : Type 0} → Eff S (Unit {0}) → Eff S B → Eff S B
◌>>◌ m k s = bind (m s) (λ _. k)

-- The same call on a part of a larger state.
abbrev pub within : {S T A : Type 0} → S → (T → S) → Outcome T A → Outcome S A
within s back (done a t) = done a (back t)
within s back (thrown e t) = thrown e (back t)
within s back fault = fault

-- A call returns with `P` or throws with `T`: it never faults.
abbrev pub Ensures : {S A : Type 0} → Outcome S A → (A → S → Type 0) → (Error → S → Type 0) → Type 0
Ensures (done a s) P T = P a s
Ensures (thrown e s) P T = T e s
Ensures fault P T = ⊥

pub Ensures-bind :
    {S A B : Type 0} (o : Outcome S A) (f : A → Eff S B) (P : A → S → Type 0) (Q : B → S → Type 0)
    (T : Error → S → Type 0)
    → Ensures o P T
    → ((a : A) (s : S) → P a s → Ensures (f a s) Q T)
    → Ensures (bind o f) Q T
Ensures-bind (done a s) f P Q T h k = k a s h
Ensures-bind (thrown e s) f P Q T h k = h
Ensures-bind fault f P Q T h k = h

pub Ensures-weaken :
    {S A : Type 0} (o : Outcome S A) (P Q : A → S → Type 0) (T U : Error → S → Type 0)
    → Ensures o P T
    → ((a : A) (s : S) → P a s → Q a s)
    → ((e : Error) (s : S) → T e s → U e s)
    → Ensures o Q U
Ensures-weaken (done a s) P Q T U h k l = k a s h
Ensures-weaken (thrown e s) P Q T U h k l = l e s h
Ensures-weaken fault P Q T U h k l = h

-- A call on a part of the state.
pub Ensures-within :
    {S R A : Type 0} (s : S) (back : R → S) (o : Outcome R A) (P : A → S → Type 0)
    (T : Error → S → Type 0)
    → Ensures o (λ a t. P a (back t)) (λ e t. T e (back t))
    → Ensures (within s back o) P T
Ensures-within s back (done a t) P T h = h
Ensures-within s back (thrown e t) P T h = h
Ensures-within s back fault P T h = h

-- Two facts of one call.
pub Ensures-both :
    {S A : Type 0} (o : Outcome S A) (P Q : A → S → Type 0) (T U : Error → S → Type 0)
    → Ensures o P T
    → Ensures o Q U
    → Ensures o (λ a s. P a s × Q a s) (λ e s. T e s × U e s)
Ensures-both (done a s) P Q T U h k = (h, k)
Ensures-both (thrown e s) P Q T U h k = (h, k)
Ensures-both fault P Q T U h k = h

-- Where the call ends, by its return or by an exception.
abbrev pub Leaves : {S A : Type 0} → (S → Type 0) → Outcome S A → Type 0
Leaves P (done a s) = P s
Leaves P (thrown e s) = P s
Leaves P fault = Unit {0}

pub Leaves-bind :
    {S A B : Type 0} (P : S → Type 0) (o : Outcome S A) (f : A → Eff S B)
    → Leaves P o
    → ((a : A) (s : S) → P s → Leaves P (f a s))
    → Leaves P (bind o f)
Leaves-bind P (done a s) f h k = k a s h
Leaves-bind P (thrown e s) f h k = h
Leaves-bind P fault f h k = h

pub Leaves-within :
    {S R A : Type 0} (P : S → Type 0) (s : S) (back : R → S) (o : Outcome R A)
    → ((t : R) → P (back t))
    → Leaves P (within s back o)
Leaves-within P s back (done a t) h = h t
Leaves-within P s back (thrown e t) h = h t
Leaves-within P s back fault h = tt
