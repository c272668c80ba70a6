-- ===== src/Network/Connection/Answer/Read.antt =====
-- The numbers in the answers, read back.
use stingdb.Base.{ℕ, ◌^◌, ◌<◌, ◌≡◌, refl, ◌∙◌, List, [], ◌∷◌, ◌++◌, drop, false}
use stingdb.Base.Text.{codes, number, is_digit, number-digits}
use stingdb.Network.Connection.{rows_selected, transaction_started}
use stingdb.Network.Connection.Answer.{Texts, response_text}

-- No digit follows the numbers.
number_then : (n c : ℕ) (cs : List ℕ) → is_digit c ≡ false → number n (c ∷ cs) ≡ n
unfolding number
number_then n c cs none = rw none refl

-- A client that reads the digits behind "Success: " of an answer to SELECT, up to the first character
-- that is none, has the number of rows, and one that reads those behind "Success: Transaction " of an
-- answer to BEGIN has the number of the transaction. This holds for every number below 10 ^ 20, and so
-- for every number of 64 bits.
pub response_text-number :
    (texts : Texts) (n : ℕ)
    → n < 10 ^ 20
    → (number 0 (drop 9 (response_text texts (rows_selected n))) ≡ n)
      × (number 0 (drop 21 (response_text texts (transaction_started n))) ≡ n)
unfolding response_text
response_text-number texts n small = (
  number-digits 20 n (codes " rows selected from 'users'." ++ b'\n' ∷ []) small
      ∙ number_then n b' ' _ refl,
  number-digits 20 n (codes " started." ++ b'\n' ∷ []) small ∙ number_then n b' ' _ refl,
)
