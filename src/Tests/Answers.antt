-- ===== src/Tests/Answers.antt =====
-- The texts of answers.
use stingdb.Base.{◌≡◌, [], ◌∷◌, ◌++◌, arith}
use stingdb.Base.Bytes.{load}
use stingdb.Base.Text.{codes, number, digits}
use stingdb.Base.Effect.{table_exists}
use stingdb.Network.Connection.{failed}
use stingdb.Network.Connection.Answer.{Texts, response_text}
use stingdb.Network.Connection.Answer.Read.{response_text-number}
use stingdb.Network.Connection.Answer.Whole.{do_write_answer-whole}
use stingdb.Network.Session.{start, writing, do_write_answer}

abbrev library_texts : Texts
library_texts = record {
  out_of_range_what = codes "vector::_M_range_check";
  bad_alloc_what = codes "std::bad_alloc";
  column = codes "age";
}

response_text-number_example :
    (number 0 (codes "31 rows selected from 'users'." ++ b'\n' ∷ []) ≡ 31)
    × (number 0 (codes "31 started." ++ b'\n' ∷ []) ≡ 31)
unfolding response_text number digits
response_text-number_example = response_text-number library_texts 31 (omega arith)

do_write_answer-whole_example :
    ((do_write_answer (response_text library_texts (failed table_exists)) start).awaited
      ≡ writing 35)
    × (load (do_write_answer (response_text library_texts (failed table_exists)) start).buffer 0 35
        ≡ (codes "Error: Table already exists: users" ++ b'\n' ∷ []))
unfolding response_text
do_write_answer-whole_example =
    do_write_answer-whole library_texts (omega arith) (omega arith) (omega arith)
      (failed table_exists) start
