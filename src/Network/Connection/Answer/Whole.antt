-- ===== src/Network/Connection/Answer/Whole.antt =====
-- The answers beside the size of a connection's buffer.
use stingdb.Base.{
  ℕ, ◌≤◌, ◌≡◌, List, [], ◌∷◌, ◌++◌, arith, length, length-append, take, take_all, ap, subst, min,
  sym, ◌∙◌,
}
use stingdb.Base.Text.{codes, decimal, length-digits}
use stingdb.Base.Bytes.{load, store, load-store_self}
use stingdb.Base.Effect.{
  Error, open_failed, ring_failed, read_failed, queue_full, out_of_range, out_of_memory,
  table_exists, table_not_found, insert_target_not_found, column_not_found, unsupported_statement,
}
use stingdb.Network.Session.{Connection, max_length, writing, do_write_answer}
use stingdb.Network.Connection.{
  Response, table_created, row_inserted, unsupported, rows_selected, transaction_started, failed,
}
use stingdb.Network.Connection.Answer.{Texts, what, response_text}

module _ (texts : Texts) (range_fits : length texts.out_of_range_what ≤ 8000)
    (alloc_fits : length texts.bad_alloc_what ≤ 8000)
    (column_fits : length texts.column ≤ 8000) where
  length-what : (e : Error) → length (what texts e) ≤ 8100
  unfolding what
  length-what open_failed = omega arith
  length-what ring_failed = omega arith
  length-what read_failed = omega arith
  length-what queue_full = omega arith
  length-what out_of_range = omega arith
  length-what out_of_memory = omega arith
  length-what table_exists = omega arith
  length-what table_not_found = omega arith
  length-what insert_target_not_found = omega arith
  length-what column_not_found = omega (arith, length-append texts.column (codes "' not found."))
  length-what unsupported_statement = omega arith

  length-response_text : (response : Response) → length (response_text texts response) ≤ 8192
  unfolding response_text
  length-response_text table_created = omega arith
  length-response_text row_inserted = omega arith
  length-response_text unsupported = omega arith
  length-response_text (rows_selected n) = omega (
    arith,
    length-digits 20 n,
    length-append (decimal n) (codes " rows selected from 'users'." ++ b'\n' ∷ []),
  )
  length-response_text (transaction_started n) =
      omega (arith, length-digits 20 n, length-append (decimal n) (codes " started." ++ b'\n' ∷ []))
  length-response_text (failed e) =
      omega (arith, length-what e, length-append (what texts e) (b'\n' ∷ []))

  -- No answer is cut: the buffer of 8192 bytes, which DoWriteAnswer copies the text into, takes it whole.
  -- This needs messages of the standard library's exceptions, and a column's name, of at most 8000
  -- bytes each.
  pub do_write_answer-whole :
      (response : Response) (c : Connection)
      → let text = response_text texts response in
        let c' = do_write_answer text c in
        (c'.awaited ≡ writing (length text)) × (load c'.buffer 0 (length text) ≡ text)
  unfolding do_write_answer
  do_write_answer-whole response c = (
    ap writing whole,
    subst (λ m. load (store c.buffer 0 m) 0 (length text) ≡ text)
        (sym (ap (λ n. take n text) whole ∙ take_all (length text) text (omega arith)))
        (load-store_self c.buffer 0 text),
  )
    where
      text : List ℕ
      text = response_text texts response

      whole : min (length text) max_length ≡ length text
      whole = omega (arith, length-response_text response)
