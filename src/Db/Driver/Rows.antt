-- ===== src/Db/Driver/Rows.antt =====
-- A query answers all its rows or an error.
use mathlib.Core.List.{append_assoc, append-nil}
use carbmq_core.Base.{List, [], ◌∷◌, ◌++◌, Option, none, some, ◌≡◌, refl, sym, ap, ◌∙◌, map}
use carbmq_core.Errors.{Error, Result, ok, err}
use carbmq_core.Db.Tables.{Message}
use carbmq_core.Db.Driver.{scan_messages, query_rows}

scan_messages_all :
    (rows : List (Result Message)) (last : Option Error) (found : List Message)
    → (scan_messages rows last found).1 ≡ none
    → (more : List Message) × (rows ≡ map ok more)
      × ((scan_messages rows last found).0 ≡ found ++ more)
      × (last ≡ none)
unfolding scan_messages
scan_messages_all [] last found h = ([], refl, sym (append-nil found), h)
scan_messages_all (err e ∷ rows) last found h = cc
scan_messages_all (ok m ∷ rows) last found h =
    let (more, all, same, fine) = scan_messages_all rows last (found ++ m ∷ []) h in
    (m ∷ more, ap (◌∷◌ (ok m)) all, same ∙ append_assoc found (m ∷ []) more, fine)

-- `queryMessages` that reports no error has run its query, has scanned every row, has seen no error at
-- the end, and answers the rows in their order.
query_rows_all :
    (queried : Option Error) (rows : List (Result Message)) (last : Option Error)
    → (query_rows queried rows last).1 ≡ none
    → (queried ≡ none) × (rows ≡ map ok (query_rows queried rows last).0) × (last ≡ none)
unfolding query_rows
query_rows_all (some e) rows last h = cc
query_rows_all none rows last h =
    let (more, all, same, fine) = scan_messages_all rows last [] h in
    (refl, all ∙ ap (map ok) (sym same), fine)
