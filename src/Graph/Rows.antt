-- ===== src/Graph/Rows.antt =====
-- The rows of the statistics.
use accounts_superposition_s.Prelude.{
  ◌≡◌, refl, sym, ap, ◌∙◌, ◌↔◌, List, [], ◌∷◌, ◌++◌, map, append_assoc, append-nil, arith,
}
use accounts_superposition_s.Outcome.{ok}
use accounts_superposition_s.World.{Statistics, Reply, answer, failed, Rows, History, Externals}
use accounts_superposition_s.Client.{call}
use accounts_superposition_s.Exec.{ask, lift, on_error, ◌>>=◌}
use accounts_superposition_s.Graph.Resolver.{Config}
use accounts_superposition_s.Graph.Queries.{scan_rows, statistics}

scan_rows_answers : (stats l : List Statistics) → scan_rows stats (map answer l) ≡ ok (stats ++ l)
unfolding scan_rows
scan_rows_answers stats [] = ap ok (sym (append-nil stats))
scan_rows_answers stats (m ∷ l) =
    scan_rows_answers (stats ++ m ∷ []) l ∙ ap ok (append_assoc stats (m ∷ []) l)

scan_rows_only :
    (stats l : List Statistics) (rows : List (Reply Statistics))
    → scan_rows stats rows ≡ ok l
    → (scanned : List Statistics) × (l ≡ stats ++ scanned) × (rows ≡ map answer scanned)
unfolding scan_rows
scan_rows_only stats l [] p = ([], ground (arith, append-nil stats), refl)
scan_rows_only stats l (failed e ∷ rows) p = absurd (cc)
scan_rows_only stats l (answer m ∷ rows) p =
    let (scanned, e, q) = scan_rows_only (stats ++ m ∷ []) l rows p in
    (m ∷ scanned, e ∙ append_assoc stats (m ∷ []) scanned, ap (λ r. answer m ∷ r) q)

scan_rows_iff :
    (rows : List (Reply Statistics)) (l : List Statistics)
    → (scan_rows [] rows ≡ ok l) ↔ (rows ≡ map answer l)
scan_rows_iff rows l = (
  λ p. (let (scanned, e, q) = scan_rows_only [] l rows p in q ∙ ap (map answer) (sym e)),
  λ q. rw q (scan_rows_answers [] l),
)

-- When the query is answered, `Statistics` returns a list exactly when each row that the iteration
-- came to was scanned, and the list is those rows in order, whether the iteration broke off or not.
pub statistics-scanned :
    (x : Externals) (r : Config) (h : History) (rows : Rows) (l : List Statistics)
    → x.statistics_rows h ≡ answer rows
    → ((statistics x r h).0 ≡ ok l) ↔ (rows.scans ≡ map answer l)
unfolding statistics call ask lift on_error ◌>>=◌
statistics-scanned x r h rows l p = rw p (scan_rows_iff rows.scans l)
