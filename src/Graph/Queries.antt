-- ===== src/Graph/Queries.antt =====
-- graph/schema.resolvers.go: the queries.
use accounts_superposition_s.Prelude.{Bytes, List, [], ◌∷◌, ◌++◌, Bool, not, ltb}
use accounts_superposition_s.Outcome.{note, Outcome, ok, err, refuse_if, ◌>>◌}
use accounts_superposition_s.Exec
use accounts_superposition_s.Exec.{Exec, pure, raise, lift, on_error, wrap}
use accounts_superposition_s.Go.{hex_encode, to_lower}
use accounts_superposition_s.World.{
  Event, count_created, select_statistics, Statistics, Reply, answer, failed, Externals,
}
use accounts_superposition_s.ClientAddr.{get_client_addr}
use accounts_superposition_s.Client.{call}
use accounts_superposition_s.Graph.Resolver.{Config}

-- The loop over the rows, which ends alike when there are no more and when the iteration breaks off,
-- since `rows.Err` is not asked; a row that fails to scan ends the request.
unfoldable pub scan_rows : List Statistics → List (Reply Statistics) → Outcome (List Statistics)
scan_rows stats [] = ok stats
scan_rows stats (answer m ∷ rows) = scan_rows (stats ++ m ∷ []) rows
scan_rows stats (failed e ∷ rows) = err (note "failed to scan statistics")

module _ (x : Externals) (r : Config) where
  unfoldable pub publickey : Outcome Bytes
  publickey = ok (hex_encode r.acc_pub_key)

  unfoldable pub eoa_for_address : Bytes → Outcome Bytes
  eoa_for_address address = do
    refuse_if (not (x.is_hex_address address)) (note "not address")
    ok (x.address_string (get_client_addr x r.accounts_factory_addr (x.hex_to_address address)))

  unfoldable pub has_created : Bytes → Exec Event Bool
  has_created address =
      let e = count_created (to_lower address) in
      Exec.◌>>=◌ (wrap "query row: " (call e (x.count_row e))) (λ count. pure (ltb 0 count))

  unfoldable pub statistics : Exec Event (List Statistics)
  unfolding scan_rows
  statistics =
      Exec.◌>>=◌
        (on_error (call select_statistics x.statistics_rows)
          (λ _. raise (note "error retrieving statistics")))
        (λ rows. lift (scan_rows [] rows.scans))
