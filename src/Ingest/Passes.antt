-- ===== src/Ingest/Passes.antt =====
-- `run` of crates/attesta-indexer/src/ingest.rs: passes over the contracts, until the process is told to stop. A pass is
-- given by what the node replies to each contract.
use attesta_protocol_backend.Prelude.{String, List, [], ◌∷◌}
use attesta_protocol_backend.Events.Types.{Codecs}
use attesta_protocol_backend.Ingest.{Replies, Indexer, sync_contract}

-- A contract whose sync fails is left for the next pass.
unfoldable pub run_pass : Codecs → List String → (String → Replies) → Indexer → Indexer
unfolding sync_contract
run_pass codecs [] node s = s
run_pass codecs (contract_id ∷ contracts) node s =
    run_pass codecs contracts node (sync_contract codecs contract_id (node contract_id) s).1

unfoldable pub run : Codecs → List String → List (String → Replies) → Indexer → Indexer
unfolding run_pass
run codecs contracts [] s = s
run codecs contracts (node ∷ nodes) s =
    run codecs contracts nodes (run_pass codecs contracts node s)
