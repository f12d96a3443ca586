-- ===== src/Tests/Audit.antt =====
-- The ledger of an L1 node for a chain of one block, with a round that fails and one that does not.
use passbook.Prelude.{refl, none, some, List, [], ◌∷◌, true}
use passbook.Inspector.{FrameKind}
use passbook.Reexec.{TaggingInspector}
use passbook.Reexec.Prestate.{StateProvider}
use passbook.Driver.{Lookup, Driver, Config}
use passbook.Pipeline.ChainExec.{ChainData, Surroundings}
use passbook.Tests.Data.{empty_db, no_faults, all_faults}
use passbook.Tests.Pipeline.{block}

abbrev one_frame : TaggingInspector
one_frame = record {
  inner = record {
    seq = 1;
    frames = record { from = 7; to = 5; value = 3; kind = FrameKind.call; trace_path = [] } ∷ [];
    revert_marks = [];
  };
  tags = true ∷ [];
  depth = 0;
}

abbrev chain : ChainData
chain = record {
  committed = λ b. record block { number = b.number; hash = b.hash };
  success = λ b. true ∷ true ∷ [];
  outcome_at_block = λ n. none;
  same_number = λ b. refl;
  same_hash = λ b. refl;
}

abbrev parent : StateProvider
parent = record { account = λ a. none; slot = λ a s. 0 }

-- A round in which SQLite is busy and the parent is not known, and one in which all goes well.
abbrev rounds : List Surroundings
rounds =
    record { faults = all_faults; block_hash = λ n. Lookup.missing; parent_state = none }
    ∷ record { faults = no_faults; block_hash = λ n. Lookup.found n; parent_state = some parent }
    ∷ []

abbrev cfg : Config
cfg = record { chain_id = 1; watched = 5 ∷ [] }

abbrev started : Driver
started = record {
  db = empty_db;
  high_water = none;
  pending_finished = none;
  finished_heights = [];
  sleeps = [];
}
