-- ===== src/Subscribe/Requests.antt =====
-- src/subscribe/mod.rs: the bodies of the subscriptions.
use Prim.Native.String.{String}
use grpc_bench.Prelude.{Bool, true, false, Option, none, some, List, [], ◌∷◌, ◌||◌}
use grpc_bench.Prelude.Eq.{◌==◌, string_eq}
use grpc_bench.Prelude.HashMap.{HashMap, insert}
use grpc_bench.Config.{Commitment, processed, confirmed, finalized}
use grpc_bench.Subscribe.{MainStream, slots, accounts, transactions, blocks}

abbrev pub known_heavy_programs : List String
known_heavy_programs =
    "11111111111111111111111111111111" ∷ "TokenkegQfeZyiNwAJbNbGKPFXCWuBvf9Ss623VQ5DA"
    ∷ "TokenzQdBNbLqP5VEhdkAS6EPFLC1PHnBqCXEpPxuEb" ∷ []

abbrev pub names_program : List String → String → Bool
names_program [] program_id = false
names_program (p ∷ ps) program_id = p == program_id || names_program ps program_id

unfoldable pub is_known_heavy_program : String → Bool
is_known_heavy_program program_id = names_program known_heavy_programs program_id

-- `CommitmentLevel` of the protocol, by its variants.
pub data YsCommitment : Type 0 where
  ys_processed ys_confirmed ys_finalized : YsCommitment

-- The filters of the protocol, with the fields that the source sets to something.
pub record FilterAccounts : Type 0 where
  pub account : List String
  pub owner : List String

pub record FilterSlots : Type 0 where
  pub filter_by_commitment : Option Bool
  pub interslot_updates : Option Bool

pub record FilterTransactions : Type 0 where
  pub vote : Option Bool
  pub failed : Option Bool
  pub account_include : List String

pub record FilterBlocks : Type 0 where
  pub account_include : List String
  pub include_transactions : Option Bool
  pub include_accounts : Option Bool
  pub include_entries : Option Bool

pub data FilterEntry : Type 0 where
  all_entries : FilterEntry

-- The other fields of a request are always empty.
pub record SubscribeRequest : Type 0 where
  pub accounts : HashMap String FilterAccounts
  pub slots : HashMap String FilterSlots
  pub transactions : HashMap String FilterTransactions
  pub blocks : HashMap String FilterBlocks
  pub entry : HashMap String FilterEntry
  pub commitment : Option YsCommitment

abbrev pub to_ys_commitment : Commitment → YsCommitment
to_ys_commitment processed = ys_processed
to_ys_commitment confirmed = ys_confirmed
to_ys_commitment finalized = ys_finalized

-- `HashMap::new()` for every filter.
abbrev pub empty_request : Option YsCommitment → SubscribeRequest
empty_request commitment = record {
  accounts = [];
  slots = [];
  transactions = [];
  blocks = [];
  entry = [];
  commitment = commitment;
}

unfoldable pub build_slot_request : SubscribeRequest
build_slot_request = record (empty_request none) {
  slots =
      insert "slots-all"
        (record { filter_by_commitment = some false; interslot_updates = some true }) [];
}

unfoldable pub build_main_request_for : Commitment → List String → MainStream → SubscribeRequest
build_main_request_for commitment program_ids slots =
    record (empty_request (some (to_ys_commitment commitment))) {
      slots =
          insert "slots-all"
            (record { filter_by_commitment = some false; interslot_updates = some true }) [];
    }
build_main_request_for commitment program_ids accounts =
    record (empty_request (some (to_ys_commitment commitment))) {
      accounts = insert "all-programs" (record { account = []; owner = program_ids }) [];
    }
build_main_request_for commitment program_ids transactions =
    record (empty_request (some (to_ys_commitment commitment))) {
      transactions =
          insert "all-programs-tx"
            (record { vote = some false; failed = some false; account_include = program_ids }) [];
    }
build_main_request_for commitment program_ids blocks =
    record (empty_request (some (to_ys_commitment commitment))) {
      blocks =
          insert "all-blocks"
            (record {
              account_include = [];
              include_transactions = some true;
              include_accounts = some false;
              include_entries = some false;
            })
            [];
    }

unfoldable pub build_entries_request : Commitment → SubscribeRequest
build_entries_request commitment = record (empty_request (some (to_ys_commitment commitment))) {
  slots =
      insert "slots-all"
        (record { filter_by_commitment = some false; interslot_updates = some false }) [];
  entry = insert "all-entries" all_entries [];
}
