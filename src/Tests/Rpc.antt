-- ===== src/Tests/Rpc.antt =====
-- The theorems on the RPC provider and on the catch-up at a concrete node, of which the second call
-- completes before the first.
use mathlib.Core.List.{map}
use mathlib.Core.List.{Perm}
use mathlib.Core.List.Perm
use bitcoin_chain_graph.Common.{
  ℕ, zero, suc, ◌+◌, ◌<◌, ◌≤◌, ◌≡◌, ◌⊎◌, refl, List, [], ◌∷◌, Option, none, some, arith, false,
}
use bitcoin_chain_graph.Common.Context.{AnyError, message, codes}
use bitcoin_chain_graph.Common.Result.{Result, ok, err}
use bitcoin_chain_graph.Writer.Data.{Text}
use bitcoin_chain_graph.Utxo.Key.{Bytes}
use bitcoin_chain_graph.Ingestion.Amounts.{Item}
use bitcoin_chain_graph.Ingestion.Fork.{LiveError}
use bitcoin_chain_graph.Ingestion.Live.{new_tracker}
use bitcoin_chain_graph.Ingestion.Live.Catchup.{Setting, Live, catchup_loop, stop}
use bitcoin_chain_graph.Ingestion.Live.Catchup.Heights.{BlocksFrom}
use bitcoin_chain_graph.Ingestion.Live.Catchup.Ends.{catchup_loop-ends}
use bitcoin_chain_graph.Ingestion.Live.Catchup.Stored.{catchup_loop-Holds}
use bitcoin_chain_graph.Ingestion.Session.{block_memories}
use bitcoin_chain_graph.Ingestion.Session.Atomic.{tables_in}
use bitcoin_chain_graph.Ingestion.Session.Prefix.{Holds}
use bitcoin_chain_graph.Ingestion.Session.Outcome.{MemoryFits}
use bitcoin_chain_graph.Ingestion.Chunks.Budget.{memory_before}
use bitcoin_chain_graph.Writer.Mock.Fulfils.{mock_contract}
use bitcoin_chain_graph.Common.Int.{pos}
use bitcoin_chain_graph.Ingestion.Live.{record_batch_commit}
use bitcoin_chain_graph.Parser.Rpc.{
  Response, json, bad_status, RpcCrates, RpcBlockProvider, get_block, get_tip_height,
  get_block_hash, fetch_block,
}
use bitcoin_chain_graph.Parser.Rpc.Batch.{get_block_batch, numbers_from}
use bitcoin_chain_graph.Parser.Rpc.Missing.{get_block-some}
use bitcoin_chain_graph.Parser.Rpc.Order.{get_block_batch-in_order}
use bitcoin_chain_graph.Common.Assoc.{lookup, insert, remove}
use bitcoin_chain_graph.Utxo.Key.{shard_index, UtxoKey-discrete}
use bitcoin_chain_graph.Utxo.Cache.{shard}
use bitcoin_chain_graph.Writer.Mock
use bitcoin_chain_graph.Writer.Mock.Writes.{
  check_failure, write_blocks_fast, write_outputs_fast, write_transactions_fast,
  write_has_output_relationships, write_inputs_fast, write_performs, write_benefits_to,
}
use bitcoin_chain_graph.Writer.Mock.Queries.{
  update_checkpoint, lookup_outputs_batch, lookup_block_hash, find,
}
use bitcoin_chain_graph.Writer.Mock.Session.{begin_transaction, commit_transaction}
use bitcoin_chain_graph.Tests.Instances.{halve, twice}
use bitcoin_chain_graph.Common.{ℕ_discrete}
use bitcoin_chain_graph.Ingestion.Amounts.{Text-discrete}
use bitcoin_chain_graph.Tests.Chain.{
  SomeBlock, some_bitcoin, some_orchestrator, some_writer, first_tx, second_tx, third_tx, fresh,
}

-- A number, a text, or a list of values.
data Value : Type 0 where
  number : ℕ → Value
  text : Text → Value

abbrev as_number : Value → Option ℕ
as_number (number n) = some n
as_number (text t) = none

abbrev as_text : Value → Option Text
as_text (number n) = none
as_text (text t) = some t

-- The hash of a block is its height, and so are its bytes.
abbrev reply : List Value → Response Value
reply [] = json (number 1)
reply (number zero ∷ _) = json (text (0 ∷ []))
reply (number (suc zero) ∷ _) = json (text (1 ∷ []))
reply (text hash ∷ _) = json (text hash)
reply _ = bad_status (codes "500") (codes "Block height out of range")

abbrev block_of : Bytes → Result AnyError SomeBlock
block_of (zero ∷ []) = ok (record { number = 0; txs = first_tx ∷ second_tx ∷ [] })
block_of (suc zero ∷ []) = ok (record { number = 1; txs = third_tx ∷ [] })
block_of _ = err (message [])

-- The second call completes before the first.
abbrev completed : List ℕ → List ℕ
completed (a ∷ b ∷ l) = b ∷ a ∷ l
completed (a ∷ []) = a ∷ []
completed [] = []

completed-perm : (l : List ℕ) → Perm (completed l) l
completed-perm (a ∷ b ∷ l) = Perm.swap a b l
completed-perm (a ∷ []) = Perm.rfl
completed-perm [] = Perm.rfl

abbrev some_rpc : RpcCrates some_bitcoin
some_rpc = record {
  Net = Unit {0};
  Value = Value;
  post = λ method params net. (net, reply params);
  sleep = λ seconds net. net;
  of_u32 = number;
  of_text = text;
  value_get = λ key value. none;
  field = λ key value. value;
  is_null = λ value. false;
  as_u64 = as_number;
  as_str = as_text;
  show = λ value. [];
  hex_decode = ok;
  deserialize = block_of;
  buffer_unordered = λ max_concurrent l. completed l;
  buffer_unordered-perm = λ max_concurrent l some_calls. completed-perm l;
}

abbrev some_provider : RpcBlockProvider
some_provider = record { url = []; user = []; password = []; batch_size = 1; max_concurrent = 4 }

abbrev answer : ℕ → Result AnyError (Option (Item some_bitcoin))
answer height = (get_block some_rpc some_provider height tt).1

abbrev some_setting : Setting some_orchestrator
some_setting = record {
  crates = some_rpc;
  provider = some_provider;
  is_cancelled = λ net. (net, false);
  max_height = 100;
}

abbrev behind : Live some_orchestrator some_writer some_setting
behind = record {
  orchestrator = fresh;
  node = tt;
  shutdown_tracker = new_tracker;
  current_height = 0;
  blocks_processed = 0;
}

abbrev block0 : SomeBlock
block0 = record { number = 0; txs = first_tx ∷ second_tx ∷ [] }

block_zero : (get_block some_rpc some_provider 0 tt).1 ≡ ok (some (0, block0, codes "rpc"))
unfolding get_block get_block_hash fetch_block
block_zero = refl

two_blocks :
    (get_block_batch some_rpc some_provider 0 2 tt).1
    ≡ ok (
        (0, block0, codes "rpc")
        ∷ (1, record { number = 1; txs = third_tx ∷ [] }, codes "rpc")
        ∷ [])
unfolding get_block_batch
two_blocks = refl

get_block-some_example :
    (block : SomeBlock) × (Path
      (Option (Item some_bitcoin))
      (some (0, block0, codes "rpc"))
      (some (0, block, codes "rpc")))
get_block-some_example =
    get_block-some some_rpc some_provider 0 tt (some (0, block0, codes "rpc")) block_zero

get_block_batch-in_order_example :
    let result = (get_block_batch some_rpc some_provider 0 2 tt).1 in
    ((blocks : List (Item some_bitcoin)) × (result ≡ ok blocks)
      × (map answer (numbers_from 0 2) ≡ map (λ (b : Item some_bitcoin). ok (some b)) blocks))
    ⊎ ((e : AnyError) × (o : ℕ) × (o < 2) × (answer (0 + o) ≡ err e) × (result ≡ err e))
get_block_batch-in_order_example =
    get_block_batch-in_order some_rpc some_provider answer (λ h net. refl) 0 2 tt (omega arith)
      (omega arith) (omega arith)

catchup_loop-ends_example :
    ((catchup_loop some_orchestrator some_writer some_setting 102 behind).1 ≡ ok stop)
    ⊎ ((e : LiveError) × ((catchup_loop some_orchestrator some_writer some_setting 102 behind).1
          ≡ err e))
catchup_loop-ends_example =
    catchup_loop-ends some_orchestrator some_writer some_setting 100 102 behind (omega arith)
      (omega arith) (λ net tip h. omega arith) (omega arith)

tip_one : (get_tip_height some_rpc some_provider tt).1 ≡ ok 1
unfolding get_tip_height
tip_one = refl

caught_up : (catchup_loop some_orchestrator some_writer some_setting 3 behind).1 ≡ ok stop
unfolding catchup_loop shard_index lookup insert remove check_failure Mock.new begin_transaction
    commit_transaction write_blocks_fast write_outputs_fast write_transactions_fast
    write_has_output_relationships write_inputs_fast write_performs write_benefits_to
    update_checkpoint lookup_outputs_batch lookup_block_hash find shard halve twice UtxoKey-discrete
    Text-discrete ℕ_discrete
caught_up = refl

abbrev both : List (Item some_bitcoin)
both = (0, block0, codes "rpc") ∷ (1, record { number = 1; txs = third_tx ∷ [] }, codes "rpc") ∷ []

both-BlocksFrom : BlocksFrom some_orchestrator some_writer some_setting answer 0 2 both
unfolding get_block numbers_from
both-BlocksFrom = refl

both-MemoryFits : MemoryFits some_orchestrator some_writer both
unfolding block_memories memory_before
both-MemoryFits = omega arith

catchup_loop-Holds_example :
    let s' = (catchup_loop some_orchestrator some_writer some_setting 3 behind).0 in
    (((catchup_loop some_orchestrator some_writer some_setting 3 behind).1 ≡ ok stop)
      × Holds some_orchestrator both
          (tables_in some_orchestrator some_writer (mock_contract (pos 9)) fresh)
          (tables_in some_orchestrator some_writer (mock_contract (pos 9)) s'.orchestrator)
      × (s'.current_height ≡ 2)
      × (((behind.current_height ≡ 2) × (s'.shutdown_tracker ≡ new_tracker))
          ⊎ ((behind.current_height ≤ 1)
              × (s'.shutdown_tracker ≡ record_batch_commit 1 new_tracker))))
    ⊎ ((e : LiveError) × ((catchup_loop some_orchestrator some_writer some_setting 3 behind).1
          ≡ err e))
catchup_loop-Holds_example =
    catchup_loop-Holds some_orchestrator some_writer some_setting answer (mock_contract (pos 9)) 1 3
      behind both (λ h net. refl) (λ net. (1, tip_one, omega arith)) (λ net. refl) both-BlocksFrom
      both-MemoryFits (omega arith) (omega arith) (omega arith) (omega arith) (omega arith)
