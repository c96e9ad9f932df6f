-- ===== src/Parser/Rpc.antt =====
-- `RpcBlockProvider` (src/parser/rpc_provider.rs). The reqwest, serde_json, futures and hex crates,
-- `deserialize` of the bitcoin crate and the sleeps are parameters, over a state of the network.
pub mod Batch
pub mod Order
pub mod Bounds
pub mod Missing
use mathlib.Core.List.{Perm}
use bitcoin_chain_graph.Common.{
  ℕ, zero, suc, ◌+◌, ◌-◌, ◌%◌, ◌^◌, ◌<◌, Bool, List, [], ◌∷◌, ◌++◌, Option, none, some,
  if◌then◌else◌,
}
use bitcoin_chain_graph.Common.Context.{
  codes, AnyError, message, context, display, with_context, contains_text,
}
use bitcoin_chain_graph.Common.Exec.{Exec, ◌>>=◌, return}
use bitcoin_chain_graph.Common.Result.{Result, ok, err}
use bitcoin_chain_graph.Common.Sort.{sort_by_key}
use bitcoin_chain_graph.Config.{BitcoinRpcConfig}
use bitcoin_chain_graph.Parser.Bitcoin.{BitcoinCrate}
use bitcoin_chain_graph.Utxo.Key.{Bytes}
use bitcoin_chain_graph.Utxo.OutputId.{decimal}
use bitcoin_chain_graph.Writer.Data.{Text}
use bitcoin_chain_graph.Ingestion.Amounts.{Item}

-- What `send()` and the reads of the response give: no response, a status that is no success with
-- the text of the body (empty if it cannot be read), no JSON, or a JSON value.
pub data Response (Value : Type 0) : Type 0 where
  send_failed : AnyError → Response Value
  bad_status : Text → Text → Response Value
  bad_json : AnyError → Response Value
  json : Value → Response Value

-- A request is its method and its parameters; the id and the credentials are always the same.
-- `value_get` is `Value::get` by a key, and `field` the index by a key, which is null if there is
-- none. `buffer_unordered` gives the futures in the order of their completion: each of them once.
pub record RpcCrates (B : BitcoinCrate) : Type 1 where
  pub Net : Type 0
  pub Value : Type 0
  pub post : Text → List Value → Net → Net × Response Value
  pub sleep : ℕ → Net → Net
  pub of_u32 : ℕ → Value
  pub of_text : Text → Value
  pub value_get : Text → Value → Option Value
  pub field : Text → Value → Value
  pub is_null : Value → Bool
  pub as_u64 : Value → Option ℕ
  pub as_str : Value → Option Text
  pub show : Value → Text
  pub hex_decode : Text → Result AnyError Bytes
  pub deserialize : Bytes → Result AnyError B.Block
  pub buffer_unordered : ℕ → List ℕ → List ℕ
  pub buffer_unordered-perm :
      (max_concurrent : ℕ) (l : List ℕ)
      → 0 < max_concurrent
      → Perm (buffer_unordered max_concurrent l) l

pub record RpcBlockProvider : Type 0 where
  pub url : Text
  pub user : Text
  pub password : Text
  pub batch_size : ℕ
  pub max_concurrent : ℕ

abbrev pub new_provider : BitcoinRpcConfig → RpcBlockProvider
new_provider config = record {
  url = config.url;
  user = config.user;
  password = config.password;
  batch_size = config.batch_size;
  max_concurrent = config.rpc_max_concurrent;
}

module _ {A : Type 0} where
  -- `context` on an option.
  abbrev pub or_message : Text → Option A → Result AnyError A
  or_message text none = err (message text)
  or_message text (some a) = ok a

module _ {B : BitcoinCrate} (R : RpcCrates B) (P : RpcBlockProvider) where
  open R use {Net, Value, post, sleep, value_get, field, is_null, as_u64, as_str, show}

  abbrev pub Rpc : Type 0 → Type 0
  Rpc A = Exec Net AnyError A

  -- The error of JSON-RPC, if there is one that is not null.
  abbrev pub rpc_error : Text → Value → Option Value → Result AnyError Value
  rpc_error method result none = ok (field (codes "result") result)
  rpc_error method result (some error) =
      if is_null error
      then ok (field (codes "result") result)
      else err (message (codes "RPC error for " ++ (method ++ (codes ": " ++ show error))))

  unfoldable pub read_response : Text → Response Value → Result AnyError Value
  read_response method (send_failed e) = err (context (codes "RPC request failed") e)
  read_response method (bad_status status text) = err (
      message (
        codes "RPC HTTP error " ++ (status ++ (codes " for " ++ (method ++ (codes ": " ++ text))))))
  read_response method (bad_json e) = err (context (codes "Failed to parse RPC response JSON") e)
  read_response method (json result) = rpc_error method result (value_get (codes "error") result)

  unfoldable pub execute_rpc : Text → List Value → Rpc Value
  unfolding read_response
  execute_rpc method params net =
      let answer = post method params net in (answer.0, read_response method answer.1)

  -- One second before the second attempt, two before the third.
  abbrev pub delay : ℕ → Net → Net
  delay zero net = net
  delay (suc attempt) net = sleep (2 ^ attempt) net

  -- `for attempt in 0..3u32`, from the attempts that are left, with the last error; `expect` on it
  -- cannot fail after an attempt.
  unfoldable pub rpc_loop : Text → List Value → ℕ → ℕ → AnyError → Rpc Value
  unfolding execute_rpc
  rpc_loop method params zero attempt last_error net = (net, err last_error)
  rpc_loop method params (suc n) attempt last_error net =
      let answer = execute_rpc method params (delay attempt net) in
      elim answer.1 [
        | ok result ↦ (answer.0, ok result)
        | err e ↦ rpc_loop method params n (suc attempt) e answer.0
      ]

  unfoldable pub rpc_call : Text → List Value → Rpc Value
  unfolding rpc_loop
  rpc_call method params =
      rpc_loop method params 3 0 (message (codes "retry loop completed without recording an error"))

  -- A result that needs no call.
  abbrev pub lift : {A : Type 0} → Result AnyError A → Rpc A
  lift r net = (net, r)

  -- A call with the context of its error.
  unfoldable pub call_in : Text → Text → List Value → Rpc Value
  unfolding rpc_call
  call_in text method params net =
      let answer = rpc_call method params net in (answer.0, with_context text answer.1)

  unfoldable pub get_tip_height : Rpc ℕ
  unfolding call_in
  get_tip_height = call_in (codes "getblockcount failed") (codes "getblockcount") [] >>= λ result.
      (lift (or_message (codes "Invalid block count from RPC") (as_u64 result)) >>= λ h.
      return (h % 2 ^ 32))

  unfoldable pub verify_connection : Rpc ℕ
  unfolding get_tip_height
  verify_connection net =
      let answer = get_tip_height net in
      (
        answer.0,
        with_context
            (codes
              "Failed to connect to Bitcoin Core RPC - check url, credentials, and that bitcoind is running")
            answer.1,
      )

  unfoldable pub get_block_hash : ℕ → Rpc Text
  unfolding call_in decimal
  get_block_hash height =
      call_in (codes "getblockhash failed for height " ++ decimal height) (codes "getblockhash")
        (R.of_u32 height ∷ [])
      >>= λ result. lift (
          or_message (codes "Invalid block hash from RPC for height " ++ decimal height)
            (as_str result))

  unfoldable pub get_block_hex : Text → Rpc Text
  unfolding call_in
  get_block_hex hash =
      call_in (codes "getblock (hex) failed for hash " ++ hash) (codes "getblock")
        (R.of_text hash ∷ R.of_u32 0 ∷ [])
      >>= λ result.
          lift (or_message (codes "Invalid block hex from RPC for hash " ++ hash) (as_str result))

  abbrev pub found_block : ℕ → B.Block → Rpc (Option (Item B))
  found_block height block = return (some (height, block, codes "rpc"))

  unfoldable pub deserialize_block : ℕ → Bytes → Rpc (Option (Item B))
  unfolding decimal
  deserialize_block height block_bytes =
      lift (
        with_context (codes "Failed to deserialize block at height " ++ decimal height)
          (R.deserialize block_bytes))
      >>= found_block height

  unfoldable pub decode_block : ℕ → Text → Rpc (Option (Item B))
  unfolding deserialize_block decimal
  decode_block height hex_str =
      lift (
        with_context (codes "Failed to decode block hex at height " ++ decimal height)
          (R.hex_decode hex_str))
      >>= deserialize_block height

  unfoldable pub fetch_block : ℕ → Text → Rpc (Option (Item B))
  unfolding get_block_hex decode_block
  fetch_block height hash = get_block_hex hash >>= decode_block height

  -- What becomes of an error of the first call.
  unfoldable pub past_tip : AnyError → Result AnyError (Option (Item B))
  unfolding contains_text
  past_tip e =
      if contains_text (codes "Block height out of range") (display e) then ok none else err e

  unfoldable pub after_hash :
      ℕ → Net × Result AnyError Text → Net × Result AnyError (Option (Item B))
  unfolding fetch_block past_tip
  after_hash height (net, ok hash) = fetch_block height hash net
  after_hash height (net, err e) = (net, past_tip e)

  unfoldable pub get_block : ℕ → Rpc (Option (Item B))
  unfolding get_block_hash after_hash
  get_block height net = after_hash height (get_block_hash height net)
