-- ===== src/Parser/Rpc/Missing.antt =====
-- About `get_block` (src/parser/rpc_provider.rs): its answer for a height that the node does not have.
use mathlib.Core.Path.{subst}
use bitcoin_chain_graph.Common.{
  ℕ, ◌≡◌, refl, sym, ap, inl, inr, Bool, true, false, ◌&&◌, not, [], ◌∷◌, ◌++◌, Option, none, some,
  arith, All, ◌<◌, ◌≤◌, ◌==◌, and-true,
}
use bitcoin_chain_graph.Common.Context.{
  codes, AnyError, display, with_context, starts_with, contains_text,
}
use bitcoin_chain_graph.Common.Exec.{bind-result, bind-failure}
use bitcoin_chain_graph.Common.Result.{Result, ok, err, ok-inj, err-ok, err-inj}
use bitcoin_chain_graph.Parser.Bitcoin.{BitcoinCrate}
use bitcoin_chain_graph.Utxo.OutputId.{decimal, decimal-All}
use bitcoin_chain_graph.Writer.Data.{Text}
use bitcoin_chain_graph.Ingestion.Amounts.{Item}
use bitcoin_chain_graph.Parser.Rpc.{
  RpcCrates, RpcBlockProvider, or_message, lift, call_in, get_block_hash, get_block_hex,
  fetch_block, past_tip, get_block, found_block, decode_block, deserialize_block, after_hash,
}

-- The byte does not occur.
unfoldable lacks : ℕ → Text → Bool
lacks b [] = true
lacks b (c ∷ text) = not (b == c) && lacks b text

lacks-append :
    (b : ℕ) (xs ys : Text) → lacks b xs ≡ true → lacks b ys ≡ true → lacks b (xs ++ ys) ≡ true
unfolding lacks
lacks-append b [] ys h k = k
lacks-append b (c ∷ xs) ys h k =
    let (other, rest) = and-true (not (b == c)) (lacks b xs) h in
    rw (other, lacks-append b xs ys rest k) refl

contains_text-lacks :
    (b : ℕ) (part text : Text) → lacks b text ≡ true → contains_text (b ∷ part) text ≡ false
unfolding lacks contains_text starts_with
contains_text-lacks b part [] h = refl
contains_text-lacks b part (c ∷ text) h =
    let (other, rest) = and-true (not (b == c)) (lacks b text) h in
    let later = contains_text-lacks b part text rest in ground arith

lacks_of_All : (b : ℕ) (text : Text) → 58 ≤ b → All (λ c. c < 58) text → lacks b text ≡ true
unfolding lacks
lacks_of_All b [] high h = refl
lacks_of_All b (c ∷ text) high h =
    let rest = lacks_of_All b text high h.1 in let low : c < 58 = h.0 in ground arith

-- The messages of `get_block_hash` with the number of a height.
lacks_height :
    (text : Text) (height : ℕ) → lacks b'B' text ≡ true → lacks b'B' (text ++ decimal height) ≡ true
lacks_height text height h =
    lacks-append b'B' text (decimal height) h
      (lacks_of_All b'B' (decimal height) (omega arith) (decimal-All height))

failed_call : lacks b'B' (codes "getblockhash failed for height ") ≡ true
unfolding lacks
failed_call = refl

invalid_hash : lacks b'B' (codes "Invalid block hash from RPC for height ") ≡ true
unfolding lacks
invalid_hash = refl

context-display :
    {A : Type 0} (text : Text) (r : Result AnyError A) (e : AnyError)
    → with_context text r ≡ err e
    → display e ≡ text
context-display text (ok a) e h = absurd (err-ok e a (sym h))
context-display text (err x) e h = ap display (sym (err-inj _ _ h))

message-display :
    {A : Type 0} (text : Text) (o : Option A) (e : AnyError)
    → or_message text o ≡ err e
    → display e ≡ text
message-display text (some a) e h = absurd (err-ok e a (sym h))
message-display text none e h = ap display (sym (err-inj _ _ h))

module _ {B : BitcoinCrate} (R : RpcCrates B) (P : RpcBlockProvider) where
  -- Whatever the cause, what is printed of an error of `get_block_hash` is its last context.
  get_block_hash-display :
      (height : ℕ) (net : R.Net) (e : AnyError)
      → (get_block_hash R P height net).1 ≡ err e
      → lacks b'B' (display e) ≡ true
  unfolding get_block_hash
  get_block_hash-display height net e h =
      let call =
        call_in R P (codes "getblockhash failed for height " ++ decimal height)
          (codes "getblockhash") (R.of_u32 height ∷ []) in
      let invalid = codes "Invalid block hash from RPC for height " ++ decimal height in
      let read = λ (result : R.Value). lift R P (or_message invalid (R.as_str result)) in
      elim (bind-failure call read net e h) [
        | inl (failed, same) ↦
            let shown =
              context-display (codes "getblockhash failed for height " ++ decimal height) _ e
                failed in
            subst (λ t. lacks b'B' t ≡ true) (sym shown) (lacks_height _ height failed_call)
        | inr (result, called, failed, same) ↦
            let shown = message-display invalid (R.as_str result) e failed in
            subst (λ t. lacks b'B' t ≡ true) (sym shown) (lacks_height _ height invalid_hash)
      ]

  fetch_block-some :
      (height : ℕ) (hash : Text) (net : R.Net) (o : Option (Item B))
      → (fetch_block R P height hash net).1 ≡ ok o
      → (block : B.Block) × (o ≡ some (height, block, codes "rpc"))
  unfolding fetch_block decode_block deserialize_block
  fetch_block-some height hash net o h =
      let (hex_str, got, rest, same) =
        bind-result (get_block_hex R P hash) (decode_block R P height) net o h in
      let net1 = (get_block_hex R P hash net).0 in
      let (block_bytes, decoded, last, same') =
        bind-result
          (lift R P (
            with_context (codes "Failed to decode block hex at height " ++ decimal height)
              (R.hex_decode hex_str)))
          (deserialize_block R P height) net1 o rest in
      let (block, read, done, same'') =
        bind-result
          (lift R P (
            with_context (codes "Failed to deserialize block at height " ++ decimal height)
              (R.deserialize block_bytes)))
          (found_block R P height) net1 o last in
      (block, sym (ok-inj _ _ done))

  after_hash-some :
      (height : ℕ) (answer : R.Net × Result AnyError Text) (o : Option (Item B))
      → ((e : AnyError) → answer.1 ≡ err e → lacks b'B' (display e) ≡ true)
      → (after_hash R P height answer).1 ≡ ok o
      → (block : B.Block) × (o ≡ some (height, block, codes "rpc"))
  unfolding past_tip after_hash
  after_hash-some height (net, ok hash) o shown h = fetch_block-some height hash net o h
  after_hash-some height (net, err e) o shown h =
      let other =
        contains_text-lacks b'B' (codes "lock height out of range") (display e) (shown e refl) in
      absurd (err-ok e o (rw other at h))

  -- A call of `get_block` that succeeds gives a block of the height that was asked for. It never gives
  -- none, for no height and whatever the node answers: the text that is looked for in the error,
  -- "Block height out of range", is in its cause, and what is printed is the context.
  pub get_block-some :
      (height : ℕ) (net : R.Net) (o : Option (Item B))
      → (get_block R P height net).1 ≡ ok o
      → (block : B.Block) × (o ≡ some (height, block, codes "rpc"))
  unfolding get_block
  get_block-some height net o h =
      after_hash-some height (get_block_hash R P height net) o
        (λ e failed. get_block_hash-display height net e failed) h
