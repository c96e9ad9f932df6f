-- ===== src/Parser/Rpc/Order.antt =====
-- About `get_block_batch` (src/parser/rpc_provider.rs): what it gives does not depend on the order in
-- which the calls complete.
use mathlib.Core.List.{foldr, map, Perm}
use mathlib.Core.List.Perm
use mathlib.Core.Path.{subst}
use bitcoin_chain_graph.Common.{
  ℕ, zero, suc, ◌+◌, ◌%◌, ◌^◌, ◌≤◌, ◌<◌, ◌≡◌, refl, sym, ap, ◌∙◌, ◌⊎◌, inl, inr, Bool, true, ◌&&◌,
  List, [], ◌∷◌, Option, some, arith, ltb, leb, ltb→lt, and-true, Bool-cases,
}
use bitcoin_chain_graph.Common.Context.{AnyError, codes}
use bitcoin_chain_graph.Common.Result.{Result, Result-cases, ok, err}
use bitcoin_chain_graph.Common.Sort.{
  insert_by, sort_by_key, sort, sort-perm, Rising, sort_by_key_of_Rising,
}
use bitcoin_chain_graph.Parser.Bitcoin.{BitcoinCrate}
use bitcoin_chain_graph.Ingestion.Amounts.{Item}
use bitcoin_chain_graph.Parser.Rpc.{RpcCrates, RpcBlockProvider, get_block}
use bitcoin_chain_graph.Parser.Rpc.Batch.{fetch_all, collect_blocks, numbers_from, get_block_batch}
use bitcoin_chain_graph.Parser.Rpc.Missing.{get_block-some}

-- All offsets are below a bound.
unfoldable pub all_below : ℕ → List ℕ → Bool
all_below n [] = true
all_below n (o ∷ l) = ltb o n && all_below n l

all_below-foldr : (n : ℕ) (l : List ℕ) → all_below n l ≡ foldr (λ o b. ltb o n && b) true l
unfolding all_below
all_below-foldr n [] = refl
all_below-foldr n (o ∷ l) = ap (λ b. ltb o n && b) (all_below-foldr n l)

and_comm : (a b c : Bool) → (a && (b && c)) ≡ (b && (a && c))
and_comm true b c = refl
and_comm Bool.false true c = refl
and_comm Bool.false Bool.false c = refl

pub all_below-perm : (n : ℕ) {l m : List ℕ} → Perm l m → all_below n l ≡ all_below n m
all_below-perm n {l} {m} p =
    all_below-foldr n l
    ∙ Perm.foldr-eq (hlevel) (λ o b. ltb o n && b) (λ a b x. and_comm (ltb a n) (ltb b n) x) p true
    ∙ sym (all_below-foldr n m)

pub all_below-numbers_from :
    (n first k : ℕ) → first + k ≤ n → all_below n (numbers_from first k) ≡ true
unfolding all_below numbers_from
all_below-numbers_from n first zero h = refl
all_below-numbers_from n first (suc k) h =
    let rest = all_below-numbers_from n (suc first) k (omega arith) in ground arith

Rising-numbers_from : (low first k : ℕ) → low ≤ first → Rising (λ o. o) low (numbers_from first k)
unfolding numbers_from Rising
Rising-numbers_from low first zero h = tt
Rising-numbers_from low first (suc k) h = (h, Rising-numbers_from first (suc first) k (omega arith))

sort-numbers_from : (k : ℕ) → sort (numbers_from 0 k) ≡ numbers_from 0 k
unfolding sort_by_key
sort-numbers_from k =
    sort_by_key_of_Rising (λ o. o) 0 (numbers_from 0 k) (Rising-numbers_from 0 0 k (omega arith))

module _ {I : Type 0} (key : I → ℕ) (answer : ℕ → Result AnyError (Option I)) where
  -- Every answer is the block of its height or an error.
  abbrev pub Full : Type 0
  Full = (h : ℕ) (o : Option I) → answer h ≡ ok o → (b : I) × (o ≡ some b) × (key b ≡ h)

module _ {I : Type 0} (key : I → ℕ) (answer : ℕ → Result AnyError (Option I)) (start : ℕ) where
  abbrev found : I → Result AnyError (Option I)
  found block = ok (some block)

  -- The blocks are those of the offsets, one by one.
  unfoldable Answers : List ℕ → List I → Type 0
  Answers [] [] = Unit {0}
  Answers (o ∷ os) (b ∷ bs) = (answer (start + o) ≡ found b) × (key b ≡ start + o) × Answers os bs
  Answers [] (b ∷ bs) = ⊥
  Answers (o ∷ os) [] = ⊥

  Answers-insert_by :
      (o : ℕ) (b : I) (os : List ℕ) (bs : List I)
      → Answers (o ∷ []) (b ∷ [])
      → Answers os bs
      → Answers (insert_by (λ n. n) o os) (insert_by key b bs)
  unfolding Answers insert_by
  Answers-insert_by o b [] [] h k = h
  Answers-insert_by o b (p ∷ os) (c ∷ bs) h k =
      let same : leb (key b) (key c) ≡ leb o p = rw (h.1, k.1) (ground arith) in
      let later = Answers-insert_by o b os bs h k.2 in
      elim (Bool-cases (leb o p)) [
        | inl first ↦ rw (same, first) (h.0, h.1, k)
        | inr second ↦ rw (same, second) (k.0, k.1, later)
      ]
  Answers-insert_by o b [] (c ∷ bs) h k = absurd k
  Answers-insert_by o b (p ∷ os) [] h k = absurd k

  Answers-sort :
      (os : List ℕ) (bs : List I) → Answers os bs → Answers (sort os) (sort_by_key key bs)
  unfolding Answers sort_by_key
  Answers-sort [] [] k = tt
  Answers-sort (o ∷ os) (b ∷ bs) k =
      Answers-insert_by o b (sort os) (sort_by_key key bs) (k.0, k.1, tt) (Answers-sort os bs k.2)
  Answers-sort [] (c ∷ bs) k = absurd k
  Answers-sort (p ∷ os) [] k = absurd k

  Answers-numbers_from :
      (first k : ℕ) (bs : List I)
      → Answers (numbers_from first k) bs
      → map answer (numbers_from (start + first) k) ≡ map found bs
  unfolding Answers numbers_from
  Answers-numbers_from first zero [] h = refl
  Answers-numbers_from first (suc k) (b ∷ bs) h =
      let rest : map answer (numbers_from (suc (start + first)) k) ≡ map found bs =
        subst (λ n. map answer (numbers_from n k) ≡ map found bs) (omega arith)
          (Answers-numbers_from (suc first) k bs h.2) in
      rw (h.0, rest) refl
  Answers-numbers_from first zero (b ∷ bs) h = absurd h
  Answers-numbers_from first (suc k) [] h = absurd h

  collected :
      (count : ℕ) (os : List ℕ)
      → Full key answer
      → start + count ≤ 2 ^ 32
      → all_below count os ≡ true
      → let results = map (λ o. answer ((start + o) % 2 ^ 32)) os in
        ((bs : List I) × (collect_blocks results ≡ ok bs) × Answers os bs)
        ⊎ ((e : AnyError) × (o : ℕ) × (o < count)
            × (answer (start + o) ≡ err e)
            × (collect_blocks results ≡ err e))
  unfolding Answers collect_blocks all_below
  collected count [] full fits below = inl ([], refl, tt)
  collected count (o ∷ os) full fits below =
      let (low, rest) = and-true (ltb o count) (all_below count os) below in
      let small : o < count = ltb→lt o count low in
      let plain : (start + o) % 2 ^ 32 ≡ start + o = omega arith in
      elim (Result-cases (answer (start + o))) [
        | inr (e, failed) ↦ inr (e, o, small, failed, rw (plain, failed) refl)
        | inl (r, got) ↦
            let (b, there, at) = full (start + o) r got in
            elim (collected count os full fits rest) [
              | inr (e, p, less, failed, later) ↦
                  inr (e, p, less, failed, rw (plain, got, there, later) refl)
              | inl (bs, later, matched) ↦
                  inl (b ∷ bs, rw (plain, got, there, later) refl, (got ∙ ap ok there, at, matched))
            ]
      ]

module _ {B : BitcoinCrate} (R : RpcCrates B) (P : RpcBlockProvider)
    (answer : ℕ → Result AnyError (Option (Item B)))
    (stable : (h : ℕ) (net : R.Net) → (get_block R P h net).1 ≡ answer h) where
  fetch_all-stable :
      (start : ℕ) (os : List ℕ) (net : R.Net)
      → (fetch_all R P start os net).1 ≡ map (λ o. answer ((start + o) % 2 ^ 32)) os
  unfolding fetch_all
  fetch_all-stable start [] net = refl
  fetch_all-stable start (o ∷ os) net =
      let h = (start + o) % 2 ^ 32 in
      rw (stable h net, fetch_all-stable start os (get_block R P h net).0) refl

  pub stable-Full : R.Net → Full (λ (b : Item B). b.0) answer
  stable-Full net h o e =
      let (block, there) = get_block-some R P h net o (stable h net ∙ e) in
      ((h, block, codes "rpc"), there, refl)

  -- If the answer of the node for a height is the same at any time, at least one call runs at a time
  -- and the heights fit in 32 bits, then `get_block_batch` gives the blocks of all `count` heights
  -- from `start` on, in the order of the heights and none left out, or the error of one of these
  -- heights: the order in which the calls complete, which is any order, does not matter.
  pub get_block_batch-in_order :
      (start count : ℕ) (net : R.Net)
      → 0 < P.max_concurrent
      → start + count ≤ 2 ^ 32
      → count < 2 ^ 32
      → let result = (get_block_batch R P start count net).1 in
        ((blocks : List (Item B)) × (result ≡ ok blocks)
          × (map answer (numbers_from start count) ≡ map (λ (b : Item B). ok (some b)) blocks))
        ⊎ ((e : AnyError) × (o : ℕ) × (o < count) × (answer (start + o) ≡ err e) × (result ≡ err e))
  unfolding get_block_batch
  get_block_batch-in_order start count net some_calls fits small =
      let os = R.buffer_unordered P.max_concurrent (numbers_from 0 count) in
      let plain : count % 2 ^ 32 ≡ count = omega arith in
      let perm = R.buffer_unordered-perm P.max_concurrent (numbers_from 0 count) some_calls in
      let below = all_below-perm count perm ∙ all_below-numbers_from count 0 count (omega arith) in
      let key = λ (b : Item B). b.0 in
      let fetched = fetch_all-stable start os net in
      let first : start + 0 ≡ start = omega arith in
      elim (collected key answer start count os (stable-Full net) fits below) [
        | inl (bs, collect, matched) ↦
            let sorted =
              subst (λ l. Answers key answer start l (sort_by_key key bs))
                (sort-perm perm ∙ sort-numbers_from count)
                (Answers-sort key answer start os bs matched) in
            inl (
              sort_by_key key bs,
              rw (plain, fetched, collect) refl,
              subst
                  (λ n.
                    map answer (numbers_from n count)
                    ≡ map (found key answer start) (sort_by_key key bs))
                  first (Answers-numbers_from key answer start 0 count (sort_by_key key bs) sorted),
            )
        | inr (e, o, low, failed, collect) ↦
            inr (e, o, low, failed, rw (plain, fetched, collect) refl)
      ]
