-- ===== src/Parser/BlockIndex/Scan/Run.antt =====
-- About `get_main_chain` and `get_block_at_height` (src/parser/block_index.rs): the order of the
-- entries, and what is found at a height.
use mathlib.Core.Path.{subst}
use bitcoin_chain_graph.Common.{
  ℕ, zero, suc, ◌+◌, ◌%◌, ◌^◌, ◌≤◌, ◌<◌, ◌≡◌, ◌≢◌, ◌∙◌, refl, sym, ap, List, [], ◌∷◌, none, some,
  get_elem?, total, ◌==◌, arith, true, ==_iff, Bool, if◌then◌else◌,
}
use bitcoin_chain_graph.Common.Result.{Result, ok, err, ◌>>=◌, bind-ok, err-ok, ok-inj}
use bitcoin_chain_graph.Common.Sort.{Rising, sort_by_key-Rising, sort_by_key-total}
use bitcoin_chain_graph.Utxo.Key.{Bytes}
use bitcoin_chain_graph.Parser.BlockIndex.{IndexError, BlockIndexEntry}
use bitcoin_chain_graph.Parser.BlockIndex.Scan.{
  Entries, scan, sort_by_height, check_heights, checked, get_main_chain, find_height,
  get_block_at_height,
}

abbrev height_of : BlockIndexEntry → ℕ
height_of entry = entry.height

-- The heights are `h`, `h + 1` and so on.
unfoldable pub Run : ℕ → List BlockIndexEntry → Type 0
Run h [] = Unit {0}
Run h (entry ∷ chain) = (entry.height ≡ h) × Run (suc h) chain

-- A test that returns an error when it fails, in a run that succeeds.
when-ok :
    {A : Type 0} (b : Bool) (e : IndexError) (r : Result IndexError A) (a : A)
    → (if b then r else err e) ≡ ok a
    → (b ≡ true) × (r ≡ ok a)
when-ok true e r a h = (refl, h)
when-ok Bool.false e r a h = absurd (err-ok e a h)

no_wrap : (h n : ℕ) → h ≤ n → n ≡ (h + 1) % 2 ^ 32 → n ≡ suc h
no_wrap h n low same = omega arith

-- In a list that rises, the wrap-around of the test does not matter.
check_heights-Run :
    (entry : BlockIndexEntry) (chain : List BlockIndexEntry)
    → Rising height_of entry.height chain
    → check_heights entry chain ≡ ok tt
    → Run (suc entry.height) chain
unfolding Rising Run check_heights
check_heights-Run entry [] r e = tt
check_heights-Run entry (next ∷ chain) r e =
    let (same, rest) = when-ok (next.height == (entry.height + 1) % 2 ^ 32) _ _ tt e in
    let low : entry.height ≤ next.height = r.0 in
    let wrapped : next.height ≡ (entry.height + 1) % 2 ^ 32 = (==_iff _ _).0 same in
    let above : next.height ≡ suc entry.height = no_wrap entry.height next.height low wrapped in
    (above, subst (λ h. Run (suc h) chain) above (check_heights-Run next chain r.1 rest))

find_height-Run :
    (h i : ℕ) (chain : List BlockIndexEntry)
    → Run h chain
    → find_height (h + i) chain ≡ get_elem? chain i
unfolding Run find_height
find_height-Run h i [] r = refl
find_height-Run h zero (entry ∷ chain) r = let same : entry.height ≡ h = r.0 in ground arith
find_height-Run h (suc i) (entry ∷ chain) r =
    let rest = find_height-Run (suc h) i chain r.1 in
    let same : entry.height ≡ h = r.0 in ground arith

find_height-below :
    (h i : ℕ) (chain : List BlockIndexEntry) → Run h chain → i < h → find_height i chain ≡ none
unfolding Run find_height
find_height-below h i [] r low = refl
find_height-below h i (entry ∷ chain) r low =
    let rest = find_height-below (suc h) i chain r.1 (omega arith) in
    let same : entry.height ≡ h = r.0 in ground arith

checked-Run :
    (chain result : List BlockIndexEntry)
    → Rising height_of 0 chain
    → checked chain ≡ ok result
    → (result ≡ chain) × (chain ≢ []) × (h : ℕ) × Run h chain
unfolding checked Rising Run
checked-Run [] result r e = absurd (err-ok _ _ e)
checked-Run (entry ∷ chain) result r e =
    let (u, fine, same) = bind-ok (check_heights entry chain) _ _ e in
    (
      sym (ok-inj _ _ same),
      λ empty. cc,
      entry.height,
      (refl, check_heights-Run entry chain r.1 fine),
    )

get_block_at_height-find_height :
    (hex : Bytes → Bytes) (entries : Entries) (chain : List BlockIndexEntry) (i : ℕ)
    → get_main_chain hex (some entries) ≡ ok chain
    → get_block_at_height hex (some entries) i ≡ ok (find_height i chain)
unfolding get_block_at_height
get_block_at_height-find_height hex entries chain i e = ap (λ r. r >>= λ l. ok (find_height i l)) e

-- If `get_main_chain` succeeds, its result has the blocks that the scan has found, each as often,
-- and the heights from some first height on, each once and in order; and `get_block_at_height` finds
-- at each height the entry at that place, and none below the first height or past the end.
pub get_main_chain-Run :
    (hex : Bytes → Bytes) (entries : Entries) (chain : List BlockIndexEntry)
    → get_main_chain hex (some entries) ≡ ok chain
    → (h : ℕ) × Run h chain
      × (chain ≢ [])
      × ((w : BlockIndexEntry → ℕ) → total w chain ≡ total w (scan hex entries))
      × ((i : ℕ) → get_block_at_height hex (some entries) (h + i) ≡ ok (get_elem? chain i))
      × ((i : ℕ) → i < h → get_block_at_height hex (some entries) i ≡ ok none)
unfolding get_main_chain sort_by_height
get_main_chain-Run hex entries chain e =
    let sorted = sort_by_height (scan hex entries) in
    let rising : Rising height_of 0 sorted = sort_by_key-Rising height_of (scan hex entries) in
    let (same, filled, h, r) = checked-Run sorted chain rising e in
    let run : Run h chain = subst (Run h) (sym same) r in
    let found = λ (i : ℕ). get_block_at_height-find_height hex entries chain i e in
    (
      h,
      run,
      λ empty. filled (sym same ∙ empty),
      λ w. ap (total w) same ∙ sort_by_key-total height_of w (scan hex entries),
      λ i. found (h + i) ∙ ap ok (find_height-Run h i chain run),
      λ i low. found i ∙ ap ok (find_height-below h i chain run low),
    )
