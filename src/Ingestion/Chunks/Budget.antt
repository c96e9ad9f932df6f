-- ===== src/Ingestion/Chunks/Budget.antt =====
-- About the result of `compute_adaptive_chunks` (src/domain/ingestion.rs): tiling and budget.
use native.Mathlib.Nat.{mod-eq_of_lt}
use mathlib.Core.Path.{subst}
use bitcoin_chain_graph.Common.{
  ℕ, zero, suc, ◌+◌, ◌≤◌, ◌<◌, ◌^◌, ◌≡◌, ◌⊎◌, inl, inr, refl, ap, sym, false, List, [], ◌∷◌, ◌++◌,
  some, length, drop, get_elem?, All, arith, ltb, ◌==◌, ◌&&◌, Bool-cases, drop-cons, ltb→lt,
  ltb-false→ge, and-true, and-false, ==_iff,
}
use bitcoin_chain_graph.Ingestion.Chunks.{
  Range, usize_add, ChunkState, close_before, close_single, chunk_step, chunk_loop, close_final,
  compute_adaptive_chunks,
}

-- The memory of the blocks before position `i`.
unfoldable pub memory_before : List ℕ → ℕ → ℕ
memory_before [] i = 0
memory_before (m ∷ ms) zero = 0
memory_before (m ∷ ms) (suc i) = m + memory_before ms i

-- The ranges are not empty, and each starts where the one before it ends.
unfoldable pub Tiles : ℕ → ℕ → List Range → Type 0
Tiles a c [] = a ≡ c
Tiles a c ((x, y) ∷ ranges) = (x ≡ a) × (x < y) × Tiles y c ranges

-- The blocks of a range fit the budget, or are one block; and the next block, if there is one, does
-- not fit with them.
abbrev pub RangeOk : List ℕ → ℕ → Range → Type 0
RangeOk mems budget (a, b) =
    ((memory_before mems b ≤ memory_before mems a + budget) ⊎ (b ≡ suc a))
    × ((b ≡ length mems) ⊎ (memory_before mems a + budget < memory_before mems (suc b)))

Tiles-append :
    (a b c : ℕ) (ranges : List Range) → Tiles a b ranges → b < c → Tiles a c (ranges ++ (b, c) ∷ [])
unfolding Tiles
Tiles-append a b c [] h lt = (sym h, lt, refl)
Tiles-append a b c ((x, y) ∷ ranges) h lt = (h.0, h.1, Tiles-append y b c ranges h.2 lt)

All-snoc :
    (P : Range → Type 0) (ranges : List Range) (r : Range)
    → All P ranges
    → P r
    → All P (ranges ++ r ∷ [])
All-snoc P [] r h p = (p, tt)
All-snoc P (x ∷ ranges) r h p = (h.0, All-snoc P ranges r h.1 p)

memory_before_zero : (mems : List ℕ) → memory_before mems 0 ≡ 0
unfolding memory_before
memory_before_zero [] = refl
memory_before_zero (x ∷ mems) = refl

memory_before-suc :
    (mems : List ℕ) (i m : ℕ)
    → get_elem? mems i ≡ some m
    → memory_before mems (suc i) ≡ memory_before mems i + m
unfolding memory_before
memory_before-suc [] i m h = absurd (cc)
memory_before-suc (x ∷ mems) zero m h =
    let same : x ≡ m = cc in omega (arith, memory_before_zero mems)
memory_before-suc (x ∷ mems) (suc i) m h = omega (arith, memory_before-suc mems i m h)

memory_before_mono : (mems : List ℕ) (i : ℕ) → memory_before mems i ≤ memory_before mems (suc i)
unfolding memory_before
memory_before_mono [] i = omega arith
memory_before_mono (x ∷ mems) zero = omega arith
memory_before_mono (x ∷ mems) (suc i) = omega (arith, memory_before_mono mems i)

memory_before_total :
    (mems : List ℕ) (i : ℕ) → memory_before mems i ≤ memory_before mems (length mems)
unfolding memory_before
memory_before_total [] i = omega arith
memory_before_total (x ∷ mems) zero = omega arith
memory_before_total (x ∷ mems) (suc i) = omega (arith, memory_before_total mems i)

module _ (mems : List ℕ) (budget : ℕ) (small : memory_before mems (length mems) < 2 ^ 64) where
  -- The state before position `i` is looked at.
  record LoopOk (i : ℕ) (s : ChunkState) : Type 0 where
    tiles : Tiles 0 s.chunk_start s.chunks
    ranges : All (RangeOk mems budget) s.chunks
    started : s.chunk_start ≤ i
    counted : memory_before mems s.chunk_start + s.chunk_memory ≡ memory_before mems i
    within : s.chunk_memory ≤ budget

  -- Position `i` is about to be counted: it fits, or starts a chunk.
  record RoomOk (i m : ℕ) (s : ChunkState) : Type 0 where
    tiles : Tiles 0 s.chunk_start s.chunks
    ranges : All (RangeOk mems budget) s.chunks
    started : s.chunk_start ≤ i
    counted : memory_before mems s.chunk_start + s.chunk_memory ≡ memory_before mems i
    room : (s.chunk_memory + m ≤ budget) ⊎ ((s.chunk_start ≡ i) × (s.chunk_memory ≡ 0))

  no_wrap :
      (i m : ℕ) (s : ChunkState)
      → get_elem? mems i ≡ some m
      → memory_before mems s.chunk_start + s.chunk_memory ≡ memory_before mems i
      → usize_add s.chunk_memory m ≡ s.chunk_memory + m
  no_wrap i m s here counted =
      mod-eq_of_lt
        (omega (arith, memory_before-suc mems i m here, memory_before_total mems (suc i), small))

  room_kept :
      (i m : ℕ) (s : ChunkState)
      → get_elem? mems i ≡ some m
      → LoopOk i s
      → (ltb budget (usize_add s.chunk_memory m) ≡ false) ⊎ (ltb s.chunk_start i ≡ false)
      → (s.chunk_memory + m ≤ budget) ⊎ ((s.chunk_start ≡ i) × (s.chunk_memory ≡ 0))
  room_kept i m s here h (inl fits) =
      inl (omega (arith, no_wrap i m s here h.counted, ltb-false→ge _ _ fits))
  room_kept i m s here h (inr at) =
      let same : s.chunk_start ≡ i = omega (arith, ltb-false→ge _ _ at, h.started) in
      inr (same, omega (arith, ap (memory_before mems) same, h.counted))

  room_left :
      (m : ℕ) (s : ChunkState) (i : ℕ)
      → (s.chunk_memory + m ≤ budget) ⊎ ((s.chunk_start ≡ i) × (s.chunk_memory ≡ 0))
      → (ltb budget m ≡ false) ⊎ ((i == s.chunk_start) ≡ false)
      → s.chunk_memory + m ≤ budget
  room_left m s i (inl fits) _ = fits
  room_left m s i (inr (at, none_yet)) (inl under) = omega (arith, ltb-false→ge _ _ under)
  room_left m s i (inr (at, none_yet)) (inr other) = absurd (ground arith)

  close_before-RoomOk :
      (i m : ℕ) (s : ChunkState)
      → get_elem? mems i ≡ some m
      → LoopOk i s
      → RoomOk i m (close_before budget i m s)
  unfolding close_before
  close_before-RoomOk i m s here h =
      elim (Bool-cases (ltb budget (usize_add s.chunk_memory m) && ltb s.chunk_start i)) [
        | inl over ↦
            let both =
              and-true (ltb budget (usize_add s.chunk_memory m)) (ltb s.chunk_start i) over in
            let more : budget < usize_add s.chunk_memory m = ltb→lt _ _ both.0 in
            let before : s.chunk_start < i = ltb→lt _ _ both.1 in
            let sum = no_wrap i m s here h.counted in
            rw over (record {
              tiles = Tiles-append 0 s.chunk_start i s.chunks h.tiles before;
              ranges =
                  All-snoc (RangeOk mems budget) s.chunks (s.chunk_start, i) h.ranges
                    (
                      inl (omega (arith, h.counted, h.within)),
                      inr (omega (arith, sum, memory_before-suc mems i m here, h.counted)),
                    );
              started = omega arith;
              counted = omega arith;
              room = inr (refl, refl);
            })
        | inr keep ↦ rw keep (record {
          tiles = h.tiles;
          ranges = h.ranges;
          started = h.started;
          counted = h.counted;
          room =
              room_kept i m s here h
                (and-false (ltb budget (usize_add s.chunk_memory m)) (ltb s.chunk_start i) keep);
        })
      ]

  close_single-LoopOk :
      (i m : ℕ) (s : ChunkState)
      → get_elem? mems i ≡ some m
      → RoomOk i m s
      → LoopOk
          (suc i)
          (close_single budget i m (record s { chunk_memory = usize_add s.chunk_memory m }))
  unfolding close_single
  close_single-LoopOk i m s here h =
      let sum = no_wrap i m s here h.counted in
      let next = memory_before-suc mems i m here in
      elim (Bool-cases (ltb budget m && i == s.chunk_start)) [
        | inl alone ↦
            let both = and-true (ltb budget m) (i == s.chunk_start) alone in
            let over : budget < m = ltb→lt _ _ both.0 in
            let here_start : i ≡ s.chunk_start = (==_iff _ _).0 both.1 in
            let same : memory_before mems i ≡ memory_before mems s.chunk_start =
              ap (memory_before mems) here_start in
            rw alone (record {
              tiles = Tiles-append 0 s.chunk_start (suc i) s.chunks h.tiles (omega arith);
              ranges =
                  All-snoc (RangeOk mems budget) s.chunks (s.chunk_start, suc i) h.ranges
                    (
                      inr (omega arith),
                      inr (omega (arith, next, same, memory_before_mono mems (suc i))),
                    );
              started = omega arith;
              counted = omega arith;
              within = omega arith;
            })
        | inr keep ↦ rw keep (record {
          tiles = h.tiles;
          ranges = h.ranges;
          started = omega (arith, h.started);
          counted = omega (arith, sum, next, h.counted);
          within = omega (
            arith,
            sum,
            room_left m s i h.room (and-false (ltb budget m) (i == s.chunk_start) keep),
          );
        })
      ]

  chunk_step-LoopOk :
      (i m : ℕ) (s : ChunkState)
      → get_elem? mems i ≡ some m
      → LoopOk i s
      → LoopOk (suc i) (chunk_step budget i m s)
  unfolding chunk_step
  chunk_step-LoopOk i m s here h =
      close_single-LoopOk i m (close_before budget i m s) here (close_before-RoomOk i m s here h)

  chunk_loop-LoopOk :
      (i : ℕ) (rest : List ℕ) (s : ChunkState)
      → drop i mems ≡ rest
      → i + length rest ≡ length mems
      → LoopOk i s
      → LoopOk (length mems) (chunk_loop budget i rest s)
  unfolding chunk_loop
  chunk_loop-LoopOk i [] s at n h = subst (λ j. LoopOk j s) (omega arith) h
  chunk_loop-LoopOk i (m ∷ rest) s at n h =
      let (here, next) = drop-cons i m mems rest at in
      chunk_loop-LoopOk (suc i) rest (chunk_step budget i m s) next (omega arith)
        (chunk_step-LoopOk i m s here h)

  close_final-Ok :
      (s : ChunkState)
      → LoopOk (length mems) s
      → Tiles 0 (length mems) (close_final (length mems) s)
        × All (RangeOk mems budget) (close_final (length mems) s)
  unfolding close_final
  close_final-Ok s h = elim (Bool-cases (ltb s.chunk_start (length mems))) [
    | inl more ↦ rw more (
      Tiles-append 0 s.chunk_start (length mems) s.chunks h.tiles (ltb→lt _ _ more),
      All-snoc (RangeOk mems budget) s.chunks (s.chunk_start, length mems) h.ranges
          (inl (omega (arith, h.counted, h.within)), inl refl),
    )
    | inr done ↦
        let ends : s.chunk_start ≡ length mems = omega (arith, ltb-false→ge _ _ done, h.started) in
        rw done (subst (λ n. Tiles 0 n s.chunks) ends h.tiles, h.ranges)
  ]

-- The chunks of a batch whose total memory is below 2^64: they are not empty and tile the batch in
-- order; each fits the budget or is a single block; and none could take the next block as well.
pub compute_adaptive_chunks_lem :
    (mems : List ℕ) (budget : ℕ)
    → memory_before mems (length mems) < 2 ^ 64
    → Tiles 0 (length mems) (compute_adaptive_chunks mems budget)
      × All (RangeOk mems budget) (compute_adaptive_chunks mems budget)
unfolding compute_adaptive_chunks Tiles
compute_adaptive_chunks_lem [] budget small = (refl, tt)
compute_adaptive_chunks_lem (m ∷ ms) budget small =
    let mems = m ∷ ms in
    let start : ChunkState = record { chunks = []; chunk_start = 0; chunk_memory = 0 } in
    close_final-Ok mems budget small (chunk_loop budget 0 mems start) (
      chunk_loop-LoopOk mems budget small 0 mems start refl (omega arith) (record {
        tiles = refl;
        ranges = tt;
        started = omega arith;
        counted = omega arith;
        within = omega arith;
      }))
