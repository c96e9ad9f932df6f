-- ===== src/Ingestion/Buckets/Partition.antt =====
-- The buckets of rows by the hash of their address (src/domain/ingestion.rs,
-- `partition_performs_by_address` and `partition_benefits_by_address`).
use bitcoin_chain_graph.Common.{
  ℕ, zero, suc, ◌+◌, ◌%◌, ◌<◌, ◌==◌, ◌≡◌, refl, sym, ap, ◌∙◌, true, false, List, [], ◌∷◌, ◌++◌,
  length, get_or, set, replicate, total, total-append, length-set, length-replicate,
  get_or-set_self, get_or-set_ne, get_or-replicate, append-nil, append_assoc, ℕ_discrete, ==_iff,
  arith,
}
use bitcoin_chain_graph.Writer.Data.{Text, PerformsData, BenefitsToData}
use bitcoin_chain_graph.Writer.Mock.Queries.{retain}
use bitcoin_chain_graph.Ingestion.Buckets.{
  partition_loop, partition_performs_by_address, partition_benefits_by_address, performs_writes,
  benefits_writes, bucket_task, spawn_tasks,
}
use bitcoin_chain_graph.Ingestion.Buckets.Written.{write_weight, task_weight}

module _ {ℓ} {A : Type ℓ} (string_hash : Text → ℕ) (address : A → Text) (n : ℕ) where
  -- The rows that belong into bucket `i`, in order.
  abbrev pub rows_of : ℕ → List A → List A
  rows_of i = retain (λ x. string_hash (address x) % n == i)

  get_or-partition_loop :
      (items : List A) (buckets : List (List A)) (i : ℕ)
      → i < length buckets
      → get_or (partition_loop string_hash address n items buckets) i []
        ≡ get_or buckets i [] ++ rows_of i items
  unfolding partition_loop retain
  get_or-partition_loop [] buckets i h = sym (append-nil (get_or buckets i []))
  get_or-partition_loop (x ∷ items) buckets i h =
      let j = string_hash (address x) % n in
      let buckets' = set buckets j (get_or buckets j [] ++ x ∷ []) in
      let rest =
        get_or-partition_loop items buckets' i
          (omega (arith, length-set buckets j (get_or buckets j [] ++ x ∷ []))) in
      elim (ℕ_discrete j i) [
        | yes same ↦
            let test : (j == i) ≡ true = (==_iff j i).1 same in
            let here : get_or buckets' i [] ≡ get_or buckets i [] ++ x ∷ [] =
              ap (λ k. get_or buckets' k []) (sym same)
              ∙ get_or-set_self buckets j (get_or buckets j [] ++ x ∷ []) [] (omega arith)
              ∙ ap (λ k. get_or buckets k [] ++ x ∷ []) same in
            rw (test) (
              rest
              ∙ ap (λ l. l ++ rows_of i items) here
              ∙ append_assoc (get_or buckets i []) (x ∷ []) (rows_of i items))
        | no other ↦
            let test : (j == i) ≡ false = ground arith in
            rw (test) (
              rest
              ∙ ap (λ l. l ++ rows_of i items)
                  (get_or-set_ne buckets j i (get_or buckets j [] ++ x ∷ []) [] other))
      ]

  -- A row is put into one bucket.
  total-push :
      (w : A → ℕ) (buckets : List (List A)) (j : ℕ) (x : A)
      → j < length buckets
      → total (total w) (set buckets j (get_or buckets j [] ++ x ∷ []))
        ≡ total (total w) buckets + w x
  total-push w [] j x h = absurd (omega arith)
  total-push w (b ∷ buckets) zero x h = omega (arith, total-append w b (x ∷ []))
  total-push w (b ∷ buckets) (suc j) x h = omega (arith, total-push w buckets j x (omega arith))

  total-partition_loop :
      (w : A → ℕ) (items : List A) (buckets : List (List A))
      → 0 < n
      → n ≡ length buckets
      → total (total w) (partition_loop string_hash address n items buckets)
        ≡ total (total w) buckets + total w items
  unfolding partition_loop
  total-partition_loop w [] buckets some_ h = omega arith
  total-partition_loop w (x ∷ items) buckets some_ h =
      let j = string_hash (address x) % n in
      let buckets' = set buckets j (get_or buckets j [] ++ x ∷ []) in
      omega (
        arith,
        total-push w buckets j x (omega arith),
        total-partition_loop w items buckets' some_
            (h ∙ sym (length-set buckets j (get_or buckets j [] ++ x ∷ []))),
      )

  length-partition_loop :
      (items : List A) (buckets : List (List A))
      → length (partition_loop string_hash address n items buckets) ≡ length buckets
  unfolding partition_loop
  length-partition_loop [] buckets = refl
  length-partition_loop (x ∷ items) buckets =
      let j = string_hash (address x) % n in
      let v = get_or buckets j [] ++ x ∷ [] in
      length-partition_loop items (set buckets j v) ∙ length-set buckets j v

-- Bucket `i` of either partition holds, in their order, exactly the rows whose address hashes to `i`
-- modulo the number of buckets: all rows of an address stand in one bucket, and in no other.
pub partition-rows_of :
    (string_hash : Text → ℕ) (performs : List PerformsData) (benefits : List BenefitsToData)
    (num_buckets i : ℕ)
    → i < num_buckets
    → (get_or (partition_performs_by_address string_hash performs num_buckets) i []
        ≡ rows_of string_hash (λ (p : PerformsData). p.from_address) num_buckets i performs)
      × (get_or (partition_benefits_by_address string_hash benefits num_buckets) i []
          ≡ rows_of string_hash (λ (b : BenefitsToData). b.to_address) num_buckets i benefits)
unfolding partition_performs_by_address partition_benefits_by_address
partition-rows_of string_hash performs benefits n i h = (
  get_or-partition_loop string_hash (λ p. p.from_address) n performs (replicate n []) i
        (omega (arith, length-replicate {A = List PerformsData} n []))
      ∙ ap (λ l. l ++ rows_of string_hash (λ p. p.from_address) n i performs)
          (get_or-replicate n i []),
  get_or-partition_loop string_hash (λ b. b.to_address) n benefits (replicate n []) i
        (omega (arith, length-replicate {A = List BenefitsToData} n []))
      ∙ ap (λ l. l ++ rows_of string_hash (λ b. b.to_address) n i benefits)
          (get_or-replicate n i []),
)

total-replicate {ℓ} : {A : Type ℓ} (w : A → ℕ) (n : ℕ) → total (total w) (replicate n []) ≡ 0
total-replicate w zero = refl
total-replicate w (suc n) = omega (arith, total-replicate w n)

module _ (wp : PerformsData → ℕ) (wb : BenefitsToData → ℕ) where
  bucket_task-weight :
      (performs : List PerformsData) (benefits : List BenefitsToData)
      → task_weight wp wb (bucket_task performs benefits) ≡ total wp performs + total wb benefits
  unfolding bucket_task task_weight write_weight performs_writes benefits_writes
  bucket_task-weight [] [] = refl
  bucket_task-weight [] (b ∷ bs) = omega arith
  bucket_task-weight (p ∷ ps) [] = omega arith
  bucket_task-weight (p ∷ ps) (b ∷ bs) = omega arith

  spawn_tasks-weight :
      (ps : List (List PerformsData)) (bs : List (List BenefitsToData))
      → length ps ≡ length bs
      → total (task_weight wp wb) (spawn_tasks ps bs) ≡ total (total wp) ps + total (total wb) bs
  unfolding spawn_tasks
  spawn_tasks-weight [] [] h = refl
  spawn_tasks-weight [] (b ∷ bs) h = absurd (omega arith)
  spawn_tasks-weight (p ∷ ps) [] h = absurd (omega arith)
  spawn_tasks-weight (p ∷ ps) (b ∷ bs) h =
      omega (arith, bucket_task-weight p b, spawn_tasks-weight ps bs (omega arith))

  -- The tasks have all rows to write, each in one task.
  pub partition-weight :
      (string_hash : Text → ℕ) (performs : List PerformsData) (benefits : List BenefitsToData)
      (n : ℕ)
      → 0 < n
      → total (task_weight wp wb) (
          spawn_tasks
            (partition_performs_by_address string_hash performs n)
            (partition_benefits_by_address string_hash benefits n))
        ≡ total wp performs + total wb benefits
  unfolding partition_performs_by_address partition_benefits_by_address
  partition-weight string_hash performs benefits n some_ =
      let ps0 : List (List PerformsData) = replicate n [] in
      let bs0 : List (List BenefitsToData) = replicate n [] in
      let lp = length-replicate {A = List PerformsData} n [] in
      let lb = length-replicate {A = List BenefitsToData} n [] in
      let fp = λ (p : PerformsData). p.from_address in
      let fb = λ (b : BenefitsToData). b.to_address in
      omega (
        arith,
        lp,
        lb,
        length-partition_loop string_hash fp n performs ps0,
        length-partition_loop string_hash fb n benefits bs0,
        spawn_tasks-weight (partition_loop string_hash fp n performs ps0)
            (partition_loop string_hash fb n benefits bs0)
            (omega (
              arith,
              lp,
              lb,
              length-partition_loop string_hash fp n performs ps0,
              length-partition_loop string_hash fb n benefits bs0,
            )),
        total-partition_loop string_hash fp n wp performs ps0 some_ (sym lp),
        total-partition_loop string_hash fb n wb benefits bs0 some_ (sym lb),
        total-replicate wp n,
        total-replicate wb n,
      )
