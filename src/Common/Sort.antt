-- ===== src/Common/Sort.antt =====
-- `sort_by_key`, the stable sort of `Vec`.
use mathlib.Core.List.{foldr}
use mathlib.Core.List.Perm
use mathlib.Core.List.{Perm}
use Prim.Native.Nat.{ℕ, ◌+◌, ◌≤◌}
use mathlib.Core.Path.{◌≡◌, refl, sym, ap, ◌∙◌}
use mathlib.Core.Bool.{true}
use mathlib.Core.List.{List, [], ◌∷◌}
use native.Mathlib.Omega.{arith}
use bitcoin_chain_graph.Common.Tests.{leb, leb→le, leb-false→ge, if-both, if◌then◌else◌}
use bitcoin_chain_graph.Common.Lists.{total, All}

module _ {A : Type 0} (key : A → ℕ) where
  unfoldable pub insert_by : A → List A → List A
  insert_by x [] = x ∷ []
  insert_by x (y ∷ ys) = if leb (key x) (key y) then x ∷ y ∷ ys else y ∷ insert_by x ys

  unfoldable pub sort_by_key : List A → List A
  unfolding insert_by
  sort_by_key [] = []
  sort_by_key (x ∷ xs) = insert_by x (sort_by_key xs)

  -- The keys do not fall, from a lower bound on.
  unfoldable pub Rising : ℕ → List A → Type 0
  Rising low [] = Unit {0}
  Rising low (x ∷ xs) = (low ≤ key x) × Rising (key x) xs

  insert_by-Rising :
      (low : ℕ) (x : A) (xs : List A) → low ≤ key x → Rising low xs → Rising low (insert_by x xs)
  unfolding Rising insert_by
  insert_by-Rising low x [] h r = (h, tt)
  insert_by-Rising low x (y ∷ ys) h r =
      if-both (Rising low) (leb (key x) (key y)) _ _ (λ e. (h, (leb→le _ _ e, r.1)))
        (λ e. (r.0, insert_by-Rising (key y) x ys (leb-false→ge _ _ e) r.1))

  pub sort_by_key-Rising : (xs : List A) → Rising 0 (sort_by_key xs)
  unfolding Rising sort_by_key
  sort_by_key-Rising [] = tt
  sort_by_key-Rising (x ∷ xs) =
      insert_by-Rising 0 x (sort_by_key xs) (omega arith) (sort_by_key-Rising xs)

  insert_by-total : (w : A → ℕ) (x : A) (xs : List A) → total w (insert_by x xs) ≡ w x + total w xs
  unfolding insert_by
  insert_by-total w x [] = refl
  insert_by-total w x (y ∷ ys) =
      let rest = insert_by-total w x ys in
      if-both (λ l. total w l ≡ w x + (w y + total w ys)) (leb (key x) (key y)) _ _ (λ e. refl)
        (λ e. omega (arith, rest))

  pub sort_by_key-total : (w : A → ℕ) (xs : List A) → total w (sort_by_key xs) ≡ total w xs
  unfolding sort_by_key
  sort_by_key-total w [] = refl
  sort_by_key-total w (x ∷ xs) =
      omega (arith, insert_by-total w x (sort_by_key xs), sort_by_key-total w xs)

  insert_by-All {κ} :
      (P : A → Type κ) (x : A) (xs : List A) → P x → All P xs → All P (insert_by x xs)
  unfolding insert_by
  insert_by-All P x [] h k = (h, k)
  insert_by-All P x (y ∷ ys) h k =
      if-both (All P) (leb (key x) (key y)) _ _ (λ e. (h, k))
        (λ e. (k.0, insert_by-All P x ys h k.1))

  pub sort_by_key-All {κ} : (P : A → Type κ) (xs : List A) → All P xs → All P (sort_by_key xs)
  unfolding sort_by_key
  sort_by_key-All P [] k = k
  sort_by_key-All P (x ∷ xs) k = insert_by-All P x (sort_by_key xs) k.0 (sort_by_key-All P xs k.1)

  insert_by-first :
      (low : ℕ) (x : A) (xs : List A) → Rising low xs → key x ≤ low → insert_by x xs ≡ x ∷ xs
  unfolding insert_by Rising
  insert_by-first low x [] r h = refl
  insert_by-first low x (y ∷ ys) r h =
      let first : leb (key x) (key y) ≡ true = ground (arith, r.0) in rw first refl

  -- What is sorted stays as it is.
  pub sort_by_key_of_Rising : (low : ℕ) (xs : List A) → Rising low xs → sort_by_key xs ≡ xs
  unfolding sort_by_key Rising
  sort_by_key_of_Rising low [] r = refl
  sort_by_key_of_Rising low (x ∷ xs) r =
      ap (insert_by x) (sort_by_key_of_Rising (key x) xs r.1)
      ∙ insert_by-first (key x) x xs r.1 (omega arith)

-- Numbers by themselves.
abbrev pub sort : List ℕ → List ℕ
unfolding sort_by_key
sort = sort_by_key (λ n. n)

insert_comm :
    (a b : ℕ) (l : List ℕ)
    → insert_by (λ n. n) a (insert_by (λ n. n) b l) ≡ insert_by (λ n. n) b (insert_by (λ n. n) a l)
unfolding insert_by
insert_comm a b [] = ground arith
insert_comm a b (x ∷ l) = let rest = insert_comm a b l in ground arith

sort-foldr : (l : List ℕ) → sort l ≡ foldr (insert_by (λ n. n)) [] l
unfolding sort_by_key
sort-foldr [] = refl
sort-foldr (x ∷ l) = ap (insert_by (λ n. n) x) (sort-foldr l)

-- The order before does not matter.
pub sort-perm : {l m : List ℕ} → Perm l m → sort l ≡ sort m
sort-perm {l} {m} p =
    sort-foldr l ∙ Perm.foldr-eq (hlevel) (insert_by (λ n. n)) insert_comm p [] ∙ sym (sort-foldr m)
