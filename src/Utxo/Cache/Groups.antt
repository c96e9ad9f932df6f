-- ===== src/Utxo/Cache/Groups.antt =====
-- The grouping of keys by shard that the batch methods do.
use mathlib.Core.Path.{ap₂, subst}
use bitcoin_chain_graph.Common.{
  ℕ, zero, suc, ◌+◌, ◌<◌, ◌≡◌, refl, sym, ap, ◌∙◌, List, [], ◌∷◌, ◌++◌, map, none, some, length,
  get_or, get_elem?, set, All, replicate, arith, ite, drop, drop-cons, get_or-replicate, length-set,
  get_or-set_self, get_or-set_ne, ℕ_discrete, length-append, length-map, Bool, true, false, ◌||◌,
}
use bitcoin_chain_graph.Utxo.Key.{UtxoKey, UtxoKey-discrete as dec, num_shards, shard_index}
use bitcoin_chain_graph.Utxo.Key.{shard_index-lt}
use bitcoin_chain_graph.Utxo.Cache.{group_from, group_by_shard}

-- `is.contains(&q)`.
unfoldable pub member : UtxoKey → List UtxoKey → Bool
member q [] = false
member q (k ∷ keys) = ite (dec q k) true (member q keys)

pub member-append :
    (q : UtxoKey) (xs ys : List UtxoKey) → member q (xs ++ ys) ≡ (member q xs || member q ys)
unfolding member
member-append q [] ys = refl
member-append q (x ∷ xs) ys = ground (arith, member-append q xs ys)

-- The keys at the given positions.
unfoldable pub resolve : List UtxoKey → List ℕ → List UtxoKey
resolve keys [] = []
resolve keys (i ∷ is) = elim (get_elem? keys i) [
  | none ↦ resolve keys is
  | some k ↦ k ∷ resolve keys is
]

resolve-append :
    (keys : List UtxoKey) (is js : List ℕ)
    → resolve keys (is ++ js) ≡ resolve keys is ++ resolve keys js
unfolding resolve
resolve-append keys [] js = refl
resolve-append keys (i ∷ is) js = ground (arith, resolve-append keys is js)

-- `by_shard` with the keys themselves in place of their positions.
push : UtxoKey → List (List UtxoKey) → List (List UtxoKey)
push k groups = set groups (shard_index k) (get_or groups (shard_index k) [] ++ k ∷ [])

push_all : List UtxoKey → List (List UtxoKey) → List (List UtxoKey)
push_all [] groups = groups
push_all (k ∷ keys) groups = push_all keys (push k groups)

abbrev pub groups_of : List UtxoKey → List (List UtxoKey)
groups_of keys = map (resolve keys) (group_by_shard keys)

map-set {ℓ κ} :
    {A : Type ℓ} {B : Type κ} (f : A → B) (xs : List A) (i : ℕ) (v : A)
    → map f (set xs i v) ≡ set (map f xs) i (f v)
map-set f [] i v = refl
map-set f (x ∷ xs) zero v = refl
map-set f (x ∷ xs) (suc i) v = ap (◌∷◌ (f x)) (map-set f xs i v)

get_or-map {ℓ κ} :
    {A : Type ℓ} {B : Type κ} (f : A → B) (xs : List A) (i : ℕ) (d : A)
    → get_or (map f xs) i (f d) ≡ f (get_or xs i d)
get_or-map f [] i d = refl
get_or-map f (x ∷ xs) zero d = refl
get_or-map f (x ∷ xs) (suc i) d = get_or-map f xs i d

pub resolve_in :
    (keys : List UtxoKey) (i : ℕ) (is : List ℕ) (k : UtxoKey)
    → get_elem? keys i ≡ some k
    → resolve keys (i ∷ is) ≡ k ∷ resolve keys is
unfolding resolve
resolve_in keys i is k e = rw (e, resolve)

pub resolve_out :
    (keys : List UtxoKey) (i : ℕ) (is : List ℕ)
    → get_elem? keys i ≡ none
    → resolve keys (i ∷ is) ≡ resolve keys is
unfolding resolve
resolve_out keys i is e = rw (e, resolve)

-- Positions that are pushed as the code does resolve to the keys that are pushed.
map-resolve_step :
    (keys : List UtxoKey) (i : ℕ) (k : UtxoKey) (b : List (List ℕ))
    → get_elem? keys i ≡ some k
    → map (resolve keys) (set b (shard_index k) (get_or b (shard_index k) [] ++ i ∷ []))
      ≡ push k (map (resolve keys) b)
unfolding push resolve
map-resolve_step keys i k b e =
    map-set (resolve keys) b (shard_index k) _
    ∙ ap (set (map (resolve keys) b) (shard_index k)) (
        resolve-append keys (get_or b (shard_index k) []) (i ∷ [])
        ∙ ap₂ ◌++◌ (sym (get_or-map (resolve keys) b (shard_index k) []))
            (resolve_in keys i [] k e))

resolve-group_from :
    (keys rest : List UtxoKey) (i : ℕ) (b : List (List ℕ))
    → drop i keys ≡ rest
    → map (resolve keys) (group_from i rest b) ≡ push_all rest (map (resolve keys) b)
unfolding group_from push_all
resolve-group_from keys [] i b h = refl
resolve-group_from keys (k ∷ rest) i b h =
    let (here, more) = drop-cons i k keys rest h in
    resolve-group_from keys rest (suc i) _ more
    ∙ ap (push_all rest) (map-resolve_step keys i k b here)

groups_of-push_all :
    (keys : List UtxoKey) → groups_of keys ≡ push_all keys (replicate num_shards [])
unfolding group_by_shard resolve
groups_of-push_all keys = resolve-group_from keys keys 0 (replicate num_shards []) refl

-- All keys of the groups, one group after the other.
unfoldable pub concat : List (List UtxoKey) → List UtxoKey
concat [] = []
concat (g ∷ gs) = g ++ concat gs

-- Each group holds keys of its own shard only.
pub record Grouped (groups : List (List UtxoKey)) : Type 0 where
  pub sixteen : length groups ≡ num_shards
  pub home : (i : ℕ) → All (λ k. shard_index k ≡ i) (get_or groups i [])

All-append {ℓ κ} :
    {A : Type ℓ} (P : A → Type κ) (xs ys : List A) → All P xs → All P ys → All P (xs ++ ys)
All-append P [] ys h g = g
All-append P (x ∷ xs) ys h g = (h.0, All-append P xs ys h.1 g)

push-Grouped :
    (k : UtxoKey) (groups : List (List UtxoKey)) → Grouped groups → Grouped (push k groups)
unfolding push
push-Grouped k groups h =
    let i = shard_index k in
    let g = get_or groups i [] ++ k ∷ [] in
    record {
      sixteen = length-set groups i g ∙ h.sixteen;
      home = λ j. elim (ℕ_discrete i j) [
        | yes e ↦
            subst (λ t. All (λ q. shard_index q ≡ t) (get_or (set groups i g) t [])) e
              (rw (get_or-set_self groups i g [] (rw h.sixteen (shard_index-lt k))) (
                All-append (λ q. shard_index q ≡ i) (get_or groups i []) (k ∷ []) (h.home i)
                  (refl, tt)))
        | no e ↦ rw (get_or-set_ne groups i j g [] e) (h.home j)
      ];
    }

push_all-Grouped :
    (keys : List UtxoKey) (groups : List (List UtxoKey))
    → Grouped groups
    → Grouped (push_all keys groups)
unfolding push_all
push_all-Grouped [] groups h = h
push_all-Grouped (k ∷ keys) groups h =
    push_all-Grouped keys (push k groups) (push-Grouped k groups h)

member-concat_push :
    (q k : UtxoKey) (i : ℕ) (groups : List (List UtxoKey))
    → i < length groups
    → member q (concat (set groups i (get_or groups i [] ++ k ∷ [])))
      ≡ ite (dec q k) true (member q (concat groups))
unfolding concat member
member-concat_push q k i [] lt = elim lt [ ]
member-concat_push q k zero (g ∷ gs) lt = ground (
  arith,
  member-append q (g ++ k ∷ []) (concat gs),
  member-append q g (k ∷ []),
  member-append q g (concat gs),
)
member-concat_push q k (suc i) (g ∷ gs) lt = ground (
  arith,
  member-append q g (concat (set gs i (get_or gs i [] ++ k ∷ []))),
  member-append q g (concat gs),
  member-concat_push q k i gs (omega arith),
)

length-concat_push :
    (k : UtxoKey) (i : ℕ) (groups : List (List UtxoKey))
    → i < length groups
    → length (concat (set groups i (get_or groups i [] ++ k ∷ []))) ≡ suc (length (concat groups))
unfolding concat
length-concat_push k i [] lt = elim lt [ ]
length-concat_push k zero (g ∷ gs) lt = omega (
  arith,
  length-append (g ++ k ∷ []) (concat gs),
  length-append g (k ∷ []),
  length-append g (concat gs),
)
length-concat_push k (suc i) (g ∷ gs) lt = omega (
  arith,
  length-append g (concat (set gs i (get_or gs i [] ++ k ∷ []))),
  length-append g (concat gs),
  length-concat_push k i gs (omega arith),
)

push_all_lem :
    (q : UtxoKey) (keys : List UtxoKey) (groups : List (List UtxoKey))
    → length groups ≡ num_shards
    → (member q (concat (push_all keys groups)) ≡ (member q keys || member q (concat groups)))
      × (length (concat (push_all keys groups)) ≡ length keys + length (concat groups))
unfolding push_all member push
push_all_lem q [] groups h = (refl, omega arith)
push_all_lem q (k ∷ keys) groups h =
    let lt : shard_index k < length groups = omega (arith, shard_index-lt k) in
    ground (
      arith,
      push_all_lem q keys (push k groups) (length-set groups (shard_index k) _ ∙ h),
      member-concat_push q k (shard_index k) groups lt,
      length-concat_push k (shard_index k) groups lt,
    )

-- The groups that the batch methods build hold every key, as often, under its shard.
pub groups_of-Grouped : (keys : List UtxoKey) → Grouped (groups_of keys)
groups_of-Grouped keys = rw (groups_of-push_all keys) (
    push_all-Grouped keys (replicate num_shards []) (record {
      sixteen = refl;
      home = λ i. rw (get_or-replicate num_shards i (let e : List UtxoKey = [] in e)) tt;
    }))

pub groups_of_lem :
    (q : UtxoKey) (keys : List UtxoKey)
    → (member q (concat (groups_of keys)) ≡ member q keys)
      × (length (concat (groups_of keys)) ≡ length keys)
unfolding concat member
groups_of_lem q keys =
    rw (groups_of-push_all keys)
      (ground (arith, push_all_lem q keys (replicate num_shards []) refl))

-- The groups from `idx` on, each with keys of its own shard.
abbrev pub Homed : ℕ → List (List UtxoKey) → Type 0
Homed idx [] = Unit
Homed idx (g ∷ gs) = All (λ k. shard_index k ≡ idx) g × Homed (suc idx) gs

Grouped-Homed :
    (groups : List (List UtxoKey)) (idx : ℕ)
    → ((i : ℕ) → All (λ k. shard_index k ≡ idx + i) (get_or groups i []))
    → Homed idx groups
Grouped-Homed [] idx h = tt
Grouped-Homed (g ∷ gs) idx h = (
  subst (λ t. All (λ k. shard_index k ≡ t) g) (omega arith) (h 0),
  Grouped-Homed gs (suc idx)
      (λ i. subst (λ t. All (λ k. shard_index k ≡ t) (get_or gs i [])) (omega arith) (h (suc i))),
)

pub groups_of-Homed : (keys : List UtxoKey) → Homed 0 (groups_of keys)
groups_of-Homed keys = Grouped-Homed (groups_of keys) 0 (λ i.
    subst (λ t. All (λ k. shard_index k ≡ t) (get_or (groups_of keys) i [])) (omega arith)
      ((groups_of-Grouped keys).home i))

pub length-group_by_shard : (keys : List UtxoKey) → length (group_by_shard keys) ≡ num_shards
length-group_by_shard keys =
    sym (length-map (group_by_shard keys) (resolve keys)) ∙ (groups_of-Grouped keys).sixteen
