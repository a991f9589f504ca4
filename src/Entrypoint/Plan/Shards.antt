-- ===== src/Entrypoint/Plan/Shards.antt =====
-- The shards of an accepted plan (`_bind_plan_inventory` of runtime/entrypoint.py).
use mathlib.Core.Path.{subst}
use qwen38_flash_next_nvidia.Prelude.{
  ℕ, zero, suc, ◌+◌, ◌≤◌, ◌<◌, ◌≡◌, refl, Bool, true, false, some, List, [], ◌∷◌, pos, ok, all, ltb,
  ◌==◌, if◌then◌else◌, bound, passed, not_refused, Bool-cases, inl, inr, arith, both,
}
use qwen38_flash_next_nvidia.Json.{Value, int, arr, obj, Items, nil, cons, Fields, get, keys_are}
use qwen38_flash_next_nvidia.Entrypoint.{Option}
use qwen38_flash_next_nvidia.Entrypoint.Plan.{
  seen_in, shard_id, bind_shard, bind_shards, below_all, covers, shard_count, nonempty_items,
  bind_plan_inventory, some_text, plan_int, plan_sha256,
}

abbrev pub count : ℕ → List ℕ → ℕ
count i [] = 0
count i (n ∷ ns) = (if n == i then 1 else 0) + count i ns

-- The ids of the shards, put before the ones seen, the last first.
abbrev pub Collected : List ℕ → Items → List ℕ → Type 0
Collected seen nil ids = seen ≡ ids
Collected seen (cons v vs) ids =
    (row : Fields) × (id : ℕ) × (v ≡ obj row)
    × (get row "id" ≡ some (int (pos id)))
    × Collected (id ∷ seen) vs ids

seen_in-count-false : (i : ℕ) (seen : List ℕ) → seen_in i seen ≡ false → count i seen ≡ 0
unfolding seen_in
seen_in-count-false i [] h = refl
seen_in-count-false i (m ∷ seen) h = ground (arith, seen_in-count-false i seen)

seen_in-count-true : (i : ℕ) (seen : List ℕ) → seen_in i seen ≡ true → 1 ≤ count i seen
unfolding seen_in
seen_in-count-true i [] h = cc
seen_in-count-true i (m ∷ seen) h = ground (arith, seen_in-count-true i seen)

below_all-lt : (n : ℕ) (test : ℕ → Bool) (i : ℕ) → below_all n test ≡ true → i < n → test i ≡ true
unfolding below_all
below_all-lt zero test i h l = absurd (omega arith)
below_all-lt (suc n) test i h l = elim (Bool-cases (i == n)) [
  | inl e ↦ let same : n ≡ i = ground arith in subst (λ k. test k ≡ true) same (both (test n) _ h).0
  | inr e ↦ below_all-lt n test i (both (test n) _ h).1 (ground arith)
]

all-below : (c i : ℕ) (seen : List ℕ) → all (λ n. ltb n c) seen ≡ true → c ≤ i → count i seen ≡ 0
all-below c i [] h l = refl
all-below c i (m ∷ seen) h l = ground (arith, all-below c i seen)

shard_id-eq-ok : (o : Option Value) (n : ℕ) → shard_id o ≡ ok n → o ≡ some (int (pos n))
shard_id-eq-ok (some (int (pos m))) n h = cc
shard_id-eq-ok _ n h = cc

bind_shard_sound :
    (seen : List ℕ) (v : Value) (id : ℕ)
    → bind_shard seen v ≡ ok id
    → (row : Fields) × (v ≡ obj row)
      × (get row "id" ≡ some (int (pos id)))
      × (seen_in id seen ≡ false)
unfolding bind_shard
bind_shard_sound seen (obj row) id h =
    passed (keys_are row ("id" ∷ "name" ∷ "offset" ∷ "size" ∷ "sha256" ∷ [])) _ _ h λ a h₁.
      bound (shard_id (get row "id")) _ h₁ λ n b h₂. not_refused (seen_in n seen) _ _ h₂ λ c h₃.
        passed (some_text (get row "name")) _ _ h₃ λ d h₄.
          bound (plan_int row "offset" (pos 0)) _ h₄ λ o e h₅.
            bound (plan_int row "size" (pos 1)) _ h₅ λ s f h₆.
              bound (plan_sha256 row "sha256") _ h₆ λ t g h₇.
                let same : n ≡ id = cc in
                (
                  row,
                  refl,
                  shard_id-eq-ok (get row "id") id
                      (subst (λ k. shard_id (get row "id") ≡ ok k) same b),
                  subst (λ k. seen_in k seen ≡ false) same c,
                )
bind_shard_sound seen _ id h = cc

bind_shards-Collected :
    (vs : Items) (seen ids : List ℕ)
    → ((i : ℕ) → count i seen ≤ 1)
    → bind_shards seen vs ≡ ok ids
    → Collected seen vs ids × ((i : ℕ) → count i ids ≤ 1)
unfolding bind_shards
bind_shards-Collected nil seen ids once h =
    let same : seen ≡ ids = cc in (same, λ i. subst (λ s. count i s ≤ 1) same (once i))
bind_shards-Collected (cons v vs) seen ids once h = bound (bind_shard seen v) _ h λ id e k.
    let (row, a, b, new) = bind_shard_sound seen v id e in
    let (c, once') =
      bind_shards-Collected vs (id ∷ seen) ids
        (λ i. still_once i id (once i) (seen_in-count-false id seen new)) k in
    ((row, id, a, b, c), once')
  where
    still_once : (i id : ℕ) → count i seen ≤ 1 → count id seen ≡ 0 → count i (id ∷ seen) ≤ 1
    still_once i id o z = elim (Bool-cases (id == i)) [
      | inl e ↦
          let same : id ≡ i = ground arith in
          rw e (omega (arith, subst (λ k. count k seen ≡ 0) same z))
      | inr e ↦ rw e (omega (arith, o))
    ]

-- The ids collected are those of the shards, 0 to 127 once each.
pub record Complete (shards : Items) (ids : List ℕ) : Type 0 where
  pub collected : Collected [] shards ids
  pub each_once : (i : ℕ) → i < shard_count → count i ids ≡ 1
  pub no_other : (i : ℕ) → shard_count ≤ i → count i ids ≡ 0

pub bind_plan_inventory-Complete :
    (plan : Fields) (ids : List ℕ)
    → bind_plan_inventory plan ≡ ok ids
    → (shards : Items) × (get plan "shards" ≡ some (arr shards)) × Complete shards ids
unfolding bind_plan_inventory covers
bind_plan_inventory-Complete plan ids h =
    bound (nonempty_items (get plan "shards")) _ h λ shards a h₁.
      bound (bind_shards [] shards) _ h₁ λ seen b h₂.
        passed (covers shard_count seen) _ _ h₂ λ c h₃.
          let same : seen ≡ ids = cc in
          (
            shards,
            nonempty_items-eq-ok (get plan "shards") shards a,
            subst (λ s. Complete shards s) same (complete shards seen b c),
          )
  where
    nonempty_items-eq-ok :
        (o : Option Value) (vs : Items) → nonempty_items o ≡ ok vs → o ≡ some (arr vs)
    nonempty_items-eq-ok (some (arr (cons v vs))) ws h = cc
    nonempty_items-eq-ok _ ws h = cc

    complete :
        (shards : Items) (seen : List ℕ)
        → bind_shards [] shards ≡ ok seen
        → covers shard_count seen ≡ true
        → Complete shards seen
    complete shards seen b c =
        let (from, once) = bind_shards-Collected shards [] seen (λ i. omega arith) b in
        let (small, every) = both (all (λ n. ltb n shard_count) seen) _ c in
        record {
          collected = from;
          each_once = λ i l. omega (
            arith,
            once i,
            seen_in-count-true i seen (below_all-lt shard_count (λ n. seen_in n seen) i every l),
          );
          no_other = λ i l. all-below shard_count i seen small l;
        }
