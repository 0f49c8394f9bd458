-- ===== src/Cache/Full.antt =====
-- cache.c: a cache whose table has no empty slot.
use docs_plus_plus.Base.{
  ℕ, zero, suc, ◌+◌, ◌%◌, ◌<◌, ◌≡◌, refl, ◌⊎◌, inl, inr, false, none, some, Text, text_eq, ◌==◌,
  Bool-cases, arith,
}
use docs_plus_plus.Cache.{
  LruCache, slot, probe, probe_once, empty_slot, cache_get, cache_put, hash_string,
}

module _ {ℓ} {A : Type ℓ} where
  -- Every slot of the table is taken, and none by a node with the key.
  pub record IsFullWithout (c : LruCache A) (key : Text) : Type 0 where
    pub positive : 0 < c.capacity
    pub taken :
        (h : ℕ)
        → h < c.capacity
        → (n : ℕ) × (slot c.hash_table h ≡ some n) × (text_eq (c.key n) key ≡ false)

  module _ (c : LruCache A) (key : Text) (full : IsFullWithout c key) where
    next_inside : (h : ℕ) → (h + 1) % c.capacity < c.capacity
    next_inside h = let p = full.positive in omega arith

    hash_inside : hash_string key c.capacity < c.capacity
    unfolding hash_string
    hash_inside = let p = full.positive in omega arith

    probe_endless : (fuel h : ℕ) → h < c.capacity → probe fuel c key h ≡ none
    unfolding probe
    probe_endless zero h b = refl
    probe_endless (suc fuel) h b =
        let (n, at, other) = full.taken h b in
        rw (at, probe, other) (probe_endless fuel ((h + 1) % c.capacity) (next_inside h))

    empty_slot_endless : (fuel h : ℕ) → h < c.capacity → empty_slot fuel c h ≡ none
    unfolding empty_slot
    empty_slot_endless zero h b = refl
    empty_slot_endless (suc fuel) h b =
        let (n, at, other) = full.taken h b in
        rw (at, empty_slot) (empty_slot_endless fuel ((h + 1) % c.capacity) (next_inside h))

    -- The first loop of `cache_put` can only end by coming round.
    probe_once_misses :
        (fuel h h₀ : ℕ)
        → h < c.capacity
        → (probe_once fuel c key h h₀ ≡ none) ⊎ (probe_once fuel c key h h₀ ≡ some none)
    unfolding probe_once
    probe_once_misses zero h h₀ b = inl refl
    probe_once_misses (suc fuel) h h₀ b =
        let (n, at, other) = full.taken h b in
        elim (Bool-cases (((h + 1) % c.capacity) == h₀)) [
          | inl round ↦ inr (rw (at, probe_once, other, round) refl)
          | inr on ↦
              rw (at, probe_once, other, on)
                (probe_once_misses fuel ((h + 1) % c.capacity) h₀ (next_inside h))
        ]

  cache_get_full :
      (c : LruCache A) (key : Text) → IsFullWithout c key → (fuel : ℕ) → cache_get fuel c key ≡ none
  unfolding cache_get
  cache_get_full c key full fuel =
      rw
        (
          probe_endless c key full fuel (hash_string key c.capacity) (hash_inside c key full),
          cache_get,
        )
        refl

  cache_put_full :
      (c : LruCache A) (key : Text) (value : A)
      → IsFullWithout c key
      → (fuel : ℕ) → cache_put fuel c key value ≡ none
  unfolding cache_put
  cache_put_full c key value full fuel =
      let h = hash_string key c.capacity in
      let b = hash_inside c key full in
      elim (probe_once_misses c key full fuel h h b) [
        | inl out ↦ rw (out, cache_put) refl
        | inr missed ↦ rw (missed, cache_put, empty_slot_endless c key full fuel h b) refl
      ]

  -- With a full table, neither a lookup nor a put of a key that is not in it ever returns, however
  -- long it runs.
  pub full_table :
      (c : LruCache A) (key : Text) (value : A)
      → IsFullWithout c key
      → (fuel : ℕ) → (cache_get fuel c key ≡ none) × (cache_put fuel c key value ≡ none)
  full_table c key value full fuel =
      (cache_get_full c key full fuel, cache_put_full c key value full fuel)
