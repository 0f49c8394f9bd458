-- ===== src/Cache/PutGet.antt =====
-- cache.c: `cache_put` in a table with an empty slot, and the lookup after it.
use docs_plus_plus.Base.{
  ℕ, zero, suc, ◌+◌, ◌-◌, ◌%◌, ◌<◌, ◌≤◌, ◌≡◌, refl, sym, ◌∙◌, inl, inr, ◌⊎◌, true, false, Option,
  none, some, Text, text_eq, text_eq_refl, ltb, ◌==◌, length, take_of_length-le, Bool-cases,
  Option-cases, arith, subst, ap, dec_lt, mod-eq_of_lt, mod_self, mod-lt,
}
use docs_plus_plus.Codes.{max_filename}
use docs_plus_plus.Cache.{
  LruCache, slot, store, probe, probe_once, empty_slot, add_node, add_to_head, remove_node,
  move_to_head, evict, cache_get, cache_put, hash_string, hash_loop,
}
use docs_plus_plus.Cache.Reads.{
  IsTable, slot-set, empty_slot-is_empty, Found-at_start, probe-probe_once,
}

wrap : (h m : ℕ) → h < m → ((suc h < m) × ((h + 1) % m ≡ suc h)) ⊎ ((suc h ≡ m) × ((h + 1) % m ≡ 0))
wrap h m l = elim (dec_lt (suc h) m) [
  | yes b ↦ inl (b, ap (λ i. i % m) next ∙ mod-eq_of_lt b)
  | no b ↦ let e : suc h ≡ m = omega arith in inr (e, ap (λ i. i % m) (next ∙ e) ∙ mod_self m)
]
  where
    next : h + 1 ≡ suc h
    next = omega arith

module _ {ℓ} {A : Type ℓ} where
  -- `free` is `d` slots after `h`, around the end of the table or not.
  abbrev Ahead : LruCache A → ℕ → ℕ → ℕ → Type 0
  Ahead c h d free = (h < c.capacity) × ((h + d ≡ free) ⊎ (h + d ≡ free + c.capacity))

  Ahead-step :
      (c : LruCache A) (h d free : ℕ)
      → free < c.capacity
      → Ahead c h (suc d) free
      → Ahead c ((h + 1) % c.capacity) d free
  Ahead-step c h d free b (l, at) = elim (wrap h c.capacity l) [
    | inl (l', e) ↦
        subst (λ i. Ahead c i d free) (sym e)
          (l', elim at [ inl a ↦ inl (omega arith) | inr a ↦ inr (omega arith) ])
    | inr (l', e) ↦
        subst (λ i. Ahead c i d free) (sym e)
          (omega arith, elim at [ inl a ↦ absurd (omega arith) | inr a ↦ inl (omega arith) ])
  ]

  empty_slot-returns :
      (d f : ℕ) (c : LruCache A) (h free : ℕ)
      → free < c.capacity
      → slot c.hash_table free ≡ none
      → d < f
      → Ahead c h d free
      → (at : ℕ) × (empty_slot f c h ≡ some at)
  unfolding empty_slot
  empty_slot-returns d zero c h free b e l a = absurd (omega arith)
  empty_slot-returns zero (suc f) c h free b e l (l', a) =
      let same : h ≡ free = omega arith in (h, rw (same, empty_slot, e, same) refl)
  empty_slot-returns (suc d) (suc f) c h free b e l a = elim (Option-cases (slot c.hash_table h)) [
    | inl at ↦ (h, rw (at, empty_slot) refl)
    | inr (n, at) ↦
        let (place, rest) =
          empty_slot-returns d f c ((h + 1) % c.capacity) free b e (omega arith)
            (Ahead-step c h d free b a) in
        (place, rw (at, empty_slot) rest)
  ]

  probe_once-returns :
      (d f : ℕ) (c : LruCache A) (key : Text) (h h₀ free : ℕ)
      → free < c.capacity
      → slot c.hash_table free ≡ none
      → d < f
      → Ahead c h d free
      → (r : Option ℕ) × (probe_once f c key h h₀ ≡ some r)
  unfolding probe_once
  probe_once-returns d zero c key h h₀ free b e l a = absurd (omega arith)
  probe_once-returns zero (suc f) c key h h₀ free b e l (l', a) =
      let same : h ≡ free = omega arith in (none, rw (same, probe_once, e) refl)
  probe_once-returns (suc d) (suc f) c key h h₀ free b e l a =
      elim (Option-cases (slot c.hash_table h)) [
        | inl at ↦ (none, rw (at, probe_once) refl)
        | inr (n, at) ↦
            let (r, rest) =
              probe_once-returns d f c key ((h + 1) % c.capacity) h₀ free b e (omega arith)
                (Ahead-step c h d free b a) in
            elim (Bool-cases (text_eq (c.key n) key)) [
              | inl hit ↦ (some n, rw (at, probe_once, hit) refl)
              | inr other ↦ elim (Bool-cases (((h + 1) % c.capacity) == h₀)) [
                | inl round ↦ (none, rw (at, probe_once, other, round) refl)
                | inr on ↦ (r, rw (at, probe_once, other, on) rest)
              ]
            ]
      ]

  Ahead-free :
      (c : LruCache A) (h free : ℕ)
      → h < c.capacity
      → free < c.capacity
      → (d : ℕ) × (d < c.capacity) × Ahead c h d free
  Ahead-free c h free l b = elim (dec_lt free h) [
    | yes o ↦ (free + c.capacity - h, omega arith, (l, inr (omega arith)))
    | no o ↦ (free - h, omega arith, (l, inl (omega arith)))
  ]

  -- What a lookup gives in the cache `c'`.
  abbrev pub Gives : ℕ → LruCache A → Text → A → Type ℓ
  Gives fuel c' key v = (c'' : LruCache A) × (cache_get fuel c' key ≡ some (c'', some v))

  Gives-probe :
      (fuel : ℕ) (c : LruCache A) (key : Text) (v : A) (at node : ℕ)
      → probe fuel c key (hash_string key c.capacity) ≡ some (some (at, node))
      → c.value node ≡ some v
      → Gives fuel c key v
  unfolding cache_get
  Gives-probe fuel c key v at node e ve = (move_to_head c node, rw (e, cache_get, ve) refl)

  abbrev pub PutGives : ℕ → LruCache A → Text → A → Type ℓ
  PutGives fuel c key v =
      (c' : LruCache A) × (cache_put fuel c key v ≡ some c') × Gives fuel c' key v

  -- The insertion of a new node.
  put_new :
      (fuel : ℕ) (c : LruCache A) (key : Text) (v : A) (place : ℕ)
      → IsTable c
      → c.size < c.capacity
      → length key < max_filename
      → probe_once fuel c key (hash_string key c.capacity) (hash_string key c.capacity) ≡ some none
      → empty_slot fuel c (hash_string key c.capacity) ≡ some place
      → hash_string key c.capacity < c.capacity
      → PutGives fuel c key v
  unfolding cache_put evict add_node add_to_head store
  put_new fuel c key v place t room short missed e hl = (
    c',
    rw (missed, cache_put, e, evict, stays) refl,
    Gives-probe fuel c' key v place c.fresh found is_v,
  )
    where
      c' : LruCache A
      c' = add_node c key v place

      empty : (slot c.hash_table place ≡ none) × (place < c.capacity)
      empty = empty_slot-is_empty fuel c (hash_string key c.capacity) place t.positive hl e

      stays : ltb c.capacity (c.size + 1) ≡ false
      stays = ground arith

      new : (c.fresh == c.fresh) ≡ true
      new = ground arith

      old : (n : ℕ) → n < c.fresh → (n == c.fresh) ≡ false
      old n l = ground arith

      is_v : c'.value c.fresh ≡ some v
      is_v = rw new refl

      own : text_eq (c'.key c.fresh) key ≡ true
      own = rw (new, take_of_length-le (max_filename - 1) key (omega arith)) (text_eq_refl key)

      found : probe fuel c' key (hash_string key c.capacity) ≡ some (some (place, c.fresh))
      found =
          Found-at_start c c' key place c.fresh (hash_string key c.capacity) t.positive refl
            (λ h. slot-set c.hash_table place h (some c.fresh) (omega (arith, t.sized, empty)))
            (λ h n at. rw (old n (t.made h n at)) refl) own empty.0 (suc fuel) fuel fuel
            (omega arith) missed e

  -- The update of a node.
  put_old :
      (fuel : ℕ) (c : LruCache A) (key : Text) (v : A) (node : ℕ)
      → probe_once fuel c key (hash_string key c.capacity) (hash_string key c.capacity)
        ≡ some (some node)
      → PutGives fuel c key v
  unfolding cache_put move_to_head remove_node add_to_head store
  put_old fuel c key v node hit =
      let (at, found) =
        probe-probe_once fuel c c' key (hash_string key c.capacity) (hash_string key c.capacity)
          node refl (λ i. refl) (λ n. refl) hit in
      (c', rw (hit, cache_put) refl, Gives-probe fuel c' key v at node found (rw same refl))
    where
      same : (node == node) ≡ true
      same = ground arith

      c' : LruCache A
      c' = move_to_head (record c { value = store c.value node (some v) }) node

  -- In a table with a free slot, fewer nodes than `capacity` and only nodes that have been made,
  -- and with a key shorter than `MAX_FILENAME`: `capacity` rounds of each loop are enough for
  -- `cache_put` to return, and `cache_get` of the key then returns the value put.
  pub cache_get-cache_put :
      (fuel : ℕ) (c : LruCache A) (key : Text) (v : A) (free : ℕ)
      → IsTable c
      → c.size < c.capacity
      → free < c.capacity
      → slot c.hash_table free ≡ none
      → c.capacity ≤ fuel
      → length key < max_filename
      → PutGives fuel c key v
  unfolding hash_string
  cache_get-cache_put fuel c key v free t room b empty enough short =
      let start = hash_string key c.capacity in
      let hl : start < c.capacity = mod-lt (hash_loop 5381 key) t.positive in
      let (d, l, ahead) = Ahead-free c start free hl b in
      let (r, missed) =
        probe_once-returns d fuel c key start start free b empty (omega arith) ahead in
      let (place, e) = empty_slot-returns d fuel c start free b empty (omega arith) ahead in
      elim (Option-cases r) [
        | inl is_none ↦ put_new fuel c key v place t room short (rw (← is_none) missed) e hl
        | inr (node, is_some) ↦ put_old fuel c key v node (rw (← is_some) missed)
      ]
