-- ===== src/Cache.antt =====
-- cache.c and cache.h: the name server's cache, an open-addressing table over a doubly linked list.
-- Nodes are addresses; 0 is the sentinel `head` and 1 the sentinel `tail`.
pub mod Full
pub mod PutGet
pub mod Reads
use docs_plus_plus.Base.{
  ℕ, zero, suc, ◌+◌, ◌-◌, ◌*◌, ◌%◌, ◌^◌, Bool, true, false, Option, none, some, List, [], ◌∷◌, Text,
  text_eq, ltb, ◌==◌, if◌then◌else◌, length, get_elem?, set, take, replicate,
}
use docs_plus_plus.Codes.{max_filename}

abbrev pub u32 : ℕ
u32 = 2 ^ 32

-- A `char` added to an `unsigned int`, where `char` is signed.
unfoldable pub char_as_u32 : ℕ → ℕ
char_as_u32 c = if ltb c 128 then c else u32 - 256 + c

-- The loop of `hash_string`: `hash = ((hash << 5) + hash) + c`
unfoldable pub hash_loop : ℕ → Text → ℕ
unfolding char_as_u32
hash_loop hash [] = hash
hash_loop hash (c ∷ cs) = hash_loop ((hash * 32 + hash + char_as_u32 c) % u32) cs

unfoldable pub hash_string : Text → ℕ → ℕ
unfolding hash_loop
hash_string str capacity = hash_loop 5381 str % capacity

abbrev pub head : ℕ
head = 0

abbrev pub tail : ℕ
tail = 1

-- The heap of nodes (`key`, `value`, `prev`, `next`), the fields of `LRUCache`, and the address
-- that the next `malloc` of a node returns.
pub record LruCache {ℓ} (A : Type ℓ) : Type ℓ where
  pub key : ℕ → Text
  pub value : ℕ → Option A
  pub prev : ℕ → ℕ
  pub next : ℕ → ℕ
  pub hash_table : List (Option ℕ)
  pub capacity : ℕ
  pub size : ℕ
  pub fresh : ℕ

-- `a[i] = v`, for a field of the nodes.
unfoldable pub store {ℓ} : {A : Type ℓ} → (ℕ → A) → ℕ → A → ℕ → A
store f i v j = if j == i then v else f j

-- `hash_table[hash]`
unfoldable pub slot : List (Option ℕ) → ℕ → Option ℕ
slot [] i = none
slot (s ∷ ss) zero = s
slot (s ∷ ss) (suc i) = slot ss i

module _ {ℓ} {A : Type ℓ} where
  unfoldable pub init_cache : ℕ → LruCache A
  init_cache capacity = record {
    key = λ i. [];
    value = λ i. none;
    prev = λ i. head;
    next = λ i. tail;
    hash_table = replicate capacity none;
    capacity = capacity;
    size = 0;
    fresh = 2;
  }

  unfoldable pub remove_node : LruCache A → ℕ → LruCache A
  unfolding store
  remove_node c node =
      let next = store c.next (c.prev node) (c.next node) in
      record c { next = next; prev = store c.prev (next node) (c.prev node) }

  unfoldable pub add_to_head : LruCache A → ℕ → LruCache A
  unfolding store
  add_to_head c node =
      let next = store c.next node (c.next head) in
      let prev = store c.prev node head in
      record c { next = store next head node; prev = store prev (next head) node }

  unfoldable pub move_to_head : LruCache A → ℕ → LruCache A
  unfolding remove_node add_to_head
  move_to_head c node = add_to_head (remove_node c node) node

  -- The loop of `cache_get` and of `cache_remove`: the slot and the node with the key, if the
  -- loop ends. An outer `none` means that the fuel ran out.
  unfoldable pub probe : ℕ → LruCache A → Text → ℕ → Option (Option (ℕ × ℕ))
  unfolding slot
  probe zero c key hash = none
  probe (suc fuel) c key hash =
      let further = probe fuel c key ((hash + 1) % c.capacity) in
      elim (slot c.hash_table hash) [
        | none ↦ some none
        | some node ↦ if text_eq (c.key node) key then some (some (hash, node)) else further
      ]

  -- `cache_get`: the value, if there is one, and the cache with its node at the head.
  unfoldable pub cache_get : ℕ → LruCache A → Text → Option (LruCache A × Option A)
  unfolding hash_string probe move_to_head
  cache_get fuel c key = elim (probe fuel c key (hash_string key c.capacity)) [
    | none ↦ none
    | some none ↦ some (c, none)
    | some (some (hash, node)) ↦ some (move_to_head c node, c.value node)
  ]

  -- The first loop of `cache_put`, which stops at `original_hash`.
  unfoldable pub probe_once : ℕ → LruCache A → Text → ℕ → ℕ → Option (Option ℕ)
  unfolding slot
  probe_once zero c key hash original_hash = none
  probe_once (suc fuel) c key hash original_hash =
      let hash' = (hash + 1) % c.capacity in
      let further = probe_once fuel c key hash' original_hash in
      elim (slot c.hash_table hash) [
        | none ↦ some none
        | some node ↦
            if text_eq (c.key node) key
            then some (some node)
            else if hash' == original_hash
            then some none
            else further
      ]

  -- "Find empty slot"
  unfoldable pub empty_slot : ℕ → LruCache A → ℕ → Option ℕ
  unfolding slot
  empty_slot zero c hash = none
  empty_slot (suc fuel) c hash =
      let further = empty_slot fuel c ((hash + 1) % c.capacity) in
      elim (slot c.hash_table hash) [ none ↦ some hash | some node ↦ further ]

  -- The slot of a node, from its hash on.
  unfoldable pub slot_of : ℕ → LruCache A → ℕ → ℕ → Option ℕ
  unfolding slot
  slot_of zero c node hash = none
  slot_of (suc fuel) c node hash =
      let further = slot_of fuel c node ((hash + 1) % c.capacity) in
      elim (slot c.hash_table hash) [
        | none ↦ further
        | some other ↦ if other == node then some hash else further
      ]

  -- "Evict if over capacity"
  unfoldable pub evict : ℕ → LruCache A → Option (LruCache A)
  unfolding remove_node slot_of hash_string
  evict fuel c =
      let last = c.prev tail in
      let c' = remove_node c last in
      if ltb c.capacity c.size
      then elim (slot_of fuel c' last (hash_string (c.key last) c.capacity)) [
        | none ↦ none
        | some hash ↦
            some (record c' { hash_table = set c'.hash_table hash none; size = c'.size - 1 })
      ]
      else some c

  -- `create_cache_node`, the store into the table, `add_to_head` and `size++`.
  unfoldable pub add_node : LruCache A → Text → A → ℕ → LruCache A
  unfolding store add_to_head
  add_node c key value hash =
      let node = c.fresh in
      let made = record c {
        key = store c.key node (take (max_filename - 1) key);
        value = store c.value node (some value);
        hash_table = set c.hash_table hash (some node);
        fresh = suc node;
      } in
      let linked = add_to_head made node in record linked { size = linked.size + 1 }

  unfoldable pub cache_put : ℕ → LruCache A → Text → A → Option (LruCache A)
  unfolding probe_once empty_slot add_node evict move_to_head store hash_string
  cache_put fuel c key value =
      let hash = hash_string key c.capacity in
      let add : Option (LruCache A) = elim (empty_slot fuel c hash) [
        | none ↦ none
        | some free ↦ evict fuel (add_node c key value free)
      ] in
      elim (probe_once fuel c key hash hash) [
        | none ↦ none
        | some (some node) ↦
            some (move_to_head (record c { value = store c.value node (some value) }) node)
        | some none ↦ add
      ]

  unfoldable pub cache_remove : ℕ → LruCache A → Text → Option (LruCache A)
  unfolding probe remove_node hash_string
  cache_remove fuel c key = elim (probe fuel c key (hash_string key c.capacity)) [
    | none ↦ none
    | some none ↦ some c
    | some (some (hash, node)) ↦
        let c' = remove_node (record c { hash_table = set c.hash_table hash none }) node in
        some (record c' { size = c'.size - 1 })
  ]

  -- `cache_clear`, with every node freed.
  unfoldable pub cache_clear : LruCache A → LruCache A
  unfolding store
  cache_clear c = record c {
    next = store c.next head tail;
    prev = store c.prev tail head;
    hash_table = replicate c.capacity none;
    size = 0;
  }
