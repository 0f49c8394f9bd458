-- ===== src/Witnesses/Lookups.antt =====
-- trie.c and cache.c at concrete inputs.
use docs_plus_plus.Base.{
  length, ◌≤◌, ℕ, zero, suc, ◌<◌, ◌≡◌, refl, false, Option, none, some, List, [], ◌∷◌, Text,
  text_eq, arith,
}
use docs_plus_plus.Trie.Listing.{length-trie_get_all_files}
use docs_plus_plus.Trie.{trie_get_all_files, init_trie, create_trie_node, is_null}
use docs_plus_plus.Trie.Refinement.{
  Call, insert, update, delete, view, trie_run, dict_run, run-Refines,
}
use docs_plus_plus.Cache.{LruCache, slot, cache_get, cache_put, head, tail}
use docs_plus_plus.Cache.Full.{IsFullWithout, full_table}
use docs_plus_plus.Cache.Reads.{IsTable}
use docs_plus_plus.Cache.PutGet.{PutGives, cache_get-cache_put}

abbrev name_a : Text
name_a = 97 ∷ []

abbrev name_b : Text
name_b = 98 ∷ []

abbrev not_ascii : Text
not_ascii = 195 ∷ 169 ∷ []

abbrev some_calls : List (Call ℕ)
some_calls =
    insert name_a 1
    ∷ insert (97 ∷ 98 ∷ []) 2
    ∷ insert not_ascii 3
    ∷ update name_b 4
    ∷ delete name_a
    ∷ []

run-Refines_example :
    (view (trie_run some_calls init_trie).0 ≡ (dict_run some_calls (view init_trie)).0)
    × ((trie_run some_calls init_trie).1 ≡ (dict_run some_calls (view init_trie)).1)
unfolding init_trie create_trie_node is_null
run-Refines_example = run-Refines some_calls init_trie refl

-- A cache with `name_a` at the slot 0.
abbrev one_entry : ℕ → List (Option ℕ) → LruCache ℕ
one_entry capacity table = record {
  key = λ n. name_a;
  value = λ n. some 5;
  prev = λ n. head;
  next = λ n. tail;
  hash_table = table;
  capacity = capacity;
  size = 1;
  fresh = 3;
}

abbrev two_slots : List (Option ℕ)
two_slots = some 2 ∷ none ∷ []

two_slots-made : (h n : ℕ) → slot two_slots h ≡ some n → n < 3
unfolding slot
two_slots-made zero n e = let same : n ≡ 2 = cc in omega arith
two_slots-made (suc zero) n e = cc
two_slots-made (suc (suc h)) n e = cc

two_slots-IsTable : IsTable (one_entry 2 two_slots)
two_slots-IsTable = record { positive = omega arith; sized = refl; made = two_slots-made }

cache_get-cache_put_example : PutGives 2 (one_entry 2 two_slots) name_b 7
unfolding slot
cache_get-cache_put_example =
    cache_get-cache_put 2 (one_entry 2 two_slots) name_b 7 1 two_slots-IsTable (omega arith)
      (omega arith) refl (omega arith) (omega arith)

full-IsFullWithout : IsFullWithout (one_entry 1 (some 2 ∷ [])) name_b
unfolding slot text_eq
full-IsFullWithout = record { positive = omega arith; taken = taken }
  where
    taken :
        (h : ℕ)
        → h < 1
        → (n : ℕ) × (slot (some 2 ∷ []) h ≡ some n) × (text_eq name_a name_b ≡ false)
    taken zero b = (2, refl, refl)
    taken (suc h) b = absurd (omega arith)

full_table_example :
    (cache_get 9 (one_entry 1 (some 2 ∷ [])) name_b ≡ none)
    × (cache_put 9 (one_entry 1 (some 2 ∷ [])) name_b 7 ≡ none)
full_table_example = full_table (one_entry 1 (some 2 ∷ [])) name_b 7 full-IsFullWithout 9

length-trie_get_all_files_example :
    length (trie_get_all_files (trie_run some_calls init_trie).0 1) ≤ 1
length-trie_get_all_files_example = length-trie_get_all_files (trie_run some_calls init_trie).0 1
