-- ===== src/Cache/Reads.antt =====
-- cache.c: what a lookup finds right after `cache_put`.
use docs_plus_plus.Base.{
  ℕ, zero, suc, ◌+◌, ◌%◌, ◌<◌, ◌≡◌, refl, sym, subst, ◌∙◌, inl, inr, true, false, Option, none,
  some, List, [], ◌∷◌, Text, text_eq, ◌==◌, if◌then◌else◌, length, set, Bool-cases, Option-cases,
  arith,
}
use docs_plus_plus.Cache.{LruCache, slot, probe, probe_once, empty_slot}

-- The table has one slot for each unit of capacity, and its nodes have been made.
pub record IsTable {ℓ} {A : Type ℓ} (c : LruCache A) : Type 0 where
  pub positive : 0 < c.capacity
  pub sized : length c.hash_table ≡ c.capacity
  pub made : (h n : ℕ) → slot c.hash_table h ≡ some n → n < c.fresh

pub slot-set :
    (t : List (Option ℕ)) (i j : ℕ) (s : Option ℕ)
    → i < length t
    → slot (set t i s) j ≡ (if j == i then s else slot t j)
unfolding slot
slot-set [] i j s h = absurd (omega arith)
slot-set (x ∷ t) zero zero s h = refl
slot-set (x ∷ t) zero (suc j) s h = ground arith
slot-set (x ∷ t) (suc i) zero s h = ground arith
slot-set (x ∷ t) (suc i) (suc j) s h = ground (arith, slot-set t i j s (omega arith))

pub some_inj {ℓ} : {A : Type ℓ} {a b : A} → some a ≡ some b → a ≡ b
some_inj e = cc

pub none≢some {ℓ} : {A : Type ℓ} {a : A} → none ≡ some a → ⊥
none≢some e = cc

miss_hit {ℓ} : {A : Type ℓ} {a : A} → some none ≡ some (some a) → ⊥
miss_hit e = cc

hit_missed {ℓ} : {A : Type ℓ} (a : A) → some (some a) ≡ some none → ⊥
hit_missed a e = cc

module _ {ℓ} {A : Type ℓ} where
  pub empty_slot-is_empty :
      (fuel : ℕ) (c : LruCache A) (h free : ℕ)
      → 0 < c.capacity
      → h < c.capacity
      → empty_slot fuel c h ≡ some free
      → (slot c.hash_table free ≡ none) × (free < c.capacity)
  unfolding empty_slot
  empty_slot-is_empty zero c h free p b e = cc
  empty_slot-is_empty (suc fuel) c h free p b e = elim (Option-cases (slot c.hash_table h)) [
    | inl at ↦ let here : h ≡ free = some_inj (rw (at, empty_slot) at e) in rw (← here) (at, b)
    | inr (n, at) ↦
        empty_slot-is_empty fuel c ((h + 1) % c.capacity) free p (omega arith)
          (rw (at, empty_slot) at e)
  ]

  -- What a state of the table must keep for the probes before `free` to go on as they did.
  module _ (c c' : LruCache A) (key : Text) (free node : ℕ) (h₀ : ℕ) (p : 0 < c.capacity)
      (cap : c'.capacity ≡ c.capacity)
      (slots : (h : ℕ)
        → slot c'.hash_table h ≡ (if h == free then some node else slot c.hash_table h))
      (keys : (h n : ℕ) → slot c.hash_table h ≡ some n → c'.key n ≡ c.key n)
      (own : text_eq (c'.key node) key ≡ true) (gap : slot c.hash_table free ≡ none) where
    abbrev pub Found : ℕ → ℕ → Type 0
    Found f h = probe f c' key h ≡ some (some (free, node))

    Found-here : (f h : ℕ) → h ≡ free → Found (suc f) h
    unfolding probe
    Found-here f h e =
        let there : slot c'.hash_table h ≡ some node = slots h ∙ rw same refl in
        rw (there, probe, own, e) refl
      where
        same : (h == free) ≡ true
        same = ground arith

    Found-later :
        (f h n : ℕ)
        → slot c.hash_table h ≡ some n
        → text_eq (c.key n) key ≡ false
        → Found f ((h + 1) % c.capacity)
        → Found (suc f) h
    unfolding probe
    Found-later f h n at other rest =
        let there : slot c'.hash_table h ≡ some n = slots h ∙ rw apart at in
        let differs : text_eq (c'.key n) key ≡ false = rw (keys h n at) other in
        let rest' : probe f c' key ((h + 1) % c'.capacity) ≡ some (some (free, node)) =
          subst (λ m. probe f c' key ((h + 1) % m) ≡ some (some (free, node))) (sym cap) rest in
        rw (there, probe, differs) rest'
      where
        apart : (h == free) ≡ false
        apart = elim (Bool-cases (h == free)) [
          | inl same ↦
              let e : h ≡ free = ground arith in absurd (none≢some {a = n} (sym gap ∙ rw (← e) at))
          | inr other' ↦ other'
        ]

    -- The first loop missed the key from `h` on, and the second found `free`: so does a lookup.
    Found-from :
        (fuel f h : ℕ)
        → probe_once fuel c key h h₀ ≡ some none
        → empty_slot f c h ≡ some free
        → ((f' : ℕ) → f' < f → empty_slot f' c h₀ ≡ some free → Found f' h₀)
        → Found f h
    unfolding probe_once empty_slot
    Found-from zero f h missed e again = cc
    Found-from (suc fuel) zero h missed e again = cc
    Found-from (suc fuel) (suc f) h missed e again = elim (Option-cases (slot c.hash_table h)) [
      | inl at ↦ Found-here f h (some_inj (rw (at, empty_slot) at e))
      | inr (n, at) ↦
          let e' : empty_slot f c ((h + 1) % c.capacity) ≡ some free = rw (at, empty_slot) at e in
          elim (Bool-cases (text_eq (c.key n) key)) [
            | inl hit ↦ absurd (hit_missed n (rw (at, probe_once, hit) at missed))
            | inr other ↦
                Found-later f h n at other (elim (Bool-cases (((h + 1) % c.capacity) == h₀)) [
                  | inl round ↦
                      let r : (h + 1) % c.capacity ≡ h₀ = ground arith in
                      rw r (again f (omega arith) (rw r at e'))
                  | inr on ↦
                      Found-from fuel f ((h + 1) % c.capacity)
                        (rw (at, probe_once, other, on) at missed) e'
                        (λ f' l. again f' (omega arith))
                ])
          ]
    ]

    pub Found-at_start :
        (bound fuel f : ℕ)
        → f < bound
        → probe_once fuel c key h₀ h₀ ≡ some none
        → empty_slot f c h₀ ≡ some free
        → Found f h₀
    Found-at_start zero fuel f l missed e = absurd (omega arith)
    Found-at_start (suc bound) fuel f l missed e =
        Found-from fuel f h₀ missed e
          (λ f' l' e'. Found-at_start bound fuel f' (omega arith) missed e')

  -- Where the first loop finds the key, a lookup finds the same node.
  pub probe-probe_once :
      (fuel : ℕ) (c c' : LruCache A) (key : Text) (h h₀ node : ℕ)
      → c'.capacity ≡ c.capacity
      → ((i : ℕ) → slot c'.hash_table i ≡ slot c.hash_table i)
      → ((n : ℕ) → c'.key n ≡ c.key n)
      → probe_once fuel c key h h₀ ≡ some (some node)
      → (at : ℕ) × (probe fuel c' key h ≡ some (some (at, node)))
  unfolding probe probe_once
  probe-probe_once zero c c' key h h₀ node cap slots keys e = cc
  probe-probe_once (suc fuel) c c' key h h₀ node cap slots keys e =
      elim (Option-cases (slot c.hash_table h)) [
        | inl at ↦ absurd (miss_hit (rw (at, probe_once) at e))
        | inr (n, at) ↦
            let there : slot c'.hash_table h ≡ some n = slots h ∙ at in
            elim (Bool-cases (text_eq (c.key n) key)) [
              | inl hit ↦
                  let same : n ≡ node = some_inj (some_inj (rw (at, probe_once, hit) at e)) in
                  let hit' : text_eq (c'.key n) key ≡ true = rw (keys n) hit in
                  (h, rw (there, probe, hit', same) refl)
              | inr other ↦ elim (Bool-cases (((h + 1) % c.capacity) == h₀)) [
                | inl round ↦ absurd (miss_hit (rw (at, probe_once, other, round) at e))
                | inr on ↦
                    let (place, rest) =
                      probe-probe_once fuel c c' key ((h + 1) % c.capacity) h₀ node cap slots keys
                        (rw (at, probe_once, other, on) at e) in
                    let other' : text_eq (c'.key n) key ≡ false = rw (keys n) other in
                    let rest' : probe fuel c' key ((h + 1) % c'.capacity)
                        ≡ some (some (place, node)) =
                      subst (λ m. probe fuel c' key ((h + 1) % m) ≡ some (some (place, node)))
                        (sym cap) rest in
                    (place, rw (there, probe, other') rest')
              ]
            ]
      ]
