-- ===== src/Server/StrMap.antt =====
-- std::map with string keys, as the registry uses it: the entries in the order of their keys.
-- A string is the list of its bytes, and the order is the lexicographic one.
use deepspan.Common.{
  ℕ, ◌<◌, ◌≡◌, ◌≢◌, ◌⊎◌, inl, inr, refl, sym, subst, ap₂, ◌∙◌, if◌then◌else◌, ltb, ◌==◌, Option,
  none, some, List, [], ◌∷◌, arith,
}

abbrev pub Str : Type 0
Str = List ℕ

pub data Cmp : Type 0 where
  less equal greater : Cmp

abbrev heads : ℕ → ℕ → Cmp → Cmp
heads x y rest = if x == y then rest else if ltb x y then less else greater

unfoldable pub cmp : Str → Str → Cmp
cmp [] [] = equal
cmp [] (y ∷ ys) = less
cmp (x ∷ xs) [] = greater
cmp (x ∷ xs) (y ∷ ys) = heads x y (cmp xs ys)

heads-equal : (x y : ℕ) (r : Cmp) → heads x y r ≡ equal → (x ≡ y) × (r ≡ equal)
heads-equal x y r e = (ground (arith, e), ground (arith, e))

heads-less : (x y : ℕ) (r : Cmp) → heads x y r ≡ less → (x < y) ⊎ ((x ≡ y) × (r ≡ less))
heads-less x y r e = ground (arith, e)

heads_less : (x y : ℕ) (r : Cmp) → (x < y) ⊎ ((x ≡ y) × (r ≡ less)) → heads x y r ≡ less
heads_less x y r (inl h) = ground (arith, h)
heads_less x y r (inr (e, h)) = ground (arith, e, h)

heads-greater : (x y : ℕ) (r : Cmp) → heads x y r ≡ greater → (y < x) ⊎ ((x ≡ y) × (r ≡ greater))
heads-greater x y r e = ground (arith, e)

pub cmp_refl : (a : Str) → cmp a a ≡ equal
unfolding cmp
cmp_refl [] = refl
cmp_refl (x ∷ xs) = ground (arith, cmp_refl xs)

pub cmp-equal : (a b : Str) → cmp a b ≡ equal → a ≡ b
unfolding cmp
cmp-equal [] [] e = refl
cmp-equal [] (y ∷ ys) e = absurd cc
cmp-equal (x ∷ xs) [] e = absurd cc
cmp-equal (x ∷ xs) (y ∷ ys) e =
    let (h, t) = heads-equal x y (cmp xs ys) e in ap₂ ◌∷◌ h (cmp-equal xs ys t)

pub cmp-greater : (a b : Str) → cmp a b ≡ greater → cmp b a ≡ less
unfolding cmp
cmp-greater [] [] e = absurd cc
cmp-greater [] (y ∷ ys) e = absurd cc
cmp-greater (x ∷ xs) [] e = refl
cmp-greater (x ∷ xs) (y ∷ ys) e =
    heads_less y x (cmp ys xs) (elim (heads-greater x y (cmp xs ys) e) [
      | inl h ↦ inl h
      | inr (h, t) ↦ inr (sym h, cmp-greater xs ys t)
    ])

heads_flip :
    (x y : ℕ) (r t : Cmp) → (r ≡ less → t ≡ greater) → heads x y r ≡ less → heads y x t ≡ greater
heads_flip x y r t go e = elim (heads-less x y r e) [
  | inl h ↦ ground (arith, h)
  | inr (h, l) ↦ ground (arith, h, go l)
]

pub cmp-less_flip : (a b : Str) → cmp a b ≡ less → cmp b a ≡ greater
unfolding cmp
cmp-less_flip [] [] e = absurd cc
cmp-less_flip [] (y ∷ ys) e = refl
cmp-less_flip (x ∷ xs) [] e = absurd cc
cmp-less_flip (x ∷ xs) (y ∷ ys) e = heads_flip x y (cmp xs ys) (cmp ys xs) (cmp-less_flip xs ys) e

chain :
    (x y z : ℕ) (r t u : Cmp)
    → (r ≡ less → t ≡ less → u ≡ less)
    → (x < y) ⊎ ((x ≡ y) × (r ≡ less))
    → (y < z) ⊎ ((y ≡ z) × (t ≡ less))
    → (x < z) ⊎ ((x ≡ z) × (u ≡ less))
chain x y z r t u go (inl h) (inl k) = inl (omega arith)
chain x y z r t u go (inl h) (inr (k, l)) = inl (omega arith)
chain x y z r t u go (inr (h, l)) (inl k) = inl (omega arith)
chain x y z r t u go (inr (h, l)) (inr (k, m)) = inr (h ∙ k, go l m)

pub cmp-less_trans : (a b c : Str) → cmp a b ≡ less → cmp b c ≡ less → cmp a c ≡ less
unfolding cmp
cmp-less_trans [] [] c p q = absurd cc
cmp-less_trans a (y ∷ ys) [] p q = absurd cc
cmp-less_trans [] (y ∷ ys) (z ∷ zs) p q = refl
cmp-less_trans (x ∷ xs) [] c p q = absurd cc
cmp-less_trans (x ∷ xs) (y ∷ ys) (z ∷ zs) p q = heads_less x z (cmp xs zs) (
    chain x y z (cmp xs ys) (cmp ys zs) (cmp xs zs) (cmp-less_trans xs ys zs)
      (heads-less x y (cmp xs ys) p) (heads-less y z (cmp ys zs) q))

module _ {V : Type 0} where
  -- operator[] = and insert.
  unfoldable pub insert : Str → V → List (Str × V) → List (Str × V)
  insert k v [] = (k, v) ∷ []
  insert k v ((k', v') ∷ m) =
      let rest = insert k v m in
      elim (cmp k k') [
        | less ↦ (k, v) ∷ (k', v') ∷ m
        | equal ↦ (k, v) ∷ m
        | greater ↦ (k', v') ∷ rest
      ]

  unfoldable pub erase : Str → List (Str × V) → List (Str × V)
  erase k [] = []
  erase k ((k', v') ∷ m) =
      let rest = erase k m in elim (cmp k k') [ equal ↦ m | _ ↦ (k', v') ∷ rest ]

  unfoldable pub find : Str → List (Str × V) → Option V
  find k [] = none
  find k ((k', v') ∷ m) = let rest = find k m in elim (cmp k k') [ equal ↦ some v' | _ ↦ rest ]

  -- Every key of the map comes after `k`.
  unfoldable pub After : Str → List (Str × V) → Type 0
  After k [] = Unit
  After k ((k', v') ∷ m) = (cmp k k' ≡ less) × After k m

  unfoldable pub IsMap : List (Str × V) → Type 0
  IsMap [] = Unit
  IsMap ((k, v) ∷ m) = After k m × IsMap m

  pub After-trans : (j k : Str) (m : List (Str × V)) → cmp j k ≡ less → After k m → After j m
  unfolding After
  After-trans j k [] l a = tt
  After-trans j k ((k', v') ∷ m) l (h, a) = (cmp-less_trans j k k' l h, After-trans j k m l a)

  After-insert :
      (j k : Str) (v : V) (m : List (Str × V)) → cmp j k ≡ less → After j m → After j (insert k v m)
  unfolding After insert
  After-insert j k v [] l a = (l, tt)
  After-insert j k v ((k', v') ∷ m) l (h, a) =
      elim (cmp k k')
        as (λ c. After j (elim c [
          | less ↦ (k, v) ∷ (k', v') ∷ m
          | equal ↦ (k, v) ∷ m
          | greater ↦ (k', v') ∷ insert k v m
        ])) [ less ↦ (l, (h, a)) | equal ↦ (l, a) | greater ↦ (h, After-insert j k v m l a) ]

  pub IsMap-insert : (k : Str) (v : V) (m : List (Str × V)) → IsMap m → IsMap (insert k v m)
  unfolding IsMap insert After
  IsMap-insert k v [] s = (tt, tt)
  IsMap-insert k v ((k', v') ∷ m) (a, s) = go (cmp k k') (IsMap-insert k v m s) refl
    where
      go :
          (c : Cmp)
          → IsMap (insert k v m)
          → cmp k k' ≡ c
          → IsMap (elim c [
            | less ↦ (k, v) ∷ (k', v') ∷ m
            | equal ↦ (k, v) ∷ m
            | greater ↦ (k', v') ∷ insert k v m
          ])
      go less r e = ((e, After-trans k k' m e a), (a, s))
      go equal r e = (subst (λ (j : Str). After j m) (sym (cmp-equal k k' e)) a, s)
      go greater r e = (After-insert k' k v m (cmp-greater k k' e) a, r)

  find-After : (k : Str) (m : List (Str × V)) → After k m → find k m ≡ none
  unfolding After find
  find-After k [] a = refl
  find-After k ((k', v') ∷ m) (h, a) = ground (arith, h, find-After k m a)

  find-other :
      (j k : Str) (v : V) (m : List (Str × V)) → cmp j k ≡ less → find k ((j, v) ∷ m) ≡ find k m
  unfolding find
  find-other j k v m l = ground (arith, cmp-less_flip j k l)

  -- Every entry of the second map is what its key is looked up as in the first.
  unfoldable pub Found : List (Str × V) → List (Str × V) → Type 0
  Found all [] = Unit
  Found all ((k, v) ∷ m) = (find k all ≡ some v) × Found all m

  Found-cons :
      (j : Str) (w : V) (all m : List (Str × V)) → After j m → Found all m → Found ((j, w) ∷ all) m
  unfolding Found After
  Found-cons j w all [] a f = f
  Found-cons j w all ((k, v) ∷ m) (l, a) (e, f) =
      (find-other j k w all l ∙ e, Found-cons j w all m a f)

  pub IsMap-Found : (m : List (Str × V)) → IsMap m → Found m m
  unfolding IsMap Found find
  IsMap-Found [] s = tt
  IsMap-Found ((k, v) ∷ m) (a, s) =
      (ground (arith, cmp_refl k), Found-cons k v m m a (IsMap-Found m s))

  pub find-insert : (k : Str) (v : V) (m : List (Str × V)) → find k (insert k v m) ≡ some v
  unfolding insert find
  find-insert k v [] = ground (arith, cmp_refl k)
  find-insert k v ((k', v') ∷ m) = ground (arith, cmp_refl k, find-insert k v m)

  pub find-insert_other :
      (j k : Str) (v : V) (m : List (Str × V)) → cmp j k ≢ equal → find j (insert k v m) ≡ find j m
  unfolding insert find
  find-insert_other j k v [] h = ground (arith, h)
  find-insert_other j k v ((k', v') ∷ m) h =
      ground (arith, h, cmp-equal k k', find-insert_other j k v m h)

  pub find-erase_other :
      (j k : Str) (m : List (Str × V)) → cmp j k ≢ equal → find j (erase k m) ≡ find j m
  unfolding erase find
  find-erase_other j k [] h = refl
  find-erase_other j k ((k', v') ∷ m) h =
      ground (arith, h, cmp-equal k k', find-erase_other j k m h)

  pub find-erase : (k : Str) (m : List (Str × V)) → IsMap m → find k (erase k m) ≡ none
  unfolding erase find IsMap
  find-erase k [] s = refl
  find-erase k ((k', v') ∷ m) (a, s) =
      ground (arith, cmp-equal k k', find-After k' m a, find-erase k m s)

  After-erase : (j k : Str) (m : List (Str × V)) → After j m → After j (erase k m)
  unfolding After erase
  After-erase j k [] a = tt
  After-erase j k ((k', v') ∷ m) (h, a) =
      elim (cmp k k') as (λ c. After j (elim c [ equal ↦ m | _ ↦ (k', v') ∷ erase k m ])) [
        | less ↦ (h, After-erase j k m a)
        | equal ↦ a
        | greater ↦ (h, After-erase j k m a)
      ]

  pub IsMap-erase : (k : Str) (m : List (Str × V)) → IsMap m → IsMap (erase k m)
  unfolding IsMap erase
  IsMap-erase k [] s = tt
  IsMap-erase k ((k', v') ∷ m) (a, s) =
      elim (cmp k k') as (λ c. IsMap (elim c [ equal ↦ m | _ ↦ (k', v') ∷ erase k m ])) [
        | less ↦ (After-erase k' k m a, IsMap-erase k m s)
        | equal ↦ s
        | greater ↦ (After-erase k' k m a, IsMap-erase k m s)
      ]
