-- ===== src/Base/Sort.antt =====
-- `sort.SliceStable`, as insertion that keeps equals in their order.
use mathlib.Core.Path.{◌≡◌, refl, ap, ◌∙◌}
use mathlib.Core.Bool.{Bool, true, false, ◌&&◌, ◌||◌}
use mathlib.Core.Option.{some}
use mathlib.Core.List.{List, [], ◌∷◌, Perm}
use mathlib.Core.List.Perm
use mathlib.Core.Logic.{inl, inr}
use native.Mathlib.Omega.{arith}
use hummtube.Base.Tests.{if◌then◌else◌, Bool-cases}
use hummtube.Base.Lists.{keep, All, find}

module _ {ℓ} {A : Type ℓ} (less : A → A → Bool) where
  -- Before the first element that is not less.
  pub insert_sorted : A → List A → List A
  insert_sorted x [] = x ∷ []
  insert_sorted x (y ∷ ys) =
      let rest = insert_sorted x ys in if less y x then y ∷ rest else x ∷ y ∷ ys

  unfoldable pub stable_sort : List A → List A
  unfolding insert_sorted
  stable_sort [] = []
  stable_sort (x ∷ xs) = insert_sorted x (stable_sort xs)

  insert_sorted-All {κ} :
      (P : A → Type κ) (x : A) (ys : List A) → P x → All P ys → All P (insert_sorted x ys)
  unfolding insert_sorted
  insert_sorted-All P x [] p h = (p, tt)
  insert_sorted-All P x (y ∷ ys) p h = elim (Bool-cases (less y x)) [
    | inl b ↦ rw b (h.0, insert_sorted-All P x ys p h.1)
    | inr b ↦ rw b (p, h)
  ]

  pub stable_sort-All {κ} : (P : A → Type κ) (xs : List A) → All P xs → All P (stable_sort xs)
  unfolding stable_sort
  stable_sort-All P [] h = tt
  stable_sort-All P (x ∷ xs) h =
      insert_sorted-All P x (stable_sort xs) h.0 (stable_sort-All P xs h.1)

  -- No element is less than the one before it.
  abbrev pub IsOrdered : List A → Type 0
  IsOrdered [] = Unit
  IsOrdered (x ∷ []) = Unit
  IsOrdered (x ∷ y ∷ ys) = (less y x ≡ false) × IsOrdered (y ∷ ys)

  insert_sorted-perm : (x : A) (ys : List A) → Perm (insert_sorted x ys) (x ∷ ys)
  unfolding insert_sorted
  insert_sorted-perm x [] = Perm.refl (x ∷ [])
  insert_sorted-perm x (y ∷ ys) = elim (Bool-cases (less y x)) [
    | inl b ↦ rw b (Perm.trans (Perm.cons y (insert_sorted-perm x ys)) (Perm.swap x y ys))
    | inr b ↦ rw b (Perm.refl (x ∷ y ∷ ys))
  ]

  pub stable_sort-perm : (xs : List A) → Perm (stable_sort xs) xs
  unfolding stable_sort
  stable_sort-perm [] = Perm.refl []
  stable_sort-perm (x ∷ xs) =
      Perm.trans (insert_sorted-perm x (stable_sort xs)) (Perm.cons x (stable_sort-perm xs))

  module _ (asym : (x y : A) → less x y ≡ true → less y x ≡ false) where
    insert_sorted-IsOrdered : (x : A) (ys : List A) → IsOrdered ys → IsOrdered (insert_sorted x ys)
    unfolding insert_sorted
    insert_sorted-IsOrdered x [] h = tt
    insert_sorted-IsOrdered x (y ∷ []) h = ground (arith, asym y x)
    insert_sorted-IsOrdered x (y ∷ z ∷ zs) h =
        ground (arith, asym y x, insert_sorted-IsOrdered x (z ∷ zs))

    pub stable_sort-IsOrdered : (xs : List A) → IsOrdered (stable_sort xs)
    unfolding stable_sort
    stable_sort-IsOrdered [] = tt
    stable_sort-IsOrdered (x ∷ xs) =
        insert_sorted-IsOrdered x (stable_sort xs) (stable_sort-IsOrdered xs)

  -- Among elements of which none is less than another, the order stays.
  module _ (p : A → Bool) (ties : (x y : A) → p x ≡ true → p y ≡ true → less x y ≡ false) where
    keep-insert_sorted : (x : A) (ys : List A) → keep p (insert_sorted x ys) ≡ keep p (x ∷ ys)
    unfolding insert_sorted
    keep-insert_sorted x [] = refl
    keep-insert_sorted x (y ∷ ys) = ground (arith, ties y x, keep-insert_sorted x ys)

    pub keep-stable_sort : (xs : List A) → keep p (stable_sort xs) ≡ keep p xs
    unfolding stable_sort
    keep-stable_sort [] = refl
    keep-stable_sort (x ∷ xs) =
        ground (arith, keep-insert_sorted x (stable_sort xs), keep-stable_sort xs)

  -- Elements of which one of each two is less come out in a strict order.
  abbrev pub AreApart : List A → Type 0
  AreApart [] = Unit
  AreApart (x ∷ xs) = All (λ y. (less x y || less y x) ≡ true) xs × AreApart xs

  abbrev pub IsStrict : List A → Type 0
  IsStrict [] = Unit
  IsStrict (x ∷ []) = Unit
  IsStrict (x ∷ y ∷ ys) = (less x y ≡ true) × IsStrict (y ∷ ys)

  insert_sorted-IsStrict :
      (x : A) (ys : List A)
      → All (λ y. (less x y || less y x) ≡ true) ys
      → IsStrict ys
      → IsStrict (insert_sorted x ys)
  unfolding insert_sorted
  insert_sorted-IsStrict x [] a h = tt
  insert_sorted-IsStrict x (y ∷ []) (a, _) h = elim (Bool-cases (less y x)) [
    | inl b ↦ rw b (b, tt)
    | inr b ↦ rw b (ground arith, tt)
  ]
  insert_sorted-IsStrict x (y ∷ z ∷ zs) (a, apart) (h, hs) = elim (Bool-cases (less y x)) [
    | inr b ↦ rw b (ground arith, (h, hs))
    | inl b ↦
        let rest = insert_sorted-IsStrict x (z ∷ zs) apart hs in
        elim (Bool-cases (less z x)) [
          | inl c ↦ rw (b, c) (h, rw c at rest)
          | inr c ↦ rw (b, c) (b, rw c at rest)
        ]
  ]

  pub stable_sort-IsStrict : (xs : List A) → AreApart xs → IsStrict (stable_sort xs)
  unfolding stable_sort
  stable_sort-IsStrict [] h = tt
  stable_sort-IsStrict (x ∷ xs) (a, h) =
      insert_sorted-IsStrict x (stable_sort xs) (stable_sort-All _ xs a) (stable_sort-IsStrict xs h)

  -- The first element that passes a test is the same, where no two that pass are out of order.
  module _ (p : A → Bool) (alone : (x y : A) → less y x ≡ true → (p x && p y) ≡ false) where
    find-insert_sorted :
        (x : A) (ys : List A) → find p (insert_sorted x ys) ≡ (if p x then some x else find p ys)
    unfolding insert_sorted
    find-insert_sorted x [] = refl
    find-insert_sorted x (y ∷ ys) = ground (arith, alone x y, find-insert_sorted x ys)

    pub find-stable_sort : (xs : List A) → find p (stable_sort xs) ≡ find p xs
    unfolding stable_sort
    find-stable_sort [] = refl
    find-stable_sort (x ∷ xs) =
        find-insert_sorted x (stable_sort xs)
        ∙ ap (λ o. if p x then some x else o) (find-stable_sort xs)
