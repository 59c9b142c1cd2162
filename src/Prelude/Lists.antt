-- ===== src/Prelude/Lists.antt =====
-- Lists measured by native numbers, under the library's names.
use Prim.Native.Nat.{ℕ, zero, suc, ◌+◌, ◌-◌, min}
use mathlib.Core.Path.{◌≡◌, refl, ap, subst}
use mathlib.Core.Logic.{◌≢◌, inl, inr}
use mathlib.Core.Bool.{Bool}
use mathlib.Core.List.{List, [], ◌∷◌, ◌++◌, append_assoc, map}
use mathlib.Core.Option.{Option, none, some}
use native.Mathlib.Omega.{arith}
use inference_data_plane.Prelude.Tests.{if◌then◌else◌, Bool-cases}

module _ {ℓ} {A : Type ℓ} where
  abbrev pub length : List A → ℕ
  length [] = 0
  length (x ∷ xs) = suc (length xs)

  -- `is_empty` of a vector or of a text
  abbrev pub is_empty : List A → Bool
  is_empty [] = Bool.true
  is_empty (x ∷ xs) = Bool.false

  abbrev pub head? : List A → Option A
  head? [] = none
  head? (x ∷ xs) = some x

  abbrev pub get_elem? : List A → ℕ → Option A
  get_elem? [] i = none
  get_elem? (x ∷ xs) zero = some x
  get_elem? (x ∷ xs) (suc i) = get_elem? xs i

  unfoldable pub take : ℕ → List A → List A
  take zero xs = []
  take (suc n) [] = []
  take (suc n) (x ∷ xs) = x ∷ take n xs

  unfoldable pub drop : ℕ → List A → List A
  drop zero xs = xs
  drop (suc n) [] = []
  drop (suc n) (x ∷ xs) = drop n xs

  abbrev pub filter : (A → Bool) → List A → List A
  filter p [] = []
  filter p (x ∷ xs) = let rest = filter p xs in if p x then x ∷ rest else rest

  pub cons-ne-nil : {x : A} {xs : List A} → x ∷ xs ≢ []
  cons-ne-nil h = cc

  pub length-append : (xs ys : List A) → length (xs ++ ys) ≡ length xs + length ys
  length-append [] ys = omega arith
  length-append (x ∷ xs) ys = omega (arith, length-append xs ys)

  pub length-take : (n : ℕ) (xs : List A) → length (take n xs) ≡ min n (length xs)
  unfolding take
  length-take zero xs = omega arith
  length-take (suc n) [] = omega arith
  length-take (suc n) (x ∷ xs) = omega (arith, length-take n xs)

  pub length-drop : (n : ℕ) (xs : List A) → length (drop n xs) ≡ length xs - n
  unfolding drop
  length-drop zero xs = omega arith
  length-drop (suc n) [] = omega arith
  length-drop (suc n) (x ∷ xs) = omega (arith, length-drop n xs)

  pub take-append : (xs ys : List A) → take (length xs) (xs ++ ys) ≡ xs
  unfolding take
  take-append [] ys = refl
  take-append (x ∷ xs) ys = ap (◌∷◌ x) (take-append xs ys)

  pub drop-append : (xs ys : List A) → drop (length xs) (xs ++ ys) ≡ ys
  unfolding drop
  drop-append [] ys = refl
  drop-append (x ∷ xs) ys = drop-append xs ys

module _ {ℓ κ} {A : Type ℓ} where
  abbrev pub All : (A → Type κ) → List A → Type κ
  All P [] = Unit {κ}
  All P (x ∷ xs) = P x × All P xs

  pub All-append : (P : A → Type κ) (xs ys : List A) → All P xs → All P ys → All P (xs ++ ys)
  All-append P [] ys hx hy = hy
  All-append P (x ∷ xs) ys hx hy = (hx.0, All-append P xs ys hx.1 hy)

module _ {ℓ κ} {A : Type ℓ} {P Q : A → Type κ} where
  pub All-map : ((x : A) → P x → Q x) → (xs : List A) → All P xs → All Q xs
  All-map f [] h = tt
  All-map f (x ∷ xs) h = (f x h.0, All-map f xs h.1)

  -- What is kept by a test may use the test.
  pub All-filter :
      (p : A → Bool)
      → ((x : A) → p x ≡ Bool.true → P x → Q x)
      → (xs : List A) → All P xs
      → All Q (filter p xs)
  All-filter p f [] h = tt
  All-filter p f (x ∷ xs) h =
      let rest = All-filter p f xs h.1 in
      elim (Bool-cases (p x)) [ inl e ↦ rw e (f x e h.0, rest) | inr e ↦ rw e rest ]

module _ {ℓ κ} {A : Type ℓ} (P : A → Type κ) where
  pub All-get : {x : A} (xs : List A) (i : ℕ) → All P xs → get_elem? xs i ≡ some x → P x
  All-get [] i h e = cc
  All-get {x} (y ∷ xs) zero h e = let same : y ≡ x = cc in subst P same h.0
  All-get (y ∷ xs) (suc i) h e = All-get xs i h.1 e

module _ {ℓ} {A : Type ℓ} where
  -- The list has the element.
  abbrev pub Has : A → List A → Type ℓ
  Has x xs = (before : List A) × (after : List A) × (xs ≡ before ++ x ∷ after)

  pub Has-append : (x : A) (xs ys : List A) → Has x xs → Has x (xs ++ ys)
  Has-append x xs ys (before, after, h) =
      (before, after ++ ys, rw h (append_assoc before (x ∷ after) ys))

  pub Has-last : (x : A) (xs : List A) → Has x (xs ++ x ∷ [])
  Has-last x xs = (xs, [], refl)

  pub Has-first : (x : A) (xs : List A) → Has x (x ∷ xs)
  Has-first x xs = ([], xs, refl)

  pub Has-cons : (x y : A) (xs : List A) → Has x xs → Has x (y ∷ xs)
  Has-cons x y xs (before, after, h) = (y ∷ before, after, ap (◌∷◌ y) h)

module _ {ℓ κ} {A : Type ℓ} (P : A → Type κ) where
  -- One element taken out.
  pub All-without :
      (before : List A) (x : A) (after : List A)
      → All P (before ++ x ∷ after)
      → P x × All P (before ++ after)
  All-without [] x after h = h
  All-without (y ∷ before) x after h =
      let (here, rest) = All-without before x after h.1 in (here, (h.0, rest))

module _ {ℓ κ} {A : Type ℓ} (P Q : A → Type κ) (f : A → A) where
  pub map-All : ((x : A) → P x → Q (f x)) → (xs : List A) → All P xs → All Q (map f xs)
  map-All k [] h = tt
  map-All k (x ∷ xs) h = (k x h.0, map-All k xs h.1)
