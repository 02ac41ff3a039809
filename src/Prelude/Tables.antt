-- ===== src/Prelude/Tables.antt =====
-- Tables as lists of rows: UPDATE, DELETE and what they do to a count.
use Prim.Native.Nat.{◌+◌, ◌≤◌}
use mathlib.Core.Path.{◌≡◌, refl}
use mathlib.Core.Bool.{Bool, true, false, ◌&&◌}
use mathlib.Core.List.{List, [], ◌∷◌}
use mathlib.Core.Option.{none}
use native.Mathlib.Omega.{arith}
use secure_messenger.Prelude.Tests.{if◌then◌else◌}
use secure_messenger.Prelude.Lists.{find, count, All}

module _ {ℓ} {A : Type ℓ} where
  -- UPDATE ... SET f WHERE p
  abbrev pub update_where : (A → Bool) → (A → A) → List A → List A
  update_where p f [] = []
  update_where p f (x ∷ xs) = (if p x then f x else x) ∷ update_where p f xs

  -- DELETE ... WHERE p
  abbrev pub delete_where : (A → Bool) → List A → List A
  delete_where p [] = []
  delete_where p (x ∷ xs) = let rest = delete_where p xs in if p x then rest else x ∷ rest

module _ {ℓ} {A : Type ℓ} where
  -- ORDER BY: `before y x` where `y` stands before `x`.
  unfoldable pub insert_by : (A → A → Bool) → A → List A → List A
  insert_by before x [] = x ∷ []
  insert_by before x (y ∷ ys) =
      let rest = insert_by before x ys in if before y x then y ∷ rest else x ∷ y ∷ ys

  unfoldable pub order_by : (A → A → Bool) → List A → List A
  unfolding insert_by
  order_by before [] = []
  order_by before (x ∷ xs) = insert_by before x (order_by before xs)

module _ {ℓ} {A : Type ℓ} where
  -- Rows outside the update are counted as before, where the update does not change the test.
  pub count-update_where_outside :
      (p q : A → Bool) (f : A → A) (xs : List A)
      → ((x : A) → p x ≡ true → q (f x) ≡ q x)
      → count q (update_where p f xs) ≡ count q xs
  count-update_where_outside p q f [] h = refl
  count-update_where_outside p q f (x ∷ xs) h =
      ground (arith, h x, count-update_where_outside p q f xs h)

  pub count-delete_where :
      (p q : A → Bool) (xs : List A)
      → count q (delete_where p xs) + count (λ x. p x && q x) xs ≡ count q xs
  count-delete_where p q [] = refl
  count-delete_where p q (x ∷ xs) = ground (arith, count-delete_where p q xs)

  pub count-delete_where_le :
      (p q : A → Bool) (xs : List A) → count q (delete_where p xs) ≤ count q xs
  count-delete_where_le p q [] = omega arith
  count-delete_where_le p q (x ∷ xs) = ground (arith, count-delete_where_le p q xs)

  pub find-delete_where_self : (p : A → Bool) (xs : List A) → find p (delete_where p xs) ≡ none
  find-delete_where_self p [] = refl
  find-delete_where_self p (x ∷ xs) = ground (arith, find-delete_where_self p xs)

module _ {ℓ κ} {A : Type ℓ} (P : A → Type κ) where
  pub All-update_where :
      (p : A → Bool) (f : A → A) (xs : List A)
      → ((x : A) → P x → P (f x))
      → All P xs
      → All P (update_where p f xs)
  All-update_where p f [] h k = tt
  All-update_where p f (x ∷ xs) h k = (head (p x), All-update_where p f xs h k.1)
    where
      head : (b : Bool) → P (if b then f x else x)
      head true = h x k.0
      head false = k.0

  pub All-delete_where : (p : A → Bool) (xs : List A) → All P xs → All P (delete_where p xs)
  All-delete_where p [] k = tt
  All-delete_where p (x ∷ xs) k = kept (p x) (All-delete_where p xs k.1)
    where
      kept :
          (b : Bool)
          → All P (delete_where p xs)
          → All P (if b then delete_where p xs else x ∷ delete_where p xs)
      kept true rest = rest
      kept false rest = (k.0, rest)
