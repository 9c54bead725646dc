-- ===== src/Common/Lists.antt =====
-- Lists measured by native numbers, predicates over their items, and results that may be errors.
use Prim.Native.Nat.{ℕ, suc, ◌+◌}
use mathlib.Core.Path.{◌≡◌, refl, ap, subst}
use mathlib.Core.Bool.{Bool, true, false}
use mathlib.Core.Option.{Option, none, some}
use mathlib.Core.List.{List, [], ◌∷◌, ◌++◌}
use native.Mathlib.Omega.{arith}

module _ {ℓ} {A : Type ℓ} where
  abbrev pub length : List A → ℕ
  length [] = 0
  length (x ∷ xs) = suc (length xs)

  pub length-append : (xs ys : List A) → length (xs ++ ys) ≡ length xs + length ys
  length-append [] ys = omega arith
  length-append (x ∷ xs) ys = omega (arith, length-append xs ys)

  -- Every item has the property.
  abbrev pub All {κ} : (A → Type κ) → List A → Type κ
  All P [] = Unit
  All P (x ∷ xs) = P x × All P xs

  pub All-append {κ} : (P : A → Type κ) (xs ys : List A) → All P xs → All P ys → All P (xs ++ ys)
  All-append P [] ys h k = k
  All-append P (x ∷ xs) ys h k = (h.0, All-append P xs ys h.1 k)

  pub All-map {κ υ} :
      (P : A → Type κ) (Q : A → Type υ)
      → ((x : A) → P x → Q x)
      → (xs : List A) → All P xs
      → All Q xs
  All-map P Q f [] h = tt
  All-map P Q f (x ∷ xs) h = (f x h.0, All-map P Q f xs h.1)

  -- How many items pass the test.
  abbrev pub count_if : (A → Bool) → List A → ℕ
  count_if p [] = 0
  count_if p (x ∷ xs) = elim (p x) [ true ↦ suc (count_if p xs) | false ↦ count_if p xs ]

  -- The first item that passes the test, as `scalars().first()` returns it.
  abbrev pub find : (A → Bool) → List A → Option A
  find p [] = none
  find p (x ∷ xs) = let rest = find p xs in elim (p x) [ true ↦ some x | false ↦ rest ]

  pub count_if-append :
      (p : A → Bool) (xs ys : List A) → count_if p (xs ++ ys) ≡ count_if p xs + count_if p ys
  count_if-append p [] ys = omega arith
  count_if-append p (x ∷ xs) ys = ground (arith, count_if-append p xs ys)

  pub count_if-find : (p : A → Bool) (xs : List A) → find p xs ≡ none → count_if p xs ≡ 0
  count_if-find p [] h = refl
  count_if-find p (x ∷ xs) h = ground (arith, count_if-find p xs)

  pub find-test : (p : A → Bool) (xs : List A) {x : A} → find p xs ≡ some x → p x ≡ true
  find-test p [] h = cc
  find-test p (y ∷ ys) {x} h = ground (arith, find-test p ys {x = x})

-- The outcome of code that raises.
pub data Result {ℓ} (E A : Type ℓ) : Type ℓ where
  err : E → Result E A
  ok : A → Result E A

infixl 5 ◌>>=◌ ◌>>◌
abbrev pub ◌>>=◌ {ℓ} : {E A B : Type ℓ} → Result E A → (A → Result E B) → Result E B
err raised >>= next = err raised
ok value >>= next = next value

abbrev pub ◌>>◌ {ℓ} : {E A B : Type ℓ} → Result E A → Result E B → Result E B
first >> second = first >>= λ _. second

-- `if test: raise error`
abbrev pub raise_if : {E : Type 0} → Bool → E → Result E (Unit {0})
raise_if false raised = ok tt
raise_if true raised = err raised

-- A chain that succeeds has succeeded at its first step, and goes on with its value.
pub bind_inversion {ℓ} :
    {E A B : Type ℓ} {last : B} (first : Result E A) (next : A → Result E B)
    → (first >>= next) ≡ ok last
    → (value : A) × (first ≡ ok value) × (next value ≡ ok last)
bind_inversion (err raised) next succeeds = cc
bind_inversion (ok value) next succeeds = (value, refl, succeeds)

pub raise_if-eq-ok :
    {E : Type 0} (test : Bool) (raised : E) {u : Unit {0}}
    → raise_if test raised ≡ ok u
    → test ≡ false
raise_if-eq-ok false raised succeeds = refl
raise_if-eq-ok true raised succeeds = cc

abbrev value_or {ℓ} : {E A : Type ℓ} → A → Result E A → A
value_or default (err raised) = default
value_or default (ok value) = value

pub ok-injective {ℓ} : {E A : Type ℓ} {a b : A} → ◌≡◌ {A = Result E A} (ok a) (ok b) → a ≡ b
ok-injective {a} same = ap (value_or a) same

module _ {ℓ} {A : Type ℓ} where
  -- Every item that passes the test gives way to another one.
  abbrev pub replace : (A → Bool) → A → List A → List A
  replace p y [] = []
  replace p y (x ∷ xs) = elim (p x) [ true ↦ y | false ↦ x ] ∷ replace p y xs

  pub replace-All {κ} :
      (P : A → Type κ) (p : A → Bool) (y : A) (xs : List A)
      → P y
      → All P xs
      → All P (replace p y xs)
  replace-All P p y [] h k = tt
  replace-All P p y (x ∷ xs) h k = (keep (p x), replace-All P p y xs h k.1)
    where
      keep : (b : Bool) → P (elim b [ true ↦ y | false ↦ x ])
      keep true = h
      keep false = k.0

  abbrev option_or : A → Option A → A
  option_or d none = d
  option_or d (some x) = x

  pub find-All {κ} :
      (P : A → Type κ) (p : A → Bool) (xs : List A) {y : A} → All P xs → find p xs ≡ some y → P y
  find-All P p [] h e = cc
  find-All P p (x ∷ xs) {y} h e = go (p x) (find-All P p xs h.1) e
    where
      go :
          (b : Bool)
          → (find p xs ≡ some y → P y)
          → (elim b [ true ↦ some x | false ↦ find p xs ]) ≡ some y
          → P y
      go true later same = subst P (ap (option_or x) same) h.0
      go false later same = later same

module _ {ℓ} {A : Type ℓ} where
  -- Where some item passes, the first that passes is now the new one.
  pub find-replace_self :
      (p : A → Bool) (y : A) (xs : List A) {x : A}
      → p y ≡ true
      → find p xs ≡ some x
      → find p (replace p y xs) ≡ some y
  find-replace_self p y [] h e = cc
  find-replace_self p y (z ∷ xs) {x} h e = ground (arith, find-replace_self p y xs {x = x} h)

  -- A test that neither the items that give way pass, nor the new one, finds what it found.
  pub find-replace_other :
      (p q : A → Bool) (y : A) (xs : List A)
      → q y ≡ false
      → ((x : A) → p x ≡ true → q x ≡ false)
      → find q (replace p y xs) ≡ find q xs
  find-replace_other p q y [] h apart = refl
  find-replace_other p q y (x ∷ xs) h apart =
      ground (arith, find-replace_other p q y xs h apart, apart x)
