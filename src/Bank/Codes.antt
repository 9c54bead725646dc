-- ===== src/Bank/Codes.antt =====
-- `next_bank_account_code` of app/core/bank.py: the loop ends, at the first free code of the band.
use jewelry_backend.Common.{
  ℕ, zero, suc, ◌+◌, ◌-◌, ◌≤◌, ◌<◌, ◌==◌, ◌≡◌, refl, sym, ◌∙◌, ◌⊎◌, inl, inr, Bool, true, false,
  ◌&&◌, ◌||◌, Option, none, some, List, [], ◌∷◌, if◌then◌else◌, ltb, leb, arith, Bool-cases, Result,
  ok, err,
}
use mathlib.Core.Path.{subst}
use jewelry_backend.Bank.{BankAccountType, bank, cash, petty_cash, Error, no_free_code, unfinished}

-- The ends of the band of a type. The search starts above the lower end, which is never given.
abbrev pub code_band : BankAccountType → ℕ × ℕ
code_band bank = (512_200, 512_999)
code_band cash = (530_000, 530_999)
code_band petty_cash = (530_000, 530_999)

abbrev pub member : ℕ → List ℕ → Bool
member n [] = false
member n (m ∷ ms) = m == n || member n ms

-- The codes of the band among those that are numbers.
abbrev pub used_codes : ℕ → ℕ → List ℕ → List ℕ
used_codes lo hi [] = []
used_codes lo hi (c ∷ codes) =
    let rest = used_codes lo hi codes in if leb lo c && leb c hi then c ∷ rest else rest

-- `while n in used: n += 1`; none where the fuel is out.
unfoldable pub first_free : ℕ → List ℕ → ℕ → Option ℕ
first_free zero used n = none
first_free (suc fuel) used n =
    let rest = first_free fuel used (suc n) in if member n used then rest else some n

abbrev pub in_band : ℕ → Option ℕ → Result Error ℕ
in_band hi none = err unfinished
in_band hi (some n) = if ltb hi n then err no_free_code else ok n

-- The fuel is one more than the codes of the band.
unfoldable pub next_bank_account_code : List ℕ → BankAccountType → Result Error ℕ
next_bank_account_code codes account_type =
    let (lo, hi) = code_band account_type in
    in_band hi (first_free (hi - lo + 1) (used_codes lo hi codes) (lo + 1))

member-or : (b c : Bool) → (b || c) ≡ true → (b ≡ true) ⊎ (c ≡ true)
member-or true c h = inl refl
member-or false c h = inr h

-- A used code is in the band, and one of the codes.
used_codes-member :
    (lo hi n : ℕ) (codes : List ℕ)
    → member n (used_codes lo hi codes) ≡ (leb lo n && leb n hi && member n codes)
used_codes-member lo hi n [] = and_false (leb lo n && leb n hi)
  where
    and_false : (b : Bool) → false ≡ (b && false)
    and_false true = refl
    and_false false = refl
used_codes-member lo hi n (c ∷ codes) = ground (arith, used_codes-member lo hi n codes)

above-free : (lo hi n : ℕ) (codes : List ℕ) → hi < n → member n (used_codes lo hi codes) ≡ false
above-free lo hi n codes h = used_codes-member lo hi n codes ∙ ground arith

upto : (a b : ℕ) → (a ≤ b) ⊎ (b < a)
upto a b = omega arith

first_or_later : (a b : ℕ) → a ≤ b → (a ≡ b) ⊎ (suc a ≤ b)
first_or_later a b h = omega (arith, h)

-- With fuel to reach beyond every used number the search ends, at the first that is free.
first_free-ends :
    (used : List ℕ) (hi fuel n : ℕ)
    → ((m : ℕ) → hi < m → member m used ≡ false)
    → hi + 2 ≤ n + fuel
    → n ≤ hi + 1
    → (k : ℕ) × (first_free fuel used n ≡ some k)
      × (member k used ≡ false)
      × (n ≤ k)
      × (k ≤ hi + 1)
      × ((m : ℕ) → n ≤ m → m < k → member m used ≡ true)
unfolding first_free
first_free-ends used hi zero n above fuel start = absurd (omega (arith, fuel, start))
first_free-ends used hi (suc fuel) n above enough start = elim (Bool-cases (member n used)) [
  | inr free ↦
      (n, rw free refl, free, omega arith, start, λ m low high. absurd (omega (arith, low, high)))
  | inl taken ↦
      let (k, found, free, low, high, between) =
        first_free-ends used hi fuel (suc n) above (omega (arith, enough))
          (omega (arith, within taken (upto n hi))) in
      (
        k,
        rw taken found,
        free,
        omega (arith, low),
        high,
        λ m a b. taken_between k taken between m b (first_or_later n m a),
      )
]
  where
    within : member n used ≡ true → (n ≤ hi) ⊎ (hi < n) → n ≤ hi
    within taken (inl h) = h
    within taken (inr h) = cc (sym taken ∙ above n h)

    taken_between :
        (k : ℕ)
        → member n used ≡ true
        → ((m : ℕ) → suc n ≤ m → m < k → member m used ≡ true)
        → (m : ℕ) → m < k
        → (n ≡ m) ⊎ (suc n ≤ m)
        → member m used ≡ true
    taken_between k taken between m b (inl same) =
        subst (λ (j : ℕ). member j used ≡ true) same taken
    taken_between k taken between m b (inr later) = between m later b

-- The code is in the band above its lower end and free, and every smaller such one is in use.
pub record IsFirstFree (codes : List ℕ) (lo hi n : ℕ) : Type 0 where
  pub above : lo < n
  pub below : n ≤ hi
  pub free : member n codes ≡ false
  pub first : (m : ℕ) → lo < m → m < n → member m codes ≡ true

in_band-member :
    (lo hi m : ℕ) (codes : List ℕ)
    → lo ≤ m
    → m ≤ hi
    → member m (used_codes lo hi codes) ≡ member m codes
in_band-member lo hi m codes low high = used_codes-member lo hi m codes ∙ ground arith

band_ends :
    (codes : List ℕ) (lo hi : ℕ)
    → lo ≤ hi
    → ((n : ℕ) × (in_band hi (first_free (hi - lo + 1) (used_codes lo hi codes) (lo + 1)) ≡ ok n)
        × IsFirstFree codes lo hi n)
      ⊎ ((in_band hi (first_free (hi - lo + 1) (used_codes lo hi codes) (lo + 1))
            ≡ err no_free_code)
          × ((m : ℕ) → lo < m → m ≤ hi → member m codes ≡ true))
band_ends codes lo hi wide =
    let (k, found, free, low, high, between) =
      first_free-ends (used_codes lo hi codes) hi (hi - lo + 1) (lo + 1)
        (λ m h. above-free lo hi m codes h) (omega (arith, wide)) (omega (arith, wide)) in
    let taken : (m : ℕ) → lo < m → m < k → m ≤ hi → member m codes ≡ true = λ m a b c.
      sym (in_band-member lo hi m codes (omega (arith, a)) c) ∙ between m (omega (arith, a)) b in
    elim (upto k hi) [
      | inl inside ↦ inl (
        k,
        rw found (ground arith),
        record {
          above = omega (arith, low);
          below = inside;
          free = sym (in_band-member lo hi k codes (omega (arith, low)) inside) ∙ free;
          first = λ m a b. taken m a b (omega (arith, b, inside));
        },
      )
      | inr beyond ↦ inr (rw found (ground arith), λ m a b. taken m a (omega (arith, b, beyond)) b)
    ]

abbrev pub lowest : BankAccountType → ℕ
lowest t = (code_band t).0

abbrev pub highest : BankAccountType → ℕ
highest t = (code_band t).1

-- The search for a code always ends, whatever codes are in use: with the first free code of the band
-- of the type above its lower end, or with the refusal, and then every code of the band above its
-- lower end is in use. The lower end itself is never tried.
pub next_bank_account_code_ends :
    (codes : List ℕ) (t : BankAccountType)
    → ((n : ℕ) × (next_bank_account_code codes t ≡ ok n)
        × IsFirstFree codes (lowest t) (highest t) n)
      ⊎ ((next_bank_account_code codes t ≡ err no_free_code)
          × ((m : ℕ) → lowest t < m → m ≤ highest t → member m codes ≡ true))
unfolding next_bank_account_code
next_bank_account_code_ends codes bank = band_ends codes 512_200 512_999 (omega arith)
next_bank_account_code_ends codes cash = band_ends codes 530_000 530_999 (omega arith)
next_bank_account_code_ends codes petty_cash = band_ends codes 530_000 530_999 (omega arith)
