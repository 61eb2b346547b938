-- ===== src/Std/Spelled.antt =====
-- A number that `std::to_string` spells is the number that `sscanf` scans.
use mariadb_columnstore_api.Prelude.{
  ℕ, zero, suc, ◌+◌, ◌-◌, ◌*◌, ◌/◌, ◌%◌, ◌^◌, ◌<◌, ◌≤◌, ◌≡◌, refl, ap, ◌∙◌, min, List, [], ◌∷◌,
  ◌++◌, Bool, true, false, ltb, ◌==◌, length, arith, Bool-cases, inl, inr,
}
use mariadb_columnstore_api.Prelude.Digits.{digits_onto, to_string}
use mariadb_columnstore_api.Std.Scan.{
  is_space, skip_space, digit, run_of, starts_digit, sign_of, Directive, sscanf_from,
}

digit-decimal : (d : ℕ) → d < 10 → digit (48 + d) ≡ d
unfolding digit
digit-decimal d h = ground arith

run_of-digit :
    (acc d : ℕ) (s : List ℕ) → d < 10 → run_of 10 acc ((48 + d) ∷ s) ≡ run_of 10 (acc * 10 + d) s
unfolding run_of
run_of-digit acc d s h = rw (digit-decimal d h) (ground (arith, h))

-- Its digits give the number, whatever follows.
run_of-digits :
    (fuel n : ℕ) (s : List ℕ) → n ≤ fuel → run_of 10 0 (digits_onto fuel n s) ≡ run_of 10 n s
unfolding digits_onto
run_of-digits zero n s h =
    run_of-digit 0 (n % 10) s (omega arith) ∙ ap (λ m. run_of 10 m s) (omega (arith, h))
run_of-digits (suc fuel) n s h = elim (Bool-cases (ltb n 10)) [
  | inl small ↦
      rw small
        (run_of-digit 0 (n % 10) s (omega arith) ∙ ap (λ m. run_of 10 m s) (ground (arith, small)))
  | inr large ↦ rw large (
      run_of-digits fuel (n / 10) ((48 + n % 10) ∷ s) (ground (arith, large, h))
      ∙ run_of-digit (n / 10) (n % 10) s (omega arith)
      ∙ ap (λ m. run_of 10 m s) (omega arith))
]

starts_digit-digits : (fuel n : ℕ) (s : List ℕ) → starts_digit 10 (digits_onto fuel n s) ≡ true
unfolding digits_onto starts_digit
starts_digit-digits zero n s = rw (digit-decimal (n % 10) (omega arith)) (ground arith)
starts_digit-digits (suc fuel) n s = elim (Bool-cases (ltb n 10)) [
  | inl small ↦ rw (small, digit-decimal (n % 10) (omega arith)) (ground arith)
  | inr large ↦ rw large (starts_digit-digits fuel (n / 10) ((48 + n % 10) ∷ s))
]

digits_onto-append :
    (fuel n : ℕ) (s t : List ℕ) → digits_onto fuel n s ++ t ≡ digits_onto fuel n (s ++ t)
unfolding digits_onto
digits_onto-append zero n s t = refl
digits_onto-append (suc fuel) n s t = elim (Bool-cases (ltb n 10)) [
  | inl small ↦ rw small refl
  | inr large ↦ rw large (digits_onto-append fuel (n / 10) ((48 + n % 10) ∷ s) t)
]

-- A text that starts with a digit has no space and no sign in front.
digit-no_space : (c : ℕ) (s : List ℕ) → starts_digit 10 (c ∷ s) ≡ true → skip_space (c ∷ s) ≡ c ∷ s
unfolding starts_digit digit skip_space is_space
digit-no_space c s h = ground (arith, h)

digit-no_sign :
    (c : ℕ) (s : List ℕ) → starts_digit 10 (c ∷ s) ≡ true → sign_of (c ∷ s) ≡ (false, c ∷ s)
unfolding starts_digit digit sign_of
digit-no_sign c s h = ground (arith, h)

-- The digits of a number and a text behind them that goes on with no digit.
abbrev pub Stops : List ℕ → Type 0
Stops s = starts_digit 10 s ≡ false

run_of-stop : (n : ℕ) (s : List ℕ) → Stops s → run_of 10 n s ≡ (n, s)
unfolding run_of starts_digit
run_of-stop n [] h = refl
run_of-stop n (c ∷ s) h = rw h refl

pub to_string-run_of : (n : ℕ) (s : List ℕ) → Stops s → run_of 10 0 (to_string n ++ s) ≡ (n, s)
unfolding to_string
to_string-run_of n s h =
    ap (run_of 10 0) (digits_onto-append n n [] s)
    ∙ run_of-digits n n s (omega arith)
    ∙ run_of-stop n s h

pub to_string-starts_digit : (n : ℕ) (s : List ℕ) → starts_digit 10 (to_string n ++ s) ≡ true
unfolding to_string
to_string-starts_digit n s =
    ap (starts_digit 10) (digits_onto-append n n [] s) ∙ starts_digit-digits n n s

not_empty : (c : ℕ) (t : List ℕ) → (length (c ∷ t) == 0) ≡ false
not_empty c t = ground arith

-- `%d` on a text that starts with a digit.
number-digits :
    (first : Bool) (ds : List Directive) (t : List ℕ) (n : ℕ) (s : List ℕ)
    → starts_digit 10 t ≡ true
    → run_of 10 0 t ≡ (n, s)
    → (sscanf_from first (Directive.number ∷ ds) t).values
      ≡ (false, min n (2 ^ 64 - 1)) ∷ (sscanf_from false ds s).values
unfolding sscanf_from
number-digits first ds [] n s h e = ground arith
number-digits first ds (c ∷ t) n s h e =
    rw (digit-no_space c t h, digit-no_sign c t h, e, h, not_empty c t) refl

-- `%d` on a number that is spelled out.
pub number-to_string :
    (first : Bool) (ds : List Directive) (n : ℕ) (s : List ℕ)
    → Stops s
    → (sscanf_from first (Directive.number ∷ ds) (to_string n ++ s)).values
      ≡ (false, min n (2 ^ 64 - 1)) ∷ (sscanf_from false ds s).values
number-to_string first ds n s h =
    number-digits first ds (to_string n ++ s) n s (to_string-starts_digit n s)
      (to_string-run_of n s h)
