-- ===== src/Text/Decimal.antt =====
-- Decimal numbers: what `format!` prints for `u64` and `usize`, and `str::parse::<u64>`.
use inference_data_plane.Prelude.{
  ℕ, zero, suc, ◌+◌, ◌-◌, ◌*◌, ◌/◌, ◌%◌, ◌≤◌, ◌<◌, ◌≡◌, refl, ap, ◌∙◌, ◌≢◌, Bool, true, false, not,
  ◌&&◌, Option, none, some, [], ◌∷◌, ◌++◌, arith, leb, ltb, eqb, All, All-append, length,
  length-append, is_empty, u64_mod, if◌then◌else◌,
}
use inference_data_plane.Text.{Text}

show_fuel : ℕ → ℕ → Text
show_fuel zero n = (48 + n % 10) ∷ []
show_fuel (suc f) n = elim (ltb n 10) [
  | true ↦ (48 + n) ∷ []
  | false ↦ show_fuel f (n / 10) ++ (48 + n % 10) ∷ []
]

-- One round for each digit, so `n` rounds are enough.
unfoldable pub show : ℕ → Text
unfolding show_fuel
show n = show_fuel n n

pub is_digit : ℕ → Bool
is_digit c = leb 48 c && leb c 57

-- The overflow check of every digit ends the parse.
parse_digits : ℕ → Text → Option ℕ
parse_digits acc [] = some acc
parse_digits acc (c ∷ s) =
    let next = acc * 10 + (c - 48) in
    if is_digit c && ltb next u64_mod then parse_digits next s else none

-- A leading `+` is accepted before a digit.
unfoldable pub parse_u64 : Text → Option ℕ
unfolding parse_digits is_digit
parse_u64 [] = none
parse_u64 (c ∷ s) = parse_digits 0 (if eqb c b'+' && not (is_empty s) then s else c ∷ s)

abbrev then_parse : Option ℕ → Text → Option ℕ
then_parse none t = none
then_parse (some a) t = parse_digits a t

parse_digits-append :
    (acc : ℕ) (s t : Text) → parse_digits acc (s ++ t) ≡ then_parse (parse_digits acc s) t
unfolding parse_digits
parse_digits-append acc [] t = refl
parse_digits-append acc (c ∷ s) t = ground (arith, parse_digits-append (acc * 10 + (c - 48)) s t)

parse-show_fuel : (f n : ℕ) → n ≤ f → n < u64_mod → parse_digits 0 (show_fuel f n) ≡ some n
unfolding parse_digits show_fuel is_digit
parse-show_fuel zero n h k = ground arith
parse-show_fuel (suc f) n h k = ground (
  arith,
  parse-show_fuel f (n / 10),
  parse_digits-append 0 (show_fuel f (n / 10)) ((48 + n % 10) ∷ []),
)

abbrev pub IsDigit : ℕ → Type 0
IsDigit c = (48 ≤ c) × (c ≤ 57)

show_fuel-IsDigit : (f n : ℕ) → All IsDigit (show_fuel f n)
unfolding show_fuel
show_fuel-IsDigit zero n = omega arith
show_fuel-IsDigit (suc f) n = ground (
  arith,
  All-append IsDigit (show_fuel f (n / 10)) ((48 + n % 10) ∷ []) (show_fuel-IsDigit f (n / 10)),
)

pub show-IsDigit : (n : ℕ) → All IsDigit (show n)
unfolding show
show-IsDigit n = show_fuel-IsDigit n n

show_fuel-ne-nil : (f n : ℕ) → show_fuel f n ≢ []
unfolding show_fuel
show_fuel-ne-nil zero n h = cc
show_fuel-ne-nil (suc f) n h =
    ground (arith, ap length h, length-append (show_fuel f (n / 10)) ((48 + n % 10) ∷ []))

parse_u64-digits : (s : Text) → All IsDigit s → s ≢ [] → parse_u64 s ≡ parse_digits 0 s
unfolding parse_u64
parse_u64-digits [] d h = absurd (h refl)
parse_u64-digits (c ∷ s) d h = ground (arith, d.0)

-- Printing a `u64` and parsing it gives it back.
pub parse_u64-show : (n : ℕ) → n < u64_mod → parse_u64 (show n) ≡ some n
unfolding show
parse_u64-show n h =
    parse_u64-digits (show n) (show-IsDigit n) (show_fuel-ne-nil n n)
    ∙ parse-show_fuel n n (omega arith) h
