-- ===== src/IdAlloc/Digits.antt =====
-- src/id_alloc.rs: what is printed as a decimal number is parsed back to it.
use Prim.Native.Char.{code}
use text.Mathlib.TextLemmas.{cons-append, nil-append, append-ne-nil_of_right_ne-nil, append_assoc}
use arrow_kanban.Prelude.{
  ℕ, zero, suc, ◌+◌, ◌-◌, ◌*◌, ◌/◌, ◌%◌, ◌<◌, String, ◌≡◌, refl, ◌≢◌, ap, ◌∙◌, sym, Bool, true,
  false, ◌&&◌, Option, none, some, inl, inr, arith, ltb, eqb, ◌<>◌, ◌==◌, eq_iff, Bool-cases,
}
use arrow_kanban.Prelude.Decimal.{digit, show_fuel, show}
use arrow_kanban.IdAlloc.{
  u32_bound, is_digit, parse_digits, strip_plus, parse_u32, before_dot, strip_prefix, number_of,
}

abbrev pub then_digits : Option ℕ → String → Option ℕ
then_digits none t = none
then_digits (some v) t = parse_digits v t

-- Parsing runs over a text in two parts.
parse_digits-append :
    (s t : String) (acc : ℕ) → parse_digits acc (s <> t) ≡ then_digits (parse_digits acc s) t
unfolding parse_digits
parse_digits-append String.[] t acc = rw nil-append
parse_digits-append (String.◌∷◌ c s) t acc =
    rw cons-append (ground (arith, parse_digits-append s t (acc * 10 + (code c - 48))))

parse_digit :
    (d acc : ℕ)
    → d < 10
    → acc * 10 + d < u32_bound
    → parse_digits acc (digit d) ≡ some (acc * 10 + d)
unfolding parse_digits digit
parse_digit zero acc h b = ground arith
parse_digit (suc zero) acc h b = ground arith
parse_digit (suc (suc zero)) acc h b = ground arith
parse_digit (suc (suc (suc zero))) acc h b = ground arith
parse_digit (suc (suc (suc (suc zero)))) acc h b = ground arith
parse_digit (suc (suc (suc (suc (suc zero))))) acc h b = ground arith
parse_digit (suc (suc (suc (suc (suc (suc zero)))))) acc h b = ground arith
parse_digit (suc (suc (suc (suc (suc (suc (suc zero))))))) acc h b = ground arith
parse_digit (suc (suc (suc (suc (suc (suc (suc (suc zero)))))))) acc h b = ground arith
parse_digit (suc (suc (suc (suc (suc (suc (suc (suc (suc zero))))))))) acc h b = ground arith
parse_digit (suc (suc (suc (suc (suc (suc (suc (suc (suc (suc d)))))))))) acc h b =
    absurd (omega arith)

-- Every character of the text is a digit.
abbrev pub all_digits : String → Bool
all_digits String.[] = true
all_digits (String.◌∷◌ c s) = is_digit (code c) && all_digits s

all_digits-append : (s t : String) → all_digits (s <> t) ≡ (all_digits s && all_digits t)
all_digits-append String.[] t = rw nil-append
all_digits-append (String.◌∷◌ c s) t = rw cons-append (ground (arith, all_digits-append s t))

all_digits-digit : (d : ℕ) → all_digits (digit d) ≡ true
unfolding digit
all_digits-digit zero = refl
all_digits-digit (suc zero) = refl
all_digits-digit (suc (suc zero)) = refl
all_digits-digit (suc (suc (suc zero))) = refl
all_digits-digit (suc (suc (suc (suc zero)))) = refl
all_digits-digit (suc (suc (suc (suc (suc zero))))) = refl
all_digits-digit (suc (suc (suc (suc (suc (suc zero)))))) = refl
all_digits-digit (suc (suc (suc (suc (suc (suc (suc zero))))))) = refl
all_digits-digit (suc (suc (suc (suc (suc (suc (suc (suc zero)))))))) = refl
all_digits-digit (suc (suc (suc (suc (suc (suc (suc (suc (suc d))))))))) = refl

all_digits-show_fuel : (f n : ℕ) → all_digits (show_fuel f n) ≡ true
unfolding show_fuel
all_digits-show_fuel zero n = refl
all_digits-show_fuel (suc f) n = ground (
  arith,
  all_digits-digit n,
  all_digits-digit (n % 10),
  all_digits-append (show_fuel f (n / 10)) (digit (n % 10)),
  all_digits-show_fuel f (n / 10),
)

parse-show_fuel : (f n : ℕ) → n < f → n < u32_bound → parse_digits zero (show_fuel f n) ≡ some n
unfolding show_fuel
parse-show_fuel zero n h b = absurd (omega arith)
parse-show_fuel (suc f) n h b = elim (Bool-cases (ltb n 10)) [
  | inl small ↦ rw small (parse_digit n zero (ground arith) (omega arith) ∙ ap some (omega arith))
  | inr large ↦ rw large (
      parse_digits-append (show_fuel f (n / 10)) (digit (n % 10)) zero
      ∙ rw (parse-show_fuel f (n / 10) (ground arith) (omega arith))
          (parse_digit (n % 10) (n / 10) (omega arith) (omega arith) ∙ ap some (omega arith)))
]

digit_nonempty : (d : ℕ) → (digit d == "") ≡ false
unfolding digit
digit_nonempty zero = refl
digit_nonempty (suc zero) = refl
digit_nonempty (suc (suc zero)) = refl
digit_nonempty (suc (suc (suc zero))) = refl
digit_nonempty (suc (suc (suc (suc zero)))) = refl
digit_nonempty (suc (suc (suc (suc (suc zero))))) = refl
digit_nonempty (suc (suc (suc (suc (suc (suc zero)))))) = refl
digit_nonempty (suc (suc (suc (suc (suc (suc (suc zero))))))) = refl
digit_nonempty (suc (suc (suc (suc (suc (suc (suc (suc zero)))))))) = refl
digit_nonempty (suc (suc (suc (suc (suc (suc (suc (suc (suc d))))))))) = refl

digit-ne-empty : (d : ℕ) → digit d ≢ ""
digit-ne-empty d e = ground (arith, digit_nonempty d, eq_iff (digit d) "")

show-ne-empty : (n : ℕ) → show n ≢ ""
unfolding show show_fuel
show-ne-empty n e = elim (Bool-cases (ltb n 10)) [
  | inl small ↦ digit-ne-empty n (ground arith)
  | inr large ↦
      append-ne-nil_of_right_ne-nil (show_fuel n (n / 10)) (digit-ne-empty (n % 10)) (ground arith)
]

strip_plus-all_digits : (s : String) → all_digits s ≡ true → strip_plus s ≡ s
unfolding strip_plus
strip_plus-all_digits String.[] h = refl
strip_plus-all_digits (String.◌∷◌ c s) h =
    let other : eqb (code c) 43 ≡ false = ground arith in rw other refl

before_dot-all_digits : (s : String) → all_digits s ≡ true → before_dot s ≡ s
unfolding before_dot
before_dot-all_digits String.[] h = refl
before_dot-all_digits (String.◌∷◌ c s) h =
    let other : eqb (code c) 46 ≡ false = ground arith in
    rw other (ap (String.◌∷◌ c) (before_dot-all_digits s (ground arith)))

all_digits-show : (n : ℕ) → all_digits (show n) ≡ true
unfolding show
all_digits-show n = all_digits-show_fuel (suc n) n

parse_digits-show : (n : ℕ) → n < u32_bound → parse_digits zero (show n) ≡ some n
unfolding show
parse_digits-show n b = parse-show_fuel (suc n) n (omega arith) b

-- A number of 32 bits is read back as printed, also where it stands before a dot.
pub parse_u32-show : (n : ℕ) → n < u32_bound → parse_u32 (before_dot (show n)) ≡ some n
unfolding parse_u32
parse_u32-show n b = rw (before_dot-all_digits (show n) (all_digits-show n)) (
    rw (strip_plus-all_digits (show n) (all_digits-show n))
      (ground (arith, eq_iff (show n) "", show-ne-empty n, parse_digits-show n b)))

pub strip_prefix-append : (p s : String) → strip_prefix p (p <> s) ≡ some s
unfolding strip_prefix
strip_prefix-append String.[] s = rw nil-append
strip_prefix-append (String.◌∷◌ c p) s = rw cons-append (ground (arith, strip_prefix-append p s))

-- The number of an id is the number that it was printed from.
pub number_of-format :
    (p : String) (n : ℕ) → n < u32_bound → number_of (p <> "-") (p <> "-" <> show n) ≡ some n
unfolding number_of
number_of-format p n b =
    let stripped : strip_prefix (p <> "-") (p <> "-" <> show n) ≡ some (show n) =
      ap (strip_prefix (p <> "-")) (sym (append_assoc p "-" (show n)))
      ∙ strip_prefix-append (p <> "-") (show n) in
    rw (stripped, number_of) (parse_u32-show n b)
