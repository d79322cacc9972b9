-- ===== src/Migrations/Numbering.antt =====
-- The padded numbers of the ids of the seeded rules.
use Prim.Native.Char.{code}
use Prim.Native.String.{count}
use text.Mathlib.TextLemmas.{append_inj, length-append}
use native.Mathlib.Nat.{mod-lt, zero-lt-suc}
use rules_enrichment_daemon.Prelude.{
  ℕ, zero, suc, ◌+◌, ◌*◌, ◌/◌, ◌%◌, ◌^◌, ◌<◌, String, ◌≡◌, refl, ◌∙◌, ap, sym, List, [], ◌∷◌, All,
  length, arith,
}
use rules_enrichment_daemon.Migrations.{item_at, digits, padded}

first_code : String → ℕ
first_code String.[] = 0
first_code (String.◌∷◌ c s) = code c

-- a text of the list at every index
pub item_at-All :
    (P : String → Type 0) (ts : List String) (n : ℕ) → n < length ts → All P ts → P (item_at ts n)
item_at-All P [] n h all = absurd (omega arith)
item_at-All P (t ∷ ts) zero h all = all.0
item_at-All P (t ∷ ts) (suc n) h all = item_at-All P ts n (omega arith) all.1

-- the texts begin with consecutive codes
abbrev Codes : ℕ → List String → Type 0
Codes k [] = Unit
Codes k (t ∷ ts) = (first_code t ≡ k) × Codes (k + 1) ts

item_at-code :
    (k : ℕ) (ts : List String) (n : ℕ)
    → n < length ts
    → Codes k ts
    → first_code (item_at ts n) ≡ k + n
item_at-code k [] n h all = absurd (omega arith)
item_at-code k (t ∷ ts) zero h all = omega (arith, all.0)
item_at-code k (t ∷ ts) (suc n) h all = omega (arith, item_at-code (k + 1) ts n (omega arith) all.1)

abbrev digit : ℕ → String
digit n = item_at digits (n % 10)

digit-code : (n : ℕ) → first_code (digit n) ≡ 48 + n % 10
unfolding first_code
digit-code n =
    item_at-code 48 digits (n % 10) (mod-lt n (zero-lt-suc 9))
      (refl, (refl, (refl, (refl, (refl, (refl, (refl, (refl, (refl, (refl, tt))))))))))

count-digit : (n : ℕ) → count (digit n) ≡ 1
count-digit n =
    item_at-All (λ t. count t ≡ 1) digits (n % 10) (mod-lt n (zero-lt-suc 9))
      (refl, (refl, (refl, (refl, (refl, (refl, (refl, (refl, (refl, (refl, tt))))))))))

count-padded : (w n : ℕ) → count (padded w n) ≡ w
unfolding padded
count-padded zero n = refl
count-padded (suc w) n =
    length-append (padded w (n / 10)) (digit n)
    ∙ omega (arith, count-padded w (n / 10), count-digit n)

pow_suc : (w : ℕ) → 10 ^ suc w ≡ 10 ^ w * 10
pow_suc w = omega arith

-- numbers of at most `w` digits with the same padded text are the same
pub padded_inj : (w i j : ℕ) → i < 10 ^ w → j < 10 ^ w → padded w i ≡ padded w j → i ≡ j
unfolding padded
padded_inj zero i j h h' e = omega arith
padded_inj (suc w) i j h h' e =
    let (front, last) = append_inj e (count-padded w (i / 10) ∙ sym (count-padded w (j / 10))) in
    let tens =
      padded_inj w (i / 10) (j / 10) (omega (arith, pow_suc w)) (omega (arith, pow_suc w)) front in
    let ones = sym (digit-code i) ∙ ap first_code last ∙ digit-code j in omega (arith, tens, ones)
