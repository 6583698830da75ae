-- ===== src/Network/Names.antt =====
-- The names in a table: which entries have one, and where a name is found.
use csci402_projects.Base.{
  ℕ, zero, suc, ◌+◌, ◌≤◌, ◌<◌, ◌≡◌, refl, ◌∙◌, sym, ◌≢◌, ◌⊎◌, inl, inr, ap, Bool, true, false,
  String, str_eq, eq_iff, Option, none, some, ok, Bool-cases, arith, update, if◌then◌else◌, lt→ltb,
  subst, update_other, ◌==◌,
}
use native.Mathlib.Decide.{dec_le}
use mathlib.Core.Bool.{false≢true}
use mathlib.Core.Path.{fun_ext}
use csci402_projects.Network.State.{max_entries, find_from}

abbrev pub has_name : Option String → Bool
has_name none = false
has_name (some n) = true

-- The entries from `b` on, `n` of them, are the ones with a name, and the table holds them.
pub record IsFilled (names : ℕ → Option String) (b n : ℕ) : Type 0 where
  pub fits : b + n ≤ max_entries
  pub named : (i : ℕ) → b ≤ i → i < b + n → (a : String) × (names i ≡ some a)
  pub unnamed : (i : ℕ) → (i < b) ⊎ (b + n ≤ i) → names i ≡ none

-- No two entries have one name.
abbrev pub Distinct : (ℕ → Option String) → Type 0
Distinct names = (i j : ℕ) (a : String) → names i ≡ some a → names j ≡ some a → i ≡ j

abbrev pub Found : (ℕ → Option String) → String → ℕ → ℕ → Option ℕ → Type 0
Found names a i n none = (j : ℕ) → i ≤ j → j < i + n → names j ≢ some a
Found names a i n (some j) = (i ≤ j) × (j < i + n) × (names j ≡ some a)

-- A result from the next entry on is one from this entry, if this entry's name is another.
Found-later :
    (names : ℕ → Option String) (a b : String) (i n : ℕ) (r : Option ℕ)
    → names i ≡ some b
    → str_eq b a ≡ false
    → Found names a (suc i) n r
    → Found names a i (suc n) r
Found-later names a b i n none e differs absent = λ j le lt same. elim (dec_le (suc i) j) [
  | yes above ↦ absent j above (omega arith) same
  | no here ↦
      let at_i : i ≡ j = omega arith in
      false≢true (sym differs ∙ (eq_iff b a).1 (cc (e, same, ap names at_i)))
]
Found-later names a b i n (some j) e differs hit = (omega arith, omega arith, hit.2)

-- One round of the loop at an entry with a name.
find_round :
    (names : ℕ → Option String) (a b : String) (i n : ℕ)
    → i < max_entries
    → names i ≡ some b
    → find_from names a i (suc n)
      ≡ (if str_eq b a then ok (some i) else find_from names a (suc i) n)
unfolding find_from
find_round names a b i n h e = rw (lt→ltb i 5000 h, e)

find_step :
    (names : ℕ → Option String) (a : String) (i n : ℕ)
    → (b : String) × (names i ≡ some b)
    → i < max_entries
    → (r : Option ℕ) × (find_from names a (suc i) n ≡ ok r) × Found names a (suc i) n r
    → (r : Option ℕ) × (find_from names a i (suc n) ≡ ok r) × Found names a i (suc n) r
find_step names a i n (b, e) lt (r, f, hit) = elim (Bool-cases (str_eq b a)) [
  | inl same ↦ (
    some i,
    find_round names a b i n lt e ∙ rw same,
    (omega arith, omega arith, e ∙ ap some ((eq_iff b a).0 same)),
  )
  | inr differs ↦ (
    r,
    find_round names a b i n lt e ∙ rw (differs, f),
    Found-later names a b i n r e differs hit,
  )
]

pub find_from_lem :
    (names : ℕ → Option String) (a : String) (i n : ℕ)
    → i + n ≤ max_entries
    → ((j : ℕ) → i ≤ j → j < i + n → (b : String) × (names j ≡ some b))
    → (r : Option ℕ) × (find_from names a i n ≡ ok r) × Found names a i n r
unfolding find_from
find_from_lem names a i zero fits named = (none, refl, λ j p q. absurd (omega arith))
find_from_lem names a i (suc n) fits named =
    find_step names a i n (named i (omega arith) (omega arith)) (omega arith)
      (find_from_lem names a (suc i) n (omega arith) (λ j p q. named j (omega arith) (omega arith)))

-- A table of `n` entries from `b` on, no two of one name.
pub record IsTable (names : ℕ → Option String) (b n : ℕ) : Type 0 where
  pub filled : IsFilled names b n
  pub open filled use *
  pub distinct : Distinct names

-- The search in a table does not fault, and finds the name exactly if an entry has it.
pub find-IsTable :
    (names : ℕ → Option String) (a : String) (b n : ℕ)
    → IsTable names b n
    → (r : Option ℕ) × (find_from names a b n ≡ ok r) × Found names a b n r
find-IsTable names a b n t = find_from_lem names a b n t.fits t.named

pub IsTable-ext :
    {f g : ℕ → Option String} {b n : ℕ} → ((i : ℕ) → g i ≡ f i) → IsTable f b n → IsTable g b n
IsTable-ext {f} {g} {b} {n} same t = subst (λ h. IsTable h b n) (sym (fun_ext same)) t

-- A name that the table lacks may be given to the next entry.
IsFilled-extend :
    (f : ℕ → Option String) (b n : ℕ) (a : String)
    → IsFilled f b n
    → b + n < max_entries
    → IsFilled (update f (b + n) (some a)) b (suc n)
IsFilled-extend f b n a t room = record {
  fits = omega arith;
  named = λ i le lt. elim (Bool-cases ((b + n) == i)) [
    | inl here ↦ (a, rw here)
    | inr there ↦ let (c, e) = t.named i le (ground arith) in (c, rw there e)
  ];
  unnamed = λ i out. update_other f (b + n) i (some a) (omega arith) ∙ t.unnamed i (omega arith);
}

Distinct-extend :
    (f : ℕ → Option String) (k : ℕ) (a : String)
    → Distinct f
    → ((j : ℕ) → f j ≢ some a)
    → Distinct (update f k (some a))
Distinct-extend f k a d fresh i j c p q = ground (arith, d i j c, fresh i, fresh j)

absent_everywhere :
    (f : ℕ → Option String) (a : String) (b n : ℕ)
    → IsFilled f b n
    → Found f a b n none
    → (j : ℕ) → f j ≢ some a
absent_everywhere f a b n t absent j e = elim (dec_le b j) [
  | no below ↦ cc (t.unnamed j (inl (omega arith)), e)
  | yes le ↦ elim (dec_le (b + n) j) [
    | yes above ↦ cc (t.unnamed j (inr above), e)
    | no lt ↦ absent j le (omega arith) e
  ]
]

pub IsTable-extend :
    (f : ℕ → Option String) (b n : ℕ) (a : String)
    → IsTable f b n
    → b + n < max_entries
    → Found f a b n none
    → IsTable (update f (b + n) (some a)) b (suc n)
IsTable-extend f b n a t room absent = record {
  filled = IsFilled-extend f b n a t.filled room;
  distinct = Distinct-extend f (b + n) a t.distinct (absent_everywhere f a b n t.filled absent);
}

Found-there :
    (names : ℕ → Option String) (a : String) (b n j : ℕ) (r : Option ℕ)
    → IsTable names b n
    → names j ≡ some a
    → Found names a b n r
    → r ≡ some j
Found-there names a b n j none t e absent =
    absurd (absent_everywhere names a b n t.filled absent j e)
Found-there names a b n j (some k) t e hit = ap some (t.distinct k j a hit.2 e)

-- In a table the search finds the one entry that has the name.
pub find-named :
    (names : ℕ → Option String) (a : String) (b n j : ℕ)
    → IsTable names b n
    → names j ≡ some a
    → find_from names a b n ≡ ok (some j)
find-named names a b n j t e =
    let (r, f, hit) = find-IsTable names a b n t in f ∙ ap ok (Found-there names a b n j r t e hit)
