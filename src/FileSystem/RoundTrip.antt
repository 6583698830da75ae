-- ===== src/FileSystem/RoundTrip.antt =====
-- Deallocate gives back what Allocate took.
use csci402_projects.Base.{
  ℕ, zero, suc, ◌+◌, ◌≡◌, ◌≢◌, ◌∙◌, ◌≤◌, ◌<◌, refl, pos, int_eq, int_eq_iff, sym, ap, Bool, true,
  false, ◌||◌, ◌&&◌, not, ◌==◌, Result, ok, arith, Bool-cases, inl, inr,
}
use csci402_projects.FileSystem.Bitmap.{BitMap, bit, clear_bit, test, clear}
use csci402_projects.FileSystem.Bits.{bit-clear_bit, num_bits-clear_bit}
use csci402_projects.FileSystem.FileHeader.{
  FileHeader, num_direct, sectors_for, sector_at, allocate, deallocate_from, deallocate,
}
use csci402_projects.FileSystem.Allocation.{Filled, allocate_lem}

-- Is sector `j` among the entries from `i` on, `left` of them?
abbrev pub listed : FileHeader → ℕ → ℕ → ℕ → Bool
listed h i zero j = false
listed h i (suc left) j = int_eq (h.data_sectors i) (pos j) || listed h (suc i) left j

-- The entries from `i` on are different marked sectors.
abbrev pub Marked : FileHeader → BitMap → ℕ → ℕ → Type 0
Marked h m i zero = Unit
Marked h m i (suc left) =
    ((j : ℕ) × (h.data_sectors i ≡ pos j)
      × (j < m.num_bits)
      × (bit m j ≡ true)
      × (listed h (suc i) left j ≡ false))
    × Marked h m (suc i) left

Marked-clear_bit :
    (h : FileHeader) (m : BitMap) (n i left : ℕ)
    → listed h i left n ≡ false
    → Marked h m i left
    → Marked h (clear_bit m n) i left
Marked-clear_bit h m n i zero absent all = tt
Marked-clear_bit h m n i (suc left) absent ((j, e, inside, marked, once), all) = (
  (j, e, ground (arith, num_bits-clear_bit m n), ground (arith, bit-clear_bit m n j), once),
  Marked-clear_bit h m n (suc i) left (ground arith) all,
)

deallocate_from_lem :
    (h : FileHeader) (m : BitMap) (i left : ℕ)
    → i + left ≤ num_direct
    → Marked h m i left
    → (m' : BitMap) × (deallocate_from h m i left ≡ ok m')
      × (m'.num_bits ≡ m.num_bits)
      × ((j : ℕ) → bit m' j ≡ (bit m j && not (listed h i left j)))
unfolding deallocate_from sector_at test clear
deallocate_from_lem h m i zero fits all = (m, refl, refl, λ j. ground arith)
deallocate_from_lem h m i (suc left) fits ((n, e, inside, marked, once), all) =
    let (m', done, same, bits) =
      deallocate_from_lem h (clear_bit m n) (suc i) left (omega arith)
        (Marked-clear_bit h m n (suc i) left once all) in
    (
      m',
      ground (arith, done),
      same ∙ num_bits-clear_bit m n,
      λ j. ground (arith, bits j, bit-clear_bit m n j),
    )

listed-none :
    (h : FileHeader) (i left n : ℕ)
    → ((k : ℕ) → i ≤ k → k < i + left → h.data_sectors k ≢ pos n)
    → listed h i left n ≡ false
listed-none h i zero n absent = refl
listed-none h i (suc left) n absent = ground (
  arith,
  int_eq_iff (h.data_sectors i) (pos n),
  absent i (omega arith) (omega arith),
  listed-none h (suc i) left n (λ k le lt. absent k (omega arith) (omega arith)),
)

listed-entry :
    (h : FileHeader) (i left n : ℕ)
    → listed h i left n ≡ true
    → (k : ℕ) × (i ≤ k) × (k < i + left) × (h.data_sectors k ≡ pos n)
listed-entry h i (suc left) n hit = elim (Bool-cases (int_eq (h.data_sectors i) (pos n))) [
  | inl here ↦ (i, omega arith, omega arith, (int_eq_iff _ _).0 here)
  | inr there ↦
      let (k, le, lt, e) = listed-entry h (suc i) left n (ground arith) in
      (k, omega arith, omega arith, e)
]
listed-entry h i zero n hit = cc

entry-listed :
    (h : FileHeader) (i left n k : ℕ)
    → i ≤ k
    → k < i + left
    → h.data_sectors k ≡ pos n
    → listed h i left n ≡ true
entry-listed h i zero n k le lt e = absurd (omega arith)
entry-listed h i (suc left) n k le lt e = elim (Bool-cases (i == k)) [
  | inl here ↦ ground (arith, int_eq_iff (h.data_sectors k) (pos n))
  | inr there ↦ ground (arith, entry-listed h (suc i) left n k (ground arith) (omega arith) e)
]

module _ (h : FileHeader) (m : BitMap) (n : ℕ) (h' : FileHeader) (m' : BitMap)
    (f : Filled h m 0 n h' m') where
  Filled-Marked : (i left : ℕ) → i + left ≡ n → Marked h' m' i left
  Filled-Marked i zero fits = tt
  Filled-Marked i (suc left) fits =
      let (j, e, inside, unused, marked) = f.taken i (omega arith) (omega arith) in
      (
        (
          j,
          e,
          ground (arith, f.size),
          marked,
          listed-none h' (suc i) left j (λ k le lt e'.
              f.different i k (omega arith) (omega arith) (omega arith) (e ∙ sym e')),
        ),
        Filled-Marked (suc i) left (omega arith),
      )

  Filled-listed : (j : ℕ) → (bit m' j && not (listed h' 0 n j)) ≡ bit m j
  Filled-listed j = elim (Bool-cases (listed h' 0 n j)) [
    | inl hit ↦
        let (k, le, lt, e) = listed-entry h' 0 n j hit in
        let (j', e', inside, unused, marked) = f.taken k le lt in ground (arith, e, e')
    | inr absent ↦ elim (Bool-cases (bit m' j)) [
      | inr unmarked ↦ ground (arith, f.kept j)
      | inl marked ↦ elim (f.marked_new j marked) [
        | inl old ↦ ground arith
        | inr (k, le, lt, e) ↦ ground (arith, entry-listed h' 0 n j k le lt e)
      ]
    ]
  ]

abbrev success : FileHeader → BitMap → Result (FileHeader × BitMap × Bool)
success h m = ok (h, m, true)

success_injective :
    (a c : FileHeader) (b d : BitMap) → success a b ≡ success c d → (a ≡ c) × (b ≡ d)
success_injective a c b d e = (ground arith, ground arith)

-- After an Allocate that succeeds for a file that fits into a header, Deallocate succeeds, and the
-- same sectors are free as before the two.
pub deallocate-allocate :
    (h h' : FileHeader) (m m' : BitMap) (size : ℕ)
    → sectors_for size ≤ num_direct
    → allocate h m size ≡ ok (h', m', true)
    → (m'' : BitMap) × (deallocate h' m' ≡ ok m'') × ((j : ℕ) → bit m'' j ≡ bit m j)
unfolding deallocate
deallocate-allocate h h' m m' size fits e = elim (allocate_lem h m size fits) [
  | inl (full, (h₁, e')) ↦ cc
  | inr (h₁, m₁, e', bytes, sectors, f) ↦
      let (m'', done, same, bits) =
        deallocate_from_lem h₁ m₁ 0 (sectors_for size) (omega arith)
          (Filled-Marked h m (sectors_for size) h₁ m₁ f 0 (sectors_for size) (omega arith)) in
      let same_results = success_injective h₁ h' m₁ m' (sym e' ∙ e) in
      (
        m'',
        ap (λ x. deallocate x m') (sym same_results.0)
            ∙ ap (λ y. deallocate h₁ y) (sym same_results.1)
            ∙ ap (λ n. deallocate_from h₁ m₁ 0 n) sectors
            ∙ done,
        λ j. bits j ∙ Filled-listed h m (sectors_for size) h₁ m₁ f j,
      )
]
