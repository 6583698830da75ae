-- ===== src/Processor/Decoding.antt =====
-- The decoding of an instruction: the indices stay inside the tables, every word has an operation
-- that the switch of OneInstruction handles, and its fields name general registers.
use csci402_projects.Base.{
  ℕ, zero, suc, ◌/◌, ◌%◌, ◌<◌, ◌≡◌, refl, Bool, true, false, ◌&&◌, List, [], ◌∷◌, length, Meets,
  Meets-next, arith,
}
use csci402_projects.Processor.Words.{word_limit}
use csci402_projects.Processor.Registers.{OpCode, Instruction, op_rfe, op_special, op_bcond}
use csci402_projects.Processor.Tables.{
  Format, ifmt, jfmt, rfmt, OpInfo, op_table, special_table, entry, bcond, extra_of, final_op,
  decode,
}
use csci402_projects.Processor.Sound.{IsInstruction}

-- The switch of OneInstruction has a case for the operation.
unfoldable pub has_case : OpCode → Bool
has_case op_rfe = false
has_case op_special = false
has_case op_bcond = false
has_case op = true

-- What the first table holds.
unfoldable starts : OpCode → Bool
starts op_rfe = false
starts op = true

abbrev is_row : OpInfo → Bool
is_row row = starts row.op_code

unfoldable all {ℓ} : {A : Type ℓ} → (A → Bool) → List A → Bool
all p [] = true
all p (x ∷ xs) = p x && all p xs

entry-Meets {ℓ} :
    {A : Type ℓ} (p : A → Bool) (t : List A) (i : ℕ)
    → all p t ≡ true
    → i < length t
    → Meets false (λ x. p x ≡ true) (entry t i)
unfolding all entry
entry-Meets p [] i h lt = absurd (omega arith)
entry-Meets p (x ∷ xs) zero h lt = (refl, ground (arith, h))
entry-Meets p (x ∷ xs) (suc i) h lt = entry-Meets p xs i (ground (arith, h)) (omega arith)

bcond-has_case : (i : ℕ) → has_case (bcond i) ≡ true
unfolding bcond has_case
bcond-has_case i = ground arith

op_table-all : all is_row op_table ≡ true
unfolding all starts
op_table-all = refl

special_table-all : all has_case special_table ≡ true
unfolding all has_case
special_table-all = refl

-- The second lookup.
final-Meets :
    (op : OpCode) (value : ℕ)
    → starts op ≡ true
    → Meets false (λ op'. has_case op' ≡ true) (final_op op value)
unfolding starts has_case final_op
final-Meets op_special value h =
    entry-Meets has_case special_table (value % 64) special_table-all (omega arith)
final-Meets op_bcond value h = (refl, bcond-has_case (value / 65536 % 32))
final-Meets op_rfe value h = cc
final-Meets op value h = (refl, refl)

extra_of_lt : (f : Format) (value : ℕ) → extra_of f value < word_limit
unfolding extra_of
extra_of_lt ifmt value = ground arith
extra_of_lt rfmt value = omega arith
extra_of_lt jfmt value = omega arith

-- What `Instruction::Decode` gives.
pub record IsDecoded (i : Instruction) : Type 0 where
  pub fields : IsInstruction i
  pub handled : has_case i.op_code ≡ true

-- Every word decodes: no index leaves a table, the operation is one that the switch of OneInstruction
-- has a case for, the register fields are below 32 and the extra field is a word.
pub decode-Meets : (word : ℕ) → Meets false IsDecoded (decode word)
unfolding decode
decode-Meets word =
    Meets-next false IsDecoded (entry op_table (word / 67108864 % 64)) _
      (entry-Meets is_row op_table (word / 67108864 % 64) op_table-all (omega arith))
      (λ row good.
        Meets-next false IsDecoded (final_op row.op_code word) _ (final-Meets row.op_code word good)
          (λ op handled. (
            refl,
            record {
              fields = record {
                rs = omega arith;
                rt = omega arith;
                rd = omega arith;
                extra = extra_of_lt row.format word;
              };
              handled = handled;
            },
          )))
