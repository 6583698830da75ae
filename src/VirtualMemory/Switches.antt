-- ===== src/VirtualMemory/Switches.antt =====
-- A switch to another process, and the start of the tables: nothing is in the TLB then.
use csci402_projects.Base.{
  ℕ, zero, suc, ◌+◌, ◌<◌, ◌≡◌, false, Bool-cases, if◌then◌else◌, inl, inr, arith, refl, ap,
}
use csci402_projects.FileSystem.Bitmap.{BitMap}
use csci402_projects.VirtualMemory.State.{Vm, num_phys_pages, tlb_size, set_tlb, set_ipt}
use csci402_projects.VirtualMemory.PageFault.{invalidate_from, invalidate_all_tlb}
use csci402_projects.VirtualMemory.Spaces.{clear_tlb, clear_ipt, initialize, restore_state}
use csci402_projects.VirtualMemory.Coherent.{
  Coherent, Shrinks, Shrinks-refl, Shrinks-trans, Shrinks-Coherent,
}

-- The entries of the TLB below `n` are not in use.
abbrev Off : Vm → ℕ → Type 0
Off s n = (k : ℕ) → k < n → (s.tlb k).valid ≡ false

-- One round of InvalidateAllTLB.
abbrev drop_one : Vm → ℕ → Vm
drop_one s i =
    let e = s.tlb i in
    let s₁ =
      if e.valid
      then set_ipt s e.physical_page (record (s.ipt e.physical_page) { dirty = e.dirty })
      else s in
    set_tlb s₁ i (record e { valid = false })

drop_one-Shrinks : (s : Vm) (i : ℕ) → Shrinks s (drop_one s i)
drop_one-Shrinks s i = elim (Bool-cases (s.tlb i).valid) [
  | inl on ↦ rw on (record {
    frames = λ j. record {
      page = ground arith;
      place = ground arith;
      owner = ground arith;
      in_use = ground arith;
    };
    entries = λ j live. (ground arith, ground arith, ground arith);
    turn = refl;
  })
  | inr off ↦ rw off (record {
    frames = λ j. record { page = refl; place = refl; owner = refl; in_use = refl };
    entries = λ j live. (ground arith, ground arith, ground arith);
    turn = refl;
  })
]

drop_one-Off : (s : Vm) (i : ℕ) → Off s i → Off (drop_one s i) (suc i)
drop_one-Off s i off k lt = elim (Bool-cases (s.tlb i).valid) [
  | inl on ↦ rw on (ground (arith, off k))
  | inr off' ↦ rw off' (ground (arith, off k))
]

invalidate_from-lem :
    (s : Vm) (i left : ℕ)
    → Off s i
    → Shrinks s (invalidate_from s i left) × Off (invalidate_from s i left) (i + left)
unfolding invalidate_from
invalidate_from-lem s i zero off = (Shrinks-refl s, λ k lt. off k (omega arith))
invalidate_from-lem s i (suc left) off =
    let (h, off') = invalidate_from-lem (drop_one s i) (suc i) left (drop_one-Off s i off) in
    (
      Shrinks-trans s (drop_one s i) (invalidate_from (drop_one s i) (suc i) left)
          (drop_one-Shrinks s i) h,
      λ k lt. off' k (omega arith),
    )

-- With no entry of the TLB in use, the tables are coherent for any process.
Off-Coherent : (s : Vm) (a b : ℕ) → Coherent s a → Off s tlb_size → Coherent s b
Off-Coherent s a b c off = record {
  framed = c.framed;
  single = c.single;
  shown = λ i lt on. absurd (ground (arith, off i lt));
  once = λ i j lt lt' on. absurd (ground (arith, off i lt));
  in_turn = c.in_turn;
}

pub restore_state-Coherent : (s : Vm) (a b : ℕ) → Coherent s a → Coherent (restore_state s) b
unfolding invalidate_all_tlb
restore_state-Coherent s a b c =
    let (h, off) = invalidate_from-lem s 0 tlb_size (λ k lt. absurd (omega arith)) in
    Off-Coherent (restore_state s) a b (Shrinks-Coherent s (restore_state s) h a c) off

clear_tlb-Off : (s : Vm) (i left : ℕ) → Off s i → Off (clear_tlb s i left) (i + left)
unfolding clear_tlb
clear_tlb-Off s i zero off = λ k lt. off k (omega arith)
clear_tlb-Off s i (suc left) off = λ k lt.
    clear_tlb-Off
      (set_tlb s i (record (s.tlb i) { virtual_page = 0; physical_page = 0; valid = false }))
      (suc i) left (λ k' lt'. ground (arith, off k')) k (omega arith)

-- The frames below `n` are not in use.
abbrev Empty : Vm → ℕ → Type 0
Empty s n = (k : ℕ) → k < n → (s.ipt k).valid ≡ false

clear_ipt-lem :
    (s : Vm) (i left : ℕ)
    → Empty s i
    → Empty (clear_ipt s i left) (i + left) × ((clear_ipt s i left).tlb ≡ s.tlb)
unfolding clear_ipt
clear_ipt-lem s i zero none_yet = (λ k lt. none_yet k (omega arith), refl)
clear_ipt-lem s i (suc left) none_yet =
    let (free, same) =
      clear_ipt-lem
        (set_ipt s i (record (s.ipt i) { virtual_page = 0; physical_page = 0; valid = false }))
        (suc i) left (λ k lt. ground (arith, none_yet k)) in
    (λ k lt. free k (omega arith), same)

pub initialize-Coherent : (s : Vm) (places : BitMap) (p : ℕ) → Coherent (initialize s places) p
unfolding initialize
initialize-Coherent s places p =
    let off = clear_tlb-Off s 0 tlb_size (λ k lt. absurd (omega arith)) in
    let (free, same) =
      clear_ipt-lem (clear_tlb s 0 tlb_size) 0 num_phys_pages (λ k lt. absurd (omega arith)) in
    record {
      framed = λ i lt on. absurd (ground (arith, free i lt));
      single = λ i j v q a b. absurd (ground (arith, free i a.inside, a.loaded));
      shown = λ i lt on. absurd (ground (arith, off i lt, ap (λ t. (t i).valid) same));
      once = λ i j lt lt' on. absurd (ground (arith, off i lt, ap (λ t. (t i).valid) same));
      in_turn = omega arith;
    }
