-- ===== src/VirtualMemory/Coherent.antt =====
-- The order that the TLB and the inverted page table keep, and the changes that keep it at once.
use csci402_projects.Base.{ℕ, ◌≡◌, ◌<◌, true, arith, refl, ◌∙◌}
use csci402_projects.VirtualMemory.State.{Vm, IptEntry, num_phys_pages, tlb_size, set_ipt}

-- The frame holds the page of the process.
pub record Holds (s : Vm) (frame vpn process_id : ℕ) : Type 0 where
  pub inside : frame < num_phys_pages
  pub loaded : (s.ipt frame).valid ≡ true
  pub page : (s.ipt frame).virtual_page ≡ vpn
  pub owner : (s.ipt frame).process_id ≡ process_id

-- With the process that runs: an entry of the IPT in use stands at its frame, a page is in one frame
-- at most, an entry of the TLB in use gives the frame that holds the page for this process, and no
-- page is in the TLB twice.
pub record Coherent (s : Vm) (running : ℕ) : Type 0 where
  pub framed : (i : ℕ) → i < num_phys_pages → (s.ipt i).valid ≡ true → (s.ipt i).physical_page ≡ i
  pub single :
      (i j vpn process_id : ℕ) → Holds s i vpn process_id → Holds s j vpn process_id → i ≡ j
  pub shown :
      (i : ℕ)
      → i < tlb_size
      → (s.tlb i).valid ≡ true
      → Holds s (s.tlb i).physical_page (s.tlb i).virtual_page running
  pub once :
      (i j : ℕ)
      → i < tlb_size
      → j < tlb_size
      → (s.tlb i).valid ≡ true
      → (s.tlb j).valid ≡ true
      → (s.tlb i).virtual_page ≡ (s.tlb j).virtual_page
      → i ≡ j
  pub in_turn : s.next_tlb < tlb_size

-- The same but for the bits `use` and `dirty`.
pub record SameFrame (e e' : IptEntry) : Type 0 where
  pub page : e'.virtual_page ≡ e.virtual_page
  pub place : e'.physical_page ≡ e.physical_page
  pub owner : e'.process_id ≡ e.process_id
  pub in_use : e'.valid ≡ e.valid

-- `s'` has the frames of `s`, and no more of the TLB.
pub record Shrinks (s s' : Vm) : Type 0 where
  pub frames : (i : ℕ) → SameFrame (s.ipt i) (s'.ipt i)
  pub entries :
      (i : ℕ)
      → (s'.tlb i).valid ≡ true
      → ((s.tlb i).valid ≡ true)
        × ((s'.tlb i).virtual_page ≡ (s.tlb i).virtual_page)
        × ((s'.tlb i).physical_page ≡ (s.tlb i).physical_page)
  pub turn : s'.next_tlb ≡ s.next_tlb

pub Shrinks-refl : (s : Vm) → Shrinks s s
Shrinks-refl s = record {
  frames = λ i. record { page = refl; place = refl; owner = refl; in_use = refl };
  entries = λ i e. (e, refl, refl);
  turn = refl;
}

pub Shrinks-trans : (s t u : Vm) → Shrinks s t → Shrinks t u → Shrinks s u
Shrinks-trans s t u a b = record {
  frames = λ i. record {
    page = (b.frames i).page ∙ (a.frames i).page;
    place = (b.frames i).place ∙ (a.frames i).place;
    owner = (b.frames i).owner ∙ (a.frames i).owner;
    in_use = (b.frames i).in_use ∙ (a.frames i).in_use;
  };
  entries = λ i e.
      let (e₁, page₁, place₁) = b.entries i e in
      let (e₂, page₂, place₂) = a.entries i e₁ in (e₂, page₁ ∙ page₂, place₁ ∙ place₂);
  turn = b.turn ∙ a.turn;
}

module _ (s s' : Vm) (h : Shrinks s s') where
  pub Holds-back : (i vpn process_id : ℕ) → Holds s' i vpn process_id → Holds s i vpn process_id
  Holds-back i vpn process_id held =
      let same = h.frames i in
      record {
        inside = held.inside;
        loaded = ground (arith, same.in_use, held.loaded);
        page = ground (arith, same.page, held.page);
        owner = ground (arith, same.owner, held.owner);
      }

  pub Holds-on : (i vpn process_id : ℕ) → Holds s i vpn process_id → Holds s' i vpn process_id
  Holds-on i vpn process_id held =
      let same = h.frames i in
      record {
        inside = held.inside;
        loaded = same.in_use ∙ held.loaded;
        page = same.page ∙ held.page;
        owner = same.owner ∙ held.owner;
      }

  pub Shrinks-Coherent : (running : ℕ) → Coherent s running → Coherent s' running
  Shrinks-Coherent running c = record {
    framed =
        λ i lt e. let same = h.frames i in same.place ∙ c.framed i lt (ground (arith, same.in_use));
    single = λ i j vpn p a b. c.single i j vpn p (Holds-back i vpn p a) (Holds-back j vpn p b);
    shown = λ i lt e.
        let (e', page, place) = h.entries i e in
        rw page rw place
          (Holds-on (s.tlb i).physical_page (s.tlb i).virtual_page running (c.shown i lt e'));
    once = λ i j lt lt' e e' same.
        let (f, page, place) = h.entries i e in
        let (f', page', place') = h.entries j e' in
        c.once i j lt lt' f f' (ground (arith, page, page', same));
    in_turn = ground (arith, h.turn, c.in_turn);
  }

-- A change of the bits of one entry of the IPT.
pub set_ipt-Shrinks :
    (s : Vm) (i : ℕ) (e : IptEntry) → SameFrame (s.ipt i) e → Shrinks s (set_ipt s i e)
set_ipt-Shrinks s i e same = record {
  frames = λ j. record {
    page = ground (arith, same.page);
    place = ground (arith, same.place);
    owner = ground (arith, same.owner);
    in_use = ground (arith, same.in_use);
  };
  entries = λ j on. (on, refl, refl);
  turn = refl;
}
