-- ===== src/VirtualMemory/Handling.antt =====
-- The handler of page faults as a whole: after it the page can be used, and the tables stay coherent.
use csci402_projects.Base.{
  ℕ, ◌≡◌, ◌<◌, ◌∙◌, true, false, Bool-cases, leb, ◌==◌, inl, inr, Option, List, [], ◌∷◌, none, some,
  ok, fault, arith, refl, Result, subst,
}
use csci402_projects.VirtualMemory.State.{Vm, num_phys_pages}
use csci402_projects.VirtualMemory.Translate.{search_for_tlb_entry}
use csci402_projects.VirtualMemory.PageFault.{
  search_for_entry, search_for_empty_entry, fetch, install, load_page, refill_tlb, update_entry,
  Policy, fifo, rand, remove_queue, choose_random, choose_eviction_page, Handled, done, halted,
  choosing, evict, bring_in, replace, make_room, handle_page_fault,
}
use csci402_projects.VirtualMemory.Coherent.{Coherent, Holds, Shrinks, Shrinks-Coherent, Holds-back}
use csci402_projects.VirtualMemory.Searches.{
  search_for_tlb_entry-none, search_for_entry-some, search_for_entry-none,
  search_for_empty_entry-some,
}
use csci402_projects.VirtualMemory.Evictions.{Unshown, SameTables, evict-Evicted}
use csci402_projects.VirtualMemory.Refill.{Unseen, Served, refill_tlb-Served, Shrinks-Unseen}

-- The page is in no frame.
abbrev pub Absent : Vm → ℕ → ℕ → Type 0
Absent s vpn process_id = (i : ℕ) → Holds s i vpn process_id → ⊥

SameTables-refl : (s : Vm) → SameTables s s
SameTables-refl s = record { tlb = refl; ipt = refl; turn = refl; sizes = refl }

pub fetch-SameTables : (s : Vm) (running vpn frame : ℕ) → SameTables s (fetch s running vpn frame)
unfolding fetch
fetch-SameTables s running vpn frame = elim (Bool-cases (s.page_location running vpn == 0)) [
  | inl e ↦ rw e (record { tlb = refl; ipt = refl; turn = refl; sizes = refl })
  | inr d ↦ rw d (elim (Bool-cases (s.page_location running vpn == 1)) [
    | inl e ↦ rw e (record { tlb = refl; ipt = refl; turn = refl; sizes = refl })
    | inr d ↦ rw d (record { tlb = refl; ipt = refl; turn = refl; sizes = refl })
  ])
]

SameTables-Shrinks : (s s' : Vm) → SameTables s s' → Shrinks s s'
SameTables-Shrinks s s' same = record {
  frames = λ i. rw same.ipt (record { page = refl; place = refl; owner = refl; in_use = refl });
  entries = λ i. rw same.tlb (λ on. (on, refl, refl));
  turn = same.turn;
}

-- A page that is in no frame comes into a frame that the TLB does not give.
module _ (s : Vm) (running frame vpn : ℕ) (c : Coherent s running) (lt : frame < num_phys_pages)
    (hidden : Unshown s frame) (absent : Absent s vpn running) where
  install-other :
      (i v p : ℕ) → (frame == i) ≡ false → Holds (install s running vpn frame) i v p → Holds s i v p
  unfolding install update_entry
  install-other i v p there a = record {
    inside = a.inside;
    loaded = ground (arith, a.loaded);
    page = ground (arith, a.page);
    owner = ground (arith, a.owner);
  }

  install-here :
      (i v p : ℕ)
      → (frame == i) ≡ true
      → Holds (install s running vpn frame) i v p
      → (v ≡ vpn) × (p ≡ running)
  unfolding install update_entry
  install-here i v p here a = (ground (arith, a.page), ground (arith, a.owner))

  not-both :
      (i j v p : ℕ)
      → (frame == i) ≡ false
      → (frame == j) ≡ true
      → Holds (install s running vpn frame) i v p
      → Holds (install s running vpn frame) j v p
      → ⊥
  not-both i j v p there here a b =
      let (ev, ep) = install-here j v p here b in
      let old = install-other i v p there a in
      absent i (record {
        inside = old.inside;
        loaded = old.loaded;
        page = old.page ∙ ev;
        owner = old.owner ∙ ep;
      })

  install-single :
      (i j v p : ℕ)
      → Holds (install s running vpn frame) i v p
      → Holds (install s running vpn frame) j v p
      → i ≡ j
  install-single i j v p a b = elim (Bool-cases (frame == i)) [
    | inl here ↦ elim (Bool-cases (frame == j)) [
      | inl here' ↦ ground arith
      | inr there' ↦ absurd (not-both j i v p there' here b a)
    ]
    | inr there ↦ elim (Bool-cases (frame == j)) [
      | inl here' ↦ absurd (not-both i j v p there here' a b)
      | inr there' ↦ c.single i j v p (install-other i v p there a) (install-other j v p there' b)
    ]
  ]

  pub install-Coherent : Coherent (install s running vpn frame) running
  unfolding install update_entry
  install-Coherent = record {
    framed = λ i lt_i on. ground (arith, c.framed i lt_i);
    single = install-single;
    shown = λ i lt_i on.
        let old = c.shown i lt_i on in
        record {
          inside = old.inside;
          loaded = ground (arith, hidden i lt_i on, old.loaded);
          page = ground (arith, hidden i lt_i on, old.page);
          owner = ground (arith, hidden i lt_i on, old.owner);
        };
    once = c.once;
    in_turn = c.in_turn;
  }

  install-Holds : Holds (install s running vpn frame) frame vpn running
  unfolding install update_entry
  install-Holds = record {
    inside = lt;
    loaded = ground arith;
    page = ground arith;
    owner = ground arith;
  }

  install-Unseen : Unseen s vpn → Unseen (install s running vpn frame) vpn
  unfolding install update_entry
  install-Unseen unseen = unseen

-- What stands of a page that is needed, before it is brought into the frame.
pub record Wanted (s : Vm) (running vpn frame : ℕ) : Type 0 where
  pub coherent : Coherent s running
  pub inside : frame < num_phys_pages
  pub hidden : Unshown s frame
  pub absent : Absent s vpn running
  pub unseen : Unseen s vpn

Shrinks-Wanted :
    (s s' : Vm) (running vpn frame : ℕ)
    → Shrinks s s'
    → Unshown s' frame
    → Coherent s running
    → frame < num_phys_pages
    → Absent s vpn running
    → Unseen s vpn
    → Wanted s' running vpn frame
Shrinks-Wanted s s' running vpn frame h hidden c lt absent unseen = record {
  coherent = Shrinks-Coherent s s' h running c;
  inside = lt;
  hidden = hidden;
  absent = λ i held. absent i (Holds-back s s' h i vpn running held);
  unseen = Shrinks-Unseen s s' vpn h unseen;
}

pub fetch-Wanted :
    (s : Vm) (running vpn frame : ℕ)
    → Wanted s running vpn frame
    → Wanted (fetch s running vpn frame) running vpn frame
fetch-Wanted s running vpn frame w =
    let same = fetch-SameTables s running vpn frame in
    Shrinks-Wanted s (fetch s running vpn frame) running vpn frame
      (SameTables-Shrinks s (fetch s running vpn frame) same) (rw same.tlb w.hidden) w.coherent
      w.inside w.absent w.unseen

bring_in-Served :
    (s s' : Vm) (running vpn frame : ℕ)
    → Wanted s running vpn frame
    → bring_in s running vpn frame ≡ ok (done s')
    → Served s' running vpn frame
unfolding bring_in load_page
bring_in-Served s s' running vpn frame w e = elim (Bool-cases (leb (s.num_pages running) vpn)) [
  | inl past ↦ absurd (ground (arith, past, e))
  | inr room ↦ refilled room (refill_tlb (install s₁ running vpn frame) running frame) refl
]
  where
    s₁ : Vm
    s₁ = fetch s running vpn frame

    refilled :
        leb (s.num_pages running) vpn ≡ false
        → (r : Result Vm) → refill_tlb (install s₁ running vpn frame) running frame ≡ r
        → Served s' running vpn frame
    refilled room (fault reason) r = absurd (ground (arith, room, r, e))
    refilled room (ok s₂) r =
        let w₁ = fetch-Wanted s running vpn frame w in
        subst (λ u. Served u running vpn frame) (ground (arith, room, r, e))
          (refill_tlb-Served (install s₁ running vpn frame) s₂ running frame vpn
            (install-Coherent s₁ running frame vpn w₁.coherent w₁.inside w₁.hidden w₁.absent)
            (install-Holds s₁ running frame vpn w₁.coherent w₁.inside w₁.hidden w₁.absent)
            (install-Unseen s₁ running frame vpn w₁.coherent w₁.inside w₁.hidden w₁.absent
              w₁.unseen)
            r)

-- Some frame serves the page.
abbrev pub ServedSomewhere : Vm → ℕ → ℕ → Type 0
ServedSomewhere s running vpn = (frame : ℕ) × Served s running vpn frame

replace-Served :
    (s s' : Vm) (running vpn frame : ℕ)
    → Coherent s running
    → Absent s vpn running
    → Unseen s vpn
    → replace s running vpn frame ≡ ok (done s')
    → ServedSomewhere s' running vpn
unfolding replace
replace-Served s s' running vpn frame c absent unseen e = evicted (evict s frame) refl
  where
    evicted : (r : Result Handled) → evict s frame ≡ r → ServedSomewhere s' running vpn
    evicted (fault reason) r = absurd (ground (arith, r, e))
    evicted (ok halted) r = absurd (ground (arith, r, e))
    evicted (ok choosing) r = absurd (ground (arith, r, e))
    evicted (ok (done s₁)) r =
        let (lt, v) = evict-Evicted s running c s₁ frame r in
        (
          frame,
          bring_in-Served s₁ s' running vpn frame
              (Shrinks-Wanted s s₁ running vpn frame v.shrinks v.unshown c lt absent unseen)
              (ground (arith, r, e)),
        )

remove_queue-SameTables : (s : Vm) (q : List ℕ) → SameTables s (remove_queue s q).0
unfolding remove_queue
remove_queue-SameTables s [] = record { tlb = refl; ipt = refl; turn = refl; sizes = refl }
remove_queue-SameTables s (i ∷ rest) = record { tlb = refl; ipt = refl; turn = refl; sizes = refl }

choose-SameTables :
    (policy : Policy) (s s₀ : Vm) (frame : ℕ)
    → choose_eviction_page policy s ≡ some (s₀, frame)
    → SameTables s s₀
unfolding choose_eviction_page
choose-SameTables fifo s s₀ frame e =
    subst (SameTables s) (ground arith) (remove_queue-SameTables s s.ipt_queue)
choose-SameTables (rand draws) s s₀ frame e = drawn (choose_random s draws) refl
  where
    drawn : (o : Option ℕ) → choose_random s draws ≡ o → SameTables s s₀
    drawn none r = absurd (ground (arith, r, e))
    drawn (some i) r = subst (SameTables s) (ground (arith, r, e)) (SameTables-refl s)

make_room-Served :
    (policy : Policy) (s s' : Vm) (running vpn : ℕ)
    → Coherent s running
    → Absent s vpn running
    → Unseen s vpn
    → make_room policy s running vpn ≡ ok (done s')
    → ServedSomewhere s' running vpn
unfolding make_room
make_room-Served policy s s' running vpn c absent unseen e =
    chosen (choose_eviction_page policy s) refl
  where
    chosen :
        (o : Option (Vm × ℕ)) → choose_eviction_page policy s ≡ o → ServedSomewhere s' running vpn
    chosen none r = absurd (ground (arith, r, e))
    chosen (some (s₀, frame)) r =
        let h = SameTables-Shrinks s s₀ (choose-SameTables policy s s₀ frame r) in
        replace-Served s₀ s' running vpn frame (Shrinks-Coherent s s₀ h running c)
          (λ i held. absent i (Holds-back s s₀ h i vpn running held))
          (Shrinks-Unseen s s₀ vpn h unseen) (ground (arith, r, e))

-- A free frame takes a page that is missing.
pub empty-Wanted :
    (s : Vm) (running vpn frame : ℕ)
    → Coherent s running
    → search_for_tlb_entry s vpn ≡ none
    → search_for_entry s vpn running ≡ none
    → frame < num_phys_pages
    → (s.ipt frame).valid ≡ false
    → Wanted s running vpn frame
empty-Wanted s running vpn frame c missed f lt unused = record {
  coherent = c;
  inside = lt;
  hidden = λ i lt_i on here. ground (arith, (c.shown i lt_i on).loaded);
  absent = λ i held. search_for_entry-none s vpn running i f held;
  unseen = λ i lt_i on here. search_for_tlb_entry-none s vpn i missed lt_i on here;
}

-- A page fault is at a page that the TLB does not show. If the handler comes to its end, then the page
-- is in a frame that the TLB shows to the process, and the tables are coherent.
pub handle_page_fault-Served :
    (policy : Policy) (s s' : Vm) (running vpn : ℕ)
    → Coherent s running
    → search_for_tlb_entry s vpn ≡ none
    → handle_page_fault policy s running vpn ≡ ok (done s')
    → ServedSomewhere s' running vpn
unfolding handle_page_fault
handle_page_fault-Served policy s s' running vpn c missed e =
    searched (search_for_entry s vpn running) refl
  where
    unseen : Unseen s vpn
    unseen i lt on here = search_for_tlb_entry-none s vpn i missed lt on here

    resident :
        (frame : ℕ)
        → search_for_entry s vpn running ≡ some frame
        → (r : Result Vm) → refill_tlb s running frame ≡ r
        → ServedSomewhere s' running vpn
    resident frame f (fault reason) r = absurd (ground (arith, f, r, e))
    resident frame f (ok s₁) r = (
      frame,
      subst (λ u. Served u running vpn frame) (ground (arith, f, r, e))
          (refill_tlb-Served s s₁ running frame vpn c (search_for_entry-some s vpn running frame f)
            unseen r),
    )

    room :
        search_for_entry s vpn running ≡ none
        → (o : Option ℕ) → search_for_empty_entry s ≡ o
        → ServedSomewhere s' running vpn
    room f none o =
        make_room-Served policy s s' running vpn c
          (λ i held. search_for_entry-none s vpn running i f held) unseen (ground (arith, f, o, e))
    room f (some frame) o =
        let (lt, unused) = search_for_empty_entry-some s frame o in
        (
          frame,
          bring_in-Served s s' running vpn frame
              (empty-Wanted s running vpn frame c missed f lt unused) (ground (arith, f, o, e)),
        )

    searched : (o : Option ℕ) → search_for_entry s vpn running ≡ o → ServedSomewhere s' running vpn
    searched none f = room f (search_for_empty_entry s) refl
    searched (some frame) f = resident frame f (refill_tlb s running frame) refl
