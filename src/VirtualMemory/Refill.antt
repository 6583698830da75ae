-- ===== src/VirtualMemory/Refill.antt =====
-- The steps of the page fault handler that load a page and show it in the TLB.
use csci402_projects.Base.{
  ℕ, ◌≡◌, ◌≢◌, ◌<◌, ◌∙◌, true, false, ◌&&◌, Bool-cases, ◌==◌, inl, inr, Option, none, some, ok,
  fault, arith, refl, Result, subst, sym,
}
use csci402_projects.VirtualMemory.State.{Vm, tlb_size}
use csci402_projects.VirtualMemory.PageFault.{
  search_for_entry, save_dirty, unuse, show_frame, refill_tlb, update_tlb_entry,
}
use csci402_projects.VirtualMemory.Coherent.{
  Coherent, Holds, Shrinks, Shrinks-refl, Shrinks-trans, set_ipt-Shrinks, Shrinks-Coherent,
  Holds-on,
}

-- No entry of the TLB in use shows the page.
abbrev pub Unseen : Vm → ℕ → Type 0
Unseen s vpn = (i : ℕ) → i < tlb_size → (s.tlb i).valid ≡ true → (s.tlb i).virtual_page ≢ vpn

-- An entry of the TLB in use shows the page, and gives the frame.
pub record Shown (s : Vm) (i vpn frame : ℕ) : Type 0 where
  pub inside : i < tlb_size
  pub on : (s.tlb i).valid ≡ true
  pub page : (s.tlb i).virtual_page ≡ vpn
  pub place : (s.tlb i).physical_page ≡ frame
  pub writable : (s.tlb i).read_only ≡ false

save_dirty-Shrinks : (s s' : Vm) (running : ℕ) → save_dirty s running ≡ ok s' → Shrinks s s'
unfolding save_dirty
save_dirty-Shrinks s s' running e =
    elim (Bool-cases ((s.tlb s.next_tlb).valid && (s.tlb s.next_tlb).dirty)) [
      | inl stale ↦ found stale (search_for_entry s (s.tlb s.next_tlb).virtual_page running) refl
      | inr clean ↦ subst (Shrinks s) (ground arith) (Shrinks-refl s)
    ]
  where
    found :
        ((s.tlb s.next_tlb).valid && (s.tlb s.next_tlb).dirty) ≡ true
        → (o : Option ℕ) → search_for_entry s (s.tlb s.next_tlb).virtual_page running ≡ o
        → Shrinks s s'
    found stale none f = absurd (ground (arith, f, stale, e))
    found stale (some i) f = subst (Shrinks s) (ground (arith, f, stale, e)) (
        set_ipt-Shrinks s i (record (s.ipt i) { dirty = (s.tlb s.next_tlb).dirty })
          (record { page = refl; place = refl; owner = refl; in_use = refl }))

unuse-Shrinks : (s s' : Vm) (running : ℕ) → unuse s running ≡ ok s' → Shrinks s s'
unfolding unuse
unuse-Shrinks s s' running e =
    found (search_for_entry s (s.tlb s.next_tlb).virtual_page running) refl
  where
    found :
        (o : Option ℕ)
        → search_for_entry s (s.tlb s.next_tlb).virtual_page running ≡ o
        → Shrinks s s'
    found none f = absurd (ground (arith, f, e))
    found (some i) f = subst (Shrinks s) (ground (arith, f, e)) (
        set_ipt-Shrinks s i (record (s.ipt i) { use_bit = false })
          (record { page = refl; place = refl; owner = refl; in_use = refl }))

module _ (s : Vm) (running frame vpn : ℕ) (c : Coherent s running)
    (held : Holds s frame vpn running) (unseen : Unseen s vpn) where
  show_frame-Coherent : Coherent (show_frame s frame) running
  unfolding show_frame update_tlb_entry
  show_frame-Coherent = record {
    framed = c.framed;
    single = λ i j v p a b.
        c.single i j v p
          (record { inside = a.inside; loaded = a.loaded; page = a.page; owner = a.owner })
          (record { inside = b.inside; loaded = b.loaded; page = b.page; owner = b.owner });
    shown = λ i lt on. elim (Bool-cases (s.next_tlb == i)) [
      | inl here ↦ rw here (record {
        inside = ground (arith, c.framed frame, held.inside, held.loaded);
        loaded = ground (arith, c.framed frame, held.inside, held.loaded);
        page = ground (arith, c.framed frame, held.inside, held.loaded);
        owner = ground (arith, c.framed frame, held.inside, held.loaded, held.owner);
      })
      | inr there ↦
          let old = c.shown i lt (ground arith) in
          rw there (record {
            inside = old.inside;
            loaded = old.loaded;
            page = old.page;
            owner = old.owner;
          })
    ];
    once = λ i j lt lt' on on' same.
        ground (arith, c.once i j lt lt', unseen i lt, unseen j lt', held.page);
    in_turn = omega arith;
  }

  show_frame-Shown : Shown (show_frame s frame) s.next_tlb vpn frame
  unfolding show_frame update_tlb_entry
  show_frame-Shown = record {
    inside = c.in_turn;
    on = ground arith;
    page = ground (arith, held.page);
    place = ground (arith, c.framed frame, held.inside, held.loaded);
    writable = ground arith;
  }

-- The process that runs can use the page: it is in the frame, and the TLB shows it.
pub record Served (s : Vm) (running vpn frame : ℕ) : Type 0 where
  pub coherent : Coherent s running
  pub held : Holds s frame vpn running
  pub entry : ℕ
  pub shown : Shown s entry vpn frame

show_frame-Served :
    (s : Vm) (running frame vpn : ℕ)
    → Coherent s running
    → Holds s frame vpn running
    → Unseen s vpn
    → Served (show_frame s frame) running vpn frame
unfolding show_frame update_tlb_entry
show_frame-Served s running frame vpn c held unseen = record {
  coherent = show_frame-Coherent s running frame vpn c held unseen;
  held = record {
    inside = held.inside;
    loaded = held.loaded;
    page = held.page;
    owner = held.owner;
  };
  entry = s.next_tlb;
  shown = show_frame-Shown s running frame vpn c held unseen;
}

pub Shrinks-Unseen : (s s' : Vm) (vpn : ℕ) → Shrinks s s' → Unseen s vpn → Unseen s' vpn
Shrinks-Unseen s s' vpn h unseen i lt on here =
    let (on', page, _) = h.entries i on in unseen i lt on' (sym page ∙ here)

-- The two steps of `refill_tlb` before the entry is written.
pub refill_tlb-steps :
    (s s' : Vm) (running frame : ℕ)
    → refill_tlb s running frame ≡ ok s'
    → (s₂ : Vm) × Shrinks s s₂ × (s' ≡ show_frame s₂ frame)
unfolding refill_tlb
refill_tlb-steps s s' running frame e = saved (save_dirty s running) refl
  where
    unused :
        (s₁ : Vm) (r : Result Vm)
        → save_dirty s running ≡ ok s₁
        → unuse s₁ running ≡ r
        → (s₂ : Vm) × Shrinks s s₂ × (s' ≡ show_frame s₂ frame)
    unused s₁ (fault reason) d u = absurd (ground (arith, d, u, e))
    unused s₁ (ok s₂) d u = (
      s₂,
      Shrinks-trans s s₁ s₂ (save_dirty-Shrinks s s₁ running d) (unuse-Shrinks s₁ s₂ running u),
      ground (arith, d, u, e),
    )

    saved :
        (r : Result Vm)
        → save_dirty s running ≡ r
        → (s₂ : Vm) × Shrinks s s₂ × (s' ≡ show_frame s₂ frame)
    saved (fault reason) d = absurd (ground (arith, d, e))
    saved (ok s₁) d = unused s₁ (unuse s₁ running) d refl

pub refill_tlb-Served :
    (s s' : Vm) (running frame vpn : ℕ)
    → Coherent s running
    → Holds s frame vpn running
    → Unseen s vpn
    → refill_tlb s running frame ≡ ok s'
    → Served s' running vpn frame
refill_tlb-Served s s' running frame vpn c held unseen e =
    let (s₂, h, e') = refill_tlb-steps s s' running frame e in
    subst (λ u. Served u running vpn frame) (sym e')
      (show_frame-Served s₂ running frame vpn (Shrinks-Coherent s s₂ h running c)
        (Holds-on s s₂ h frame vpn running held) (Shrinks-Unseen s s₂ vpn h unseen))
