-- ===== src/VirtualMemory/Evictions.antt =====
-- A frame that is evicted: its page leaves the TLB, and nothing else is lost.
use csci402_projects.Base.{
  ℕ, ◌≡◌, ◌≢◌, ◌<◌, ◌∙◌, true, false, Bool-cases, leb, inl, inr, Option, none, some, ok, fault,
  arith, refl, Result, subst, sym, Option-cases, ap,
}
use csci402_projects.FileSystem.Bitmap.{BitMap, find}
use csci402_projects.VirtualMemory.State.{Vm, num_phys_pages, tlb_size}
use csci402_projects.VirtualMemory.Translate.{search_for_tlb_entry}
use csci402_projects.VirtualMemory.PageFault.{
  done, take_from_tlb, drop_from_tlb, swap_out, write_out, evict,
}
use csci402_projects.VirtualMemory.Coherent.{Coherent, Holds, Shrinks, Shrinks-refl}
use csci402_projects.VirtualMemory.Searches.{search_for_tlb_entry-some, search_for_tlb_entry-none}

-- No entry of the TLB in use gives the frame.
abbrev pub Unshown : Vm → ℕ → Type 0
Unshown s frame = (i : ℕ) → i < tlb_size → (s.tlb i).valid ≡ true → (s.tlb i).physical_page ≢ frame

-- What an eviction does to the tables.
pub record Evicted (s s' : Vm) (frame : ℕ) : Type 0 where
  pub shrinks : Shrinks s s'
  pub unshown : Unshown s' frame
  pub sizes : s'.num_pages ≡ s.num_pages

module _ (s : Vm) (running : ℕ) (c : Coherent s running) (frame : ℕ) where
  -- An entry that gives the frame shows its page.
  page-of-frame :
      (i : ℕ)
      → i < tlb_size
      → (s.tlb i).valid ≡ true
      → (s.tlb i).physical_page ≡ frame
      → (s.tlb i).virtual_page ≡ (s.ipt frame).virtual_page
  page-of-frame i lt on here =
      let held = c.shown i lt on in sym held.page ∙ ap (λ f. (s.ipt f).virtual_page) here

  take-Evicted :
      (j : ℕ)
      → search_for_tlb_entry s (s.ipt frame).virtual_page ≡ some j
      → Evicted s (take_from_tlb s frame j) frame
  unfolding take_from_tlb
  take-Evicted j e =
      let (lt_j, on_j, page_j) = search_for_tlb_entry-some s (s.ipt frame).virtual_page j e in
      record {
        shrinks = record {
          frames = λ i. record {
            page = ground arith;
            place = ground arith;
            owner = ground arith;
            in_use = ground arith;
          };
          entries = λ i on. (ground arith, ground arith, ground arith);
          turn = refl;
        };
        unshown = λ i lt on here. ground (arith, page-of-frame i lt, c.once i j lt lt_j);
        sizes = refl;
      }

  none-Evicted : search_for_tlb_entry s (s.ipt frame).virtual_page ≡ none → Evicted s s frame
  none-Evicted e = record {
    shrinks = Shrinks-refl s;
    unshown = λ i lt on here.
        search_for_tlb_entry-none s (s.ipt frame).virtual_page i e lt on
          (page-of-frame i lt on here);
    sizes = refl;
  }

  pub drop_from_tlb-Evicted : Evicted s (drop_from_tlb s frame) frame
  unfolding drop_from_tlb
  drop_from_tlb-Evicted = elim (Option-cases (search_for_tlb_entry s (s.ipt frame).virtual_page)) [
    | inl e ↦ rw (e, drop_from_tlb) (none-Evicted e)
    | inr (j, e) ↦ rw (e, drop_from_tlb) (take-Evicted j e)
  ]

-- The tables of the frames and the TLB are the same.
pub record SameTables (s s' : Vm) : Type 0 where
  pub tlb : s'.tlb ≡ s.tlb
  pub ipt : s'.ipt ≡ s.ipt
  pub turn : s'.next_tlb ≡ s.next_tlb
  pub sizes : s'.num_pages ≡ s.num_pages

swap_out-SameTables :
    (s : Vm) (frame : ℕ) (used : BitMap) (slot : ℕ) → SameTables s (swap_out s frame used slot)
unfolding swap_out
swap_out-SameTables s frame used slot = record { tlb = refl; ipt = refl; turn = refl; sizes = refl }

write_out-SameTables : (s s' : Vm) (frame : ℕ) → write_out s frame ≡ ok (done s') → SameTables s s'
unfolding write_out
write_out-SameTables s s' frame e = found (find s.swap_file_map) refl
  where
    found : (r : Result (BitMap × Option ℕ)) → find s.swap_file_map ≡ r → SameTables s s'
    found (fault reason) f = absurd (ground (arith, f, e))
    found (ok (used, none)) f = absurd (ground (arith, f, e))
    found (ok (used, some slot)) f =
        subst (SameTables s) (ground (arith, f, e)) (swap_out-SameTables s frame used slot)

SameTables-Evicted :
    (s t u : Vm) (frame : ℕ) → Evicted s t frame → SameTables t u → Evicted s u frame
SameTables-Evicted s t u frame v same = record {
  shrinks = record {
    frames = λ i. rw same.ipt (v.shrinks.frames i);
    entries = λ i. rw same.tlb (v.shrinks.entries i);
    turn = same.turn ∙ v.shrinks.turn;
  };
  unshown = λ i. rw same.tlb (v.unshown i);
  sizes = same.sizes ∙ v.sizes;
}

pub evict-Evicted :
    (s : Vm) (running : ℕ)
    → Coherent s running
    → (s' : Vm) (frame : ℕ) → evict s frame ≡ ok (done s')
    → (frame < num_phys_pages) × Evicted s s' frame
unfolding evict
evict-Evicted s running c s' frame e =
    let dropped = drop_from_tlb-Evicted s running c frame in
    elim (Bool-cases (leb num_phys_pages frame)) [
      | inl out ↦ absurd (ground arith)
      | inr inside ↦ (
        ground arith,
        elim (Bool-cases ((drop_from_tlb s frame).ipt frame).dirty) [
          | inl dirty ↦
              SameTables-Evicted s (drop_from_tlb s frame) s' frame dropped
                (write_out-SameTables (drop_from_tlb s frame) s' frame (ground arith))
          | inr clean ↦ subst (λ u. Evicted s u frame) (ground arith) dropped
        ],
      )
    ]

-- Let the frame hold a page of a process that does not run, with a change in memory that is nowhere
-- else, in a coherent state; and let the process that runs have its own page of the same number in the
-- TLB, unchanged. Then the eviction takes this entry, which gives another frame, for the evicted page:
-- it writes nothing to the swap file and leaves the page's location as it was, so that the change is
-- lost, and it removes the running process's page from the TLB.
pub evict-wrong_entry :
    (s : Vm) (running frame vpn p i : ℕ)
    → Coherent s running
    → Holds s frame vpn p
    → p ≢ running
    → search_for_tlb_entry s vpn ≡ some i
    → (s.tlb i).dirty ≡ false
    → (s' : Vm) × (evict s frame ≡ ok (done s'))
      × (s'.swap_file ≡ s.swap_file)
      × (s'.page_location ≡ s.page_location)
      × ((s.tlb i).physical_page ≢ frame)
      × ((s'.tlb i).valid ≡ false)
unfolding evict drop_from_tlb take_from_tlb
evict-wrong_entry s running frame vpn p i c held other found clean =
    let (lt, on, page) = search_for_tlb_entry-some s vpn i found in
    (
      take_from_tlb s frame i,
      ground (arith, held.page, found, clean, held.inside),
      refl,
      refl,
      λ here.
          ground (arith, (c.shown i lt on).owner, held.owner, ap (λ f. (s.ipt f).process_id) here),
      ground arith,
    )
