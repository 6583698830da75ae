-- ===== src/VirtualMemory/Retry.antt =====
-- The access that raised a page fault, tried again after the handler, and the cases in which the
-- handler comes to its end.
use csci402_projects.Base.{
  ℕ, ◌+◌, ◌*◌, ◌/◌, ◌%◌, ◌≤◌, ◌≡◌, ◌⊎◌, Bool, false, inl, inr, ok, arith, refl, subst, sym, ◌∙◌,
}
use csci402_projects.VirtualMemory.State.{Vm, page_size}
use csci402_projects.VirtualMemory.Translate.{
  translated, raised, page_fault, misaligned, through_entry, translate,
}
use csci402_projects.VirtualMemory.PageFault.{Policy, done, handle_page_fault}
use csci402_projects.VirtualMemory.Coherent.{Coherent, Holds}
use csci402_projects.VirtualMemory.Lookup.{used}
use csci402_projects.VirtualMemory.Searches.{search_for_tlb_entry-hit}
use csci402_projects.VirtualMemory.Refill.{Served}
use csci402_projects.VirtualMemory.Handling.{handle_page_fault-Served}
use csci402_projects.VirtualMemory.Isolation.{raised-page_fault}

-- The sizes of an access.
abbrev pub IsSize : ℕ → Type 0
IsSize size = (size ≡ 1) ⊎ ((size ≡ 2) ⊎ (size ≡ 4))

aligned :
    (addr : ℕ)
    → (misaligned addr 2 ≡ false → addr % 2 ≡ 0) × (misaligned addr 4 ≡ false → addr % 4 ≡ 0)
unfolding misaligned
aligned addr = (λ e. ground (arith, e), λ e. ground (arith, e))

-- An aligned access stays in its page.
pub misaligned-bound :
    (addr size : ℕ)
    → misaligned addr size ≡ false
    → IsSize size
    → addr % page_size + size ≤ page_size
misaligned-bound addr size straight (inl e) = omega (arith, e)
misaligned-bound addr size straight (inr (inl e)) =
    omega (arith, e, (aligned addr).0 (subst (λ n. misaligned addr n ≡ false) e straight))
misaligned-bound addr size straight (inr (inr e)) =
    omega (arith, e, (aligned addr).1 (subst (λ n. misaligned addr n ≡ false) e straight))

-- A page that is served can be used.
pub Served-translate :
    (s : Vm) (running vpn frame addr size : ℕ) (writing : Bool)
    → Served s running vpn frame
    → addr / page_size ≡ vpn
    → misaligned addr size ≡ false
    → IsSize size
    → (s' : Vm) × (translate s addr size writing
        ≡ ok (s', translated (frame * page_size + addr % page_size)))
unfolding translate through_entry
Served-translate s running vpn frame addr size writing v page straight sized =
    let (j, found, lt, on, shows_vpn) =
      search_for_tlb_entry-hit s vpn v.entry v.shown.inside v.shown.on v.shown.page in
    let same =
      v.coherent.once j v.entry lt v.shown.inside on v.shown.on (shows_vpn ∙ sym v.shown.page) in
    (
      used s v.entry writing,
      ground (
        arith,
        straight,
        found,
        same,
        page,
        v.shown.place,
        v.shown.writable,
        v.held.inside,
        misaligned-bound addr size straight sized,
      ),
    )

-- Let an access of one, two or four bytes raise a page fault, in a coherent state. If the handler comes
-- to its end, then the same access is translated: to the same offset in a frame that holds this page
-- for this process. So it is not refused or raised again.
pub retry :
    (policy : Policy) (s s' : Vm) (running addr size : ℕ) (writing : Bool)
    → Coherent s running
    → IsSize size
    → translate s addr size writing ≡ ok (s, raised page_fault)
    → handle_page_fault policy s running (addr / page_size) ≡ ok (done s')
    → (frame : ℕ) × Holds s' frame (addr / page_size) running
      × ((s'' : Vm) × (translate s' addr size writing
            ≡ ok (s'', translated (frame * page_size + addr % page_size))))
retry policy s s' running addr size writing c sized t e =
    let (_, none_there, straight) = raised-page_fault s s addr size writing t in
    let (frame, v) =
      handle_page_fault-Served policy s s' running (addr / page_size) c none_there e in
    (
      frame,
      v.held,
      Served-translate s' running (addr / page_size) frame addr size writing v refl straight sized,
    )
