-- ===== src/VirtualMemory/Translate.antt =====
-- `Machine::Translate`, `ReadMem` and `WriteMem` of machine/translate.cc, with a TLB. A value of the
-- machine is its pattern of 32 bits.
use csci402_projects.Base.{
  ℕ, ◌+◌, ◌*◌, ◌/◌, ◌%◌, Bool, true, false, ◌&&◌, ◌||◌, not, ◌==◌, ltb, leb, if◌then◌else◌, Option,
  none, some, update, Result, ok, fault, assertion, ◌>>=◌, first_from, first_below,
}
use csci402_projects.VirtualMemory.State.{
  Vm, page_size, num_phys_pages, memory_size, tlb_size, set_tlb,
}

-- The exceptions that a translation can raise.
pub data Exception : Type 0 where
  page_fault read_only_page bus_error address_error : Exception

pub data Translation : Type 0 where
  translated : (phys_addr : ℕ) → Translation
  raised : Exception → Translation

abbrev pub shows : Vm → ℕ → ℕ → Bool
shows s vpn i = (s.tlb i).valid && ((s.tlb i).virtual_page == vpn)

-- SearchForTLBEntry of userprog/addrspace.cc, and the same loop in Translate.
unfoldable pub search_for_tlb_entry : Vm → ℕ → Option ℕ
unfolding first_from
search_for_tlb_entry s vpn = first_below (shows s vpn) tlb_size

-- The entry is there: the checks, and the use and dirty bits.
unfoldable pub through_entry : Vm → ℕ → ℕ → ℕ → Bool → Result (Vm × Translation)
through_entry s i offset size writing =
    let e = s.tlb i in
    let phys = e.physical_page * page_size + offset in
    if e.read_only && writing
    then ok (s, raised read_only_page)
    else if leb num_phys_pages e.physical_page
    then ok (s, raised bus_error)
    else if leb (phys + size) memory_size
    then ok (
      set_tlb s i (record e { use_bit = true; dirty = if writing then true else e.dirty }),
      translated phys,
    )
    else fault assertion

unfoldable pub misaligned : ℕ → ℕ → Bool
misaligned addr size = (size == 4 && not (addr % 4 == 0)) || (size == 2 && not (addr % 2 == 0))

unfoldable pub translate : Vm → ℕ → ℕ → Bool → Result (Vm × Translation)
unfolding misaligned search_for_tlb_entry through_entry
translate s addr size writing =
    if misaligned addr size
    then ok (s, raised address_error)
    else elim (search_for_tlb_entry s (addr / page_size)) [
      | none ↦ ok (s, raised page_fault)
      | some i ↦ through_entry s i (addr % page_size) size writing
    ]

-- What an access gives: a value, or a trap into the kernel.
pub data Access : Type 0 where
  value : (word : ℕ) → Access
  trapped : Exception → Access

-- A byte is a signed `char`.
unfoldable pub sign_extend_byte : ℕ → ℕ
sign_extend_byte b = if ltb b 128 then b else b + 4294967040

-- The bytes at `p`, on a host that stores the low byte first.
unfoldable pub load : (ℕ → ℕ) → ℕ → ℕ → Result ℕ
unfolding sign_extend_byte
load memory p size =
    if size == 1
    then ok (sign_extend_byte (memory p))
    else if size == 2
    then ok (memory p + 256 * memory (p + 1))
    else if size == 4
    then ok (memory p + 256 * memory (p + 1) + 65536 * memory (p + 2) + 16777216 * memory (p + 3))
    else fault assertion

unfoldable pub store : (ℕ → ℕ) → ℕ → ℕ → ℕ → Result (ℕ → ℕ)
store memory p size v =
    if size == 1
    then ok (update memory p (v % 256))
    else if size == 2
    then ok (update (update memory p (v % 256)) (p + 1) (v / 256 % 256))
    else if size == 4
    then ok (
        update
          (update (update (update memory p (v % 256)) (p + 1) (v / 256 % 256)) (p + 2)
            (v / 65536 % 256))
          (p + 3) (v / 16777216 % 256))
    else fault assertion

abbrev pub touch : Vm → ℕ → ℕ → Vm
touch s p ticks = record s { last_used = update s.last_used (p / page_size) ticks }

-- `ticks` is `stats->totalTicks`.
unfoldable pub read_mem : ℕ → Vm → ℕ → ℕ → Result (Vm × Access)
unfolding translate load
read_mem ticks s addr size =
    (translate s addr size false >>= λ r. elim r.1 [
      | raised e ↦ ok (r.0, trapped e)
      | translated p ↦ (load r.0.memory p size >>= λ v. ok (touch r.0 p ticks, value v))
    ])

unfoldable pub write_mem : ℕ → Vm → ℕ → ℕ → ℕ → Result (Vm × Access)
unfolding translate store
write_mem ticks s addr size v =
    (translate s addr size true >>= λ r. elim r.1 [
      | raised e ↦ ok (r.0, trapped e)
      | translated p ↦
          (store r.0.memory p size v >>= λ m.
          ok (touch (record r.0 { memory = m }) p ticks, value v))
    ])
