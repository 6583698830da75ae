-- ===== src/VirtualMemory/Swap.antt =====
-- The swap file: a page that was written out comes back as it was.
use csci402_projects.Base.{
  ℕ, zero, suc, ◌+◌, ◌*◌, ◌≤◌, ◌<◌, ◌≡◌, Bool-cases, ◌==◌, inl, inr, some, ok, arith, refl, subst,
  update, true, false, sym, ◌∙◌, ◌≢◌, ltb,
}
use csci402_projects.FileSystem.Bitmap.{bit, mark_bit}
use csci402_projects.FileSystem.Bits.{find_lem, bit-mark_bit}
use csci402_projects.VirtualMemory.State.{Vm, File, page_size, read_at, write_at}
use csci402_projects.VirtualMemory.PageFault.{done, swap_out, write_out, fetch}

-- What WriteAt leaves: the bytes inside, and the rest of the file.
write_at-outside :
    (f : File) (memory : ℕ → ℕ) (start offset len k : ℕ)
    → k < offset
    → write_at f memory start offset len k ≡ f k
unfolding write_at
write_at-outside f memory start offset zero k lt = refl
write_at-outside f memory start offset (suc len) k lt = ground (
  arith,
  write_at-outside (update f offset (some (memory start))) memory (suc start) (suc offset) len k,
)

-- Byte `k` of the page, at place `p` of the file and at address `q`.
write_at-inside :
    (f : File) (memory : ℕ → ℕ) (start offset len k p q : ℕ)
    → k < len
    → p ≡ offset + k
    → q ≡ start + k
    → write_at f memory start offset len p ≡ some (memory q)
unfolding write_at
write_at-inside f memory start offset zero k p q lt at_p at_q = absurd (omega arith)
write_at-inside f memory start offset (suc len) zero p q lt at_p at_q = ground (
  arith,
  write_at-outside (update f offset (some (memory start))) memory (suc start) (suc offset) len
      offset,
)
write_at-inside f memory start offset (suc len) (suc k) p q lt at_p at_q =
    write_at-inside (update f offset (some (memory start))) memory (suc start) (suc offset) len k p
      q (omega arith) (omega arith) (omega arith)

-- The file has the bytes `source` from `from` on at `offset`.
abbrev HasBytes : File → (ℕ → ℕ) → ℕ → ℕ → ℕ → Type 0
HasBytes f source from offset len =
    (k p q : ℕ) → k < len → p ≡ offset + k → q ≡ from + k → f p ≡ some (source q)

read_at-outside :
    (f : File) (memory source : ℕ → ℕ) (start from offset len k : ℕ)
    → HasBytes f source from offset len
    → k < start
    → read_at f memory start offset len k ≡ memory k
unfolding read_at
read_at-outside f memory source start from offset zero k has lt = refl
read_at-outside f memory source start from offset (suc len) k has lt = ground (
  arith,
  has 0 offset from,
  read_at-outside f (update memory start (source from)) source (suc start) (suc from) (suc offset)
      len k (λ j p q lt' at_p at_q. has (suc j) p q (omega arith) (omega arith) (omega arith)),
)

read_at-inside :
    (f : File) (memory source : ℕ → ℕ) (start from offset len k p q : ℕ)
    → HasBytes f source from offset len
    → k < len
    → p ≡ start + k
    → q ≡ from + k
    → read_at f memory start offset len p ≡ source q
unfolding read_at
read_at-inside f memory source start from offset zero k p q has lt at_p at_q = absurd (omega arith)
read_at-inside f memory source start from offset (suc len) zero p q has lt at_p at_q = ground (
  arith,
  has 0 offset from,
  read_at-outside f (update memory start (source from)) source (suc start) (suc from) (suc offset)
      len start
      (λ j p' q' lt' at_p' at_q'. has (suc j) p' q' (omega arith) (omega arith) (omega arith)),
)
read_at-inside f memory source start from offset (suc len) (suc k) p q has lt at_p at_q = ground (
  arith,
  has 0 offset from,
  read_at-inside f (update memory start (source from)) source (suc start) (suc from) (suc offset)
      len k p q
      (λ j p' q' lt' at_p' at_q'. has (suc j) p' q' (omega arith) (omega arith) (omega arith)),
)

-- The swap file holds the bytes `source` from `from` on as the page of the process.
record Stored (s : Vm) (process_id vpn : ℕ) (source : ℕ → ℕ) (from : ℕ) : Type 0 where
  slot : ℕ
  located : s.page_location process_id vpn ≡ 1
  placed : s.swap_array process_id vpn ≡ slot * page_size
  taken : bit s.swap_file_map slot ≡ true
  bytes : HasBytes s.swap_file source from (slot * page_size) page_size

-- A page is written out to a place that was free.
write_out-place :
    (s s' : Vm) (frame : ℕ)
    → write_out s frame ≡ ok (done s')
    → (slot : ℕ) × (bit s.swap_file_map slot ≡ false)
      × (s' ≡ swap_out s frame (mark_bit s.swap_file_map slot) slot)
unfolding write_out
write_out-place s s' frame e = elim (find_lem s.swap_file_map) [
  | inl (slot, lt, (le, unused, before), found) ↦ (slot, unused, ground (arith, found, e))
  | inr (all, found) ↦ absurd (ground (arith, found, e))
]

-- The page that is written out is stored.
swap_out-Stored :
    (s : Vm) (frame slot : ℕ)
    → Stored
        (swap_out s frame (mark_bit s.swap_file_map slot) slot)
        (s.ipt frame).process_id
        (s.ipt frame).virtual_page
        s.memory
        (frame * page_size)
unfolding swap_out
swap_out-Stored s frame slot = record {
  slot = slot;
  located = ground arith;
  placed = ground arith;
  taken = ground (arith, bit-mark_bit s.swap_file_map slot slot);
  bytes = λ k p q lt at_p at_q.
      write_at-inside s.swap_file s.memory (frame * page_size) (slot * page_size) page_size k p q lt
        at_p at_q;
}

write_at-after :
    (f : File) (memory : ℕ → ℕ) (start offset len k : ℕ)
    → offset + len ≤ k
    → write_at f memory start offset len k ≡ f k
unfolding write_at
write_at-after f memory start offset zero k le = refl
write_at-after f memory start offset (suc len) k le = ground (
  arith,
  write_at-after (update f offset (some (memory start))) memory (suc start) (suc offset) len k,
)

-- Byte `k` of a page at one place is not written with the page at another place.
other-slot :
    (f : File) (memory : ℕ → ℕ) (start a b k p : ℕ)
    → (a == b) ≡ false
    → k < page_size
    → p ≡ b * page_size + k
    → write_at f memory start (a * page_size) page_size p ≡ f p
other-slot f memory start a b k p differ lt at_p = elim (Bool-cases (ltb a b)) [
  | inl below ↦ write_at-after f memory start (a * page_size) page_size p (ground (arith, at_p))
  | inr above ↦ write_at-outside f memory start (a * page_size) page_size p (ground (arith, at_p))
]

-- Another page that is written out leaves it.
swap_out-keeps :
    (s : Vm) (frame slot p v : ℕ) (source : ℕ → ℕ) (from : ℕ)
    → bit s.swap_file_map slot ≡ false
    → ((s.ipt frame).process_id ≡ p → (s.ipt frame).virtual_page ≢ v)
    → Stored s p v source from
    → Stored (swap_out s frame (mark_bit s.swap_file_map slot) slot) p v source from
unfolding swap_out
swap_out-keeps s frame slot p v source from unused other h = record {
  slot = h.slot;
  located = ground (arith, other, h.located);
  placed = ground (arith, other, h.placed);
  taken = ground (arith, bit-mark_bit s.swap_file_map slot h.slot, h.taken);
  bytes = λ k a b lt at_a at_b.
      other-slot s.swap_file s.memory (frame * page_size) slot h.slot k a (ground (arith, h.taken))
        lt at_a
      ∙ h.bytes k a b lt at_a at_b;
}

-- What may happen to the swap file while the page of the process is out: other pages are written out,
-- and the rest of the virtual memory changes in any way.
pub data Meanwhile (process_id vpn : ℕ) (s : Vm) : Vm → Type 0 where
  here : Meanwhile process_id vpn s s
  writes_out :
      {t u : Vm} (frame : ℕ)
      → Meanwhile process_id vpn s t
      → write_out t frame ≡ ok (done u)
      → ((t.ipt frame).process_id ≡ process_id → (t.ipt frame).virtual_page ≢ vpn)
      → Meanwhile process_id vpn s u
  moves :
      {t u : Vm}
      → Meanwhile process_id vpn s t
      → u.swap_file ≡ t.swap_file
      → u.swap_file_map ≡ t.swap_file_map
      → u.swap_array ≡ t.swap_array
      → u.page_location ≡ t.page_location
      → Meanwhile process_id vpn s u

Meanwhile-Stored :
    {p v : ℕ} {s u : Vm} (source : ℕ → ℕ) (from : ℕ)
    → Meanwhile p v s u
    → Stored s p v source from
    → Stored u p v source from
Meanwhile-Stored source from here h = h
Meanwhile-Stored {p} {v} source from (writes_out {t} {u} frame before e other) h =
    let (slot, unused, e') = write_out-place t u frame e in
    subst (λ w. Stored w p v source from) (sym e')
      (swap_out-keeps t frame slot p v source from unused other
        (Meanwhile-Stored source from before h))
Meanwhile-Stored {p} {v} source from (moves {t} {u} before file used array location) h =
    let old = Meanwhile-Stored source from before h in
    record {
      slot = old.slot;
      located = rw location old.located;
      placed = rw array old.placed;
      taken = rw used old.taken;
      bytes = rw file old.bytes;
    }

fetch-Stored :
    (u : Vm) (p v target : ℕ) (source : ℕ → ℕ) (from k : ℕ)
    → Stored u p v source from
    → k < page_size
    → (fetch u p v target).memory (target * page_size + k) ≡ source (from + k)
unfolding fetch
fetch-Stored u p v target source from k h lt = rw h.located (
    rw h.placed (
      read_at-inside u.swap_file u.memory source (target * page_size) from (h.slot * page_size)
        page_size k (target * page_size + k) (from + k) h.bytes lt refl refl))

-- A page that is written out to the swap file comes back as it was. Whatever other pages are written
-- out in between, and whatever else happens to memory and the tables, when the handler fetches the page
-- for its process into any frame, each of its bytes is the one that the evicted frame held.
pub swap_round_trip :
    (s s₁ u : Vm) (frame target k : ℕ)
    → write_out s frame ≡ ok (done s₁)
    → Meanwhile (s.ipt frame).process_id (s.ipt frame).virtual_page s₁ u
    → k < page_size
    → (fetch u (s.ipt frame).process_id (s.ipt frame).virtual_page target).memory
        (target * page_size + k)
      ≡ s.memory (frame * page_size + k)
swap_round_trip s s₁ u frame target k e between lt =
    let (slot, unused, e') = write_out-place s s₁ frame e in
    fetch-Stored u (s.ipt frame).process_id (s.ipt frame).virtual_page target s.memory
      (frame * page_size) k
      (Meanwhile-Stored s.memory (frame * page_size) between (
        subst
          (λ w.
            Stored w (s.ipt frame).process_id (s.ipt frame).virtual_page s.memory
              (frame * page_size))
          (sym e') (swap_out-Stored s frame slot)))
      lt
