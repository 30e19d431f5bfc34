-- ===== src/Heap/Creating.antt =====
-- `heap_create` makes one free chunk of a region.
use arm_os.Base.{
  ℕ, ◌+◌, ◌-◌, ◌≤◌, ◌^◌, ◌≡◌, refl, true, [], ◌∷◌, ◌==◌, ◌||◌, arith, add64, sub64, Bool-cases, inl,
  inr, update, Result, ok, err, Errno, einval, Result-cases,
}
use arm_os.Vmm.Area.{RegionType}
use arm_os.Vmm.State.{Backend, Vmm}
use arm_os.Vmm.Registry
use arm_os.Heap.Block.{HeapBlock, Blocks, Heap, magic_free}
use arm_os.Heap.Create.{heap_base, region_size, root_heap, heap_create}
use arm_os.Heap.Chain.{chunk, Header-eq, update_self}
use arm_os.Heap.Model.{taken_bytes, IsHeap}

pub root_heap-IsHeap :
    (root vaddr sz : ℕ) (f : Blocks) (m : ℕ → ℕ)
    → 80 ≤ sz
    → vaddr + sz ≤ 2 ^ 64
    → IsHeap vaddr sz (root_heap root vaddr sz f m) (chunk (sz - 80) true ∷ [])
unfolding root_heap taken_bytes
root_heap-IsHeap root vaddr sz f m large top =
    let b : HeapBlock = record {
      magic = magic_free;
      is_free = true;
      size = sub64 (sub64 sz 48) 32;
      next = 0;
      prev = 0;
    } in
    let at : add64 vaddr 48 ≡ vaddr + 48 = omega arith in
    record {
      starts = refl;
      ends = refl;
      first = at;
      top = top;
      linked = (
        Header-eq (update f (add64 vaddr 48) b (vaddr + 48)) b 0 (vaddr + 48) (chunk (sz - 80) true)
            [] (rw at (update_self f (vaddr + 48) b))
            (record { size = omega arith; free = refl; magic = refl; next = refl; prev = refl }),
        omega arith,
      );
      counted = refl;
    }

-- What the manager of address spaces answers to the request for the region.
abbrev pub region_answer : {b : Backend} (root sz : ℕ) → Vmm b → Result ℕ
region_answer root sz v =
    (Registry.allocate root 1 heap_base (region_size sz) 0x713 RegionType.heap v).0

module _ {b : Backend} (root sz : ℕ) (f : Blocks) (m : ℕ → ℕ) (v : Vmm b) where
  create_err :
      (out : ℕ) (c : Errno)
      → region_answer root sz v ≡ err c
      → (k : Errno) × ((heap_create root sz out f m v).0 ≡ err k)
  unfolding heap_create
  create_err out c e = elim (Bool-cases ((root == 0) || (out == 0))) [
    | inl g ↦ (einval, rw g refl)
    | inr g ↦ (c, rw (g, e) refl)
  ]

  create_ok :
      (out vaddr : ℕ) (h : Heap)
      → region_answer root sz v ≡ ok vaddr
      → (heap_create root sz out f m v).0 ≡ ok h
      → root_heap root vaddr (region_size sz) f m ≡ h
  unfolding heap_create
  create_ok out vaddr h e made = elim (Bool-cases ((root == 0) || (out == 0))) [
    | inl g ↦ absurd (cc (rw g at made))
    | inr g ↦ cc (rw (g, e) at made)
  ]

  -- A heap that `heap_create` answers for `sz` bytes, where `sz` does not come within two pages of
  -- 2 ^ 64, is made on the region that the manager of address spaces answered; if that region ends
  -- by 2 ^ 64, the heap stands for one free chunk, of `sz` bytes or more, and nothing is in use.
  pub heap_create-IsHeap :
      (out : ℕ) (h : Heap)
      → sz + 8192 ≤ 2 ^ 64
      → (heap_create root sz out f m v).0 ≡ ok h
      → h.context.vaddr_base + region_size sz ≤ 2 ^ 64
      → (region_answer root sz v ≡ ok h.context.vaddr_base)
        × IsHeap h.context.vaddr_base (region_size sz) h (chunk (region_size sz - 80) true ∷ [])
        × (sz ≤ region_size sz - 80)
  unfolding root_heap
  heap_create-IsHeap out h small e top = elim (Result-cases (region_answer root sz v)) [
    | inl (c, refused) ↦ let (k, no_heap) = create_err out c refused in absurd (cc)
    | inr (vaddr, got) ↦
        let made = create_ok out vaddr h got e in
        rw (← made) (
          got,
          root_heap-IsHeap root vaddr (region_size sz) f m (omega arith) (rw (← made) at top),
          omega arith,
        )
  ]
