-- ===== src/Pmm/Marks.antt =====
-- The metadata loops of pmm.c page by page, and the orders that they write.
use arm_os.Base.{ℕ, zero, suc, ◌+◌, ◌<◌, ◌≡◌, arith, ◌&&◌, ltb, leb, if◌then◌else◌, update}
use arm_os.Pmm.State.{PageMeta, Pmm, mark_pages}

-- The loop changes exactly the pages of its range, once each.
pub mark_pages-at :
    (n base : ℕ) (f : PageMeta → PageMeta) (m : ℕ → PageMeta) (i : ℕ)
    → mark_pages n base f m i ≡ (if leb base i && ltb i (base + n) then f (m i) else m i)
unfolding mark_pages
mark_pages-at zero base f m i = ground arith
mark_pages-at (suc n) base f m i =
    ground (arith, mark_pages-at n (base + 1) f (update m base (f (m base))) i)

-- Every page's order names a free list.
abbrev pub HasOrders : Pmm → Type 0
HasOrders s = (i : ℕ) → (s.meta_array i).order < 64

pub mark_pages-HasOrders :
    (n base : ℕ) (f : PageMeta → PageMeta) (m : ℕ → PageMeta)
    → ((i : ℕ) → (m i).order < 64)
    → ((i : ℕ) → (f (m i)).order < 64)
    → (i : ℕ) → (mark_pages n base f m i).order < 64
mark_pages-HasOrders n base f m h g i = ground (arith, mark_pages-at n base f m i, h i, g i)
