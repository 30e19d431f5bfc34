-- ===== src/Pmm/Account/Sum.antt =====
-- The bytes that the free lists count, and how a list operation changes them. Words wrap, so the laws are
-- congruences modulo 2 ^ 64.
use native.Mathlib.Nat.{pow-suc, div-add-mod'}
use arm_os.Base.{
  ℕ, zero, suc, ◌+◌, ◌-◌, ◌*◌, ◌%◌, ◌<◌, ◌≤◌, ◌≡◌, refl, ap, arith, u64_mod, update, add64, sub64,
  ◌==◌, if◌then◌else◌,
}
use arm_os.Pmm.State.{OrderList, Pmm, block_bytes, list_add, list_remove}

-- The bytes of the blocks below order `n`, by the counters.
unfoldable pub list_bytes : ℕ → (ℕ → OrderList) → ℕ
list_bytes zero orders = 0
list_bytes (suc n) orders = list_bytes n orders + (orders n).block_count * block_bytes n

-- Equal as 64-bit words.
infix 4 ◌≈◌
abbrev pub ◌≈◌ : ℕ → ℕ → Type 0
a ≈ b = a % u64_mod ≡ b % u64_mod

list_bytes-update_ge :
    (n o : ℕ) (f : ℕ → OrderList) (l : OrderList)
    → n ≤ o
    → list_bytes n (update f o l) ≡ list_bytes n f
unfolding list_bytes
list_bytes-update_ge zero o f l h = refl
list_bytes-update_ge (suc n) o f l h = ground (arith, list_bytes-update_ge n o f l)

list_bytes-update :
    (n o : ℕ) (f : ℕ → OrderList) (l : OrderList)
    → o < n
    → list_bytes n (update f o l) + (f o).block_count * block_bytes o
      ≡ list_bytes n f + l.block_count * block_bytes o
unfolding list_bytes
list_bytes-update zero o f l h = absurd (omega arith)
list_bytes-update (suc n) o f l h =
    ground (arith, list_bytes-update n o f l, list_bytes-update_ge n o f l)

wrap_mul : (a z : ℕ) → (a % u64_mod) * z ≈ a * z
wrap_mul a z = omega (arith, ap (λ (t : ℕ). t * z) (div-add-mod' a u64_mod))

wrap_dec : (c z : ℕ) → sub64 c 1 * z + z ≈ c * z
wrap_dec c z =
    let e : c + u64_mod - 1 ≡ c + 0xffff_ffff_ffff_ffff = omega arith in
    rw e (omega (arith, wrap_mul (c + 0xffff_ffff_ffff_ffff) z))

-- The two halves of a block have its size.
pub block_bytes-suc : (o : ℕ) → block_bytes (suc o) ≈ block_bytes o + block_bytes o
block_bytes-suc o = omega (arith, pow-suc 2 o)

module _ (order node : ℕ) (s : Pmm) (inside : order < 64) where
  pub list_add-bytes :
      list_bytes 64 (list_add order node s).orders ≈ list_bytes 64 s.orders + block_bytes order
  unfolding list_add
  list_add-bytes = omega (
    arith,
    list_bytes-update 64 order s.orders
        (record { head = node; block_count = add64 (s.orders order).block_count 1 }) inside,
    wrap_mul ((s.orders order).block_count + 1) (block_bytes order),
  )

  pub list_remove-bytes :
      list_bytes 64 (list_remove order node s).orders + block_bytes order ≈ list_bytes 64 s.orders
  unfolding list_remove
  list_remove-bytes = omega (
    arith,
    list_bytes-update 64 order s.orders
        (record {
          head = if (s.nodes node).prev == 0 then (s.nodes node).next else (s.orders order).head;
          block_count = sub64 (s.orders order).block_count 1;
        })
        inside,
    wrap_dec (s.orders order).block_count (block_bytes order),
  )
