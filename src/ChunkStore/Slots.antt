-- ===== src/ChunkStore/Slots.antt =====
-- Positions as a block and a slot, and writes to one slot of the last block.
use voidwalk.Common.{
  ℕ, zero, suc, ◌*◌, ◌/◌, ◌%◌, ◌<◌, ◌≤◌, ◌≡◌, refl, some, List, [], ◌∷◌, length, get_elem?, arith,
  ◌≢◌, ap,
}
use native.Mathlib.Nat.{div-add-mod, div-mul-le_self, le-div_iff_mul-le, div-lt_iff_lt-mul}
use voidwalk.ChunkStore.{set, write_last}

div_unique : (n q c : ℕ) → 0 < c → q * c ≤ n → n < suc q * c → n / c ≡ q
div_unique n q c h lo hi = omega (
  arith,
  (le-div_iff_mul-le {k = c} {x = q} {y = n} h).1 lo,
  (div-lt_iff_lt-mul {k = c} {x = n} {y = suc q} h).1 hi,
)

-- The next position is the next slot, or the first slot of the next block.
pub div_suc_inside : (n c : ℕ) → suc (n % c) < c → suc n / c ≡ n / c
div_suc_inside n c h =
    div_unique (suc n) (n / c) c (omega arith) (omega (arith, div-add-mod n c))
      (omega (arith, div-add-mod n c))

pub mod_suc_inside : (n c : ℕ) → suc (n % c) < c → suc n % c ≡ suc (n % c)
mod_suc_inside n c h =
    omega
      (arith, div-add-mod n c, div-add-mod (suc n) c, ap (λ (k : ℕ). c * k) (div_suc_inside n c h))

pub div_suc_full : (n c : ℕ) → suc (n % c) ≡ c → suc n / c ≡ suc (n / c)
div_suc_full n c h =
    div_unique (suc n) (suc (n / c)) c (omega arith) (omega (arith, div-add-mod n c))
      (omega (arith, div-add-mod n c))

pub mod_suc_full : (n c : ℕ) → suc (n % c) ≡ c → suc n % c ≡ 0
mod_suc_full n c h =
    omega
      (arith, div-add-mod n c, div-add-mod (suc n) c, ap (λ (k : ℕ). c * k) (div_suc_full n c h))

pub div_mono : (i n c : ℕ) → 0 < c → i ≤ n → i / c ≤ n / c
div_mono i n c h l =
    (le-div_iff_mul-le {k = c} {x = i / c} {y = n} h).1 (omega (arith, div-mul-le_self i c))

-- A block and a slot determine the position.
pub position-eq : (i j c : ℕ) → i / c ≡ j / c → i % c ≡ j % c → i ≡ j
position-eq i j c p q = omega (arith, div-add-mod i c, div-add-mod j c, ap (λ (k : ℕ). c * k) p)

module _ {ℓ} {A : Type ℓ} where
  pub length-set : (xs : List A) (k : ℕ) (v : A) → length (set xs k v) ≡ length xs
  unfolding set
  length-set [] k v = refl
  length-set (x ∷ xs) zero v = refl
  length-set (x ∷ xs) (suc k) v = omega (arith, length-set xs k v)

  pub get-set_self :
      (xs : List A) (k : ℕ) (v : A) → k < length xs → get_elem? (set xs k v) k ≡ some v
  unfolding set
  get-set_self [] k v h = absurd (omega arith)
  get-set_self (x ∷ xs) zero v h = refl
  get-set_self (x ∷ xs) (suc k) v h = get-set_self xs k v (omega arith)

  pub get-set_ne :
      (xs : List A) (k i : ℕ) (v : A) → k ≢ i → get_elem? (set xs k v) i ≡ get_elem? xs i
  unfolding set
  get-set_ne [] k i v h = refl
  get-set_ne (x ∷ xs) zero zero v h = absurd (h refl)
  get-set_ne (x ∷ xs) zero (suc i) v h = refl
  get-set_ne (x ∷ xs) (suc k) zero v h = refl
  get-set_ne (x ∷ xs) (suc k) (suc i) v h = get-set_ne xs k i v (λ e. h (ap suc e))

  pub length-write_last :
      (bs : List (List A)) (k : ℕ) (v : A) → length (write_last bs k v) ≡ length bs
  unfolding write_last
  length-write_last [] k v = refl
  length-write_last (b ∷ []) k v = refl
  length-write_last (b ∷ c ∷ r) k v = omega (arith, length-write_last (c ∷ r) k v)

  -- The blocks before the last are left alone.
  pub get-write_last_before :
      (bs : List (List A)) (k j : ℕ) (v : A)
      → suc j < length bs
      → get_elem? (write_last bs k v) j ≡ get_elem? bs j
  unfolding write_last
  get-write_last_before [] k j v h = refl
  get-write_last_before (b ∷ []) k j v h = absurd (omega arith)
  get-write_last_before (b ∷ c ∷ r) k zero v h = refl
  get-write_last_before (b ∷ c ∷ r) k (suc j) v h =
      get-write_last_before (c ∷ r) k j v (omega arith)

  pub get-write_last_at :
      (bs : List (List A)) (k j : ℕ) (v : A) {b : List A}
      → suc j ≡ length bs
      → get_elem? bs j ≡ some b
      → get_elem? (write_last bs k v) j ≡ some (set b k v)
  unfolding write_last
  get-write_last_at [] k j v h e = absurd (omega arith)
  get-write_last_at (b ∷ []) k zero v h e = cc
  get-write_last_at (b ∷ []) k (suc j) v h e = absurd (omega arith)
  get-write_last_at (b ∷ c ∷ r) k zero v h e = absurd (omega arith)
  get-write_last_at (b ∷ c ∷ r) k (suc j) v h e = get-write_last_at (c ∷ r) k j v (omega arith) e
