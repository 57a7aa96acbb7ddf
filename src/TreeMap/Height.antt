-- ===== src/TreeMap/Height.antt =====
-- The height of a balanced tree is logarithmic in the number of its keys
-- (near-sdk/src/store/tree_map/mod.rs).
use near_runtime_rs.Base.{
  ℕ, suc, ◌+◌, ◌*◌, ◌^◌, ◌≡◌, ◌≤◌, ◌<◌, u32_size, arith, max, dec_le, dec_lt, ℕ_discrete, ap, sym,
  subst,
}
use native.Mathlib.Nat.{pow-suc, mul-le-mul_left, mul-le-mul_right, pow-le-pow_right}
use near_runtime_rs.TreeMap.Shape.{Shape, leaf, branch, height, size}
use near_runtime_rs.TreeMap.Avl.{Avl}

-- Twice as much under the one root, and four times as much under the square of the sum.
squares_uneven : (a b p : ℕ) → 2 * p ≤ a * a → p ≤ b * b → 4 * p ≤ (a + b) * (a + b)
squares_uneven a b p ha hb = elim (dec_le a b) [
  | yes l ↦ omega (arith, mul-le-mul_left {m = a} {n = b} a l, mul-le-mul_right {m = a} {n = b} b l)
  | no l ↦
      let l' : b ≤ a = omega arith in
      omega (arith, mul-le-mul_left {m = b} {n = a} b l', mul-le-mul_right {m = b} {n = a} a l')
]

squares_even : (a b p : ℕ) → p ≤ a * a → p ≤ b * b → 2 * p ≤ (a + b) * (a + b)
squares_even a b p ha hb = omega arith

module _ {K : Type 0} where
  -- In a balanced tree, two to the height is at most the square of the number of keys and one.
  pub height_bound : (t : Shape K) → Avl t → 2 ^ height t ≤ (size t + 1) * (size t + 1)
  height_bound leaf a = omega arith
  height_bound (branch i k l r) a =
      let bl = height_bound l a.2 in
      let br = height_bound r a.3 in
      let goal = λ (n : ℕ). 2 ^ n ≤ (1 + size l + size r + 1) * (1 + size l + size r + 1) in
      elim (ℕ_discrete (height l) (height r)) [
        | yes e ↦
            let f : 1 + max (height l) (height r) ≡ suc (height r) = omega arith in
            let el = ap (λ (n : ℕ). 2 ^ n) e in
            subst goal (sym f) (
              omega (
                arith,
                pow-suc 2 (height r),
                squares_even (size l + 1) (size r + 1) (2 ^ height r) (omega arith) br,
              ))
        | no ne ↦ elim (dec_lt (height r) (height l)) [
          | yes u ↦
              let f : 1 + max (height l) (height r) ≡ suc (suc (height r)) = omega arith in
              let e : height l ≡ suc (height r) = omega (arith, a.0) in
              let el = ap (λ (n : ℕ). 2 ^ n) e in
              let two = pow-suc 2 (height r) in
              subst goal (sym f) (
                omega (
                  arith,
                  pow-suc 2 (suc (height r)),
                  squares_uneven (size l + 1) (size r + 1) (2 ^ height r) (omega arith) br,
                ))
          | no u ↦
              let f : 1 + max (height l) (height r) ≡ suc (suc (height l)) = omega arith in
              let e : height r ≡ suc (height l) = omega (arith, a.1) in
              let el = ap (λ (n : ℕ). 2 ^ n) e in
              let two = pow-suc 2 (height l) in
              subst goal (sym f) (
                omega (
                  arith,
                  pow-suc 2 (suc (height l)),
                  squares_uneven (size r + 1) (size l + 1) (2 ^ height l) (omega arith) bl,
                ))
        ]
      ]

  pub height-le-64 : (t : Shape K) → Avl t → size t < u32_size → height t ≤ 64
  height-le-64 t a s = elim (dec_le (height t) 64) [
    | yes p ↦ p
    | no p ↦
        let big : 65 ≤ height t = omega arith in
        let more = pow-le-pow_right {n = 2} (omega arith) {i = 65} {j = height t} big in
        let small : size t + 1 ≤ u32_size = omega arith in
        let s1 = mul-le-mul_left {m = size t + 1} {n = u32_size} (size t + 1) small in
        let s2 = mul-le-mul_right {m = size t + 1} {n = u32_size} u32_size small in
        absurd (omega (arith, height_bound t a, more, s1, s2))
  ]
