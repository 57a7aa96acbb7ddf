-- ===== src/TreeMap/Ord.antt =====
-- The bounds `Eq` and `Ord` on the keys of a tree, as Boolean tests with their laws.
use near_runtime_rs.Base.{ℕ, ◌≡◌, Bool, true, false, ltb, ◌==◌, arith}

pub record Ord {ℓ} (K : Type ℓ) : Type ℓ where
  pub eq_key : K → K → Bool
  pub lt_key : K → K → Bool
  pub eq_refl : (a : K) → eq_key a a ≡ true
  pub eq_sound : (a b : K) → eq_key a b ≡ true → a ≡ b
  pub lt_irrefl : (a : K) → lt_key a a ≡ false
  pub lt_trans : (a b c : K) → lt_key a b ≡ true → lt_key b c ≡ true → lt_key a c ≡ true
  pub lt_total : (a b : K) → eq_key a b ≡ false → lt_key a b ≡ false → lt_key b a ≡ true

pub ltb_irrefl : (a : ℕ) → ltb a a ≡ false
ltb_irrefl a = ground arith

pub ltb_trans : (a b c : ℕ) → ltb a b ≡ true → ltb b c ≡ true → ltb a c ≡ true
ltb_trans a b c p q = ground arith

pub ltb_total : (a b : ℕ) → (a == b) ≡ false → ltb a b ≡ false → ltb b a ≡ true
ltb_total a b p q = ground arith

pub ==_sound : (a b : ℕ) → (a == b) ≡ true → a ≡ b
==_sound a b p = ground arith

pub ==_refl : (a : ℕ) → (a == a) ≡ true
==_refl a = ground arith

instance abbrev pub nat_ord : Ord ℕ
nat_ord = record {
  eq_key = ◌==◌;
  lt_key = ltb;
  eq_refl = ==_refl;
  eq_sound = ==_sound;
  lt_irrefl = ltb_irrefl;
  lt_trans = ltb_trans;
  lt_total = ltb_total;
}
