-- ===== src/Prelude/Eq.antt =====
-- Python's `==` on the keys of a dict: a key type has a Boolean test that decides equality. The
-- program's keys are texts.
use mathlib.Core.Path.{◌≡◌, subst}
use mathlib.Core.Logic.{◌↔◌}
use mathlib.Core.Bool.{Bool, true, false, ◌&&◌}
use mathlib.Core.List.{List, [], ◌∷◌}
use Prim.Native.Nat.{ℕ}
use native.Mathlib.Omega.{arith}
use analysis_srv.Prelude.Tests.{nat_eq}
use Prim.Native.String.{String}
use text.Mathlib.Text.{◌==◌ as same_text}
use text.Mathlib.TextEquality.{eq_iff as same_text_iff}
use mathlib.Core.Path.{refl}

pub record Key {ℓ} (K : Type ℓ) : Type ℓ where
  pub same : K → K → Bool
  pub same_sound : (j k : K) → same j k ≡ true → j ≡ k
  pub same_refl : (k : K) → same k k ≡ true

instance abbrev pub text_key : Key String
text_key = record {
  same = same_text;
  same_sound = λ s t. (same_text_iff s t).0;
  same_refl = λ s. (same_text_iff s s).1 refl;
}

module _ {ℓ} {K : Type ℓ} ⦃key : Key K⦄ where
  infix 50 ◌==◌
  abbrev pub ◌==◌ : K → K → Bool
  j == k = key.same j k

  pub ==_iff : (j k : K) → ((j == k) ≡ true) ↔ (j ≡ k)
  ==_iff j k = (key.same_sound j k, λ e. subst (λ x. key.same j x ≡ true) e (key.same_refl j))

pub nat_eq_sound : (a b : ℕ) → nat_eq a b ≡ true → a ≡ b
nat_eq_sound a b h = ground arith

pub nat_eq_refl : (a : ℕ) → nat_eq a a ≡ true
nat_eq_refl a = ground arith

instance abbrev pub nat_key : Key ℕ
nat_key = record { same = nat_eq; same_sound = nat_eq_sound; same_refl = nat_eq_refl }

module _ {A B : Type 0} ⦃ka : Key A⦄ ⦃kb : Key B⦄ where
  abbrev same_pair : A × B → A × B → Bool
  same_pair p q = (p.0 == q.0) && (p.1 == q.1)

  pub same_pair_sound : (p q : A × B) → same_pair p q ≡ true → p ≡ q
  same_pair_sound p q h = ground (arith, ==_iff p.0 q.0, ==_iff p.1 q.1)

  pub same_pair_refl : (p : A × B) → same_pair p p ≡ true
  same_pair_refl p = ground (arith, ==_iff p.0 p.0, ==_iff p.1 p.1)

  instance abbrev pub pair_key : Key (A × B)
  pair_key = record { same = same_pair; same_sound = same_pair_sound; same_refl = same_pair_refl }

module _ {A : Type 0} ⦃ka : Key A⦄ where
  abbrev same_list : List A → List A → Bool
  same_list [] [] = true
  same_list [] (y ∷ ys) = false
  same_list (x ∷ xs) [] = false
  same_list (x ∷ xs) (y ∷ ys) = (x == y) && same_list xs ys

  pub same_list_sound : (xs ys : List A) → same_list xs ys ≡ true → xs ≡ ys
  same_list_sound [] [] h = refl
  same_list_sound [] (y ∷ ys) h = cc
  same_list_sound (x ∷ xs) [] h = cc
  same_list_sound (x ∷ xs) (y ∷ ys) h = ground (arith, ==_iff x y, same_list_sound xs ys)

  pub same_list_refl : (xs : List A) → same_list xs xs ≡ true
  same_list_refl [] = refl
  same_list_refl (x ∷ xs) = ground (arith, ==_iff x x, same_list_refl xs)

  instance abbrev pub list_key : Key (List A)
  list_key = record { same = same_list; same_sound = same_list_sound; same_refl = same_list_refl }
