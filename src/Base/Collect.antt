-- ===== src/Base/Collect.antt =====
-- The lists that the first `n` members of a family hold, one after the other.
use mathlib.Core.List.{append-nil}
use Prim.Native.Nat.{ℕ, zero, suc, ◌<◌}
use mathlib.Core.Path.{◌≡◌, refl, ap}
use mathlib.Core.Logic.{◌≢◌}
use mathlib.Core.List.{List, [], ◌++◌}
use native.Mathlib.Decide.{dec_lt}
use native.Mathlib.Omega.{arith}

module _ {ℓ κ} {A : Type ℓ} {B : Type κ} (f : A → List B) where
  pub collect : (n : ℕ) (members : ℕ → A) → List B
  collect zero members = []
  collect (suc k) members = collect k members ++ f (members k)

  pub collect_nil : (n : ℕ) (g : ℕ → A) → ((j : ℕ) → j < n → f (g j) ≡ []) → collect n g ≡ []
  unfolding collect
  collect_nil zero g none_holds = refl
  collect_nil (suc k) g none_holds =
      rw (collect_nil k g (λ j lt. none_holds j (omega arith)), none_holds k (omega arith)) refl

  -- Where only member `i` holds anything, that is all there is.
  pub collect_one :
      (n : ℕ) (g : ℕ → A) (i : ℕ)
      → i < n
      → ((j : ℕ) → j < n → i ≢ j → f (g j) ≡ [])
      → collect n g ≡ f (g i)
  unfolding collect
  collect_one zero g i lt others = absurd (omega arith)
  collect_one (suc k) g i lt others = elim (dec_lt i k) [
    | yes below ↦
        rw (others k (omega arith) (omega arith), append-nil (collect k g))
          (collect_one k g i below (λ j h ne. others j (omega arith) ne))
    | no last ↦ here (omega arith)
  ]
    where
      here : k ≡ i → collect k g ++ f (g k) ≡ f (g i)
      here e =
          rw (collect_nil k g (λ j h. others j (omega arith) (omega arith))) (ap (λ x. f (g x)) e)

pub collect_ext {ℓ κ λ'} :
    {A : Type ℓ} {A' : Type λ'} {B : Type κ} (f : A → List B) (f' : A' → List B) (n : ℕ) (g : ℕ → A)
    (h : ℕ → A')
    → ((j : ℕ) → j < n → f (g j) ≡ f' (h j))
    → collect f n g ≡ collect f' n h
unfolding collect
collect_ext f f' zero g h same = refl
collect_ext f f' (suc k) g h same =
    rw (collect_ext f f' k g h (λ j lt. same j (omega arith)), same k (omega arith)) refl
