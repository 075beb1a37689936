-- ===== src/Core/SpscQueue/Ring.antt =====
-- What the ring of src/fsw/core/SPSCQueue.hpp holds, by distances around it.
use cubesat_fsw_gnc.Prelude.{
  ℕ, suc, ◌≤◌, ◌<◌, ◌≡◌, refl, sym, ap, ◌∙◌, ◌≢◌, some, List, [], ◌∷◌, ◌++◌, arith, length,
  get_elem?, set, get_elem?-set_ne,
}
use cubesat_fsw_gnc.Core.SpscQueue.{distance}
use cubesat_fsw_gnc.Core.SpscQueue.Mask.{step}

-- Distances around the ring.
pub step-distance :
    (c h t d : ℕ) → h < c → t < c → distance c h t ≡ suc d → distance c (step c h) t ≡ d
unfolding distance step
step-distance c h t d p q e = ground arith

pub distance-step :
    (c h t : ℕ) → h < c → t < c → step c t ≢ h → distance c h (step c t) ≡ suc (distance c h t)
unfolding distance step
distance-step c h t p q e = ground arith

pub step-bound : (c i : ℕ) → i < c → step c i < c
unfolding step
step-bound c i h = ground arith

pub distance-bound : (c h t : ℕ) → h < c → t < c → distance c h t < c
unfolding distance
distance-bound c h t p q = ground arith

pub distance-positive : (c h t : ℕ) → h < c → t < c → h ≢ t → 1 ≤ distance c h t
unfolding distance
distance-positive c h t p q n = ground arith

pub distance-ne : (c h t d : ℕ) → h < c → t < c → distance c h t ≡ suc d → h ≢ t
unfolding distance
distance-ne c h t d p q n e = ground arith

pub step-injective : (c i j : ℕ) → i < c → j < c → step c i ≡ step c j → i ≡ j
unfolding step
step-injective c i j p q e = ground arith

pub distance-zero : (c h t : ℕ) → h < c → t < c → distance c h t ≡ 0 → h ≡ t
unfolding distance
distance-zero c h t p q e = ground arith

module _ {ℓ} {A : Type ℓ} where
  -- The ring holds these items, the oldest at index `h`.
  unfoldable pub Holds : List A → ℕ → ℕ → List A → Type ℓ
  Holds buffer c h [] = buffer ≡ buffer
  Holds buffer c h (x ∷ xs) = (get_elem? buffer h ≡ some x) × Holds buffer c (step c h) xs

  -- A write at the tail disturbs none of them.
  pub Holds-set :
      (buffer xs : List A) (c h t : ℕ) (item : A)
      → h < c
      → t < c
      → length xs ≡ distance c h t
      → Holds buffer c h xs
      → Holds (set buffer t item) c h xs
  unfolding Holds
  Holds-set buffer [] c h t item p q e a = refl
  Holds-set buffer (x ∷ xs) c h t item p q e (a, b) = (
    get_elem?-set_ne buffer item (λ z. distance-ne c h t (length xs) p q (sym e) (sym z)) ∙ a,
    Holds-set buffer xs c (step c h) t item (step-bound c h p) q
        (sym (step-distance c h t (length xs) p q (sym e))) b,
  )

  -- A tail moved over a written cell adds its item at the end.
  pub Holds-snoc :
      (buffer xs : List A) (c h t : ℕ) (item : A)
      → h < c
      → t < c
      → length xs ≡ distance c h t
      → get_elem? buffer t ≡ some item
      → Holds buffer c h xs
      → Holds buffer c h (xs ++ item ∷ [])
  unfolding Holds
  Holds-snoc buffer [] c h t item p q e g a =
      (ap (get_elem? buffer) (distance-zero c h t p q (sym e)) ∙ g, refl)
  Holds-snoc buffer (x ∷ xs) c h t item p q e g (a, b) = (
    a,
    Holds-snoc buffer xs c (step c h) t item (step-bound c h p) q
        (sym (step-distance c h t (length xs) p q (sym e))) g b,
  )
