-- ===== src/Prelude/Every.antt =====
-- What holds of every element of a list, by membership, which a permutation keeps.
use mathlib.Core.Logic.{∥∥₁_elim}
use native.Mathlib.Nat.{ℕ_set}
use mathlib.Core.List.{
  Permᴰ, List, [], ◌∷◌, ◌++◌, Mem, Perm, mem-cons_self, mem-cons_of_mem, mem-append, not-mem-nil,
  forall_mem-cons,
}
use mathlib.Core.Path.{refl, ◌≡◌, ap, ◌∙◌, subst}
use Prim.Native.Nat.{ℕ, zero, suc, ◌<◌}
use mathlib.Core.Logic.Or
use mathlib.Core.Option.{some, some-injective, none-ne-some}
use mathlib.Core.List.Perm
use native.Mathlib.Omega.{arith}
use cubesat_fsw_gnc.Prelude.Options.{Returns, Returns-some}
use cubesat_fsw_gnc.Prelude.Lists.{get_elem?, length}

module _ {ℓ κ} {A : Type ℓ} where
  abbrev pub Every : (A → Type κ) → List A → Type (ℓ ⊔ κ)
  Every P xs = (x : A) → Mem x xs → P x

  pub Every-nil : (P : A → Type κ) → Every P []
  Every-nil P x m = absurd (not-mem-nil m)

  pub Every-cons :
      {P : A → Type κ}
      → ((x : A) → IsProp (P x))
      → {x : A} {xs : List A} → P x
      → Every P xs
      → Every P (x ∷ xs)
  Every-cons prop p ps = (forall_mem-cons prop).1 (p, ps)

  pub Every-tail : {P : A → Type κ} {x : A} {xs : List A} → Every P (x ∷ xs) → Every P xs
  Every-tail h y m = h y (mem-cons_of_mem _ m)

  pub Every-append :
      {P : A → Type κ}
      → ((x : A) → IsProp (P x))
      → {xs ys : List A} → Every P xs
      → Every P ys
      → Every P (xs ++ ys)
  Every-append prop hx hy x m = Or.elim (prop x) (mem-append.0 m) (hx x) (hy x)

  pub Every-perm : {P : A → Type κ} {xs ys : List A} → Perm xs ys → Every P ys → Every P xs
  Every-perm p h x m = h x ((Perm.mem_iff p).0 m)

  pub Every-get_elem? :
      (P : A → Type κ) (xs : List A) (i : ℕ) {x : A} → Every P xs → get_elem? xs i ≡ some x → P x
  Every-get_elem? P [] i h e = absurd (none-ne-some _ e)
  Every-get_elem? P (y ∷ ys) zero h e = subst P (some-injective _ _ e) (h y mem-cons_self)
  Every-get_elem? P (y ∷ ys) (suc i) h e = Every-get_elem? P ys i (Every-tail h) e

pub get_elem?-Returns {ℓ} :
    {A : Type ℓ} (xs : List A) (i : ℕ) → i < length xs → Returns {ℓ, 0} (λ x. Unit) (get_elem? xs i)
get_elem?-Returns [] i h = elim h [ ]
get_elem?-Returns (x ∷ xs) zero h = Returns-some tt
get_elem?-Returns (x ∷ xs) (suc i) h = get_elem?-Returns xs i (omega arith)

-- The measure of the library's lists by native numbers.
module _ {ℓ} {A : Type ℓ} where
  Permᴰ-length : {xs ys : List A} → Permᴰ xs ys → length xs ≡ length ys
  Permᴰ-length Permᴰ.nil = refl
  Permᴰ-length (Permᴰ.cons e p) = ap suc (Permᴰ-length p)
  Permᴰ-length (Permᴰ.swap e f) = refl
  Permᴰ-length (Permᴰ.trans p q) = Permᴰ-length p ∙ Permᴰ-length q

  pub length-perm : {xs ys : List A} → Perm xs ys → length xs ≡ length ys
  length-perm p = ∥∥₁_elim p (ℕ_set _ _) Permᴰ-length
