-- ===== src/Fixed.antt =====
-- A concrete type of numbers for tests: a NaN and multiples of 10^-9.
use cubesat_fsw_gnc.Prelude.{
  List, [], ◌∷◌, ℕ, ◌+◌, ◌*◌, ◌/◌, ◌^◌, Bool, true, false, ◌≡◌, arith, if◌then◌else◌, ◌==◌, leb,
  length, refl,
}
use cubesat_fsw_gnc.Prelude.Int.{
  ℤ, pos, negsuc, pos_part, neg_part, sub_ℕ, ◌+ℤ◌, ◌-ℤ◌, ltb_ℤ, leb_ℤ,
}
use cubesat_fsw_gnc.Double.{Stored, Double, IsOrdered, HasNan, Libm, Reductions}
use cubesat_fsw_gnc.Linear.{Matrices}
use cubesat_fsw_gnc.Eigen.{Vector3, Eigen}

pub data Fixed : Type 0 where
  nan : Fixed
  num : ℤ → Fixed

abbrev pub one : ℕ
one = 10 ^ 9

abbrev magnitude : ℤ → ℕ
magnitude z = pos_part z + neg_part z

-- The product of the signs of two numbers, put on a magnitude.
abbrev signed : ℤ → ℤ → ℕ → ℤ
signed (pos a) (pos b) n = pos n
signed (negsuc a) (negsuc b) n = pos n
signed a b n = sub_ℕ 0 n

abbrev lift : (ℤ → ℤ → Fixed) → Fixed → Fixed → Fixed
lift f (num a) (num b) = f a b
lift f a b = nan

abbrev test : (ℤ → ℤ → Bool) → Fixed → Fixed → Bool
test f (num a) (num b) = f a b
test f a b = false

abbrev negate : Fixed → Fixed
negate nan = nan
negate (num a) = num (pos 0 -ℤ a)

abbrev absolute : Fixed → Fixed
absolute nan = nan
absolute (num a) = num (pos (magnitude a))

abbrev divide : ℤ → ℤ → Fixed
divide a b = if magnitude b == 0 then nan else num (signed a b (magnitude a * one / magnitude b))

instance abbrev pub fixed_double : Double Fixed
fixed_double = record {
  lit = λ m e. num (pos (m * one / 10 ^ e));
  add = lift (λ a b. num (a +ℤ b));
  sub = lift (λ a b. num (a -ℤ b));
  mul = lift (λ a b. num (signed a b (magnitude a * magnitude b / one)));
  div = lift divide;
  neg = negate;
  abs = absolute;
  lt = test ltb_ℤ;
  le = test leb_ℤ;
}

pub Fixed-IsOrdered : IsOrdered Fixed
Fixed-IsOrdered = ground arith

abbrev pub is_nan : Fixed → Bool
is_nan nan = true
is_nan (num z) = false

pub is_nan-mul : (a b : Fixed) → is_nan b ≡ true → is_nan (fixed_double.mul a b) ≡ true
is_nan-mul a b h = ground arith

pub is_nan-add : (a b : Fixed) → is_nan a ≡ true → is_nan (fixed_double.add a b) ≡ true
is_nan-add a b h = ground arith

pub is_nan-lt : (a b : Fixed) → is_nan a ≡ true → fixed_double.lt a b ≡ false
is_nan-lt a b h = ground arith

abbrev pub fixed_has_nan : HasNan Fixed
fixed_has_nan = record {
  is_nan = is_nan;
  mul_nan = is_nan-mul;
  nan_add = is_nan-add;
  nan_lt = is_nan-lt;
}

-- The 1-norm in place of the Euclidean one, coordinatewise sums, and no rotation: the inverse of a
-- quaternion and its products are not computed.
abbrev taxicab : Vector3 Fixed → Fixed
taxicab v = fixed_double.add (absolute v.x) (fixed_double.add (absolute v.y) (absolute v.z))

abbrev zip : (Fixed → Fixed → Fixed) → Vector3 Fixed → Vector3 Fixed → Vector3 Fixed
zip f v w = record { x = f v.x w.x; y = f v.y w.y; z = f v.z w.z }

abbrev constant : Fixed → Vector3 Fixed
constant a = record { x = a; y = a; z = a }

instance abbrev pub fixed_eigen : Eigen Fixed
fixed_eigen = record {
  norm = taxicab;
  add = zip fixed_double.add;
  sub = zip fixed_double.sub;
  scale = λ a v. zip fixed_double.mul (constant a) v;
  divide = λ v a. zip fixed_double.div v (constant a);
  cross = λ v w. v;
  dot = λ v w. fixed_double.mul v.x w.x;
  normalized = λ v. v;
  negate = λ v. record { x = negate v.x; y = negate v.y; z = negate v.z };
  normalize = λ q. q;
  from_two_vectors = λ v w. record { w = v.x; x = w.x; y = w.y; z = w.z };
  of_angle_axis = λ a v. record { w = a; x = v.x; y = v.y; z = v.z };
  of_columns = λ u v w. record { w = u.x; x = v.x; y = v.y; z = w.z };
  inverse = λ q. q;
  conjugate = λ q. q;
  rotate = λ q v. v;
  compose = λ p q. q;
  squared_norm = λ v. fixed_double.mul (taxicab v) (taxicab v);
  angle_axis = λ q. record { x = q.x; y = q.y; z = q.z };
}

abbrev sum_of : List Fixed → Fixed
sum_of [] = num (pos 0)
sum_of (x ∷ xs) = fixed_double.add x (sum_of xs)

-- Stand-ins for these functions, which no test looks into.
instance abbrev pub fixed_libm : Libm Fixed
fixed_libm = record {
  acos = λ a. a;
  sin = λ a. a;
  cos = λ a. a;
  sqrt = λ a. a;
  atan2 = λ a b. a;
  pow = λ a b. a;
}

instance abbrev pub fixed_reductions : Reductions Fixed
fixed_reductions = record { mean = sum_of; sum = sum_of }

-- In place of a matrix, the number of columns that were set in it; three of them have a determinant.
instance abbrev pub fixed_matrices : Matrices Fixed ℕ
fixed_matrices = record {
  zero = λ rows cols. 0;
  of_rows = λ rows. 4;
  of_vector3 = λ v. 1;
  col = λ a i. 1;
  set_col = λ a i c. a + 1;
  transpose = λ a. a;
  negate = λ a. a;
  mul = λ a b. a;
  inverse = λ a. a;
  determinant = λ a. if leb 3 a then num (pos one) else num (pos 0);
  at = λ a i. num (pos (one * (i + 1)));
  entry = λ a i j. num (pos one);
  identity = λ n. n;
  rows = λ a. 3;
  cols = λ a. a;
  set_at = λ a i j x. a;
  set_block = λ a i j b. a;
  segment3 = λ a i. constant (num (pos (one * (a + i))));
  stack = λ v w. 6;
  add = λ a b. a;
  sub = λ a b. a;
  scale = λ x a. a;
  has_nan = λ a. false;
  coeffs = λ a. record { w = num (pos one); x = num (pos 0); y = num (pos 0); z = num (pos 0) };
  stack_coeffs = λ q v. 7;
}

abbrev bytes : Fixed → List ℕ
bytes nan = 2 ∷ 0 ∷ 0 ∷ 0 ∷ 0 ∷ 0 ∷ 0 ∷ 0 ∷ []
bytes (num (pos n)) = 0 ∷ n ∷ 0 ∷ 0 ∷ 0 ∷ 0 ∷ 0 ∷ 0 ∷ []
bytes (num (negsuc n)) = 1 ∷ n ∷ 0 ∷ 0 ∷ 0 ∷ 0 ∷ 0 ∷ 0 ∷ []

abbrev of_bytes : List ℕ → Fixed
of_bytes (tag ∷ n ∷ rest) =
    if tag == 0 then num (pos n) else (if tag == 1 then num (negsuc n) else nan)
of_bytes _ = nan

pub length-bytes : (a : Fixed) → length (bytes a) ≡ 8
length-bytes nan = refl
length-bytes (num (pos n)) = refl
length-bytes (num (negsuc n)) = refl

pub of_bytes-bytes : (a : Fixed) → of_bytes (bytes a) ≡ a
of_bytes-bytes nan = refl
of_bytes-bytes (num (pos n)) = refl
of_bytes-bytes (num (negsuc n)) = refl

-- A stand-in for the memory of a number, with eight cells.
instance abbrev pub fixed_stored : Stored Fixed
fixed_stored = record {
  bytes = bytes;
  of_bytes = of_bytes;
  length-bytes = length-bytes;
  of_bytes-bytes = of_bytes-bytes;
}
