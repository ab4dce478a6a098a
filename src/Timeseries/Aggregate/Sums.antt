-- ===== src/Timeseries/Aggregate/Sums.antt =====
-- Statistics of points, which the buckets hold, as sums over lists of points.
use self_host.Prelude.{
  ℕ, zero, suc, ◌+◌, ◌≡◌, refl, sym, ap, ap₂, ◌∙◌, Option, none, some, List, [], ◌∷◌, ◌++◌, arith,
}
use self_host.Timeseries.Aggregate.{Numbers, lower, upper}

-- Laws of exact arithmetic on numbers that are compared.
pub record IsExact {F G U : Type 0} (n : Numbers F G U) : Type 0 where
  pub add_zero : (x : F) → n.add n.zero x ≡ x
  pub add_comm : (x y : F) → n.add x y ≡ n.add y x
  pub add_assoc : (x y z : F) → n.add (n.add x y) z ≡ n.add x (n.add y z)
  pub lower_comm : (x y : F) → lower n x y ≡ lower n y x
  pub lower_assoc : (x y z : F) → lower n (lower n x y) z ≡ lower n x (lower n y z)
  pub upper_comm : (x y : F) → upper n x y ≡ upper n y x
  pub upper_assoc : (x y z : F) → upper n (upper n x y) z ≡ upper n x (upper n y z)

pub record Stats (F : Type 0) : Type 0 where
  pub count : ℕ
  pub sum : F
  pub min : F
  pub max : F

counts_comm : (a b : ℕ) → a + b ≡ b + a
counts_comm a b = omega arith

counts_assoc : (a b c : ℕ) → a + b + c ≡ a + (b + c)
counts_assoc a b c = omega arith

pub zero_plus : (k : ℕ) → 0 + k ≡ k
zero_plus k = omega arith

suc_plus : (j k : ℕ) → suc j + k ≡ suc (j + k)
suc_plus j k = omega arith

module _ {F G U : Type 0} (n : Numbers F G U) where
  unfoldable pub joined : Stats F → Stats F → Stats F
  joined a b = record {
    count = a.count + b.count;
    sum = n.add a.sum b.sum;
    min = lower n b.min a.min;
    max = upper n b.max a.max;
  }

  -- The statistics of two collections of points together; none of no point.
  unfoldable pub combined : Option (Stats F) → Option (Stats F) → Option (Stats F)
  unfolding joined
  combined none b = b
  combined (some a) none = some a
  combined (some a) (some b) = some (joined a b)

  unfoldable pub times : ℕ → Stats F → Option (Stats F)
  times zero s = none
  times (suc k) s = combined (some s) (times k s)

  -- Each element counted as often as `w` says.
  unfoldable pub weigh : {A : Type 0} → (A → ℕ) → (A → Stats F) → List A → Option (Stats F)
  weigh w s [] = none
  weigh w s (x ∷ xs) = combined (times (w x) (s x)) (weigh w s xs)

  pub combined-none : (a : Option (Stats F)) → combined a none ≡ a
  unfolding combined
  combined-none none = refl
  combined-none (some a) = refl

  module _ (x : IsExact n) where
    joined_comm : (a b : Stats F) → joined a b ≡ joined b a
    unfolding joined
    joined_comm a b = λ i. record {
      count = counts_comm a.count b.count i;
      sum = x.add_comm a.sum b.sum i;
      min = x.lower_comm b.min a.min i;
      max = x.upper_comm b.max a.max i;
    }

    joined_assoc : (a b c : Stats F) → joined (joined a b) c ≡ joined a (joined b c)
    unfolding joined
    joined_assoc a b c = λ i. record {
      count = counts_assoc a.count b.count c.count i;
      sum = x.add_assoc a.sum b.sum c.sum i;
      min = sym (x.lower_assoc c.min b.min a.min) i;
      max = sym (x.upper_assoc c.max b.max a.max) i;
    }

    pub combined_comm : (a b : Option (Stats F)) → combined a b ≡ combined b a
    unfolding combined
    combined_comm none none = refl
    combined_comm none (some b) = refl
    combined_comm (some a) none = refl
    combined_comm (some a) (some b) = ap some (joined_comm a b)

    pub combined_assoc :
        (a b c : Option (Stats F)) → combined (combined a b) c ≡ combined a (combined b c)
    unfolding combined
    combined_assoc none b c = refl
    combined_assoc (some a) none c = refl
    combined_assoc (some a) (some b) none = refl
    combined_assoc (some a) (some b) (some c) = ap some (joined_assoc a b c)

    pub combined_left_comm :
        (a b c : Option (Stats F)) → combined a (combined b c) ≡ combined b (combined a c)
    combined_left_comm a b c =
        sym (combined_assoc a b c)
        ∙ ap (λ d. combined d c) (combined_comm a b)
        ∙ combined_assoc b a c

    -- (a + b) + (c + d) = (a + c) + (b + d)
    pub combined_swap :
        (a b c d : Option (Stats F))
        → combined (combined a b) (combined c d) ≡ combined (combined a c) (combined b d)
    combined_swap a b c d =
        combined_assoc a b (combined c d)
        ∙ ap (combined a) (
            sym (combined_assoc b c d)
            ∙ ap (λ e. combined e d) (combined_comm b c)
            ∙ combined_assoc c b d)
        ∙ sym (combined_assoc a c (combined b d))

    pub times_add : (j k : ℕ) (s : Stats F) → times (j + k) s ≡ combined (times j s) (times k s)
    unfolding times combined
    times_add zero k s = ap (λ m. times m s) (zero_plus k)
    times_add (suc j) k s =
        ap (λ m. times m s) (suc_plus j k)
        ∙ ap (combined (some s)) (times_add j k s)
        ∙ sym (combined_assoc (some s) (times j s) (times k s))

    module _ {A : Type 0} (s : A → Stats F) where
      pub weigh_add :
          (v w : A → ℕ) (xs : List A)
          → weigh (λ a. v a + w a) s xs ≡ combined (weigh v s xs) (weigh w s xs)
      unfolding weigh combined
      weigh_add v w [] = refl
      weigh_add v w (a ∷ xs) =
          ap₂ combined (times_add (v a) (w a) (s a)) (weigh_add v w xs)
          ∙ combined_swap (times (v a) (s a)) (times (w a) (s a)) (weigh v s xs) (weigh w s xs)

      pub weigh-append :
          (w : A → ℕ) (xs ys : List A)
          → weigh w s (xs ++ ys) ≡ combined (weigh w s xs) (weigh w s ys)
      unfolding weigh combined
      weigh-append w [] ys = refl
      weigh-append w (a ∷ xs) ys =
          ap (combined (times (w a) (s a))) (weigh-append w xs ys)
          ∙ sym (combined_assoc (times (w a) (s a)) (weigh w s xs) (weigh w s ys))
