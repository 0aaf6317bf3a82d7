-- ===== src/Prelude/Results.antt =====
-- Predicates on the result of a call that may have none.
use mathlib.Core.Path.{◌≡◌, subst}
use mathlib.Core.Bool.{Bool, true, false}
use mathlib.Core.Option.{Option, none, some}

-- A predicate on a result, if there is one.
abbrev pub Each {ℓ} : {A : Type ℓ} → Option A → (A → Type 0) → Type 0
Each none P = Unit
Each (some a) P = P a

pub Each-map :
    {A : Type 0} {P Q : A → Type 0} (o : Option A) → ((a : A) → P a → Q a) → Each o P → Each o Q
Each-map none f h = tt
Each-map (some a) f h = f a h

pub Each-at : {A : Type 0} (P : A → Type 0) (o : Option A) (a : A) → Each o P → o ≡ some a → P a
Each-at P o a h e = subst (λ x. Each x P) e h

pub Each-bind :
    {A B : Type 0} {P : A → Type 0} (o : Option A) (f : A → Option B) (Q : B → Type 0)
    → Each o P
    → ((a : A) → P a → Each (f a) Q)
    → Each (elim o [ none ↦ none | some a ↦ f a ]) Q
Each-bind none f Q h next = tt
Each-bind (some a) f Q h next = next a h

pub Each-cond :
    {B : Type 0} (Q : B → Type 0) (b : Bool) (x y : Option B)
    → Each x Q
    → Each y Q
    → Each (elim b [ true ↦ x | false ↦ y ]) Q
Each-cond Q true x y p q = p
Each-cond Q false x y p q = q
