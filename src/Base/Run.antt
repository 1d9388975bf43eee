-- ===== src/Base/Run.antt =====
-- How a call ends, and total correctness: a call that returns, with a postcondition.
use mathlib.Core.Path.{◌≡◌, refl}
use mathlib.Core.Bool.{Bool, true, false}
use mathlib.Core.Option.{Option, none, some}
use beaveros.Base.Tests.{if◌then◌else◌}

-- An access outside the block that it belongs to, the kernel's PANIC or a failed ASSERT, the
-- model's fuel running out, or a returned value.
pub data Run {ℓ} (V : Type ℓ) : Type ℓ where
  fault panic out_of_fuel : Run V
  ok : V → Run V

infixl 5 ◌>>=◌ ◌>>◌
abbrev pub ◌>>=◌ {ℓ κ} : {V : Type ℓ} {W : Type κ} → Run V → (V → Run W) → Run W
fault >>= rest = fault
panic >>= rest = panic
out_of_fuel >>= rest = out_of_fuel
ok v >>= rest = rest v

abbrev pub ◌>>◌ {ℓ κ} : {V : Type ℓ} {W : Type κ} → Run V → Run W → Run W
call >> rest = call >>= λ _. rest

module _ {ℓ κ} {V : Type ℓ} {W : Type κ} where
  pub bind_assoc {μ} :
      {X : Type μ} (call : Run V) (f : V → Run W) (g : W → Run X)
      → (call >>= f >>= g) ≡ (call >>= λ v. f v >>= g)
  bind_assoc fault f g = refl
  bind_assoc panic f g = refl
  bind_assoc out_of_fuel f g = refl
  bind_assoc (ok v) f g = refl

  pub bind-same :
      (call : Run V) (f g : V → Run W) → ((v : V) → f v ≡ g v) → (call >>= f) ≡ (call >>= g)
  bind-same fault f g same = refl
  bind-same panic f g same = refl
  bind-same out_of_fuel f g same = refl
  bind-same (ok v) f g same = same v

-- A result that is missing where fuel ran out.
abbrev pub in_time {ℓ} : {V : Type ℓ} → Option V → Run V
in_time none = out_of_fuel
in_time (some v) = ok v

-- The call returns a value with the postcondition `Post`.
pub data Returns {ℓ κ} {V : Type ℓ} (Post : V → Type κ) : Run V → Type (ℓ ⊔ κ) where
  returns : {v : V} → Post v → Returns Post (ok v)

module _ {ℓ κ} {V : Type ℓ} {Post : V → Type κ} where
  pub Returns-if :
      {then_call else_call : Run V} (test : Bool)
      → (test ≡ true → Returns Post then_call)
      → (test ≡ false → Returns Post else_call)
      → Returns Post (if test then then_call else else_call)
  Returns-if false holds fails = fails refl
  Returns-if true holds fails = holds refl

  pub Returns-map {κ'} :
      {Weaker : V → Type κ'} {call : Run V}
      → Returns Post call
      → ((v : V) → Post v → Weaker v)
      → Returns Weaker call
  Returns-map (returns post) implies = returns (implies _ post)

  pub Returns-bind {ℓ' κ'} :
      {W : Type ℓ'} {Next : W → Type κ'} {call : Run V} {rest : V → Run W}
      → Returns Post call
      → ((v : V) → Post v → Returns Next (rest v))
      → Returns Next (call >>= rest)
  Returns-bind (returns post) after = after _ post

  -- What a returned value is known by.
  pub Returns-value : {v : V} → Returns Post (ok v) → Post v
  Returns-value (returns post) = post

-- If the call returns, its value has the property.
pub data Ensures {ℓ κ} {V : Type ℓ} (Post : V → Type κ) : Run V → Type (ℓ ⊔ κ) where
  ensures : {v : V} → Post v → Ensures Post (ok v)
  in_fault : Ensures Post fault
  in_panic : Ensures Post panic
  no_end : Ensures Post out_of_fuel

module _ {ℓ κ} {V : Type ℓ} {Post : V → Type κ} where
  pub Ensures-bind {ℓ' κ'} :
      {W : Type ℓ'} {Next : W → Type κ'} {call : Run V} {rest : V → Run W}
      → Ensures Post call
      → ((v : V) → Post v → Ensures Next (rest v))
      → Ensures Next (call >>= rest)
  Ensures-bind (ensures p) after = after _ p
  Ensures-bind in_fault after = in_fault
  Ensures-bind in_panic after = in_panic
  Ensures-bind no_end after = no_end

  pub Ensures-map {κ'} :
      {Weaker : V → Type κ'} {call : Run V}
      → Ensures Post call
      → ((v : V) → Post v → Weaker v)
      → Ensures Weaker call
  Ensures-map (ensures p) implies = ensures (implies _ p)
  Ensures-map in_fault implies = in_fault
  Ensures-map in_panic implies = in_panic
  Ensures-map no_end implies = no_end

  pub Ensures-if :
      {x y : Run V} (test : Bool)
      → (test ≡ true → Ensures Post x)
      → (test ≡ false → Ensures Post y)
      → Ensures Post (if test then x else y)
  Ensures-if true holds fails = holds refl
  Ensures-if false holds fails = fails refl

  pub Ensures-value : {v : V} → Ensures Post (ok v) → Post v
  Ensures-value (ensures p) = p

pub Ensures-any {ℓ} : {V : Type ℓ} (call : Run V) → Ensures (λ v. Unit {0}) call
Ensures-any fault = in_fault
Ensures-any panic = in_panic
Ensures-any out_of_fuel = no_end
Ensures-any (ok v) = ensures tt
