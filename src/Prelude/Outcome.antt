-- ===== src/Prelude/Outcome.antt =====
-- How a Rust call ends: with a value, with an error that the caller sees, or with a panic.
use mathlib.Core.Path.{◌≡◌, refl}
use mathlib.Core.Bool.{Bool, true, false}
use mathlib.Core.Option.{Option, none, some}

pub data Outcome (E : Type 0) (A : Type 0) : Type 0 where
  ok : A → Outcome E A
  err : E → Outcome E A
  panic : Outcome E A

-- `?` on a call: errors and panics end the caller too.
infixl 5 ◌>>=◌ ◌>>◌
abbrev pub ◌>>=◌ : {E A B : Type 0} → Outcome E A → (A → Outcome E B) → Outcome E B
ok a >>= f = f a
err e >>= f = err e
panic >>= f = panic

abbrev pub ◌>>◌ : {E B : Type 0} → Outcome E (Unit {0}) → Outcome E B → Outcome E B
m >> k = m >>= λ _. k

-- `if test { return Err(e) }`
abbrev pub err_if : {E : Type 0} → Bool → E → Outcome E (Unit {0})
err_if true e = err e
err_if false e = ok tt

-- `assert!(test)`
abbrev pub assert : {E : Type 0} → Bool → Outcome E (Unit {0})
assert true = ok tt
assert false = panic

abbrev pub ok_or : {E A : Type 0} → Option A → E → Outcome E A
ok_or (some a) e = ok a
ok_or none e = err e

-- `.expect(…)` and `.unwrap()` on an option.
abbrev pub expect : {E A : Type 0} → Option A → Outcome E A
expect (some a) = ok a
expect none = panic

-- `.map_err(f)`
abbrev pub map_err : {E F A : Type 0} → (E → F) → Outcome E A → Outcome F A
map_err f (ok a) = ok a
map_err f (err e) = err (f e)
map_err f panic = panic

pub >>=-eq-ok :
    {E A B : Type 0} (call : Outcome E A) (next : A → Outcome E B) {value : B}
    → (call >>= next) ≡ ok value
    → (first : A) × (call ≡ ok first) × (next first ≡ ok value)
>>=-eq-ok (err e) next h = cc
>>=-eq-ok panic next h = cc
>>=-eq-ok (ok first) next h = (first, refl, h)

pub eq-ok_of_map_err :
    {E F A : Type 0} (f : E → F) (m : Outcome E A) {a : A} → map_err f m ≡ ok a → m ≡ ok a
eq-ok_of_map_err f (ok a) h = cc
eq-ok_of_map_err f (err e) h = cc
eq-ok_of_map_err f panic h = cc

pub eq-some_of_ok_or : {E A : Type 0} (o : Option A) (e : E) {a : A} → ok_or o e ≡ ok a → o ≡ some a
eq-some_of_ok_or (some a) e h = cc
eq-some_of_ok_or none e h = cc

-- What follows a test that is passed.
pub passed :
    {E A : Type 0} (test : Bool) (e : E) (m : Outcome E A) {a : A}
    → (err_if test e >> m) ≡ ok a
    → (test ≡ false) × (m ≡ ok a)
passed true e m h = cc
passed false e m h = (refl, h)

-- `.unwrap()` on a result.
abbrev pub unwrap : {E F A : Type 0} → Outcome E A → Outcome F A
unwrap (ok a) = ok a
unwrap (err e) = panic
unwrap panic = panic
