-- ===== src/Prelude/Result.antt =====
-- Code that may raise: a pure function returns a `Result`; a method that changes an object and may
-- raise is an `Exec`, whose state comes back beside the error too, since what was written before a
-- raise stays written.
use mathlib.Core.Bool.{Bool, true, false}

pub data Result {ℓ} (E : Type 0) (A : Type ℓ) : Type ℓ where
  ok : A → Result E A
  err : E → Result E A

abbrev pub succeeds {ℓ} : {E : Type 0} {A : Type ℓ} → Result E A → Bool
succeeds (ok a) = true
succeeds (err e) = false

abbrev pub Exec : Type 0 → Type 0 → Type 0 → Type 0
Exec E S A = S → Result E A × S

module _ {E S A B : Type 0} where
  abbrev pub continue : Result E A → (A → Exec E S B) → Exec E S B
  continue (ok a) f s = f a s
  continue (err e) f s = (err e, s)

  infixl 5 ◌>>=◌ ◌>>◌
  unfoldable pub ◌>>=◌ : Exec E S A → (A → Exec E S B) → Exec E S B
  ◌>>=◌ m f s = let (r, s') = m s in continue r f s'

  abbrev pub ◌>>◌ : Exec E S A → Exec E S B → Exec E S B
  m >> n = m >>= λ _. n

module _ {E S A : Type 0} where
  abbrev pub pure : A → Exec E S A
  pure a s = (ok a, s)

  abbrev pub raise : E → Exec E S A
  raise e s = (err e, s)

  abbrev pub gets : (S → A) → Exec E S A
  gets f s = (ok (f s), s)

module _ {E S : Type 0} where
  abbrev pub modify : (S → S) → Exec E S (Unit {0})
  modify f s = (ok tt, f s)

-- `m` keeps `P`, whether it returns or raises.
module _ {E S A : Type 0} where
  abbrev pub Keeps : (S → Type 0) → Exec E S A → Type 0
  Keeps P m = (s : S) → P s → P (m s).1

module _ {E S A B : Type 0} {P : S → Type 0} where
  Keeps-continue :
      (r : Result E A) (f : A → Exec E S B) → ((a : A) → Keeps P (f a)) → Keeps P (continue r f)
  Keeps-continue (ok a) f kf = kf a
  Keeps-continue (err e) f kf = λ s h. h

  pub Keeps-bind :
      (m : Exec E S A) (f : A → Exec E S B)
      → Keeps P m
      → ((a : A) → Keeps P (f a))
      → Keeps P (m >>= f)
  unfolding ◌>>=◌
  Keeps-bind m f km kf = λ s h. let (r, s') = m s in Keeps-continue r f kf s' (km s h)

-- `m` leads from `s` into `P`, and what follows it, or the error, from `P` into `Q`.
module _ {E S A B : Type 0} {P Q : S → Type 0} where
  continue-lands :
      (r : Result E A) (f : A → Exec E S B) (s : S)
      → P s
      → ((a : A) (s' : S) → P s' → Q (f a s').1)
      → ((s' : S) → P s' → Q s')
      → Q (continue r f s).1
  continue-lands (ok a) f s h go stop = go a s h
  continue-lands (err e) f s h go stop = stop s h

  pub bind-lands :
      (m : Exec E S A) (f : A → Exec E S B) (s : S)
      → P (m s).1
      → ((a : A) (s' : S) → P s' → Q (f a s').1)
      → ((s' : S) → P s' → Q s')
      → Q ((m >>= f) s).1
  unfolding ◌>>=◌
  bind-lands m f s h go stop = let (r, s') = m s in continue-lands r f s' h go stop

-- `m` leads from `s` into `P`, and what follows it from `P` into `G`, which errors are in.
module _ {E S A B : Type 0} {P : S → Type 0} (G : Result E B × S → Type 0) where
  continue-ends :
      (r : Result E A) (f : A → Exec E S B) (s : S)
      → P s
      → ((a : A) (s' : S) → P s' → G (f a s'))
      → ((e : E) (s' : S) → G (err e, s'))
      → G (continue r f s)
  continue-ends (ok a) f s h go stop = go a s h
  continue-ends (err e) f s h go stop = stop e s

  pub bind-ends :
      (m : Exec E S A) (f : A → Exec E S B) (s : S)
      → P (m s).1
      → ((a : A) (s' : S) → P s' → G (f a s'))
      → ((e : E) (s' : S) → G (err e, s'))
      → G ((m >>= f) s)
  unfolding ◌>>=◌
  bind-ends m f s h go stop = let (r, s') = m s in continue-ends r f s' h go stop
