-- ===== src/Base/Exec/Rules.antt =====
-- Claims about calls that follow the code: such a claim holds of a body where it holds of the calls
-- that the body makes.
use mathlib.Core.Path.{fun_ext, subst}
use overlay_s.Base.Exec.{
  Error, Exec, Outcome, continue, err, handle, no_return, ok, pure, raise, try_call, ◌>>=◌,
}
use overlay_s.Base.Tests.{Bool, arith, false, if◌then◌else◌, refl, true, ◌≡◌, ◌≢◌}

-- A claim about calls, whatever they return
abbrev pub Claim : Type 0 → Type 1
Claim W = (A : Type 0) → Exec W A → Type 0

-- The claim holds of a call that reads the world and returns or fails, and follows sequences of calls.
pub record Follows {W : Type 0} (K : Claim W) : Type 1 where
  pub returns : (A : Type 0) (f : W → A) → K A (λ w. (ok (f w), w))
  pub fails : (A : Type 0) (e : Error) → K A (raise e)
  pub behind :
      (A B : Type 0) (m : Exec W A) (f : A → Exec W B) (g : Error → Exec W B)
      → K A m
      → ((a : A) → K B (f a))
      → ((e : Error) → K B (g e))
      → K B (try_call m f g)

-- What `continue` does is what `try_call` does with an error that is raised again.
continue-try :
    {W A B : Type 0} (o : Outcome A) (f : A → Exec W B) (w : W)
    → handle o f raise w ≡ continue o f w
continue-try (ok a) f w = refl
continue-try (err e) f w = refl
continue-try no_return f w = refl

module _ {W : Type 0} {K : Claim W} (k : Follows K) where
  pub pure-Follows : {A : Type 0} (a : A) → K A (pure a)
  pure-Follows a = k.returns _ (λ w. a)

  pub raise-Follows : {A : Type 0} (e : Error) → K A (raise e)
  raise-Follows e = k.fails _ e

  pub try-Follows :
      {A B : Type 0} (m : Exec W A) (f : A → Exec W B) (g : Error → Exec W B)
      → K A m
      → ((a : A) → K B (f a))
      → ((e : Error) → K B (g e))
      → K B (try_call m f g)
  try-Follows m f g = k.behind _ _ m f g

  -- A call whose error is passed on, changed or not
  pub mapped-Follows :
      {A B : Type 0} (m : Exec W A) (f : A → Exec W B) (g : Error → Error)
      → K A m
      → ((a : A) → K B (f a))
      → K B (try_call m f (λ e. raise (g e)))
  mapped-Follows m f g km kf = k.behind _ _ m f _ km kf (λ e. k.fails _ (g e))

  pub bind-Follows :
      {A B : Type 0} (m : Exec W A) (f : A → Exec W B)
      → K A m
      → ((a : A) → K B (f a))
      → K B (m >>= f)
  bind-Follows {A} {B} m f km kf =
      subst (K B) (fun_ext λ w. continue-try (m w).0 f (m w).1)
        (k.behind _ _ m f raise km kf (λ e. k.fails _ e))

  pub if-Follows :
      {A : Type 0} (b : Bool) (m n : Exec W A) → K A m → K A n → K A (if b then m else n)
  if-Follows true m n km kn = km
  if-Follows false m n km kn = kn

  -- A value that was found without the world
  pub continue-Follows :
      {A B : Type 0} (o : Outcome A) (f : A → Exec W B)
      → o ≢ no_return
      → ((a : A) → K B (f a))
      → K B (continue o f)
  continue-Follows (ok a) f h kf = kf a
  continue-Follows (err e) f h kf = k.fails _ e
  continue-Follows no_return f h kf = absurd (h refl)

-- The call keeps the predicate, whatever it returns.
pub record Keeps {ℓ} {W : Type 0} {A : Type ℓ} (P : W → Type 0) (m : Exec W A) : Type ℓ where
  pub at : (w : W) → P w → P (m w).1

abbrev pub Keeping : {W : Type 0} → (W → Type 0) → Claim W
Keeping P A m = Keeps P m

module _ {W : Type 0} (P : W → Type 0) where
  Keeps-handle :
      {A B : Type 0} (r : Outcome A) (f : A → Exec W B) (g : Error → Exec W B)
      → ((a : A) → Keeps P (f a))
      → ((e : Error) → Keeps P (g e))
      → Keeps P (handle r f g)
  Keeps-handle (ok a) f g kf kg = kf a
  Keeps-handle (err e) f g kf kg = kg e
  Keeps-handle no_return f g kf kg = record { at = λ w h. h }

  pub Keeping-Follows : Follows (Keeping P)
  Keeping-Follows = record {
    returns = λ A f. record { at = λ w h. h };
    fails = λ A e. record { at = λ w h. h };
    behind = λ A B m f g km kf kg. record {
      at = λ w h. (Keeps-handle (m w).0 f g kf kg).at (m w).1 (km.at w h);
    };
  }

-- The call comes to an end, with a result or an error.
pub record Ends {W : Type 0} {A : Type 0} (m : Exec W A) : Type 0 where
  pub ends : (w : W) → (m w).0 ≢ no_return

abbrev pub Ending : {W : Type 0} → Claim W
Ending A m = Ends m

module _ {W : Type 0} where
  handle-Ends :
      {A B : Type 0} (r : Outcome A) (f : A → Exec W B) (g : Error → Exec W B)
      → r ≢ no_return
      → ((a : A) → Ends (f a))
      → ((e : Error) → Ends (g e))
      → Ends (handle r f g)
  handle-Ends (ok a) f g h kf kg = kf a
  handle-Ends (err e) f g h kf kg = kg e
  handle-Ends no_return f g h kf kg = absurd (h refl)

  pub Ending-Follows : Follows (Ending {W = W})
  Ending-Follows = record {
    returns = λ A f. record { ends = λ w h. ground arith };
    fails = λ A e. record { ends = λ w h. ground arith };
    behind = λ A B m f g km kf kg. record {
      ends = λ w. (handle-Ends (m w).0 f g (km.ends w) kf kg).ends (m w).1;
    };
  }
