-- ===== src/Netcfg/Exec.antt =====
-- Methods that change a state and may fail. What was changed before an error stays changed, so the
-- state comes back beside the error too.
use kwrt_net_manager.Prelude.{◌≡◌, ap}
use kwrt_net_manager.Netcfg.Result.{Err, Result, ok, err}

abbrev pub Exec : Type 0 → Type 0 → Type 0
Exec S A = S → Result A × S

module _ {S A : Type 0} where
  abbrev pub pure : A → Exec S A
  pure a s = (ok a, s)

  abbrev pub raise : Err → Exec S A
  raise e s = (err e, s)

  abbrev pub lift : Result A → Exec S A
  lift r s = (r, s)

  -- The error of a call as a value, for callers that look at it and go on.
  abbrev pub attempt : Exec S A → Exec S (Result A)
  attempt m s = let (r, s') = m s in (ok r, s')

module _ {S A B : Type 0} where
  abbrev continue : Result A → (A → Exec S B) → Exec S B
  continue (ok a) f s = f a s
  continue (err e) f s = (err e, s)

  infixl 5 ◌>>=◌
  abbrev pub ◌>>=◌ : Exec S A → (A → Exec S B) → Exec S B
  ◌>>=◌ m f s = let (r, s') = m s in continue r f s'

module _ {S B : Type 0} where
  infixl 5 ◌>>◌
  abbrev pub ◌>>◌ : Exec S (Unit {0}) → Exec S B → Exec S B
  m >> k = m >>= λ _. k

module _ {S A B : Type 0} where
  continue-ok :
      (r : Result A) (s : S) (f : A → Exec S B) (a : A) → r ≡ ok a → continue r f s ≡ f a s
  continue-ok r s f a e = ap (λ q. continue q f s) e

  continue-err :
      (r : Result A) (s : S) (f : A → Exec S B) (e : Err) → r ≡ err e → continue r f s ≡ (err e, s)
  continue-err r s f e h = ap (λ q. continue q f s) h

  -- A block goes on behind a call that succeeds, and ends at one that fails.
  pub bind-ok :
      (m : Exec S A) (f : A → Exec S B) (s : S) (a : A) → (m s).0 ≡ ok a → (m >>= f) s ≡ f a (m s).1
  bind-ok m f s a e = continue-ok (m s).0 (m s).1 f a e

  pub bind-err :
      (m : Exec S A) (f : A → Exec S B) (s : S) (e : Err)
      → (m s).0 ≡ err e
      → (m >>= f) s ≡ (err e, (m s).1)
  bind-err m f s e h = continue-err (m s).0 (m s).1 f e h
