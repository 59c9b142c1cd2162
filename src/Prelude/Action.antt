-- ===== src/Prelude/Action.antt =====
-- Calls that change the world and may fail: `async fn` of a client returning a `Result`, with `?` as
-- bind. What was done before a failure stays done.
use mathlib.Core.Path.{◌≡◌, refl}
use inference_data_plane.Prelude.Outcome.{Result, ok, err}

abbrev pub Action : Type 0 → Type 0 → Type 0 → Type 0
Action W E A = W → Result E A × W

module _ {W E A : Type 0} where
  abbrev pub pure : A → Action W E A
  pure a w = (ok a, w)

  abbrev pub raise : E → Action W E A
  raise e w = (err e, w)

  -- A call of a function that changes nothing.
  abbrev pub lift : Result E A → Action W E A
  lift r w = (r, w)

module _ {W E A B : Type 0} where
  infixl 5 ◌>>=◌ ◌>>◌
  abbrev pub continue : (A → Action W E B) → Result E A × W → Result E B × W
  continue f (ok a, w) = f a w
  continue f (err e, w) = (err e, w)

  abbrev pub ◌>>=◌ : Action W E A → (A → Action W E B) → Action W E B
  ◌>>=◌ m f w = continue f (m w)

  abbrev pub ◌>>◌ : Action W E A → Action W E B → Action W E B
  m >> k = m >>= λ _. k

module _ {W E A B C : Type 0} (f : A → Action W E B) (g : B → Action W E C) where
  continue-continue : (s : Result E A × W) → continue g (continue f s) ≡ continue (λ a. f a >>= g) s
  continue-continue (ok a, w) = refl
  continue-continue (err e, w) = refl

  pub bind_assoc : (m : Action W E A) (w : W) → (m >>= f >>= g) w ≡ (m >>= λ a. f a >>= g) w
  bind_assoc m w = continue-continue (m w)

module _ {W E A B : Type 0} where
  pub continue-ext :
      (f g : A → Action W E B)
      → ((a : A) (w : W) → f a w ≡ g a w)
      → (s : Result E A × W) → continue f s ≡ continue g s
  continue-ext f g h (ok a, w) = h a w
  continue-ext f g h (err e, w) = refl

module _ {W E A B : Type 0} (f : A → Action W E B) where
  continue-eq-ok :
      (s : Result E A × W) (b : B) (v : W)
      → continue f s ≡ (ok b, v)
      → (a : A) × (u : W) × (s ≡ (ok a, u)) × (f a u ≡ (ok b, v))
  continue-eq-ok (ok a, u) b v h = (a, u, refl, h)
  continue-eq-ok (err e, u) b v h = cc

  -- A chain that returns has returned at each of its parts.
  pub bind-eq-ok :
      (m : Action W E A) (w v : W) (b : B)
      → (m >>= f) w ≡ (ok b, v)
      → (a : A) × (u : W) × (m w ≡ (ok a, u)) × (f a u ≡ (ok b, v))
  bind-eq-ok m w v b h = continue-eq-ok (m w) b v h
