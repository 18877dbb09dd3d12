-- ===== src/Delivery/Safety/Rules.antt =====
-- Reasoning about code that may raise: what holds after a value, and what holds after an error.
use discord_stoat_ferry.Prelude.Result.{Result, ok, err}
use discord_stoat_ferry.Prelude.{Bool, true, false, ◌≡◌, refl}
use discord_stoat_ferry.Delivery.Receipt.{DeliveryError}
use discord_stoat_ferry.Delivery.Exec.{World, Exec, continue, lift, raise_when}

module _ {A : Type 0} where
  abbrev pub Post :
      (A → World → Type 0) → (World → Type 0) → Result DeliveryError A × World → Type 0
  Post Q E (ok a, w) = Q a w
  Post Q E (err e, w) = E w

  pub lift-Post :
      (Q : A → World → Type 0) (E : World → Type 0) (r : Result DeliveryError A) (w : World)
      → ((a : A) → r ≡ ok a → Q a w)
      → E w
      → Post Q E (lift r w)
  lift-Post Q E (ok a) w q e = q a refl
  lift-Post Q E (err x) w q e = e

module _ {A B : Type 0} where
  pub continue-Post :
      (Q : A → World → Type 0) (R : B → World → Type 0) (E : World → Type 0) (f : A → Exec B)
      (r : Result DeliveryError A × World)
      → Post Q E r
      → ((a : A) (w : World) → Q a w → Post R E (f a w))
      → Post R E (continue f r)
  continue-Post Q R E f (ok a, w) p next = next a w p
  continue-Post Q R E f (err e, w) p next = p

pub raise_when-Post :
    (Q : Unit {0} → World → Type 0) (E : World → Type 0) (b : Bool) (e : DeliveryError) (w : World)
    → (b ≡ false → Q tt w)
    → E w
    → Post Q E (raise_when b e w)
raise_when-Post Q E true e w q x = x
raise_when-Post Q E false e w q x = q refl

module _ {A : Type 0} where
  pub Post-map :
      (Q R : A → World → Type 0) (E F : World → Type 0) (r : Result DeliveryError A × World)
      → Post Q E r
      → ((a : A) (w : World) → Q a w → R a w)
      → ((w : World) → E w → F w)
      → Post R F r
  Post-map Q R E F (ok a, w) p f g = f a w p
  Post-map Q R E F (err e, w) p f g = g w p
