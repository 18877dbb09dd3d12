-- ===== src/Delivery/Exec.antt =====
-- The state that delivery reads and writes: the receipt files, the keys prepared by this session,
-- and the record of what was sent. What was written before a raise stays written.
use discord_stoat_ferry.Prelude.{String, Bool, Option, List, if◌then◌else◌}
use discord_stoat_ferry.Prelude.Result.{Result, ok, err}
use discord_stoat_ferry.Prelude.Dict.{Dict}
use discord_stoat_ferry.Delivery.Receipt.{DeliveryReceipt, DeliveryError}

-- The calls of the permission runtime and of the transport. A request names its key, and what the
-- receipt file held when it was sent.
pub data Event : Type 0 where
  note_write note_write_rejected note_write_confirmed : Event
  sent : String → Option DeliveryReceipt → Event

pub record World : Type 0 where
  pub disk : Dict DeliveryReceipt
  pub fresh : List String
  pub log : List Event
  pub faults : List Bool

abbrev pub Exec : Type 0 → Type 0
Exec A = World → Result DeliveryError A × World

module _ {A : Type 0} where
  abbrev pub pure : A → Exec A
  pure a w = (ok a, w)

  abbrev pub lift : Result DeliveryError A → Exec A
  lift r w = (r, w)

  abbrev pub raise : DeliveryError → Exec A
  raise e w = (err e, w)

  abbrev pub gets : (World → A) → Exec A
  gets f w = (ok (f w), w)

abbrev pub raise_when : Bool → DeliveryError → Exec (Unit {0})
raise_when b e w = ((if b then err e else ok tt), w)

abbrev pub modify : (World → World) → Exec (Unit {0})
modify f w = (ok tt, f w)

module _ {A B : Type 0} where
  abbrev pub continue :
      (A → Exec B) → Result DeliveryError A × World → Result DeliveryError B × World
  continue f (ok a, w) = f a w
  continue f (err e, w) = (err e, w)

infixl 5 ◌>>=◌ ◌>>◌
abbrev pub ◌>>=◌ : {A B : Type 0} → Exec A → (A → Exec B) → Exec B
◌>>=◌ m f w = continue f (m w)

abbrev pub ◌>>◌ : {B : Type 0} → Exec (Unit {0}) → Exec B → Exec B
◌>>◌ m k w = continue (λ _. k) (m w)
