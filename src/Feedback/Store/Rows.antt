-- ===== src/Feedback/Store/Rows.antt =====
-- feedback_service/store.py: what holds of every row of a table.
use discord_stoat_ferry.Prelude.{
  ℕ, ◌+◌, ◌≡◌, ◌≢◌, subst, String, str_eq, Option, none, some, [], ◌∷◌, arith, Bool-cases, inl, inr,
  leb,
}
use discord_stoat_ferry.Prelude.Dict
use discord_stoat_ferry.Prelude.Dict.{Dict}
use discord_stoat_ferry.Feedback.Receipts.{
  ReceiptState, pending, delivered, failed, absent, ReceiptRecord, receipt_retention, unexpired,
}
use discord_stoat_ferry.Feedback.Store.{
  Contact, Store, contact_retention, unexpired_contacts, cleanup,
}

-- Every row of a table.
abbrev pub Rows {ℓ} : {V : Type ℓ} → (V → Type 0) → Dict V → Type 0
Rows P [] = Unit {0}
Rows P ((id, row) ∷ table) = P row × Rows P table

module _ {ℓ} {V : Type ℓ} (P : V → Type 0) where
  pub Rows-put :
      (id : String) (row : V) (table : Dict V)
      → P row
      → Rows P table
      → Rows P (Dict.put table id row)
  unfolding Dict.put
  Rows-put id row [] p rows = (p, tt)
  Rows-put id row ((other, old) ∷ table) p rows = elim (Bool-cases (str_eq other id)) [
    | inl same ↦ rw same (p, rows.1)
    | inr more ↦ rw more (rows.0, Rows-put id row table p rows.1)
  ]

  pub Rows-remove : (id : String) (table : Dict V) → Rows P table → Rows P (Dict.remove table id)
  unfolding Dict.remove
  Rows-remove id [] rows = tt
  Rows-remove id ((other, row) ∷ table) rows = elim (Bool-cases (str_eq other id)) [
    | inl same ↦ rw same (Rows-remove id table rows.1)
    | inr more ↦ rw more (rows.0, Rows-remove id table rows.1)
  ]

  pub Rows-get :
      (id : String) (row : V) (table : Dict V) → Rows P table → Dict.get table id ≡ some row → P row
  unfolding Dict.get
  Rows-get id row [] rows h = cc
  Rows-get id row ((other, old) ∷ table) rows h = elim (Bool-cases (str_eq other id)) [
    | inl same ↦ let found : old ≡ row = ground arith in subst P found rows.0
    | inr more ↦ Rows-get id row table rows.1 (ground arith)
  ]

-- A receipt has a destination exactly if it is delivered, and an audit only once it is settled.
abbrev pub Fits : ReceiptState → Option String → Option ℕ → Type 0
Fits delivered url audit = url ≢ none
Fits pending url audit = (url ≡ none) × (audit ≡ none)
Fits failed url audit = url ≡ none
Fits absent url audit = url ≡ none

pub record IsConsistent (receipt : ReceiptRecord) : Type 0 where
  pub fits : Fits receipt.state receipt.destination_url receipt.audit_at
  pub retention : receipt.expires_at ≡ receipt.created_at + receipt_retention

abbrev pub IsKept : Contact → Type 0
IsKept contact = contact.expires_at ≡ contact.created_at + contact_retention

pub record IsSound (store : Store) : Type 0 where
  pub receipts : Rows IsConsistent store.receipts
  pub contacts : Rows IsKept store.contacts

pub Rows-unexpired :
    (now : ℕ) (table : Dict ReceiptRecord)
    → Rows IsConsistent table
    → Rows IsConsistent (unexpired now table)
unfolding unexpired
Rows-unexpired now [] rows = tt
Rows-unexpired now ((id, receipt) ∷ table) rows = elim (Bool-cases (leb receipt.expires_at now)) [
  | inl over ↦ rw over (Rows-unexpired now table rows.1)
  | inr live ↦ rw live (rows.0, Rows-unexpired now table rows.1)
]

pub Rows-unexpired_contacts :
    (now : ℕ) (table : Dict Contact)
    → Rows IsKept table
    → Rows IsKept (unexpired_contacts now table)
unfolding unexpired_contacts
Rows-unexpired_contacts now [] rows = tt
Rows-unexpired_contacts now ((id, contact) ∷ table) rows =
    elim (Bool-cases (leb contact.expires_at now)) [
      | inl over ↦ rw over (Rows-unexpired_contacts now table rows.1)
      | inr live ↦ rw live (rows.0, Rows-unexpired_contacts now table rows.1)
    ]

pub cleanup-IsSound : (now : ℕ) (store : Store) → IsSound store → IsSound (cleanup now store)
unfolding cleanup
cleanup-IsSound now store sound = record {
  receipts = Rows-unexpired now store.receipts sound.receipts;
  contacts = Rows-unexpired_contacts now store.contacts sound.contacts;
}
