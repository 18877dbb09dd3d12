-- ===== src/Feedback/Store/Contacts.antt =====
-- feedback_service/store.py: a contact is read back as it was stored, until it expires or is deleted.
use discord_stoat_ferry.Prelude.{
  ℕ, ◌+◌, ◌<◌, ◌≡◌, refl, sym, ap, ◌∙◌, String, str_eq, eq_iff, false, none, some, [], ◌∷◌, arith,
  Bool-cases, inl, inr,
}
use discord_stoat_ferry.Prelude.Result.{ok}
use discord_stoat_ferry.Prelude.Dict
use discord_stoat_ferry.Prelude.Dict.{Dict, get-remove}
use discord_stoat_ferry.Feedback.Store.{
  Contact, Store, contact_retention, unexpired_contacts, cleanup,
}
use discord_stoat_ferry.Feedback.Store.Sealed.{
  Cipher, store_ciphertext, ciphertext_of, get_ciphertext, delete_contact, store_contact,
  decrypt_with, read_plain, get_contact,
}

module _ (now : ℕ) (id : String) (contact : Contact) where
  get-unexpired-put :
      (table : Dict Contact)
      → now < contact.expires_at
      → Dict.get (unexpired_contacts now (Dict.put table id contact)) id ≡ some contact
  unfolding Dict.get Dict.put unexpired_contacts
  get-unexpired-put [] live = ground (arith, eq_iff id id)
  get-unexpired-put ((other, old) ∷ table) live = elim (Bool-cases (str_eq other id)) [
    | inl same ↦ ground (arith, eq_iff other id)
    | inr more ↦ rw more (ground (arith, get-unexpired-put table live))
  ]

  get-unexpired-put_other :
      (table : Dict Contact) (key : String)
      → str_eq id key ≡ false
      → Dict.get (unexpired_contacts now (Dict.put table id contact)) key
        ≡ Dict.get (unexpired_contacts now table) key
  unfolding Dict.get Dict.put unexpired_contacts
  get-unexpired-put_other [] key differs = ground (arith)
  get-unexpired-put_other ((other, old) ∷ table) key differs = elim (Bool-cases (str_eq other id)) [
    | inl same ↦ ground (arith, eq_iff other id, eq_iff other key, eq_iff id key)
    | inr more ↦ rw more (ground (arith, get-unexpired-put_other table key differs))
  ]

get-unexpired_none :
    (now : ℕ) (id : String) (table : Dict Contact)
    → Dict.get table id ≡ none
    → Dict.get (unexpired_contacts now table) id ≡ none
unfolding Dict.get unexpired_contacts
get-unexpired_none now id [] h = refl
get-unexpired_none now id ((other, contact) ∷ table) h =
    ground (arith, get-unexpired_none now id table)

-- A contact is kept for thirty days and under its receipt only. With an encryption that can be
-- decrypted, an email that is stored is read back at any later time before its retention is over; the
-- contacts of other receipts are read as before; and once it is deleted nothing is read.
pub get_contact-store_contact :
    (cipher : Cipher) (id email : String) (now later : ℕ) (store after : Store)
    → ((text : String) → cipher.decrypt (cipher.encrypt text) ≡ some text)
    → later < now + contact_retention
    → store_contact (some cipher) id (some email) now store ≡ ok after
    → ((get_contact (some cipher) id later after).0 ≡ ok (some email))
      × ((other : String)
          → str_eq id other ≡ false
          → (get_contact (some cipher) other later after).0
            ≡ (get_contact (some cipher) other later (cleanup now store)).0)
      × ((get_contact (some cipher) id later (delete_contact id after).1).0 ≡ ok none)
unfolding get_contact get_ciphertext store_contact store_ciphertext delete_contact cleanup
get_contact-store_contact cipher id email now later store after inverse live h =
    let contact : Contact = record {
      ciphertext = cipher.encrypt email;
      created_at = now;
      expires_at = now + contact_retention;
    } in
    let table = unexpired_contacts now store.contacts in
    let stored : Dict.put table id contact ≡ after.contacts = ground arith in
    let reading = λ (key : String) (contacts : Dict Contact).
      decrypt_with (some cipher)
        (ciphertext_of (Dict.get (unexpired_contacts later contacts) key)) in
    (
      ap (reading id) (sym stored)
          ∙ ap (λ c. decrypt_with (some cipher) (ciphertext_of c))
              (get-unexpired-put later id contact table live)
          ∙ ap read_plain (inverse email),
      λ other differs.
          ap (reading other) (sym stored)
          ∙ ap (λ c. decrypt_with (some cipher) (ciphertext_of c))
              (get-unexpired-put_other later id contact table other differs),
      ap (λ c. decrypt_with (some cipher) (ciphertext_of c))
          (get-unexpired_none later id (Dict.remove after.contacts id)
            (get-remove id id after.contacts ∙ ground (arith, eq_iff id id))),
    )
