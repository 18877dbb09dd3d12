-- ===== src/Feedback/Store/Tests.antt =====
-- The theorems on the whole store at concrete inputs.
use discord_stoat_ferry.Prelude.{◌≡◌, ◌+◌, refl, String, str_eq, false, none, some, [], ◌∷◌, arith}
use discord_stoat_ferry.Prelude.Result.{ok}
use discord_stoat_ferry.Prelude.Dict
use discord_stoat_ferry.Feedback.Receipts.{issue, claim_receipt, unexpired}
use discord_stoat_ferry.Feedback.Quota.{claim_report_quota, cleanup_expired}
use discord_stoat_ferry.Feedback.Store.{
  Store, admit, cleanup, unexpired_contacts, contact_retention,
}
use discord_stoat_ferry.Feedback.Store.Sealed.{
  Cipher, store_contact, store_ciphertext, get_contact, delete_contact,
}
use discord_stoat_ferry.Feedback.Store.Admission.{Admits, admit-Admits}
use discord_stoat_ferry.Feedback.Store.Contacts.{get_contact-store_contact}
use discord_stoat_ferry.Feedback.Store.Rows.{IsSound}
use discord_stoat_ferry.Feedback.Store.Runs.{
  Reached, at_start, after, admitted, delivered_to, contact_stored, apply, Reached-IsSound,
}

abbrev empty : Store
empty = record { receipts = []; contacts = []; events = [] }

admit-Admits_example :
    (let kept = cleanup 1000 empty in
      Admits
        (Dict.get kept.receipts "id")
        (claim_receipt "id" "hash" issue 1000 none [])
        (claim_report_quota "source" 1000 kept.events)
        kept
        (admit "id" "hash" issue "source" 1000 none empty))
admit-Admits_example = admit-Admits "id" "hash" issue "source" 1000 none empty

-- An encryption that marks the text.
abbrev plain : Cipher
plain = record { encrypt = λ text. text; decrypt = λ text. some text }

abbrev stored : Store
stored = record {
  receipts = [];
  contacts =
      ("id", record { ciphertext = "me"; created_at = 1000; expires_at = 1000 + contact_retention })
      ∷ [];
  events = [];
}

get_contact-store_contact_example :
    ((get_contact (some plain) "id" 2000 stored).0 ≡ ok (some "me"))
    × ((other : String)
        → str_eq "id" other ≡ false
        → (get_contact (some plain) other 2000 stored).0
          ≡ (get_contact (some plain) other 2000 (cleanup 1000 empty)).0)
    × ((get_contact (some plain) "id" 2000 (delete_contact "id" stored).1).0 ≡ ok none)
unfolding store_contact store_ciphertext cleanup unexpired unexpired_contacts cleanup_expired
    Dict.put
get_contact-store_contact_example =
    get_contact-store_contact plain "id" "me" 1000 2000 empty stored (λ text. refl) (omega arith)
      refl

-- A report that is admitted and delivered, with a contact.
abbrev a_run : Reached (
    apply 1020 (contact_stored "id" "me") (
      apply 1010
        (delivered_to "id" "url")
        (apply 1000 (admitted "id" "hash" issue "source" none) empty)))
a_run = after 1020 (contact_stored "id" "me") (
    after 1010 (delivered_to "id" "url")
      (after 1000 (admitted "id" "hash" issue "source" none) at_start))

Reached-IsSound_example : IsSound (
    apply 1020 (contact_stored "id" "me") (
      apply 1010
        (delivered_to "id" "url")
        (apply 1000 (admitted "id" "hash" issue "source" none) empty)))
Reached-IsSound_example = Reached-IsSound a_run
