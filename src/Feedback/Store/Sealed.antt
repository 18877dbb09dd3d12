-- ===== src/Feedback/Store/Sealed.antt =====
-- feedback_service/store.py: the contacts, which are stored encrypted.
use discord_stoat_ferry.Prelude.{ℕ, ◌+◌, String, Bool, Option, none, some}
use discord_stoat_ferry.Prelude.Result.{Result, ok, err}
use discord_stoat_ferry.Prelude.Dict
use discord_stoat_ferry.Prelude.Dict.{Dict}
use discord_stoat_ferry.Feedback.Store.{Contact, Store, cleanup, contact_retention}

-- `_store_contact_sync`
unfoldable pub store_ciphertext : String → String → ℕ → Store → Store
store_ciphertext id ciphertext now store =
    let kept = cleanup now store in
    record {
      receipts = kept.receipts;
      contacts = Dict.put kept.contacts id (record {
        ciphertext = ciphertext;
        created_at = now;
        expires_at = now + contact_retention;
      });
      events = kept.events;
    }

abbrev pub ciphertext_of : Option Contact → Option String
ciphertext_of none = none
ciphertext_of (some contact) = some contact.ciphertext

-- `_get_contact_sync`
unfoldable pub get_ciphertext : String → ℕ → Store → Option String × Store
get_ciphertext id now store =
    let kept = cleanup now store in (ciphertext_of (Dict.get kept.contacts id), kept)

-- `_delete_contact_sync`
unfoldable pub delete_contact : String → Store → Bool × Store
delete_contact id store = (
  Dict.has store.contacts id,
  record {
    receipts = store.receipts;
    contacts = Dict.remove store.contacts id;
    events = store.events;
  },
)

-- The encryption of contacts, which the service may lack: `encrypt`, and `decrypt`, which may fail.
pub record Cipher : Type 0 where
  pub encrypt : String → String
  pub decrypt : String → Option String

pub data ContactError : Type 0 where
  not_configured contact_decryption : ContactError

abbrev pub read_plain : Option String → Result ContactError (Option String)
read_plain none = err contact_decryption
read_plain (some email) = ok (some email)

-- `store_contact`
unfoldable pub store_contact :
    Option Cipher → String → Option String → ℕ → Store → Result ContactError Store
store_contact cipher id none now store = ok store
store_contact none id (some email) now store = err not_configured
store_contact (some cipher) id (some email) now store =
    ok (store_ciphertext id (cipher.encrypt email) now store)

abbrev pub decrypt_with : Option Cipher → Option String → Result ContactError (Option String)
decrypt_with cipher none = ok none
decrypt_with none (some ciphertext) = err not_configured
decrypt_with (some cipher) (some ciphertext) = read_plain (cipher.decrypt ciphertext)

-- `get_contact`
unfoldable pub get_contact :
    Option Cipher → String → ℕ → Store → Result ContactError (Option String) × Store
get_contact cipher id now store =
    let (ciphertext, kept) = get_ciphertext id now store in (decrypt_with cipher ciphertext, kept)
