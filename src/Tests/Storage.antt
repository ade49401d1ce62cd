-- ===== src/Tests/Storage.antt =====
-- The theorems on the resident cache at concrete inputs.
use augecoin.Base.{◌≡◌, refl, false, inr, none, some, List, [], ◌∷◌, bytes_eq, lookup}
use augecoin.Crypto.{Crypto}
use augecoin.Core.Account.{Account}
use augecoin.Core.Address.{address_of_key}
use augecoin.Storage.{
  SafeboxCache, key_of, ensure_safebox_loaded, commit_resident, resolve_address, stored_of,
  new_cache,
}
use augecoin.Storage.Addresses.{commit_order, restart_resolves_differently}
use augecoin.Tests.Data.{toy, owned}

-- A hash that keeps its input.
abbrev keeping : Crypto
keeping = record toy { blake3_512 = λ bytes. bytes }

abbrev one : Account
one = owned 1 1000 4

-- the account 2 with the key of the account 1
abbrev twin : Account
twin = record (owned 2 50 0) { account_info = (owned 1 0 0).account_info }

abbrev changed : Account
changed = owned 2 50 1

-- what else a block writes: the account of the leader, and a new one with its key
abbrev paid_leader : Account
paid_leader = owned 3 900 0

abbrev emitted : Account
emitted = record (owned 4 0 0) { account_info = (owned 3 0 0).account_info }

abbrev modified : List Account
modified = paid_leader ∷ changed ∷ emitted ∷ []

abbrev loaded : SafeboxCache
loaded = ensure_safebox_loaded keeping (one ∷ twin ∷ owned 3 0 0 ∷ [])

commit_order_example :
    (resolve_address
        (commit_resident keeping 10 new_cache (one ∷ twin ∷ []))
        (address_of_key keeping (key_of one))
      ≡ some 2)
    × (resolve_address
          (commit_resident keeping 10 new_cache (twin ∷ one ∷ []))
          (address_of_key keeping (key_of one))
        ≡ some 1)
commit_order_example = commit_order keeping 10 new_cache one twin refl refl

had_twin : lookup 2 loaded.safebox.accounts ≡ some twin
unfolding ensure_safebox_loaded
had_twin = refl

apart :
    bytes_eq
      (address_of_key keeping (key_of one)).hash
      (address_of_key keeping (key_of changed)).hash
    ≡ false
unfolding bytes_eq address_of_key
apart = refl

apart_leader :
    bytes_eq
      (address_of_key keeping (key_of one)).hash
      (address_of_key keeping (key_of emitted)).hash
    ≡ false
unfolding bytes_eq address_of_key
apart_leader = refl

left :
    stored_of (commit_resident keeping 11 loaded modified)
    ≡ one ∷ changed ∷ paid_leader ∷ emitted ∷ []
unfolding commit_resident ensure_safebox_loaded
left = refl

restart_resolves_differently_example :
    (resolve_address
        (commit_resident keeping 11 loaded modified)
        (address_of_key keeping (key_of twin))
      ≡ none)
    × (resolve_address
          (ensure_safebox_loaded keeping (stored_of (commit_resident keeping 11 loaded modified)))
          (address_of_key keeping (key_of twin))
        ≡ some 1)
restart_resolves_differently_example =
    restart_resolves_differently keeping 11 loaded twin changed one (paid_leader ∷ [])
      (emitted ∷ []) [] (changed ∷ paid_leader ∷ emitted ∷ []) refl had_twin (inr apart)
      (inr apart_leader, tt) left refl (inr apart, (inr apart_leader, (inr apart_leader, tt)))
