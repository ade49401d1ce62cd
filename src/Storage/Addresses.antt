-- ===== src/Storage/Addresses.antt =====
-- crates/augecoin-storage/src/lib.rs: to which account an address leads that several accounts have the
-- key of, as the three accounts of a leader that a block makes have.
use augecoin.Base.{
  ℕ, ◌≡◌, refl, sym, subst, ◌∙◌, ◌⊎◌, inl, inr, true, false, Option, none, some, List, [], ◌∷◌,
  ◌++◌, Bytes, bytes_eq, bytes_eq_refl, lookup, text_lookup, text_lookup-insert, text_lookup-remove,
  text_lookup-remove_any, All, arith, TextDict,
}
use augecoin.Crypto.{Crypto}
use augecoin.Core.Account.{Account}
use augecoin.Core.Address.{address_of_key}
use augecoin.Storage.{
  SafeBox, SafeboxCache, new_cache, key_of, sync_derived_indices, index_address, forget_address,
  load_account, load_accounts, ensure_safebox_loaded, reindex, reindex_all, old_key,
  commit_resident, resolve_address, stored_of,
}

module _ (c : Crypto) where
  index_address-same :
      (key : Bytes) (number : ℕ) (index : TextDict ℕ)
      → c.valid_key key ≡ true
      → text_lookup (address_of_key c key).hash (index_address c key number index) ≡ some number
  unfolding index_address
  index_address-same key number index valid =
      rw (index_address, valid)
        (text_lookup-insert (address_of_key c key).hash (address_of_key c key).hash number index
          ∙ rw (bytes_eq_refl (address_of_key c key).hash) refl)

  -- The address of the key is not that of another key, or the other is none.
  abbrev pub IsOther : Bytes → Bytes → Type 0
  IsOther key other =
      (c.valid_key other ≡ false)
      ⊎ (bytes_eq (address_of_key c key).hash (address_of_key c other).hash ≡ false)

  index_address-other :
      (key other : Bytes) (number : ℕ) (index : TextDict ℕ)
      → IsOther key other
      → text_lookup (address_of_key c key).hash (index_address c other number index)
        ≡ text_lookup (address_of_key c key).hash index
  unfolding index_address
  index_address-other key other number index (inl invalid) = rw (index_address, invalid) refl
  index_address-other key other number index (inr apart) = ground (
    arith,
    apart,
    text_lookup-insert (address_of_key c key).hash (address_of_key c other).hash number index,
  )

  load_accounts-other :
      (key : Bytes) (cache : SafeboxCache) (stored : List Account)
      → All (λ x. IsOther key (key_of x)) stored
      → resolve_address (load_accounts c cache stored) (address_of_key c key)
        ≡ resolve_address cache (address_of_key c key)
  unfolding load_accounts load_account sync_derived_indices resolve_address
  load_accounts-other key cache [] h = refl
  load_accounts-other key cache (x ∷ stored) (other, more) =
      load_accounts-other key (load_account c cache x) stored more
      ∙ index_address-other key (key_of x) x.account_number cache.address_index other

  load_accounts-last :
      (cache : SafeboxCache) (before after : List Account) (a : Account)
      → c.valid_key (key_of a) ≡ true
      → All (λ x. IsOther (key_of a) (key_of x)) after
      → resolve_address
          (load_accounts c cache (before ++ (a ∷ after)))
          (address_of_key c (key_of a))
        ≡ some a.account_number
  unfolding load_accounts load_account sync_derived_indices resolve_address
  load_accounts-last cache [] after a valid others =
      load_accounts-other (key_of a) (load_account c cache a) after others
      ∙ index_address-same (key_of a) a.account_number cache.address_index valid
  load_accounts-last cache (x ∷ before) after a valid others =
      load_accounts-last (load_account c cache x) before after a valid others

  last_of_two :
      (block : ℕ) (cache : SafeboxCache) (a b : Account)
      → c.valid_key (key_of b) ≡ true
      → resolve_address (commit_resident c block cache (a ∷ b ∷ [])) (address_of_key c (key_of b))
        ≡ some b.account_number
  unfolding commit_resident reindex_all reindex sync_derived_indices resolve_address
  last_of_two block cache a b valid =
      let first =
        index_address c (key_of a) a.account_number
          (forget_address c (old_key c cache.safebox a) cache.address_index) in
      index_address-same (key_of b) b.account_number
        (forget_address c (old_key c cache.safebox b) first) valid

  -- Where a block modifies two accounts that then have one key, the address of the key leads to the one
  -- that comes last in the order in which the HashMap of modified accounts gives them: with either
  -- order, to another account.
  pub commit_order :
      (block : ℕ) (cache : SafeboxCache) (a b : Account)
      → c.valid_key (key_of a) ≡ true
      → key_of a ≡ key_of b
      → (resolve_address (commit_resident c block cache (a ∷ b ∷ [])) (address_of_key c (key_of a))
          ≡ some b.account_number)
        × (resolve_address
              (commit_resident c block cache (b ∷ a ∷ []))
              (address_of_key c (key_of a))
            ≡ some a.account_number)
  commit_order block cache a b valid same = (
    subst
        (λ key.
          resolve_address (commit_resident c block cache (a ∷ b ∷ [])) (address_of_key c key)
          ≡ some b.account_number)
        (sym same) (last_of_two block cache a b (subst (λ key. c.valid_key key ≡ true) same valid)),
    last_of_two block cache b a valid,
  )

  forget_address-gone :
      (key : Bytes) (old : Option Bytes) (index : TextDict ℕ)
      → c.valid_key key ≡ true
      → old ≡ some key
      → text_lookup (address_of_key c key).hash (forget_address c old index) ≡ none
  unfolding forget_address
  forget_address-gone key old index valid e =
      rw (e, forget_address, valid) (text_lookup-remove (address_of_key c key).hash index)

  forget_address-none :
      (h : Bytes) (old : Option Bytes) (index : TextDict ℕ)
      → text_lookup h index ≡ none
      → text_lookup h (forget_address c old index) ≡ none
  unfolding forget_address
  forget_address-none h none index gone = gone
  forget_address-none h (some key) index gone =
      ground (arith, gone, text_lookup-remove_any h (address_of_key c key).hash index)

  -- An address that leads nowhere still does so behind modified accounts with other keys.
  stays_gone :
      (block : ℕ) (before : SafeBox) (cache : SafeboxCache) (key : Bytes) (later : List Account)
      → All (λ x. IsOther key (key_of x)) later
      → resolve_address cache (address_of_key c key) ≡ none
      → resolve_address (reindex_all c block before cache later) (address_of_key c key) ≡ none
  unfolding reindex_all reindex sync_derived_indices resolve_address
  stays_gone block before cache key [] others gone = gone
  stays_gone block before cache key (x ∷ later) (other, others) gone =
      let old = old_key c before x in
      stays_gone block before (reindex c block cache x old) key later others (
        index_address-other key (key_of x) x.account_number
          (forget_address c old cache.address_index) other
        ∙ forget_address-none (address_of_key c key).hash old cache.address_index gone)

  forgotten :
      (block : ℕ) (before : SafeBox) (cache : SafeboxCache) (old changed : Account)
      (earlier later : List Account)
      → c.valid_key (key_of old) ≡ true
      → IsOther (key_of old) (key_of changed)
      → lookup changed.account_number before.accounts ≡ some old
      → All (λ x. IsOther (key_of old) (key_of x)) later
      → resolve_address
          (reindex_all c block before cache (earlier ++ (changed ∷ later)))
          (address_of_key c (key_of old))
        ≡ none
  unfolding reindex_all reindex sync_derived_indices resolve_address
  forgotten block before cache old changed [] later valid other found others =
      let had : old_key c before changed ≡ some (key_of old) = rw (found, old_key) refl in
      stays_gone block before (reindex c block cache changed (old_key c before changed))
        (key_of old) later others
        (index_address-other (key_of old) (key_of changed) changed.account_number
            (forget_address c (old_key c before changed) cache.address_index) other
          ∙ forget_address-gone (key_of old) (old_key c before changed) cache.address_index valid
              had)
  forgotten block before cache old changed (x ∷ earlier) later valid other found others =
      forgotten block before (reindex c block cache x (old_key c before x)) old changed earlier
        later valid other found others

  -- Where a block, among the accounts that it modifies, changes the key of one of several accounts with
  -- a key, and none that comes behind it in the order of the modified accounts has the key, the address
  -- of the key leads nowhere on a node that goes on. A node that starts again with the accounts of the
  -- same SafeBox finds the last of them, in the order of their numbers, that still has the key.
  pub restart_resolves_differently :
      (block : ℕ) (cache : SafeboxCache) (old changed a : Account)
      (earlier later before after : List Account)
      → c.valid_key (key_of old) ≡ true
      → lookup changed.account_number cache.safebox.accounts ≡ some old
      → IsOther (key_of old) (key_of changed)
      → All (λ x. IsOther (key_of old) (key_of x)) later
      → stored_of (commit_resident c block cache (earlier ++ (changed ∷ later)))
        ≡ before ++ (a ∷ after)
      → key_of a ≡ key_of old
      → All (λ x. IsOther (key_of a) (key_of x)) after
      → (resolve_address
            (commit_resident c block cache (earlier ++ (changed ∷ later)))
            (address_of_key c (key_of old))
          ≡ none)
        × (resolve_address
              (ensure_safebox_loaded c
                (stored_of (commit_resident c block cache (earlier ++ (changed ∷ later)))))
              (address_of_key c (key_of old))
            ≡ some a.account_number)
  unfolding ensure_safebox_loaded commit_resident resolve_address
  restart_resolves_differently block cache old changed a earlier later before after valid found
        other behind stored same others =
      (
        forgotten block cache.safebox cache old changed earlier later valid other found behind,
        rw (stored, ← same)
            (load_accounts-last new_cache before after a
              (subst (λ key. c.valid_key key ≡ true) (sym same) valid) others),
      )
