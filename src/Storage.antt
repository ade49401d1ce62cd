-- ===== src/Storage.antt =====
-- crates/augecoin-storage/src/lib.rs: the resident cache of the SafeBox with its derived indexes, and
-- `add_account` of crates/augecoin-core/src/safe_box.rs, on which it rests. An address is its hash. The
-- snapshots, their counters and the database are left out: `stored` is the list of the accounts in the
-- database, in the order of their numbers, and `modified` the accounts of a block in the order in which
-- a HashMap gives them.
pub mod Addresses
use augecoin.Base.{
  ℕ, ◌+◌, ◌-◌, Bool, true, false, not, Option, none, some, List, [], ◌∷◌, ltb, leb, ◌==◌,
  if◌then◌else◌, Bytes, bytes_eq, take, map, Dict, TextDict, lookup, insert, text_lookup,
  text_insert, text_remove,
}
use augecoin.Crypto.{Crypto}
use augecoin.Core.Account.{AccountState, Account}
use augecoin.Core.Operation.{AddressHash}
use augecoin.Core.Address.{address_of_key}
use augecoin.Core.SafeBox.{SafeBox}

pub record SaleListing : Type 0 where
  pub account_number : ℕ
  pub seller_public_key : Bytes
  pub price : ℕ
  pub listed_at_block : ℕ

pub record GiftListing : Type 0 where
  pub account_number : ℕ
  pub from_account_number : ℕ
  pub recipient_public_key : Bytes
  pub gifted_at_block : ℕ

pub record SafeboxCache : Type 0 where
  pub safebox : SafeBox
  pub pubkey_index : TextDict ℕ
  pub address_index : TextDict ℕ
  pub sale_index : Dict SaleListing
  pub gift_index : Dict GiftListing

unfoldable pub new_cache : SafeboxCache
new_cache = record {
  safebox = record { accounts = []; name_index = [] };
  pubkey_index = [];
  address_index = [];
  sale_index = [];
  gift_index = [];
}

abbrev pub key_of : Account → Bytes
key_of a = a.account_info.account_key

-- `BTreeMap::insert` for the accounts
unfoldable pub insert_ordered {ℓ} : {A : Type ℓ} → ℕ → A → Dict A → Dict A
insert_ordered k v [] = (k, v) ∷ []
insert_ordered k v ((j, w) ∷ d) =
    let rest = insert_ordered k v d in
    if k == j then (k, v) ∷ d else if ltb k j then (k, v) ∷ (j, w) ∷ d else (j, w) ∷ rest

unfoldable pub bytes_less : Bytes → Bytes → Bool
bytes_less xs [] = false
bytes_less [] (y ∷ ys) = true
bytes_less (x ∷ xs) (y ∷ ys) =
    let rest = bytes_less xs ys in if ltb x y then true else if ltb y x then false else rest

-- `BTreeMap::insert` for the names
unfoldable pub text_insert_ordered {ℓ} : {A : Type ℓ} → Bytes → A → TextDict A → TextDict A
unfolding bytes_eq bytes_less
text_insert_ordered k v [] = (k, v) ∷ []
text_insert_ordered k v ((j, w) ∷ d) =
    let rest = text_insert_ordered k v d in
    if bytes_eq k j
    then (k, v) ∷ d
    else if bytes_less k j
    then (k, v) ∷ (j, w) ∷ d
    else (j, w) ∷ rest

abbrev pub name_freed : Option Account → TextDict ℕ → TextDict ℕ
name_freed none names = names
name_freed (some old) names = elim old.name [
  | none ↦ names
  | some old_name ↦ text_remove old_name names
]

abbrev pub name_claimed : Account → TextDict ℕ → TextDict ℕ
name_claimed a names = elim a.name [
  | none ↦ names
  | some name ↦ text_insert_ordered name a.account_number names
]

unfoldable pub add_account : SafeBox → Account → SafeBox
unfolding lookup text_remove text_insert_ordered insert_ordered
add_account sb a = record {
  accounts = insert_ordered a.account_number a sb.accounts;
  name_index = name_claimed a (name_freed (lookup a.account_number sb.accounts) sb.name_index);
}

abbrev pub counted : TextDict ℕ → Bytes → ℕ
counted index key = elim (text_lookup key index) [ none ↦ 0 | some n ↦ n ]

-- `bump_pubkey` by one; a count stays below 2^63.
unfoldable pub bump_up : Bytes → TextDict ℕ → TextDict ℕ
unfolding text_lookup text_insert
bump_up key index = text_insert key (counted index key + 1) index

-- `bump_pubkey` by minus one
unfoldable pub bump_down : Bytes → TextDict ℕ → TextDict ℕ
unfolding text_lookup text_insert text_remove
bump_down key index =
    if counted index key - 1 == 0
    then text_remove key index
    else text_insert key (counted index key - 1) index

-- `HashMap::remove`
unfoldable pub forget {ℓ} : {A : Type ℓ} → ℕ → Dict A → Dict A
forget k [] = []
forget k (e ∷ d) = let rest = forget k d in if k == e.0 then rest else e ∷ rest

abbrev pub listed_sale : Account → ℕ → Dict SaleListing → Dict SaleListing
listed_sale a block index = elim a.account_info.state [
  | AccountState.for_sale ↦
      insert a.account_number
        (record {
          account_number = a.account_number;
          seller_public_key = key_of a;
          price = a.account_info.price;
          listed_at_block = block;
        })
        index
  | _ ↦ forget a.account_number index
]

abbrev pub listed_gift : Account → ℕ → Dict GiftListing → Dict GiftListing
listed_gift a block index = elim a.account_info.state [
  | AccountState.gift_pending ↦ elim a.account_info.new_public_key [
    | none ↦ index
    | some recipient ↦
        insert a.account_number
          (record {
            account_number = a.account_number;
            from_account_number = 0;
            recipient_public_key = recipient;
            gifted_at_block = block;
          })
          index
  ]
  | _ ↦ forget a.account_number index
]

unfoldable pub sync_derived_indices : Account → ℕ → SafeboxCache → SafeboxCache
unfolding insert forget
sync_derived_indices a block cache = record cache {
  sale_index = listed_sale a block cache.sale_index;
  gift_index = listed_gift a block cache.gift_index;
}

module _ (c : Crypto) where
  -- An address is indexed, or forgotten, where the bytes are a key.
  unfoldable pub index_address : Bytes → ℕ → TextDict ℕ → TextDict ℕ
  unfolding text_insert address_of_key
  index_address key number index =
      if c.valid_key key then text_insert (address_of_key c key).hash number index else index

  unfoldable pub forget_address : Option Bytes → TextDict ℕ → TextDict ℕ
  unfolding text_remove address_of_key
  forget_address none index = index
  forget_address (some key) index =
      if c.valid_key key then text_remove (address_of_key c key).hash index else index

  -- The loop body of `ensure_safebox_loaded`.
  unfoldable pub load_account : SafeboxCache → Account → SafeboxCache
  unfolding bump_up index_address sync_derived_indices add_account
  load_account cache a = sync_derived_indices a 0 (record cache {
    pubkey_index = bump_up (key_of a) cache.pubkey_index;
    address_index = index_address (key_of a) a.account_number cache.address_index;
    safebox = add_account cache.safebox a;
  })

  unfoldable pub load_accounts : SafeboxCache → List Account → SafeboxCache
  unfolding load_account
  load_accounts cache [] = cache
  load_accounts cache (a ∷ stored) = load_accounts (load_account cache a) stored

  unfoldable pub ensure_safebox_loaded : List Account → SafeboxCache
  unfolding load_accounts new_cache
  ensure_safebox_loaded stored = load_accounts new_cache stored

  abbrev pub bump_old : Option Bytes → TextDict ℕ → TextDict ℕ
  bump_old none index = index
  bump_old (some key) index = bump_down key index

  -- The loop body over a modified account and the key that it had.
  unfoldable pub reindex : ℕ → SafeboxCache → Account → Option Bytes → SafeboxCache
  unfolding bump_down bump_up forget_address index_address sync_derived_indices
  reindex block cache a old = sync_derived_indices a block (record cache {
    pubkey_index = bump_up (key_of a) (bump_old old cache.pubkey_index);
    address_index =
        index_address (key_of a) a.account_number (forget_address old cache.address_index);
  })

  -- the key of an account before the block
  abbrev pub old_key : SafeBox → Account → Option Bytes
  old_key sb a = elim (lookup a.account_number sb.accounts) [
    | none ↦ none
    | some old ↦ some (key_of old)
  ]

  -- The keys are those of the SafeBox before the block, all of them.
  unfoldable pub reindex_all : ℕ → SafeBox → SafeboxCache → List Account → SafeboxCache
  unfolding reindex lookup
  reindex_all block before cache [] = cache
  reindex_all block before cache (a ∷ modified) =
      reindex_all block before (reindex block cache a (old_key before a)) modified

  unfoldable pub add_all : SafeBox → List Account → SafeBox
  unfolding add_account
  add_all sb [] = sb
  add_all sb (a ∷ modified) = add_all (add_account sb a) modified

  -- The cache after a block, as `commit_block_atomic` leaves it.
  unfoldable pub commit_resident : ℕ → SafeboxCache → List Account → SafeboxCache
  unfolding reindex_all add_all
  commit_resident block cache modified =
      let indexed = reindex_all block cache.safebox cache modified in
      record indexed { safebox = add_all indexed.safebox modified }

unfoldable pub resolve_address : SafeboxCache → AddressHash → Option ℕ
unfolding text_lookup
resolve_address cache address = text_lookup address.hash cache.address_index

abbrev pub account_of : ℕ × Account → Account
account_of (number, a) = a

-- The accounts that the database has, those of the SafeBox.
abbrev pub stored_of : SafeboxCache → List Account
stored_of cache = map account_of cache.safebox.accounts
