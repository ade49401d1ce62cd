-- ===== src/Core/Codec/Write.antt =====
-- crates/augecoin-core/src/operation.rs: the writers. A buffer that is appended to is the
-- concatenation of what is written.
use augecoin.Base.{ℕ, Option, none, some, List, [], ◌∷◌, ◌++◌, Bytes, length, to_be_bytes}
use augecoin.Core.Operation.{
  Signature, SenderInfo, ReceiverInfo, AddressReceiverInfo, ChangerInfo, ValidatorAdminOp,
  OperationPayload, Operation,
}

unfoldable pub write_u64 : ℕ → Bytes
write_u64 v = to_be_bytes 8 v

unfoldable pub write_u32 : ℕ → Bytes
write_u32 v = to_be_bytes 4 v

unfoldable pub write_u16 : ℕ → Bytes
write_u16 v = to_be_bytes 2 v

unfoldable pub write_bytes_with_len : Bytes → Bytes
unfolding write_u16
write_bytes_with_len bytes = write_u16 (length bytes) ++ bytes

unfoldable pub write_optional_str : Option Bytes → Bytes
unfolding write_u16
write_optional_str none = write_u16 0xFFFF
write_optional_str (some s) = write_u16 (length s) ++ s

unfoldable pub write_sender : SenderInfo → Bytes
unfolding write_u64 write_bytes_with_len
write_sender s =
    write_u64 s.account
    ++ (write_u64 s.n_operation ++ (write_u64 s.amount ++ write_bytes_with_len s.payload))

unfoldable pub write_receiver : ReceiverInfo → Bytes
unfolding write_u64 write_bytes_with_len
write_receiver r = write_u64 r.account ++ (write_u64 r.amount ++ write_bytes_with_len r.payload)

-- the loop body over the receivers of an `AddressTransaction`
unfoldable pub write_address_receiver : AddressReceiverInfo → Bytes
unfolding write_u64 write_bytes_with_len
write_address_receiver r =
    r.address.hash
    ++ (elim r.address.public_key [ none ↦ 0 ∷ [] | some key ↦ 1 ∷ key ]
        ++ (write_u64 r.amount ++ write_bytes_with_len r.payload))

unfoldable pub write_changer : ChangerInfo → Bytes
unfolding write_u64 write_u16 write_bytes_with_len write_optional_str
write_changer c =
    write_u64 c.account
    ++ (write_u64 c.n_operation
        ++ (c.new_ed25519_public_key
            ++ (write_optional_str c.new_name
                ++ (write_u16 c.new_type
                    ++ (write_bytes_with_len c.new_account_data
                        ++ (write_bytes_with_len c.new_account_seal ++ write_u64 c.fee))))))

-- `for x in xs { write(x) }`
unfoldable pub write_each : {A : Type 0} → (A → Bytes) → List A → Bytes
write_each f [] = []
write_each f (x ∷ xs) = f x ++ write_each f xs

-- a count, then the elements
unfoldable pub write_list : {A : Type 0} → (A → Bytes) → List A → Bytes
unfolding write_u32 write_each
write_list f xs = write_u32 (length xs) ++ write_each f xs

unfoldable pub admin_op_to_bytes : ValidatorAdminOp → Bytes
unfolding write_u64
admin_op_to_bytes (ValidatorAdminOp.add key height) = 0 ∷ (key ++ write_u64 height)
admin_op_to_bytes (ValidatorAdminOp.remove id height) = 1 ∷ (write_u64 id ++ write_u64 height)
admin_op_to_bytes (ValidatorAdminOp.activate id height) = 2 ∷ (write_u64 id ++ write_u64 height)
admin_op_to_bytes (ValidatorAdminOp.deactivate id height) = 3 ∷ (write_u64 id ++ write_u64 height)

-- `OperationPayload::op_type`, as its byte
unfoldable pub op_type : OperationPayload → ℕ
op_type (OperationPayload.transaction _ _ _ _) = 0x01
op_type (OperationPayload.address_transaction _ _ _) = 0x0F
op_type (OperationPayload.change_key _ _ _ _) = 0x02
op_type (OperationPayload.recover_founds _) = 0x03
op_type (OperationPayload.list_account_for_sale _) = 0x04
op_type (OperationPayload.delist_account _ _ _) = 0x05
op_type (OperationPayload.buy_account _) = 0x06
op_type (OperationPayload.change_key_signed _ _ _ _ _) = 0x07
op_type (OperationPayload.change_account_info _) = 0x08
op_type (OperationPayload.multi_operation _ _ _ _) = 0x09
op_type (OperationPayload.data_operation _) = 0x0A
op_type (OperationPayload.validator_admin _) = 0x0B
op_type (OperationPayload.create_account _ _ _) = 0x0C
op_type (OperationPayload.gift_account _ _ _ _) = 0x0D
op_type (OperationPayload.accept_gift _ _ _) = 0x0E
op_type (OperationPayload.contract _) = 0x10

-- what `OperationPayload::to_bytes` writes behind the tag
unfoldable pub payload_body : OperationPayload → Bytes
unfolding write_u64 write_u16 write_bytes_with_len write_optional_str write_list write_sender
    write_receiver write_address_receiver write_changer admin_op_to_bytes
payload_body (OperationPayload.transaction senders receivers changers fee) =
    write_list write_sender senders
    ++ (write_list write_receiver receivers ++ (write_list write_changer changers ++ write_u64 fee))
payload_body (OperationPayload.address_transaction senders receivers fee) =
    write_list write_sender senders
    ++ (write_list write_address_receiver receivers ++ write_u64 fee)
payload_body (OperationPayload.change_key account n fee key) =
    write_u64 account ++ (write_u64 n ++ (write_u64 fee ++ key))
payload_body (OperationPayload.recover_founds account) = write_u64 account
payload_body (OperationPayload.list_account_for_sale l) =
    write_u64 l.account
    ++ (write_u64 l.n_operation
        ++ (write_u64 l.sale_price
            ++ (write_u64 l.account_to_pay
                ++ (l.new_ed25519_public_key
                    ++ (write_u64 l.locked_until_block ++ write_u64 l.fee)))))
payload_body (OperationPayload.delist_account account n fee) =
    write_u64 account ++ (write_u64 n ++ write_u64 fee)
payload_body (OperationPayload.buy_account p) =
    write_u64 p.buyer_account
    ++ (write_u64 p.n_operation
        ++ (write_u64 p.account_to_purchase
            ++ (write_u64 p.amount
                ++ (write_u64 p.fee ++ (p.new_ed25519_public_key ++ write_u64 p.seller_account)))))
payload_body (OperationPayload.change_key_signed account n fee key signature) =
    write_u64 account ++ (write_u64 n ++ (write_u64 fee ++ (key ++ signature)))
payload_body (OperationPayload.change_account_info i) =
    write_u64 i.account
    ++ (write_u64 i.n_operation
        ++ (write_u64 i.fee
            ++ (i.new_ed25519_public_key
                ++ (write_optional_str i.new_name
                    ++ (write_u16 i.new_type
                        ++ (write_bytes_with_len i.new_account_data
                            ++ write_bytes_with_len i.new_account_seal))))))
payload_body (OperationPayload.multi_operation senders receivers changers fee) =
    write_list write_sender senders
    ++ (write_list write_receiver receivers ++ (write_list write_changer changers ++ write_u64 fee))
payload_body (OperationPayload.data_operation d) =
    write_u64 d.account
    ++ (write_u64 d.n_operation
        ++ (write_u64 d.fee
            ++ (write_bytes_with_len d.contents
                ++ (write_list write_sender d.senders
                    ++ (write_list write_receiver d.receivers
                        ++ write_list write_changer d.changers)))))
payload_body (OperationPayload.validator_admin op) = admin_op_to_bytes op
payload_body (OperationPayload.create_account number key metadata) =
    write_u64 number ++ (key ++ write_bytes_with_len metadata)
payload_body (OperationPayload.gift_account account n key fee) =
    write_u64 account ++ (write_u64 n ++ (key ++ write_u64 fee))
payload_body (OperationPayload.accept_gift account n fee) =
    write_u64 account ++ (write_u64 n ++ write_u64 fee)
payload_body (OperationPayload.contract c) =
    write_u64 c.account
    ++ (write_u64 c.n_operation
        ++ (write_u64 c.fee ++ (c.op_type ∷ write_bytes_with_len c.contents)))

unfoldable pub payload_to_bytes : OperationPayload → Bytes
unfolding op_type payload_body
payload_to_bytes p = op_type p ∷ payload_body p

-- what is signed
unfoldable pub to_bytes_stripped : Operation → Bytes
unfolding payload_to_bytes write_u64
to_bytes_stripped op = payload_to_bytes op.payload ++ write_u64 op.chain_id

unfoldable pub operation_to_bytes : Operation → Bytes
unfolding to_bytes_stripped write_list
operation_to_bytes op = to_bytes_stripped op ++ write_list (λ (s : Signature). s) op.signatures
